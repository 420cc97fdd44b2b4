-- ===== src/YcsbTxn.antt =====
-- benchmarks/ycsb_txn.cpp: the rows that a SCAN request goes through in ycsb_txn_man::run_txn, over
-- the index of storage/index_rw_bskiplist.cpp, when get_row gives the transaction every row.
pub mod Order
mod Examples
use dbx1000_bskiplist.Base.{
  ℕ, zero, suc, ◌+◌, ◌-◌, ◌%◌, List, [], ◌∷◌, false, if◌then◌else◌, ◌==◌, u32_mod,
}
use dbx1000_bskiplist.Run.{Run, done, failed, no_fuel, ◌>>=◌}
use dbx1000_bskiplist.BSkip.Node.{Memory}
use dbx1000_bskiplist.IndexRwBskiplist.{Cursor, index_read, index_next}

module _ (fuel : ℕ) (memory : Memory) (header : ℕ) (next : ℕ → ℕ) where
  -- The rounds of the loop after the first; a null pointer ends it.
  pub later_rounds : ℕ → Cursor → Run (List ℕ)
  later_rounds zero c = done []
  later_rounds (suc rounds) c = index_next fuel memory header next false c >>= λ (item, c').
      let rest = later_rounds rounds c' >>= λ items. done (item ∷ items) in
      if item == 0 then done [] else rest

  -- The items of a request with a key and a scan_len; the 32-bit iteration is 1 after the first round.
  -- The first item is used without a test.
  pub scan_request : ℕ → ℕ → Cursor → Run (List ℕ)
  unfolding later_rounds
  scan_request key scan_len c = index_read fuel memory header next key c >>= λ (item, c').
      let rest =
        later_rounds ((scan_len + (u32_mod - 1)) % u32_mod) c' >>= λ items. done (item ∷ items) in
      if item == 0 then failed else rest
