-- ===== src/OptCc/PerRow.antt =====
-- per_row_validate of concurrency_control/occ.cpp, with the managers of the rows
-- (concurrency_control/row_occ.cpp) and the writes of txn_man::cleanup (system/txn.cpp). All rows of
-- the transaction stay latched from their validation to the end, so it is one step. `wts` gives each
-- row's timestamp.
pub mod Writes
pub mod Verdict
mod Examples
use dbx1000_bskiplist.Base.{
  ℕ, zero, suc, ◌+◌, ◌-◌, Bool, true, false, not, ◌&&◌, ◌||◌, if◌then◌else◌, ◌==◌, ltb, leb, Option,
  some, none, ◌>>=◌,
}
use dbx1000_bskiplist.RowLock.{Rc, rc_ok, abort}
use dbx1000_bskiplist.Vll.{Access}
use dbx1000_bskiplist.OptCc.{is_write}
use dbx1000_bskiplist.BubbleSort.{bubble_sort}

-- Row_occ::access of an R_REQ; the row is copied when it is rc_ok.
abbrev pub access : ℕ → ℕ → Rc
access start_ts wts = if ltb start_ts wts then abort else rc_ok

-- Row_occ::validate
abbrev pub validate : ℕ → ℕ → Bool
validate ts wts = if ltb ts wts then false else true

-- Row_occ::write; nothing where its assertion fails.
abbrev pub write : ℕ → ℕ → (ℕ → ℕ) → Option (ℕ → ℕ)
write row ts wts =
    let after : ℕ → ℕ = λ r. if r == row then ts else wts r in
    if ltb (wts row) ts then some after else none

-- The loop that latches and validates: how many rows it has latched, and `ok`.
pub latch_rows : (ℕ → ℕ) → ℕ → (ℕ → Access) → ℕ → ℕ → ℕ × Bool
latch_rows wts start_ts accesses zero i = (i, true)
latch_rows wts start_ts accesses (suc rounds) i =
    let rest = latch_rows wts start_ts accesses rounds (i + 1) in
    if validate start_ts (wts (accesses i).orig_row) then rest else (i + 1, false)

-- The loop of txn_man::cleanup, from the last access down.
pub write_rows : ℕ → (ℕ → Access) → ℕ → (ℕ → ℕ) → Option (ℕ → ℕ)
write_rows zero accesses end_ts wts = some wts
write_rows (suc rid) accesses end_ts wts =
    let a = accesses rid in
    (if is_write a.type then write a.orig_row end_ts wts else some wts) >>= λ after.
    write_rows rid accesses end_ts after

-- Two tables' names compared by strcmp: its result is above, or is, 0.
module _ (name_above same_name : ℕ → ℕ → Bool) (table primary_key : ℕ → ℕ) where
  abbrev pub row_above : Access → Access → Bool
  row_above a b =
      name_above (table a.orig_row) (table b.orig_row)
      || (same_name (table a.orig_row) (table b.orig_row)
          && ltb (primary_key b.orig_row) (primary_key a.orig_row))

  -- The result, and the timestamps of the rows, which are all released at the end.
  pub per_row_validate : ℕ → (ℕ → Access) → ℕ → ℕ → (ℕ → ℕ) → Option (Rc × (ℕ → ℕ))
  unfolding latch_rows write_rows
  per_row_validate row_cnt accesses start_ts end_ts wts =
      let sorted = bubble_sort row_above row_cnt accesses in
      let commit = write_rows row_cnt sorted end_ts wts >>= λ after. some (rc_ok, after) in
      if (latch_rows wts start_ts sorted row_cnt 0).1 then commit else some (abort, wts)
