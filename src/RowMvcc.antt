-- ===== src/RowMvcc.antt =====
-- concurrency_control/row_mvcc.h and row_mvcc.cpp: multiversion timestamp ordering of one row, as
-- built without DEBUG_CC. A row_t is its address, 0 the null pointer, and `heap` the contents at each
-- address. The history is an array; the requests are the list of their slots, `none` a slot that is
-- not valid. Each access runs under the row's latch and is one step.
pub mod Reserve
pub mod Access
pub mod Versions
pub mod Slots
pub mod Swap
pub mod Collect
pub mod Recycle
pub mod Replace
pub mod Double
pub mod Choose
pub mod Granted
pub mod Chosen
pub mod Prewrite
pub mod Quiet
pub mod ServeStep
pub mod ServeBusy
pub mod Serve
pub mod Invariant
pub mod Reads
pub mod Prewrites
pub mod Written
pub mod Writes
pub mod Steps
pub mod Init
mod Examples
use dbx1000_bskiplist.Base.{
  ℕ, zero, suc, ◌+◌, ◌*◌, ◌%◌, Bool, true, false, not, ◌&&◌, ◌||◌, Option, none, some, List, [],
  ◌∷◌, ◌++◌, if◌then◌else◌, ltb, leb, ◌==◌, assert, ◌>>=◌, ◌>>◌, dec32, u32_mod,
}
use dbx1000_bskiplist.RowLock.{Rc, rc_ok, abort, wait}
use dbx1000_bskiplist.RowTs.{TsType, r_req, p_req, uint64_max, update}

pub record WriteHisEntry : Type 0 where
  pub valid : Bool
  pub reserved : Bool
  pub ts : ℕ
  pub row : ℕ

pub record ReqEntry : Type 0 where
  pub type : TsType
  pub ts : ℕ
  pub txn : ℕ

abbrev pub Slots : Type 0
Slots = List (Option ReqEntry)

pub record RowMvcc (D : Type 0) : Type 0 where
  pub row : ℕ
  pub latest_row : ℕ
  pub latest_wts : ℕ
  pub oldest_wts : ℕ
  pub write_history : ℕ → WriteHisEntry
  pub his_len : ℕ
  pub exists_prewrite : Bool
  pub prewrite_ts : ℕ
  pub prewrite_his_id : ℕ
  pub max_served_rts : ℕ
  pub num_versions : ℕ
  pub requests : Slots
  pub heap : ℕ → D

abbrev pub empty_entry : WriteHisEntry
empty_entry = record { valid = false; reserved = false; ts = 0; row = 0 }

-- buffer_req: the first free slot, or one of the new half.
pub put_free : ReqEntry → Slots → Option Slots
put_free q [] = none
put_free q (none ∷ slots) = some (some q ∷ slots)
put_free q (some r ∷ slots) = put_free q slots >>= λ rest. some (some r ∷ rest)

pub free_slots : Slots → Slots
free_slots [] = []
free_slots (slot ∷ slots) = none ∷ free_slots slots

abbrev pub or_else : Option Slots → Option Slots → Option Slots
or_else (some slots) other = some slots
or_else none other = other

pub buffer_req : ReqEntry → Slots → Option Slots
buffer_req q slots = or_else (put_free q slots) (put_free q (slots ++ free_slots slots))

-- The version with the greatest timestamp below a bound: that timestamp, as the loop keeps it, and
-- its index, at first the length; `keep` is the width of the variable.
pub newest_below : (ℕ → ℕ) → (ℕ → WriteHisEntry) → ℕ → ℕ → ℕ → ℕ → ℕ → ℕ × ℕ
newest_below keep history bound zero i best idx = (best, idx)
newest_below keep history bound (suc rounds) i best idx =
    let e = history i in
    let better = e.valid && ltb e.ts bound && ltb best e.ts in
    newest_below keep history bound rounds (i + 1) (if better then keep e.ts else best)
      (if better then i else idx)

-- The oldest version: its timestamp and its index.
pub oldest_version : (ℕ → WriteHisEntry) → ℕ → ℕ → ℕ → ℕ → ℕ × ℕ
oldest_version history zero i best idx = (best, idx)
oldest_version history (suc rounds) i best idx =
    let e = history i in
    let older = e.valid && ltb e.ts best in
    oldest_version history rounds (i + 1) (if older then e.ts else best) (if older then i else idx)

abbrev pub is_free : WriteHisEntry → Bool
is_free e = not e.valid && not e.reserved

-- An unused entry, one with a row if there is any.
pub unused_entry : (ℕ → WriteHisEntry) → ℕ → ℕ → ℕ → ℕ
unused_entry history zero i idx = idx
unused_entry history (suc rounds) i idx =
    let e = history i in
    let rest = unused_entry history rounds (i + 1) (if is_free e then i else idx) in
    if is_free e && not (e.row == 0) then i else rest

abbrev pub is_prewrite : TsType → Bool
is_prewrite p_req = true
is_prewrite _ = false

-- The smallest timestamp of a pending prewrite above one.
pub next_prewrite : ℕ → Slots → ℕ → ℕ
next_prewrite ts [] best = best
next_prewrite ts (none ∷ slots) best = next_prewrite ts slots best
next_prewrite ts (some q ∷ slots) best =
    next_prewrite ts slots
      (if is_prewrite q.type && ltb ts q.ts && ltb q.ts best then q.ts else best)

module _ {D : Type 0} where
  -- `stale` are the timestamps in memory that is not set; of the prewrite only the flag is.
  pub init : ℕ → (ℕ → ℕ) → (ℕ → D) → RowMvcc D
  init row stale heap = record {
    row = row;
    latest_row = row;
    latest_wts = 0;
    oldest_wts = 0;
    write_history = λ i. record empty_entry { ts = stale i };
    his_len = 4;
    exists_prewrite = false;
    prewrite_ts = 0;
    prewrite_his_id = 0;
    max_served_rts = 0;
    num_versions = 0;
    requests = none ∷ none ∷ none ∷ none ∷ [];
    heap = heap;
  }
