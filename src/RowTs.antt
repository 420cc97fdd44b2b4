-- ===== src/RowTs.antt =====
-- concurrency_control/row_ts.h and row_ts.cpp: basic timestamp ordering of one row, as built with
-- TS_TWR false. `D` is the contents of a row; a request without a row has `none`. The buffers are
-- lists, newest first. `cur_row` and `ts_ready` are the fields of those names of every txn_man, by
-- its address. Each access runs under the row's latch and is one step.
pub mod Buffers
pub mod Progress
pub mod Invariant
pub mod Accesses
pub mod Writes
pub mod Reached
mod Examples
use dbx1000_bskiplist.Run.{Run, done, failed, no_fuel, ◌>>=◌, Ends, Ends-bind, Ends-done}
use dbx1000_bskiplist.RowLock.{Rc, rc_ok, abort, wait}
use dbx1000_bskiplist.Base.{
  ℕ, zero, suc, ◌+◌, ◌-◌, ◌%◌, Bool, true, false, Option, none, some, List, [], ◌∷◌, if◌then◌else◌,
  ltb, leb, ◌==◌,
}

abbrev pub uint64_max : ℕ
uint64_max = 18446744073709551615

abbrev pub u64_mod : ℕ
u64_mod = 18446744073709551616

pub data TsType : Type 0 where
  r_req w_req p_req xp_req : TsType

pub record Req (D : Type 0) : Type 0 where
  pub txn : ℕ
  pub row : Option D
  pub ts : ℕ

pub record RowTs (D : Type 0) : Type 0 where
  pub row : D
  pub wts : ℕ
  pub rts : ℕ
  pub min_wts : ℕ
  pub min_rts : ℕ
  pub min_pts : ℕ
  pub readreq : List (Req D)
  pub writereq : List (Req D)
  pub prereq : List (Req D)
  pub preq_len : ℕ
  pub cur_row : ℕ → Option D
  pub ts_ready : ℕ → Bool

abbrev pub update {ℓ} : {A : Type ℓ} → (ℕ → A) → ℕ → A → ℕ → A
update f a v x = if x == a then v else f x

abbrev pub at_least : ℕ → ℕ → ℕ
at_least old ts = if ltb old ts then ts else old

abbrev pub at_most : ℕ → ℕ → ℕ
at_most old ts = if ltb ts old then ts else old

module _ {D : Type 0} where
  pub init : D → (ℕ → Option D) → (ℕ → Bool) → RowTs D
  init row cur_row ts_ready = record {
    row = row;
    wts = 0;
    rts = 0;
    min_wts = uint64_max;
    min_rts = uint64_max;
    min_pts = uint64_max;
    readreq = [];
    writereq = [];
    prereq = [];
    preq_len = 0;
    cur_row = cur_row;
    ts_ready = ts_ready;
  }

  -- buffer_req, for each of the three types it serves.
  abbrev pub buffer_read : Req D → RowTs D → RowTs D
  buffer_read q s = record s { readreq = q ∷ s.readreq; min_rts = at_most s.min_rts q.ts }

  abbrev pub buffer_write : Req D → RowTs D → Run (RowTs D)
  buffer_write q s = elim q.row [
    | none ↦ failed
    | some d ↦ done (record s { writereq = q ∷ s.writereq; min_wts = at_most s.min_wts q.ts })
  ]

  abbrev pub buffer_pre : Req D → RowTs D → RowTs D
  buffer_pre q s = record s {
    prereq = q ∷ s.prereq;
    min_pts = at_most s.min_pts q.ts;
    preq_len = (s.preq_len + 1) % u64_mod;
  }

  -- debuffer_req by transaction: the queue less its first request of the transaction.
  pub remove_txn : ℕ → List (Req D) → Run (List (Req D))
  remove_txn txn [] = failed
  remove_txn txn (q ∷ qs) =
      if q.txn == txn then done qs else (remove_txn txn qs >>= λ rest. done (q ∷ rest))

  pub debuffer_pre : ℕ → RowTs D → Run (RowTs D)
  debuffer_pre txn s = do
    prereq ← remove_txn txn s.prereq
    done (record s { prereq = prereq; preq_len = (s.preq_len + u64_mod - 1) % u64_mod })

  -- debuffer_req by timestamp: the requests taken, the last one first, and those left.
  pub taken : ℕ → List (Req D) → List (Req D) → List (Req D)
  taken ts acc [] = acc
  taken ts acc (q ∷ qs) = taken ts (if leb q.ts ts then q ∷ acc else acc) qs

  pub left : ℕ → List (Req D) → List (Req D)
  left ts [] = []
  left ts (q ∷ qs) = let rest = left ts qs in if leb q.ts ts then rest else q ∷ rest

  -- cal_min, from the minimum so far.
  pub min_from : ℕ → List (Req D) → ℕ
  min_from m [] = m
  min_from m (q ∷ qs) = min_from (at_most m q.ts) qs

  pub cal_min : List (Req D) → ℕ
  unfolding min_from
  cal_min qs = min_from uint64_max qs

  -- Each read that is ready gets the row, and its transaction goes on.
  abbrev pub perform_read : Req D → RowTs D → RowTs D
  perform_read q s = record s {
    cur_row = update s.cur_row q.txn (some s.row);
    rts = at_least s.rts q.ts;
    ts_ready = update s.ts_ready q.txn true;
  }

  pub perform_reads : List (Req D) → RowTs D → RowTs D
  perform_reads [] s = s
  perform_reads (q ∷ qs) s = perform_reads qs (perform_read q s)

  pub debuffer_pres : List (Req D) → RowTs D → Run (RowTs D)
  debuffer_pres [] s = done s
  debuffer_pres (q ∷ qs) s = debuffer_pre q.txn s >>= debuffer_pres qs

  -- The loop that sets young_ts and young_req.
  pub choose_young : ℕ → Option (Req D) → List (Req D) → Option (Req D)
  choose_young young_ts young_req [] = young_req
  choose_young young_ts young_req (q ∷ qs) =
      choose_young (at_most young_ts q.ts) (if ltb q.ts young_ts then some q else young_req) qs

  -- A request or a row that is not there is a NULL that the source would follow.
  abbrev pub write_row : Option (Req D) → RowTs D → Run (RowTs D)
  write_row none s = failed
  write_row (some q) s = elim q.row [
    | none ↦ failed
    | some d ↦ done (record s { row = d; wts = at_least s.wts q.ts })
  ]

  abbrev pub is_nil : List (Req D) → Bool
  is_nil [] = true
  is_nil (_ ∷ _) = false

  -- One round of update_buffer, in the four parts that its `break`s make; `again` is the next.
  pub release_writes : (RowTs D → Run (RowTs D)) → RowTs D → Run (RowTs D)
  release_writes again s =
      let ready = taken s.min_rts [] s.writereq in
      if is_nil ready then done s else (do
        t ← debuffer_pres ready (record s { writereq = left s.min_rts s.writereq })
        u ← write_row (choose_young uint64_max none ready) t
        again u)

  pub raise_min_rts : (RowTs D → Run (RowTs D)) → RowTs D → Run (RowTs D)
  unfolding cal_min release_writes
  raise_min_rts again s =
      let new_min_rts = cal_min s.readreq in
      if ltb s.min_rts new_min_rts
      then release_writes again (record s { min_rts = new_min_rts })
      else done s

  pub release_reads : (RowTs D → Run (RowTs D)) → RowTs D → Run (RowTs D)
  unfolding raise_min_rts
  release_reads again s =
      let ready = taken s.min_pts [] s.readreq in
      if is_nil ready
      then done s
      else raise_min_rts again
          (perform_reads ready (record s { readreq = left s.min_pts s.readreq }))

  pub round : (RowTs D → Run (RowTs D)) → RowTs D → Run (RowTs D)
  unfolding cal_min release_reads
  round again s =
      let new_min_pts = cal_min s.prereq in
      if ltb new_min_pts s.min_pts
      then failed
      else if ltb s.min_pts new_min_pts
      then release_reads again (record s { min_pts = new_min_pts })
      else done s

  pub update_buffer : ℕ → RowTs D → Run (RowTs D)
  unfolding round
  update_buffer zero s = no_fuel
  update_buffer (suc fuel) s = round (update_buffer fuel) s

  abbrev pub read_access : Req D → RowTs D → RowTs D × Rc
  read_access q s =
      if ltb q.ts s.wts
      then (s, abort)
      else if ltb s.min_pts q.ts
      then (buffer_read q (record s { ts_ready = update s.ts_ready q.txn false }), wait)
      else (
        record s { cur_row = update s.cur_row q.txn (some s.row); rts = at_least s.rts q.ts },
        rc_ok,
      )

  abbrev pub pre_access : Req D → RowTs D → RowTs D × Rc
  pre_access q s =
      if ltb q.ts s.rts
      then (s, abort)
      else if ltb q.ts s.wts
      then (s, abort)
      else (buffer_pre q s, rc_ok)

  -- The prewrite of the transaction is taken out, and whatever waited for it goes on.
  pub end_pre : ℕ → ℕ → RowTs D → Run (RowTs D)
  unfolding update_buffer debuffer_pre
  end_pre fuel txn s = debuffer_pre txn s >>= update_buffer fuel

  pub write_access : ℕ → Req D → RowTs D → Run (RowTs D)
  unfolding end_pre
  write_access fuel q s =
      if ltb s.min_pts q.ts
      then buffer_write q s
      else if ltb s.min_rts q.ts
      then buffer_write q s
      else (write_row (some q) s >>= end_pre fuel q.txn)

  pub access : ℕ → TsType → Req D → RowTs D → Run (RowTs D × Rc)
  unfolding write_access end_pre
  access fuel r_req q s = done (read_access q s)
  access fuel p_req q s = done (pre_access q s)
  access fuel w_req q s = write_access fuel q s >>= λ t. done (t, rc_ok)
  access fuel xp_req q s = end_pre fuel q.txn s >>= λ t. done (t, rc_ok)
