-- ===== src/RowMvcc/Prewrites.antt =====
-- Prewrites of a row (row_mvcc.cpp).
use dbx1000_bskiplist.Base.{
  ℕ, ◌≡◌, ◌≢◌, ◌<◌, ◌≤◌, true, false, ◌&&◌, ◌||◌, Option, some, none, [], inl, inr, ◌⊎◌, arith,
  refl, ltb, Bool-cases, subst, sym,
}
use dbx1000_bskiplist.RowLock.{Rc, rc_ok, abort, wait}
use dbx1000_bskiplist.RowTs.{uint64_max, p_req}
use dbx1000_bskiplist.RowMvcc.{RowMvcc, buffer_req, Slots}
use dbx1000_bskiplist.RowMvcc.Reserve.{grant_prewrite}
use dbx1000_bskiplist.RowMvcc.Access.{access_prewrite}
use dbx1000_bskiplist.RowMvcc.Versions.{Fresh, entry_at}
use dbx1000_bskiplist.RowMvcc.Granted.{Granted}
use dbx1000_bskiplist.RowMvcc.Prewrite.{grant_prewrite-Granted}
use dbx1000_bskiplist.RowMvcc.Slots.{Absent, Empty-Pending, Pending, Distinct, SomeSlots}
use dbx1000_bskiplist.RowMvcc.Quiet.{Quiet, Quiet-refl}
use dbx1000_bskiplist.RowMvcc.Invariant.{Inv, Keeps, Quiet-Keeps, buffered-Inv}

module _ {D : Type 0} where
  -- A prewrite is too late, waits behind an earlier one, or is granted a copy of the latest version.
  abbrev pub PrewriteEnds : ℕ → RowMvcc D → RowMvcc D → Rc → Option ℕ → Type 0
  PrewriteEnds ts s t rc row =
      ((rc ≡ abort)
        × (t ≡ s)
        × ((ts < s.latest_wts) ⊎ ((ts < s.max_served_rts) ⊎ (ts < s.prewrite_ts))))
      ⊎ (((rc ≡ wait) × (t.exists_prewrite ≡ true) × (t.prewrite_ts < ts))
          ⊎ ((rc ≡ rc_ok)
              × (t.exists_prewrite ≡ true)
              × (t.prewrite_ts ≡ ts)
              × ((r : ℕ) × (row ≡ some r)
                  × ((entry_at t t.prewrite_his_id).row ≡ r)
                  × (t.heap r ≡ s.heap s.latest_row))))

  Granted-Quiet : (s t : RowMvcc D) (ts row : ℕ) → Granted s t ts row → Quiet s t
  Granted-Quiet s t ts row g = record {
    retains = g.retains;
    latest_wts = g.latest_wts;
    reads = let e = g.max_served_rts in omega arith;
  }

  Granted-Inv :
      (s t : RowMvcc D) (ts row : ℕ)
      → Inv s
      → s.exists_prewrite ≡ false
      → Granted s t ts row
      → Inv t
  Granted-Inv s t ts row v off g = elim (v.state) [
    | inr (on, _, _, _) ↦ absurd (cc)
    | inl (_, _, e) ↦
        let (p, d) = Empty-Pending t.prewrite_ts s.requests e in
        record {
          history = g.history;
          state = inr (
            g.exists_prewrite,
            g.reserved,
            subst (Pending t.prewrite_ts) (sym g.requests) p,
            subst Distinct (sym g.requests) d,
          );
          slots = subst SomeSlots (sym g.requests) v.slots;
        }
  ]

  module _ (thread_cnt min_ts fresh : ℕ) (threads : thread_cnt ≤ 1073741824) where
    prewrite_abort :
        (txn ts : ℕ) (s : RowMvcc D)
        → (ltb ts s.latest_wts
            || ltb ts s.max_served_rts
            || (s.exists_prewrite && ltb ts s.prewrite_ts))
          ≡ true
        → access_prewrite thread_cnt min_ts fresh txn ts s ≡ some (s, abort, none, [])
    unfolding access_prewrite
    prewrite_abort txn ts s c = rw c refl

    prewrite_later :
        (txn ts : ℕ) (s : RowMvcc D) (slots : Slots)
        → (ltb ts s.latest_wts
            || ltb ts s.max_served_rts
            || (s.exists_prewrite && ltb ts s.prewrite_ts))
          ≡ false
        → s.exists_prewrite ≡ true
        → buffer_req (record { type = p_req; ts = ts; txn = txn }) s.requests ≡ some slots
        → access_prewrite thread_cnt min_ts fresh txn ts s
          ≡ some (record s { requests = slots }, wait, none, [])
    unfolding access_prewrite
    prewrite_later txn ts s slots c e run = rw (c, e, run) refl

    prewrite_now :
        (txn ts : ℕ) (s t : RowMvcc D) (row : ℕ)
        → (ltb ts s.latest_wts
            || ltb ts s.max_served_rts
            || (s.exists_prewrite && ltb ts s.prewrite_ts))
          ≡ false
        → s.exists_prewrite ≡ false
        → grant_prewrite thread_cnt min_ts fresh ts s ≡ some (t, row)
        → access_prewrite thread_cnt min_ts fresh txn ts s ≡ some (t, rc_ok, some row, [])
    unfolding access_prewrite
    prewrite_now txn ts s t row c e run = rw (run, c, e) refl

    -- On a row with the invariant and at most 2^30 threads, a prewrite whose timestamp is not that of
    -- the latest version, of the granted prewrite or of a waiting request, and below the largest number,
    -- fails no assertion and keeps the invariant and what others have seen: it is too late and aborts,
    -- it waits behind an earlier prewrite, or it is granted a row with a copy of the latest version.
    pub access_prewrite-Inv :
        (txn ts : ℕ) (s : RowMvcc D)
        → Inv s
        → Fresh s fresh
        → ts < uint64_max
        → Absent ts s.requests
        → ts ≢ s.latest_wts
        → (s.exists_prewrite ≡ true → ts ≢ s.prewrite_ts)
        → (t : RowMvcc D) × (rc : Rc) × (row : Option ℕ) × (access_prewrite thread_cnt min_ts fresh
              txn ts s
            ≡ some (t, rc, row, []))
          × Inv t
          × Keeps s t
          × PrewriteEnds ts s t rc row
    access_prewrite-Inv txn ts s v unused timed absent apart other =
        elim (Bool-cases (
          ltb ts s.latest_wts
          || ltb ts s.max_served_rts
          || (s.exists_prewrite && ltb ts s.prewrite_ts))) [
            | inl c ↦ (
              s,
              abort,
              none,
              prewrite_abort txn ts s c,
              v,
              Quiet-Keeps s s (Quiet-refl s),
              inl (refl, refl, ground arith),
            )
            | inr c ↦ elim (Bool-cases s.exists_prewrite) [
              | inl e ↦
                  let d = other e in
                  let after : s.prewrite_ts < ts = ground arith in
                  let (slots, run, t, q) =
                    buffered-Inv (record { type = p_req; ts = ts; txn = txn }) s v e after timed
                      (inr refl) absent in
                  (
                    record s { requests = slots },
                    wait,
                    none,
                    prewrite_later txn ts s slots c e run,
                    t,
                    Quiet-Keeps s (record s { requests = slots }) q,
                    inr (inl (refl, e, after)),
                  )
              | inr e ↦ elim (v.state) [
                | inr (on, _, _, _) ↦ absurd (cc)
                | inl (_, free, _) ↦
                    let (t, row, run, g, copied) =
                      grant_prewrite-Granted thread_cnt fresh ts threads timed min_ts s v.history
                        free e unused (ground arith) (ground arith) in
                    (
                      t,
                      rc_ok,
                      some row,
                      prewrite_now txn ts s t row c e run,
                      Granted-Inv s t ts row v e g,
                      Quiet-Keeps s t (Granted-Quiet s t ts row g),
                      inr (
                          inr (
                            refl,
                            g.exists_prewrite,
                            g.prewrite_ts,
                            (row, refl, g.own_row, copied),
                          )),
                    )
              ]
            ]
          ]
