-- ===== src/RowMvcc/Reads.antt =====
-- Reads and prewrites of a row (row_mvcc.cpp).
use dbx1000_bskiplist.Base.{
  ℕ, ◌%◌, ◌≡◌, ◌≢◌, ◌<◌, ◌≤◌, true, false, ◌&&◌, Option, some, none, [], inl, inr, ◌⊎◌, arith, refl,
  sym, subst, ltb, ◌==◌, Bool-cases, u32_mod, ==_iff,
}
use dbx1000_bskiplist.RowLock.{Rc, rc_ok, abort, wait}
use dbx1000_bskiplist.RowTs.{uint64_max, r_req}
use dbx1000_bskiplist.RowMvcc.{RowMvcc, buffer_req, newest_below, Slots}
use dbx1000_bskiplist.RowMvcc.Access.{read_version, access_read, serve_read}
use dbx1000_bskiplist.RowMvcc.Versions.{Sees, History, entry_at, oldest-le-latest}
use dbx1000_bskiplist.RowMvcc.Collect.{newest_below-Newest}
use dbx1000_bskiplist.RowMvcc.Slots.{Absent}
use dbx1000_bskiplist.RowMvcc.Quiet.{Quiet-refl, read-Quiet}
use dbx1000_bskiplist.RowMvcc.Invariant.{Inv, Keeps, Quiet-Keeps, buffered-Inv, read-Inv}

module _ {D : Type 0} where
  -- The latest version is seen from every later timestamp.
  pub Sees-latest :
      (s : RowMvcc D) (ts : ℕ) → History s → s.latest_wts < ts → Sees s ts s.latest_row
  Sees-latest s ts v after = record {
    wts = s.latest_wts;
    holds = v.latest;
    below = after;
    newest = λ w r holds l. elim holds [
      | inl (e, _) ↦ let o = oldest-le-latest s v in omega arith
      | inr (i, m, is, at, _) ↦ omega (arith, v.upto i m is)
    ];
  }

  module _ (thread_cnt min_ts fresh : ℕ) (threads : thread_cnt ≤ 1073741824) where
    read_base :
        (s : RowMvcc D) (ts : ℕ)
        → (newest_below (λ t. t % u32_mod) s.write_history ts s.his_len 0 0 s.his_len).1 ≡ s.his_len
        → read_version thread_cnt min_ts fresh ts s ≡ s.row
    unfolding read_version
    read_base s ts e = let c = (==_iff _ s.his_len).1 e in rw c refl

    read_old :
        (s : RowMvcc D) (ts : ℕ)
        → (newest_below (λ t. t % u32_mod) s.write_history ts s.his_len 0 0 s.his_len).1 < s.his_len
        → read_version thread_cnt min_ts fresh ts s
          ≡ (entry_at s
              (newest_below (λ t. t % u32_mod) s.write_history ts s.his_len 0 0 s.his_len).1).row
    unfolding read_version
    read_old s ts l =
        let c : ((newest_below (λ t. t % u32_mod) s.write_history ts s.his_len 0 0 s.his_len).1
              == s.his_len)
            ≡ false =
          ground arith in
        rw c refl

    -- While the versions' timestamps fit in 32 bits, an old read finds the version it sees.
    pub read_version-Sees :
        (s : RowMvcc D) (ts : ℕ)
        → History s
        → s.oldest_wts < ts
        → s.latest_wts < u32_mod
        → Sees s ts (read_version thread_cnt min_ts fresh ts s)
    read_version-Sees s ts v low narrow =
        let h = s.write_history in
        let found = newest_below (λ t. t % u32_mod) h ts s.his_len 0 0 s.his_len in
        let (which, upto) =
          newest_below-Newest (λ t. t % u32_mod) h ts s.his_len s.his_len 0 0 s.his_len
            (λ j is l. let u = v.upto j (omega arith) is in omega arith)
            (inl (refl, refl), λ j l is b. absurd (omega arith)) in
        elim which [
          | inl (full, zero_best) ↦ subst (Sees s ts) (sym (read_base s ts full)) (record {
            wts = s.oldest_wts;
            holds = inl (refl, refl);
            below = low;
            newest = λ w r holds l. elim holds [
              | inl (e, _) ↦ omega arith
              | inr (i, m, is, at, _) ↦
                  omega (arith, upto i (omega arith) is (omega arith), v.later i m is)
            ];
          })
          | inr (l, valid, at, under) ↦
              let in_len : found.1 < s.his_len = omega arith in
              subst (Sees s ts) (sym (read_old s ts in_len)) (record {
                wts = (entry_at s found.1).ts;
                holds = inr (found.1, in_len, valid, refl, refl);
                below = omega arith;
                newest = λ w r holds b. elim holds [
                  | inl (e, _) ↦ omega (arith, v.later found.1 in_len valid)
                  | inr (i, m, is, at', _) ↦ omega (arith, upto i (omega arith) is (omega arith))
                ];
              })
        ]

    -- A read is too old, waits, or gets the row that its timestamp sees, now and later.
    abbrev pub ReadEnds : ℕ → RowMvcc D → Rc → Option ℕ → Type 0
    ReadEnds ts t rc row =
        ((rc ≡ abort) × (ts < t.oldest_wts))
        ⊎ ((rc ≡ wait)
            ⊎ ((rc ≡ rc_ok)
                × ((r : ℕ) × (row ≡ some r)
                    × Sees t ts r
                    × ((ts ≤ t.latest_wts) ⊎ (ts ≤ t.max_served_rts)))))

    read_abort :
        (txn ts : ℕ) (s : RowMvcc D)
        → ltb ts s.oldest_wts ≡ true
        → access_read thread_cnt min_ts fresh txn ts s ≡ some (s, abort, none, [])
    unfolding access_read
    read_abort txn ts s c = rw c refl

    read_past :
        (txn ts : ℕ) (s : RowMvcc D)
        → ltb ts s.oldest_wts ≡ false
        → ltb s.latest_wts ts ≡ false
        → access_read thread_cnt min_ts fresh txn ts s
          ≡ some (s, rc_ok, some (read_version thread_cnt min_ts fresh ts s), [])
    unfolding access_read
    read_past txn ts s c d = rw (c, d) refl

    read_now :
        (txn ts : ℕ) (s : RowMvcc D)
        → ltb ts s.oldest_wts ≡ false
        → ltb s.latest_wts ts ≡ true
        → (s.exists_prewrite && ltb s.prewrite_ts ts) ≡ false
        → access_read thread_cnt min_ts fresh txn ts s
          ≡ some (serve_read thread_cnt min_ts fresh ts s, rc_ok, some s.latest_row, [])
    unfolding access_read
    read_now txn ts s c d e = rw (c, d, e) refl

    read_later :
        (txn ts : ℕ) (s : RowMvcc D) (slots : Slots)
        → ltb ts s.oldest_wts ≡ false
        → ltb s.latest_wts ts ≡ true
        → (s.exists_prewrite && ltb s.prewrite_ts ts) ≡ true
        → buffer_req (record { type = r_req; ts = ts; txn = txn }) s.requests ≡ some slots
        → access_read thread_cnt min_ts fresh txn ts s
          ≡ some (record s { requests = slots }, wait, none, [])
    unfolding access_read
    read_later txn ts s slots c d e run = rw (c, d, e, run) refl

    -- On a row with the invariant and at most 2^30 threads, while the timestamps of the versions fit in
    -- 32 bits, a read whose timestamp is not the oldest version's nor a waiting request's, and below
    -- the largest number, keeps the invariant and what others have seen: it aborts as too old, waits, or
    -- gets the row of the newest version below its timestamp.
    pub access_read-Inv :
        (txn ts : ℕ) (s : RowMvcc D)
        → Inv s
        → ts < uint64_max
        → Absent ts s.requests
        → ts ≢ s.oldest_wts
        → s.latest_wts < u32_mod
        → (t : RowMvcc D) × (rc : Rc) × (row : Option ℕ) × (access_read thread_cnt min_ts fresh txn
              ts s
            ≡ some (t, rc, row, []))
          × Inv t
          × Keeps s t
          × ReadEnds ts t rc row
    access_read-Inv txn ts s v timed absent apart narrow = elim (Bool-cases (ltb ts s.oldest_wts)) [
      | inl c ↦ (
        s,
        abort,
        none,
        read_abort txn ts s c,
        v,
        Quiet-Keeps s s (Quiet-refl s),
        inl (refl, ground arith),
      )
      | inr c ↦ elim (Bool-cases (ltb s.latest_wts ts)) [
        | inr d ↦ (
          s,
          rc_ok,
          some (read_version thread_cnt min_ts fresh ts s),
          read_past txn ts s c d,
          v,
          Quiet-Keeps s s (Quiet-refl s),
          inr (
              inr (
                refl,
                (
                  read_version thread_cnt min_ts fresh ts s,
                  refl,
                  read_version-Sees s ts v.history (ground arith) narrow,
                  inl (ground arith),
                ),
              )),
        )
        | inl d ↦
            let after : s.latest_wts < ts = ground arith in
            elim (Bool-cases (s.exists_prewrite && ltb s.prewrite_ts ts)) [
              | inr e ↦
                  let u = serve_read thread_cnt min_ts fresh ts s in
                  let v' = read-Inv thread_cnt min_ts fresh ts s v e in
                  (
                    u,
                    rc_ok,
                    some s.latest_row,
                    read_now txn ts s c d e,
                    v',
                    Quiet-Keeps s u (read-Quiet thread_cnt min_ts fresh ts s),
                    inr (
                        inr (
                          refl,
                          (
                            s.latest_row,
                            refl,
                            Sees-latest u ts v'.history after,
                            inr (ground arith),
                          ),
                        )),
                  )
              | inl e ↦
                  let (slots, run, t, q) =
                    buffered-Inv (record { type = r_req; ts = ts; txn = txn }) s v (ground arith)
                      (ground arith) timed (inl refl) absent in
                  (
                    record s { requests = slots },
                    wait,
                    none,
                    read_later txn ts s slots c d e run,
                    t,
                    Quiet-Keeps s (record s { requests = slots }) q,
                    inr (inl refl),
                  )
            ]
      ]
    ]
