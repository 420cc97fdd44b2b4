-- ===== src/RowTs/Accesses.antt =====
-- The accesses to a row under timestamp ordering, and the states they reach (row_ts.cpp).
use dbx1000_bskiplist.Run.{done, Ends, Ends-bind}
use dbx1000_bskiplist.Base.{
  ℕ, List, ◌∷◌, [], All, ◌<◌, length, arith, ◌≡◌, Bool-cases, ◌==◌, ltb, inl, inr, refl, ◌≤◌,
  ==_iff,
}
use dbx1000_bskiplist.RowTs.Buffers.{count, remove_txn_total, cal_min-cons}
use dbx1000_bskiplist.RowTs.{
  RowTs, Req, TsType, r_req, w_req, p_req, xp_req, update_buffer, at_most, at_least, access,
  buffer_write, buffer_pre, end_pre, debuffer_pre, write_access, read_access, pre_access, rc_ok,
  cal_min, write_row,
}
use dbx1000_bskiplist.RowTs.Progress.{update_buffer-Inv}
use dbx1000_bskiplist.RowTs.Invariant.{Inv, Loose, IsWrite}

module _ {D : Type 0} where
  -- What a transaction has to do before an access: an end of a prewrite needs one that backs no
  -- buffered write, and a write needs its row besides.
  abbrev pub MayAccess : TsType → Req D → RowTs D → Type 0
  MayAccess r_req q s = Unit
  MayAccess p_req q s = Unit
  MayAccess w_req q s = (count q.txn s.writereq < count q.txn s.prereq) × IsWrite q
  MayAccess xp_req q s = count q.txn s.writereq < count q.txn s.prereq

  waiting-at_most :
      (m t : ℕ) (qs : List (Req D)) → All (λ q. m < q.ts) qs → All (λ q. at_most m t < q.ts) qs
  waiting-at_most m t [] h = tt
  waiting-at_most m t (q ∷ qs) h = (ground arith, waiting-at_most m t qs h.1)

  read_access-Inv : (q : Req D) (s : RowTs D) → Inv s → Inv (read_access q s).0
  read_access-Inv q s v = elim (Bool-cases (ltb q.ts s.wts)) [
    | inl c ↦ rw c v
    | inr c ↦ elim (Bool-cases (ltb s.min_pts q.ts)) [
      | inl k ↦
          rw (c, k)
            (record {
              loose = record {
                pts_low = v.loose.pts_low;
                rts_exact = rw (v.loose.rts_exact, cal_min-cons q s.readreq) refl;
                waiting = (ground arith, v.loose.waiting);
                backed = v.loose.backed;
                writes = v.loose.writes;
              };
              pts_exact = v.pts_exact;
            })
      | inr k ↦
          rw (c, k)
            (record {
              loose = record {
                pts_low = v.loose.pts_low;
                rts_exact = v.loose.rts_exact;
                waiting = v.loose.waiting;
                backed = v.loose.backed;
                writes = v.loose.writes;
              };
              pts_exact = v.pts_exact;
            })
    ]
  ]

  buffer_pre-Inv : (q : Req D) (s : RowTs D) → Inv s → Inv (buffer_pre q s)
  buffer_pre-Inv q s v =
      let exact : at_most s.min_pts q.ts ≡ cal_min (q ∷ s.prereq) =
        rw (v.pts_exact, cal_min-cons q s.prereq) refl in
      record {
        loose = record {
          pts_low = omega (arith, exact);
          rts_exact = v.loose.rts_exact;
          waiting = waiting-at_most s.min_pts q.ts s.readreq v.loose.waiting;
          backed = λ a. ground (arith, v.loose.backed a);
          writes = v.loose.writes;
        };
        pts_exact = exact;
      }

  pre_access-Inv : (q : Req D) (s : RowTs D) → Inv s → Inv (pre_access q s).0
  pre_access-Inv q s v = elim (Bool-cases (ltb q.ts s.rts)) [
    | inl c ↦ rw c v
    | inr c ↦ elim (Bool-cases (ltb q.ts s.wts)) [
      | inl k ↦ rw (c, k) v
      | inr k ↦ rw (c, k) (buffer_pre-Inv q s v)
    ]
  ]

  buffer_write-Inv :
      (q : Req D) (s : RowTs D) → MayAccess w_req q s → Inv s → Ends Inv (buffer_write q s)
  buffer_write-Inv q s (more, ((d, row), bound)) v =
      let backed_cons : (a : ℕ) → count a (q ∷ s.writereq) ≤ count a s.prereq = λ a.
        elim (Bool-cases (q.txn == a)) [
          | inl c ↦ let same = (==_iff q.txn a).0 c in let more' = rw same at more in ground arith
          | inr c ↦ ground (arith, v.loose.backed a)
        ] in
      rw row (record {
        loose = record {
          pts_low = v.loose.pts_low;
          rts_exact = v.loose.rts_exact;
          waiting = v.loose.waiting;
          backed = backed_cons;
          writes = (((d, refl), bound), v.loose.writes);
        };
        pts_exact = v.pts_exact;
      })

  -- The prewrite of the transaction goes.
  debuffer_pre-Loose :
      (a : ℕ) (s : RowTs D)
      → count a s.writereq < count a s.prereq
      → Inv s
      → Ends (λ t. Loose t × (length t.prereq < length s.prereq)) (debuffer_pre a s)
  unfolding debuffer_pre
  debuffer_pre-Loose a s more v =
      let (r, run, low, counts, len) = remove_txn_total a s.prereq (omega arith) in
      rw run (
        record {
          pts_low = omega (arith, v.pts_exact);
          rts_exact = v.loose.rts_exact;
          waiting = v.loose.waiting;
          backed = λ b. elim (Bool-cases (a == b)) [
            | inl c ↦
                let same = (==_iff a b).0 c in
                let more' = rw same at more in ground (arith, counts b)
            | inr c ↦ ground (arith, counts b, v.loose.backed b)
          ];
          writes = v.loose.writes;
        },
        omega arith,
      )

  end_pre-Inv :
      (fuel a : ℕ) (s : RowTs D)
      → length s.prereq < fuel
      → count a s.writereq < count a s.prereq
      → Inv s
      → Ends Inv (end_pre fuel a s)
  unfolding end_pre
  end_pre-Inv fuel a s f more v =
      Ends-bind Inv (debuffer_pre a s) (update_buffer fuel) (debuffer_pre-Loose a s more v)
        (λ t (l, less). update_buffer-Inv fuel t (omega arith) l)

  write_access-Inv :
      (fuel : ℕ) (q : Req D) (s : RowTs D)
      → length s.prereq < fuel
      → MayAccess w_req q s
      → Inv s
      → Ends Inv (write_access fuel q s)
  unfolding write_access
  write_access-Inv fuel q s f (more, ((d, row), w)) v = elim (Bool-cases (ltb s.min_pts q.ts)) [
    | inl c ↦ rw c (buffer_write-Inv q s (more, ((d, row), w)) v)
    | inr c ↦ elim (Bool-cases (ltb s.min_rts q.ts)) [
      | inl k ↦ rw (c, k) (buffer_write-Inv q s (more, ((d, row), w)) v)
      | inr k ↦
          rw (c, k, write_row, row)
            (end_pre-Inv fuel q.txn (record s { row = d; wts = at_least s.wts q.ts }) f more
              (record {
                loose = record {
                  pts_low = v.loose.pts_low;
                  rts_exact = v.loose.rts_exact;
                  waiting = v.loose.waiting;
                  backed = v.loose.backed;
                  writes = v.loose.writes;
                };
                pts_exact = v.pts_exact;
              }))
    ]
  ]

  -- On a state with the invariant, with more fuel than prewrites, an access of each type that its
  -- transaction may make ends, fails no assertion, and keeps the invariant.
  pub access-Inv :
      (fuel : ℕ) (type : TsType) (q : Req D) (s : RowTs D)
      → length s.prereq < fuel
      → MayAccess type q s
      → Inv s
      → Ends (λ r. Inv r.0) (access fuel type q s)
  unfolding access
  access-Inv fuel r_req q s f may v = read_access-Inv q s v
  access-Inv fuel p_req q s f may v = pre_access-Inv q s v
  access-Inv fuel w_req q s f may v =
      Ends-bind (λ r. Inv r.0) (write_access fuel q s) (λ t. done (t, rc_ok))
        (write_access-Inv fuel q s f may v) (λ t w. w)
  access-Inv fuel xp_req q s f may v =
      Ends-bind (λ r. Inv r.0) (end_pre fuel q.txn s) (λ t. done (t, rc_ok))
        (end_pre-Inv fuel q.txn s f may v) (λ t w. w)
