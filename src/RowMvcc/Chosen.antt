-- ===== src/RowMvcc/Chosen.antt =====
-- The entry that is chosen and reserved for a prewrite (row_mvcc.cpp).
use dbx1000_bskiplist.Base.{
  ℕ, ◌≡◌, ◌≢◌, ◌<◌, ◌≤◌, true, false, some, inl, inr, arith, ◌==◌, dec_lt, refl, sym, ◌∙◌, subst,
  ap, ltb, leb, Bool-cases, dec32,
}
use dbx1000_bskiplist.RowTs.{uint64_max}
use dbx1000_bskiplist.RowMvcc.{WriteHisEntry, RowMvcc, is_free, unused_entry, oldest_version}
use dbx1000_bskiplist.RowMvcc.Reserve.{
  swap_row, double_list, reserve_entry, recycle_oldest, choose_entry,
}
use dbx1000_bskiplist.RowMvcc.Versions.{
  Fresh, count_bound, count_missing, Retains, Retains-trans, History, Unreserved, entry_at,
}
use dbx1000_bskiplist.RowMvcc.Recycle.{Frame}
use dbx1000_bskiplist.RowMvcc.Choose.{unused_entry-free}
use dbx1000_bskiplist.RowMvcc.Double.{doubled-History, doubled-Retains, doubled_new, doubled_len}
use dbx1000_bskiplist.RowMvcc.Granted.{
  Granted, reserve_entry-Granted, recycled-Granted, oldest_version-Oldest,
}

module _ {D : Type 0} where
  recycle_run :
      (s : RowMvcc D) (wts : ℕ)
      → let found = oldest_version s.write_history s.his_len 0 uint64_max s.his_len in
        wts ≡ found.0
        → s.oldest_wts < wts
        → (entry_at s found.1).row ≢ 0
        → recycle_oldest s
          ≡ some (record (swap_row found.1 wts s) { num_versions = dec32 s.num_versions }, found.1)
  unfolding recycle_oldest
  recycle_run s wts at after row =
      let found = oldest_version s.write_history s.his_len 0 uint64_max s.his_len in
      let c : ltb s.oldest_wts found.0 ≡ true =
        subst (λ w. ltb s.oldest_wts w ≡ true) at (ground arith) in
      let d : ((entry_at s found.1).row == 0) ≡ false = ground arith in
      subst
        (λ w.
          recycle_oldest s
          ≡ some (record (swap_row found.1 w s) { num_versions = dec32 s.num_versions }, found.1))
        (sym at) (rw (c, d) refl)

  -- What comes before does not matter, if it keeps the versions.
  pub Granted-after :
      (s u t : RowMvcc D) (ts row : ℕ)
      → Retains s u
      → Frame s u
      → Granted u t ts row
      → Granted s t ts row
  Granted-after s u t ts row v f g = record {
    history = g.history;
    reserved = g.reserved;
    retains = Retains-trans s u t v g.retains;
    exists_prewrite = g.exists_prewrite;
    prewrite_ts = g.prewrite_ts;
    own_row = g.own_row;
    latest_wts = g.latest_wts ∙ f.latest_wts;
    latest_row = g.latest_row ∙ f.latest_row;
    max_served_rts = g.max_served_rts ∙ f.max_served_rts;
    requests = g.requests ∙ f.requests;
  }

  choose_unused :
      (thread_cnt : ℕ) (s : RowMvcc D)
      → s.num_versions < s.his_len
      → unused_entry s.write_history s.his_len 0 s.his_len < s.his_len
      → choose_entry thread_cnt s ≡ some (s, unused_entry s.write_history s.his_len 0 s.his_len)
  unfolding choose_entry
  choose_unused thread_cnt s few l =
      let c : ltb s.num_versions s.his_len ≡ true = ground arith in
      let d : ltb (unused_entry s.write_history s.his_len 0 s.his_len) s.his_len ≡ true =
        ground arith in
      rw (c, d) refl

  choose_recycle :
      (thread_cnt : ℕ) (s : RowMvcc D)
      → ltb s.num_versions s.his_len ≡ false
      → leb thread_cnt s.his_len ≡ true
      → choose_entry thread_cnt s ≡ recycle_oldest s
  unfolding choose_entry
  choose_recycle thread_cnt s c d = rw (c, d) refl

  choose_double :
      (thread_cnt : ℕ) (s : RowMvcc D)
      → ltb s.num_versions s.his_len ≡ false
      → leb thread_cnt s.his_len ≡ false
      → choose_entry thread_cnt s ≡ some (double_list s, s.his_len)
  unfolding choose_entry
  choose_double thread_cnt s c d = rw (c, d) refl

  Fresh-double :
      (s : RowMvcc D) (fresh : ℕ)
      → History s
      → s.his_len < 1073741824
      → Fresh s fresh
      → Fresh (double_list s) fresh
  Fresh-double s fresh v few (new, base, rows) = (
    new,
    base,
    λ i l. elim (dec_lt i s.his_len) [
      | yes m ↦ let c : ltb i s.his_len ≡ true = ground arith in rw c (rows i m)
      | no m ↦
          λ q. new (sym q ∙ ap (λ (x : WriteHisEntry). x.row) (doubled_new s v few i (omega arith)))
    ],
  )

  Unreserved-double :
      (s : RowMvcc D)
      → History s
      → s.his_len < 1073741824
      → Unreserved s
      → Unreserved (double_list s)
  Unreserved-double s v few free i l off = elim (dec_lt i s.his_len) [
    | yes m ↦
        let c : ltb i s.his_len ≡ true = ground arith in
        let off' : (entry_at s i).valid ≡ false = (rw c at off) in rw c (free i m off')
    | no m ↦ ap (λ (x : WriteHisEntry). x.reserved) (doubled_new s v few i (omega arith))
  ]

  module _ (thread_cnt fresh ts : ℕ) (threads : thread_cnt ≤ 1073741824)
      (timed : ts < uint64_max) where
    pub choose_entry-Granted :
        (s : RowMvcc D)
        → History s
        → Unreserved s
        → Fresh s fresh
        → s.latest_wts < ts
        → s.max_served_rts ≤ ts
        → (u : RowMvcc D) × (idx : ℕ) × (choose_entry thread_cnt s ≡ some (u, idx))
          × Granted s (reserve_entry fresh ts idx u).0 ts (reserve_entry fresh ts idx u).1
    choose_entry-Granted s v free unused newer after_reads =
        let h = s.write_history in
        let (few, which) = count_bound h s.his_len in
        let counted = v.count in
        elim (Bool-cases (ltb s.num_versions s.his_len)) [
          | inl c ↦
              let (j, l, off) = count_missing h s.his_len (ground arith) in
              let off' = free j l off in
              let is : is_free (h j) ≡ true = rw (off, off') refl in
              let (l', is') =
                unused_entry-free h s.his_len 0 s.his_len (inr (j, omega arith, omega arith, is)) in
              let idx = unused_entry h s.his_len 0 s.his_len in
              (
                s,
                idx,
                choose_unused thread_cnt s (ground arith) (omega arith),
                reserve_entry-Granted s v free fresh ts unused newer after_reads timed idx
                    (omega arith) (ground arith),
              )
          | inr c ↦ elim (Bool-cases (leb thread_cnt s.his_len)) [
            | inr d ↦
                let small : s.his_len < 1073741824 = ground arith in
                let len = doubled_len s v small in
                let some_there = v.some_entries in
                let g =
                  reserve_entry-Granted (double_list s) (doubled-History s v small)
                    (Unreserved-double s v small free) fresh ts
                    (Fresh-double s fresh v small unused) newer after_reads timed s.his_len
                    (omega arith)
                    (ap (λ (x : WriteHisEntry). x.valid)
                      (doubled_new s v small s.his_len (omega arith))) in
                (
                  double_list s,
                  s.his_len,
                  choose_double thread_cnt s c d,
                  Granted-after s (double_list s)
                      (reserve_entry fresh ts s.his_len (double_list s)).0 ts
                      (reserve_entry fresh ts s.his_len (double_list s)).1
                      (doubled-Retains s v small)
                      (record {
                        latest_wts = refl;
                        latest_row = refl;
                        exists_prewrite = refl;
                        max_served_rts = refl;
                        requests = refl;
                        heap = refl;
                      })
                      g,
                )
            | inl d ↦
                let all : (i : ℕ) → i < s.his_len → (h i).valid ≡ true = elim which [
                  | inl all ↦ all
                  | inr less ↦ absurd (ground arith)
                ] in
                let (found, least) =
                  oldest_version-Oldest h s.his_len s.his_len 0 uint64_max s.his_len
                    (inl (refl, refl), λ i l is. absurd (omega arith)) in
                let wts = (oldest_version h s.his_len 0 uint64_max s.his_len).0 in
                let idx = (oldest_version h s.his_len 0 uint64_max s.his_len).1 in
                elim found [
                  | inl (_, none_there) ↦
                      let z = v.some_entries in
                      absurd (
                        omega
                          (arith, least 0 (omega arith) (all 0 z), v.upto 0 z (all 0 z), v.timed))
                  | inr (l, is, at) ↦
                      let in_len : idx < s.his_len = omega arith in
                      (
                        _,
                        idx,
                        choose_recycle thread_cnt s c d
                            ∙ recycle_run s (entry_at s idx).ts at (v.later idx in_len is)
                                (v.stored idx in_len is),
                        recycled-Granted s v free fresh ts unused newer after_reads timed all idx
                            in_len (λ i m. omega (arith, least i (omega arith) (all i m))),
                      )
                ]
          ]
        ]
