-- ===== src/RowTs/Invariant.antt =====
-- What holds of a row under timestamp ordering between two accesses, and that update_buffer
-- restores it (row_ts.cpp).
use dbx1000_bskiplist.Run.{done}
use dbx1000_bskiplist.RowTs.Buffers.{remove_txn_total}
use dbx1000_bskiplist.RowTs.Buffers.{count}
use dbx1000_bskiplist.Base.{
  ℕ, ◌+◌, arith, ◌≤◌, ◌≡◌, some, List, ◌∷◌, All, ◌<◌, Bool-cases, false, length, ltb, [], inl, none,
  ◌-◌, true, inr, ◌%◌, refl,
}
use dbx1000_bskiplist.RowTs.{
  Req, RowTs, debuffer_pres, perform_reads, choose_young, cal_min, debuffer_pre, is_nil,
  perform_read, uint64_max, write_row, u64_mod, at_least,
}

module _ {D : Type 0} where
  -- A buffered write has a row, and its timestamp is below UINT64_MAX.
  abbrev pub IsWrite : Req D → Type 0
  IsWrite q = ((d : D) × (q.row ≡ some d)) × (q.ts < uint64_max)

  -- What holds also before update_buffer, while min_pts is out of date.
  pub record Loose (s : RowTs D) : Type 0 where
    pub pts_low : s.min_pts ≤ cal_min s.prereq
    pub rts_exact : s.min_rts ≡ cal_min s.readreq
    pub waiting : All (λ q. s.min_pts < q.ts) s.readreq
    pub backed : (a : ℕ) → count a s.writereq ≤ count a s.prereq
    pub writes : All IsWrite s.writereq

  -- The minima are those of the buffers; a buffered read waits for an earlier prewrite; each
  -- buffered write has its prewrite.
  pub record Inv (s : RowTs D) : Type 0 where
    pub loose : Loose s
    pub pts_exact : s.min_pts ≡ cal_min s.prereq

  pub perform_reads_frame :
      (qs : List (Req D)) (s : RowTs D)
      → let t = perform_reads qs s in
        t ≡ record s { cur_row = t.cur_row; rts = t.rts; ts_ready = t.ts_ready }
  unfolding perform_reads
  perform_reads_frame [] s = refl
  perform_reads_frame (q ∷ qs) s = perform_reads_frame qs (perform_read q s)

  choose_young-some :
      (y : ℕ) (q : Req D) (qs : List (Req D))
      → IsWrite q
      → All IsWrite qs
      → (r : Req D) × (choose_young y (some q) qs ≡ some r) × IsWrite r
  unfolding choose_young
  choose_young-some y q [] w h = (q, refl, w)
  choose_young-some y q (p ∷ qs) w h = elim (Bool-cases (ltb p.ts y)) [
    | inl c ↦ rw c (choose_young-some p.ts p qs h.0 h.1)
    | inr c ↦ rw c (choose_young-some y q qs w h.1)
  ]

  pub write_row_total :
      (qs : List (Req D)) (s : RowTs D)
      → is_nil qs ≡ false
      → All IsWrite qs
      → (d : D) × (wts : ℕ) × (write_row (choose_young uint64_max none qs) s
          ≡ done (record s { row = d; wts = wts }))
  unfolding choose_young
  write_row_total [] s n h = cc
  write_row_total (q ∷ qs) s n h =
      let first : ltb q.ts uint64_max ≡ true = ground arith in
      let (r, chosen, ((d, row), _)) = choose_young-some q.ts q qs h.0 h.1 in
      (d, at_least s.wts r.ts, rw (first, chosen, write_row, row))

  -- The prewrites of the ready writes are all there.
  pub debuffer_pres_total :
      (qs rest : List (Req D)) (s : RowTs D)
      → ((a : ℕ) → count a qs + count a rest ≤ count a s.prereq)
      → (prereq : List (Req D)) × (len : ℕ) × (debuffer_pres qs s
          ≡ done (record s { prereq = prereq; preq_len = len }))
        × (cal_min s.prereq ≤ cal_min prereq)
        × ((a : ℕ) → count a rest ≤ count a prereq)
        × (length prereq + length qs ≡ length s.prereq)
  unfolding debuffer_pres debuffer_pre
  debuffer_pres_total [] rest s h =
      (s.prereq, s.preq_len, refl, omega arith, λ a. omega (arith, h a), omega arith)
  debuffer_pres_total (q ∷ qs) rest s h =
      let (r, run, low, counts, len) = remove_txn_total q.txn s.prereq (ground (arith, h q.txn)) in
      let t = record s { prereq = r; preq_len = (s.preq_len + u64_mod - 1) % u64_mod } in
      let (prereq, n, run', low', counts', len') =
        debuffer_pres_total qs rest t (λ a. ground (arith, h a, counts a)) in
      (prereq, n, rw run run', omega arith, counts', omega arith)
