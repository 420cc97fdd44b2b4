-- ===== src/RowTs/Progress.antt =====
-- update_buffer ends, fails nothing, and restores the invariant (row_ts.cpp).
use dbx1000_bskiplist.Run.{Run, Ends}
use dbx1000_bskiplist.RowTs.Buffers.{
  count, none_taken, All-taken, cal_min-left, count-taken, left_above, All-left, length_pos,
}
use dbx1000_bskiplist.Base.{
  ℕ, zero, suc, arith, length, Bool-cases, ◌≡◌, ltb, ◌<◌, false, ◌≤◌, inl, All, [], inr, refl,
}
use dbx1000_bskiplist.RowTs.{
  RowTs, round, release_reads, update_buffer, raise_min_rts, release_writes, is_nil, cal_min, taken,
  left,
}
use dbx1000_bskiplist.RowTs.Invariant.{
  Loose, Inv, IsWrite, perform_reads_frame, debuffer_pres_total, write_row_total,
}

module _ {D : Type 0} (again : RowTs D → Run (RowTs D)) where
  -- What the next round does for a state with fewer prewrites.
  abbrev NextRound : ℕ → Type 0
  NextRound n = (u : RowTs D) → length u.prereq < n → Loose u → Ends Inv (again u)

  release_writes-Inv :
      (s : RowTs D) → NextRound (length s.prereq) → Inv s → Ends Inv (release_writes again s)
  unfolding release_writes
  release_writes-Inv s next v = elim (Bool-cases (is_nil (taken s.min_rts [] s.writereq))) [
    | inl c ↦ rw c v
    | inr c ↦
        let ready = taken s.min_rts [] s.writereq in
        let rest = left s.min_rts s.writereq in
        let writes = All-taken IsWrite s.min_rts [] s.writereq tt v.loose.writes in
        let (prereq, n, run, low, backed, len) =
          debuffer_pres_total ready rest (record s { writereq = rest })
            (λ a. omega (arith, count-taken a s.min_rts [] s.writereq, v.loose.backed a)) in
        let t = record s { writereq = rest; prereq = prereq; preq_len = n } in
        let (d, wts, written) = write_row_total ready t c writes in
        let fewer : length prereq < length s.prereq = omega (arith, len, length_pos ready c) in
        rw (c, run, written)
          (next (record t { row = d; wts = wts }) fewer
            (record {
              pts_low = omega (arith, v.loose.pts_low);
              rts_exact = v.loose.rts_exact;
              waiting = v.loose.waiting;
              backed = backed;
              writes = All-left IsWrite s.min_rts s.writereq v.loose.writes;
            }))
  ]

  raise_min_rts-Inv :
      (s : RowTs D)
      → NextRound (length s.prereq)
      → s.min_pts ≡ cal_min s.prereq
      → s.min_rts ≤ cal_min s.readreq
      → All (λ q. s.min_pts < q.ts) s.readreq
      → ((a : ℕ) → count a s.writereq ≤ count a s.prereq)
      → All IsWrite s.writereq
      → Ends Inv (raise_min_rts again s)
  unfolding raise_min_rts
  raise_min_rts-Inv s next exact low waiting backed writes =
      elim (Bool-cases (ltb s.min_rts (cal_min s.readreq))) [
        | inl c ↦ rw c (
            release_writes-Inv (record s { min_rts = cal_min s.readreq }) next
              (record {
                loose = record {
                  pts_low = omega arith;
                  rts_exact = refl;
                  waiting = waiting;
                  backed = backed;
                  writes = writes;
                };
                pts_exact = exact;
              }))
        | inr c ↦ rw c (record {
          loose = record {
            pts_low = omega arith;
            rts_exact = ground arith;
            waiting = waiting;
            backed = backed;
            writes = writes;
          };
          pts_exact = exact;
        })
      ]

  release_reads-Inv :
      (s : RowTs D)
      → NextRound (length s.prereq)
      → s.min_pts ≡ cal_min s.prereq
      → s.min_rts ≡ cal_min s.readreq
      → ((a : ℕ) → count a s.writereq ≤ count a s.prereq)
      → All IsWrite s.writereq
      → Ends Inv (release_reads again s)
  unfolding release_reads
  release_reads-Inv s next exact rts backed writes =
      elim (Bool-cases (is_nil (taken s.min_pts [] s.readreq))) [
        | inl c ↦ rw c (record {
          loose = record {
            pts_low = omega arith;
            rts_exact = rts;
            waiting = none_taken s.min_pts s.readreq c;
            backed = backed;
            writes = writes;
          };
          pts_exact = exact;
        })
        | inr c ↦
            let rest = left s.min_pts s.readreq in
            let ready = taken s.min_pts [] s.readreq in
            rw (c, perform_reads_frame ready (record s { readreq = rest }))
              (raise_min_rts-Inv _ next exact (omega (arith, cal_min-left s.min_pts s.readreq))
                (left_above s.min_pts s.readreq) backed writes)
      ]

  pub round-Inv : (s : RowTs D) → NextRound (length s.prereq) → Loose s → Ends Inv (round again s)
  unfolding round
  round-Inv s next v =
      let kept : ltb (cal_min s.prereq) s.min_pts ≡ false = ground (arith, v.pts_low) in
      elim (Bool-cases (ltb s.min_pts (cal_min s.prereq))) [
        | inl c ↦
            rw (kept, c)
              (release_reads-Inv (record s { min_pts = cal_min s.prereq }) next refl v.rts_exact
                v.backed v.writes)
        | inr c ↦ rw (kept, c) (record { loose = v; pts_exact = ground (arith, v.pts_low) })
      ]

module _ {D : Type 0} where
  -- With more fuel than prewrites update_buffer ends, passes its assertions, and restores the
  -- invariant: the minima are exact, and no read is left buffered whose prewrites have ended.
  pub update_buffer-Inv :
      (fuel : ℕ) (s : RowTs D) → length s.prereq < fuel → Loose s → Ends Inv (update_buffer fuel s)
  unfolding update_buffer
  update_buffer-Inv zero s h v = absurd (omega arith)
  update_buffer-Inv (suc fuel) s h v =
      round-Inv (update_buffer fuel) s (λ u less w. update_buffer-Inv fuel u (omega arith) w) v
