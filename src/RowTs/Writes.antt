-- ===== src/RowTs/Writes.antt =====
-- Which buffered writes update_buffer performs (row_ts.cpp).
use dbx1000_bskiplist.Run.{Run, done}
use dbx1000_bskiplist.RowTs.Buffers.{All-taken, count-taken}
use dbx1000_bskiplist.Base.{
  ℕ, suc, List, ◌∷◌, [], All, refl, Bool-cases, ◌≡◌, some, ltb, ◌≤◌, false, arith, inl, inr, none,
  true,
}
use mathlib.Core.List.{Memᴰ}
use dbx1000_bskiplist.RowTs.{
  RowTs, Req, update_buffer, taken, left, cal_min, choose_young, round, release_reads, is_nil,
  release_writes, at_least, uint64_max, write_row,
}
use dbx1000_bskiplist.RowTs.Invariant.{Inv, Loose, IsWrite, debuffer_pres_total}

module _ {D : Type 0} where
  -- Without a buffered read, update_buffer releases no write: it only brings min_pts up to date,
  -- whatever writes were waiting for that.
  pub update_buffer-no_reads :
      (fuel : ℕ) (s : RowTs D)
      → Loose s
      → s.readreq ≡ []
      → update_buffer (suc fuel) s ≡ done (record s { min_pts = cal_min s.prereq })
  unfolding update_buffer round release_reads taken
  update_buffer-no_reads fuel s v none_read =
      let kept : ltb (cal_min s.prereq) s.min_pts ≡ false = ground (arith, v.pts_low) in
      elim (Bool-cases (ltb s.min_pts (cal_min s.prereq))) [
        | inl c ↦ rw (kept, c, none_read) refl
        | inr c ↦
            let same : cal_min s.prereq ≡ s.min_pts = ground (arith, v.pts_low) in
            rw (kept, c, same) refl
      ]

  skip_second : {r q p : Req D} {qs : List (Req D)} → Memᴰ r (q ∷ qs) → Memᴰ r (q ∷ p ∷ qs)
  skip_second (Memᴰ.head e) = Memᴰ.head e
  skip_second (Memᴰ.tail m) = Memᴰ.tail (Memᴰ.tail m)

  -- The choice is one of the ready writes, and has the smallest timestamp of them.
  choose_young-cons :
      (q : Req D) (qs : List (Req D))
      → IsWrite q
      → All IsWrite qs
      → (r : Req D) × (choose_young q.ts (some q) qs ≡ some r)
        × Memᴰ r (q ∷ qs)
        × IsWrite r
        × (r.ts ≤ q.ts)
        × All (λ p. r.ts ≤ p.ts) qs
  unfolding choose_young
  choose_young-cons q [] w ws = (q, refl, Memᴰ.head refl, w, omega arith, tt)
  choose_young-cons q (p ∷ qs) w ws = elim (Bool-cases (ltb p.ts q.ts)) [
    | inl c ↦
        let (r, run, mem, wr, low, lows) = choose_young-cons p qs ws.0 ws.1 in
        (r, rw c run, Memᴰ.tail mem, wr, ground arith, (low, lows))
    | inr c ↦
        let (r, run, mem, wr, low, lows) = choose_young-cons q qs w ws.1 in
        (r, rw c run, skip_second mem, wr, low, (ground arith, lows))
  ]

  choose_young_lem :
      (qs : List (Req D))
      → is_nil qs ≡ false
      → All IsWrite qs
      → (r : Req D) × (choose_young uint64_max none qs ≡ some r)
        × Memᴰ r qs
        × IsWrite r
        × All (λ p. r.ts ≤ p.ts) qs
  unfolding choose_young
  choose_young_lem [] n ws = cc
  choose_young_lem (q ∷ qs) n ws =
      let first : ltb q.ts uint64_max ≡ true = ground arith in
      let (r, run, mem, wr, low, lows) = choose_young-cons q qs ws.0 ws.1 in
      (r, rw first run, mem, wr, (low, lows))

  -- Where some writes are ready, update_buffer performs one of those with the smallest timestamp
  -- and goes on; all of them have left the buffer.
  pub release_writes_least :
      (again : RowTs D → Run (RowTs D)) (s : RowTs D)
      → Inv s
      → let ready = taken s.min_rts [] s.writereq in
        let rest = left s.min_rts s.writereq in
        is_nil ready ≡ false
        → (r : Req D) × (d : D) × (prereq : List (Req D)) × (n : ℕ) × Memᴰ r ready
          × (r.row ≡ some d)
          × All (λ p. r.ts ≤ p.ts) ready
          × (release_writes again s
              ≡ again (record s {
                row = d;
                wts = at_least s.wts r.ts;
                writereq = rest;
                prereq = prereq;
                preq_len = n;
              }))
  unfolding release_writes
  release_writes_least again s v c =
      let ready = taken s.min_rts [] s.writereq in
      let rest = left s.min_rts s.writereq in
      let writes = All-taken IsWrite s.min_rts [] s.writereq tt v.loose.writes in
      let (prereq, n, run, _, _, _) =
        debuffer_pres_total ready rest (record s { writereq = rest })
          (λ a. omega (arith, count-taken a s.min_rts [] s.writereq, v.loose.backed a)) in
      let (r, chosen, mem, ((d, row), _), low) = choose_young_lem ready c writes in
      (r, d, prereq, n, mem, row, low, rw (c, run, chosen, write_row, row) refl)
