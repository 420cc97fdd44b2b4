-- ===== src/RowTs/Reached.antt =====
-- The states that the accesses to a row reach under timestamp ordering (row_ts.cpp).
use dbx1000_bskiplist.Run.{done, Ends-done}
use dbx1000_bskiplist.Base.{ℕ, List, ◌∷◌, [], All, Option, Bool, length, ◌<◌, ◌≤◌, ◌≡◌, refl, arith}
use dbx1000_bskiplist.RowLock.{Rc}
use dbx1000_bskiplist.RowTs.Buffers.{count}
use dbx1000_bskiplist.RowTs.{RowTs, Req, TsType, init, access, uint64_max, cal_min, min_from}
use dbx1000_bskiplist.RowTs.Invariant.{Inv}
use dbx1000_bskiplist.RowTs.Accesses.{MayAccess, access-Inv}

module _ {D : Type 0} where
  -- The states of a row, from Row_ts::init, by accesses that their transactions may make.
  pub data Reached : RowTs D → Type 0 where
    start :
        (row : D) (cur_row : ℕ → Option D) (ts_ready : ℕ → Bool)
        → Reached (init row cur_row ts_ready)
    step :
        {s : RowTs D} (t : RowTs D) (rc : Rc) (fuel : ℕ) (type : TsType) (q : Req D)
        → Reached s
        → MayAccess type q s
        → length s.prereq < fuel
        → access fuel type q s ≡ done (t, rc)
        → Reached t

  init-Inv :
      (row : D) (cur_row : ℕ → Option D) (ts_ready : ℕ → Bool) → Inv (init row cur_row ts_ready)
  unfolding init cal_min min_from
  init-Inv row cur_row ts_ready = record {
    loose = record {
      pts_low = omega arith;
      rts_exact = refl;
      waiting = tt;
      backed = λ a. omega arith;
      writes = tt;
    };
    pts_exact = refl;
  }

  pub Reached-Inv : (s : RowTs D) → Reached s → Inv s
  Reached-Inv _ (start row cur_row ts_ready) = init-Inv row cur_row ts_ready
  Reached-Inv _ (step t rc fuel type q r may enough run) =
      Ends-done (λ x. Inv x.0) _ (t, rc) run (access-Inv fuel type q _ enough may (Reached-Inv _ r))

  no_reads :
      (qs : List (Req D))
      → All (λ q. uint64_max < q.ts) qs
      → All (λ q. q.ts ≤ uint64_max) qs
      → qs ≡ []
  no_reads [] h k = refl
  no_reads (q ∷ qs) h k = absurd (omega (arith, h.0, k.0))

  no_writes : (qs : List (Req D)) → ((a : ℕ) → count a qs ≤ 0) → qs ≡ []
  no_writes [] h = refl
  no_writes (q ∷ qs) h = absurd (ground (arith, h q.txn))

  -- In every reachable state whose buffered reads have timestamps of 64 bits: once no prewrite is
  -- left, no read and no write is left in the buffers.
  pub drained :
      (s : RowTs D)
      → Reached s
      → All (λ q. q.ts ≤ uint64_max) s.readreq
      → s.prereq ≡ []
      → (s.readreq ≡ []) × (s.writereq ≡ [])
  unfolding cal_min min_from
  drained s r bits none_left =
      let v = Reached-Inv s r in
      let exact : s.min_pts ≡ cal_min {D = D} [] = rw none_left at v.pts_exact in
      (
        no_reads s.readreq (rw exact at v.loose.waiting) bits,
        no_writes s.writereq (rw none_left at v.loose.backed),
      )
