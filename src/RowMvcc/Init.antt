-- ===== src/RowMvcc/Init.antt =====
-- The state that init of row_mvcc.cpp leaves.
use dbx1000_bskiplist.Base.{ℕ, ◌≢◌, arith, refl, inl, sym}
use dbx1000_bskiplist.RowMvcc.{init}
use dbx1000_bskiplist.RowMvcc.Versions.{count_valid, History}
use dbx1000_bskiplist.RowMvcc.Invariant.{Inv}

module _ {D : Type 0} (row : ℕ) (stale : ℕ → ℕ) (heap : ℕ → D) (there : row ≢ 0) where
  init-History : History (init row stale heap)
  unfolding init count_valid
  init-History = record {
    base = there;
    apart_base = λ i l q. there (sym q);
    apart = λ i j l m d z q. z refl;
    stored = λ i l is. absurd (cc);
    later = λ i l is. absurd (cc);
    upto = λ i l is. absurd (cc);
    once = λ i j l m is js q. absurd (cc);
    latest = inl (refl, refl);
    some_entries = omega arith;
    bound = omega arith;
    count = refl;
    timed = omega arith;
  }

  pub init-Inv : Inv (init row stale heap)
  unfolding init
  init-Inv = record { history = init-History; state = inl (refl, λ i l off. refl, tt); slots = tt }
