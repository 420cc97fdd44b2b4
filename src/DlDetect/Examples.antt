-- ===== src/DlDetect/Examples.antt =====
-- Three transactions that wait in a ring, and a fourth thread that is idle.
use dbx1000_bskiplist.Base.{
  ℕ, zero, suc, subst, ◌+◌, ◌≡◌, ◌≤◌, [], ◌∷◌, false, refl, arith, ◌==◌, if◌then◌else◌, none, some,
  Option, true,
}
use mathlib.Core.List.{Memᴰ}
use mathlib.Core.List.Memᴰ
use dbx1000_bskiplist.Run.{done}
use dbx1000_bskiplist.DlDetect.{DepThd, detect_cycle, invalid}
use dbx1000_bskiplist.DlDetect.Graph.{Edge, Way, Walk, HasCycle}
use dbx1000_bskiplist.DlDetect.Victim.{detect_cycle-Verdict, Verdict, detect_cycle_stray}

-- Transaction `base` of thread 0 waits for that of thread 1, this for that of 2, this for the first.
abbrev ring : ℕ → ℕ → ℕ → DepThd
ring base locks x =
    if x == 0
    then record { adj = (base + 1) ∷ []; txnid = base; num_locks = locks + 3 }
    else if x == 1
    then record { adj = (base + 2) ∷ []; txnid = base + 1; num_locks = locks + 1 }
    else if x == 2
    then record { adj = base ∷ []; txnid = base + 2; num_locks = locks + 2 }
    else record { adj = []; txnid = invalid; num_locks = 0 }

least_aborted : detect_cycle 4 (ring 4 0) 5 false 0 4 ≡ done (1, some 1)
unfolding detect_cycle
least_aborted = refl

-- Ids from 2^31 on: the cycle is not found.
wide_missed : detect_cycle 4 (ring 2147483648 0) 5 false 0 2147483648 ≡ done (0, none)
unfolding detect_cycle
wide_missed = refl

waits :
    (base locks x t : ℕ)
    → Memᴰ t (ring base locks x).adj
    → (t ≤ base + 2) × (locks ≤ (ring base locks x).num_locks)
waits base locks zero t h = let e = Memᴰ.eq_of_singleton h in (omega arith, omega arith)
waits base locks (suc zero) t h = let e = Memᴰ.eq_of_singleton h in (omega arith, omega arith)
waits base locks (suc (suc zero)) t h = let e = Memᴰ.eq_of_singleton h in (omega arith, omega arith)
waits base locks (suc (suc (suc x))) t h =
    let c0 : (suc (suc (suc x)) == 0) ≡ false = ground arith in
    let c1 : (suc (suc (suc x)) == 1) ≡ false = ground arith in
    let c2 : (suc (suc (suc x)) == 2) ≡ false = ground arith in
    let none_there : (ring base locks (suc (suc (suc x)))).adj ≡ [] = rw (c0, c1, c2) refl in
    absurd (Memᴰ.not-nil (subst (Memᴰ t) none_there h))

detect_cycle-Verdict_example :
    (r : ℕ) × (a : Option ℕ) × (detect_cycle 4 (ring 4 0) 5 true 7 4 ≡ done (r, a))
    × Verdict 4 (ring 4 0) 0 r a
detect_cycle-Verdict_example =
    detect_cycle-Verdict 4 (ring 4 0) (omega arith) (λ x t h. omega (arith, waits 4 0 x t h)) 5 true
      7 4 (omega arith) refl

around : HasCycle 4 (ring 4 1000) 0
around = record {
  start = 0;
  nodes = 0 ∷ 1 ∷ 2 ∷ [];
  end = 2;
  way = Way.here;
  walk =
      Walk.next (5, Memᴰ.head refl, refl, refl)
        (Walk.next (6, Memᴰ.head refl, refl, refl) Walk.last);
  back = (4, Memᴰ.head refl, refl, refl);
}

detect_cycle_stray_example :
    (detect_cycle 4 (ring 4 1000) 5 false 0 4 ≡ done (1, some 3))
    × ((y : ℕ) → Edge 4 (ring 4 1000) 3 y → ⊥)
detect_cycle_stray_example =
    detect_cycle_stray 4 (ring 4 1000) (omega arith) (λ x t h. omega (arith, waits 4 1000 x t h)) 5
      false 0 4 (omega arith) refl (λ x t h. (waits 4 1000 x t h).1) refl (omega arith) around
