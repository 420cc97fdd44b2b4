-- ===== src/BSkip/Insert/Coins.antt =====
-- The bound of flip_coins, which its assertion demands (BSkipList.hpp).
use dbx1000_bskiplist.Base.{
  ℕ, zero, suc, ◌+◌, ◌≤◌, ◌<◌, ◌≡◌, arith, Bool-cases, inl, inr, ltb, ◌==◌, refl, ◌/◌, ◌%◌,
}
use dbx1000_bskiplist.Run.{done}
use dbx1000_bskiplist.BSkip.Find.{top_level}
use dbx1000_bskiplist.BSkip.Insert.{flip_loop, flip_coins}

flip_loop_bound :
    (fuel p h result : ℕ)
    → result ≤ top_level
    → top_level < result + fuel
    → (r : ℕ) × (flip_loop fuel p h result ≡ done r) × (r ≤ top_level)
unfolding flip_loop
flip_loop_bound zero p h result low enough = absurd (omega arith)
flip_loop_bound (suc fuel) p h result low enough = elim (Bool-cases (h % p == 0)) [
  | inr c ↦ (result, rw c refl, low)
  | inl c ↦ elim (Bool-cases (ltb top_level (result + 1))) [
    | inl d ↦ (top_level, rw (c, d) refl, omega arith)
    | inr d ↦
        let (r, run, small) =
          flip_loop_bound fuel p (h / p) (result + 1) (ground arith) (omega arith) in
        (r, rw (c, d) run, small)
  ]
]

-- Whatever the hash and the promotion parameter, five rounds are enough for flip_coins, and its
-- result is a level below MAX_HEIGHT.
pub flip_coins_bound :
    (fuel p h : ℕ) → top_level < fuel → (r : ℕ) × (flip_coins fuel p h ≡ done r) × (r ≤ top_level)
unfolding flip_coins
flip_coins_bound fuel p h enough = flip_loop_bound fuel p h 0 (omega arith) (omega arith)
