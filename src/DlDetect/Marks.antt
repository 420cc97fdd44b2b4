-- ===== src/DlDetect/Marks.antt =====
-- The flags of a search, and how many are left to set.
use dbx1000_bskiplist.Base.{
  ℕ, zero, suc, ◌+◌, ◌≡◌, ◌≢◌, ◌<◌, ◌≤◌, Bool, true, false, ◌==◌, arith, refl, if◌then◌else◌,
  ℕ_discrete,
}
use dbx1000_bskiplist.DlDetect.{mark}

pub mark_here : (flags : ℕ → Bool) (a : ℕ) (v : Bool) → mark flags a v a ≡ v
mark_here flags a v = let c : (a == a) ≡ true = ground arith in rw c refl

pub mark_elsewhere : (flags : ℕ → Bool) (a x : ℕ) (v : Bool) → x ≢ a → mark flags a v x ≡ flags x
mark_elsewhere flags a x v d = let c : (x == a) ≡ false = ground arith in rw c refl

-- How many of the first n flags are not set.
pub unmarked : (ℕ → Bool) → ℕ → ℕ
unmarked flags zero = 0
unmarked flags (suc n) = (if flags n then 0 else 1) + unmarked flags n

pub unmarked-le :
    (flags more : ℕ → Bool) (n : ℕ)
    → ((x : ℕ) → flags x ≡ true → more x ≡ true)
    → unmarked more n ≤ unmarked flags n
unfolding unmarked
unmarked-le flags more zero h = omega arith
unmarked-le flags more (suc n) h = ground (arith, unmarked-le flags more n h, h n)

pub unmarked-mark :
    (flags : ℕ → Bool) (a n : ℕ)
    → a < n
    → flags a ≡ false
    → unmarked (mark flags a true) n + 1 ≤ unmarked flags n
unfolding unmarked
unmarked-mark flags a zero h e = absurd (omega arith)
unmarked-mark flags a (suc n) h e = elim (ℕ_discrete a n) [
  | yes q ↦ ground (arith, unmarked-le flags (mark flags a true) n (λ x m. ground (arith)), q)
  | no q ↦ ground (arith, unmarked-mark flags a n (omega arith) e)
]

pub unmarked_none : (n : ℕ) → unmarked (λ i. false) n ≤ n
unfolding unmarked
unmarked_none zero = omega arith
unmarked_none (suc n) = omega (arith, unmarked_none n)
