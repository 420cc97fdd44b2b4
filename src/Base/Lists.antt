-- ===== src/Base/Lists.antt =====
-- Lists measured by native numbers, and predicates over their elements.
use Prim.Native.Nat.{ℕ, suc, ◌+◌, ◌<◌}
use mathlib.Core.Path.{◌≡◌, ap, sym, subst, ◌∙◌}
use mathlib.Core.List.{List, [], ◌∷◌, ◌++◌, reverse, reverse-cons, append_assoc}
use mathlib.Core.List.{Memᴰ, Perm, perm_middle}
use mathlib.Core.List.Perm
use native.Mathlib.Omega.{arith}
use native.Mathlib.Decide.{ℕ_discrete}

module _ {ℓ} {A : Type ℓ} where
  abbrev pub length : List A → ℕ
  length [] = 0
  length (x ∷ xs) = suc (length xs)

  pub length-append : (xs ys : List A) → length (xs ++ ys) ≡ length xs + length ys
  length-append [] ys = omega arith
  length-append (x ∷ xs) ys = omega (arith, length-append xs ys)

module _ {ℓ κ} {A : Type ℓ} where
  abbrev pub All : (A → Type κ) → List A → Type κ
  All P [] = Unit
  All P (x ∷ xs) = P x × All P xs

module _ {ℓ κ} {A : Type ℓ} (P : A → Type κ) where
  pub All-append : (xs ys : List A) → All P xs → All P ys → All P (xs ++ ys)
  All-append [] ys hx hy = hy
  All-append (x ∷ xs) ys hx hy = (hx.0, All-append xs ys hx.1 hy)

module _ {ℓ κ} {A : Type ℓ} (P Q : A → Type κ) (weaken : (a : A) → P a → Q a) where
  pub All-map : (xs : List A) → All P xs → All Q xs
  All-map [] h = tt
  All-map (x ∷ xs) h = (weaken x h.0, All-map xs h.1)

module _ {ℓ} {A : Type ℓ} where
  pub reverse-append_cons : (x : A) (xs ys : List A) → reverse (x ∷ xs) ++ ys ≡ reverse xs ++ x ∷ ys
  reverse-append_cons x xs ys =
      ap (λ l. l ++ ys) (reverse-cons x xs) ∙ append_assoc (reverse xs) (x ∷ []) ys

  -- A prefix moves from one list to the front of another, reversed.
  pub perm_move : (p xs ys : List A) → Perm (xs ++ (p ++ ys)) ((reverse p ++ xs) ++ ys)
  perm_move [] xs ys = Perm.refl (xs ++ ys)
  perm_move (w ∷ p) xs ys =
      rw (reverse-append_cons w p xs)
        (Perm.trans (perm_middle xs (p ++ ys)) (perm_move p (w ∷ xs) ys))

pub All-mem {ℓ} : {A : Type 0} (P : A → Type ℓ) (xs : List A) (x : A) → All P xs → Memᴰ x xs → P x
All-mem P [] x a m = elim m [ ]
All-mem P (y ∷ xs) x a (Memᴰ.head q) = subst P (sym q) a.0
All-mem P (y ∷ xs) x a (Memᴰ.tail m) = All-mem P xs x a.1 m

-- A bounded statement, one further.
pub below_suc {ℓ} :
    (P : ℕ → Type ℓ) (i : ℕ) → ((x : ℕ) → x < i → P x) → P i → (x : ℕ) → x < i + 1 → P x
below_suc P i before at x h = elim (ℕ_discrete x i) [
  | yes e ↦ subst P (sym e) at
  | no n ↦ before x (omega arith)
]
