-- ===== src/BSkip/Range/Chunk.antt =====
-- Lists of elements with rising keys, and the elements of one leaf from a rank on.
use dbx1000_bskiplist.Base.{
  ℕ, zero, suc, ◌+◌, ◌≡◌, ◌<◌, ◌≤◌, List, [], ◌∷◌, ◌++◌, length, refl, arith, inl, inr, ap, sym,
  ℕ_discrete,
}
use mathlib.Core.List.{Memᴰ}
use mathlib.Core.List.Memᴰ
use dbx1000_bskiplist.BSkip.Leaf.{Element}
use dbx1000_bskiplist.BSkip.Range.{chunk}

-- The keys rise, and are at least `low`.
abbrev pub RisingFrom : ℕ → List Element → Type 0
RisingFrom low [] = Unit {0}
RisingFrom low (e ∷ es) = (low ≤ e.key) × RisingFrom (e.key + 1) es

abbrev pub AllBelow : ℕ → List Element → Type 0
AllBelow high es = (e : Element) → Memᴰ e es → e.key < high

pub RisingFrom-le :
    (low low' : ℕ) (es : List Element) → low' ≤ low → RisingFrom low es → RisingFrom low' es
RisingFrom-le low low' [] h v = tt
RisingFrom-le low low' (e ∷ es) h (first, rest) = (omega arith, rest)

pub RisingFrom-append :
    (low middle : ℕ) (es fs : List Element)
    → low ≤ middle
    → RisingFrom low es
    → AllBelow middle es
    → RisingFrom middle fs
    → RisingFrom low (es ++ fs)
RisingFrom-append low middle [] fs h v below w = RisingFrom-le middle low fs h w
RisingFrom-append low middle (e ∷ es) fs h (first, rest) below w = (
  first,
  RisingFrom-append (e.key + 1) middle es fs (omega (arith, below e (Memᴰ.head refl))) rest
      (λ x m. below x (Memᴰ.tail m)) w,
)

pub length-chunk : (array : ℕ → Element) (rank count : ℕ) → length (chunk array rank count) ≡ count
unfolding chunk
length-chunk array rank zero = refl
length-chunk array rank (suc count) = ap suc (length-chunk array (rank + 1) count)

pub chunk-mem :
    (array : ℕ → Element) (rank count i : ℕ)
    → rank ≤ i
    → i < rank + count
    → Memᴰ (array i) (chunk array rank count)
unfolding chunk
chunk-mem array rank zero i h l = absurd (omega arith)
chunk-mem array rank (suc count) i h l = elim (ℕ_discrete i rank) [
  | yes e ↦ Memᴰ.head (ap array e)
  | no d ↦ Memᴰ.tail (chunk-mem array (rank + 1) count i (omega arith) (omega arith))
]

pub mem-chunk :
    (array : ℕ → Element) (rank count : ℕ) (e : Element)
    → Memᴰ e (chunk array rank count)
    → (i : ℕ) × (rank ≤ i) × (i < rank + count) × (array i ≡ e)
unfolding chunk
mem-chunk array rank zero e m = absurd (Memᴰ.not-nil m)
mem-chunk array rank (suc count) e m = elim (Memᴰ.cases_cons m) [
  | inl q ↦ (rank, omega arith, omega arith, sym q)
  | inr m' ↦
      let (i, low, high, at) = mem-chunk array (rank + 1) count e m' in
      (i, omega arith, omega arith, at)
]

pub chunk-RisingFrom :
    (array : ℕ → Element) (n rank count : ℕ)
    → ((i j : ℕ) → i < j → j < n → (array i).key < (array j).key)
    → rank + count ≤ n
    → 0 < count
    → RisingFrom (array rank).key (chunk array rank count)
unfolding chunk
chunk-RisingFrom array n rank zero up h pos = absurd (omega arith)
chunk-RisingFrom array n rank (suc zero) up h pos = (omega arith, tt)
chunk-RisingFrom array n rank (suc (suc count)) up h pos = (
  omega arith,
  RisingFrom-le (array (rank + 1)).key ((array rank).key + 1) (chunk array (rank + 1) (suc count))
      (omega (arith, up rank (rank + 1) (omega arith) (omega arith)))
      (chunk-RisingFrom array n (rank + 1) (suc count) up (omega arith) (omega arith)),
)
