-- ===== src/IndexRwBskiplist/Buffer.antt =====
-- The entries that index_next has read ahead (index_rw_bskiplist.cpp).
use dbx1000_bskiplist.Base.{
  ℕ, suc, ◌+◌, ◌-◌, ◌≡◌, ◌<◌, ◌≤◌, List, [], ◌∷◌, length, refl, arith, true, false, ◌==◌, ltb,
  if◌then◌else◌, ap, ◌∙◌, subst, inl, inr, ==_iff,
}
use mathlib.Core.List.Memᴰ
use mathlib.Core.List.{Memᴰ}
use dbx1000_bskiplist.BSkip.Leaf.{Element}
use dbx1000_bskiplist.BSkip.Node.{Memory}
use dbx1000_bskiplist.BSkip.Insert.Contents.{Contains}
use dbx1000_bskiplist.BSkip.Range.{chunk}
use dbx1000_bskiplist.BSkip.Range.Chunk.{RisingFrom}
use dbx1000_bskiplist.BSkip.Range.Visit.{First}
use dbx1000_bskiplist.IndexRwBskiplist.{BskipScanCursor, fill, push, scan_batch}

abbrev pub unread : BskipScanCursor → List Element
unread sc = chunk sc.entries sc.pos (sc.count - sc.pos)

-- The buffer has the entries of the list from its count on, and what it had before.
record Filled (es : List Element) (sc sc' : BskipScanCursor) : Type 0 where
  count : sc'.count ≡ sc.count + length es
  kept : (i : ℕ) → i < sc.count → sc'.entries i ≡ sc.entries i
  added : chunk sc'.entries sc.count (length es) ≡ es

push-Filled :
    (e : Element) (es : List Element) (sc sc' : BskipScanCursor)
    → sc.count < scan_batch
    → Filled es (push e sc) sc'
    → Filled (e ∷ es) sc sc'
unfolding chunk
push-Filled e es sc sc' room v =
    let c : ltb sc.count scan_batch ≡ true = ground arith in
    let now : push e sc ≡ record sc {
      entries = λ (i : ℕ). if i == sc.count then e else sc.entries i;
      count = sc.count + 1;
    } =
      rw c refl in
    let w = subst (λ x. Filled es x sc') now v in
    let here : (sc.count == sc.count) ≡ true = (==_iff sc.count sc.count).1 refl in
    record {
      count = omega (arith, w.count);
      kept = λ i h.
          let other : (i == sc.count) ≡ false = ground arith in
          w.kept i (omega arith) ∙ rw other refl;
      added =
          let first : sc'.entries sc.count ≡ e = w.kept sc.count (omega arith) ∙ rw here refl in
          let rest = w.added in cc;
    }

fill-Filled :
    (es : List Element) (sc : BskipScanCursor)
    → sc.count + length es ≤ scan_batch
    → Filled es sc (fill es sc)
unfolding fill chunk
fill-Filled [] sc room = record { count = omega arith; kept = λ i h. refl; added = refl }
fill-Filled (e ∷ es) sc room =
    let c : ltb sc.count scan_batch ≡ true = ground arith in
    let grown : (push e sc).count ≡ sc.count + 1 = rw c refl in
    push-Filled e es sc (fill es (push e sc)) (omega arith)
      (fill-Filled es (push e sc) (omega arith))

-- After a batch the unread entries are its elements.
pub unread-fill :
    (es : List Element) (sc : BskipScanCursor)
    → length es ≤ scan_batch
    → unread (record (fill es (record sc { count = 0 })) { pos = 0 }) ≡ es
unread-fill es sc room =
    let v = fill-Filled es (record sc { count = 0 }) (omega arith) in
    subst (λ n. chunk (fill es (record sc { count = 0 })).entries 0 n ≡ es) (omega (arith, v.count))
      v.added

pub unread_next :
    (sc : BskipScanCursor)
    → sc.pos < sc.count
    → unread sc ≡ sc.entries sc.pos ∷ unread (record sc { pos = sc.pos + 1 })
unfolding chunk
unread_next sc h =
    let n : sc.count - sc.pos ≡ suc (sc.count - (sc.pos + 1)) = omega arith in rw n refl

pub unread_none : (sc : BskipScanCursor) → sc.count ≤ sc.pos → unread sc ≡ []
unfolding chunk
unread_none sc h = let n : sc.count - sc.pos ≡ 0 = omega arith in rw n refl

RisingFrom-above :
    (low : ℕ) (es : List Element) (e : Element) → RisingFrom low es → Memᴰ e es → low ≤ e.key
RisingFrom-above low [] e v m = absurd (Memᴰ.not-nil m)
RisingFrom-above low (x ∷ es) e (first, rest) m = elim (Memᴰ.cases_cons m) [
  | inl here ↦ let k = ap (λ (y : Element). y.key) here in omega arith
  | inr later ↦ omega (arith, RisingFrom-above (x.key + 1) es e rest later)
]

module _ (memory : Memory) (Live : ℕ → ℕ → Type 0) where
  -- The first of the first elements is the least.
  pub First-least :
      (low count : ℕ) (e : Element) (es : List Element)
      → First memory Live low count (e ∷ es)
      → (x : Element) → Contains memory Live x
      → low ≤ x.key
      → e.key ≤ x.key
  First-least low count e es v x has from = elim (v.complete x has from) [
    | inl m ↦ elim (Memᴰ.cases_cons m) [
      | inl here ↦ let k = ap (λ (y : Element). y.key) here in omega arith
      | inr later ↦ omega (arith, RisingFrom-above (e.key + 1) es x v.rising.1 later)
    ]
    | inr (full, all) ↦ omega (arith, all e (Memᴰ.head refl))
  ]

  -- Those after it are the first from its key on.
  pub First-rest :
      (low count : ℕ) (e : Element) (es : List Element)
      → First memory Live low (suc count) (e ∷ es)
      → First memory Live (e.key + 1) count es
  First-rest low count e es v = record {
    rising = v.rising.1;
    found = λ x m. v.found x (Memᴰ.tail m);
    few = omega (arith, v.few);
    complete = λ x has from. elim (v.complete x has (omega (arith, v.rising.0))) [
      | inl m ↦ elim (Memᴰ.cases_cons m) [
        | inl here ↦ let k = ap (λ (y : Element). y.key) here in absurd (omega arith)
        | inr later ↦ inl later
      ]
      | inr (full, all) ↦ inr (omega arith, λ y m. all y (Memᴰ.tail m))
    ];
  }

  pub First-own :
      (low count : ℕ) (es : List Element)
      → First memory Live low count es
      → First memory Live low (length es) es
  First-own low count es v = record {
    rising = v.rising;
    found = v.found;
    few = omega arith;
    complete = λ x has from. elim (v.complete x has from) [
      | inl m ↦ inl m
      | inr (full, all) ↦ inr (refl, all)
    ];
  }
