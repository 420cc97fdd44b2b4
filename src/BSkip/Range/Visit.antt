-- ===== src/BSkip/Range/Visit.antt =====
-- The loop of map_range_length over the leaves from a key on (range.cpp).
use dbx1000_bskiplist.Base.{
  ℕ, suc, ◌+◌, ◌-◌, ◌≡◌, ◌<◌, ◌≤◌, List, [], ◌++◌, length, refl, arith, inl, inr, ◌⊎◌, ap, sym, ◌∙◌,
  subst, true, false, ◌==◌, ltb, if◌then◌else◌, Bool-cases, dec_lt, some, ℕ_discrete,
}
use mathlib.Core.List.{Memᴰ}
use dbx1000_bskiplist.Run.{done}
use dbx1000_bskiplist.BSkip.Leaf.{Element}
use dbx1000_bskiplist.BSkip.Node.{Memory, leaf, key_in, max_sentinel, get_key_at_rank}
use dbx1000_bskiplist.BSkip.Find.Shape.{Shape, Covers}
use dbx1000_bskiplist.BSkip.Find.Walk.{held_by_cover}
use dbx1000_bskiplist.BSkip.Insert.Contents.{Contains, Maps-Contains}
use dbx1000_bskiplist.BSkip.Range.{Position, chunk, at_end, visit}
use dbx1000_bskiplist.BSkip.Range.Chunk.{
  RisingFrom, AllBelow, chunk-mem, mem-chunk, chunk-RisingFrom,
}

module _ (memory : Memory) (Live : ℕ → ℕ → Type 0) where
  -- After the last leaf stands the end sentinel.
  abbrev pub Ended : Type 0
  Ended =
      (a : ℕ)
      → Live 0 a
      → (memory a).next_header ≡ max_sentinel
      → (b : ℕ) × ((memory a).next ≡ some b) × (get_key_at_rank (memory b) 0 ≡ max_sentinel)

  -- `out` are the first `count` elements of the list with keys from `low` on, in their order, or all of
  -- them if there are fewer.
  pub record First (low count : ℕ) (out : List Element) : Type 0 where
    pub rising : RisingFrom low out
    pub found : (e : Element) → Memᴰ e out → Contains memory Live e
    pub few : length out ≤ count
    pub complete :
        (e : Element)
        → Contains memory Live e
        → low ≤ e.key
        → Memᴰ e out ⊎ ((length out ≡ count) × AllBelow e.key out)

pub visit_none : (fuel : ℕ) (memory : Memory) (p : Position) → visit (suc fuel) memory p 0 ≡ done []
unfolding visit
visit_none fuel memory p = elim (Bool-cases (at_end memory p)) [
  | inl c ↦ rw c refl
  | inr c ↦ rw c refl
]

pub visit_end :
    (fuel : ℕ) (memory : Memory) (p : Position) (remaining : ℕ)
    → at_end memory p ≡ true
    → visit (suc fuel) memory p remaining ≡ done []
unfolding visit
visit_end fuel memory p remaining c = rw c refl

module _ (fuel : ℕ) (memory : Memory) (a rank remaining : ℕ) (array : ℕ → Element)
    (out : List Element) (running : at_end memory (record { node = a; rank = rank }) ≡ false)
    (more : (remaining == 0) ≡ false) (body : (memory a).body ≡ leaf array) where
  -- The last leaf of a visit, and one before it.
  pub visit_last :
      remaining ≤ (memory a).num_elts - rank
      → visit fuel memory (record { node = a; rank = rank + remaining }) 0 ≡ done out
      → visit (suc fuel) memory (record { node = a; rank = rank }) remaining
        ≡ done (chunk array rank remaining ++ out)
  unfolding visit
  visit_last small rest =
      let it : (if ltb remaining ((memory a).num_elts - rank)
            then remaining
            else (memory a).num_elts - rank)
          ≡ remaining =
        ground arith in
      let left : remaining - remaining ≡ 0 = omega arith in
      rw (running, more, body, it, left, rest) refl

  pub visit_more :
      (b : ℕ)
      → (memory a).num_elts - rank < remaining
      → (memory a).next ≡ some b
      → visit fuel memory (record { node = b; rank = 0 }) (remaining - ((memory a).num_elts - rank))
        ≡ done out
      → visit (suc fuel) memory (record { node = a; rank = rank }) remaining
        ≡ done (chunk array rank ((memory a).num_elts - rank) ++ out)
  unfolding visit
  visit_more b large next rest =
      let c : ltb remaining ((memory a).num_elts - rank) ≡ false = ground arith in
      let left : ((remaining - ((memory a).num_elts - rank)) == 0) ≡ false = ground arith in
      rw (running, more, body, c, left, next, rest) refl

module _ (memory : Memory) (Live : ℕ → ℕ → Type 0) (shape : Shape memory Live) where
  -- An element of a leaf's range stands in the leaf.
  pub in_leaf :
      (a : ℕ) (array : ℕ → Element) (e : Element)
      → Live 0 a
      → (memory a).body ≡ leaf array
      → Covers (memory a) e.key
      → Contains memory Live e
      → (i : ℕ) × (i < (memory a).num_elts) × (array i ≡ e)
  in_leaf a array e live body covers has =
      let (array', i, body', h, at) =
        held_by_cover memory Live shape a e.key e.value live covers
          ((Maps-Contains memory Live e.key e.value).1 has) in
      let same : array ≡ array' = let p = sym body ∙ body' in cc in (i, h, ap (λ f. f i) same ∙ at)

  -- An element of the list is below the maximal sentinel.
  pub below_max : (e : Element) → Contains memory Live e → e.key < max_sentinel
  below_max e (a, live, (array, i, body, h, at)) =
      let v = shape.nodes 0 a live in
      let key : key_in (memory a).body i ≡ e.key =
        subst (λ x. key_in x i ≡ e.key) (sym body) (ap (λ (x : Element). x.key) at) in
      omega (arith, v.sorted.under i h, v.bound)

  -- Part of one leaf, and what comes after its range.
  module _ (a rank it low count : ℕ) (array : ℕ → Element) (out : List Element) (live : Live 0 a)
      (body : (memory a).body ≡ leaf array) (some_there : 0 < it)
      (inside : rank + it ≤ (memory a).num_elts) where
    up : (i j : ℕ) → i < j → j < (memory a).num_elts → (array i).key < (array j).key
    up i j h l =
        subst (λ x. key_in x i < key_in x j) body ((shape.nodes 0 a live).sorted.rising i j h l)

    under : (i : ℕ) → i < (memory a).num_elts → (array i).key < (memory a).next_header
    under i h =
        subst (λ x. key_in x i < (memory a).next_header) body
          ((shape.nodes 0 a live).sorted.under i h)

    pub chunk_first :
        RisingFrom (array rank).key (chunk array rank it)
        × AllBelow (memory a).next_header (chunk array rank it)
        × ((e : Element) → Memᴰ e (chunk array rank it) → Contains memory Live e)
    chunk_first = (
      chunk-RisingFrom array (memory a).num_elts rank it up inside some_there,
      λ e m.
          let (i, l, h, at) = mem-chunk array rank it e m in
          subst (λ (x : Element). x.key < (memory a).next_header) at (under i (omega arith)),
      λ e m.
          let (i, l, h, at) = mem-chunk array rank it e m in
          (a, live, (array, i, body, omega arith, at)),
    )

    -- An element from the first key of the chunk on: in it, after it in the leaf, or after the leaf.
    pub chunk_cases :
        (e : Element)
        → Contains memory Live e
        → (array rank).key ≤ e.key
        → Memᴰ e (chunk array rank it)
          ⊎ (((rank + it < (memory a).num_elts) ⊎ ((memory a).next_header ≤ e.key))
              × AllBelow e.key (chunk array rank it))
    chunk_cases e has from = elim (dec_lt e.key (memory a).next_header) [
      | no far ↦ inr (inr (omega arith), λ x m. omega (arith, chunk_first.1 x m))
      | yes near ↦
          let first : key_in (memory a).body 0 ≤ e.key =
            subst (λ b. key_in b 0 ≤ e.key) (sym body)
              (elim (ℕ_discrete rank 0) [
                | yes z ↦ subst (λ r. (array r).key ≤ e.key) z from
                | no d ↦ omega (arith, up 0 rank (omega arith) (omega arith))
              ]) in
          let (i, h, at) = in_leaf a array e live body (first, near) has in
          let key = ap (λ (x : Element). x.key) at in
          elim (dec_lt i rank) [
            | yes l ↦ absurd (omega (arith, up i rank l (omega arith)))
            | no l ↦ elim (dec_lt i (rank + it)) [
              | yes in_it ↦ inl (
                  subst (λ x. Memᴰ x (chunk array rank it)) at
                    (chunk-mem array rank it i (omega arith) in_it))
              | no after ↦ inr (
                inl (omega arith),
                λ x m.
                    let (j, l', h', at') = mem-chunk array rank it x m in
                    let key' = ap (λ (y : Element). y.key) at' in
                    omega (arith, up j i (omega arith) h),
              )
            ]
          ]
    ]
