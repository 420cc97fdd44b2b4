-- ===== src/BSkip/Leaf/Insert.antt =====
-- Insertion of a new key into a leaf with room, as BSkip::insert does it (insert.cpp).
use dbx1000_bskiplist.BSkip.Leaf.Update.{insert_elt_at_rank_lem}
use dbx1000_bskiplist.Base.{
  ℕ, ◌+◌, arith, ◌<◌, ◌≡◌, if◌then◌else◌, ◌≤◌, ◌==◌, ◌↔◌, ◌&&◌, ◌⊎◌, ◌-◌, dec_lt, ℕ_discrete, inr,
  sym, ◌∙◌, ap, inl, subst,
}
use dbx1000_bskiplist.BSkip.Leaf.{
  Element, Leaf, add_to_leaf, find_key_and_check, get_header, ltb, false, leb, find_index_linear,
  inc32, insert_elt_at_rank,
}
use dbx1000_bskiplist.BSkip.Leaf.Search.{Ascending, IsRank, Ascending-le}
use dbx1000_bskiplist.BSkip.Leaf.Rank.{IsLeaf, find_index_linear-IsRank}

-- The leaf holds the element.
abbrev pub Holds : Leaf → Element → Type 0
Holds node e = (i : ℕ) × (i < node.num_elts) × (node.array i ≡ e)

module _ (n r : ℕ) (array after : ℕ → Element) (elt : Element) (up : Ascending n array)
    (v : IsRank n array elt.key r) (new : (array r).key < elt.key)
    (step : (x : ℕ)
      → after x ≡ (
          if x == r + 1
          then elt
          else if ltb (r + 1) x && leb x n
          then array (x - 1)
          else array x)) where
  Ascending-insert : Ascending (n + 1) after
  Ascending-insert i j a b = ground (
    arith,
    step i,
    step j,
    up i j,
    up (i - 1) (j - 1),
    up i (j - 1),
    Ascending-le n array i r up,
    v.largest (j - 1),
    v.within,
  )

  kept : (e : Element) (i : ℕ) → i < n → array i ≡ e → (j : ℕ) × (j < n + 1) × (after j ≡ e)
  kept e i h q = elim (dec_lt r i) [
    | yes above ↦ (i + 1, omega arith, ground (arith, step (i + 1)))
    | no below ↦ (i, omega arith, ground (arith, step i))
  ]

  put_in : after (r + 1) ≡ elt
  put_in = ground (arith, step (r + 1))

  came_from :
      (e : Element) (j : ℕ)
      → j < n + 1
      → after j ≡ e
      → ((i : ℕ) × (i < n) × (array i ≡ e)) ⊎ (e ≡ elt)
  came_from e j h q = elim (ℕ_discrete j (r + 1)) [
    | yes here ↦ inr (sym q ∙ ap after here ∙ put_in)
    | no other ↦ elim (dec_lt (r + 1) j) [
      | yes above ↦ inl (j - 1, omega arith, ground (arith, step j))
      | no below ↦ inl (j, omega (arith, v.within), ground (arith, step j))
    ]
  ]

-- An element put in after the rank of its key, where the leaf has not the key: the leaf stays well
-- formed with the same header, and holds the new element and those that it held before.
pub insert_after_rank :
    (node : Leaf) (elt : Element) (r : ℕ)
    → IsLeaf node
    → IsRank node.num_elts node.array elt.key r
    → (node.array r).key < elt.key
    → node.num_elts + 1 < 2147483648
    → let after = record (insert_elt_at_rank node (r + 1) elt) { num_elts = inc32 node.num_elts } in
      IsLeaf after
      × ((e : Element) → Holds after e ↔ (Holds node e ⊎ (e ≡ elt)))
      × (after.array 0 ≡ node.array 0)
      × (after.num_elts ≡ node.num_elts + 1)
insert_after_rank node elt r v found less room =
    let step = insert_elt_at_rank_lem node (r + 1) elt in
    let count : inc32 node.num_elts ≡ node.num_elts + 1 = omega arith in
    let n = node.num_elts in
    let after = (insert_elt_at_rank node (r + 1) elt).array in
    (
      record {
        nonempty = omega arith;
        fits = omega arith;
        ascending =
            subst (λ m. Ascending m after) (sym count)
              (Ascending-insert n r node.array after elt v.ascending found less step);
      },
      (λ e. (
        λ (i, h, q).
            came_from n r node.array after elt v.ascending found less step e i (omega arith) q,
        elim [
          | inl (i, h, q) ↦
              let (j, h', q') = kept n r node.array after elt v.ascending found less step e i h q in
              (j, omega arith, q')
          | inr q ↦ (
            r + 1,
            omega (arith, found.within),
            put_in n r node.array after elt v.ascending found less step ∙ sym q,
          )
        ],
      )),
      ground (arith, step 0),
      count,
    )

-- The leaf stays well formed, and it holds the new element and those that it held before.
pub add_to_leaf_lem :
    (node : Leaf) (elt : Element)
    → IsLeaf node
    → get_header node ≤ elt.key
    → (find_key_and_check node elt.key).1 ≡ false
    → node.num_elts + 1 < 2147483648
    → IsLeaf (add_to_leaf node elt)
      × ((e : Element) → Holds (add_to_leaf node elt) e ↔ (Holds node e ⊎ (e ≡ elt)))
unfolding add_to_leaf find_key_and_check
add_to_leaf_lem node elt v low new room =
    let r = find_index_linear node elt.key in
    let found = find_index_linear-IsRank node elt.key v low in
    let less : (node.array r).key < elt.key = ground (arith, found.at_most) in
    let (leaf, holds, _, _) = insert_after_rank node elt r v found less room in (leaf, holds)
