-- ===== src/BSkip/Find/Exists.antt =====
-- BSkip::exists finds exactly the keys that the list holds (exists.cpp).
use dbx1000_bskiplist.Base.{
  ℕ, zero, suc, ◌≡◌, ◌<◌, ◌≤◌, arith, Bool, true, Bool-cases, inl, inr, refl, ◌↔◌, ==_iff, ◌==◌,
  ℕ_discrete, subst, ap, dec_lt,
}
use dbx1000_bskiplist.Run.{done}
use dbx1000_bskiplist.BSkip.Leaf.{Element}
use dbx1000_bskiplist.BSkip.Node.{Node, Memory, max_sentinel, key_in, get_key_at_rank}
use dbx1000_bskiplist.BSkip.Node.Rank.{Sorted, Found, find_key_and_check-Found}
use dbx1000_bskiplist.BSkip.Find.{
  exists_from, exists, top_level, forward, find_key_and_check, false, get_child_at_rank,
}
use dbx1000_bskiplist.BSkip.Find.Shape.{Shape, Covers, Maps}
use dbx1000_bskiplist.BSkip.Find.Walk.{
  forward-Covers, key_in_leaf, held_by_cover, get_child_at_rank_lem,
}

-- A key of a sorted node is at the rank found.
pub Found-exact :
    (n : Node) (k r i : ℕ) → Sorted n → Found n k r → i < n.num_elts → key_in n.body i ≡ k → i ≡ r
Found-exact n k r i v f h e = elim (ℕ_discrete i r) [
  | yes same ↦ same
  | no d ↦ elim (dec_lt i r) [
    | yes l ↦ absurd (omega (arith, v.rising i r l f.within, f.at_most))
    | no l ↦ absurd (omega (arith, f.largest i (omega arith) h))
  ]
]

exists_from-below :
    (memory : Memory) (fuel level a k b r c : ℕ) (found : Bool)
    → forward fuel memory a k ≡ done b
    → find_key_and_check (memory b) k ≡ (r, get_key_at_rank (memory b) r == k)
    → (get_key_at_rank (memory b) r == k) ≡ false
    → get_child_at_rank (memory b) r ≡ done c
    → exists_from fuel memory k level c ≡ done found
    → exists_from fuel memory k (suc level) a ≡ done found
unfolding exists_from
exists_from-below memory fuel level a k b r c found walk run other child rest =
    rw (walk, run, other, child) rest

module _ (memory : Memory) (Live : ℕ → ℕ → Type 0) (shape : Shape memory Live) where
  abbrev pub Holds : ℕ → Type 0
  Holds k = (v : ℕ) × Maps memory Live k v

  -- The key at the rank found is the key, if the list holds it in this leaf's range.
  pub at_rank :
      (b k r : ℕ)
      → Live 0 b
      → Covers (memory b) k
      → Found (memory b) k r
      → Holds k
      → get_key_at_rank (memory b) r ≡ k
  at_rank b k r live covers f (v, m) =
      let (array, i, e, h, here) = held_by_cover memory Live shape b k v live covers m in
      let key : get_key_at_rank (memory b) i ≡ k = rw e (ap (λ (x : Element). x.key) here) in
      let same = Found-exact (memory b) k r i (shape.nodes 0 b live).sorted f h key in
      subst (λ x. get_key_at_rank (memory b) x ≡ k) same key

  pub exists_from-Holds :
      (fuel level a k : ℕ)
      → Live level a
      → get_key_at_rank (memory a) 0 ≤ k
      → k < max_sentinel
      → k < fuel
      → (found : Bool) × (exists_from fuel memory k level a ≡ done found)
        × ((found ≡ true) ↔ Holds k)
  unfolding exists_from
  exists_from-Holds fuel zero a k live low high enough =
      let (b, walk, there, covers) =
        forward-Covers memory Live shape fuel zero a k live low high (omega arith) in
      let v = shape.nodes zero b there in
      let (r, run, f) = find_key_and_check-Found (memory b) k v.sorted covers.0 in
      (
        get_key_at_rank (memory b) r == k,
        rw (walk, run) refl,
        (
          λ e.
              subst Holds ((==_iff _ k).0 e)
                (key_in_leaf memory Live shape zero b r there f.within),
          λ h. (==_iff _ k).1 (at_rank b k r there covers f h),
        ),
      )
  exists_from-Holds fuel (suc level) a k live low high enough =
      let (b, walk, there, covers) =
        forward-Covers memory Live shape fuel (suc level) a k live low high (omega arith) in
      let v = shape.nodes (suc level) b there in
      let (r, run, f) = find_key_and_check-Found (memory b) k v.sorted covers.0 in
      elim (Bool-cases (get_key_at_rank (memory b) r == k)) [
        | inl c ↦ (
          true,
          rw (walk, run, c) refl,
          (
            λ e.
                subst Holds ((==_iff _ k).0 c)
                  (key_in_leaf memory Live shape (suc level) b r there f.within),
            λ h. refl,
          ),
        )
        | inr c ↦
            let (keys, children, e, below) = v.arrays in
            let (child, link, live', header) = below r f.within in
            let most : keys r ≤ k = subst (λ x. key_in x r ≤ k) e f.at_most in
            let (found, rest, iff) =
              exists_from-Holds fuel level child k live' (omega arith) high enough in
            (
              found,
              exists_from-below memory fuel level a k b r child found walk run c
                  (get_child_at_rank_lem (memory b) keys children r child e link) rest,
              iff,
            )
      ]

  -- On a well-formed list, from the header of the top level, and for a key below the maximal
  -- sentinel: with more fuel than the key, `exists` ends, and finds the key exactly when the list
  -- holds it.
  pub exists-Holds :
      (fuel header k : ℕ)
      → Live top_level header
      → get_key_at_rank (memory header) 0 ≡ 0
      → k < max_sentinel
      → k < fuel
      → (found : Bool) × (exists fuel memory header k ≡ done found) × ((found ≡ true) ↔ Holds k)
  unfolding exists
  exists-Holds fuel header k live zero_key high enough =
      exists_from-Holds fuel top_level header k live (omega arith) high enough
