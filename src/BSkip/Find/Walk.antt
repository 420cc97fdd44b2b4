-- ===== src/BSkip/Find/Walk.antt =====
-- The walk along one level of a B-skiplist, and the way from an internal key to its leaf.
use dbx1000_bskiplist.Base.{
  ℕ, zero, suc, ◌+◌, ◌≡◌, ◌<◌, ◌≤◌, arith, Bool-cases, inl, inr, leb, refl, ap, sym, ℕ_discrete,
  subst, Option,
}
use dbx1000_bskiplist.Run.{done}
use dbx1000_bskiplist.BSkip.Leaf.{Element}
use dbx1000_bskiplist.BSkip.Node.{leaf, Memory, max_sentinel, get_key_at_rank}
use dbx1000_bskiplist.BSkip.Find.{forward, Node, internal, some, get_child_at_rank}
use dbx1000_bskiplist.BSkip.Find.Shape.{Shape, Covers, Maps}

pub get_child_at_rank_lem :
    (n : Node) (keys : ℕ → ℕ) (children : ℕ → Option ℕ) (i c : ℕ)
    → n.body ≡ internal keys children
    → children i ≡ some c
    → get_child_at_rank n i ≡ done c
get_child_at_rank_lem n keys children i c e link = rw (e, link) refl

module _ (memory : Memory) (Live : ℕ → ℕ → Type 0) (shape : Shape memory Live) where
  -- With more fuel than the key is above the header, the walk ends at the node that covers the key.
  pub forward-Covers :
      (fuel level a k : ℕ)
      → Live level a
      → get_key_at_rank (memory a) 0 ≤ k
      → k < max_sentinel
      → k < get_key_at_rank (memory a) 0 + fuel
      → (b : ℕ) × (forward fuel memory a k ≡ done b) × Live level b × Covers (memory b) k
  unfolding forward
  forward-Covers zero level a k live low high enough = absurd (omega arith)
  forward-Covers (suc fuel) level a k live low high enough =
      elim (Bool-cases (leb (memory a).next_header k)) [
        | inl c ↦
            let v = shape.nodes level a live in
            let (b, next, live', header) = v.linked (ground arith) in
            let up = v.sorted.under 0 v.sorted.nonempty in
            let (r, run, there, covers) =
              forward-Covers fuel level b k live' (ground arith) high (omega arith) in
            (r, rw (c, next) run, there, covers)
        | inr c ↦ (a, rw c refl, live, (low, ground arith))
      ]

  -- Every key of a live node stands in a leaf.
  pub key_in_leaf :
      (level a i : ℕ)
      → Live level a
      → i < (memory a).num_elts
      → (v : ℕ) × Maps memory Live (get_key_at_rank (memory a) i) v
  key_in_leaf zero a i live h =
      let (array, e) = (shape.nodes zero a live).arrays in
      ((array i).value, (a, array, i, live, e, h, rw e refl))
  key_in_leaf (suc level) a i live h =
      let (keys, children, e, below) = (shape.nodes (suc level) a live).arrays in
      let (c, child, live', header) = below i h in
      let (v, m) = key_in_leaf level c 0 live' (shape.nodes level c live').sorted.nonempty in
      (v, rw (e, sym header) m)

  -- A key that the list holds is in the leaf that covers it.
  pub held_by_cover :
      (b k v : ℕ)
      → Live 0 b
      → Covers (memory b) k
      → Maps memory Live k v
      → (array : ℕ → Element) × (i : ℕ) × ((memory b).body ≡ leaf array)
        × (i < (memory b).num_elts)
        × (array i ≡ record { key = k; value = v })
  held_by_cover b k v live covers (a, array, i, live', e, h, here) =
      let s = (shape.nodes 0 a live').sorted in
      let key : get_key_at_rank (memory a) i ≡ k = rw e (ap (λ (x : Element). x.key) here) in
      let first : get_key_at_rank (memory a) 0 ≤ k = elim (ℕ_discrete i 0) [
        | yes z ↦ omega (arith, subst (λ x. get_key_at_rank (memory a) x ≡ k) z key)
        | no d ↦ omega (arith, s.rising 0 i (omega arith) h)
      ] in
      let same = shape.apart 0 a b k live' live (first, omega (arith, s.under i h)) covers in
      (
        array,
        i,
        subst (λ x. (memory x).body ≡ leaf array) same e,
        subst (λ x. i < (memory x).num_elts) same h,
        here,
      )
