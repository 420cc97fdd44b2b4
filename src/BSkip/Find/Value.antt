-- ===== src/BSkip/Find/Value.antt =====
-- BSkip::value returns what the list maps the key to (value.cpp).
use dbx1000_bskiplist.Base.{
  ℕ, zero, suc, ◌≡◌, ◌<◌, ◌≤◌, arith, true, Bool-cases, inl, inr, refl, ==_iff, ◌==◌, subst, ◌⊎◌,
  ◌∙◌, ap,
}
use dbx1000_bskiplist.Run.{done}
use dbx1000_bskiplist.BSkip.Leaf.{Element}
use dbx1000_bskiplist.BSkip.Node.{leaf, Memory, max_sentinel, key_in, get_key_at_rank}
use dbx1000_bskiplist.BSkip.Node.Rank.{find_key_and_check-Found}
use dbx1000_bskiplist.BSkip.Find.{
  value_from, descend, ltb, forward, value, find_key_and_check, top_level, false, get_child_at_rank,
}
use dbx1000_bskiplist.BSkip.Find.Shape.{Shape, Maps}
use dbx1000_bskiplist.BSkip.Find.Walk.{forward-Covers, get_child_at_rank_lem}
use dbx1000_bskiplist.BSkip.Find.Exists.{Holds, at_rank}

value_from-below :
    (memory : Memory) (fuel level a k b r c v : ℕ)
    → forward fuel memory a k ≡ done b
    → find_key_and_check (memory b) k ≡ (r, get_key_at_rank (memory b) r == k)
    → (get_key_at_rank (memory b) r == k) ≡ false
    → get_child_at_rank (memory b) r ≡ done c
    → value_from fuel memory k level c ≡ done v
    → value_from fuel memory k (suc level) a ≡ done v
unfolding value_from
value_from-below memory fuel level a k b r c v walk run other child rest =
    rw (walk, run, other, child) rest

module _ (memory : Memory) (Live : ℕ → ℕ → Type 0) (shape : Shape memory Live) where
  -- The way down from a key of an internal node ends at the leaf that begins with the key.
  pub descend-Live :
      (fuel level a i : ℕ)
      → Live (suc level) a
      → i < (memory a).num_elts
      → level < fuel
      → (c : ℕ) × (descend fuel memory a i ≡ done c)
        × Live 0 c
        × (get_key_at_rank (memory c) 0 ≡ get_key_at_rank (memory a) i)
  unfolding descend
  descend-Live zero level a i live h enough = absurd (omega arith)
  descend-Live (suc fuel) zero a i live h enough =
      let v = shape.nodes 1 a live in
      let (keys, children, e, below) = v.arrays in
      let (c, link, live', header) = below i h in
      (c, rw (v.on_level, e, link) refl, live', rw e header)
  descend-Live (suc fuel) (suc level) a i live h enough =
      let v = shape.nodes (suc (suc level)) a live in
      let (keys, children, e, below) = v.arrays in
      let (c, link, live', header) = below i h in
      let w = shape.nodes (suc level) c live' in
      let (d, run, there, same) =
        descend-Live fuel level c 0 live' w.sorted.nonempty (omega arith) in
      let deep : ltb 1 (suc (suc level)) ≡ true = ground arith in
      (d, rw (v.on_level, deep, e, link) run, there, rw e (same ∙ header))

  leaf_Maps :
      (b r k : ℕ) (array : ℕ → Element)
      → Live 0 b
      → (memory b).body ≡ leaf array
      → r < (memory b).num_elts
      → get_key_at_rank (memory b) r ≡ k
      → Maps memory Live k (array r).value
  leaf_Maps b r k array live e h key =
      let key' : (array r).key ≡ k = subst (λ x. key_in x r ≡ k) e key in
      (b, array, r, live, e, h, ap (λ x. record { key = x; value = (array r).value }) key')

  -- What `value` has to return: the value of the key, or 0 for a key that is not there.
  abbrev pub Returns : ℕ → ℕ → Type 0
  Returns k v = Maps memory Live k v ⊎ ((Holds memory Live shape k → ⊥) × (v ≡ 0))

  value_from-Returns :
      (fuel level a k : ℕ)
      → Live level a
      → get_key_at_rank (memory a) 0 ≤ k
      → k < max_sentinel
      → k < fuel
      → level ≤ fuel
      → (v : ℕ) × (value_from fuel memory k level a ≡ done v) × Returns k v
  unfolding value_from
  value_from-Returns fuel zero a k live low high enough deep =
      let (b, walk, there, covers) =
        forward-Covers memory Live shape fuel zero a k live low high (omega arith) in
      let w = shape.nodes zero b there in
      let (r, run, f) = find_key_and_check-Found (memory b) k w.sorted covers.0 in
      let (array, e) = w.arrays in
      elim (Bool-cases (get_key_at_rank (memory b) r == k)) [
        | inl c ↦ (
          (array r).value,
          rw (walk, run, c, e) refl,
          inl (leaf_Maps b r k array there e f.within ((==_iff _ k).0 c)),
        )
        | inr c ↦ (
          0,
          rw (walk, run, c) refl,
          inr (
            λ h.
                let there' = (==_iff _ k).1 (at_rank memory Live shape b k r there covers f h) in
                cc,
            refl,
          ),
        )
      ]
  value_from-Returns fuel (suc level) a k live low high enough deep =
      let (b, walk, there, covers) =
        forward-Covers memory Live shape fuel (suc level) a k live low high (omega arith) in
      let w = shape.nodes (suc level) b there in
      let (r, run, f) = find_key_and_check-Found (memory b) k w.sorted covers.0 in
      elim (Bool-cases (get_key_at_rank (memory b) r == k)) [
        | inl c ↦
            let (d, down, live', header) =
              descend-Live fuel level b r there f.within (omega arith) in
            let (array, e) = (shape.nodes zero d live').arrays in
            (
              (array 0).value,
              rw (walk, run, c, down, e) refl,
              inl (
                  leaf_Maps d 0 k array live' e (shape.nodes 0 d live').sorted.nonempty
                    (header ∙ (==_iff _ k).0 c)),
            )
        | inr c ↦
            let (keys, children, e, below) = w.arrays in
            let (child, link, live', header) = below r f.within in
            let most : keys r ≤ k = subst (λ x. key_in x r ≤ k) e f.at_most in
            let (v, rest, returns) =
              value_from-Returns fuel level child k live' (omega arith) high enough (omega arith) in
            (
              v,
              value_from-below memory fuel level a k b r child v walk run c
                  (get_child_at_rank_lem (memory b) keys children r child e link) rest,
              returns,
            )
      ]

  -- On a well-formed list, from the header of the top level, and for a key below the maximal
  -- sentinel: with more fuel than the key and than four, `value` ends with the value that the list
  -- maps the key to, and with 0 for a key that it does not hold.
  pub value-Returns :
      (fuel header k : ℕ)
      → Live top_level header
      → get_key_at_rank (memory header) 0 ≡ 0
      → k < max_sentinel
      → k < fuel
      → top_level ≤ fuel
      → (v : ℕ) × (value fuel memory header k ≡ done v) × Returns k v
  unfolding value
  value-Returns fuel header k live zero_key high enough deep =
      value_from-Returns fuel top_level header k live (omega arith) high enough deep
