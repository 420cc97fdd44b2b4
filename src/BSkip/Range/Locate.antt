-- ===== src/BSkip/Range/Locate.antt =====
-- Where the loops of range.cpp begin: the searches from the top level down, and the step to the key.
use dbx1000_bskiplist.Base.{
  ℕ, zero, suc, ◌≡◌, ◌≢◌, ◌<◌, ◌≤◌, refl, arith, inl, inr, ◌⊎◌, sym, ◌∙◌, subst, Bool, true, false,
  ◌==◌, Bool-cases, ==_iff, ℕ_discrete,
}
use dbx1000_bskiplist.Run.{done}
use dbx1000_bskiplist.BSkip.Node.{
  Memory, key_in, max_sentinel, get_key_at_rank, get_child_at_rank, find_key_and_check,
}
use dbx1000_bskiplist.BSkip.Node.Rank.{Found, find_key_and_check-Found}
use dbx1000_bskiplist.BSkip.Find.{forward}
use dbx1000_bskiplist.BSkip.Find.Shape.{Shape, Covers}
use dbx1000_bskiplist.BSkip.Find.Walk.{forward-Covers, get_child_at_rank_lem}
use dbx1000_bskiplist.BSkip.Range.{Position, locate, locate_leaf, sink}

module _ (memory : Memory) (fuel k : ℕ) where
  locate_end :
      (a b r : ℕ)
      → forward fuel memory a k ≡ done b
      → find_key_and_check (memory b) k ≡ (r, get_key_at_rank (memory b) r == k)
      → locate fuel memory k zero a
        ≡ done (record { node = b; rank = r }, get_key_at_rank (memory b) r == k)
  unfolding locate
  locate_end a b r walk run = rw (walk, run) refl

  locate_here :
      (level a b r : ℕ)
      → forward fuel memory a k ≡ done b
      → find_key_and_check (memory b) k ≡ (r, get_key_at_rank (memory b) r == k)
      → (get_key_at_rank (memory b) r == k) ≡ true
      → locate fuel memory k (suc level) a ≡ done (record { node = b; rank = r }, true)
  unfolding locate
  locate_here level a b r walk run c = rw (walk, run, c) refl

  locate_below :
      (level a b r c : ℕ)
      → forward fuel memory a k ≡ done b
      → find_key_and_check (memory b) k ≡ (r, get_key_at_rank (memory b) r == k)
      → (get_key_at_rank (memory b) r == k) ≡ false
      → get_child_at_rank (memory b) r ≡ done c
      → locate fuel memory k (suc level) a ≡ locate fuel memory k level c
  unfolding locate
  locate_below level a b r c walk run other child = rw (walk, run, other, child) refl

  locate_leaf_end :
      (a b r : ℕ)
      → forward fuel memory a k ≡ done b
      → find_key_and_check (memory b) k ≡ (r, get_key_at_rank (memory b) r == k)
      → locate_leaf fuel memory k zero a ≡ done (record { node = b; rank = r }, false)
  unfolding locate_leaf
  locate_leaf_end a b r walk run = rw (walk, run) refl

  locate_leaf_below :
      (level a b r c : ℕ)
      → forward fuel memory a k ≡ done b
      → find_key_and_check (memory b) k ≡ (r, get_key_at_rank (memory b) r == k)
      → get_child_at_rank (memory b) r ≡ done c
      → locate_leaf fuel memory k (suc level) a ≡ locate_leaf fuel memory k level c
  unfolding locate_leaf
  locate_leaf_below level a b r c walk run child = rw (walk, run, child) refl

  sink_step :
      (f c r : ℕ) (p : Position)
      → ((memory p.node).level == 0) ≡ false
      → get_child_at_rank (memory p.node) p.rank ≡ done c
      → find_key_and_check (memory c) k ≡ (r, get_key_at_rank (memory c) r == k)
      → sink (suc f) memory k p ≡ sink f memory k (record { node = c; rank = r })
  unfolding sink
  sink_step f c r p deep child run = rw (deep, child, run) refl

  sink_stop :
      (f : ℕ) (p : Position)
      → ((memory p.node).level == 0) ≡ true
      → sink (suc f) memory k p ≡ done p
  unfolding sink
  sink_stop f p c = rw c refl

module _ (memory : Memory) (Live : ℕ → ℕ → Type 0) (shape : Shape memory Live) where
  -- A rank on a level, of the largest key that is at most `k`.
  pub record Lands (level k : ℕ) (p : Position) : Type 0 where
    pub live : Live level p.node
    pub covers : Covers (memory p.node) k
    pub rank : Found (memory p.node) k p.rank

  abbrev pub key_at : Position → ℕ
  key_at p = get_key_at_rank (memory p.node) p.rank

  -- What the search of map_range_length ends with.
  abbrev pub Located : ℕ → Position → Bool → Type 0
  Located k p found =
      ((found ≡ true) × ((level : ℕ) × (level < 5) × Lands level k p × (key_at p ≡ k)))
      ⊎ ((found ≡ false) × Lands 0 k p × (key_at p ≢ k))

  pub locate-Located :
      (fuel level a k : ℕ)
      → level < 5
      → Live level a
      → get_key_at_rank (memory a) 0 ≤ k
      → k < max_sentinel
      → k < fuel
      → (p : Position) × (found : Bool) × (locate fuel memory k level a ≡ done (p, found))
        × Located k p found
  locate-Located fuel zero a k few live low high enough =
      let (b, walk, there, covers) =
        forward-Covers memory Live shape fuel zero a k live low high (omega arith) in
      let v = shape.nodes zero b there in
      let (r, run, f) = find_key_and_check-Found (memory b) k v.sorted covers.0 in
      let lands : Lands 0 k (record { node = b; rank = r }) = record {
        live = there;
        covers = covers;
        rank = f;
      } in
      (
        record { node = b; rank = r },
        get_key_at_rank (memory b) r == k,
        locate_end memory fuel k a b r walk run,
        elim (Bool-cases (get_key_at_rank (memory b) r == k)) [
          | inl c ↦ inl (c, (0, few, lands, (==_iff _ k).0 c))
          | inr c ↦ inr (c, lands, λ e. let c' = (==_iff _ k).1 e in cc)
        ],
      )
  locate-Located fuel (suc level) a k few live low high enough =
      let (b, walk, there, covers) =
        forward-Covers memory Live shape fuel (suc level) a k live low high (omega arith) in
      let v = shape.nodes (suc level) b there in
      let (r, run, f) = find_key_and_check-Found (memory b) k v.sorted covers.0 in
      elim (Bool-cases (get_key_at_rank (memory b) r == k)) [
        | inl c ↦ (
          record { node = b; rank = r },
          true,
          locate_here memory fuel k level a b r walk run c,
          inl (
            refl,
            (suc level, few, record { live = there; covers = covers; rank = f }, (==_iff _ k).0 c),
          ),
        )
        | inr c ↦
            let (keys, children, body, below) = v.arrays in
            let (child, link, live', header) = below r f.within in
            let most : keys r ≤ k = subst (λ x. key_in x r ≤ k) body f.at_most in
            let (p, found, rest, located) =
              locate-Located fuel level child k (omega arith) live' (omega arith) high enough in
            (
              p,
              found,
              locate_below memory fuel k level a b r child walk run c
                    (get_child_at_rank_lem (memory b) keys children r child body link)
                  ∙ rest,
              located,
            )
      ]

  -- The search of map_range always ends in a leaf.
  pub locate_leaf-Lands :
      (fuel level a k : ℕ)
      → Live level a
      → get_key_at_rank (memory a) 0 ≤ k
      → k < max_sentinel
      → k < fuel
      → (p : Position) × (locate_leaf fuel memory k level a ≡ done (p, false)) × Lands 0 k p
  locate_leaf-Lands fuel zero a k live low high enough =
      let (b, walk, there, covers) =
        forward-Covers memory Live shape fuel zero a k live low high (omega arith) in
      let (r, run, f) =
        find_key_and_check-Found (memory b) k (shape.nodes zero b there).sorted covers.0 in
      (
        record { node = b; rank = r },
        locate_leaf_end memory fuel k a b r walk run,
        record { live = there; covers = covers; rank = f },
      )
  locate_leaf-Lands fuel (suc level) a k live low high enough =
      let (b, walk, there, covers) =
        forward-Covers memory Live shape fuel (suc level) a k live low high (omega arith) in
      let v = shape.nodes (suc level) b there in
      let (r, run, f) = find_key_and_check-Found (memory b) k v.sorted covers.0 in
      let (keys, children, body, below) = v.arrays in
      let (child, link, live', header) = below r f.within in
      let most : keys r ≤ k = subst (λ x. key_in x r ≤ k) body f.at_most in
      let (p, rest, lands) = locate_leaf-Lands fuel level child k live' (omega arith) high enough in
      (
        p,
        locate_leaf_below memory fuel k level a b r child walk run
              (get_child_at_rank_lem (memory b) keys children r child body link)
            ∙ rest,
        lands,
      )

  pub sink_leaf : (fuel k : ℕ) (p : Position) → Live 0 p.node → sink (suc fuel) memory k p ≡ done p
  sink_leaf fuel k p live =
      sink_stop memory fuel k fuel p ((==_iff _ 0).1 (shape.nodes 0 p.node live).on_level)

  -- From a key above the leaves the way down ends at the key in its leaf.
  pub sink_key :
      (fuel level k : ℕ) (p : Position)
      → Live level p.node
      → p.rank < (memory p.node).num_elts
      → key_at p ≡ k
      → level < fuel
      → (q : Position) × (sink fuel memory k p ≡ done q)
        × Live 0 q.node
        × (q.rank < (memory q.node).num_elts)
        × (key_at q ≡ k)
  sink_key zero level k p live within key enough = absurd (omega arith)
  sink_key (suc fuel) zero k p live within key enough =
      (p, sink_leaf fuel k p live, live, within, key)
  sink_key (suc fuel) (suc level) k p live within key enough =
      let v = shape.nodes (suc level) p.node live in
      let (keys, children, body, below) = v.arrays in
      let (c, link, live', header) = below p.rank within in
      let w = (shape.nodes level c live').sorted in
      let first : get_key_at_rank (memory c) 0 ≡ k =
        header ∙ subst (λ x. key_in x p.rank ≡ k) body key in
      let (r, run, f) = find_key_and_check-Found (memory c) k w (omega arith) in
      let exact : get_key_at_rank (memory c) r ≡ k = elim (ℕ_discrete r 0) [
        | yes z ↦ subst (λ x. get_key_at_rank (memory c) x ≡ k) (sym z) first
        | no d ↦ absurd (omega (arith, w.rising 0 r (omega arith) f.within, f.at_most))
      ] in
      let deep : ((memory p.node).level == 0) ≡ false = let l = v.on_level in ground arith in
      let (q, rest, leaf_live, inside, same) =
        sink_key fuel level k (record { node = c; rank = r }) live' f.within exact (omega arith) in
      (
        q,
        sink_step memory fuel k fuel c r p deep
              (get_child_at_rank_lem (memory p.node) keys children p.rank c body link) run
            ∙ rest,
        leaf_live,
        inside,
        same,
      )
