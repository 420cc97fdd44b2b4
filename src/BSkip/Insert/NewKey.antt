-- ===== src/BSkip/Insert/NewKey.antt =====
-- BSkip::insert of a key that the list does not hold, promoted to no level (insert.cpp).
use dbx1000_bskiplist.Base.{
  ℕ, zero, suc, ◌≡◌, ◌≢◌, ◌<◌, ◌≤◌, arith, true, false, Bool-cases, inl, inr, refl, ◌==◌, ==_iff,
  subst, ◌||◌,
}
use dbx1000_bskiplist.Run.{done}
use dbx1000_bskiplist.BSkip.Leaf.{Element}
use dbx1000_bskiplist.BSkip.Node.{
  leaf, key_in, max_sentinel, min_sentinel, get_key_at_rank, get_child_at_rank, find_key_and_check,
}
use dbx1000_bskiplist.BSkip.Node.Rank.{Found, find_key_and_check-Found}
use dbx1000_bskiplist.BSkip.Find.{forward, top_level}
use dbx1000_bskiplist.BSkip.Find.Shape.{Shape}
use dbx1000_bskiplist.BSkip.Find.Walk.{forward-Covers, key_in_leaf, get_child_at_rank_lem}
use dbx1000_bskiplist.BSkip.Find.Exists.{Holds}
use dbx1000_bskiplist.BSkip.Insert.{Store, insert_from, insert_unpromoted, add_at_leaf}
use dbx1000_bskiplist.BSkip.Insert.Added.{Added, add_at_leaf-Added}

module _ (max_keys spare : ℕ) (fresh : ℕ → Element) (elt : Element) (s : Store) (fuel : ℕ) where
  insert_from-leaf :
      (a b r : ℕ) (array : ℕ → Element)
      → forward fuel s.memory a elt.key ≡ done b
      → find_key_and_check (s.memory b) elt.key ≡ (r, get_key_at_rank (s.memory b) r == elt.key)
      → (get_key_at_rank (s.memory b) r == elt.key) ≡ false
      → (s.memory b).body ≡ leaf array
      → insert_from max_keys spare fresh elt fuel 0 a s
        ≡ done (record s { memory = add_at_leaf max_keys spare fresh b array r elt s.memory })
  unfolding insert_from
  insert_from-leaf a b r array walk run other body = rw (walk, run, other, body) refl

  pub insert_from-below :
      (level a b r c : ℕ) (t : Store)
      → forward fuel s.memory a elt.key ≡ done b
      → find_key_and_check (s.memory b) elt.key ≡ (r, get_key_at_rank (s.memory b) r == elt.key)
      → (get_key_at_rank (s.memory b) r == elt.key) ≡ false
      → get_child_at_rank (s.memory b) r ≡ done c
      → insert_from max_keys spare fresh elt fuel level c s ≡ done t
      → insert_from max_keys spare fresh elt fuel (suc level) a s ≡ done t
  unfolding insert_from
  insert_from-below level a b r c t walk run other child rest = rw (walk, run, other, child) rest

module _ (max_keys spare : ℕ) (fresh : ℕ → Element) (elt : Element) (s : Store)
    (Live : ℕ → ℕ → Type 0) (shape : Shape s.memory Live)
    (unused : (level a : ℕ) → Live level a → a ≢ spare) (two : 2 ≤ max_keys)
    (small : max_keys < 2147483648) (new : Holds s.memory Live shape elt.key → ⊥) where
  -- The key is at no rank of a live node.
  not_there :
      (level b r : ℕ)
      → Live level b
      → Found (s.memory b) elt.key r
      → (get_key_at_rank (s.memory b) r == elt.key) ≡ false
  not_there level b r live f = elim (Bool-cases (get_key_at_rank (s.memory b) r == elt.key)) [
    | inr c ↦ c
    | inl c ↦ absurd (
        new (
          subst (Holds s.memory Live shape) ((==_iff _ elt.key).0 c)
            (key_in_leaf s.memory Live shape level b r live f.within)))
  ]

  insert_from-Added :
      (fuel level a : ℕ)
      → Live level a
      → get_key_at_rank (s.memory a) 0 ≤ elt.key
      → elt.key < max_sentinel
      → elt.key < fuel
      → (t : Store) × (insert_from max_keys spare fresh elt fuel level a s ≡ done t)
        × Added spare elt s.memory Live t.memory
        × (t.item_next ≡ s.item_next)
  insert_from-Added fuel zero a live low high enough =
      let (b, walk, there, covers) =
        forward-Covers s.memory Live shape fuel zero a elt.key live low high (omega arith) in
      let v = shape.nodes zero b there in
      let (r, run, f) = find_key_and_check-Found (s.memory b) elt.key v.sorted covers.0 in
      let (array, body) = v.arrays in
      let other = not_there zero b r there f in
      let most : (array r).key ≤ elt.key = subst (λ x. key_in x r ≤ elt.key) body f.at_most in
      let differs : ((array r).key == elt.key) ≡ false =
        subst (λ x. (key_in x r == elt.key) ≡ false) body other in
      (
        _,
        insert_from-leaf max_keys spare fresh elt s fuel a b r array walk run other body,
        add_at_leaf-Added max_keys spare fresh b r array elt s.memory Live shape there body f
            (ground arith) covers.1 unused two small,
        refl,
      )
  insert_from-Added fuel (suc level) a live low high enough =
      let (b, walk, there, covers) =
        forward-Covers s.memory Live shape fuel (suc level) a elt.key live low high (omega arith) in
      let v = shape.nodes (suc level) b there in
      let (r, run, f) = find_key_and_check-Found (s.memory b) elt.key v.sorted covers.0 in
      let (keys, children, body, below) = v.arrays in
      let (c, link, live', header) = below r f.within in
      let most : keys r ≤ elt.key = subst (λ x. key_in x r ≤ elt.key) body f.at_most in
      let (t, rest, added, chained) =
        insert_from-Added fuel level c live' (omega arith) high enough in
      (
        t,
        insert_from-below max_keys spare fresh elt s fuel level a b r c t walk run
            (not_there (suc level) b r there f)
            (get_child_at_rank_lem (s.memory b) keys children r c body link) rest,
        added,
        chained,
      )

  -- On a well-formed list, from the header of the top level, with more fuel than the key, an unused
  -- address for a new node, and at least two and less than 2^31 keys to a node: the insertion, promoted
  -- to no level, of a key that the list does not hold, and that is neither sentinel, ends and returns
  -- true; the list stays well formed, with the same nodes or a new leaf, it contains the new element
  -- and what it contained, the nodes above the leaves are as before, and no item is chained.
  pub insert_unpromoted-Added :
      (fuel header : ℕ)
      → Live top_level header
      → get_key_at_rank (s.memory header) 0 ≡ 0
      → 0 < elt.key
      → elt.key < max_sentinel
      → elt.key < fuel
      → (t : Store) × (insert_unpromoted max_keys spare fresh elt fuel header s ≡ done (true, t))
        × Added spare elt s.memory Live t.memory
        × (t.item_next ≡ s.item_next)
  unfolding insert_unpromoted
  insert_unpromoted-Added fuel header live zero_key pos high enough =
      let (t, run, added, chained) =
        insert_from-Added fuel top_level header live (omega arith) high enough in
      let other : (elt.key == min_sentinel || elt.key == max_sentinel) ≡ false = ground arith in
      (t, rw (other, run) refl, added, chained)
