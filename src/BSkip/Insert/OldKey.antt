-- ===== src/BSkip/Insert/OldKey.antt =====
-- BSkip::insert of a key that the list holds, promoted to no level (insert.cpp).
use dbx1000_bskiplist.BSkip.Insert.Replace.{Upper, not_leaf, put_elsewhere}
use dbx1000_bskiplist.BSkip.Insert.SameKey.{
  replaced, Replaces, only_there, replaced-Shape, replaced-Replaces,
}
use dbx1000_bskiplist.Base.{
  ℕ, ◌≡◌, ◌<◌, arith, true, false, inl, inr, refl, ◌==◌, subst, ap, ◌∙◌, ◌≤◌, ==_iff, Bool-cases,
  zero, suc, ◌||◌,
}
use dbx1000_bskiplist.BSkip.Leaf.{Element}
use dbx1000_bskiplist.BSkip.Node.{
  key_in, get_key_at_rank, min_sentinel, max_sentinel, find_key_and_check,
}
use dbx1000_bskiplist.BSkip.Find.Shape.{Shape, Maps}
use dbx1000_bskiplist.BSkip.Insert.{Store, replace_in, chain_onto, insert_from, insert_unpromoted}
use dbx1000_bskiplist.BSkip.Insert.Contents.{element, Contains, Maps-Contains}
use dbx1000_bskiplist.BSkip.Insert.NewKey.{insert_from-below}
use dbx1000_bskiplist.BSkip.Node.Rank.{find_key_and_check-Found}
use dbx1000_bskiplist.BSkip.Find.{forward, descend, top_level}
use dbx1000_bskiplist.BSkip.Find.Walk.{forward-Covers, get_child_at_rank_lem}
use dbx1000_bskiplist.BSkip.Find.Exists.{at_rank}
use dbx1000_bskiplist.BSkip.Find.Value.{descend-Live}
use dbx1000_bskiplist.Run.{done}

module _ (max_keys spare : ℕ) (fresh : ℕ → Element) (elt : Element) (s : Store)
    (Live : ℕ → ℕ → Type 0) (shape : Shape s.memory Live) where
  -- The element stands for the one of its key, whose item it is chained onto.
  abbrev pub Replaced : ℕ → Store → Type 0
  Replaced old t =
      Shape t.memory Live
      × Replaces elt (Contains s.memory Live) (Contains t.memory Live)
      × (t.item_next ≡ chain_onto old elt.value s.item_next)
      × Upper s.memory Live t.memory

  replace_in-Replaced :
      (d r old : ℕ)
      → Live 0 d
      → r < (s.memory d).num_elts
      → get_key_at_rank (s.memory d) r ≡ elt.key
      → Contains s.memory Live (element elt.key old)
      → (t : Store) × (replace_in (s.memory d).body d r elt s ≡ done t) × Replaced old t
  replace_in-Replaced d r old live within at (a, there, has) =
      let (array, body) = (shape.nodes 0 d live).arrays in
      let key : (array r).key ≡ elt.key = subst (λ x. key_in x r ≡ elt.key) body at in
      let value : (array r).value ≡ old =
        ap (λ (x : Element). x.value)
          (only_there s.memory Live shape d r array elt live body within key a (element elt.key old)
            there has refl) in
      (
        _,
        rw body refl,
        (
          replaced-Shape s.memory Live shape d r array elt live body within key,
          replaced-Replaces s.memory Live shape d r array elt live body within key,
          ap (λ v. chain_onto v elt.value s.item_next) value,
          λ level c here.
              put_elsewhere s.memory d c
                (replaced s.memory Live shape d r array elt live body within key)
                (not_leaf s.memory Live level c d shape live here),
        ),
      )

  insert_from-here :
      (fuel a b r : ℕ) (t : Store)
      → forward fuel s.memory a elt.key ≡ done b
      → find_key_and_check (s.memory b) elt.key ≡ (r, get_key_at_rank (s.memory b) r == elt.key)
      → (get_key_at_rank (s.memory b) r == elt.key) ≡ true
      → replace_in (s.memory b).body b r elt s ≡ done t
      → insert_from max_keys spare fresh elt fuel 0 a s ≡ done t
  unfolding insert_from
  insert_from-here fuel a b r t walk run same rest = rw (walk, run, same) rest

  insert_from-there :
      (fuel level a b r c : ℕ) (t : Store)
      → forward fuel s.memory a elt.key ≡ done b
      → find_key_and_check (s.memory b) elt.key ≡ (r, get_key_at_rank (s.memory b) r == elt.key)
      → (get_key_at_rank (s.memory b) r == elt.key) ≡ true
      → descend fuel s.memory b r ≡ done c
      → replace_in (s.memory c).body c 0 elt s ≡ done t
      → insert_from max_keys spare fresh elt fuel (suc level) a s ≡ done t
  unfolding insert_from
  insert_from-there fuel level a b r c t walk run same down rest = rw (walk, run, same, down) rest

  insert_from-Replaced :
      (fuel level a old : ℕ)
      → Live level a
      → get_key_at_rank (s.memory a) 0 ≤ elt.key
      → elt.key < max_sentinel
      → elt.key < fuel
      → level ≤ fuel
      → Maps s.memory Live elt.key old
      → (t : Store) × (insert_from max_keys spare fresh elt fuel level a s ≡ done t)
        × Replaced old t
  insert_from-Replaced fuel zero a old live low high enough deep maps =
      let (b, walk, there, covers) =
        forward-Covers s.memory Live shape fuel zero a elt.key live low high (omega arith) in
      let v = shape.nodes zero b there in
      let (r, run, f) = find_key_and_check-Found (s.memory b) elt.key v.sorted covers.0 in
      let key = at_rank s.memory Live shape b elt.key r there covers f (old, maps) in
      let (t, rest, replaced) =
        replace_in-Replaced b r old there f.within key
          ((Maps-Contains s.memory Live elt.key old).0 maps) in
      (t, insert_from-here fuel a b r t walk run ((==_iff _ elt.key).1 key) rest, replaced)
  insert_from-Replaced fuel (suc level) a old live low high enough deep maps =
      let (b, walk, there, covers) =
        forward-Covers s.memory Live shape fuel (suc level) a elt.key live low high (omega arith) in
      let v = shape.nodes (suc level) b there in
      let (r, run, f) = find_key_and_check-Found (s.memory b) elt.key v.sorted covers.0 in
      elim (Bool-cases (get_key_at_rank (s.memory b) r == elt.key)) [
        | inl c ↦
            let (d, down, live', header) =
              descend-Live s.memory Live shape fuel level b r there f.within (omega arith) in
            let (t, rest, replaced) =
              replace_in-Replaced d 0 old live' (shape.nodes 0 d live').sorted.nonempty
                (header ∙ (==_iff _ elt.key).0 c)
                ((Maps-Contains s.memory Live elt.key old).0 maps) in
            (t, insert_from-there fuel level a b r d t walk run c down rest, replaced)
        | inr c ↦
            let (keys, children, body, below) = v.arrays in
            let (child, link, live', header) = below r f.within in
            let most : keys r ≤ elt.key = subst (λ x. key_in x r ≤ elt.key) body f.at_most in
            let (t, rest, replaced) =
              insert_from-Replaced fuel level child old live' (omega arith) high enough
                (omega arith) maps in
            (
              t,
              insert_from-below max_keys spare fresh elt s fuel level a b r child t walk run c
                  (get_child_at_rank_lem (s.memory b) keys children r child body link) rest,
              replaced,
            )
      ]

  -- On a well-formed list, from the header of the top level, with more fuel than the key and at
  -- least four: the insertion, promoted to no level, of a key that the list maps to `old`, and that
  -- is neither sentinel, ends and returns true; the list stays well formed with the same nodes, it
  -- contains the new element and what it contained of other keys, the nodes above the leaves are as
  -- before, and the new item is chained onto `old`.
  pub insert_unpromoted-Replaced :
      (fuel header old : ℕ)
      → Live top_level header
      → get_key_at_rank (s.memory header) 0 ≡ 0
      → 0 < elt.key
      → elt.key < max_sentinel
      → elt.key < fuel
      → top_level ≤ fuel
      → Maps s.memory Live elt.key old
      → (t : Store) × (insert_unpromoted max_keys spare fresh elt fuel header s ≡ done (true, t))
        × Replaced old t
  unfolding insert_unpromoted
  insert_unpromoted-Replaced fuel header old live zero_key pos high enough deep maps =
      let (t, run, replaced) =
        insert_from-Replaced fuel top_level header old live (omega arith) high enough deep maps in
      let other : (elt.key == min_sentinel || elt.key == max_sentinel) ≡ false = ground arith in
      (t, rw (other, run) refl, replaced)
