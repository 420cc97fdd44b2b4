-- ===== src/BSkip/Insert/AtLeaf.antt =====
-- A full leaf divided, with a new element in one of the halves.
use dbx1000_bskiplist.BSkip.Leaf.Split.{split_keys_lem, split_keys-IsRank}
use dbx1000_bskiplist.BSkip.Insert.Divide.{Halves}
use dbx1000_bskiplist.Base.{
  ℕ, ◌+◌, ◌≡◌, ◌<◌, ◌↔◌, inl, inr, refl, sym, subst, ap, ◌≤◌, ◌-◌, ◌⊎◌, ◌/◌, arith, ◌∙◌,
}
use dbx1000_bskiplist.BSkip.Leaf.{Element, Leaf}
use dbx1000_bskiplist.BSkip.Leaf.Rank.{IsLeaf}
use dbx1000_bskiplist.BSkip.Leaf.Search.{IsRank}
use dbx1000_bskiplist.BSkip.Leaf.Insert.{Holds}
use dbx1000_bskiplist.BSkip.Node.{Node}
use dbx1000_bskiplist.BSkip.Node.Rank.{Sorted}
use dbx1000_bskiplist.BSkip.Insert.{put_after, with_leaf, split_keys, some}
use dbx1000_bskiplist.BSkip.Insert.Contents.{In, Adds}
use dbx1000_bskiplist.BSkip.Insert.PutAfter.{In-Holds, IsLeaf-Sorted, Sorted-IsLeaf, put_after_lem}

-- The two halves of a full leaf, before the element goes into one of them.
module _ (n : Node) (l fresh : Leaf) (elt : Element) (r spare : ℕ) (v : Sorted (with_leaf n l))
    (zero_level : n.level ≡ 0) (empty : fresh.num_elts ≡ 0) (several : 2 ≤ l.num_elts)
    (found : IsRank l.num_elts l.array elt.key r) (less : (l.array r).key < elt.key)
    (high : elt.key < n.next_header) where
  abbrev half : ℕ
  half = l.num_elts / 2

  abbrev left : Leaf
  left = (split_keys l fresh half 0).0

  abbrev right : Leaf
  right = (split_keys l fresh half 0).1

  abbrev shorter : Node
  shorter = record n { next = some spare; next_header = (right.array 0).key }

  abbrev lower : Node
  lower = with_leaf shorter left

  abbrev upper : Node
  upper = with_leaf (record n { level = 0 }) right

  parts :
      IsLeaf left
      × IsLeaf right
      × (left.num_elts + right.num_elts ≡ l.num_elts)
      × ((i j : ℕ)
          → i < left.num_elts
          → j < right.num_elts
          → (left.array i).key < (right.array j).key)
      × ((e : Element) → Holds l e ↔ (Holds left e ⊎ Holds right e))
  parts = split_keys_lem l fresh half (Sorted-IsLeaf n l v) empty (omega arith) (omega arith)

  ranks :
      (left.num_elts ≡ half)
      × ((x : ℕ) → left.array x ≡ l.array x)
      × (right.array 0 ≡ l.array half)
      × (r < half → IsRank left.num_elts left.array elt.key r)
      × (half ≤ r
          → IsRank right.num_elts right.array elt.key (r - half)
            × (right.array (r - half) ≡ l.array r))
  ranks = split_keys-IsRank l fresh half elt.key r (omega (arith, v.fits)) empty (omega arith) found

  lower-Sorted : Sorted lower
  lower-Sorted = IsLeaf-Sorted shorter left parts.0 (λ i h. parts.3 i 0 h parts.1.nonempty)

  upper-Sorted : Sorted upper
  upper-Sorted =
      IsLeaf-Sorted (record n { level = 0 }) right parts.1
        (λ i h.
          let (j, h', q) = (parts.4 (right.array i)).1 (inr (i, h, refl)) in
          subst (λ (x : Element). x.key < n.next_header) q (v.under j h'))

  together : (e : Element) → In (with_leaf n l) e ↔ (In lower e ⊎ In upper e)
  together e = (
    λ has. elim ((parts.4 e).0 ((In-Holds n l e).0 has)) [
      | inl h ↦ inl ((In-Holds shorter left e).1 h)
      | inr h ↦ inr ((In-Holds (record n { level = 0 }) right e).1 h)
    ],
    elim [
      | inl h ↦ (In-Holds n l e).1 ((parts.4 e).1 (inl ((In-Holds shorter left e).0 h)))
      | inr h ↦
          (In-Holds n l e).1 ((parts.4 e).1 (inr ((In-Holds (record n { level = 0 }) right e).0 h)))
    ],
  )

  first_same : (left.array 0).key ≡ (l.array 0).key
  first_same = ap (λ (x : Element). x.key) (ranks.1 0)

  -- The element goes into the first half.
  pub into_left :
      r + 1 ≤ half
      → Halves (with_leaf shorter (put_after left r elt)) upper (with_leaf n l) spare
        × Adds elt
            (In (with_leaf n l))
            (λ e. In (with_leaf shorter (put_after left r elt)) e ⊎ In upper e)
  into_left h =
      let small = found.largest half (omega arith) (omega arith) in
      let below : elt.key < (right.array 0).key =
        subst (λ (x : Element). elt.key < x.key) (sym ranks.2) small in
      let less' = subst (λ (x : Element). x.key < elt.key) (sym (ranks.1 r)) less in
      let (ok, adds, first) =
        put_after_lem shorter left elt r lower-Sorted (ranks.3 (omega arith)) less' below
          (omega (arith, v.fits, ranks.0)) in
      (
        record {
          left_sorted = ok;
          left_level = refl;
          left_next = refl;
          left_next_header = refl;
          left_header = first ∙ first_same;
          right_sorted = upper-Sorted;
          right_level = refl;
          right_next = refl;
          left_leaf = (_, refl);
          right_leaf = (_, refl);
          right_next_header = refl;
        },
        λ e. (
          elim [
            | inl a ↦ elim ((adds e).0 a) [
              | inl old ↦ inl ((together e).1 (inl old))
              | inr new ↦ inr new
            ]
            | inr b ↦ inl ((together e).1 (inr b))
          ],
          elim [
            | inl old ↦ elim ((together e).0 old) [
              | inl a ↦ inl ((adds e).1 (inl a))
              | inr b ↦ inr b
            ]
            | inr new ↦ inl ((adds e).1 (inr new))
          ],
        ),
      )

  -- The element goes into the second half.
  pub into_right :
      half ≤ r
      → Halves lower
          (with_leaf (record n { level = 0 }) (put_after right (r - half) elt))
          (with_leaf n l)
          spare
        × Adds elt (In (with_leaf n l)) (λ e.
          In lower e ⊎ In (with_leaf (record n { level = 0 }) (put_after right (r - half) elt)) e)
  into_right h =
      let (rank, same) = ranks.4 h in
      let less' = subst (λ (x : Element). x.key < elt.key) (sym same) less in
      let (ok, adds, first) =
        put_after_lem (record n { level = 0 }) right elt (r - half) upper-Sorted rank less' high
          (omega (arith, v.fits, ranks.0, parts.2)) in
      (
        record {
          left_sorted = lower-Sorted;
          left_level = refl;
          left_next = refl;
          left_next_header = sym first;
          left_header = first_same;
          right_sorted = ok;
          right_level = refl;
          right_next = refl;
          left_leaf = (_, refl);
          right_leaf = (_, refl);
          right_next_header = refl;
        },
        λ e. (
          elim [
            | inl a ↦ inl ((together e).1 (inl a))
            | inr b ↦ elim ((adds e).0 b) [
              | inl old ↦ inl ((together e).1 (inr old))
              | inr new ↦ inr new
            ]
          ],
          elim [
            | inl old ↦ elim ((together e).0 old) [
              | inl a ↦ inl a
              | inr b ↦ inr ((adds e).1 (inl b))
            ]
            | inr new ↦ inr ((adds e).1 (inr new))
          ],
        ),
      )
