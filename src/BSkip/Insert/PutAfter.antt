-- ===== src/BSkip/Insert/PutAfter.antt =====
-- An element put into a leaf with room, as a node.

use dbx1000_bskiplist.Base.{ℕ, ◌+◌, ◌≡◌, ◌<◌, ◌↔◌, inl, inr, refl, sym, subst, ap}
use dbx1000_bskiplist.BSkip.Leaf.{Element, Leaf}
use dbx1000_bskiplist.BSkip.Leaf.Rank.{IsLeaf}
use dbx1000_bskiplist.BSkip.Leaf.Search.{IsRank}
use dbx1000_bskiplist.BSkip.Leaf.Insert.{Holds, insert_after_rank}
use dbx1000_bskiplist.BSkip.Node.{Node}
use dbx1000_bskiplist.BSkip.Node.Rank.{Sorted}
use dbx1000_bskiplist.BSkip.Insert.{put_after, with_leaf}
use dbx1000_bskiplist.BSkip.Insert.Contents.{In, Adds}

pub In-Holds : (n : Node) (l : Leaf) (e : Element) → In (with_leaf n l) e ↔ Holds l e
In-Holds n l e = (λ (array, i, q, h, here). (i, h, cc), λ (i, h, here). (l.array, i, refl, h, here))

pub IsLeaf-Sorted :
    (n : Node) (l : Leaf)
    → IsLeaf l
    → ((i : ℕ) → i < l.num_elts → (l.array i).key < n.next_header)
    → Sorted (with_leaf n l)
IsLeaf-Sorted n l v under = record {
  nonempty = v.nonempty;
  fits = v.fits;
  rising = v.ascending;
  under = under;
}

pub Sorted-IsLeaf : (n : Node) (l : Leaf) → Sorted (with_leaf n l) → IsLeaf l
Sorted-IsLeaf n l v = record { nonempty = v.nonempty; fits = v.fits; ascending = v.rising }

-- The element goes into a leaf of the node's next header.
pub put_after_lem :
    (n : Node) (l : Leaf) (elt : Element) (r : ℕ)
    → Sorted (with_leaf n l)
    → IsRank l.num_elts l.array elt.key r
    → (l.array r).key < elt.key
    → elt.key < n.next_header
    → l.num_elts + 1 < 2147483648
    → Sorted (with_leaf n (put_after l r elt))
      × Adds elt (In (with_leaf n l)) (In (with_leaf n (put_after l r elt)))
      × (((put_after l r elt).array 0).key ≡ (l.array 0).key)
put_after_lem n l elt r v found less high room =
    let (ok, holds, first, count) =
      insert_after_rank l elt r (Sorted-IsLeaf n l v) found less room in
    let after = put_after l r elt in
    (
      IsLeaf-Sorted n after ok (λ i h. elim ((holds (after.array i)).0 (i, h, refl)) [
        | inl (j, h', q) ↦ subst (λ (x : Element). x.key < n.next_header) q (v.under j h')
        | inr q ↦ subst (λ (x : Element). x.key < n.next_header) (sym q) high
      ]),
      (λ e. (
        λ has. elim ((holds e).0 ((In-Holds n after e).0 has)) [
          | inl old ↦ inl ((In-Holds n l e).1 old)
          | inr new ↦ inr new
        ],
        elim [
          | inl old ↦ (In-Holds n after e).1 ((holds e).1 (inl ((In-Holds n l e).0 old)))
          | inr new ↦ (In-Holds n after e).1 ((holds e).1 (inr new))
        ],
      )),
      ap (λ (x : Element). x.key) first,
    )
