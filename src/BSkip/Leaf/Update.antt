-- ===== src/BSkip/Leaf/Update.antt =====
-- insert_elt_at_rank, delete_key_at_rank and split_keys of a leaf (LeafNode.hpp): the array after
-- each loop, and what the callers make of it.
use dbx1000_bskiplist.Base.{ℕ, zero, suc, ◌+◌, arith, ◌≡◌, if◌then◌else◌, ◌==◌, ◌&&◌, ◌-◌}
use dbx1000_bskiplist.BSkip.Leaf.{
  Element, Leaf, shift_down, insert_elt_at_rank, shift_up, copy, leb, ltb, blind_write,
}

shift_up_lem :
    (array : ℕ → Element) (rank j x : ℕ)
    → shift_up array rank j x ≡ (if ltb rank x && leb x j then array (x - 1) else array x)
unfolding shift_up
shift_up_lem array rank zero x = ground arith
shift_up_lem array rank (suc j) x =
    ground (arith, shift_up_lem (blind_write array (suc j) (array j)) rank j x)

-- The elements before the rank stay, the new one stands at the rank, the others move up by one.
pub insert_elt_at_rank_lem :
    (node : Leaf) (rank : ℕ) (elt : Element) (x : ℕ)
    → (insert_elt_at_rank node rank elt).array x ≡ (
        if x == rank
        then elt
        else if ltb rank x && leb x node.num_elts
        then node.array (x - 1)
        else node.array x)
unfolding insert_elt_at_rank
insert_elt_at_rank_lem node rank elt x =
    ground (arith, shift_up_lem node.array rank node.num_elts x)

pub shift_down_lem :
    (array : ℕ → Element) (j rounds x : ℕ)
    → shift_down array j rounds x
      ≡ (if leb j x && ltb x (j + rounds) then array (x + 1) else array x)
unfolding shift_down
shift_down_lem array j zero x = ground arith
shift_down_lem array j (suc rounds) x =
    ground (arith, shift_down_lem (blind_write array j (array (j + 1))) (j + 1) rounds x)

pub copy_lem :
    (source target : ℕ → Element) (from to rounds x : ℕ)
    → copy source target from to rounds x
      ≡ (if leb to x && ltb x (to + rounds) then source (from + (x - to)) else target x)
unfolding copy
copy_lem source target from to zero x = ground arith
copy_lem source target from to (suc rounds) x =
    ground
      (arith, copy_lem source (blind_write target to (source from)) (from + 1) (to + 1) rounds x)
