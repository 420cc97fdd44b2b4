-- ===== src/BSkip/Leaf.antt =====
-- storage/RW_bskiplist/include/LeafNode.hpp and src/LeafNode.cpp: the operations of BSkipNodeLeaf.
pub mod Search
pub mod Delete
pub mod Split
pub mod Insert
pub mod Update
pub mod Rank
use dbx1000_bskiplist.Base.{
  ◌>>=◌, ◌||◌, ℕ, zero, suc, ◌+◌, ◌-◌, ◌/◌, Bool, true, false, if◌then◌else◌, ltb, leb, ◌==◌, inc32,
  dec32, Option, ◌%◌, u32_mod, none, some,
}

-- traits::element_type
pub record Element : Type 0 where
  pub key : ℕ
  pub value : ℕ

pub record Leaf : Type 0 where
  pub num_elts : ℕ  -- uint32_t
  pub array : ℕ → Element

-- blind_write
abbrev pub blind_write : (ℕ → Element) → ℕ → Element → ℕ → Element
blind_write array index e x = if x == index then e else array x

abbrev pub blind_read_key : (ℕ → Element) → ℕ → ℕ
blind_read_key array index = (array index).key

unfoldable pub get_header : Leaf → ℕ
get_header node = blind_read_key node.array 0

-- `for (j = num_elts; j > rank; j--)` in insert_elt_at_rank: the third argument is j.
pub shift_up : (ℕ → Element) → ℕ → ℕ → ℕ → Element
shift_up array rank zero = array
shift_up array rank (suc j) =
    if ltb rank (suc j) then shift_up (blind_write array (suc j) (array j)) rank j else array

pub insert_elt_at_rank : Leaf → ℕ → Element → Leaf
unfolding shift_up
insert_elt_at_rank node rank elt = record node {
  array = blind_write (shift_up node.array rank node.num_elts) rank elt;
}

-- `for (j = rank; j < num_elts - 1; j++)` in delete_key_at_rank, by the rounds that are left.
pub shift_down : (ℕ → Element) → ℕ → ℕ → ℕ → Element
shift_down array j zero = array
shift_down array j (suc rounds) = shift_down (blind_write array j (array (j + 1))) (j + 1) rounds

pub delete_key_at_rank : Leaf → ℕ → Leaf
unfolding shift_down
delete_key_at_rank node rank = record node {
  array = shift_down node.array rank (dec32 node.num_elts - rank);
}

-- The copy loop of split_keys, by the rounds that are left.
pub copy : (ℕ → Element) → (ℕ → Element) → ℕ → ℕ → ℕ → ℕ → Element
copy source target starting_rank dest_rank zero = target
copy source target starting_rank dest_rank (suc rounds) =
    copy source (blind_write target dest_rank (source starting_rank)) (starting_rank + 1)
      (dest_rank + 1) rounds

-- The node, the destination, and the number of elements moved.
unfoldable pub split_keys : Leaf → Leaf → ℕ → ℕ → Leaf × Leaf × ℕ
unfolding copy
split_keys node dest starting_rank dest_rank =
    let moved = node.num_elts - starting_rank in
    (
      record node { num_elts = starting_rank },
      record {
        num_elts = (dest.num_elts + moved) % u32_mod;
        array = copy node.array dest.array starting_rank dest_rank moved;
      },
      moved,
    )

-- The loop of find_index_linear from index i, by the rounds that are left.
pub linear_from : (ℕ → Element) → ℕ → ℕ → ℕ → ℕ
linear_from array k i zero = dec32 i
linear_from array k i (suc rounds) =
    let rest = linear_from array k (i + 1) rounds in
    if ltb (blind_read_key array i) k
    then rest
    else if k == blind_read_key array i
    then i
    else dec32 i

pub find_index_linear : Leaf → ℕ → ℕ
unfolding linear_from
find_index_linear node k = linear_from node.array k 0 node.num_elts

-- The loop of find_index_binary; `none` if the fuel runs out.
pub binary_loop : ℕ → (ℕ → Element) → ℕ → ℕ → ℕ → Option ℕ
binary_loop zero array k left right = none
binary_loop (suc fuel) array k left right =
    let mid = left + (right - left) / 2 in
    let above = binary_loop fuel array k (mid + 1) right in
    let below = binary_loop fuel array k left (mid - 1) in
    if leb left right
    then (if blind_read_key array mid == k
        then some mid
        else if ltb (blind_read_key array mid) k
        then above
        else if mid == 0
        then some left
        else below)
    else some left

pub find_index_binary : ℕ → Leaf → ℕ → Option ℕ
unfolding binary_loop
find_index_binary fuel node k = do
  left ← binary_loop fuel node.array k 0 (dec32 node.num_elts)
  some
      (if left == node.num_elts || ltb k (blind_read_key node.array left) then dec32 left else left)

unfoldable pub find_key_and_check : Leaf → ℕ → ℕ × Bool
unfolding find_index_linear
find_key_and_check node k =
    let index = find_index_linear node k in (index, blind_read_key node.array index == k)

-- The leaf level of BSkip::insert where the key is new and the leaf has room.
pub add_to_leaf : Leaf → Element → Leaf
unfolding find_key_and_check insert_elt_at_rank
add_to_leaf node elt =
    let rank = (find_key_and_check node elt.key).0 in
    record (insert_elt_at_rank node (rank + 1) elt) { num_elts = inc32 node.num_elts }
