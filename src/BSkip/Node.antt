-- ===== src/BSkip/Node.antt =====
-- storage/RW_bskiplist/include/Node.hpp, InternalNode.hpp and src/InternalNode.cpp: the nodes on all
-- levels, their shared fields, and what an internal node does. A pointer is an address, or `none`
-- for a null pointer; the memory is a function from addresses to nodes.
pub mod Rank
use dbx1000_bskiplist.Base.{
  ℕ, zero, suc, ◌+◌, ◌-◌, Bool, Option, none, some, if◌then◌else◌, ltb, ◌==◌,
}
use dbx1000_bskiplist.Run.{deref, Run, done, failed}
use dbx1000_bskiplist.BSkip.Leaf
use dbx1000_bskiplist.BSkip.Leaf.{Element, Leaf}

-- std::numeric_limits of the key type, uint64_t: traits::max_sentinel and min_sentinel
abbrev pub max_sentinel : ℕ
max_sentinel = 18446744073709551615

abbrev pub min_sentinel : ℕ
min_sentinel = 0

-- The arrays of BSkipNodeInternal and of BSkipNodeLeaf.
pub data Body : Type 0 where
  internal : (keys : ℕ → ℕ) (children : ℕ → Option ℕ) → Body
  leaf : (array : ℕ → Element) → Body

pub record Node : Type 0 where
  pub num_elts : ℕ  -- uint32_t
  pub level : ℕ  -- uint32_t
  pub next : Option ℕ
  pub next_header : ℕ
  pub body : Body

abbrev pub Memory : Type 0
Memory = ℕ → Node

-- The search of an internal node from index `i`, by the rounds that are left: the first index whose
-- key is above `k`.
pub first_above : (ℕ → ℕ) → ℕ → ℕ → ℕ → ℕ
first_above keys k i zero = i
first_above keys k i (suc rounds) =
    let rest = first_above keys k (i + 1) rounds in if ltb k (keys i) then i else rest

pub find_internal : ℕ → (ℕ → ℕ) → ℕ → ℕ × Bool
unfolding first_above
find_internal num_elts keys k =
    let i = first_above keys k 0 num_elts in
    if i == 0 then (0, keys 0 == k) else (i - 1, keys (i - 1) == k)

-- The virtual functions get_key_at_rank, get_header and find_key_and_check.
abbrev pub key_in : Body → ℕ → ℕ
key_in (internal keys children) i = keys i
key_in (leaf array) i = (array i).key

abbrev pub get_key_at_rank : Node → ℕ → ℕ
get_key_at_rank n rank = key_in n.body rank

abbrev pub find_in : Body → ℕ → ℕ → ℕ × Bool
find_in (internal keys children) num_elts k = find_internal num_elts keys k
find_in (leaf array) num_elts k =
    Leaf.find_key_and_check (record { num_elts = num_elts; array = array }) k

unfoldable pub find_key_and_check : Node → ℕ → ℕ × Bool
unfolding find_internal Leaf.find_key_and_check
find_key_and_check n k = find_in n.body n.num_elts k

-- A null pointer, and a leaf taken for an internal node, are failures.
abbrev pub child_in : Body → ℕ → Run ℕ
child_in (leaf array) rank = failed
child_in (internal keys children) rank = deref (children rank)

abbrev pub get_child_at_rank : Node → ℕ → Run ℕ
get_child_at_rank n rank = child_in n.body rank

abbrev pub value_in : Body → ℕ → Run ℕ
value_in (internal keys children) rank = failed
value_in (leaf array) rank = done (array rank).value

abbrev pub get_value_at_rank : Node → ℕ → Run ℕ
get_value_at_rank n rank = value_in n.body rank
