-- ===== src/BSkip/Find.antt =====
-- storage/RW_bskiplist/src/constructor.cpp, exists.cpp and value.cpp: an empty list, and the search
-- from the top level down. The locks, taken hand over hand, leave no trace in one search.
pub mod Shape
pub mod Walk
pub mod Exists
pub mod Value
pub mod Empty
use dbx1000_bskiplist.Base.{
  ℕ, zero, suc, ◌+◌, ◌-◌, Bool, true, false, none, some, if◌then◌else◌, ltb, leb, ◌==◌,
}
use dbx1000_bskiplist.Run.{deref, Run, done, failed, no_fuel, ◌>>=◌}
use dbx1000_bskiplist.BSkip.Leaf.{Element}
use dbx1000_bskiplist.BSkip.Node.{
  Node, Body, internal, leaf, Memory, max_sentinel, min_sentinel, find_key_and_check,
  get_key_at_rank, get_child_at_rank, get_value_at_rank,
}

-- MAX_HEIGHT less one
abbrev pub top_level : ℕ
top_level = 4

-- `while (curr_node->next_header <= k)`
unfoldable pub forward : ℕ → Memory → ℕ → ℕ → Run ℕ
forward zero memory a k = no_fuel
forward (suc fuel) memory a k =
    let rest = deref (memory a).next >>= λ b. forward fuel memory b k in
    if leb (memory a).next_header k then rest else done a

-- exists, from the node `a` on `level`.
pub exists_from : ℕ → Memory → ℕ → ℕ → ℕ → Run Bool
unfolding forward find_key_and_check
exists_from fuel memory k zero a = do
  b ← forward fuel memory a k
  let rank = (find_key_and_check (memory b) k).0
  done (get_key_at_rank (memory b) rank == k)
exists_from fuel memory k (suc level) a = do
  b ← forward fuel memory a k
  let rank = (find_key_and_check (memory b) k).0
  let below = get_child_at_rank (memory b) rank >>= exists_from fuel memory k level
  if get_key_at_rank (memory b) rank == k then done true else below

pub exists : ℕ → Memory → ℕ → ℕ → Run Bool
unfolding exists_from
exists fuel memory header k = exists_from fuel memory k top_level header

-- The way down from the rank of an internal node to a leaf: `flag` is the first round's.
pub descend : ℕ → Memory → ℕ → ℕ → Run ℕ
descend zero memory a rank = no_fuel
descend (suc fuel) memory a rank =
    let below = get_child_at_rank (memory a) rank >>= λ c. descend fuel memory c 0 in
    if ltb 1 (memory a).level then below else get_child_at_rank (memory a) rank

-- value, from the node `a` on `level`; the source returns NULL, an item of value 0, for no key.
pub value_from : ℕ → Memory → ℕ → ℕ → ℕ → Run ℕ
unfolding forward find_key_and_check descend
value_from fuel memory k zero a = do
  b ← forward fuel memory a k
  let (rank, found) = find_key_and_check (memory b) k
  if found then get_value_at_rank (memory b) rank else done 0
value_from fuel memory k (suc level) a = forward fuel memory a k >>= λ b.
    let (rank, found) = find_key_and_check (memory b) k in
    let here = descend fuel memory b rank >>= λ c. get_value_at_rank (memory c) 0 in
    let below = get_child_at_rank (memory b) rank >>= value_from fuel memory k level in
    if found then here else below

pub value : ℕ → Memory → ℕ → ℕ → Run ℕ
unfolding value_from
value fuel memory header k = value_from fuel memory k top_level header

-- The constructor: the header of level `i` is at address `i`, its end sentinel at `i + 5`; `keys`
-- and `array` are what fresh arrays hold.
module _ (keys : ℕ → ℕ) (array : ℕ → Element) where
  abbrev pub fresh_body : ℕ → ℕ → Body
  fresh_body key zero =
      leaf (λ j. if j == 0 then record { key = key; value = (array 0).value } else array j)
  fresh_body key (suc level) =
      internal (λ j. if j == 0 then key else keys j) (λ j. if j == 0 then some level else none)

  abbrev pub header_node : ℕ → Node
  header_node level = record {
    num_elts = 1;
    level = level;
    next = some (level + 5);
    next_header = max_sentinel;
    body = fresh_body min_sentinel level;
  }

  abbrev pub end_sentinel : ℕ → Node
  end_sentinel level = record {
    num_elts = 1;
    level = level;
    next = none;
    next_header = max_sentinel;
    body = fresh_body max_sentinel level;
  }

  abbrev pub new_list : Memory
  new_list a = if ltb a 5 then header_node a else end_sentinel (a - 5)
