-- ===== src/BSkip/Insert.antt =====
-- storage/RW_bskiplist/src/insert.cpp, and flip_coins of include/BSkipList.hpp: the coins of a key, and
-- the insertion of one that they promote to no level, as for all but one of `traits::p` keys. The
-- write locks, taken hand over hand, leave no trace in one insertion.
pub mod Coins
pub mod Replace
pub mod Divide
pub mod Contents
pub mod PutAfter
pub mod AtLeaf
pub mod Added
pub mod NewKey
pub mod SameKey
pub mod OldKey
pub mod Lookup
pub mod RoundTrip
use dbx1000_bskiplist.Base.{
  ℕ, zero, suc, ◌+◌, ◌-◌, ◌*◌, ◌/◌, ◌%◌, Bool, true, false, Option, none, some, if◌then◌else◌, ltb,
  leb, ◌==◌, ◌||◌, inc32,
}
use dbx1000_bskiplist.Run.{Run, done, failed, ◌>>=◌, no_fuel}
use dbx1000_bskiplist.BSkip.Leaf.{Element, Leaf, insert_elt_at_rank, split_keys, blind_write}
use dbx1000_bskiplist.BSkip.Node.{
  Node, Body, internal, leaf, Memory, max_sentinel, min_sentinel, find_key_and_check,
  get_child_at_rank,
}
use dbx1000_bskiplist.BSkip.Find.{forward, descend, top_level}

-- The loop of flip_coins, for the hash `h`; it makes at most MAX_HEIGHT rounds.
pub flip_loop : (fuel p h result : ℕ) → Run ℕ
flip_loop zero p h result = no_fuel
flip_loop (suc fuel) p h result =
    let rest = flip_loop fuel p (h / p) (result + 1) in
    if h % p == 0
    then (if ltb top_level (result + 1) then done top_level else rest)
    else done result

pub flip_coins : (fuel p h : ℕ) → Run ℕ
unfolding flip_loop
flip_coins fuel p h = flip_loop fuel p h 0

-- The memory of the list, and the field `next` of each item, by its address.
pub record Store : Type 0 where
  pub memory : Memory
  pub item_next : ℕ → ℕ

abbrev pub put : Memory → ℕ → Node → Memory
put memory a n x = if x == a then n else memory x

-- dbx1000_chain_onto
abbrev pub chain_onto : ℕ → ℕ → (ℕ → ℕ) → ℕ → ℕ
chain_onto old_value new_value next x = if x == new_value then old_value else next x

-- A key that is there gets the new item, chained onto the old one.
abbrev pub replace_in : Body → ℕ → ℕ → Element → Store → Run Store
replace_in (internal keys children) a rank elt s = failed
replace_in (leaf array) a rank elt s = done (record {
  memory = put s.memory a (record (s.memory a) { body = leaf (blind_write array rank elt) });
  item_next = chain_onto (array rank).value elt.value s.item_next;
})

abbrev pub put_after : Leaf → ℕ → Element → Leaf
put_after node rank elt = record (insert_elt_at_rank node (rank + 1) elt) {
  num_elts = inc32 node.num_elts;
}

abbrev pub with_leaf : Node → Leaf → Node
with_leaf n l = record n { num_elts = l.num_elts; body = leaf l.array }

-- The leaf level: the new key goes after `rank` of the leaf at `a`, whose array is `array`. A full
-- leaf gives its second half to a new one at `spare`, of which `fresh` is what the array holds.
pub add_at_leaf :
    (max_keys spare : ℕ) → (ℕ → Element) → ℕ → (ℕ → Element) → ℕ → Element → Memory → Memory
add_at_leaf max_keys spare fresh a array rank elt memory =
    let n = memory a in
    let node : Leaf = record { num_elts = n.num_elts; array = array } in
    let (left, right, _) =
      split_keys node (record { num_elts = 0; array = fresh }) (n.num_elts / 2) 0 in
    let new_node : Leaf → Node = λ l. record {
      num_elts = l.num_elts;
      level = 0;
      next = n.next;
      next_header = n.next_header;
      body = leaf l.array;
    } in
    let shorter : Node = record n { next = some spare; next_header = (right.array 0).key } in
    let in_left = leb (rank + 1) left.num_elts in
    if ltb max_keys (n.num_elts + 1)
    then (if in_left
        then put (put memory spare (new_node right)) a (with_leaf shorter (put_after left rank elt))
        else put (put memory spare (new_node (put_after right (rank - left.num_elts) elt))) a
            (with_leaf shorter left))
    else put memory a (with_leaf n (put_after node rank elt))

abbrev pub add_in :
    (max_keys spare : ℕ) → (ℕ → Element) → Body → ℕ → ℕ → Element → Store → Run Store
add_in max_keys spare fresh (internal keys children) a rank elt s = failed
add_in max_keys spare fresh (leaf array) a rank elt s =
    done (record s { memory = add_at_leaf max_keys spare fresh a array rank elt s.memory })

module _ (max_keys spare : ℕ) (fresh : ℕ → Element) (elt : Element) where
  pub insert_from : ℕ → ℕ → ℕ → Store → Run Store
  unfolding add_at_leaf
  insert_from fuel zero a s = forward fuel s.memory a elt.key >>= λ b.
      let (rank, found) = find_key_and_check (s.memory b) elt.key in
      if found
      then replace_in (s.memory b).body b rank elt s
      else add_in max_keys spare fresh (s.memory b).body b rank elt s
  insert_from fuel (suc level) a s = forward fuel s.memory a elt.key >>= λ b.
      let (rank, found) = find_key_and_check (s.memory b) elt.key in
      let there = descend fuel s.memory b rank >>= λ c. replace_in (s.memory c).body c 0 elt s in
      let below = get_child_at_rank (s.memory b) rank >>= λ c. insert_from fuel level c s in
      if found then there else below

  -- BSkip::insert of a key that is promoted to no level: the result, and the store.
  pub insert_unpromoted : ℕ → ℕ → Store → Run (Bool × Store)
  unfolding insert_from
  insert_unpromoted fuel header s =
      let inserted = insert_from fuel top_level header s >>= λ t. done (true, t) in
      if elt.key == min_sentinel || elt.key == max_sentinel then done (false, s) else inserted
