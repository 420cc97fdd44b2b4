-- ===== src/BSkip/Range.antt =====
-- storage/RW_bskiplist/src/range.cpp: map_range_length and map_range. What they apply the function to is
-- the list of the elements in that order. The locks, taken hand over hand, leave no trace.
pub mod Chunk
pub mod Visit
pub mod First
pub mod Locate
pub mod Begin
pub mod Length
pub mod Between
use dbx1000_bskiplist.Base.{
  ℕ, zero, suc, ◌+◌, ◌-◌, ◌%◌, List, [], ◌∷◌, ◌++◌, Bool, true, false, not, ◌&&◌, ◌||◌,
  if◌then◌else◌, ltb, leb, ◌==◌, u32_mod,
}
use dbx1000_bskiplist.Run.{Run, done, failed, no_fuel, deref, ◌>>=◌}
use dbx1000_bskiplist.BSkip.Leaf.{Element}
use dbx1000_bskiplist.BSkip.Node.{
  Body, internal, leaf, Memory, max_sentinel, find_key_and_check, get_key_at_rank,
  get_child_at_rank,
}
use dbx1000_bskiplist.BSkip.Find.{forward, top_level}

-- A node, and a rank in it.
pub record Position : Type 0 where
  pub node : ℕ
  pub rank : ℕ

-- The search of map_range_length for the key from the top level down: where it ends, and whether it
-- has found the key.
pub locate : ℕ → Memory → ℕ → ℕ → ℕ → Run (Position × Bool)
unfolding forward
locate fuel memory k zero a = forward fuel memory a k >>= λ b.
    let (rank, found_key) = find_key_and_check (memory b) k in
    done (record { node = b; rank = rank }, found_key)
locate fuel memory k (suc level) a = forward fuel memory a k >>= λ b.
    let (rank, found_key) = find_key_and_check (memory b) k in
    let below = get_child_at_rank (memory b) rank >>= λ c. locate fuel memory k level c in
    if found_key then done (record { node = b; rank = rank }, true) else below

-- That of map_range, which tests `found` in place of `found_key`, and so goes down to the leaves.
pub locate_leaf : ℕ → Memory → ℕ → ℕ → ℕ → Run (Position × Bool)
unfolding forward
locate_leaf fuel memory k zero a = forward fuel memory a k >>= λ b.
    let rank = (find_key_and_check (memory b) k).0 in done (record { node = b; rank = rank }, false)
locate_leaf fuel memory k (suc level) a = forward fuel memory a k >>= λ b.
    let rank = (find_key_and_check (memory b) k).0 in
    get_child_at_rank (memory b) rank >>= λ c. locate_leaf fuel memory k level c

-- `while (cur_level != 0)`
pub sink : ℕ → Memory → ℕ → Position → Run Position
sink zero memory k p = no_fuel
sink (suc fuel) memory k p =
    let below = get_child_at_rank (memory p.node) p.rank >>= λ c.
    sink fuel memory k (record { node = c; rank = (find_key_and_check (memory c) k).0 }) in
    if (memory p.node).level == 0 then done p else below

-- The next leaf, when the rank is past the last key.
abbrev pub turn : Memory → Position → Run Position
turn memory p =
    let next = deref (memory p.node).next >>= λ b. done (record { node = b; rank = 0 }) in
    if p.rank == (memory p.node).num_elts then next else done p

abbrev pub past : Memory → Bool → Position → Run Position
past memory found p = if found then done p else turn memory (record p { rank = p.rank + 1 })

-- The elements of a leaf, `count` of them from a rank.
unfoldable pub chunk : (ℕ → Element) → ℕ → ℕ → List Element
chunk array rank zero = []
chunk array rank (suc count) = array rank ∷ chunk array (rank + 1) count

abbrev pub chunk_in : Body → ℕ → ℕ → Run (List Element)
chunk_in (internal keys children) rank count = failed
chunk_in (leaf array) rank count = done (chunk array rank count)

abbrev pub at_end : Memory → Position → Bool
at_end memory p = get_key_at_rank (memory p.node) p.rank == max_sentinel

-- The loop of map_range_length; `remaining` is num_remaining.
pub visit : ℕ → Memory → Position → ℕ → Run (List Element)
unfolding chunk
visit zero memory p remaining = no_fuel
visit (suc fuel) memory p remaining =
    let n = memory p.node in
    let there = n.num_elts - p.rank in
    let iteration = if ltb remaining there then remaining else there in
    let left = remaining - iteration in
    let stop = visit fuel memory (record p { rank = p.rank + iteration }) left in
    let onward = deref n.next >>= λ b. visit fuel memory (record { node = b; rank = 0 }) left in
    let body = chunk_in n.body p.rank iteration >>= λ es.
    ((if left == 0 then stop else onward) >>= λ rest. done (es ++ rest)) in
    if at_end memory p || remaining == 0 then done [] else body

-- The loop of map_range.
pub visit_to : ℕ → Memory → ℕ → Position → Run (List Element)
unfolding chunk
visit_to zero memory max p = no_fuel
visit_to (suc fuel) memory max p =
    let n = memory p.node in
    let body = chunk_in n.body p.rank 1 >>= λ es.
    (turn memory (record p { rank = p.rank + 1 }) >>= λ q.
    (visit_to fuel memory max q >>= λ rest. done (es ++ rest))) in
    if leb (get_key_at_rank n p.rank) max && not (at_end memory p) then body else done []

pub map_range_length : ℕ → Memory → ℕ → ℕ → ℕ → Run (List Element)
unfolding locate sink visit
map_range_length fuel memory header start length =
    locate fuel memory start top_level header >>= λ (p, found).
    (sink fuel memory start p >>= λ q.
    (past memory found q >>= λ r. visit fuel memory r (length % u32_mod)))

pub map_range : ℕ → Memory → ℕ → ℕ → ℕ → Run (List Element)
unfolding locate_leaf sink visit_to
map_range fuel memory header min max =
    locate_leaf fuel memory min top_level header >>= λ (p, found).
    (sink fuel memory min p >>= λ q. (past memory found q >>= λ r. visit_to fuel memory max r))
