-- ===== src/IndexHash.antt =====
-- storage/index_hash.h and index_hash.cpp: the hash index. A bucket is the list of its nodes, an item
-- is its address, and `next` is the field of that name of every item. index_insert runs under the
-- latch of its bucket and is one step.
pub mod Chains
pub mod Refinement
mod Examples
use dbx1000_bskiplist.Base.{
  ℕ, List, [], ◌∷◌, Option, none, some, if◌then◌else◌, ◌==◌, ◌%◌, ◌/◌, ltb, Bool, true, false,
}
use dbx1000_bskiplist.Run.{Run, done, failed, deref, ◌>>=◌}

pub record BucketNode : Type 0 where
  pub key : ℕ
  pub items : Option ℕ

pub record IndexHash : Type 0 where
  pub bucket_cnt : ℕ
  pub bucket_cnt_per_part : ℕ
  pub buckets : ℕ → ℕ → List BucketNode
  pub next : ℕ → Option ℕ

unfoldable pub init : ℕ → ℕ → (ℕ → Option ℕ) → IndexHash
init bucket_cnt part_cnt next = record {
  bucket_cnt = bucket_cnt;
  bucket_cnt_per_part = bucket_cnt / part_cnt;
  buckets = λ part i. [];
  next = next;
}

abbrev pub hash : IndexHash → ℕ → ℕ
hash t key = key % t.bucket_cnt_per_part

-- The loop of insert_item and of read_item: the node of the key.
pub find_node : ℕ → List BucketNode → Option BucketNode
find_node key [] = none
find_node key (n ∷ ns) = let rest = find_node key ns in if n.key == key then some n else rest

-- The nodes after insert_item: a new node at the end, or the item before those of its node.
pub insert_node : ℕ → ℕ → List BucketNode → List BucketNode
insert_node key item [] = record { key = key; items = some item } ∷ []
insert_node key item (n ∷ ns) =
    let rest = insert_node key item ns in
    if n.key == key then record n { items = some item } ∷ ns else n ∷ rest

abbrev pub set_next : (ℕ → Option ℕ) → ℕ → Option ℕ → ℕ → Option ℕ
set_next next item p x = if x == item then p else next x

-- What insert_item does to `item->next`: nothing, for a new node.
abbrev pub link_item : Option BucketNode → ℕ → (ℕ → Option ℕ) → ℕ → Option ℕ
link_item none item next = next
link_item (some n) item next = set_next next item n.items

pub index_insert : ℕ → ℕ → ℕ → IndexHash → Run IndexHash
unfolding find_node insert_node
index_insert key item part_id t =
    let i = hash t key in
    let nodes = t.buckets part_id i in
    if ltb i t.bucket_cnt_per_part
    then done (record t {
      buckets = λ p j.
          if p == part_id
          then (if j == i then insert_node key item nodes else t.buckets p j)
          else t.buckets p j;
      next = link_item (find_node key nodes) item t.next;
    })
    else failed

-- For a key that has no node the assertion of read_item reads through a null pointer.
pub index_read : ℕ → ℕ → IndexHash → Run (Option ℕ)
unfolding find_node
index_read key part_id t =
    let i = hash t key in
    let found = deref (find_node key (t.buckets part_id i)) >>= λ n. done n.items in
    if ltb i t.bucket_cnt_per_part then found else failed
