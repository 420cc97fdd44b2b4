-- ===== src/IndexHash/Chains.antt =====
-- The nodes of one bucket, and the items that a node's pointer reaches (index_hash.cpp).
use dbx1000_bskiplist.Base.{
  ℕ, List, [], ◌∷◌, Option, none, some, if◌then◌else◌, ◌==◌, ◌≡◌, ◌≢◌, arith, All, false,
}
use dbx1000_bskiplist.IndexHash.{BucketNode, find_node, insert_node, set_next}

-- From the pointer `p` the items `xs` are linked, in this order, and no others.
abbrev pub Chain : (ℕ → Option ℕ) → Option ℕ → List ℕ → Type 0
Chain next p [] = p ≡ none
Chain next p (x ∷ xs) = (p ≡ some x) × Chain next (next x) xs

pub Chain-set_next :
    (next : ℕ → Option ℕ) (item : ℕ) (q : Option ℕ) (p : Option ℕ) (xs : List ℕ)
    → All (λ x. x ≢ item) xs
    → Chain next p xs
    → Chain (set_next next item q) p xs
Chain-set_next next item q p [] fresh c = c
Chain-set_next next item q p (x ∷ xs) fresh c =
    let other : (x == item) ≡ false = ground arith in
    (c.0, rw other (Chain-set_next next item q (next x) xs fresh.1 c.1))

-- After insert_node the node of the key points to the item, and the others are as before.
pub find_node-insert_node :
    (key item q : ℕ) (ns : List BucketNode)
    → find_node q (insert_node key item ns)
      ≡ (if q == key then some (record { key = key; items = some item }) else find_node q ns)
unfolding find_node insert_node
find_node-insert_node key item q [] = ground arith
find_node-insert_node key item q (n ∷ ns) = ground (arith, find_node-insert_node key item q ns)
