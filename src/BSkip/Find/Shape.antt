-- ===== src/BSkip/Find/Shape.antt =====
-- The shape of a B-skiplist, and what it holds. `Live level a` says that the node at `a` stands on a
-- level, between its header and its end sentinel.
use dbx1000_bskiplist.BSkip.Node.Rank.{Sorted}
use dbx1000_bskiplist.Base.{ℕ, zero, suc, ◌≡◌, ◌<◌, ◌≤◌, some, Option}
use dbx1000_bskiplist.BSkip.Leaf.{Element}
use dbx1000_bskiplist.BSkip.Node.{Node, Body, internal, leaf, Memory, max_sentinel, get_key_at_rank}

-- A key belongs to a node: it is from the node's header on, and below the next one.
abbrev pub Covers : Node → ℕ → Type 0
Covers n k = (get_key_at_rank n 0 ≤ k) × (k < n.next_header)

module _ (memory : Memory) (Live : ℕ → ℕ → Type 0) where
  -- A leaf on level 0; on a level above, each key has the node below that begins with it.
  abbrev pub Arrays : ℕ → ℕ → Body → Type 0
  Arrays zero n body = (array : ℕ → Element) × (body ≡ leaf array)
  Arrays (suc level) n body =
      (keys : ℕ → ℕ) × (children : ℕ → Option ℕ) × (body ≡ internal keys children)
      × ((i : ℕ)
          → i < n
          → (c : ℕ) × (children i ≡ some c)
            × Live level c
            × (get_key_at_rank (memory c) 0 ≡ keys i))

  pub record IsNode (level a : ℕ) : Type 0 where
    pub sorted : Sorted (memory a)
    pub on_level : (memory a).level ≡ level
    pub bound : (memory a).next_header ≤ max_sentinel
    pub linked :
        (memory a).next_header < max_sentinel
        → (b : ℕ) × ((memory a).next ≡ some b)
          × Live level b
          × (get_key_at_rank (memory b) 0 ≡ (memory a).next_header)
    pub arrays : Arrays level (memory a).num_elts (memory a).body

  -- Each node is well formed, and no two nodes of a level cover one key.
  pub record Shape : Type 0 where
    pub nodes : (level a : ℕ) → Live level a → IsNode level a
    pub apart :
        (level a b k : ℕ)
        → Live level a
        → Live level b
        → Covers (memory a) k
        → Covers (memory b) k
        → a ≡ b

  -- The list holds the element: some leaf has it at some rank.
  abbrev pub Maps : ℕ → ℕ → Type 0
  Maps k v =
      (a : ℕ) × (array : ℕ → Element) × (i : ℕ) × Live 0 a
      × ((memory a).body ≡ leaf array)
      × (i < (memory a).num_elts)
      × (array i ≡ record { key = k; value = v })
