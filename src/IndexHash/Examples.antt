-- ===== src/IndexHash/Examples.antt =====
-- The theorems on the hash index at two insertions under one key.
use dbx1000_bskiplist.Base.{ℕ, List, [], ◌∷◌, Option, none, some, ◌≡◌, refl, arith}
use dbx1000_bskiplist.Run.{done, failed}
use dbx1000_bskiplist.IndexHash.{IndexHash, init, index_insert, index_read}
use dbx1000_bskiplist.IndexHash.Refinement.{
  Represents, Contents, insert, index_insert-Represents, index_read-Represents, init-Represents,
}

abbrev fresh_items : ℕ → Option ℕ
fresh_items x = none

abbrev nothing : Contents
nothing p q = []

empty_index : Represents (init 8 2 fresh_items) nothing
empty_index = init-Represents 8 2 fresh_items (omega arith) (omega arith)

one_item :
    (u : IndexHash) × (index_insert 21 100 1 (init 8 2 fresh_items) ≡ done u)
    × Represents u (insert 1 21 100 nothing)
unfolding init
one_item =
    index_insert-Represents 21 100 1 (init 8 2 fresh_items) nothing empty_index (λ p q. tt) refl

index_insert-Represents_example :
    (u : IndexHash) × (index_insert 21 100 1 (init 8 2 fresh_items) ≡ done u)
    × Represents u (insert 1 21 100 nothing)
unfolding init
index_insert-Represents_example =
    index_insert-Represents 21 100 1 (init 8 2 fresh_items) nothing
      (init-Represents 8 2 fresh_items (omega arith) (omega arith)) (λ p q. tt) refl

index_read-Represents_example :
    ((x : ℕ) (xs : List ℕ)
      → insert 1 21 100 nothing 1 21 ≡ x ∷ xs
      → index_read 21 1 one_item.0 ≡ done (some x))
    × (insert 1 21 100 nothing 1 21 ≡ [] → index_read 21 1 one_item.0 ≡ failed)
index_read-Represents_example =
    index_read-Represents 21 1 one_item.0 (insert 1 21 100 nothing) one_item.2
