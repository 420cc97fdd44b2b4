-- ===== src/Silo/WriteSet.antt =====
-- The order in which validate_silo locks the rows it writes (silo.cpp).
use dbx1000_bskiplist.Base.{ℕ, ◌<◌, ◌≤◌, Bool, arith, ltb}
use dbx1000_bskiplist.BubbleSort.{bubble_sort}
use dbx1000_bskiplist.BubbleSort.Order.{Rearranged, bubble_sort-Rearranged, bubble_sort_ordered}

-- `primary_key` gives the key of the row of an access, `write_set` the accesses that write.
abbrev pub key_above : (ℕ → ℕ) → ℕ → ℕ → Bool
key_above primary_key a b = ltb (primary_key b) (primary_key a)

abbrev pub sort_write_set : (ℕ → ℕ) → ℕ → (ℕ → ℕ) → (ℕ → ℕ)
sort_write_set primary_key wr_cnt write_set = bubble_sort (key_above primary_key) wr_cnt write_set

-- The sort keeps the accesses that write, and puts them in the order of their rows' keys.
pub sort_write_set_lem :
    (primary_key : ℕ → ℕ) (wr_cnt : ℕ) (write_set : ℕ → ℕ)
    → Rearranged wr_cnt write_set (sort_write_set primary_key wr_cnt write_set)
      × ((i j : ℕ)
          → i < j
          → j < wr_cnt
          → primary_key (sort_write_set primary_key wr_cnt write_set i)
            ≤ primary_key (sort_write_set primary_key wr_cnt write_set j))
sort_write_set_lem primary_key wr_cnt write_set = (
  bubble_sort-Rearranged (key_above primary_key) wr_cnt write_set,
  λ i j h l.
      let c =
        bubble_sort_ordered (key_above primary_key) (λ x y d. ground arith)
          (λ x y z d e. ground arith) wr_cnt i j write_set h l in
      ground arith,
)
