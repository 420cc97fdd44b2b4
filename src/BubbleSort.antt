-- ===== src/BubbleSort.antt =====
-- The bubble sort by which concurrency_control/occ.cpp and silo.cpp order the rows of a transaction.
pub mod Order
use dbx1000_bskiplist.Base.{ℕ, zero, suc, ◌+◌, ◌-◌, Bool, if◌then◌else◌, ◌==◌}

module _ {ℓ} {A : Type ℓ} (above : A → A → Bool) where
  abbrev pub exchange : ℕ → (ℕ → A) → (ℕ → A)
  exchange j array i = if i == j then array (j + 1) else if i == j + 1 then array j else array i

  -- `for (int j = 0; j < i; j ++)`, the rounds from `j` on.
  pub sort_round : ℕ → ℕ → (ℕ → A) → (ℕ → A)
  sort_round zero j array = array
  sort_round (suc rounds) j array =
      sort_round rounds (j + 1)
        (if above (array j) (array (j + 1)) then exchange j array else array)

  -- `for (int i = row_cnt - 1; i > 0; i--)`
  pub sort_rounds : ℕ → (ℕ → A) → (ℕ → A)
  unfolding sort_round
  sort_rounds zero array = array
  sort_rounds (suc i) array = sort_rounds i (sort_round (suc i) 0 array)

  abbrev pub bubble_sort : ℕ → (ℕ → A) → (ℕ → A)
  bubble_sort row_cnt array = sort_rounds (row_cnt - 1) array
