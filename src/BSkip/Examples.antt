-- ===== src/BSkip/Examples.antt =====
-- The theorems on leaves at a leaf with the keys 0, 4 and 9.

use dbx1000_bskiplist.Base.{ℕ, zero, suc, arith, ◌*◌, ◌≡◌, ◌≤◌, false, some, refl}
use dbx1000_bskiplist.BSkip.Leaf.{
  Element, Leaf, find_key_and_check, find_index_binary, find_index_linear, get_header,
}
use dbx1000_bskiplist.BSkip.Leaf.Search.{Ascending}
use dbx1000_bskiplist.BSkip.Leaf.Rank.{IsLeaf, find_index_binary-eq-linear}

abbrev element : ℕ → Element
element k = record { key = k; value = k * 10 }

abbrev three_keys : ℕ → Element
three_keys zero = element 0
three_keys (suc zero) = element 4
three_keys (suc (suc x)) = element 9

abbrev three : Leaf
three = record { num_elts = 3; array = three_keys }

three-Ascending : Ascending 3 three_keys
three-Ascending zero zero a b = absurd (omega arith)
three-Ascending zero (suc zero) a b = omega arith
three-Ascending zero (suc (suc j)) a b = omega arith
three-Ascending (suc zero) zero a b = absurd (omega arith)
three-Ascending (suc zero) (suc zero) a b = absurd (omega arith)
three-Ascending (suc zero) (suc (suc j)) a b = omega arith
three-Ascending (suc (suc i)) j a b = absurd (omega arith)

three-IsLeaf : IsLeaf three
three-IsLeaf = record { nonempty = omega arith; fits = omega arith; ascending = three-Ascending }

header_small : (k : ℕ) → get_header three ≤ k
unfolding get_header
header_small k = omega arith

five_is_new : (find_key_and_check three 5).1 ≡ false
unfolding find_key_and_check
five_is_new = refl

find_index_binary-eq-linear_example : find_index_binary 4 three 5 ≡ some (find_index_linear three 5)
find_index_binary-eq-linear_example =
    find_index_binary-eq-linear 4 three 5 three-IsLeaf (header_small 5) (omega arith)

abbrev fresh : Leaf
fresh = record { num_elts = 0; array = λ x. element 0 }
