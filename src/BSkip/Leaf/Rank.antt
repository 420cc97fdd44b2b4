-- ===== src/BSkip/Leaf/Rank.antt =====
-- find_index_linear, find_index_binary and find_key_and_check of a leaf (LeafNode.cpp): the two
-- searches agree, as the source's disabled check demands, and find the largest key at most k.
use dbx1000_bskiplist.Base.{
  ℕ, ◌+◌, arith, ◌<◌, ◌≤◌, ◌≡◌, ◌⊎◌, if◌then◌else◌, ◌↔◌, ◌==◌, ap, ◌||◌, inl, inr, dec_lt, ==_iff,
  subst, sym,
}
use dbx1000_bskiplist.BSkip.Leaf.{
  Leaf, find_key_and_check, find_index_linear, find_index_binary, get_header, true, some, dec32,
  ltb, blind_read_key, false,
}
use dbx1000_bskiplist.BSkip.Leaf.Search.{
  Ascending, IsRank, linear_from-IsRank, binary_loop-Ends, IsRank-unique, IsRank-exact,
  IsRank-greater,
}

-- A leaf has at least its header, and its keys rise.
pub record IsLeaf (node : Leaf) : Type 0 where
  pub nonempty : 0 < node.num_elts
  pub fits : node.num_elts < 2147483648
  pub ascending : Ascending node.num_elts node.array

-- find_index_linear returns the rank of the largest key at most k.
pub find_index_linear-IsRank :
    (node : Leaf) (k : ℕ)
    → IsLeaf node
    → get_header node ≤ k
    → IsRank node.num_elts node.array k (find_index_linear node k)
unfolding find_index_linear get_header
find_index_linear-IsRank node k v low =
    linear_from-IsRank node.array k node.num_elts v.ascending (omega (arith, v.fits)) v.nonempty low
      0 node.num_elts (omega arith) (λ x h. absurd (omega arith))

binary_end :
    (node : Leaf) (k left : ℕ)
    → IsLeaf node
    → (array0 : (node.array 0).key ≤ k)
    → ((left < node.num_elts) × ((node.array left).key ≡ k))
      ⊎ ((left ≤ node.num_elts)
          × ((x : ℕ) → x < left → (node.array x).key < k)
          × ((x : ℕ) → left ≤ x → x < node.num_elts → k < (node.array x).key))
    → IsRank node.num_elts node.array k (
        if left == node.num_elts || ltb k (blind_read_key node.array left)
        then dec32 left
        else left)
binary_end node k left v low (inl (h, e)) =
    let stay : (left == node.num_elts || ltb k (blind_read_key node.array left)) ≡ false =
      ground arith in
    rw stay (
      IsRank-exact node.array k node.num_elts v.ascending (omega (arith, v.fits)) v.nonempty low
        left h e)
binary_end node k left v low (inr (h, before, after)) =
    let back : (left == node.num_elts || ltb k (blind_read_key node.array left)) ≡ true =
      elim (dec_lt left node.num_elts) [
        | yes p ↦ ground (arith, after left (omega arith) p)
        | no p ↦ ground arith
      ] in
    rw back (
      IsRank-greater node.array k node.num_elts v.ascending (omega (arith, v.fits)) v.nonempty low
        left h before after)

-- With more fuel than keys the binary search ends, with the rank that the linear search finds.
pub find_index_binary-eq-linear :
    (fuel : ℕ) (node : Leaf) (k : ℕ)
    → IsLeaf node
    → get_header node ≤ k
    → node.num_elts < fuel
    → find_index_binary fuel node k ≡ some (find_index_linear node k)
unfolding find_index_binary get_header
find_index_binary-eq-linear fuel node k v low enough =
    let last : dec32 node.num_elts + 1 ≡ node.num_elts = omega (arith, v.fits, v.nonempty) in
    let (left, run, ends) =
      binary_loop-Ends node.array k node.num_elts v.ascending (omega (arith, v.fits)) v.nonempty low
        fuel 0 (dec32 node.num_elts) (omega arith) (omega arith) (omega arith)
        (λ x h. absurd (omega arith)) (λ x a b. absurd (omega arith)) in
    rw run (
      ap some (
        IsRank-unique node.num_elts node.array k _ _ (binary_end node k left v low ends)
          (find_index_linear-IsRank node k v low)))

-- find_key_and_check finds exactly the keys that the leaf holds, and the rank of each.
pub find_key_and_check_lem :
    (node : Leaf) (k : ℕ)
    → IsLeaf node
    → get_header node ≤ k
    → ((find_key_and_check node k).1 ≡ true)
      ↔ ((i : ℕ) × (i < node.num_elts) × ((node.array i).key ≡ k))
unfolding find_key_and_check get_header
find_key_and_check_lem node k v low =
    let found = find_index_linear-IsRank node k v low in
    (
      λ e. (find_index_linear node k, found.within, ground arith),
      λ (i, h, e).
          let exact =
            IsRank-exact node.array k node.num_elts v.ascending (omega (arith, v.fits)) v.nonempty
              low i h e in
          let same : find_index_linear node k ≡ i =
            IsRank-unique node.num_elts node.array k _ _ found exact in
          (==_iff _ k).1 (subst (λ j. (node.array j).key ≡ k) (sym same) e),
    )
