-- ===== src/BSkip/Node/Rank.antt =====
-- What find_key_and_check finds in a node of any level (InternalNode.cpp, LeafNode.cpp).
use dbx1000_bskiplist.Base.{
  ℕ, zero, suc, ◌+◌, ◌-◌, ◌≡◌, ◌<◌, ◌≤◌, arith, Bool-cases, inl, inr, ltb, refl, ◌==◌, below_suc,
  ==_iff, subst, ℕ_discrete, sym,
}
use dbx1000_bskiplist.BSkip.Leaf.{Leaf, find_index_linear, get_header}
use dbx1000_bskiplist.BSkip.Leaf.Rank.{IsLeaf, find_index_linear-IsRank}
use dbx1000_bskiplist.BSkip.Node.{
  Node, Body, internal, leaf, key_in, get_key_at_rank, find_internal, first_above,
  find_key_and_check, find_in,
}

-- The keys of a node rise, and stay below its next_header.
pub record Sorted (n : Node) : Type 0 where
  pub nonempty : 0 < n.num_elts
  pub fits : n.num_elts < 2147483648
  pub rising : (i j : ℕ) → i < j → j < n.num_elts → key_in n.body i < key_in n.body j
  pub under : (i : ℕ) → i < n.num_elts → key_in n.body i < n.next_header

-- The rank of the largest key at most `k`, and whether it is `k`.
pub record Found (n : Node) (k r : ℕ) : Type 0 where
  pub within : r < n.num_elts
  pub at_most : key_in n.body r ≤ k
  pub largest : (i : ℕ) → r < i → i < n.num_elts → k < key_in n.body i

first_above_lem :
    (keys : ℕ → ℕ) (k n i rounds : ℕ)
    → i + rounds ≡ n
    → ((j : ℕ) → j < i → keys j ≤ k)
    → ((j : ℕ) → j < first_above keys k i rounds → keys j ≤ k)
      × (first_above keys k i rounds ≤ n)
      × (first_above keys k i rounds < n → k < keys (first_above keys k i rounds))
unfolding first_above
first_above_lem keys k n i zero e before = (before, omega arith, λ h. absurd (omega arith))
first_above_lem keys k n i (suc rounds) e before = elim (Bool-cases (ltb k (keys i))) [
  | inl c ↦ rw c (before, omega arith, λ h. ground arith)
  | inr c ↦ rw c (
      first_above_lem keys k n (i + 1) rounds (omega arith)
        (below_suc (λ j. keys j ≤ k) i before (ground arith)))
]

internal_Found :
    (keys : ℕ → ℕ) (num k : ℕ)
    → 0 < num
    → ((i j : ℕ) → i < j → j < num → keys i < keys j)
    → keys 0 ≤ k
    → (r : ℕ) × (find_internal num keys k ≡ (r, keys r == k))
      × (r < num)
      × (keys r ≤ k)
      × ((i : ℕ) → r < i → i < num → k < keys i)
unfolding find_internal
internal_Found keys num k pos rising low =
    let i = first_above keys k 0 num in
    let (before, small, after) =
      first_above_lem keys k num 0 num (omega arith) (λ j h. absurd (omega arith)) in
    elim (Bool-cases (i == 0)) [
      | inl c ↦
          let same = (==_iff i 0).0 c in
          absurd (omega (arith, subst (λ x. k < keys x) same (after (omega arith))))
      | inr c ↦
          let some_before : 0 < i = ground arith in
          (
            i - 1,
            rw c refl,
            omega arith,
            before (i - 1) (omega arith),
            λ j h l. elim (ℕ_discrete j i) [
              | yes e ↦ subst (λ x. k < keys x) (sym e) (after (omega arith))
              | no d ↦ omega (arith, after (omega arith), rising i j (omega arith) l)
            ],
          )
    ]

-- find_key_and_check of a sorted node finds the rank of the largest key that is at most `k`, and
-- tells whether it is `k`.
pub find_key_and_check-Found :
    (n : Node) (k : ℕ)
    → Sorted n
    → get_key_at_rank n 0 ≤ k
    → (r : ℕ) × (find_key_and_check n k ≡ (r, get_key_at_rank n r == k)) × Found n k r
unfolding find_key_and_check get_header
find_key_and_check-Found n k v low = by_body n.body refl
  where
    by_body :
        (body : Body)
        → n.body ≡ body
        → (r : ℕ) × (find_key_and_check n k ≡ (r, get_key_at_rank n r == k)) × Found n k r
    by_body (internal keys children) e =
        let v' = subst (λ b. Sorted (record n { body = b })) e v in
        let low' : keys 0 ≤ k = subst (λ b. key_in b 0 ≤ k) e low in
        let (r, run, small, most, above) =
          internal_Found keys n.num_elts k v'.nonempty v'.rising low' in
        subst
          (λ b.
            (r : ℕ) × (find_in b n.num_elts k ≡ (r, key_in b r == k))
            × Found (record n { body = b }) k r)
          (sym e) (r, run, record { within = small; at_most = most; largest = above })
    by_body (leaf array) e =
        let v' = subst (λ b. Sorted (record n { body = b })) e v in
        let low' : (array 0).key ≤ k = subst (λ b. key_in b 0 ≤ k) e low in
        let node : Leaf = record { num_elts = n.num_elts; array = array } in
        let ok : IsLeaf node = record {
          nonempty = v'.nonempty;
          fits = v'.fits;
          ascending = v'.rising;
        } in
        let found = find_index_linear-IsRank node k ok low' in
        subst
          (λ b.
            (r : ℕ) × (find_in b n.num_elts k ≡ (r, key_in b r == k))
            × Found (record n { body = b }) k r)
          (sym e)
          (
            find_index_linear node k,
            refl,
            record { within = found.within; at_most = found.at_most; largest = found.largest },
          )
