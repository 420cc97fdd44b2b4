-- ===== src/BSkip/Leaf/Search.antt =====
-- The two searches of a leaf (LeafNode.cpp): what they find, and that they agree.
use dbx1000_bskiplist.Base.{
  ℕ, zero, suc, ◌+◌, arith, ◌≡◌, ◌<◌, ◌≤◌, Bool-cases, inl, inr, ◌==◌, ℕ_discrete, subst, ◌⊎◌,
  below_suc, sym, ◌-◌, ◌/◌, ltb→lt,
}
use dbx1000_bskiplist.BSkip.Leaf.{Element, linear_from, u32_mod, dec32, ltb, binary_loop, some, leb}

-- The first n keys rise.
abbrev pub Ascending : ℕ → (ℕ → Element) → Type 0
Ascending n array = (i j : ℕ) → i < j → j < n → (array i).key < (array j).key

-- The rank of the largest key that is at most k.
pub record IsRank (n : ℕ) (array : ℕ → Element) (k r : ℕ) : Type 0 where
  pub within : r < n
  pub at_most : (array r).key ≤ k
  pub largest : (i : ℕ) → r < i → i < n → k < (array i).key

pub IsRank-unique :
    (n : ℕ) (array : ℕ → Element) (k r q : ℕ) → IsRank n array k r → IsRank n array k q → r ≡ q
IsRank-unique n array k r q a b = grind (arith, a.largest, b.largest)

pub Ascending-le :
    (n : ℕ) (array : ℕ → Element) (i j : ℕ)
    → Ascending n array
    → i ≤ j
    → j < n
    → (array i).key ≤ (array j).key
Ascending-le n array i j up h small = elim (ℕ_discrete i j) [
  | yes e ↦ rw e (omega arith)
  | no d ↦ omega (arith, up i j (omega arith) small)
]

module _ (array : ℕ → Element) (k n : ℕ) (up : Ascending n array) (small : n < u32_mod)
    (pos : 0 < n) (low : (array 0).key ≤ k) where
  -- Every key before i is below k; every key from i on is above.
  abbrev pub Before : ℕ → Type 0
  Before i = (x : ℕ) → x < i → (array x).key < k

  abbrev pub After : ℕ → Type 0
  After i = (x : ℕ) → i ≤ x → x < n → k < (array x).key

  After-of : (i : ℕ) → k < (array i).key → After i
  After-of i h x a b = omega (arith, Ascending-le n array i x up a b)

  -- The rank before the first greater key.
  pub IsRank-greater : (i : ℕ) → i ≤ n → Before i → After i → IsRank n array k (dec32 i)
  IsRank-greater zero h before after = absurd (omega (arith, after 0 (omega arith) pos))
  IsRank-greater (suc j) h before after =
      let back : dec32 (suc j) ≡ j = omega arith in
      subst (IsRank n array k) (sym back) (record {
        within = omega arith;
        at_most = omega (arith, before j (omega arith));
        largest = λ i a b. after i (omega arith) b;
      })

  pub IsRank-exact : (i : ℕ) → i < n → (array i).key ≡ k → IsRank n array k i
  IsRank-exact i h e = record {
    within = h;
    at_most = omega arith;
    largest = λ j a b. omega (arith, up i j a b);
  }

  pub linear_from-IsRank :
      (i rounds : ℕ) → i + rounds ≡ n → Before i → IsRank n array k (linear_from array k i rounds)
  unfolding linear_from
  linear_from-IsRank i zero e before =
      IsRank-greater i (omega arith) before (λ x a b. absurd (omega arith))
  linear_from-IsRank i (suc rounds) e before = elim (Bool-cases (ltb (array i).key k)) [
    | inl c ↦ rw c (
        linear_from-IsRank (i + 1) rounds (omega arith)
          (below_suc (λ x. (array x).key < k) i before (ground arith)))
    | inr c ↦ elim (Bool-cases (k == (array i).key)) [
      | inl d ↦ rw (c, d) (IsRank-exact i (omega arith) (ground arith))
      | inr d ↦ rw (c, d) (IsRank-greater i (omega arith) before (After-of i (ground arith)))
    ]
  ]

  -- Where the loop of the binary search ends.
  abbrev pub Ends : ℕ → Type 0
  Ends left = (left < n × ((array left).key ≡ k)) ⊎ (left ≤ n × Before left × After left)

  pub binary_loop-Ends :
      (fuel left right : ℕ)
      → left ≤ right + 1
      → right < n
      → right + 1 < left + fuel
      → Before left
      → After (right + 1)
      → (r : ℕ) × (binary_loop fuel array k left right ≡ some r) × Ends r
  unfolding binary_loop
  binary_loop-Ends zero left right a b f before after = absurd (omega arith)
  binary_loop-Ends (suc fuel) left right a b f before after = elim (Bool-cases (leb left right)) [
    | inr stop ↦
        let same : left ≡ right + 1 = ground arith in
        (left, rw stop, inr (omega arith, before, rw same after))
    | inl go ↦
        let mid = left + (right - left) / 2 in
        let lo : left ≤ mid = omega arith in
        let hi : mid ≤ right = ground arith in
        elim (Bool-cases ((array mid).key == k)) [
          | inl hit ↦ (mid, rw (go, hit), inl (omega arith, ground arith))
          | inr other ↦ elim (Bool-cases (ltb (array mid).key k)) [
            | inl less ↦
                let (r, run, ends) =
                  binary_loop-Ends fuel (mid + 1) right (omega arith) b (omega arith)
                    (λ x h. omega (
                      arith,
                      Ascending-le n array x mid up (omega arith) (omega arith),
                      ltb→lt (array mid).key k less,
                    ))
                    after in
                (r, rw (go, other, less) run, ends)
            | inr more ↦
                let above : k < (array mid).key = ground arith in
                elim (Bool-cases (mid == 0)) [
                  | inl bottom ↦
                      let same : mid ≡ 0 = ground arith in
                      absurd (
                        omega (
                          arith,
                          Ascending-le n array 0 mid up (omega arith) (omega arith),
                          subst (λ m. k < (array m).key) same above,
                        ))
                  | inr up' ↦
                      let some_below : 0 < mid = ground arith in
                      let (r, run, ends) =
                        binary_loop-Ends fuel left (mid - 1) (omega arith) (omega arith)
                          (omega arith) before (λ x h l. After-of mid above x (omega arith) l) in
                      (r, rw (go, other, more, up') run, ends)
                ]
          ]
        ]
  ]
