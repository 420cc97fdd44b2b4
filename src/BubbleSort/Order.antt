-- ===== src/BubbleSort/Order.antt =====
-- What the bubble sort gives.
use dbx1000_bskiplist.Base.{
  ℕ, zero, suc, ◌+◌, ◌-◌, ◌≡◌, ◌<◌, ◌≤◌, Bool, true, false, if◌then◌else◌, ◌==◌, refl, arith, inl,
  inr, Bool-cases, ap, ◌∙◌, sym, subst, ℕ_discrete, dec_lt,
}
use dbx1000_bskiplist.BubbleSort.{exchange, sort_round, sort_rounds, bubble_sort}

-- One array holds what the other does, in another order, and is the same from `n` on.
pub record Rearranged {ℓ} {A : Type ℓ} (n : ℕ) (before after : ℕ → A) : Type ℓ where
  pub place : ℕ → ℕ
  pub back : ℕ → ℕ
  pub inside : (i : ℕ) → i < n → place i < n
  pub back_inside : (i : ℕ) → i < n → back i < n
  pub same : (i : ℕ) → after i ≡ before (place i)
  pub there : (i : ℕ) → place (back i) ≡ i
  pub here : (i : ℕ) → back (place i) ≡ i
  pub beyond : (i : ℕ) → n ≤ i → place i ≡ i

pub Rearranged-refl {ℓ} : {A : Type ℓ} (n : ℕ) (array : ℕ → A) → Rearranged n array array
Rearranged-refl n array = record {
  place = λ i. i;
  back = λ i. i;
  inside = λ i h. h;
  back_inside = λ i h. h;
  same = λ i. refl;
  there = λ i. refl;
  here = λ i. refl;
  beyond = λ i h. refl;
}

pub Rearranged-trans {ℓ} :
    {A : Type ℓ} (n : ℕ) (x y z : ℕ → A) → Rearranged n x y → Rearranged n y z → Rearranged n x z
Rearranged-trans n x y z v w = record {
  place = λ i. v.place (w.place i);
  back = λ i. w.back (v.back i);
  inside = λ i h. v.inside (w.place i) (w.inside i h);
  back_inside = λ i h. w.back_inside (v.back i) (v.back_inside i h);
  same = λ i. w.same i ∙ v.same (w.place i);
  there = λ i. ap v.place (w.there (v.back i)) ∙ v.there i;
  here = λ i. ap w.back (v.here (w.place i)) ∙ w.here i;
  beyond = λ i h. ap v.place (w.beyond i h) ∙ v.beyond i h;
}

Rearranged-more {ℓ} :
    {A : Type ℓ} (m n : ℕ) (x y : ℕ → A) → m ≤ n → Rearranged m x y → Rearranged n x y
Rearranged-more m n x y small v = record {
  place = v.place;
  back = v.back;
  inside = λ i h. elim (dec_lt i m) [
    | yes l ↦ omega (arith, v.inside i l)
    | no l ↦ omega (arith, v.beyond i (omega arith))
  ];
  back_inside = λ i h. elim (dec_lt i m) [
    | yes l ↦ omega (arith, v.back_inside i l)
    | no l ↦
        let fixed = v.beyond i (omega arith) in
        let same : v.back i ≡ i = sym (ap v.back fixed) ∙ v.here i in omega arith
  ];
  same = v.same;
  there = v.there;
  here = v.here;
  beyond = λ i h. v.beyond i (omega arith);
}

abbrev switch : ℕ → ℕ → ℕ
switch j i = if i == j then j + 1 else if i == j + 1 then j else i

module _ {ℓ} {A : Type ℓ} (above : A → A → Bool) where
  exchange-Rearranged :
      (n j : ℕ) (array : ℕ → A) → j + 1 < n → Rearranged n array (exchange above j array)
  exchange-Rearranged n j array small = record {
    place = switch j;
    back = switch j;
    inside = λ i h. ground arith;
    back_inside = λ i h. ground arith;
    same = λ i. elim (Bool-cases (i == j)) [
      | inl c ↦ rw c refl
      | inr c ↦ elim (Bool-cases (i == j + 1)) [ inl d ↦ rw (c, d) refl | inr d ↦ rw (c, d) refl ]
    ];
    there = λ i. ground arith;
    here = λ i. ground arith;
    beyond = λ i h. ground arith;
  }

  -- The larger of two neighbours goes after.
  abbrev ordered : ℕ → (ℕ → A) → (ℕ → A)
  ordered j array = if above (array j) (array (j + 1)) then exchange above j array else array

  ordered-Rearranged : (n j : ℕ) (array : ℕ → A) → j + 1 < n → Rearranged n array (ordered j array)
  ordered-Rearranged n j array small = elim (Bool-cases (above (array j) (array (j + 1)))) [
    | inl c ↦ rw c (exchange-Rearranged n j array small)
    | inr c ↦ rw c (Rearranged-refl n array)
  ]

  sort_round-Rearranged :
      (n rounds j : ℕ) (array : ℕ → A)
      → j + rounds < n
      → Rearranged n array (sort_round above rounds j array)
  unfolding sort_round
  sort_round-Rearranged n zero j array small = Rearranged-refl n array
  sort_round-Rearranged n (suc rounds) j array small =
      Rearranged-trans n array (ordered j array) (sort_round above rounds (j + 1) (ordered j array))
        (ordered-Rearranged n j array (omega arith))
        (sort_round-Rearranged n rounds (j + 1) (ordered j array) (omega arith))

  sort_rounds-Rearranged :
      (n i : ℕ) (array : ℕ → A) → i < n → Rearranged n array (sort_rounds above i array)
  unfolding sort_rounds
  sort_rounds-Rearranged n zero array small = Rearranged-refl n array
  sort_rounds-Rearranged n (suc i) array small =
      Rearranged-trans n array (sort_round above (suc i) 0 array)
        (sort_rounds above i (sort_round above (suc i) 0 array))
        (sort_round-Rearranged n (suc i) 0 array (omega arith))
        (sort_rounds-Rearranged n i (sort_round above (suc i) 0 array) (omega arith))

  -- The sort gives the first `n` in another order.
  pub bubble_sort-Rearranged :
      (n : ℕ) (array : ℕ → A) → Rearranged n array (bubble_sort above n array)
  unfolding sort_rounds
  bubble_sort-Rearranged zero array = Rearranged-refl zero array
  bubble_sort-Rearranged (suc n) array =
      sort_rounds-Rearranged (suc n) (suc n - 1) array (omega arith)

  module _ (total : (x y : A) → above x y ≡ true → above y x ≡ false)
      (trans : (x y z : A) → above x y ≡ false → above y z ≡ false → above x z ≡ false) where
    -- No earlier one is above it.
    abbrev Top : ℕ → (ℕ → A) → Type 0
    Top j array = (i : ℕ) → i < j → above (array i) (array j) ≡ false

    ordered-Top : (j : ℕ) (array : ℕ → A) → Top j array → Top (j + 1) (ordered j array)
    ordered-Top j array top i h = elim (Bool-cases (above (array j) (array (j + 1)))) [
      | inl c ↦
          let at_j : (j == j) ≡ true = ground arith in
          let not_j : (j + 1 == j) ≡ false = ground arith in
          let at_next : (j + 1 == j + 1) ≡ true = ground arith in
          elim (ℕ_discrete i j) [
            | yes same ↦ rw (c, same, at_j, not_j, at_next) (total (array j) (array (j + 1)) c)
            | no d ↦
                let i_j : (i == j) ≡ false = ground arith in
                let i_next : (i == j + 1) ≡ false = ground arith in
                rw (c, i_j, i_next, not_j, at_next) (top i (omega arith))
          ]
      | inr c ↦ rw c (elim (ℕ_discrete i j) [
        | yes same ↦ rw same c
        | no d ↦ trans (array i) (array j) (array (j + 1)) (top i (omega arith)) c
      ])
    ]

    sort_round-Top :
        (rounds j : ℕ) (array : ℕ → A)
        → Top j array
        → Top (j + rounds) (sort_round above rounds j array)
    unfolding sort_round
    sort_round-Top zero j array top =
        let z : j + zero ≡ j = omega arith in subst (λ m. Top m array) (sym z) top
    sort_round-Top (suc rounds) j array top =
        let z : j + 1 + rounds ≡ j + suc rounds = omega arith in
        subst (λ m. Top m (sort_round above rounds (j + 1) (ordered j array))) z
          (sort_round-Top rounds (j + 1) (ordered j array) (ordered-Top j array top))

    -- From `i` on each is at the top of those before it.
    abbrev Tail : ℕ → ℕ → (ℕ → A) → Type 0
    Tail i n array = (q : ℕ) → i < q → q < n → Top q array

    sort_round-Tail :
        (n i : ℕ) (array : ℕ → A)
        → Tail (suc i) n array
        → Tail i n (sort_round above (suc i) 0 array)
    sort_round-Tail n i array tail q h l p before = elim (ℕ_discrete q (suc i)) [
      | yes last ↦
          let zero_plus : 0 + suc i ≡ q = omega arith in
          subst (λ m. Top m (sort_round above (suc i) 0 array)) zero_plus
            (sort_round-Top (suc i) 0 array (λ x y. absurd (omega arith))) p before
      | no d ↦
          let v = sort_round-Rearranged (suc i + 1) (suc i) 0 array (omega arith) in
          let at_q : sort_round above (suc i) 0 array q ≡ array q =
            v.same q ∙ ap array (v.beyond q (omega arith)) in
          let small : v.place p < q = elim (dec_lt p (suc i + 1)) [
            | yes few ↦ omega (arith, v.inside p few)
            | no many ↦ omega (arith, v.beyond p (omega arith))
          ] in
          rw (v.same p, at_q) (tail q (omega arith) l (v.place p) small)
    ]

    sort_rounds-Tail :
        (n i : ℕ) (array : ℕ → A) → Tail i n array → Tail 0 n (sort_rounds above i array)
    unfolding sort_rounds
    sort_rounds-Tail n zero array tail = tail
    sort_rounds-Tail n (suc i) array tail =
        sort_rounds-Tail n i (sort_round above (suc i) 0 array) (sort_round-Tail n i array tail)

    -- After the sort none of the first `n` is above a later one.
    pub bubble_sort_ordered :
        (n i j : ℕ) (array : ℕ → A)
        → i < j
        → j < n
        → above (bubble_sort above n array i) (bubble_sort above n array j) ≡ false
    bubble_sort_ordered n i j array h l =
        sort_rounds-Tail n (n - 1) array (λ q a b. absurd (omega arith)) j (omega arith) l i h
