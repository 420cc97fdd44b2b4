-- ===== src/OptCc/Validity.antt =====
-- What the comparisons of central_validate find (occ.cpp).
use dbx1000_bskiplist.Base.{
  ℕ, List, [], ◌∷◌, if◌then◌else◌, ◌≡◌, ◌≢◌, ◌↔◌, arith, All, true, Bool-cases, inl, inr, ltb, ◌<◌,
  ◌≤◌, refl, ◌+◌,
}
use dbx1000_bskiplist.OptCc.{
  SetEnt, Validation, misses, test_valid, skip_later, test_history, test_active, check,
}

-- No row is in both lists.
abbrev pub Disjoint : List ℕ → List ℕ → Type 0
Disjoint xs ys = All (λ x. All (λ y. x ≢ y) ys) xs

misses_lem : (x : ℕ) (ys : List ℕ) → (misses x ys ≡ true) ↔ All (λ y. x ≢ y) ys
unfolding misses
misses_lem x [] = (λ h. tt, λ h. refl)
misses_lem x (y ∷ ys) = ground (arith, misses_lem x ys)

pub test_valid-Disjoint : (xs ys : List ℕ) → (test_valid xs ys ≡ true) ↔ Disjoint xs ys
unfolding test_valid
test_valid-Disjoint [] ys = (λ h. tt, λ h. refl)
test_valid-Disjoint (x ∷ xs) ys = ground (arith, misses_lem x ys, test_valid-Disjoint xs ys)

-- The transaction numbers fall from each set to the next.
abbrev pub Falling : ℕ → List SetEnt → Type 0
Falling n [] = Unit
Falling n (h ∷ hs) = (h.tn < n) × Falling h.tn hs

-- The sets committed after `start` and up to `finish` do not meet the rows.
abbrev pub Between : ℕ → ℕ → List ℕ → SetEnt → Type 0
Between start finish rset h = start < h.tn → h.tn ≤ finish → Disjoint h.rows rset

old_enough :
    (start finish n : ℕ) (rset : List ℕ) (hs : List SetEnt)
    → Falling n hs
    → n ≤ start + 1
    → All (Between start finish rset) hs
old_enough start finish n rset [] f low = tt
old_enough start finish n rset (h ∷ hs) f low = (
  λ a b. absurd (omega (arith, f.0)),
  old_enough start finish h.tn rset hs f.1 (omega (arith, f.0)),
)

test_history_lem :
    (start finish n : ℕ) (rset : List ℕ) (hs : List SetEnt)
    → Falling n hs
    → n ≤ finish + 1
    → (test_history start rset hs ≡ true) ↔ All (Between start finish rset) hs
unfolding test_history
test_history_lem start finish n rset [] f low = (λ h. tt, λ h. refl)
test_history_lem start finish n rset (h ∷ hs) f low = elim (Bool-cases (ltb start h.tn)) [
  | inr c ↦
      let old = old_enough start finish h.tn rset hs f.1 (ground arith) in
      (λ k. (λ a b. absurd (ground arith), old), λ k. rw c refl)
  | inl c ↦
      let rest = test_history_lem start finish h.tn rset hs f.1 (omega (arith, f.0)) in
      let here = test_valid-Disjoint h.rows rset in
      elim (Bool-cases (test_valid h.rows rset)) [
        | inl d ↦ (λ k. (λ a b. here.0 d, rest.0 (rw (c, d) at k)), λ k. rw (c, d) (rest.1 k.1))
        | inr d ↦ (
          λ k. absurd (let false_true = rw (c, d) at k in cc),
          λ k. let hit = here.1 (k.0 (ground arith) (omega (arith, f.0))) in cc,
        )
      ]
]

test_active_lem :
    (rset wset : List ℕ) (bs : List SetEnt)
    → (test_active rset wset bs ≡ true) ↔ All (λ a. Disjoint a.rows rset × Disjoint a.rows wset) bs
unfolding test_active
test_active_lem rset wset [] = (λ h. tt, λ h. refl)
test_active_lem rset wset (a ∷ bs) = ground (
  arith,
  test_active_lem rset wset bs,
  test_valid-Disjoint a.rows rset,
  test_valid-Disjoint a.rows wset,
)

skip_later_lem :
    (start finish n : ℕ) (rset : List ℕ) (hs : List SetEnt)
    → Falling n hs
    → Falling (finish + 1) (skip_later finish hs)
      × (All (Between start finish rset) (skip_later finish hs)
          ↔ All (Between start finish rset) hs)
unfolding skip_later
skip_later_lem start finish n rset [] f = (tt, (λ h. h, λ h. h))
skip_later_lem start finish n rset (h ∷ hs) f = elim (Bool-cases (ltb finish h.tn)) [
  | inr c ↦ rw c ((ground arith, f.1), (λ k. k, λ k. k))
  | inl c ↦
      let (falls, iff) = skip_later_lem start finish h.tn rset hs f.1 in
      rw c (falls, (λ k. (λ a b. absurd (ground arith), iff.0 k), λ k. iff.1 k.1))
]

empty_range :
    (start finish : ℕ) (rset : List ℕ) (hs : List SetEnt)
    → finish ≤ start
    → All (Between start finish rset) hs
empty_range start finish rset [] e = tt
empty_range start finish rset (h ∷ hs) e =
    (λ a b. absurd (omega arith), empty_range start finish rset hs e)

-- A validation succeeds exactly when no set committed in its range meets its reads, and no set that
-- was active when it began meets its reads or its writes.
pub record IsValid (v : Validation) : Type 0 where
  pub committed : All (Between v.start_tn v.finish_tn v.rset) v.his
  pub concurrent : All (λ a. Disjoint a.rows v.rset × Disjoint a.rows v.wset) v.finish_active

history_lem :
    (v : Validation) (n : ℕ)
    → Falling n v.his
    → ((if ltb v.start_tn v.finish_tn
          then test_history v.start_tn v.rset (skip_later v.finish_tn v.his)
          else true)
        ≡ true)
      ↔ All (Between v.start_tn v.finish_tn v.rset) v.his
history_lem v n f = elim (Bool-cases (ltb v.start_tn v.finish_tn)) [
  | inr c ↦
      let none_between = empty_range v.start_tn v.finish_tn v.rset v.his (ground arith) in
      (λ k. none_between, λ k. rw c refl)
  | inl c ↦
      let (falls, iff) = skip_later_lem v.start_tn v.finish_tn n v.rset v.his f in
      let test =
        test_history_lem v.start_tn v.finish_tn (v.finish_tn + 1) v.rset
          (skip_later v.finish_tn v.his) falls (omega arith) in
      (λ k. iff.0 (test.0 (rw c at k)), λ k. rw c (test.1 (iff.1 k)))
]

-- central_validate's comparisons pass exactly for a validation that is valid.
pub check-IsValid : (v : Validation) (n : ℕ) → Falling n v.his → (check v ≡ true) ↔ IsValid v
unfolding check
check-IsValid v n f =
    let h = history_lem v n f in
    let a = test_active_lem v.rset v.wset v.finish_active in
    (
      λ k. record { committed = h.0 (ground arith); concurrent = a.0 (ground arith) },
      λ k. let x = h.1 k.committed in let y = a.1 k.concurrent in rw (x, y) refl,
    )
