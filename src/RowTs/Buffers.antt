-- ===== src/RowTs/Buffers.antt =====
-- The buffers of Row_ts: their minimum, what debuffer_req takes out, and what it leaves.
use dbx1000_bskiplist.Run.{done}
use dbx1000_bskiplist.Base.{
  ℕ, suc, ◌+◌, arith, List, ◌∷◌, ◌<◌, ◌≤◌, ◌≡◌, All, false, if◌then◌else◌, [], ap, true, ◌∙◌, leb,
  ◌==◌, refl, length, Bool-cases, inl, inr,
}
use dbx1000_bskiplist.RowTs.{
  Req, min_from, cal_min, taken, remove_txn, left, at_most, is_nil, uint64_max,
}

module _ {D : Type 0} where
  -- How many requests of the transaction are in the list.
  abbrev pub count : ℕ → List (Req D) → ℕ
  count a [] = 0
  count a (q ∷ qs) = let rest = count a qs in if q.txn == a then suc rest else rest

  min_from-at_most :
      (m t : ℕ) (qs : List (Req D)) → min_from (at_most m t) qs ≡ at_most (min_from m qs) t
  unfolding min_from
  min_from-at_most m t [] = refl
  min_from-at_most m t (q ∷ qs) =
      let swap : at_most (at_most m t) q.ts ≡ at_most (at_most m q.ts) t = ground arith in
      ap (λ x. min_from x qs) swap ∙ min_from-at_most (at_most m q.ts) t qs

  pub cal_min-cons : (q : Req D) (qs : List (Req D)) → cal_min (q ∷ qs) ≡ at_most (cal_min qs) q.ts
  unfolding cal_min
  cal_min-cons q qs = min_from-at_most uint64_max q.ts qs

  pub cal_min-left : (t : ℕ) (qs : List (Req D)) → cal_min qs ≤ cal_min (left t qs)
  unfolding left
  cal_min-left t [] = omega arith
  cal_min-left t (q ∷ qs) =
      ground (arith, cal_min-cons q qs, cal_min-cons q (left t qs), cal_min-left t qs)

  pub left_above : (t : ℕ) (qs : List (Req D)) → All (λ q. t < q.ts) (left t qs)
  unfolding left
  left_above t [] = tt
  left_above t (q ∷ qs) = ground (arith, left_above t qs)

  pub count-taken :
      (a t : ℕ) (acc qs : List (Req D))
      → count a (taken t acc qs) + count a (left t qs) ≡ count a acc + count a qs
  unfolding taken left
  count-taken a t acc [] = refl
  count-taken a t acc (q ∷ qs) =
      ground (arith, count-taken a t (if leb q.ts t then q ∷ acc else acc) qs)

  is_nil-taken :
      (t : ℕ) (acc qs : List (Req D)) → is_nil acc ≡ false → is_nil (taken t acc qs) ≡ false
  unfolding taken
  is_nil-taken t acc [] h = h
  is_nil-taken t acc (q ∷ qs) h =
      is_nil-taken t (if leb q.ts t then q ∷ acc else acc) qs (ground arith)

  -- If nothing was taken, all the requests are above.
  pub none_taken :
      (t : ℕ) (qs : List (Req D)) → is_nil (taken t [] qs) ≡ true → All (λ q. t < q.ts) qs
  unfolding taken
  none_taken t [] h = tt
  none_taken t (q ∷ qs) h = elim (Bool-cases (leb q.ts t)) [
    | inl c ↦ let kept = is_nil-taken t (q ∷ []) qs refl in let gone = rw c at h in cc
    | inr c ↦ (ground arith, none_taken t qs (rw c at h))
  ]

  pub length_pos : (qs : List (Req D)) → is_nil qs ≡ false → 0 < length qs
  length_pos [] h = cc
  length_pos (q ∷ qs) h = omega arith

  module _ (P : Req D → Type 0) where
    pub All-taken : (t : ℕ) (acc qs : List (Req D)) → All P acc → All P qs → All P (taken t acc qs)
    unfolding taken
    All-taken t acc [] h k = h
    All-taken t acc (q ∷ qs) h k =
        All-taken t (if leb q.ts t then q ∷ acc else acc) qs (ground arith) k.1

    pub All-left : (t : ℕ) (qs : List (Req D)) → All P qs → All P (left t qs)
    unfolding left
    All-left t [] k = tt
    All-left t (q ∷ qs) k = ground (arith, All-left t qs k.1)

  -- The removal of one request of a transaction that has one.
  pub remove_txn_total :
      (a : ℕ) (qs : List (Req D))
      → 0 < count a qs
      → (r : List (Req D)) × (remove_txn a qs ≡ done r)
        × (cal_min qs ≤ cal_min r)
        × ((b : ℕ) → count b qs ≡ count b r + (if a == b then 1 else 0))
        × (length qs ≡ suc (length r))
  unfolding remove_txn
  remove_txn_total a [] h = absurd (omega arith)
  remove_txn_total a (q ∷ qs) h = elim (Bool-cases (q.txn == a)) [
    | inl c ↦ (qs, rw c, ground (arith, cal_min-cons q qs), λ b. ground arith, refl)
    | inr c ↦
        let (r, run, low, counts, len) = remove_txn_total a qs (ground arith) in
        (
          q ∷ r,
          rw (c, run),
          ground (arith, cal_min-cons q qs, cal_min-cons q r),
          λ b. ground (arith, counts b),
          omega arith,
        )
  ]
