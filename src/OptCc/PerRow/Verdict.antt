-- ===== src/OptCc/PerRow/Verdict.antt =====
-- What per_row_validate decides, and what it leaves (occ.cpp).
use dbx1000_bskiplist.Base.{
  ℕ, zero, suc, ◌+◌, ◌≡◌, ◌≢◌, ◌<◌, ◌≤◌, Bool, true, false, refl, arith, inl, inr, ◌⊎◌, ◌∙◌, sym,
  subst, ap, some, ltb, Bool-cases, ℕ_discrete, dec_lt,
}
use dbx1000_bskiplist.RowLock.{rc_ok, abort}
use dbx1000_bskiplist.Vll.{Access}
use dbx1000_bskiplist.OptCc.{is_write}
use dbx1000_bskiplist.BubbleSort.{bubble_sort}
use dbx1000_bskiplist.BubbleSort.Order.{Rearranged, bubble_sort-Rearranged}
use dbx1000_bskiplist.OptCc.PerRow.{latch_rows, write_rows, row_above, per_row_validate}
use dbx1000_bskiplist.OptCc.PerRow.Writes.{Stamped, write_rows-Stamped}

module _ (wts : ℕ → ℕ) (start_ts : ℕ) (accesses : ℕ → Access) where
  abbrev row_ts : ℕ → ℕ
  row_ts i = wts (accesses i).orig_row

  -- It passes when no row has been written since the start, and stops at one that has.
  abbrev Verdict : ℕ → ℕ → Bool → Type 0
  Verdict from to ok =
      ((ok ≡ true) × ((i : ℕ) → from ≤ i → i < to → row_ts i ≤ start_ts))
      ⊎ ((ok ≡ false) × ((i : ℕ) × (from ≤ i) × (i < to) × (start_ts < row_ts i)))

  latch_rows-Verdict :
      (rounds i : ℕ) → Verdict i (i + rounds) (latch_rows wts start_ts accesses rounds i).1
  unfolding latch_rows
  latch_rows-Verdict zero i = inl (refl, λ j h l. absurd (omega arith))
  latch_rows-Verdict (suc rounds) i = elim (Bool-cases (ltb start_ts (row_ts i))) [
    | inl c ↦ rw c (inr (refl, (i, omega arith, omega arith, ground arith)))
    | inr c ↦ rw c (elim (latch_rows-Verdict rounds (i + 1)) [
      | inl (ok, old) ↦ inl (
        ok,
        λ j h l. elim (ℕ_discrete j i) [
          | yes e ↦ rw e (ground arith)
          | no d ↦ old j (omega arith) (omega arith)
        ],
      )
      | inr (bad, (j, h, l, young)) ↦ inr (bad, (j, omega arith, omega arith, young))
    ])
  ]

-- Rows that differ before a rearrangement differ after it.
still_apart :
    (n : ℕ) (x y : ℕ → Access)
    → Rearranged n x y
    → ((i j : ℕ) → i < j → j < n → (x i).orig_row ≢ (x j).orig_row)
    → (i j : ℕ) → i < j
    → j < n
    → (y i).orig_row ≢ (y j).orig_row
still_apart n x y v distinct i j h l same =
    let row = λ (a : Access). a.orig_row in
    let same' : (x (v.place i)).orig_row ≡ (x (v.place j)).orig_row =
      sym (ap row (v.same i)) ∙ same ∙ ap row (v.same j) in
    elim (dec_lt (v.place i) (v.place j)) [
      | yes less ↦ distinct (v.place i) (v.place j) less (v.inside j l) same'
      | no more ↦ elim (ℕ_discrete (v.place i) (v.place j)) [
        | yes e ↦ let e' : i ≡ j = sym (v.here i) ∙ ap v.back e ∙ v.here j in absurd (omega arith)
        | no d ↦
            distinct (v.place j) (v.place i) (omega arith) (v.inside i (omega arith)) (sym same')
      ]
    ]

Rearranged-Stamped :
    (n end_ts : ℕ) (x y : ℕ → Access) (wts after : ℕ → ℕ)
    → Rearranged n x y
    → Stamped n y end_ts wts after
    → Stamped n x end_ts wts after
Rearranged-Stamped n end_ts x y wts after v w = record {
  written = λ row (i, h, is, same).
      let at : y (v.back i) ≡ x i = v.same (v.back i) ∙ ap x (v.there i) in
      w.written row (
        v.back i,
        v.back_inside i h,
        subst (λ a. is_write a.type ≡ true) (sym at) is,
        ap (λ (a : Access). a.orig_row) at ∙ same,
      );
  kept = λ row none. w.kept row (λ (i, h, is, same). none (
    v.place i,
    v.inside i h,
    subst (λ a. is_write a.type ≡ true) (v.same i) is,
    ap (λ (a : Access). a.orig_row) (sym (v.same i)) ∙ same,
  ));
}

module _ (name_above same_name : ℕ → ℕ → Bool) (table primary_key : ℕ → ℕ) where
  abbrev sorted : ℕ → (ℕ → Access) → (ℕ → Access)
  sorted n accesses = bubble_sort (row_above name_above same_name table primary_key) n accesses

  validate_passed :
      (n : ℕ) (accesses : ℕ → Access) (start_ts end_ts : ℕ) (wts after : ℕ → ℕ)
      → (latch_rows wts start_ts (sorted n accesses) n 0).1 ≡ true
      → write_rows n (sorted n accesses) end_ts wts ≡ some after
      → per_row_validate name_above same_name table primary_key n accesses start_ts end_ts wts
        ≡ some (rc_ok, after)
  unfolding per_row_validate
  validate_passed n accesses start_ts end_ts wts after ok run = rw (ok, run) refl

  validate_failed :
      (n : ℕ) (accesses : ℕ → Access) (start_ts end_ts : ℕ) (wts : ℕ → ℕ)
      → (latch_rows wts start_ts (sorted n accesses) n 0).1 ≡ false
      → per_row_validate name_above same_name table primary_key n accesses start_ts end_ts wts
        ≡ some (abort, wts)
  unfolding per_row_validate
  validate_failed n accesses start_ts end_ts wts bad = rw bad refl

  -- For accesses to different rows, with an end timestamp above those of the rows, no assertion
  -- fails. If no row accessed was written after the transaction's start, it commits, and the rows it
  -- writes get its end timestamp, and no other row changes; otherwise it aborts and no row changes.
  pub per_row_validate_total :
      (n : ℕ) (accesses : ℕ → Access) (start_ts end_ts : ℕ) (wts : ℕ → ℕ)
      → ((i j : ℕ) → i < j → j < n → (accesses i).orig_row ≢ (accesses j).orig_row)
      → ((row : ℕ) → wts row < end_ts)
      → (((i : ℕ) → i < n → wts (accesses i).orig_row ≤ start_ts)
          × ((after : ℕ → ℕ) × (per_row_validate name_above same_name table primary_key n accesses
                  start_ts end_ts wts
                ≡ some (rc_ok, after))
              × Stamped n accesses end_ts wts after))
        ⊎ (((i : ℕ) × (i < n) × (start_ts < wts (accesses i).orig_row))
            × (per_row_validate name_above same_name table primary_key n accesses start_ts end_ts
                  wts
                ≡ some (abort, wts)))
  per_row_validate_total n accesses start_ts end_ts wts distinct older =
      let order =
        bubble_sort-Rearranged (row_above name_above same_name table primary_key) n accesses in
      elim (latch_rows-Verdict wts start_ts (sorted n accesses) n 0) [
        | inl (ok, old) ↦
            let (after, run, stamped) =
              write_rows-Stamped (sorted n accesses) end_ts n wts
                (still_apart n accesses (sorted n accesses) order distinct)
                (λ i h. older (sorted n accesses i).orig_row) in
            inl (
              λ i h.
                  let at = order.same (order.back i) ∙ ap accesses (order.there i) in
                  subst (λ (a : Access). wts a.orig_row ≤ start_ts) at
                    (old (order.back i) (omega arith) (omega (arith, order.back_inside i h))),
              (
                after,
                validate_passed n accesses start_ts end_ts wts after ok run,
                Rearranged-Stamped n end_ts accesses (sorted n accesses) wts after order stamped,
              ),
            )
        | inr (bad, (i, _, h, young)) ↦ inr (
          (
            order.place i,
            order.inside i (omega arith),
            subst (λ (a : Access). start_ts < wts a.orig_row) (order.same i) young,
          ),
          validate_failed n accesses start_ts end_ts wts bad,
        )
      ]
