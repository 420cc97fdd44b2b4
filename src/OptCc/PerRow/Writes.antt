-- ===== src/OptCc/PerRow/Writes.antt =====
-- The writes of a transaction that has passed its validation (occ.cpp, row_occ.cpp).
use dbx1000_bskiplist.Base.{
  ℕ, zero, suc, ◌≡◌, ◌≢◌, ◌<◌, true, false, refl, arith, inl, inr, ◌∙◌, sym, subst, some, ◌==◌, ltb,
  Bool-cases, ℕ_discrete, if◌then◌else◌,
}
use dbx1000_bskiplist.Vll.{Access}
use dbx1000_bskiplist.OptCc.{is_write}
use dbx1000_bskiplist.OptCc.PerRow.{write_rows}

-- The transaction writes the row by one of the first `n` accesses.
abbrev pub Writes : ℕ → (ℕ → Access) → ℕ → Type 0
Writes n accesses row =
    (i : ℕ) × (i < n) × (is_write (accesses i).type ≡ true) × ((accesses i).orig_row ≡ row)

-- The rows written have the new timestamp, and the others their own.
pub record Stamped (n : ℕ) (accesses : ℕ → Access) (end_ts : ℕ) (wts after : ℕ → ℕ) : Type 0 where
  pub written : (row : ℕ) → Writes n accesses row → after row ≡ end_ts
  pub kept : (row : ℕ) → (Writes n accesses row → ⊥) → after row ≡ wts row

module _ (accesses : ℕ → Access) (end_ts : ℕ) where
  write_rows_skip :
      (n : ℕ) (wts : ℕ → ℕ)
      → is_write (accesses n).type ≡ false
      → write_rows (suc n) accesses end_ts wts ≡ write_rows n accesses end_ts wts
  unfolding write_rows
  write_rows_skip n wts c = rw c refl

  stamp : ℕ → (ℕ → ℕ) → (ℕ → ℕ)
  stamp n wts r = if r == (accesses n).orig_row then end_ts else wts r

  write_rows_write :
      (n : ℕ) (wts : ℕ → ℕ)
      → is_write (accesses n).type ≡ true
      → ltb (wts (accesses n).orig_row) end_ts ≡ true
      → write_rows (suc n) accesses end_ts wts ≡ write_rows n accesses end_ts (stamp n wts)
  unfolding write_rows stamp
  write_rows_write n wts c d = rw (c, d) refl

  stamp_here : (n : ℕ) (wts : ℕ → ℕ) (r : ℕ) → (accesses n).orig_row ≡ r → stamp n wts r ≡ end_ts
  unfolding stamp
  stamp_here n wts r same = let c : (r == (accesses n).orig_row) ≡ true = ground arith in rw c refl

  stamp_other : (n : ℕ) (wts : ℕ → ℕ) (r : ℕ) → (accesses n).orig_row ≢ r → stamp n wts r ≡ wts r
  unfolding stamp
  stamp_other n wts r d = let c : (r == (accesses n).orig_row) ≡ false = ground arith in rw c refl

  -- On different rows with older timestamps no assertion fails.
  pub write_rows-Stamped :
      (n : ℕ) (wts : ℕ → ℕ)
      → ((i j : ℕ) → i < j → j < n → (accesses i).orig_row ≢ (accesses j).orig_row)
      → ((i : ℕ) → i < n → wts (accesses i).orig_row < end_ts)
      → (after : ℕ → ℕ) × (write_rows n accesses end_ts wts ≡ some after)
        × Stamped n accesses end_ts wts after
  unfolding write_rows
  write_rows-Stamped zero wts distinct older = (
    wts,
    refl,
    record { written = λ row w. absurd (omega (arith, w.1)); kept = λ row none. refl },
  )
  write_rows-Stamped (suc n) wts distinct older = elim (Bool-cases (is_write (accesses n).type)) [
    | inr c ↦
        let (after, run, v) =
          write_rows-Stamped n wts (λ i j h l. distinct i j h (omega arith))
            (λ i h. older i (omega arith)) in
        (
          after,
          write_rows_skip n wts c ∙ run,
          record {
            written = λ row (i, h, is, same). elim (ℕ_discrete i n) [
              | yes e ↦
                  let is' = subst (λ x. is_write (accesses x).type ≡ true) e is in
                  absurd (ground arith)
              | no d ↦ v.written row (i, omega arith, is, same)
            ];
            kept = λ row none. v.kept row (λ (i, h, is, same). none (i, omega arith, is, same));
          },
        )
    | inl c ↦
        let row_n = (accesses n).orig_row in
        let (after, run, v) =
          write_rows-Stamped n (stamp n wts) (λ i j h l. distinct i j h (omega arith))
            (λ i h.
              let other =
                stamp_other n wts (accesses i).orig_row
                  (λ e. distinct i n h (omega arith) (sym e)) in
              omega (arith, older i (omega arith))) in
        let last : after row_n ≡ end_ts =
          v.kept row_n (λ (i, h, is, same). distinct i n h (omega arith) same)
          ∙ stamp_here n wts row_n refl in
        (
          after,
          write_rows_write n wts c (let o = older n (omega arith) in ground arith) ∙ run,
          record {
            written = λ row (i, h, is, same). elim (ℕ_discrete i n) [
              | yes e ↦
                  let here = subst (λ x. (accesses x).orig_row ≡ row) e same in
                  subst (λ r. after r ≡ end_ts) here last
              | no d ↦ v.written row (i, omega arith, is, same)
            ];
            kept = λ row none.
                v.kept row (λ (i, h, is, same). none (i, omega arith, is, same))
                ∙ stamp_other n wts row (λ e. none (n, omega arith, c, e));
          },
        )
  ]
