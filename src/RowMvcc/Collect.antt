-- ===== src/RowMvcc/Collect.antt =====
-- Taking versions out: the garbage collection, and the recycling of the oldest (row_mvcc.cpp).
use dbx1000_bskiplist.RowMvcc.Versions.{one_if, count_valid, count_update, count_bound, entry_at}
use dbx1000_bskiplist.RowMvcc.Reserve.{drop_versions}
use dbx1000_bskiplist.Base.{
  dec32, ◌≢◌, ◌∙◌, ap, some, ◌==◌, ℕ, zero, suc, ◌+◌, ◌≡◌, ◌<◌, ◌≤◌, true, ◌&&◌, inl, inr, ◌⊎◌,
  arith, if◌then◌else◌, ℕ_discrete, refl, sym, subst, ltb, Bool-cases, leb, false,
}
use dbx1000_bskiplist.RowTs.{update}
use dbx1000_bskiplist.RowMvcc.{WriteHisEntry, newest_below, RowMvcc}

-- The newest version below a bound, of the first `n`, or none.
abbrev pub Newest : (ℕ → WriteHisEntry) → ℕ → ℕ → ℕ → ℕ × ℕ → Type 0
Newest h bound len n (best, idx) =
    (((idx ≡ len) × (best ≡ 0))
      ⊎ ((idx < n) × ((h idx).valid ≡ true) × ((h idx).ts ≡ best) × (best < bound)))
    × ((i : ℕ) → i < n → (h i).valid ≡ true → (h i).ts < bound → (h i).ts ≤ best)

pub newest_below-Newest :
    (keep : ℕ → ℕ) (h : ℕ → WriteHisEntry) (bound len rounds i best idx : ℕ)
    → ((j : ℕ) → (h j).valid ≡ true → j < i + rounds → keep (h j).ts ≡ (h j).ts)
    → Newest h bound len i (best, idx)
    → Newest h bound len (i + rounds) (newest_below keep h bound rounds i best idx)
unfolding newest_below
newest_below-Newest keep h bound len zero i best idx fits v =
    let z : i ≡ i + 0 = omega arith in subst (λ n. Newest h bound len n (best, idx)) z v
newest_below-Newest keep h bound len (suc rounds) i best idx fits (which, upto) =
    let z : i + 1 + rounds ≡ i + suc rounds = omega arith in
    let better = (h i).valid && ltb (h i).ts bound && ltb best (h i).ts in
    elim (Bool-cases better) [
      | inl c ↦
          let valid : (h i).valid ≡ true = ground arith in
          let under : (h i).ts < bound = ground arith in
          let above : best < (h i).ts = ground arith in
          let same = fits i valid (omega arith) in
          subst
            (λ n. Newest h bound len n (
              newest_below keep h bound rounds (i + 1) (if better then keep (h i).ts else best)
                (if better then i else idx)))
            z
            (rw (c, same)
              (newest_below-Newest keep h bound len rounds (i + 1) (h i).ts i
                (λ j is l. fits j is (omega arith))
                (
                  inr (omega arith, valid, refl, under),
                  λ j l is b. elim (ℕ_discrete j i) [
                    | yes e ↦ rw e (omega arith)
                    | no d ↦ omega (arith, upto j (omega arith) is b)
                  ],
                )))
      | inr c ↦
          subst
            (λ n. Newest h bound len n (
              newest_below keep h bound rounds (i + 1) (if better then keep (h i).ts else best)
                (if better then i else idx)))
            z
            (rw c (
              newest_below-Newest keep h bound len rounds (i + 1) best idx
                (λ j is l. fits j is (omega arith))
                (
                  elim which [
                    | inl none_yet ↦ inl none_yet
                    | inr (l, is, at, under) ↦ inr (omega arith, is, at, under)
                  ],
                  λ j l is b. elim (ℕ_discrete j i) [
                    | yes e ↦
                        let is' = subst (λ k. (h k).valid ≡ true) e is in
                        let b' = subst (λ k. (h k).ts < bound) e b in
                        subst (λ k. (h k).ts ≤ best) (sym e) (ground arith)
                    | no d ↦ upto j (omega arith) is b
                  ],
                )))
    ]

-- What the second loop of the collection leaves of an entry.
abbrev pub gone : ℕ → WriteHisEntry → WriteHisEntry
gone wts e = if e.valid && leb e.ts wts then record e { valid = false; reserved = false } else e

module _ {D : Type 0} where
  drop_step :
      (rounds i wts : ℕ) (s : RowMvcc D)
      → ((entry_at s i).valid && leb (entry_at s i).ts wts) ≡ true
      → (entry_at s i).row ≢ 0
      → drop_versions (suc rounds) i wts s
        ≡ drop_versions rounds (i + 1) wts (record s {
          write_history =
              update s.write_history i (record (entry_at s i) { valid = false; reserved = false });
          num_versions = dec32 s.num_versions;
        })
  unfolding drop_versions
  drop_step rounds i wts s c row =
      let d : ((entry_at s i).row == 0) ≡ false = ground arith in rw (c, d) refl

  keep_step :
      (rounds i wts : ℕ) (s : RowMvcc D)
      → ((entry_at s i).valid && leb (entry_at s i).ts wts) ≡ false
      → drop_versions (suc rounds) i wts s ≡ drop_versions rounds (i + 1) wts s
  unfolding drop_versions
  keep_step rounds i wts s c = rw c refl

  -- Each entry that the loop comes by is as `gone` says, and the count of versions is right.
  abbrev pub Dropped : ℕ → ℕ → ℕ → RowMvcc D → (ℕ → WriteHisEntry) → ℕ → Type 0
  Dropped from to wts s h n =
      ((j : ℕ) → from ≤ j → j < to → h j ≡ gone wts (entry_at s j))
      × ((j : ℕ) → j < from → h j ≡ entry_at s j)
      × ((j : ℕ) → to ≤ j → h j ≡ entry_at s j)
      × (n ≡ count_valid h s.his_len)

  pub drop_versions-Dropped :
      (rounds i wts : ℕ) (s : RowMvcc D)
      → i + rounds ≤ s.his_len
      → s.his_len < 2147483648
      → s.num_versions ≡ count_valid s.write_history s.his_len
      → ((j : ℕ) → j < s.his_len → (entry_at s j).valid ≡ true → (entry_at s j).row ≢ 0)
      → (h : ℕ → WriteHisEntry) × (n : ℕ) × (drop_versions rounds i wts s
          ≡ some (record s { write_history = h; num_versions = n }))
        × Dropped i (i + rounds) wts s h n
  unfolding drop_versions
  drop_versions-Dropped zero i wts s fits small count rows = (
    s.write_history,
    s.num_versions,
    refl,
    (λ j l m. absurd (omega arith), λ j l. refl, λ j l. refl, count),
  )
  drop_versions-Dropped (suc rounds) i wts s fits small count rows =
      elim (Bool-cases ((entry_at s i).valid && leb (entry_at s i).ts wts)) [
        | inr c ↦
            let (h, n, run, (here, before, after, counted)) =
              drop_versions-Dropped rounds (i + 1) wts s (omega arith) small count rows in
            (
              h,
              n,
              keep_step rounds i wts s c ∙ run,
              (
                λ j l m. elim (ℕ_discrete j i) [
                  | yes e ↦
                      let same : gone wts (entry_at s i) ≡ entry_at s i = rw c refl in
                      subst (λ k. h k ≡ gone wts (entry_at s k)) (sym e)
                        (before i (omega arith) ∙ sym same)
                  | no d ↦ here j (omega arith) (omega arith)
                ],
                λ j l. before j (omega arith),
                λ j l. after j (omega arith),
                counted,
              ),
            )
        | inl c ↦
            let valid : (entry_at s i).valid ≡ true = ground arith in
            let e' : WriteHisEntry = record (entry_at s i) { valid = false; reserved = false } in
            let s' = record s {
              write_history = update s.write_history i e';
              num_versions = dec32 s.num_versions;
            } in
            let changed = count_update s.write_history i e' s.his_len (omega arith) in
            let one : count_valid (update s.write_history i e') s.his_len + 1
                ≡ count_valid s.write_history s.his_len =
              let lost : one_if (entry_at s i).valid ≡ 1 = rw valid refl in omega arith in
            let other : (j : ℕ) → j ≢ i → update s.write_history i e' j ≡ entry_at s j =
              λ j d. let t : (j == i) ≡ false = ground arith in rw t refl in
            let at_i : update s.write_history i e' i ≡ e' =
              let t : (i == i) ≡ true = ground arith in rw t refl in
            let (h, n, run, (here, before, after, counted)) =
              drop_versions-Dropped rounds (i + 1) wts s' (omega arith) small
                (let few = (count_bound s.write_history s.his_len).0 in omega arith)
                (λ j l is. elim (ℕ_discrete j i) [
                  | yes e ↦
                      let is' : e'.valid ≡ true =
                        subst (λ (w : WriteHisEntry). w.valid ≡ true) at_i
                          (subst (λ k. (update s.write_history i e' k).valid ≡ true) e is) in
                      absurd (cc)
                  | no d ↦
                      subst (λ (w : WriteHisEntry). w.row ≢ 0) (sym (other j d))
                        (rows j l (subst (λ (w : WriteHisEntry). w.valid ≡ true) (other j d) is))
                ]) in
            (
              h,
              n,
              drop_step rounds i wts s c (rows i (omega arith) valid) ∙ run,
              (
                λ j l m. elim (ℕ_discrete j i) [
                  | yes e ↦
                      let same : gone wts (entry_at s i) ≡ e' = rw c refl in
                      subst (λ k. h k ≡ gone wts (entry_at s k)) (sym e)
                        (before i (omega arith) ∙ at_i ∙ sym same)
                  | no d ↦ here j (omega arith) (omega arith) ∙ ap (gone wts) (other j d)
                ],
                λ j l. before j (omega arith) ∙ other j (λ e. absurd (omega arith)),
                λ j l. after j (omega arith) ∙ other j (λ e. absurd (omega arith)),
                counted,
              ),
            )
      ]
