-- ===== src/RowMvcc/Swap.antt =====
-- The row of an old version becomes the base row (row_mvcc.cpp).
use dbx1000_bskiplist.Base.{
  ℕ, ◌≡◌, ◌≢◌, ◌<◌, ◌≤◌, true, inl, inr, arith, ℕ_discrete, dec_lt, refl, sym, ◌∙◌, subst,
}
use dbx1000_bskiplist.RowMvcc.{WriteHisEntry, RowMvcc}
use dbx1000_bskiplist.RowMvcc.Versions.{count_valid, Holds, Retains, History, entry_at}

module _ {D : Type 0} (s : RowMvcc D) (v : History s) (idx : ℕ) (in_len : idx < s.his_len)
    (valid : (entry_at s idx).valid ≡ true) where
  -- The versions above that one stay, and no others; its entry takes the old base row.
  pub record Swapped (h : ℕ → WriteHisEntry) (n : ℕ) : Type 0 where
    pub other_row : (j : ℕ) → j < s.his_len → j ≢ idx → (h j).row ≡ (entry_at s j).row
    pub own_row : (h idx).row ≡ s.row
    pub only :
        (j : ℕ)
        → j < s.his_len
        → (h j).valid ≡ true
        → (j ≢ idx)
          × ((entry_at s j).valid ≡ true)
          × ((h j).ts ≡ (entry_at s j).ts)
          × ((entry_at s idx).ts < (entry_at s j).ts)
    pub stay :
        (j : ℕ)
        → j < s.his_len
        → (entry_at s j).valid ≡ true
        → (entry_at s idx).ts < (entry_at s j).ts
        → ((h j).valid ≡ true) × ((h j).ts ≡ (entry_at s j).ts)
    pub counted : n ≡ count_valid h s.his_len

  abbrev pub swapped : (ℕ → WriteHisEntry) → ℕ → RowMvcc D
  swapped h n = record s {
    row = (entry_at s idx).row;
    write_history = h;
    oldest_wts = (entry_at s idx).ts;
    num_versions = n;
  }

  pub swapped-Retains : (h : ℕ → WriteHisEntry) (n : ℕ) → Swapped h n → Retains s (swapped h n)
  swapped-Retains h n w = record {
    advances = omega (arith, v.later idx in_len valid);
    old = old;
    stays = stays;
    contents = λ x r holds. refl;
  }
    where
      old : (x r : ℕ) → Holds (swapped h n) x r → Holds s x r
      old x r (inl (e, f)) = inr (idx, in_len, valid, sym e, sym f)
      old x r (inr (j, l, is, e, f)) =
          let (d, is', same, after) = w.only j l is in
          inr (j, l, is', sym same ∙ e, sym (w.other_row j l d) ∙ f)

      stays : (x r : ℕ) → Holds s x r → (entry_at s idx).ts ≤ x → Holds (swapped h n) x r
      stays x r (inl (e, f)) late = absurd (omega (arith, v.later idx in_len valid))
      stays x r (inr (j, l, is, e, f)) late = elim (ℕ_discrete j idx) [
        | yes same ↦ inl (
          sym e ∙ subst (λ k. (entry_at s k).ts ≡ (entry_at s idx).ts) (sym same) refl,
          sym f ∙ subst (λ k. (entry_at s k).row ≡ (entry_at s idx).row) (sym same) refl,
        )
        | no d ↦ elim (dec_lt (entry_at s idx).ts (entry_at s j).ts) [
          | yes after ↦
              let (is', same) = w.stay j l is after in
              inr (j, l, is', same ∙ e, w.other_row j l d ∙ f)
          | no before ↦ absurd (d (v.once j idx l in_len is valid (omega arith)))
        ]
      ]

  pub swapped-History : (h : ℕ → WriteHisEntry) (n : ℕ) → Swapped h n → History (swapped h n)
  swapped-History h n w = record {
    base = v.stored idx in_len valid;
    apart_base = λ j l e. elim (ℕ_discrete j idx) [
      | yes same ↦
          let e' = subst (λ k. (h k).row ≡ (entry_at s idx).row) same e in
          v.apart_base idx in_len (sym e' ∙ w.own_row)
      | no d ↦
          v.apart idx j in_len l (λ x. d (sym x)) (v.stored idx in_len valid)
            (sym e ∙ w.other_row j l d)
    ];
    apart = apart;
    stored = λ j l is z.
        let (d, is', _, _) = w.only j l is in v.stored j l is' (sym (w.other_row j l d) ∙ z);
    later = λ j l is. let (d, is', same, after) = w.only j l is in omega arith;
    upto = λ j l is. let (d, is', same, after) = w.only j l is in omega (arith, v.upto j l is');
    once = λ i j l m is js e.
        let (_, is', same, _) = w.only i l is in
        let (_, js', same', _) = w.only j m js in v.once i j l m is' js' (sym same ∙ e ∙ same');
    latest =
        (swapped-Retains h n w).stays s.latest_wts s.latest_row v.latest (v.upto idx in_len valid);
    some_entries = v.some_entries;
    bound = v.bound;
    count = w.counted;
    timed = v.timed;
  }
    where
      apart :
          (i j : ℕ) → i < s.his_len → j < s.his_len → i ≢ j → (h i).row ≢ 0 → (h i).row ≢ (h j).row
      apart i j l m d row e = elim (ℕ_discrete i idx) [
        | yes same ↦
            let own : (h i).row ≡ s.row = subst (λ k. (h k).row ≡ s.row) (sym same) w.own_row in
            let other : j ≢ idx = λ x. d (same ∙ sym x) in
            v.apart_base j m (sym (w.other_row j m other) ∙ sym e ∙ own)
        | no other ↦
            let at_i = w.other_row i l other in
            elim (ℕ_discrete j idx) [
              | yes same ↦
                  let own : (h j).row ≡ s.row =
                    subst (λ k. (h k).row ≡ s.row) (sym same) w.own_row in
                  v.apart_base i l (sym at_i ∙ e ∙ own)
              | no other' ↦
                  v.apart i j l m d (λ z. row (at_i ∙ z)) (sym at_i ∙ e ∙ w.other_row j m other')
            ]
      ]
