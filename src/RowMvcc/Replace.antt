-- ===== src/RowMvcc/Replace.antt =====
-- Another entry without a version (row_mvcc.cpp).
use dbx1000_bskiplist.Base.{
  ℕ, ◌≡◌, ◌≢◌, ◌<◌, true, false, inl, inr, arith, ◌==◌, ℕ_discrete, refl, sym, ◌∙◌, subst, ap,
}
use dbx1000_bskiplist.RowTs.{update}
use dbx1000_bskiplist.RowMvcc.{WriteHisEntry, RowMvcc}
use dbx1000_bskiplist.RowMvcc.Versions.{count_same, oldest-le-latest, Retains, History, entry_at}

module _ {D : Type 0} where
  -- An entry that is not a version may be replaced by another such, with a row of its own.
  module _ (s : RowMvcc D) (v : History s) (idx : ℕ) (in_len : idx < s.his_len)
      (off : (entry_at s idx).valid ≡ false) (e : WriteHisEntry) (off' : e.valid ≡ false)
      (not_base : e.row ≢ s.row)
      (not_other : (j : ℕ) → j < s.his_len → j ≢ idx → e.row ≢ 0 → (entry_at s j).row ≢ e.row) where
    abbrev pub replaced : RowMvcc D
    replaced = record s { write_history = update s.write_history idx e }

    pub replaced_own : entry_at replaced idx ≡ e
    replaced_own = let t : (idx == idx) ≡ true = ground arith in rw t refl

    pub replaced_other : (j : ℕ) → j ≢ idx → entry_at replaced j ≡ entry_at s j
    replaced_other j d = let t : (j == idx) ≡ false = ground arith in rw t refl

    -- A version stands in the same entry before and after.
    same_version :
        (j : ℕ)
        → (entry_at replaced j).valid ≡ true
        → (j ≢ idx) × (entry_at replaced j ≡ entry_at s j)
    same_version j is = elim (ℕ_discrete j idx) [
      | yes q ↦
          let is' = subst (λ k. (entry_at replaced k).valid ≡ true) q is in
          let is'' = subst (λ (w : WriteHisEntry). w.valid ≡ true) replaced_own is' in absurd (cc)
      | no d ↦ (d, replaced_other j d)
    ]

    old_version : (j : ℕ) → (entry_at replaced j).valid ≡ true → (entry_at s j).valid ≡ true
    old_version j is = subst (λ (w : WriteHisEntry). w.valid ≡ true) (same_version j is).1 is

    kept_version : (j : ℕ) → (entry_at s j).valid ≡ true → entry_at replaced j ≡ entry_at s j
    kept_version j is = elim (ℕ_discrete j idx) [
      | yes q ↦ let is' = subst (λ k. (entry_at s k).valid ≡ true) q is in absurd (cc)
      | no d ↦ replaced_other j d
    ]

    pub replaced-Retains : Retains s replaced
    replaced-Retains = record {
      advances = omega arith;
      old = λ w r holds. elim holds [
        | inl base ↦ inl base
        | inr (j, l, is, at, row) ↦
            let same = (same_version j is).1 in
            inr (
              j,
              l,
              old_version j is,
              ap (λ (x : WriteHisEntry). x.ts) (sym same) ∙ at,
              ap (λ (x : WriteHisEntry). x.row) (sym same) ∙ row,
            )
      ];
      stays = λ w r holds late. elim holds [
        | inl base ↦ inl base
        | inr (j, l, is, at, row) ↦
            let same = kept_version j is in
            inr (
              j,
              l,
              ap (λ (x : WriteHisEntry). x.valid) same ∙ is,
              ap (λ (x : WriteHisEntry). x.ts) same ∙ at,
              ap (λ (x : WriteHisEntry). x.row) same ∙ row,
            )
      ];
      contents = λ w r holds. refl;
    }

    row_at : (j : ℕ) → j ≢ idx → (entry_at replaced j).row ≡ (entry_at s j).row
    row_at j d = ap (λ (x : WriteHisEntry). x.row) (replaced_other j d)

    row_own : (j : ℕ) → j ≡ idx → (entry_at replaced j).row ≡ e.row
    row_own j q =
        subst (λ k. (entry_at replaced k).row ≡ e.row) (sym q)
          (ap (λ (x : WriteHisEntry). x.row) replaced_own)

    pub replaced-History : History replaced
    replaced-History = record {
      base = v.base;
      apart_base = λ j l q. elim (ℕ_discrete j idx) [
        | yes x ↦ not_base (sym (row_own j x) ∙ q)
        | no d ↦ v.apart_base j l (sym (row_at j d) ∙ q)
      ];
      apart = λ i j l m d row q. elim (ℕ_discrete i idx) [
        | yes x ↦
            let other : j ≢ idx = λ y. d (x ∙ sym y) in
            not_other j m other (λ z. row (row_own i x ∙ z))
              (sym (row_at j other) ∙ sym q ∙ row_own i x)
        | no other ↦ elim (ℕ_discrete j idx) [
          | yes y ↦
              not_other i l other (λ z. row (q ∙ row_own j y ∙ z))
                (sym (row_at i other) ∙ q ∙ row_own j y)
          | no other' ↦
              v.apart i j l m d (λ z. row (row_at i other ∙ z))
                (sym (row_at i other) ∙ q ∙ row_at j other')
        ]
      ];
      stored =
          λ j l is z. v.stored j l (old_version j is) (sym (row_at j (same_version j is).0) ∙ z);
      later = λ j l is.
          let t = ap (λ (x : WriteHisEntry). x.ts) (same_version j is).1 in
          omega (arith, v.later j l (old_version j is));
      upto = λ j l is.
          let t = ap (λ (x : WriteHisEntry). x.ts) (same_version j is).1 in
          omega (arith, v.upto j l (old_version j is));
      once = λ i j l m is js q.
          let t = ap (λ (x : WriteHisEntry). x.ts) (same_version i is).1 in
          let u = ap (λ (x : WriteHisEntry). x.ts) (same_version j js).1 in
          v.once i j l m (old_version i is) (old_version j js) (sym t ∙ q ∙ u);
      latest = replaced-Retains.stays s.latest_wts s.latest_row v.latest (oldest-le-latest s v);
      some_entries = v.some_entries;
      bound = v.bound;
      count =
          v.count
          ∙ sym (
              count_same s.write_history replaced.write_history s.his_len (λ j l.
                elim (ℕ_discrete j idx) [
                  | yes q ↦
                      subst (λ k. (entry_at replaced k).valid ≡ (entry_at s k).valid) (sym q)
                        (ap (λ (x : WriteHisEntry). x.valid) replaced_own ∙ off' ∙ sym off)
                  | no d ↦ ap (λ (x : WriteHisEntry). x.valid) (replaced_other j d)
                ]));
      timed = v.timed;
    }
