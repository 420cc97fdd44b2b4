-- ===== src/RowMvcc/Double.antt =====
-- The history with twice the entries (row_mvcc.cpp).
use dbx1000_bskiplist.Base.{
  ℕ, ◌+◌, ◌≡◌, ◌≢◌, ◌<◌, ◌≤◌, true, false, inl, inr, arith, dec_lt, refl, sym, ◌∙◌, subst, ap, ltb,
}
use dbx1000_bskiplist.RowMvcc.{WriteHisEntry, RowMvcc, empty_entry}
use dbx1000_bskiplist.RowMvcc.Reserve.{double_list}
use dbx1000_bskiplist.RowMvcc.Versions.{
  count_valid, count_same, count_beyond, oldest-le-latest, Retains, History, entry_at,
}

module _ {D : Type 0} where
  -- Twice the entries.
  module _ (s : RowMvcc D) (v : History s) (few : s.his_len < 1073741824) where
    pub doubled_len : (double_list s).his_len ≡ s.his_len + s.his_len
    doubled_len = let b = few in omega arith

    doubled_old : (i : ℕ) → i < s.his_len → entry_at (double_list s) i ≡ entry_at s i
    doubled_old i l = let c : ltb i s.his_len ≡ true = ground arith in rw c refl

    pub doubled_new : (i : ℕ) → s.his_len ≤ i → entry_at (double_list s) i ≡ empty_entry
    doubled_new i l = let c : ltb i s.his_len ≡ false = ground arith in rw c refl

    -- An entry with a version, or with a row, is an old one.
    doubled_valid :
        (i : ℕ)
        → (entry_at (double_list s) i).valid ≡ true
        → (i < s.his_len) × (entry_at (double_list s) i ≡ entry_at s i)
    doubled_valid i is = elim (dec_lt i s.his_len) [
      | yes l ↦ (l, doubled_old i l)
      | no l ↦
          let off = ap (λ (x : WriteHisEntry). x.valid) (doubled_new i (omega arith)) in absurd (cc)
    ]

    doubled_row :
        (i : ℕ)
        → (entry_at (double_list s) i).row ≢ 0
        → (i < s.his_len) × ((entry_at (double_list s) i).row ≡ (entry_at s i).row)
    doubled_row i row = elim (dec_lt i s.his_len) [
      | yes l ↦ (l, ap (λ (x : WriteHisEntry). x.row) (doubled_old i l))
      | no l ↦ absurd (row (ap (λ (x : WriteHisEntry). x.row) (doubled_new i (omega arith))))
    ]

    old_valid : (i : ℕ) → (entry_at (double_list s) i).valid ≡ true → (entry_at s i).valid ≡ true
    old_valid i is = subst (λ (x : WriteHisEntry). x.valid ≡ true) (doubled_valid i is).1 is

    ts_at :
        (i : ℕ)
        → (entry_at (double_list s) i).valid ≡ true
        → (entry_at (double_list s) i).ts ≡ (entry_at s i).ts
    ts_at i is = ap (λ (x : WriteHisEntry). x.ts) (doubled_valid i is).1

    pub doubled-Retains : Retains s (double_list s)
    doubled-Retains = record {
      advances = omega arith;
      old = λ w r holds. elim holds [
        | inl base ↦ inl base
        | inr (j, l, is, at, row) ↦
            let (l', same) = doubled_valid j is in
            inr (
              j,
              l',
              old_valid j is,
              sym (ts_at j is) ∙ at,
              ap (λ (x : WriteHisEntry). x.row) (sym same) ∙ row,
            )
      ];
      stays = λ w r holds late. elim holds [
        | inl base ↦ inl base
        | inr (j, l, is, at, row) ↦
            let same = doubled_old j l in
            let len = doubled_len in
            inr (
              j,
              omega arith,
              ap (λ (x : WriteHisEntry). x.valid) same ∙ is,
              ap (λ (x : WriteHisEntry). x.ts) same ∙ at,
              ap (λ (x : WriteHisEntry). x.row) same ∙ row,
            )
      ];
      contents = λ w r holds. refl;
    }

    pub doubled-History : History (double_list s)
    doubled-History = record {
      base = v.base;
      apart_base = λ i l q.
          let (l', same) = doubled_row i (λ z. v.base (sym q ∙ z)) in
          v.apart_base i l' (sym same ∙ q);
      apart = λ i j l m d row q.
          let (l', same) = doubled_row i row in
          let (m', same') = doubled_row j (λ z. row (q ∙ z)) in
          v.apart i j l' m' d (λ z. row (same ∙ z)) (sym same ∙ q ∙ same');
      stored = λ i l is z.
          let (l', same) = doubled_valid i is in
          v.stored i l' (old_valid i is) (ap (λ (x : WriteHisEntry). x.row) (sym same) ∙ z);
      later = λ i l is.
          let t = ts_at i is in omega (arith, v.later i (doubled_valid i is).0 (old_valid i is));
      upto = λ i l is.
          let t = ts_at i is in omega (arith, v.upto i (doubled_valid i is).0 (old_valid i is));
      once = λ i j l m is js q.
          v.once i j (doubled_valid i is).0 (doubled_valid j js).0 (old_valid i is) (old_valid j js)
            (sym (ts_at i is) ∙ q ∙ ts_at j js);
      latest = doubled-Retains.stays s.latest_wts s.latest_row v.latest (oldest-le-latest s v);
      some_entries = let len = doubled_len in omega (arith, v.some_entries);
      bound = let len = doubled_len in let b = few in omega arith;
      count =
          v.count
          ∙ sym (
              count_same s.write_history (double_list s).write_history s.his_len
                (λ i l. ap (λ (x : WriteHisEntry). x.valid) (doubled_old i l)))
          ∙ sym (
              count_beyond (double_list s).write_history s.his_len s.his_len
                (λ i l. ap (λ (x : WriteHisEntry). x.valid) (doubled_new i l)))
          ∙ ap (count_valid (double_list s).write_history) (sym doubled_len);
      timed = v.timed;
    }
