-- ===== src/RowMvcc/Written.antt =====
-- The reserved entry becomes the latest version (W_REQ of row_mvcc.cpp).
use dbx1000_bskiplist.Base.{
  ℕ, ◌+◌, ◌%◌, ◌≡◌, ◌≢◌, ◌<◌, ◌≤◌, true, false, inl, inr, ◌⊎◌, arith, refl, sym, ◌∙◌, subst, ap,
  ◌==◌, ℕ_discrete, u32_mod,
}
use dbx1000_bskiplist.RowTs.{update}
use dbx1000_bskiplist.RowMvcc.{WriteHisEntry, RowMvcc}
use dbx1000_bskiplist.RowMvcc.Versions.{
  count_valid, count_update, count_bound, Holds, Fresh, History, Reserved, entry_at,
  oldest-le-latest,
}
use dbx1000_bskiplist.RowMvcc.Quiet.{Idle}
use dbx1000_bskiplist.RowMvcc.Invariant.{Keeps}

module _ {D : Type 0} where
  module _ (ts row : ℕ) (s : RowMvcc D) where
    abbrev pub written : RowMvcc D
    written = record s {
      write_history =
          update s.write_history s.prewrite_his_id
            (record (entry_at s s.prewrite_his_id) { valid = true; ts = ts });
      latest_wts = ts;
      latest_row = row;
      exists_prewrite = false;
      num_versions = (s.num_versions + 1) % u32_mod;
    }

    written_own :
        entry_at written s.prewrite_his_id
        ≡ record (entry_at s s.prewrite_his_id) { valid = true; ts = ts }
    written_own =
        let t : (s.prewrite_his_id == s.prewrite_his_id) ≡ true = ground arith in rw t refl

    written_other : (j : ℕ) → j ≢ s.prewrite_his_id → entry_at written j ≡ entry_at s j
    written_other j d = let t : (j == s.prewrite_his_id) ≡ false = ground arith in rw t refl

    same_row : (j : ℕ) → (entry_at written j).row ≡ (entry_at s j).row
    same_row j = elim (ℕ_discrete j s.prewrite_his_id) [
      | yes q ↦
          subst (λ k. (entry_at written k).row ≡ (entry_at s k).row) (sym q)
            (ap (λ (x : WriteHisEntry). x.row) written_own)
      | no d ↦ ap (λ (x : WriteHisEntry). x.row) (written_other j d)
    ]

    -- A version is the new one or an old one.
    new_or_old :
        (j : ℕ)
        → (entry_at written j).valid ≡ true
        → ((j ≡ s.prewrite_his_id) × ((entry_at written j).ts ≡ ts))
          ⊎ (((entry_at s j).valid ≡ true) × ((entry_at written j).ts ≡ (entry_at s j).ts))
    new_or_old j is = elim (ℕ_discrete j s.prewrite_his_id) [
      | yes q ↦ inl (
        q,
        subst (λ k. (entry_at written k).ts ≡ ts) (sym q)
            (ap (λ (x : WriteHisEntry). x.ts) written_own),
      )
      | no d ↦
          let same = written_other j d in
          inr (
            ap (λ (x : WriteHisEntry). x.valid) (sym same) ∙ is,
            ap (λ (x : WriteHisEntry). x.ts) same,
          )
    ]

    module _ (v : History s) (r : Reserved s) (at : ts ≡ s.prewrite_ts)
        (own : row ≡ (entry_at s s.prewrite_his_id).row) where
      after : s.latest_wts < ts
      after = omega (arith, r.newer)

      old_below : (j : ℕ) → j < s.his_len → (entry_at s j).valid ≡ true → (entry_at s j).ts < ts
      old_below j l is = omega (arith, v.upto j l is, after)

      written-Holds : Holds written ts row
      written-Holds = inr (
        s.prewrite_his_id,
        r.inside,
        ap (λ (x : WriteHisEntry). x.valid) written_own,
        ap (λ (x : WriteHisEntry). x.ts) written_own,
        same_row s.prewrite_his_id ∙ sym own,
      )

      written_count : (s.num_versions + 1) % u32_mod ≡ count_valid written.write_history s.his_len
      written_count =
          let e : WriteHisEntry = record (entry_at s s.prewrite_his_id) { valid = true; ts = ts } in
          let more = count_update s.write_history s.prewrite_his_id e s.his_len r.inside in
          let more' = (rw r.waiting at more) in
          let few = (count_bound s.write_history s.his_len).0 in omega (arith, v.count, v.bound)

      pub written-History : History written
      written-History = record {
        base = v.base;
        apart_base = λ j l q. v.apart_base j l (sym (same_row j) ∙ q);
        apart = λ i j l m d there q.
            v.apart i j l m d (λ z. there (same_row i ∙ z)) (sym (same_row i) ∙ q ∙ same_row j);
        stored = λ j l is z. elim (new_or_old j is) [
          | inl (q, _) ↦ r.has_row (subst (λ k. (entry_at s k).row ≡ 0) q (sym (same_row j) ∙ z))
          | inr (is', _) ↦ v.stored j l is' (sym (same_row j) ∙ z)
        ];
        later = λ j l is. elim (new_or_old j is) [
          | inl (_, t) ↦ omega (arith, oldest-le-latest s v, after)
          | inr (is', t) ↦ omega (arith, v.later j l is')
        ];
        upto = λ j l is. elim (new_or_old j is) [
          | inl (_, t) ↦ omega arith
          | inr (is', t) ↦ omega (arith, old_below j l is')
        ];
        once = λ i j l m is js q. elim (new_or_old i is) [
          | inl (x, t) ↦ elim (new_or_old j js) [
            | inl (y, _) ↦ x ∙ sym y
            | inr (js', u) ↦ absurd (omega (arith, old_below j m js'))
          ]
          | inr (is', t) ↦ elim (new_or_old j js) [
            | inl (_, u) ↦ absurd (omega (arith, old_below i l is'))
            | inr (js', u) ↦ v.once i j l m is' js' (sym t ∙ q ∙ u)
          ]
        ];
        latest = written-Holds;
        some_entries = v.some_entries;
        bound = v.bound;
        count = written_count;
        timed = omega (arith, r.timed);
      }

      pub written-Idle : (fresh : ℕ) → Fresh s fresh → Idle written fresh (ts + 1)
      written-Idle fresh (new, base, rows) = record {
        history = written-History;
        unreserved = λ j l is. elim (ℕ_discrete j s.prewrite_his_id) [
          | yes q ↦
              let on : (entry_at written j).valid ≡ true =
                subst (λ k. (entry_at written k).valid ≡ true) (sym q)
                  (ap (λ (x : WriteHisEntry). x.valid) written_own) in
              absurd (cc)
          | no d ↦
              let same = written_other j d in
              ap (λ (x : WriteHisEntry). x.reserved) same
              ∙ r.only j l d (ap (λ (x : WriteHisEntry). x.valid) (sym same) ∙ is)
        ];
        exists = refl;
        unused = (new, base, λ j l q. rows j l (sym (same_row j) ∙ q));
        newer = omega arith;
        after_reads = omega (arith, r.after_reads);
      }

      stays : (w x : ℕ) → Holds s w x → Holds written w x
      stays w x holds = elim holds [
        | inl base ↦ inl base
        | inr (j, l, is, t, rw') ↦
            let d : j ≢ s.prewrite_his_id = λ q.
              let is' = subst (λ k. (entry_at s k).valid ≡ true) q is in
              let off = r.waiting in absurd (cc) in
            let same = written_other j d in
            inr (
              j,
              l,
              ap (λ (x : WriteHisEntry). x.valid) same ∙ is,
              ap (λ (x : WriteHisEntry). x.ts) same ∙ t,
              same_row j ∙ rw',
            )
      ]

      -- The new version is after all that was seen.
      pub written-Keeps : Keeps s written
      written-Keeps = record {
        advances = omega arith;
        latest = omega (arith, after);
        reads = omega arith;
        sees = λ m x past see low.
            let early : m ≤ ts = elim past [
              | inl l ↦ omega (arith, after)
              | inr l ↦ omega (arith, r.after_reads)
            ] in
            (
              record {
                wts = see.wts;
                holds = stays see.wts x see.holds;
                below = see.below;
                newest = λ w y holds b. elim holds [
                  | inl base ↦ see.newest w y (inl base) b
                  | inr (j, l, is, t, y') ↦ elim (new_or_old j is) [
                    | inl (_, u) ↦ absurd (omega arith)
                    | inr (is', u) ↦
                        see.newest w y (inr (j, l, is', sym u ∙ t, sym (same_row j) ∙ y')) b
                  ]
                ];
              },
              refl,
            );
      }
