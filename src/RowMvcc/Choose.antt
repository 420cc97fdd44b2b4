-- ===== src/RowMvcc/Choose.antt =====
-- The entry that reserveRow finds for a new version, and its reservation (row_mvcc.cpp).
use dbx1000_bskiplist.Base.{
  ℕ, zero, suc, ◌+◌, ◌≡◌, ◌<◌, ◌≤◌, Bool, true, inl, inr, ◌⊎◌, arith, ◌==◌, ℕ_discrete, ◌∙◌, subst,
  Bool-cases,
}
use dbx1000_bskiplist.RowMvcc.{WriteHisEntry, Slots, RowMvcc, is_free, unused_entry}
use dbx1000_bskiplist.RowMvcc.Versions.{Holds, Retains, History}

-- The search finds an unused entry if there is one.
pub unused_entry-free :
    (h : ℕ → WriteHisEntry) (rounds i idx : ℕ)
    → ((idx < i) × (is_free (h idx) ≡ true))
      ⊎ ((j : ℕ) × (i ≤ j) × (j < i + rounds) × (is_free (h j) ≡ true))
    → (unused_entry h rounds i idx < i + rounds)
      × (is_free (h (unused_entry h rounds i idx)) ≡ true)
unfolding unused_entry
unused_entry-free h zero i idx (inl (l, is)) = (omega arith, is)
unused_entry-free h zero i idx (inr (j, l, m, is)) = absurd (omega arith)
unused_entry-free h (suc rounds) i idx found = elim (Bool-cases (is_free (h i))) [
  | inl c ↦
      let (l, is) = unused_entry-free h rounds (i + 1) i (inl (omega arith, c)) in
      elim (Bool-cases ((h i).row == 0)) [
        | inl d ↦ rw (c, d) (omega arith, is)
        | inr d ↦ rw (c, d) (omega arith, c)
      ]
  | inr c ↦
      let rest : ((idx < i + 1) × (is_free (h idx) ≡ true))
          ⊎ ((j : ℕ) × (i + 1 ≤ j) × (j < i + 1 + rounds) × (is_free (h j) ≡ true)) =
        elim found [
          | inl (l, is) ↦ inl (omega arith, is)
          | inr (j, l, m, is) ↦ elim (ℕ_discrete j i) [
            | yes e ↦ let is' = subst (λ k. is_free (h k) ≡ true) e is in absurd (cc)
            | no d ↦ inr (j, omega arith, omega arith, is)
          ]
        ] in
      let (l, is) = unused_entry-free h rounds (i + 1) idx rest in rw c (omega arith, is)
]

module _ {D : Type 0} where
  -- What does not concern the history may change.
  pub History-recast :
      (s : RowMvcc D) (exists : Bool) (id ts served : ℕ) (slots : Slots) (heap : ℕ → D)
      → History s
      → History (record s {
        exists_prewrite = exists;
        prewrite_his_id = id;
        prewrite_ts = ts;
        max_served_rts = served;
        requests = slots;
        heap = heap;
      })
  History-recast s exists id ts served slots heap v = record {
    base = v.base;
    apart_base = v.apart_base;
    apart = v.apart;
    stored = v.stored;
    later = v.later;
    upto = v.upto;
    once = v.once;
    latest = v.latest;
    some_entries = v.some_entries;
    bound = v.bound;
    count = v.count;
    timed = v.timed;
  }

  pub Retains-recast :
      (s t : RowMvcc D) (exists : Bool) (id ts served : ℕ) (slots : Slots) (heap : ℕ → D)
      → Retains s t
      → ((w r : ℕ) → Holds t w r → heap r ≡ t.heap r)
      → Retains s (record t {
        exists_prewrite = exists;
        prewrite_his_id = id;
        prewrite_ts = ts;
        max_served_rts = served;
        requests = slots;
        heap = heap;
      })
  Retains-recast s t exists id ts served slots heap v same = record {
    advances = v.advances;
    old = v.old;
    stays = v.stays;
    contents = λ w r holds. same w r holds ∙ v.contents w r holds;
  }
