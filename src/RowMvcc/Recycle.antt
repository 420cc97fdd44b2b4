-- ===== src/RowMvcc/Recycle.antt =====
-- The garbage collection keeps the history in order (row_mvcc.cpp).
use dbx1000_bskiplist.Base.{
  ℕ, ◌+◌, ◌≡◌, ◌≢◌, ◌<◌, true, false, not, ◌&&◌, some, inl, inr, arith, ◌==◌, ℕ_discrete, refl, sym,
  ◌∙◌, subst, ap, ltb, leb, Bool-cases,
}
use dbx1000_bskiplist.RowMvcc.{WriteHisEntry, RowMvcc, newest_below}
use dbx1000_bskiplist.RowMvcc.Reserve.{swap_row, drop_versions, collect}
use dbx1000_bskiplist.RowMvcc.Versions.{
  Fresh, count_same, Retains, Retains-refl, History, Unreserved, entry_at,
}
use dbx1000_bskiplist.RowMvcc.Swap.{Swapped, swapped, swapped-History, swapped-Retains}
use dbx1000_bskiplist.RowMvcc.Collect.{gone, Dropped, drop_versions-Dropped, newest_below-Newest}

gone_row : (w : ℕ) (e : WriteHisEntry) → (gone w e).row ≡ e.row
gone_row w e = elim (Bool-cases (e.valid && leb e.ts w)) [ inl c ↦ rw c refl | inr c ↦ rw c refl ]

gone_stays : (w : ℕ) (e : WriteHisEntry) → e.valid ≡ true → w < e.ts → gone w e ≡ e
gone_stays w e is after = let c : (e.valid && leb e.ts w) ≡ false = ground arith in rw c refl

gone_valid :
    (w : ℕ) (e : WriteHisEntry)
    → (gone w e).valid ≡ true
    → (e.valid ≡ true) × (w < e.ts) × (gone w e ≡ e)
gone_valid w e is = elim (Bool-cases (e.valid && leb e.ts w)) [
  | inl c ↦ let no_more : false ≡ true = (rw c at is) in absurd (cc)
  | inr c ↦ let is' : e.valid ≡ true = (rw c at is) in (is', ground arith, rw c refl)
]

gone_free :
    (w : ℕ) (e : WriteHisEntry)
    → (e.valid ≡ false → e.reserved ≡ false)
    → (gone w e).valid ≡ false
    → (gone w e).reserved ≡ false
gone_free w e free off = elim (Bool-cases (e.valid && leb e.ts w)) [
  | inl c ↦ rw c refl
  | inr c ↦ let off' : e.valid ≡ false = (rw c at off) in rw c (free off')
]

module _ {D : Type 0} where
  -- What reserveRow leaves alone.
  pub record Frame (s t : RowMvcc D) : Type 0 where
    pub latest_wts : t.latest_wts ≡ s.latest_wts
    pub latest_row : t.latest_row ≡ s.latest_row
    pub exists_prewrite : t.exists_prewrite ≡ s.exists_prewrite
    pub max_served_rts : t.max_served_rts ≡ s.max_served_rts
    pub requests : t.requests ≡ s.requests
    pub heap : t.heap ≡ s.heap

  pub Frame-refl : (s : RowMvcc D) → Frame s s
  Frame-refl s = record {
    latest_wts = refl;
    latest_row = refl;
    exists_prewrite = refl;
    max_served_rts = refl;
    requests = refl;
    heap = refl;
  }

  module _ (s : RowMvcc D) (v : History s) (free : Unreserved s) (idx : ℕ)
      (in_len : idx < s.his_len) (valid : (entry_at s idx).valid ≡ true) where
    abbrev pub after_swap : RowMvcc D
    after_swap = swap_row idx (entry_at s idx).ts s

    swap_other : (j : ℕ) → j ≢ idx → entry_at after_swap j ≡ entry_at s j
    swap_other j d = let t : (j == idx) ≡ false = ground arith in rw t refl

    swap_own : entry_at after_swap idx ≡ record (entry_at s idx) { row = s.row }
    swap_own = let t : (idx == idx) ≡ true = ground arith in rw t refl

    pub swap_valid : (j : ℕ) → (entry_at after_swap j).valid ≡ (entry_at s j).valid
    swap_valid j = elim (ℕ_discrete j idx) [
      | yes e ↦
          subst (λ k. (entry_at after_swap k).valid ≡ (entry_at s k).valid) (sym e)
            (ap (λ (w : WriteHisEntry). w.valid) swap_own)
      | no d ↦ ap (λ (w : WriteHisEntry). w.valid) (swap_other j d)
    ]

    swap_rows :
        (j : ℕ)
        → j < s.his_len
        → (entry_at after_swap j).valid ≡ true
        → (entry_at after_swap j).row ≢ 0
    swap_rows j l is z = elim (ℕ_discrete j idx) [
      | yes e ↦
          let z' = subst (λ k. (entry_at after_swap k).row ≡ 0) e z in
          v.base (sym (ap (λ (w : WriteHisEntry). w.row) swap_own) ∙ z')
      | no d ↦
          v.stored j l (sym (swap_valid j) ∙ is)
            (sym (ap (λ (w : WriteHisEntry). w.row) (swap_other j d)) ∙ z)
    ]

    Dropped-Swapped :
        (h : ℕ → WriteHisEntry) (n : ℕ)
        → Dropped 0 (0 + s.his_len) (entry_at s idx).ts after_swap h n
        → Swapped s v idx in_len valid h n
          × ((j : ℕ) → j < s.his_len → (h j).valid ≡ false → (h j).reserved ≡ false)
    Dropped-Swapped h n (here, _, _, counted) = (
      record {
        other_row = λ j l d.
            ap (λ (w : WriteHisEntry). w.row) (at j l)
            ∙ gone_row wts (entry_at after_swap j)
            ∙ ap (λ (w : WriteHisEntry). w.row) (swap_other j d);
        own_row =
            ap (λ (w : WriteHisEntry). w.row) (at idx in_len)
            ∙ gone_row wts (entry_at after_swap idx)
            ∙ ap (λ (w : WriteHisEntry). w.row) swap_own;
        only = only;
        stay = stay;
        counted = counted;
      },
      reserved,
    )
      where
        wts : ℕ
        wts = (entry_at s idx).ts

        at : (j : ℕ) → j < s.his_len → h j ≡ gone wts (entry_at after_swap j)
        at j l = here j (omega arith) (omega arith)

        only :
            (j : ℕ)
            → j < s.his_len
            → (h j).valid ≡ true
            → (j ≢ idx)
              × ((entry_at s j).valid ≡ true)
              × ((h j).ts ≡ (entry_at s j).ts)
              × ((entry_at s idx).ts < (entry_at s j).ts)
        only j l is =
            let (is', after, same) =
              gone_valid wts (entry_at after_swap j)
                (subst (λ (w : WriteHisEntry). w.valid ≡ true) (at j l) is) in
            let d : j ≢ idx = λ e.
              let t = ap (λ (w : WriteHisEntry). w.ts) swap_own in
              let after' = subst (λ k. wts < (entry_at after_swap k).ts) e after in
              absurd (omega arith) in
            let ts = ap (λ (w : WriteHisEntry). w.ts) (swap_other j d) in
            (
              d,
              sym (swap_valid j) ∙ is',
              ap (λ (w : WriteHisEntry). w.ts) (at j l ∙ same) ∙ ts,
              subst (λ n. wts < n) ts after,
            )

        stay :
            (j : ℕ)
            → j < s.his_len
            → (entry_at s j).valid ≡ true
            → (entry_at s idx).ts < (entry_at s j).ts
            → ((h j).valid ≡ true) × ((h j).ts ≡ (entry_at s j).ts)
        stay j l is after =
            let d : j ≢ idx = λ e.
              let after' = subst (λ k. wts < (entry_at s k).ts) e after in absurd (omega arith) in
            let other = swap_other j d in
            let same = at j l ∙ ap (gone wts) other ∙ gone_stays wts (entry_at s j) is after in
            (ap (λ (w : WriteHisEntry). w.valid) same ∙ is, ap (λ (w : WriteHisEntry). w.ts) same)

        reserved : (j : ℕ) → j < s.his_len → (h j).valid ≡ false → (h j).reserved ≡ false
        reserved j l off =
            ap (λ (w : WriteHisEntry). w.reserved) (at j l)
            ∙ gone_free wts (entry_at after_swap j)
                (λ x. elim (ℕ_discrete j idx) [
                  | yes e ↦
                      let x' : (entry_at s idx).valid ≡ false =
                        subst (λ k. (entry_at s k).valid ≡ false) e (sym (swap_valid j) ∙ x) in
                      absurd (cc)
                  | no d ↦
                      ap (λ (w : WriteHisEntry). w.reserved) (swap_other j d)
                      ∙ free j l (sym (swap_valid j) ∙ x)
                ])
                (subst (λ (w : WriteHisEntry). w.valid ≡ false) (at j l) off)

  -- The collection fails no assertion, and takes versions out only up to a new oldest one.
  pub collect-History :
      (min_ts : ℕ) (s : RowMvcc D)
      → History s
      → Unreserved s
      → (t : RowMvcc D) × (collect min_ts s ≡ some t)
        × History t
        × Unreserved t
        × Retains s t
        × Frame s t
        × ((fresh : ℕ) → Fresh s fresh → Fresh t fresh)
  unfolding collect
  collect-History min_ts s v free =
      let h = s.write_history in
      let found = newest_below (λ t. t) h min_ts s.his_len 0 0 s.his_len in
      let newest =
        newest_below-Newest (λ t. t) h min_ts s.his_len s.his_len 0 0 s.his_len (λ j is l. refl)
          (inl (refl, refl), λ j l is b. absurd (omega arith)) in
      elim (Bool-cases
        (ltb s.oldest_wts min_ts && s.num_versions == s.his_len && not (found.1 == s.his_len))) [
          | inr c ↦ (s, rw c refl, v, free, Retains-refl s, Frame-refl s, λ fresh f. f)
          | inl c ↦ elim (newest.0) [
            | inl (full, _) ↦ absurd (ground arith)
            | inr (l, valid, at, _) ↦
                let in_len : found.1 < s.his_len = omega arith in
                let (g, n, run, dropped) =
                  drop_versions-Dropped s.his_len 0 (entry_at s found.1).ts
                    (swap_row found.1 (entry_at s found.1).ts s) (omega arith) v.bound
                    (v.count
                      ∙ sym (
                          count_same h (swap_row found.1 (entry_at s found.1).ts s).write_history
                            s.his_len (λ i m. swap_valid s v free found.1 in_len valid i)))
                    (swap_rows s v free found.1 in_len valid) in
                let (ok, free') = Dropped-Swapped s v free found.1 in_len valid g n dropped in
                (
                  swapped s v found.1 in_len valid g n,
                  rw c (
                      subst
                        (λ w.
                          drop_versions s.his_len 0 w (swap_row found.1 w s)
                          ≡ some (swapped s v found.1 in_len valid g n))
                        at run),
                  swapped-History s v found.1 in_len valid g n ok,
                  free',
                  swapped-Retains s v found.1 in_len valid g n ok,
                  record {
                    latest_wts = refl;
                    latest_row = refl;
                    exists_prewrite = refl;
                    max_served_rts = refl;
                    requests = refl;
                    heap = refl;
                  },
                  λ fresh (new, base, rows). (
                    new,
                    rows found.1 in_len,
                    λ j m q. elim (ℕ_discrete j found.1) [
                      | yes e ↦
                          let q' = subst (λ k. (g k).row ≡ fresh) e q in base (sym ok.own_row ∙ q')
                      | no d ↦ rows j m (sym (ok.other_row j m d) ∙ q)
                    ],
                  ),
                )
          ]
        ]
