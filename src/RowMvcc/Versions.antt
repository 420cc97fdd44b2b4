-- ===== src/RowMvcc/Versions.antt =====
-- The versions of a row, which of them a timestamp sees, and what every access keeps (row_mvcc.cpp).
use dbx1000_bskiplist.Base.{
  ℕ, zero, suc, ◌+◌, ◌≡◌, ◌≢◌, ◌<◌, ◌≤◌, Bool, true, false, inl, inr, ◌⊎◌, arith, ◌==◌, ℕ_discrete,
  refl, ◌∙◌, Bool-cases,
}
use dbx1000_bskiplist.RowTs.{uint64_max, update}
use dbx1000_bskiplist.RowMvcc.{WriteHisEntry, RowMvcc}

-- Counting.
abbrev pub one_if : Bool → ℕ
one_if true = 1
one_if false = 0

unfoldable pub count_valid : (ℕ → WriteHisEntry) → ℕ → ℕ
count_valid history zero = 0
count_valid history (suc n) = count_valid history n + one_if (history n).valid

pub count_same :
    (h g : ℕ → WriteHisEntry) (n : ℕ)
    → ((i : ℕ) → i < n → (g i).valid ≡ (h i).valid)
    → count_valid g n ≡ count_valid h n
unfolding count_valid
count_same h g zero same = refl
count_same h g (suc n) same =
    let rest = count_same h g n (λ i l. same i (omega arith)) in
    rw (rest, same n (omega arith)) refl

-- One entry changes.
pub count_update :
    (h : ℕ → WriteHisEntry) (i : ℕ) (e : WriteHisEntry) (n : ℕ)
    → i < n
    → count_valid (update h i e) n + one_if (h i).valid ≡ count_valid h n + one_if e.valid
unfolding count_valid
count_update h i e zero l = absurd (omega arith)
count_update h i e (suc n) l = elim (ℕ_discrete n i) [
  | yes same ↦
      let here : (n == i) ≡ true = ground arith in
      let rest : count_valid (update h i e) n ≡ count_valid h n =
        count_same h (update h i e) n
          (λ j b. let other : (j == i) ≡ false = ground arith in rw other refl) in
      rw (here, rest, same) (omega arith)
  | no d ↦
      let other : (n == i) ≡ false = ground arith in
      let rest = count_update h i e n (omega arith) in rw other (omega arith)
]

pub count_bound :
    (h : ℕ → WriteHisEntry) (n : ℕ)
    → (count_valid h n ≤ n) × (((i : ℕ) → i < n → (h i).valid ≡ true) ⊎ (count_valid h n < n))
unfolding count_valid
count_bound h zero = (omega arith, inl (λ i l. absurd (omega arith)))
count_bound h (suc n) =
    let (few, which) = count_bound h n in
    elim (Bool-cases (h n).valid) [
      | inl c ↦ rw c (
        omega arith,
        elim which [
          | inl all ↦
              inl (λ i l. elim (ℕ_discrete i n) [ yes e ↦ rw e c | no d ↦ all i (omega arith) ])
          | inr less ↦ inr (omega arith)
        ],
      )
      | inr c ↦ rw c (omega arith, inr (omega arith))
    ]

pub count_all :
    (h : ℕ → WriteHisEntry) (n : ℕ) → count_valid h n ≡ n → (i : ℕ) → i < n → (h i).valid ≡ true
count_all h n e = elim ((count_bound h n).1) [ inl all ↦ all | inr less ↦ absurd (omega arith) ]

-- Fewer versions than entries leave an entry without one.
pub count_missing :
    (h : ℕ → WriteHisEntry) (n : ℕ)
    → count_valid h n < n
    → (i : ℕ) × (i < n) × ((h i).valid ≡ false)
unfolding count_valid
count_missing h zero l = absurd (omega arith)
count_missing h (suc n) l = elim (Bool-cases (h n).valid) [
  | inr c ↦ (n, omega arith, c)
  | inl c ↦
      let less : count_valid h n + 1 < suc n = (rw c at l) in
      let (i, h', is) = count_missing h n (omega arith) in (i, omega arith, is)
]

pub count_beyond :
    (h : ℕ → WriteHisEntry) (n k : ℕ)
    → ((i : ℕ) → n ≤ i → (h i).valid ≡ false)
    → count_valid h (n + k) ≡ count_valid h n
unfolding count_valid
count_beyond h n zero off = let z : n + 0 ≡ n = omega arith in rw z refl
count_beyond h n (suc k) off =
    let z : n + suc k ≡ suc (n + k) = omega arith in
    let last = off (n + k) (omega arith) in rw (z, last) (omega (arith, count_beyond h n k off))

module _ {D : Type 0} where
  -- The version with a timestamp stands at an address.
  abbrev pub Holds : RowMvcc D → ℕ → ℕ → Type 0
  Holds s wts row =
      ((wts ≡ s.oldest_wts) × (row ≡ s.row))
      ⊎ ((i : ℕ) × (i < s.his_len)
          × ((s.write_history i).valid ≡ true)
          × ((s.write_history i).ts ≡ wts)
          × ((s.write_history i).row ≡ row))

  -- The version with the greatest timestamp below `ts`.
  pub record Sees (s : RowMvcc D) (ts row : ℕ) : Type 0 where
    pub wts : ℕ
    pub holds : Holds s wts row
    pub below : wts < ts
    pub newest : (w r : ℕ) → Holds s w r → w < ts → w ≤ wts

  -- Versions are only taken out, up to a new oldest one, and keep their contents.
  pub record Retains (s t : RowMvcc D) : Type 0 where
    pub advances : s.oldest_wts ≤ t.oldest_wts
    pub old : (w r : ℕ) → Holds t w r → Holds s w r
    pub stays : (w r : ℕ) → Holds s w r → t.oldest_wts ≤ w → Holds t w r
    pub contents : (w r : ℕ) → Holds t w r → t.heap r ≡ s.heap r

  pub Retains-refl : (s : RowMvcc D) → Retains s s
  Retains-refl s = record {
    advances = omega arith;
    old = λ w r h. h;
    stays = λ w r h l. h;
    contents = λ w r h. refl;
  }

  pub Retains-trans : (s t u : RowMvcc D) → Retains s t → Retains t u → Retains s u
  Retains-trans s t u v w = record {
    advances = omega (arith, v.advances, w.advances);
    old = λ x r h. v.old x r (w.old x r h);
    stays = λ x r h l. w.stays x r (v.stays x r h (omega (arith, w.advances))) l;
    contents = λ x r h. w.contents x r h ∙ v.contents x r (w.old x r h);
  }

  -- What a timestamp sees, with its contents, is still there unless a newer version is the oldest.
  pub Retains-Sees :
      (s t : RowMvcc D) (ts row : ℕ)
      → Retains s t
      → Sees s ts row
      → t.oldest_wts < ts
      → Sees t ts row × (t.heap row ≡ s.heap row)
  Retains-Sees s t ts row v see low =
      let base = v.old t.oldest_wts t.row (inl (refl, refl)) in
      let late : t.oldest_wts ≤ see.wts = see.newest t.oldest_wts t.row base low in
      let holds = v.stays see.wts row see.holds late in
      (
        record {
          wts = see.wts;
          holds = holds;
          below = see.below;
          newest = λ w r h l. see.newest w r (v.old w r h) l;
        },
        v.contents see.wts row holds,
      )

  abbrev pub entry_at : RowMvcc D → ℕ → WriteHisEntry
  entry_at s i = s.write_history i

  -- An address that no row of the history has.
  abbrev pub Fresh : RowMvcc D → ℕ → Type 0
  Fresh s fresh =
      (fresh ≢ 0) × (s.row ≢ fresh) × ((i : ℕ) → i < s.his_len → (entry_at s i).row ≢ fresh)

  -- The history: addresses are not shared, and the base row is older than the other versions.
  pub record History (s : RowMvcc D) : Type 0 where
    pub base : s.row ≢ 0
    pub apart_base : (i : ℕ) → i < s.his_len → (entry_at s i).row ≢ s.row
    pub apart :
        (i j : ℕ)
        → i < s.his_len
        → j < s.his_len
        → i ≢ j
        → (entry_at s i).row ≢ 0
        → (entry_at s i).row ≢ (entry_at s j).row
    pub stored : (i : ℕ) → i < s.his_len → (entry_at s i).valid ≡ true → (entry_at s i).row ≢ 0
    pub later :
        (i : ℕ) → i < s.his_len → (entry_at s i).valid ≡ true → s.oldest_wts < (entry_at s i).ts
    pub upto :
        (i : ℕ) → i < s.his_len → (entry_at s i).valid ≡ true → (entry_at s i).ts ≤ s.latest_wts
    pub once :
        (i j : ℕ)
        → i < s.his_len
        → j < s.his_len
        → (entry_at s i).valid ≡ true
        → (entry_at s j).valid ≡ true
        → (entry_at s i).ts ≡ (entry_at s j).ts
        → i ≡ j
    pub latest : Holds s s.latest_wts s.latest_row
    pub some_entries : 0 < s.his_len
    pub bound : s.his_len < 2147483648
    pub count : s.num_versions ≡ count_valid s.write_history s.his_len
    pub timed : s.latest_wts < uint64_max

  pub oldest-le-latest : (s : RowMvcc D) → History s → s.oldest_wts ≤ s.latest_wts
  oldest-le-latest s v = elim (v.latest) [
    | inl (e, _) ↦ omega arith
    | inr (i, l, is, _, _) ↦ omega (arith, v.later i l is, v.upto i l is)
  ]

  -- No entry is reserved.
  abbrev pub Unreserved : RowMvcc D → Type 0
  Unreserved s =
      (i : ℕ) → i < s.his_len → (entry_at s i).valid ≡ false → (entry_at s i).reserved ≡ false

  pub record Reserved (s : RowMvcc D) : Type 0 where
    pub inside : s.prewrite_his_id < s.his_len
    pub waiting : (entry_at s s.prewrite_his_id).valid ≡ false
    pub has_row : (entry_at s s.prewrite_his_id).row ≢ 0
    pub only :
        (i : ℕ)
        → i < s.his_len
        → i ≢ s.prewrite_his_id
        → (entry_at s i).valid ≡ false
        → (entry_at s i).reserved ≡ false
    pub newer : s.latest_wts < s.prewrite_ts
    pub after_reads : s.max_served_rts ≤ s.prewrite_ts
    pub timed : s.prewrite_ts < uint64_max
