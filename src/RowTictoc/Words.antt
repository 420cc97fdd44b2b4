-- ===== src/RowTictoc/Words.antt =====
-- The fields of the timestamp word, and what the simple operations do to them (row_tictoc.cpp).
use dbx1000_bskiplist.Base.{
  ℕ, List, [], ◌∷◌, some, ◌≡◌, ◌<◌, refl, arith, true, false, ◌==◌, Bool-cases, inl, inr, ==_iff,
  some_inj, sym, ◌≢◌, ◌⊎◌, ◌+◌, ap, ◌∙◌,
}
use mathlib.Core.List.{Memᴰ}
use dbx1000_bskiplist.RowTictoc.{
  lock_bit, wts_mod, rts_mod, u64_mod, locked, get_wts, get_rts, lease, pack, write_data, release,
  try_lock, access, Reading, Local,
}

-- A packed word has the fields that were packed, and no lock.
pub pack_fields :
    (wts delta : ℕ)
    → wts < wts_mod
    → delta < rts_mod
    → (get_wts (pack wts delta) ≡ wts)
      × (lease (pack wts delta) ≡ delta)
      × (locked (pack wts delta) ≡ false)
pack_fields wts delta h k = (omega arith, omega arith, ground arith)

-- Locking an unlocked word of 64 bits and releasing it gives the word back.
pub release-try_lock :
    (v : ℕ)
    → v < u64_mod
    → locked v ≡ false
    → (try_lock v v).0 ≡ true × (locked (try_lock v v).1 ≡ true) × (release (try_lock v v).1 ≡ v)
release-try_lock v h l =
    let same : (v == v) ≡ true = ground arith in
    let small : v < lock_bit = ground arith in rw (l, same) (refl, ground arith, omega arith)

-- When access ends, it did so by one of its readings: unlocked before and after the copy, with one
-- write timestamp, and the timestamps returned are those of the word read first.
pub access_stable :
    {D : Type 0} (rs : List (Reading D)) (out : Local D)
    → access rs ≡ some out
    → (r : Reading D) × Memᴰ r rs
      × (locked r.before ≡ false)
      × (locked r.after ≡ false)
      × (get_wts r.after ≡ get_wts r.before)
      × (out ≡ record {
        local_row = r.copied;
        last_wts = get_wts r.before;
        last_rts = get_rts r.before;
      })
unfolding access
access_stable [] out h = cc
access_stable (r ∷ rs) out h = elim (Bool-cases (locked r.before)) [
  | inl c ↦
      let (q, m, a1, a2, a3, a4) = access_stable rs out (rw c at h) in
      (q, Memᴰ.tail m, a1, a2, a3, a4)
  | inr c ↦ elim (Bool-cases (get_wts r.after == get_wts r.before)) [
    | inr d ↦
        let (q, m, a1, a2, a3, a4) = access_stable rs out (rw (c, d) at h) in
        (q, Memᴰ.tail m, a1, a2, a3, a4)
    | inl d ↦ elim (Bool-cases (locked r.after)) [
      | inl e ↦
          let (q, m, a1, a2, a3, a4) = access_stable rs out (rw (c, d, e) at h) in
          (q, Memᴰ.tail m, a1, a2, a3, a4)
      | inr e ↦
          let same = some_inj (rw (c, d, e) at h) in
          (r, Memᴰ.head refl, c, e, (==_iff _ _).0 d, sym same)
    ]
  ]
]

-- A reading with another write timestamp after the copy, or with a lock, is not accepted.
access_retries :
    {D : Type 0} (x : D) (before after : ℕ) (rs : List (Reading D))
    → (locked before ≡ true) ⊎ ((locked after ≡ true) ⊎ (get_wts after ≢ get_wts before))
    → access (record { before = before; copied = x; after = after } ∷ rs) ≡ access rs
unfolding access
access_retries x before after rs why = ground arith

-- The words that a write goes through: unlocked, locked, with the new timestamp, and released.
abbrev pub taken : ℕ → ℕ
taken v = (try_lock v v).1

abbrev pub stamped : ℕ → ℕ → ℕ
stamped v wts = write_data (taken v) wts

-- For an unlocked word of 64 bits and a new timestamp of 48 bits: a write locks the word, keeps it
-- locked in write_data, and its release leaves the new timestamp with an empty lease. If the
-- timestamp is another than before, a reading that overlaps the write is read again: access accepts
-- none whose first word is from before the release and whose second is from after the locking.
pub write_data-release :
    {D : Type 0} (x : D) (rs : List (Reading D)) (v wts : ℕ)
    → wts < wts_mod
    → v < u64_mod
    → locked v ≡ false
    → get_wts v ≢ wts
    → let done = release (stamped v wts) in
      (locked (taken v) ≡ true)
      × (locked (stamped v wts) ≡ true)
      × (locked done ≡ false)
      × (get_wts done ≡ wts)
      × (get_rts done ≡ wts)
      × ((before after : ℕ)
          → (before ≡ v) ⊎ ((before ≡ taken v) ⊎ (before ≡ stamped v wts))
          → (after ≡ taken v) ⊎ ((after ≡ stamped v wts) ⊎ (after ≡ done))
          → access (record { before = before; copied = x; after = after } ∷ rs) ≡ access rs)
write_data-release x rs v wts h k l other =
    let (_, locks, _) = release-try_lock v k l in
    let small : v < lock_bit = ground arith in
    let got : taken v ≡ v + lock_bit = ground arith in
    let left : stamped v wts ≡ lock_bit + wts = rw got (omega arith) in
    let kept : locked (stamped v wts) ≡ true = rw left (ground arith) in
    let free : locked (release (stamped v wts)) ≡ false = rw left (ground arith) in
    let stamp : get_wts (release (stamped v wts)) ≡ wts = rw left (omega arith) in
    let until : get_rts (release (stamped v wts)) ≡ wts = rw left (omega arith) in
    (
      locks,
      kept,
      free,
      stamp,
      until,
      λ before after b a. access_retries x before after rs (elim b [
        | inl e ↦ inr (elim a [
          | inl e' ↦ inl (rw e' locks)
          | inr (inl e') ↦ inl (rw e' kept)
          | inr (inr e') ↦ inr (λ q. other (ap get_wts (sym e) ∙ sym q ∙ ap get_wts e' ∙ stamp))
        ])
        | inr (inl e) ↦ inl (rw e locks)
        | inr (inr e) ↦ inl (rw e kept)
      ]),
    )
