-- ===== src/RowTictoc/Renew.antt =====
-- What a renewed lease promises, and that a retry can shorten one (row_tictoc.cpp).
use dbx1000_bskiplist.Base.{
  ℕ, List, ◌∷◌, ◌≡◌, ◌≤◌, refl, arith, ◌==◌, ltb, ◌+◌, false, ◌<◌, ◌++◌, ◌⊎◌, ◌-◌, ◌%◌, leb,
  if◌then◌else◌, true, ◌/◌, ◌*◌,
}
use dbx1000_bskiplist.RowTictoc.{
  locked, get_wts, get_rts, lease, Renewed, already, swapped, refused, unfinished, swap_loop,
  try_renew, wts_mod, u64_mod, rts_mod, pack,
}

-- A word whose lease lasts until `rts`.
abbrev pub Lasts : ℕ → ℕ → Type 0
Lasts rts w = rts ≤ get_rts w

-- The word is unlocked and still has the write timestamp.
abbrev pub Unmoved : ℕ → ℕ → Type 0
Unmoved wts w = (locked w ≡ false) × (get_wts w ≡ wts)

-- What try_renew has found in the word at its last step, and not before: `so_far` is its outcome when
-- the values end earlier.
pub record Last (wts : ℕ) (so_far : List ℕ → Renewed) (vs : List ℕ) (w : ℕ) : Type 0 where
  pub read : List ℕ
  pub unread : List ℕ
  pub whole : vs ≡ read ++ w ∷ unread
  pub going_on : so_far read ≡ unfinished
  pub unmoved : Unmoved wts w

-- The word of the last step promises the lease, or is the one that the new word is put for.
abbrev pub LoopPromise : (wts rts v2 : ℕ) → (List ℕ → Renewed) → List ℕ → Renewed → Type 0
LoopPromise wts rts v2 so_far vs refused = Unit {0}
LoopPromise wts rts v2 so_far vs unfinished = Unit {0}
LoopPromise wts rts v2 so_far vs already = (w : ℕ) × Last wts so_far vs w × Lasts rts w
LoopPromise wts rts v2 so_far vs (swapped x) =
    (w : ℕ) × Last wts so_far vs w × (x ≡ v2) × Lasts rts x

-- The word that try_renew swaps in.
abbrev pub new_word : ℕ → ℕ → ℕ
new_word wts rts =
    let delta_rts = (rts + u64_mod - wts) % u64_mod in
    let rebase = leb rts_mod delta_rts in
    pack (if rebase then wts + delta_rts / rts_mod * rts_mod else wts)
      (if rebase then delta_rts % rts_mod else delta_rts)

-- The first word, which may be locked, already has the lease; or see LoopPromise.
abbrev pub Promise : (wts rts v : ℕ) → List ℕ → Renewed → Type 0
Promise wts rts v vs refused = Unit {0}
Promise wts rts v vs unfinished = Unit {0}
Promise wts rts v vs already =
    ((get_wts v ≡ wts) × Lasts rts v)
    ⊎ LoopPromise wts rts (new_word wts rts) (try_renew wts rts v) vs already
Promise wts rts v vs (swapped x) =
    LoopPromise wts rts (new_word wts rts) (try_renew wts rts v) vs (swapped x)

-- An unlocked word has a lease of length `c`. Another thread renews it to `b`, below 2^15, between
-- the read and the compare-and-swap of a try_renew to the length `a`, with c < a < b. Where the
-- length `b` is not above the timestamp wts + a, and wts + b has 48 bits, the retry swaps in the
-- shorter lease until wts + a, so the longer one, already granted, is lost.
pub retry_shortens :
    (wts a b c : ℕ) (more : List ℕ)
    → c < a
    → a < b
    → b < rts_mod
    → b ≤ wts + a
    → wts + b < wts_mod
    → (try_renew wts (wts + a) (pack wts c) (pack wts b ∷ pack wts b ∷ more) ≡ swapped (pack wts a))
      × (get_rts (pack wts a) < get_rts (pack wts b))
unfolding try_renew swap_loop
retry_shortens wts a b c more pos less small later fits =
    let d : (wts + a + u64_mod - wts) % u64_mod ≡ a = omega arith in
    let t1 : leb rts_mod a ≡ false = ground arith in
    let t2 : (get_wts (pack wts c) == wts) ≡ true = ground arith in
    let t3 : leb a (lease (pack wts c)) ≡ false = ground arith in
    let t4 : locked (pack wts c) ≡ false = ground arith in
    let t5 : ltb a (lease (pack wts c)) ≡ false = ground arith in
    let t6 : (pack wts b == pack wts c) ≡ false = ground arith in
    let t7 : locked (pack wts b) ≡ false = ground arith in
    let t8 : (get_wts (pack wts b) == wts) ≡ true = ground arith in
    let t9 : ltb (wts + a) (lease (pack wts b)) ≡ false = ground arith in
    let t0 : (pack wts b == pack wts b) ≡ true = ground arith in
    (rw (d, t1, t2, t3, t4, t5, t6, t7, t8, t9, t0) refl, omega arith)
