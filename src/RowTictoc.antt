-- ===== src/RowTictoc.antt =====
-- concurrency_control/row_tictoc.h and row_tictoc.cpp: one row under TicToc, as built with ATOMIC_WORD,
-- without TICTOC_MV and WRITE_PERMISSION_LOCK. `_ts_word` has the lock in bit 63, the length of the
-- lease in the 15 bits below, and the write timestamp in the low 48; `&` with a mask and `>>` are
-- written by `%` and `/`, and `|` of words without a common bit by `+`. What other threads do to the
-- word is a list: the values that the operation finds at each of its reads or compare-and-swaps.
pub mod Words
pub mod Renew
mod Examples
use dbx1000_bskiplist.Base.{
  ℕ, List, [], ◌∷◌, Option, none, some, if◌then◌else◌, ◌==◌, ◌+◌, ◌-◌, ◌*◌, ◌/◌, ◌%◌, ltb, leb,
  Bool, true, false, ◌&&◌, ◌||◌,
}

-- 2 ^ 63, 2 ^ 48, 2 ^ 15 and 2 ^ 64
abbrev pub lock_bit : ℕ
lock_bit = 9223372036854775808

abbrev pub wts_mod : ℕ
wts_mod = 281474976710656

abbrev pub rts_mod : ℕ
rts_mod = 32768

abbrev pub u64_mod : ℕ
u64_mod = 18446744073709551616

abbrev pub locked : ℕ → Bool
locked v = leb lock_bit (v % u64_mod)

abbrev pub get_wts : ℕ → ℕ
get_wts v = v % wts_mod

-- The length of the lease, `(v & RTS_MASK) >> WTS_LEN`.
abbrev pub lease : ℕ → ℕ
lease v = v / wts_mod % rts_mod

abbrev pub get_rts : ℕ → ℕ
get_rts v = lease v + get_wts v

-- get_ts_word: the lock, rts and wts.
abbrev pub get_ts_word : ℕ → Bool × ℕ × ℕ
get_ts_word v = (locked v, get_rts v, get_wts v)

-- A word without the lock.
abbrev pub pack : ℕ → ℕ → ℕ
pack wts delta = wts + delta * wts_mod

-- The words of write_data: the two fields are cleared by their masks, which leaves the lock alone,
-- and the timestamp is put in.
abbrev pub clear_stamps : ℕ → ℕ
clear_stamps v = v - lease v * wts_mod - get_wts v

abbrev pub write_data : ℕ → ℕ → ℕ
write_data v wts = clear_stamps v + wts

-- try_lock, where the compare-and-swap finds `pre_v`: the result, and the word after it.
abbrev pub try_lock : ℕ → ℕ → Bool × ℕ
try_lock v pre_v =
    if locked v then (false, pre_v) else if pre_v == v then (true, v + lock_bit) else (false, pre_v)

abbrev pub release : ℕ → ℕ
release v = v % lock_bit

-- One round of access: the word read, the copy of the row, and the word read after it.
pub record Reading (D : Type 0) : Type 0 where
  pub before : ℕ
  pub copied : D
  pub after : ℕ

-- What access leaves: the copy, last_wts and last_rts.
pub record Local (D : Type 0) : Type 0 where
  pub local_row : D
  pub last_wts : ℕ
  pub last_rts : ℕ

module _ {D : Type 0} where
  -- `none` if the readings end before the loop does. A locked word is read again; the words are
  -- compared but for the lease.
  pub access : List (Reading D) → Option (Local D)
  access [] = none
  access (r ∷ rs) =
      let rest = access rs in
      if locked r.before
      then rest
      else if get_wts r.after == get_wts r.before
      then (if locked r.after
          then rest
          else some (record {
            local_row = r.copied;
            last_wts = get_wts r.before;
            last_rts = get_rts r.before;
          }))
      else rest

-- What try_renew returns, and the word that it swapped in, if it did; or the values ended first.
pub data Renewed : Type 0 where
  refused : Renewed
  already : Renewed
  swapped : (word : ℕ) → Renewed
  unfinished : Renewed

-- The loop of compare-and-swaps: `v` is expected, `v2` swapped in, and each value of the list is what
-- one compare-and-swap finds.
pub swap_loop : (rebase : Bool) → (wts rts v v2 : ℕ) → List ℕ → Renewed
swap_loop rebase wts rts v v2 [] = unfinished
swap_loop rebase wts rts v v2 (pre_v ∷ more) =
    let rest = swap_loop rebase wts rts pre_v v2 more in
    if pre_v == v
    then swapped v2
    else if rebase
    then refused
    else if locked pre_v
    then refused
    else if get_wts pre_v == wts
    then (if ltb rts (lease pre_v) then already else rest)
    else refused

pub try_renew : (wts rts v : ℕ) → List ℕ → Renewed
unfolding swap_loop
try_renew wts rts v pre_vs =
    let delta_rts = (rts + u64_mod - wts) % u64_mod in
    let rebase = leb rts_mod delta_rts in
    let wts' = if rebase then wts + delta_rts / rts_mod * rts_mod else wts in
    let delta' = if rebase then delta_rts % rts_mod else delta_rts in
    if get_wts v == wts && leb delta_rts (lease v)
    then already
    else if locked v
    then refused
    else if get_wts v == wts
    then (if ltb delta_rts (lease v)
        then already
        else swap_loop rebase wts' rts v (pack wts' delta') pre_vs)
    else refused
