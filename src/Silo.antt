-- ===== src/Silo.antt =====
-- concurrency_control/row_silo.cpp and silo.cpp: the word of a row, with the lock in its top bit and
-- the id of the last writer below, and txn_man::validate_silo, cut at each access to such a word.
-- Any number of validations run in any order; the rows' contents are left out.
pub mod WriteSet
pub mod Words
pub mod Phases
pub mod Steps
pub mod Keeps
pub mod Commits
pub mod System
pub mod Snapshot
mod Examples
use dbx1000_bskiplist.Base.{
  ℕ, ◌+◌, ◌%◌, List, [], ◌∷◌, ◌++◌, Bool, true, false, not, ◌&&◌, if◌then◌else◌, ltb, leb, ◌==◌,
  Option, none, some,
}

-- LOCK_BIT, 1UL << 63
abbrev pub lock_bit : ℕ
lock_bit = 9223372036854775808

-- v & LOCK_BIT, v & (~LOCK_BIT) and v | LOCK_BIT of a word of 64 bits
abbrev pub locked : ℕ → Bool
locked v = leb lock_bit v

abbrev pub tid_of : ℕ → ℕ
tid_of v = v % lock_bit

abbrev pub with_lock : ℕ → ℕ
with_lock v = if locked v then v else v + lock_bit

abbrev pub Words : Type 0
Words = ℕ → ℕ

abbrev pub put_word : Words → ℕ → ℕ → Words
put_word words row v x = if x == row then v else words x

-- A member of the read or the write set: `orig_row` and `tid`.
pub record Access : Type 0 where
  pub row : ℕ
  pub tid : ℕ

-- A transaction that validates, with its write set in the order of the primary keys.
pub record Txn : Type 0 where
  pub writes : List Access
  pub reads : List Access
  pub cur_tid : ℕ

-- Where validate_silo stands, before its next access to a word.
pub data Phase : Type 0 where
  -- get_tid, for _pre_abort
  pre_check : (todo : List Access) → Phase
  -- try_lock or lock: the read of the word, and the compare-and-swap
  acquire : (todo held : List Access) → Phase
  swap : (v : ℕ) (a : Access) (todo held : List Access) → Phase
  -- get_tid of the row just locked
  check : (a : Access) (todo held : List Access) → Phase
  -- the release of the locks before another try
  give_back : (held : List Access) → Phase
  validate_reads : (todo : List Access) → Phase
  validate_writes : (todo : List Access) → Phase
  -- the write of a row, and its release
  install : (tid : ℕ) (todo : List Access) → Phase
  release_next : (tid : ℕ) (a : Access) (todo : List Access) → Phase
  -- the release of the locks of a transaction that aborts
  abandon : (held : List Access) → Phase
  committed : Phase
  aborted : Phase

-- Row_silo::validate
abbrev pub row_validate : ℕ → ℕ → Bool → Bool
row_validate v tid true = tid == tid_of v
row_validate v tid false = not (locked v) && (tid == tid_of v)

abbrev pub max_from : ℕ → List Access → ℕ
max_from m [] = m
max_from m (a ∷ es) = max_from (if ltb m a.tid then a.tid else m) es

-- The new _cur_tid.
pub next_tid : Txn → ℕ
next_tid t =
    let max_tid = max_from (max_from 0 t.reads) t.writes in
    if ltb t.cur_tid max_tid then max_tid + 1 else t.cur_tid + 1

module _ (pre_abort validation_no_wait : Bool) (t : Txn) where
  abbrev pub start : Phase
  start = if pre_abort then pre_check (t.writes ++ t.reads) else acquire t.writes []

  -- What a row that cannot be locked makes of the attempt.
  abbrev pub busy : Access → List Access → List Access → Phase
  busy a todo held = if validation_no_wait then give_back held else acquire (a ∷ todo) held

  -- One access to a word; `none` is a failed assertion, of release or of write.
  pub step : Phase → Words → Option (Phase × Words)
  unfolding next_tid
  step (pre_check []) words = some (acquire t.writes [], words)
  step (pre_check (a ∷ todo)) words =
      some (if tid_of (words a.row) == a.tid then pre_check todo else abandon [], words)
  step (acquire [] held) words = some (validate_reads t.reads, words)
  step (acquire (a ∷ todo) held) words =
      some
        (if locked (words a.row) then busy a todo held else swap (words a.row) a todo held, words)
  step (swap v a todo held) words =
      if words a.row == v
      then some (check a todo held, put_word words a.row (with_lock v))
      else some (busy a todo held, words)
  step (check a todo held) words = some (
    if tid_of (words a.row) == a.tid
        then acquire todo (held ++ a ∷ [])
        else abandon (held ++ a ∷ []),
    words,
  )
  step (give_back []) words = some (start, words)
  step (give_back (a ∷ held)) words =
      if locked (words a.row)
      then some (give_back held, put_word words a.row (tid_of (words a.row)))
      else none
  step (validate_reads []) words = some (validate_writes t.writes, words)
  step (validate_reads (a ∷ todo)) words = some (
    if row_validate (words a.row) a.tid false then validate_reads todo else abandon t.writes,
    words,
  )
  step (validate_writes []) words = some (install (next_tid t) t.writes, words)
  step (validate_writes (a ∷ todo)) words = some (
    if row_validate (words a.row) a.tid true then validate_writes todo else abandon t.writes,
    words,
  )
  step (install tid []) words = some (committed, words)
  step (install tid (a ∷ todo)) words =
      if ltb (tid_of (words a.row)) tid && locked (words a.row)
      then some (release_next tid a todo, put_word words a.row (with_lock tid))
      else none
  step (release_next tid a todo) words =
      if locked (words a.row)
      then some (install tid todo, put_word words a.row (tid_of (words a.row)))
      else none
  step (abandon []) words = some (aborted, words)
  step (abandon (a ∷ held)) words =
      if locked (words a.row)
      then some (abandon held, put_word words a.row (tid_of (words a.row)))
      else none
  step committed words = some (committed, words)
  step aborted words = some (aborted, words)
