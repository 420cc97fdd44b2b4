-- ===== src/RowLock.antt =====
-- concurrency_control/row_lock.h and row_lock.cpp: the lock of one row, for two-phase locking.
-- The list of owners is a stack; the list of waiters stands head first. A transaction is known by
-- its address. `lock_ready` holds the flag of that name of every txn_man. Each operation runs under
-- the row's latch (or the central manager's), so it is one step; `none` is a failed assertion.
pub mod Invariant
pub mod Entries
pub mod Release
pub mod Get
pub mod Grant
mod Examples
pub mod DlDetect
pub mod WaitDie
pub mod Safety
pub mod Wakes
pub mod Enqueue
use dbx1000_bskiplist.Base.{
  ℕ, ◌+◌, Bool, true, false, not, ◌&&◌, ◌||◌, Option, none, some, List, [], ◌∷◌, ◌++◌, reverse,
  if◌then◌else◌, ltb, leb, ◌==◌, inc32, dec32, ◌>>=◌, ◌>>◌, assert,
}

pub data CcAlg : Type 0 where
  no_wait wait_die dl_detect : CcAlg

pub data LockType : Type 0 where
  lock_ex lock_sh lock_none : LockType

pub data Rc : Type 0 where
  rc_ok commit abort wait error finish : Rc

-- What a lock reads of a txn_man: its address, get_txn_id() and get_ts().
pub record Txn : Type 0 where
  pub addr : ℕ
  pub txn_id : ℕ
  pub ts : ℕ

pub record LockEntry : Type 0 where
  pub type : LockType
  pub txn : Txn

pub record RowLock : Type 0 where
  pub lock_type : LockType
  pub owner_cnt : ℕ  -- UInt32
  pub waiter_cnt : ℕ  -- UInt32
  pub owners : List LockEntry
  pub waiters : List LockEntry
  pub lock_ready : ℕ → Bool

unfoldable pub init : (ℕ → Bool) → RowLock
init ready = record {
  lock_type = lock_none;
  owner_cnt = 0;
  waiter_cnt = 0;
  owners = [];
  waiters = [];
  lock_ready = ready;
}

abbrev pub conflict_lock : LockType → LockType → Bool
conflict_lock lock_none _ = false
conflict_lock _ lock_none = false
conflict_lock lock_ex _ = true
conflict_lock _ lock_ex = true
conflict_lock _ _ = false

abbrev pub is_none : LockType → Bool
is_none lock_none = true
is_none _ = false

abbrev pub is_empty : List LockEntry → Bool
is_empty [] = true
is_empty (_ ∷ _) = false

abbrev pub set_ready : (ℕ → Bool) → ℕ → Bool → ℕ → Bool
set_ready ready a b x = if x == a then b else ready x

-- `waiters_head && txn->get_ts() < waiters_head->txn->get_ts()`
abbrev pub older_than_head : ℕ → List LockEntry → Bool
older_than_head ts [] = false
older_than_head ts (w ∷ _) = ltb ts w.txn.ts

-- The value of `conflict` after its three assignments.
abbrev pub conflicts : CcAlg → LockType → Txn → RowLock → Bool
conflicts no_wait type txn s = conflict_lock s.lock_type type
conflicts wait_die type txn s = conflict_lock s.lock_type type || older_than_head txn.ts s.waiters
conflicts dl_detect type txn s = conflict_lock s.lock_type type || not (is_empty s.waiters)

-- WAIT_DIE: whether no owner has a smaller timestamp.
pub can_wait : ℕ → List LockEntry → Bool
can_wait ts [] = true
can_wait ts (e ∷ es) = if ltb e.txn.ts ts then false else can_wait ts es

-- WAIT_DIE: past every waiter whose timestamp is greater.
pub insert_waiter : LockEntry → List LockEntry → List LockEntry
insert_waiter e [] = e ∷ []
insert_waiter e (w ∷ ws) = if ltb e.txn.ts w.txn.ts then w ∷ insert_waiter e ws else e ∷ w ∷ ws

abbrev pub enqueue : RowLock → List LockEntry → ℕ → RowLock
enqueue s ws a = record s {
  waiters = ws;
  waiter_cnt = inc32 s.waiter_cnt;
  lock_ready = set_ready s.lock_ready a false;
}

abbrev pub grant : RowLock → LockEntry → RowLock
grant s e = record s { owners = e ∷ s.owners; owner_cnt = inc32 s.owner_cnt; lock_type = e.type }

-- The ids of the entries that conflict with `type`, in the order of the walk.
pub conflicting_ids : LockType → List LockEntry → List ℕ
conflicting_ids type [] = []
conflicting_ids type (e ∷ es) =
    let rest = conflicting_ids type es in
    if conflict_lock type e.type then e.txn.txn_id ∷ rest else rest

pub owner_ids : List LockEntry → List ℕ
owner_ids [] = []
owner_ids (e ∷ es) = e.txn.txn_id ∷ owner_ids es

-- DL_DETECT: from the tail's predecessor back to the head, then the owners.
pub waits_for : LockType → RowLock → List ℕ
unfolding conflicting_ids owner_ids
waits_for type s =
    conflicting_ids type (reverse s.waiters)
    ++ (if conflict_lock type s.lock_type then owner_ids s.owners else [])

abbrev pub has_ids : List ℕ → Bool
has_ids [] = false
has_ids (_ ∷ _) = true

-- The new state, the return code, and the transactions waited for (DL_DETECT).
abbrev pub Outcome : Type 0
Outcome = RowLock × Rc × List ℕ

abbrev pub refuse : CcAlg → LockEntry → RowLock → Option Outcome
refuse no_wait e s = some (s, abort, [])
refuse dl_detect e s = do
  assert (has_ids (waits_for e.type s))
  some (enqueue s (s.waiters ++ e ∷ []) e.txn.addr, wait, waits_for e.type s)
refuse wait_die e s =
    if can_wait e.txn.ts s.owners
    then some (enqueue s (insert_waiter e s.waiters) e.txn.addr, wait, [])
    else some (s, abort, [])

abbrev pub accept : CcAlg → LockEntry → RowLock → Option Outcome
accept dl_detect e s = do assert (is_empty s.waiters); some (grant s e, rc_ok, [])
accept _ e s = some (grant s e, rc_ok, [])

-- `threads` is g_thread_cnt.
pub lock_get : CcAlg → ℕ → LockType → Txn → RowLock → Option Outcome
lock_get alg threads type txn s = do
  assert (leb s.owner_cnt threads)
  assert (ltb s.waiter_cnt threads)
  let e : LockEntry = record { type = type; txn = txn }
  if conflicts alg type txn s then refuse alg e s else accept alg e s

-- The list less its first entry of the transaction; `none` if there is none.
pub remove_entry : ℕ → List LockEntry → Option (List LockEntry)
remove_entry a [] = none
remove_entry a (e ∷ es) =
    if e.txn.addr == a then some es else do rest ← remove_entry a es; some (e ∷ rest)

-- The owner's entry is gone: the count, and the type if none is left.
abbrev pub drop_owner : RowLock → List LockEntry → RowLock
drop_owner s os = record s {
  owners = os;
  owner_cnt = dec32 s.owner_cnt;
  lock_type = if dec32 s.owner_cnt == 0 then lock_none else s.lock_type;
}

abbrev pub drop_waiter : RowLock → List LockEntry → RowLock
drop_waiter s ws = record s { waiters = ws; waiter_cnt = dec32 s.waiter_cnt }

-- One round of the loop over the waiters: the head becomes an owner.
abbrev pub promote_head : RowLock → LockEntry → List LockEntry → RowLock
promote_head s w ws = record s {
  waiters = ws;
  owners = w ∷ s.owners;
  owner_cnt = inc32 s.owner_cnt;
  waiter_cnt = dec32 s.waiter_cnt;
  lock_ready = set_ready s.lock_ready w.txn.addr true;
  lock_type = w.type;
}

-- The loop, over the waiters that are left.
pub promote : List LockEntry → RowLock → Option RowLock
promote [] s = some s
promote (w ∷ ws) s =
    if conflict_lock s.lock_type w.type
    then some s
    else do assert (not (s.lock_ready w.txn.addr)); promote ws (promote_head s w ws)

unfoldable pub drop_entry : ℕ → RowLock → Option RowLock
drop_entry a s = elim (remove_entry a s.owners) [
  | some os ↦ some (drop_owner s os)
  | none ↦ do ws ← remove_entry a s.waiters; some (drop_waiter s ws)
]

abbrev pub same : Bool → Bool → Bool
same true b = b
same false b = not b

pub lock_release : Txn → RowLock → Option RowLock
lock_release txn s = do
  t ← drop_entry txn.addr s
  assert (if t.owner_cnt == 0 then is_none t.lock_type else true)
  u ← promote t.waiters t
  assert (same (is_empty u.owners) (u.owner_cnt == 0))
  some u
