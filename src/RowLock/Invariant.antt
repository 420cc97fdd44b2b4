-- ===== src/RowLock/Invariant.antt =====
-- What holds of a row lock between two operations (row_lock.cpp), and the parts of it that hold
-- inside lock_release.
use dbx1000_bskiplist.Base.{
  ℕ, ◌+◌, ◌<◌, ◌≡◌, ◌≢◌, Bool, true, false, List, [], ◌∷◌, All, length, u32_mod, arith,
}
use dbx1000_bskiplist.RowLock.{
  LockType, lock_ex, lock_sh, lock_none, LockEntry, RowLock, conflict_lock, init,
}

-- The owners fit the type of the lock: none, some readers, or one writer.
abbrev pub Held : LockType → List LockEntry → Type 0
Held lock_none os = length os ≡ 0
Held lock_sh os = (0 < length os) × All (λ e. e.type ≡ lock_sh) os
Held lock_ex os = (length os ≡ 1) × All (λ e. e.type ≡ lock_ex) os

-- A request asks for a shared or an exclusive lock.
abbrev pub IsRequest : LockEntry → Type 0
IsRequest e = e.type ≢ lock_none

abbrev pub Asleep : (ℕ → Bool) → LockEntry → Type 0
Asleep ready e = ready e.txn.addr ≡ false

abbrev pub Absent : ℕ → List LockEntry → Type 0
Absent a = All (λ e. e.txn.addr ≢ a)

-- No transaction waits twice.
abbrev pub Distinct : List LockEntry → Type 0
Distinct [] = Unit {0}
Distinct (w ∷ ws) = Absent w.txn.addr ws × Distinct ws

-- The first waiter cannot join the owners.
abbrev pub Blocked : LockType → List LockEntry → Type 0
Blocked type [] = Unit {0}
Blocked type (w ∷ ws) = conflict_lock type w.type ≡ true

-- What holds also before the loop of lock_release.
pub record Inner (s : RowLock) : Type 0 where
  pub owner_count : s.owner_cnt ≡ length s.owners
  pub waiter_count : s.waiter_cnt ≡ length s.waiters
  pub fits : length s.owners + length s.waiters < u32_mod
  pub held : Held s.lock_type s.owners
  pub requests : All IsRequest s.waiters
  pub asleep : All (Asleep s.lock_ready) s.waiters
  pub distinct : Distinct s.waiters

pub record Inv (s : RowLock) : Type 0 where
  pub inner : Inner s
  pub blocked : Blocked s.lock_type s.waiters

pub init-Inv : (ready : ℕ → Bool) → Inv (init ready)
unfolding init
init-Inv ready = record {
  inner = record {
    owner_count = omega arith;
    waiter_count = omega arith;
    fits = omega arith;
    held = omega arith;
    requests = tt;
    asleep = tt;
    distinct = tt;
  };
  blocked = tt;
}
