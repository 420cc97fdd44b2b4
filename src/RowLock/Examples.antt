-- ===== src/RowLock/Examples.antt =====
-- The theorems on the row lock at a run of three transactions: a reader of timestamp 5 owns the
-- row, an older writer waits for it, and the reader leaves.
use dbx1000_bskiplist.RowLock.Release.{Released, lock_release_total}
use dbx1000_bskiplist.RowLock.Wakes.{Woken, lock_release_wakes}
use dbx1000_bskiplist.RowLock.WaitDie.{Descending, waiter_older}
use dbx1000_bskiplist.RowLock.Grant.{Gets, lock_get_total}
use dbx1000_bskiplist.RowLock.Invariant.{Blocked, Inv, Absent, init-Inv}
use mathlib.Core.List.{Memᴰ}
use dbx1000_bskiplist.Base.{ℕ, refl, none, some, arith, [], ◌∷◌, ◌≡◌, Bool, ◌≤◌, true, false, ◌⊎◌}
use dbx1000_bskiplist.RowLock.{
  lock_ex, lock_sh, LockEntry, RowLock, wait, rc_ok, lock_release, set_ready, init, drop_entry,
  lock_get, remove_entry, wait_die, can_wait, insert_waiter, promote,
}
use dbx1000_bskiplist.RowLock.Safety.{Reach, start, next, gets, releases, writer_alone, Reach-Inv}

abbrev awake : ℕ → Bool
awake a = true

abbrev reader : LockEntry
reader = record { type = lock_sh; txn = record { addr = 1; txn_id = 11; ts = 5 } }

abbrev writer : LockEntry
writer = record { type = lock_ex; txn = record { addr = 2; txn_id = 12; ts = 3 } }

abbrev read_locked : RowLock
read_locked = record {
  lock_type = lock_sh;
  owner_cnt = 1;
  waiter_cnt = 0;
  owners = reader ∷ [];
  waiters = [];
  lock_ready = awake;
}

abbrev contended : RowLock
contended = record read_locked {
  waiter_cnt = 1;
  waiters = writer ∷ [];
  lock_ready = set_ready awake 2 false;
}

abbrev write_locked : RowLock
write_locked = record {
  lock_type = lock_ex;
  owner_cnt = 1;
  waiter_cnt = 0;
  owners = writer ∷ [];
  waiters = [];
  lock_ready = set_ready (set_ready awake 2 false) 2 true;
}

Reach-contended : Reach wait_die 4 (init awake) contended
unfolding init lock_get can_wait insert_waiter
Reach-contended =
    next {t = read_locked} (next start (gets lock_sh reader.txn rc_ok [] (λ e. cc) tt refl))
      (gets lock_ex writer.txn wait [] (λ e. cc) tt refl)

Reach-write_locked : Reach wait_die 4 (init awake) write_locked
unfolding lock_release drop_entry remove_entry promote
Reach-write_locked = next Reach-contended (releases reader.txn refl)

contended-Inv : Inv contended
contended-Inv = Reach-Inv {threads = 4} (omega arith) (init-Inv awake) Reach-contended

read_locked-Inv : Inv read_locked
read_locked-Inv = record {
  inner = record {
    owner_count = refl;
    waiter_count = refl;
    fits = omega arith;
    held = (omega arith, (refl, tt));
    requests = tt;
    asleep = tt;
    distinct = tt;
  };
  blocked = tt;
}

lock_get_total_example :
    Gets
      (record { type = lock_ex; txn = writer.txn })
      read_locked
      (lock_get wait_die 4 lock_ex writer.txn read_locked)
lock_get_total_example =
    lock_get_total wait_die 4 lock_ex writer.txn read_locked read_locked-Inv (λ e. cc) tt
      (omega arith) (omega arith) (omega arith)

lock_release_total_example :
    ((lock_release reader.txn contended ≡ none)
      × Absent 1 contended.owners
      × Absent 1 contended.waiters)
    ⊎ ((u : RowLock) × (lock_release reader.txn contended ≡ some u)
        × Inv u
        × Released 1 contended u)
lock_release_total_example = lock_release_total reader.txn contended contended-Inv

writer_alone_example : write_locked.owners ≡ writer ∷ []
writer_alone_example =
    writer_alone wait_die 4 awake write_locked writer (omega arith) Reach-write_locked
      (Memᴰ.head refl) refl

-- The reader leaves, and the writer is made the owner and told.
lock_release_wakes_example :
    ((e : LockEntry) → Memᴰ e write_locked.owners → Woken contended write_locked e)
    × (write_locked.owners ≡ [] → write_locked.waiters ≡ [])
    × Blocked write_locked.lock_type write_locked.waiters
unfolding lock_release drop_entry remove_entry promote
lock_release_wakes_example =
    lock_release_wakes wait_die 4 awake reader.txn contended write_locked (omega arith)
      Reach-contended refl

waiter_older_example : (3 ≤ 5) × Descending (writer ∷ [])
waiter_older_example =
    waiter_older 4 awake contended writer reader Reach-contended (Memᴰ.head refl) (Memᴰ.head refl)
