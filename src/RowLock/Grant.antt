-- ===== src/RowLock/Grant.antt =====
-- lock_get as a whole: it never fails an assertion, and what each return code says of the lock.
use dbx1000_bskiplist.RowLock.Get.{waits_for-nonempty, Blocked-join}
use dbx1000_bskiplist.RowLock.Release.{Held-join, Asleep-set}
use dbx1000_bskiplist.Base.{
  ℕ, refl, inl, inr, some, arith, Option, suc, ◌≡◌, length, ◌∷◌, false, List, ◌+◌, ◌<◌, u32_mod,
  true, [], Bool-cases, ◌≢◌, ◌≤◌, leb, ltb,
}
use dbx1000_bskiplist.RowLock.{
  CcAlg, no_wait, wait_die, dl_detect, Rc, rc_ok, commit, abort, wait, error, finish, LockEntry,
  RowLock, Outcome, conflicts, enqueue, conflict_lock, accept, grant, refuse, is_empty, set_ready,
  can_wait, lock_get, LockType, Txn, lock_none,
}
use dbx1000_bskiplist.RowLock.Invariant.{IsRequest, Asleep, Absent, Blocked, Inv}
use dbx1000_bskiplist.RowLock.Enqueue.{
  Inserted, length-Inserted, Inserted-All, Inserted-last, Blocked-last, Inserted-Distinct,
  insert_waiter-Inserted, Blocked-insert_waiter,
}

-- What a return code of lock_get says: the entry joined the owners, the entry joined the waiters
-- and its transaction sleeps, or nothing changed.
abbrev pub Got : LockEntry → RowLock → RowLock → Rc → Type 0
Got e s u rc_ok = (u.owners ≡ e ∷ s.owners) × (u.waiters ≡ s.waiters) × (u.lock_type ≡ e.type)
Got e s u wait =
    Inserted e s.waiters u.waiters × (u.owners ≡ s.owners) × (u.lock_ready e.txn.addr ≡ false)
Got e s u abort = u ≡ s
Got e s u commit = ⊥
Got e s u error = ⊥
Got e s u finish = ⊥

abbrev pub Gets : LockEntry → RowLock → Option Outcome → Type 0
Gets e s r =
    (u : RowLock) × (rc : Rc) × (ids : List ℕ) × (r ≡ some (u, rc, ids)) × Inv u × Got e s u rc

module _ (s : RowLock) (e : LockEntry) (v : Inv s) (request : IsRequest e)
    (absent : Absent e.txn.addr s.waiters)
    (room : suc (length s.owners + length s.waiters) < u32_mod) where
  enqueue-Inv :
      (ws : List LockEntry)
      → Inserted e s.waiters ws
      → Blocked s.lock_type ws
      → Inv (enqueue s ws e.txn.addr)
  enqueue-Inv ws m b = record {
    inner = record {
      owner_count = v.inner.owner_count;
      waiter_count = omega (arith, length-Inserted m, v.inner.waiter_count);
      fits = omega (arith, length-Inserted m);
      held = v.inner.held;
      requests = Inserted-All IsRequest m request v.inner.requests;
      asleep =
          Inserted-All (Asleep (set_ready s.lock_ready e.txn.addr false)) m (ground arith)
            (Asleep-set s.lock_ready e.txn.addr false s.waiters absent v.inner.asleep);
      distinct = Inserted-Distinct m absent v.inner.distinct;
    };
    blocked = b;
  }

  enqueue-Gets :
      (ws : List LockEntry) (ids : List ℕ)
      → Inserted e s.waiters ws
      → Blocked s.lock_type ws
      → Gets e s (some (enqueue s ws e.txn.addr, wait, ids))
  enqueue-Gets ws ids m b =
      (enqueue s ws e.txn.addr, wait, ids, refl, enqueue-Inv ws m b, (m, refl, ground arith))

  accept-Inv : conflict_lock s.lock_type e.type ≡ false → Inv (grant s e)
  accept-Inv c = record {
    inner = record {
      owner_count = omega (arith, v.inner.owner_count);
      waiter_count = v.inner.waiter_count;
      fits = omega arith;
      held = Held-join s.lock_type e.type s.owners e refl request c v.inner.held;
      requests = v.inner.requests;
      asleep = v.inner.asleep;
      distinct = v.inner.distinct;
    };
    blocked = Blocked-join s.lock_type e.type s.waiters request c v.blocked;
  }

  refuse_total : (alg : CcAlg) → conflicts alg e.type e.txn s ≡ true → Gets e s (refuse alg e s)
  refuse_total no_wait c = (s, abort, [], refl, v, refl)
  refuse_total dl_detect c = rw (waits_for-nonempty e.type e.txn s request v c) (
      enqueue-Gets _ _ (Inserted-last e s.waiters)
        (Blocked-last s.lock_type e s.waiters v.blocked c))
  refuse_total wait_die c = elim (Bool-cases (can_wait e.txn.ts s.owners)) [
    | inl k ↦ rw k (
        enqueue-Gets _ _ (insert_waiter-Inserted e s.waiters)
          (Blocked-insert_waiter s.lock_type e s.waiters v.blocked c))
    | inr k ↦ rw k (s, abort, [], refl, v, refl)
  ]

  accept_total : (alg : CcAlg) → conflicts alg e.type e.txn s ≡ false → Gets e s (accept alg e s)
  accept_total no_wait c = (grant s e, rc_ok, [], refl, accept-Inv c, (refl, refl, refl))
  accept_total wait_die c =
      (grant s e, rc_ok, [], refl, accept-Inv (ground arith), (refl, refl, refl))
  accept_total dl_detect c =
      let free : is_empty s.waiters ≡ true = ground arith in
      rw free (grant s e, rc_ok, [], refl, accept-Inv (ground arith), (refl, refl, refl))

-- Where lock_get's two opening assertions hold, that there are at most g_thread_cnt owners and fewer
-- waiters, and the transaction does not wait there already, lock_get fails no later assertion, in any
-- of the three modes. It keeps the invariant, and its return code says what became of the request.
pub lock_get_total :
    (alg : CcAlg) (threads : ℕ) (type : LockType) (txn : Txn) (s : RowLock)
    → Inv s
    → type ≢ lock_none
    → Absent txn.addr s.waiters
    → length s.owners ≤ threads
    → length s.waiters < threads
    → threads + threads < u32_mod
    → Gets (record { type = type; txn = txn }) s (lock_get alg threads type txn s)
unfolding lock_get
lock_get_total alg threads type txn s v request absent few fewer small =
    let e : LockEntry = record { type = type; txn = txn } in
    let room : suc (length s.owners + length s.waiters) < u32_mod = omega arith in
    let a : leb s.owner_cnt threads ≡ true = ground (arith, v.inner.owner_count) in
    let b : ltb s.waiter_cnt threads ≡ true = ground (arith, v.inner.waiter_count) in
    elim (Bool-cases (conflicts alg type txn s)) [
      | inl c ↦ rw (a, b, c) (refuse_total s e v request absent room alg c)
      | inr c ↦ rw (a, b, c) (accept_total s e v request absent room alg c)
    ]
