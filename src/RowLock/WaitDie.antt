-- ===== src/RowLock/WaitDie.antt =====
-- WAIT_DIE in row_lock.cpp: the order of the waiters, and who waits for whom.
use dbx1000_bskiplist.RowLock.Safety.{Reach, next, gets, releases, start}
use mathlib.Core.List.{Memᴰ}
use dbx1000_bskiplist.Base.{
  ℕ, refl, inl, inr, none, some, arith, List, Option, ◌≡◌, Bool-cases, All, ◌≤◌, ◌∷◌, false, subst,
  ltb, true, some_inj, [], if◌then◌else◌, assert-eq-some, Bool, leb, bind-eq-some, not, ◌==◌,
  All-mem,
}
use dbx1000_bskiplist.RowLock.{
  wait_die, LockEntry, RowLock, can_wait, older_than_head, lock_get, promote, insert_waiter, refuse,
  Outcome, LockType, Txn, grant, conflict_lock, init, lock_release, drop_entry, conflicts, accept,
  promote_head, is_none, same, is_empty,
}
use dbx1000_bskiplist.RowLock.Entries.{Removed, hit, miss, Removed-All, remove_entry_cases}
use dbx1000_bskiplist.RowLock.Enqueue.{Inserted-All, insert_waiter-Inserted}

-- No entry of the list is older than the timestamp, or none is younger.
abbrev pub NoneOlder : ℕ → List LockEntry → Type 0
NoneOlder ts = All (λ o. ts ≤ o.txn.ts)

abbrev pub NoneYounger : ℕ → List LockEntry → Type 0
NoneYounger ts = All (λ w. w.txn.ts ≤ ts)

-- From the head to the tail the timestamps do not grow.
abbrev pub Descending : List LockEntry → Type 0
Descending [] = Unit {0}
Descending (w ∷ ws) = NoneYounger w.txn.ts ws × Descending ws

abbrev pub WaitsForYounger : List LockEntry → List LockEntry → Type 0
WaitsForYounger os = All (λ w. NoneOlder w.txn.ts os)

pub record Ordered (s : RowLock) : Type 0 where
  pub descending : Descending s.waiters
  pub younger : WaitsForYounger s.owners s.waiters

can_wait-NoneOlder : (ts : ℕ) (os : List LockEntry) → can_wait ts os ≡ true → NoneOlder ts os
unfolding can_wait
can_wait-NoneOlder ts [] h = tt
can_wait-NoneOlder ts (o ∷ os) h = ground (arith, can_wait-NoneOlder ts os)

NoneYounger-mono : (a b : ℕ) (ws : List LockEntry) → a ≤ b → NoneYounger a ws → NoneYounger b ws
NoneYounger-mono a b [] h n = tt
NoneYounger-mono a b (w ∷ ws) h n = (omega arith, NoneYounger-mono a b ws h n.1)

Descending-insert_waiter :
    (e : LockEntry) (ws : List LockEntry) → Descending ws → Descending (insert_waiter e ws)
unfolding insert_waiter
Descending-insert_waiter e [] d = (tt, tt)
Descending-insert_waiter e (w ∷ ws) d = elim (Bool-cases (ltb e.txn.ts w.txn.ts)) [
  | inl c ↦ rw c (
    Inserted-All (λ v. v.txn.ts ≤ w.txn.ts) (insert_waiter-Inserted e ws) (ground arith) d.0,
    Descending-insert_waiter e ws d.1,
  )
  | inr c ↦ rw c ((ground arith, NoneYounger-mono w.txn.ts e.txn.ts ws (ground arith) d.0), d)
]

younger_join :
    (o : LockEntry) (os ws : List LockEntry)
    → NoneYounger o.txn.ts ws
    → WaitsForYounger os ws
    → WaitsForYounger (o ∷ os) ws
younger_join o os [] n h = tt
younger_join o os (w ∷ ws) n h = ((n.0, h.0), younger_join o os ws n.1 h.1)

younger_drop :
    {a : ℕ} {os r : List LockEntry} (ws : List LockEntry)
    → Removed a os r
    → WaitsForYounger os ws
    → WaitsForYounger r ws
younger_drop [] m h = tt
younger_drop (w ∷ ws) m h = (Removed-All (λ o. w.txn.ts ≤ o.txn.ts) m h.0, younger_drop ws m h.1)

Descending-drop : {a : ℕ} {ws r : List LockEntry} → Removed a ws r → Descending ws → Descending r
Descending-drop (hit e ws q) d = d.1
Descending-drop (miss e n m) d =
    (Removed-All (λ v. v.txn.ts ≤ e.txn.ts) m d.0, Descending-drop m d.1)

head_youngest :
    (ts : ℕ) (ws : List LockEntry)
    → Descending ws
    → older_than_head ts ws ≡ false
    → NoneYounger ts ws
head_youngest ts [] d h = tt
head_youngest ts (w ∷ ws) d h = (ground arith, NoneYounger-mono w.txn.ts ts ws (ground arith) d.0)

-- A result keeps the order, if there is one.
abbrev Keeps : Option Outcome → Type 0
Keeps none = Unit {0}
Keeps (some r) = Ordered r.0

module _ (e : LockEntry) (s : RowLock) (d : Ordered s) where
  refuse-Ordered : Keeps (refuse wait_die e s)
  refuse-Ordered = elim (Bool-cases (can_wait e.txn.ts s.owners)) [
    | inl c ↦ rw c (record {
      descending = Descending-insert_waiter e s.waiters d.descending;
      younger =
          Inserted-All (λ w. NoneOlder w.txn.ts s.owners) (insert_waiter-Inserted e s.waiters)
            (can_wait-NoneOlder e.txn.ts s.owners c) d.younger;
    })
    | inr c ↦ rw c d
  ]

  grant-Ordered : older_than_head e.txn.ts s.waiters ≡ false → Ordered (grant s e)
  grant-Ordered c = record {
    descending = d.descending;
    younger =
        younger_join e s.owners s.waiters (head_youngest e.txn.ts s.waiters d.descending c)
          d.younger;
  }

attempt-Ordered :
    (e : LockEntry) (s : RowLock)
    → Ordered s
    → Keeps (if conflicts wait_die e.type e.txn s then refuse wait_die e s else accept wait_die e s)
attempt-Ordered e s d = elim (Bool-cases (conflicts wait_die e.type e.txn s)) [
  | inl c ↦ rw c (refuse-Ordered e s d)
  | inr c ↦ rw c (grant-Ordered e s d (ground arith))
]

pub lock_get-Ordered :
    (threads : ℕ) (type : LockType) (txn : Txn) (s : RowLock) (r : Outcome)
    → lock_get wait_die threads type txn s ≡ some r
    → Ordered s
    → Ordered r.0
unfolding lock_get
lock_get-Ordered threads type txn s r h d =
    let (_, rest) = assert-eq-some (leb s.owner_cnt threads) _ h in
    let (_, last) = assert-eq-some (ltb s.waiter_cnt threads) _ rest in
    subst Keeps last (attempt-Ordered (record { type = type; txn = txn }) s d)

promote-Ordered :
    (ws : List LockEntry) (s u : RowLock)
    → s.waiters ≡ ws
    → promote ws s ≡ some u
    → Ordered s
    → Ordered u
unfolding promote
promote-Ordered [] s u e h d = subst Ordered (some_inj h) d
promote-Ordered (w ∷ ws) s u e h d = elim (Bool-cases (conflict_lock s.lock_type w.type)) [
  | inl c ↦ subst Ordered (some_inj (rw c at h)) d
  | inr c ↦
      let (_, rest) = assert-eq-some (not (s.lock_ready w.txn.addr)) _ (rw c at h) in
      let descending = rw e at d.descending in
      let younger = rw e at d.younger in
      promote-Ordered ws (promote_head s w ws) u refl rest (record {
        descending = descending.1;
        younger = younger_join w s.owners ws descending.0 younger.1;
      })
]

drop_entry-Ordered : (a : ℕ) (s t : RowLock) → drop_entry a s ≡ some t → Ordered s → Ordered t
unfolding drop_entry
drop_entry-Ordered a s t h d = elim (remove_entry_cases a s.owners) [
  | inr (os, q, m) ↦
      subst Ordered (some_inj (rw (q, drop_entry) at h))
        (record { descending = d.descending; younger = younger_drop s.waiters m d.younger })
  | inl (q, _) ↦ elim (remove_entry_cases a s.waiters) [
    | inl (q', _) ↦ cc (rw (q, drop_entry, q') at h)
    | inr (ws, q', m) ↦ subst Ordered (some_inj (rw (q, drop_entry, q') at h)) (record {
      descending = Descending-drop m d.descending;
      younger = Removed-All (λ w. NoneOlder w.txn.ts s.owners) m d.younger;
    })
  ]
]

pub lock_release-Ordered :
    (txn : Txn) (s u : RowLock) → lock_release txn s ≡ some u → Ordered s → Ordered u
unfolding lock_release
lock_release-Ordered txn s u h d =
    let (t, dropped, rest) = bind-eq-some (drop_entry txn.addr s) _ h in
    let (_, going) =
      assert-eq-some (if t.owner_cnt == 0 then is_none t.lock_type else true) _ rest in
    let (w, promoted, ending) = bind-eq-some (promote t.waiters t) _ going in
    let (_, last) = assert-eq-some (same (is_empty w.owners) (w.owner_cnt == 0)) _ ending in
    subst Ordered (some_inj last)
      (promote-Ordered t.waiters t w refl promoted (drop_entry-Ordered txn.addr s t dropped d))

init-Ordered : (ready : ℕ → Bool) → Ordered (init ready)
unfolding init
init-Ordered ready = record { descending = tt; younger = tt }

Reach-Ordered : {threads : ℕ} {s t : RowLock} → Ordered s → Reach wait_die threads s t → Ordered t
Reach-Ordered d start = d
Reach-Ordered {threads} d (next {t = t} {u = u} r (gets type txn rc ids q absent h)) =
    lock_get-Ordered threads type txn t (u, rc, ids) h (Reach-Ordered d r)
Reach-Ordered d (next {t = t} {u = u} r (releases txn h)) =
    lock_release-Ordered txn t u h (Reach-Ordered d r)

-- WAIT_DIE: in every reachable state the timestamp of a transaction that waits is at most that of
-- every owner, and the waiters stand in falling order of timestamps.
pub waiter_older :
    (threads : ℕ) (ready : ℕ → Bool) (s : RowLock) (w o : LockEntry)
    → Reach wait_die threads (init ready) s
    → Memᴰ w s.waiters
    → Memᴰ o s.owners
    → (w.txn.ts ≤ o.txn.ts) × Descending s.waiters
waiter_older threads ready s w o r m k =
    let d = Reach-Ordered (init-Ordered ready) r in
    (
      All-mem (λ x. w.txn.ts ≤ x.txn.ts) s.owners o
          (All-mem (λ x. NoneOlder x.txn.ts s.owners) s.waiters w d.younger m) k,
      d.descending,
    )
