-- ===== src/RowLock/Release.antt =====
-- lock_release: it never fails an assertion, and it wakes every waiter that can run.
use mathlib.Core.List.{Perm, perm_middle}
use mathlib.Core.List.Perm
use dbx1000_bskiplist.Base.{perm_move}
use dbx1000_bskiplist.Base.{
  ℕ, ◌≡◌, ◌≢◌, refl, inl, inr, Bool, true, false, none, some, List, [], ap, ◌∙◌, reverse, sym,
  reverse-append_cons, ◌∷◌, ◌++◌, All, length, arith, Bool-cases, ◌==◌, if◌then◌else◌, dec32, ◌⊎◌,
}
use dbx1000_bskiplist.RowLock.{
  LockType, lock_ex, lock_sh, lock_none, LockEntry, RowLock, conflict_lock, set_ready, promote_head,
  promote, drop_owner, drop_waiter, drop_entry, lock_release, Txn, same, is_empty, is_none,
}
use dbx1000_bskiplist.RowLock.Entries.{
  Removed, Removed-All, Removed-Distinct, length-Removed, Removed-perm, remove_entry_cases,
}
use dbx1000_bskiplist.RowLock.Invariant.{Held, IsRequest, Asleep, Absent, Inner, Inv}

-- A flag of another transaction does not wake these.
pub Asleep-set :
    (ready : ℕ → Bool) (a : ℕ) (b : Bool) (ws : List LockEntry)
    → Absent a ws
    → All (Asleep ready) ws
    → All (Asleep (set_ready ready a b)) ws
Asleep-set ready a b [] h s = tt
Asleep-set ready a b (w ∷ ws) h s = (ground arith, Asleep-set ready a b ws h.1 s.1)

pub Held-join :
    (type next : LockType) (os : List LockEntry) (w : LockEntry)
    → w.type ≡ next
    → next ≢ lock_none
    → conflict_lock type next ≡ false
    → Held type os
    → Held next (w ∷ os)
Held-join lock_none lock_none os w e r c h = absurd (r refl)
Held-join lock_none lock_sh [] w e r c h = (omega arith, (e, tt))
Held-join lock_none lock_ex [] w e r c h = (omega arith, (e, tt))
Held-join lock_none lock_sh (o ∷ os) w e r c h = absurd (omega arith)
Held-join lock_none lock_ex (o ∷ os) w e r c h = absurd (omega arith)
Held-join lock_sh lock_none os w e r c h = absurd (r refl)
Held-join lock_sh lock_sh os w e r c h = (omega arith, (e, h.1))
Held-join lock_sh lock_ex os w e r c h = cc
Held-join lock_ex lock_none os w e r c h = absurd (r refl)
Held-join lock_ex lock_sh os w e r c h = cc
Held-join lock_ex lock_ex os w e r c h = cc

module _ (w : LockEntry) (ws : List LockEntry) (s : RowLock) (e : s.waiters ≡ w ∷ ws)
    (v : Inner s) where
  promote_head-Inner : conflict_lock s.lock_type w.type ≡ false → Inner (promote_head s w ws)
  promote_head-Inner c =
      let requests = rw e at v.requests in
      let asleep = rw e at v.asleep in
      let distinct = rw e at v.distinct in
      let more = ap length e in
      record {
        owner_count = omega arith;
        waiter_count = omega arith;
        fits = omega arith;
        held = Held-join s.lock_type w.type s.owners w refl requests.0 c v.held;
        requests = requests.1;
        asleep = Asleep-set s.lock_ready w.txn.addr true ws distinct.0 asleep.1;
        distinct = distinct.1;
      }

  -- The assertion in the loop holds.
  head_asleep : s.lock_ready w.txn.addr ≡ false
  head_asleep = let asleep = rw e at v.asleep in asleep.0

-- What the loop has moved: a prefix of the waiters, on top of the owners.
pub record Moved (s u : RowLock) : Type 0 where
  pub prefix : List LockEntry
  pub taken : s.waiters ≡ prefix ++ u.waiters
  pub joined : u.owners ≡ reverse prefix ++ s.owners

-- The loop ends with a lock whose first waiter is blocked.
pub promote_total :
    (ws : List LockEntry) (s : RowLock)
    → s.waiters ≡ ws
    → Inner s
    → (u : RowLock) × (promote ws s ≡ some u) × Inv u × Moved s u
unfolding promote
promote_total [] s e v = (
  s,
  refl,
  record { inner = v; blocked = rw e tt },
  record { prefix = []; taken = refl; joined = refl },
)
promote_total (w ∷ ws) s e v = elim (Bool-cases (conflict_lock s.lock_type w.type)) [
  | inl c ↦ (
    s,
    rw c,
    record { inner = v; blocked = rw e c },
    record { prefix = []; taken = refl; joined = refl },
  )
  | inr c ↦
      let (u, run, inv, m) =
        promote_total ws (promote_head s w ws) refl (promote_head-Inner w ws s e v c) in
      (
        u,
        rw (c, head_asleep w ws s e v) run,
        inv,
        record {
          prefix = w ∷ m.prefix;
          taken = e ∙ ap (◌∷◌ w) m.taken;
          joined = m.joined ∙ sym (reverse-append_cons w m.prefix s.owners);
        },
      )
]

Held-drop :
    (type : LockType) (n : ℕ) {a : ℕ} (os r : List LockEntry)
    → n ≡ length r
    → Removed a os r
    → Held type os
    → Held (if n == 0 then lock_none else type) r
Held-drop lock_none n os r e m h = absurd (omega (arith, length-Removed m))
Held-drop lock_ex n os [] e m h = ground arith
Held-drop lock_ex n os (o ∷ r) e m h = absurd (omega (arith, length-Removed m))
Held-drop lock_sh n os [] e m h = ground arith
Held-drop lock_sh n os (o ∷ r) e m h =
    let kept = Removed-All (λ x. x.type ≡ lock_sh) m h.1 in ground arith

module _ {a : ℕ} {s : RowLock} (v : Inner s) where
  drop_owner-Inner : {os : List LockEntry} → Removed a s.owners os → Inner (drop_owner s os)
  drop_owner-Inner {os} m = record {
    owner_count = omega (arith, length-Removed m);
    waiter_count = v.waiter_count;
    fits = omega (arith, length-Removed m);
    held =
        Held-drop s.lock_type (dec32 s.owner_cnt) s.owners os (omega (arith, length-Removed m)) m
          v.held;
    requests = v.requests;
    asleep = v.asleep;
    distinct = v.distinct;
  }

  drop_waiter-Inner : {ws : List LockEntry} → Removed a s.waiters ws → Inner (drop_waiter s ws)
  drop_waiter-Inner m = record {
    owner_count = v.owner_count;
    waiter_count = omega (arith, length-Removed m);
    fits = omega (arith, length-Removed m);
    held = v.held;
    requests = Removed-All IsRequest m v.requests;
    asleep = Removed-All (Asleep s.lock_ready) m v.asleep;
    distinct = Removed-Distinct m v.distinct;
  }

-- The two assertions about the owners and their count.
count_agrees : (os : List LockEntry) (n : ℕ) → n ≡ length os → same (is_empty os) (n == 0) ≡ true
count_agrees [] n e = ground arith
count_agrees (o ∷ os) n e = ground arith

type_agrees :
    (type : LockType) (os : List LockEntry) (n : ℕ)
    → n ≡ length os
    → Held type os
    → (if n == 0 then is_none type else true) ≡ true
type_agrees lock_none os n e h = ground arith
type_agrees lock_sh os n e h = ground arith
type_agrees lock_ex os n e h = ground arith

-- What lock_release does to the entries: one of the transaction's is gone, no other is lost.
pub record Released (a : ℕ) (s u : RowLock) : Type 0 where
  pub entry : LockEntry
  pub its : entry.txn.addr ≡ a
  pub kept : Perm (s.owners ++ s.waiters) (entry ∷ u.owners ++ u.waiters)

moved_perm : {s u : RowLock} → Moved s u → Perm (s.owners ++ s.waiters) (u.owners ++ u.waiters)
moved_perm {s} {u} m = rw (m.taken, m.joined) (perm_move m.prefix s.owners u.waiters)

drop_entry_total :
    (a : ℕ) (s : RowLock)
    → Inner s
    → ((drop_entry a s ≡ none) × Absent a s.owners × Absent a s.waiters)
      ⊎ ((t : RowLock) × (drop_entry a s ≡ some t) × Inner t × Released a s t)
unfolding drop_entry
drop_entry_total a s v = elim (remove_entry_cases a s.owners) [
  | inr (os, q, m) ↦
      let (e, its, p) = Removed-perm m in
      inr (
        drop_owner s os,
        rw (q, drop_entry),
        drop_owner-Inner v m,
        record { entry = e; its = its; kept = Perm.append_right s.waiters p },
      )
  | inl (q, h) ↦ elim (remove_entry_cases a s.waiters) [
    | inl (q', h') ↦ inl (rw (q, drop_entry, q'), h, h')
    | inr (ws, q', m) ↦
        let (e, its, p) = Removed-perm m in
        inr (
          drop_waiter s ws,
          rw (q, drop_entry, q'),
          drop_waiter-Inner v m,
          record {
            entry = e;
            its = its;
            kept = Perm.trans (Perm.append_left s.owners p) (perm_middle s.owners ws);
          },
        )
  ]
]

-- lock_release fails its assertion exactly when the transaction has no entry. Otherwise it ends in
-- a lock that satisfies the invariant.
pub lock_release_total :
    (txn : Txn) (s : RowLock)
    → Inv s
    → ((lock_release txn s ≡ none) × Absent txn.addr s.owners × Absent txn.addr s.waiters)
      ⊎ ((u : RowLock) × (lock_release txn s ≡ some u) × Inv u × Released txn.addr s u)
unfolding lock_release
lock_release_total txn s v = elim (drop_entry_total txn.addr s v.inner) [
  | inl (q, own, queued) ↦ inl (rw q, own, queued)
  | inr (t, q, w, rel) ↦
      let (u, run, inv, m) = promote_total t.waiters t refl w in
      inr (
        u,
        rw (
          q,
          type_agrees t.lock_type t.owners t.owner_cnt w.owner_count w.held,
          run,
          count_agrees u.owners u.owner_cnt inv.inner.owner_count,
        ),
        inv,
        record {
          entry = rel.entry;
          its = rel.its;
          kept = Perm.trans rel.kept (Perm.cons rel.entry (moved_perm m));
        },
      )
]
