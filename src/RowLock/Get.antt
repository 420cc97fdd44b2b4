-- ===== src/RowLock/Get.antt =====
-- lock_get: it never fails an assertion, and what each return code says of the lock.
use mathlib.Core.List.{reverse-cons}
use dbx1000_bskiplist.Base.{
  ℕ, ◌<◌, ◌≡◌, ◌≢◌, refl, inl, inr, true, false, List, [], ◌∷◌, ◌++◌, length, arith, Bool-cases,
  not, reverse,
}
use dbx1000_bskiplist.RowLock.{
  dl_detect, LockType, lock_ex, lock_sh, lock_none, LockEntry, RowLock, conflict_lock, Txn, has_ids,
  conflicting_ids, owner_ids, waits_for, conflicts, is_empty,
}
use dbx1000_bskiplist.RowLock.Invariant.{Held, Blocked, Inv}

-- The owners of a lock that conflicts with some request are not none.
owned_of_conflict :
    (held type : LockType) (os : List LockEntry)
    → conflict_lock held type ≡ true
    → Held held os
    → 0 < length os
owned_of_conflict lock_none type os c h = cc
owned_of_conflict lock_sh type os c h = h.0
owned_of_conflict lock_ex type os c h = omega arith

pub conflict_lock_comm : (a b : LockType) → conflict_lock a b ≡ conflict_lock b a
conflict_lock_comm lock_ex lock_ex = refl
conflict_lock_comm lock_ex lock_sh = refl
conflict_lock_comm lock_ex lock_none = refl
conflict_lock_comm lock_sh lock_ex = refl
conflict_lock_comm lock_sh lock_sh = refl
conflict_lock_comm lock_sh lock_none = refl
conflict_lock_comm lock_none lock_ex = refl
conflict_lock_comm lock_none lock_sh = refl
conflict_lock_comm lock_none lock_none = refl

-- A request that the owners admit conflicts with a waiter that they do not.
conflict_of_blocked :
    (held type queued : LockType)
    → type ≢ lock_none
    → conflict_lock held type ≡ false
    → conflict_lock held queued ≡ true
    → conflict_lock type queued ≡ true
conflict_of_blocked lock_none type queued r a b = cc
conflict_of_blocked lock_sh lock_sh lock_ex r a b = refl
conflict_of_blocked lock_sh lock_sh lock_sh r a b = cc
conflict_of_blocked lock_sh lock_sh lock_none r a b = cc
conflict_of_blocked lock_sh lock_ex queued r a b = cc
conflict_of_blocked lock_sh lock_none queued r a b = absurd (r refl)
conflict_of_blocked lock_ex lock_sh queued r a b = cc
conflict_of_blocked lock_ex lock_ex queued r a b = cc
conflict_of_blocked lock_ex lock_none queued r a b = absurd (r refl)

-- Another owner leaves the waiters blocked.
pub Blocked-join :
    (held type : LockType) (ws : List LockEntry)
    → type ≢ lock_none
    → conflict_lock held type ≡ false
    → Blocked held ws
    → Blocked type ws
Blocked-join held type [] r k b = tt
Blocked-join held type (w ∷ ws) r k b = conflict_of_blocked held type w.type r k b

has_ids-append : (xs ys : List ℕ) → has_ids ys ≡ true → has_ids (xs ++ ys) ≡ true
has_ids-append [] ys h = h
has_ids-append (x ∷ xs) ys h = refl

has_ids-append_left : (xs ys : List ℕ) → has_ids xs ≡ true → has_ids (xs ++ ys) ≡ true
has_ids-append_left [] ys h = cc
has_ids-append_left (x ∷ xs) ys h = refl

has_ids_last :
    (type : LockType) (es : List LockEntry) (w : LockEntry)
    → conflict_lock type w.type ≡ true
    → has_ids (conflicting_ids type (es ++ w ∷ [])) ≡ true
unfolding conflicting_ids
has_ids_last type [] w c = rw c
has_ids_last type (e ∷ es) w c = ground (arith, has_ids_last type es w c)

has_ids_owners : (os : List LockEntry) → 0 < length os → has_ids (owner_ids os) ≡ true
unfolding owner_ids
has_ids_owners [] h = absurd (omega arith)
has_ids_owners (o ∷ os) h = refl

behind_waiter :
    (held type : LockType) (ws : List LockEntry)
    → type ≢ lock_none
    → conflict_lock held type ≡ false
    → Blocked held ws
    → not (is_empty ws) ≡ true
    → has_ids (conflicting_ids type (reverse ws)) ≡ true
behind_waiter held type [] r k b n = cc
behind_waiter held type (w ∷ ws) r k b n =
    rw (reverse-cons w ws)
      (has_ids_last type (reverse ws) w (conflict_of_blocked held type w.type r k b))

-- DL_DETECT: a transaction that must wait has somebody to wait for.
pub waits_for-nonempty :
    (type : LockType) (txn : Txn) (s : RowLock)
    → type ≢ lock_none
    → Inv s
    → conflicts dl_detect type txn s ≡ true
    → has_ids (waits_for type s) ≡ true
unfolding waits_for
waits_for-nonempty type txn s r v c = elim (Bool-cases (conflict_lock s.lock_type type)) [
  | inl k ↦ has_ids-append (conflicting_ids type (reverse s.waiters)) _ (
      rw (conflict_lock_comm type s.lock_type, k)
        (has_ids_owners s.owners (owned_of_conflict s.lock_type type s.owners k v.inner.held)))
  | inr k ↦
      has_ids-append_left (conflicting_ids type (reverse s.waiters)) _
        (behind_waiter s.lock_type type s.waiters r k v.blocked (rw k at c))
]
