-- ===== src/RowLock/DlDetect.antt =====
-- DL_DETECT in row_lock.cpp: the transactions that lock_get reports to the deadlock detector.
use mathlib.Core.List.{Memᴰ, reverse-cons, reverse-reverse}
use mathlib.Core.List.Memᴰ
use dbx1000_bskiplist.Base.{
  ℕ, refl, inl, inr, arith, List, [], ◌∷◌, ◌≡◌, reverse, sym, ap, true, Bool-cases, subst, All-mem,
  ◌⊎◌, ◌↔◌,
}
use dbx1000_bskiplist.RowLock.{
  LockType, lock_ex, lock_sh, lock_none, LockEntry, RowLock, conflicting_ids, owner_ids,
  conflict_lock, waits_for,
}
use dbx1000_bskiplist.RowLock.Invariant.{Inv, Held}

conflicting_ids-mem :
    (type : LockType) (es : List LockEntry) (w : LockEntry)
    → Memᴰ w es
    → conflict_lock type w.type ≡ true
    → Memᴰ w.txn.txn_id (conflicting_ids type es)
unfolding conflicting_ids
conflicting_ids-mem type [] w m c = elim m [ ]
conflicting_ids-mem type (e ∷ es) w (Memᴰ.head q) c =
    rw (rw q at c) (Memᴰ.head (ap (λ (x : LockEntry). x.txn.txn_id) q))
conflicting_ids-mem type (e ∷ es) w (Memᴰ.tail m) c =
    let rest = conflicting_ids-mem type es w m c in
    elim (Bool-cases (conflict_lock type e.type)) [
      | inl k ↦ rw k (Memᴰ.tail rest)
      | inr k ↦ rw k rest
    ]

-- An entry with this id conflicts with the type.
abbrev pub Conflicting : LockType → ℕ → List LockEntry → Type 0
Conflicting type id es =
    (w : LockEntry) × Memᴰ w es × (w.txn.txn_id ≡ id) × (conflict_lock type w.type ≡ true)

mem-conflicting_ids :
    (type : LockType) (es : List LockEntry) (id : ℕ)
    → Memᴰ id (conflicting_ids type es)
    → Conflicting type id es
unfolding conflicting_ids
mem-conflicting_ids type [] id m = elim m [ ]
mem-conflicting_ids type (e ∷ es) id m = elim (Bool-cases (conflict_lock type e.type)) [
  | inl k ↦ first (mem-conflicting_ids type es id) k (rw k at m)
  | inr k ↦ let (w, n, q, c) = mem-conflicting_ids type es id (rw k at m) in (w, Memᴰ.tail n, q, c)
]
  where
    first :
        (Memᴰ id (conflicting_ids type es) → Conflicting type id es)
        → conflict_lock type e.type ≡ true
        → Memᴰ id (e.txn.txn_id ∷ conflicting_ids type es)
        → Conflicting type id (e ∷ es)
    first ih k (Memᴰ.head q) = (e, Memᴰ.head refl, sym q, k)
    first ih k (Memᴰ.tail n) = let (w, n', q, c) = ih n in (w, Memᴰ.tail n', q, c)

owner_ids-mem : (os : List LockEntry) (o : LockEntry) → Memᴰ o os → Memᴰ o.txn.txn_id (owner_ids os)
unfolding owner_ids
owner_ids-mem [] o m = elim m [ ]
owner_ids-mem (p ∷ os) o (Memᴰ.head q) = Memᴰ.head (ap (λ (x : LockEntry). x.txn.txn_id) q)
owner_ids-mem (p ∷ os) o (Memᴰ.tail m) = Memᴰ.tail (owner_ids-mem os o m)

mem-owner_ids :
    (os : List LockEntry) (id : ℕ)
    → Memᴰ id (owner_ids os)
    → (o : LockEntry) × Memᴰ o os × (o.txn.txn_id ≡ id)
unfolding owner_ids
mem-owner_ids [] id m = elim m [ ]
mem-owner_ids (p ∷ os) id (Memᴰ.head q) = (p, Memᴰ.head refl, sym q)
mem-owner_ids (p ∷ os) id (Memᴰ.tail m) =
    let (o, n, q) = mem-owner_ids os id m in (o, Memᴰ.tail n, q)

mem-reverse {ℓ} : {A : Type ℓ} (xs : List A) {x : A} → Memᴰ x xs → Memᴰ x (reverse xs)
mem-reverse [] m = elim m [ ]
mem-reverse (y ∷ xs) (Memᴰ.head q) =
    rw (reverse-cons y xs) (Memᴰ.append_right (reverse xs) (Memᴰ.head q))
mem-reverse (y ∷ xs) (Memᴰ.tail m) =
    rw (reverse-cons y xs) (Memᴰ.append_left (y ∷ []) (mem-reverse xs m))

mem-of_reverse {ℓ} : {A : Type ℓ} (xs : List A) {x : A} → Memᴰ x (reverse xs) → Memᴰ x xs
mem-of_reverse xs {x} m = subst (Memᴰ x) (reverse-reverse xs) (mem-reverse (reverse xs) m)

-- Every owner holds the type of the lock.
owner_type :
    (type : LockType) (os : List LockEntry) (o : LockEntry)
    → Held type os
    → Memᴰ o os
    → o.type ≡ type
owner_type lock_none [] o h m = elim m [ ]
owner_type lock_none (p ∷ os) o h m = absurd (omega arith)
owner_type lock_sh os o h m = All-mem (λ x. x.type ≡ lock_sh) os o h.1 m
owner_type lock_ex os o h m = All-mem (λ x. x.type ≡ lock_ex) os o h.1 m

module _ (type : LockType) (s : RowLock) (h : Held s.lock_type s.owners) (id : ℕ) where
  queued : List ℕ
  queued = conflicting_ids type (reverse s.waiters)

  listed : Memᴰ id (waits_for type s) → Conflicting type id s.waiters ⊎ Conflicting type id s.owners
  unfolding waits_for queued
  listed m = elim (Memᴰ.append_cases queued m) [
    | inl n ↦
        let (w, k, q, c) = mem-conflicting_ids type (reverse s.waiters) id n in
        inl (w, mem-of_reverse s.waiters k, q, c)
    | inr n ↦ elim (Bool-cases (conflict_lock type s.lock_type)) [
      | inr c ↦ elim (rw c at n) [ ]
      | inl c ↦
          let (o, k, q) = mem-owner_ids s.owners id (rw c at n) in
          inr (o, k, q, rw (owner_type s.lock_type s.owners o h k) c)
    ]
  ]

  reported :
      Conflicting type id s.waiters ⊎ Conflicting type id s.owners → Memᴰ id (waits_for type s)
  unfolding waits_for queued
  reported (inl (w, m, q, c)) = Memᴰ.append_left _ (
      subst (λ x. Memᴰ x queued) q
        (conflicting_ids-mem type (reverse s.waiters) w (mem-reverse s.waiters m) c))
  reported (inr (o, m, q, c)) =
      let held : conflict_lock type s.lock_type ≡ true =
        rw (owner_type s.lock_type s.owners o h m) at c in
      Memᴰ.append_right queued
        (rw held (subst (λ x. Memᴰ x (owner_ids s.owners)) q (owner_ids-mem s.owners o m)))

-- DL_DETECT: the transactions reported to the deadlock detector are exactly those with an entry
-- among the waiters or the owners that conflicts with the request.
pub waits_for_exact :
    (type : LockType) (s : RowLock) (id : ℕ)
    → Inv s
    → Memᴰ id (waits_for type s) ↔ (Conflicting type id s.waiters ⊎ Conflicting type id s.owners)
waits_for_exact type s id v = (listed type s v.inner.held id, reported type s v.inner.held id)
