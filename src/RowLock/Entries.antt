-- ===== src/RowLock/Entries.antt =====
-- The search for a transaction's entry in row_lock.cpp's lists, and what its removal leaves.
use mathlib.Core.List.{Perm}
use mathlib.Core.List.Perm
use dbx1000_bskiplist.Base.{
  ℕ, suc, ◌≡◌, ◌≢◌, refl, ◌⊎◌, inl, inr, none, some, List, [], ◌∷◌, All, length, arith, Bool-cases,
  ◌==◌,
}
use dbx1000_bskiplist.RowLock.{LockEntry, remove_entry}
use dbx1000_bskiplist.RowLock.Invariant.{Absent, Distinct}

-- The second list is the first less its first entry of transaction `a`.
pub data Removed (a : ℕ) : List LockEntry → List LockEntry → Type 0 where
  hit : (e : LockEntry) (es : List LockEntry) → e.txn.addr ≡ a → Removed a (e ∷ es) es
  miss :
      (e : LockEntry) {es r : List LockEntry}
      → e.txn.addr ≢ a
      → Removed a es r
      → Removed a (e ∷ es) (e ∷ r)

-- The search fails exactly when no entry is the transaction's.
pub remove_entry_cases :
    (a : ℕ) (es : List LockEntry)
    → ((remove_entry a es ≡ none) × Absent a es)
      ⊎ ((r : List LockEntry) × (remove_entry a es ≡ some r) × Removed a es r)
unfolding remove_entry
remove_entry_cases a [] = inl (refl, tt)
remove_entry_cases a (e ∷ es) = elim (Bool-cases (e.txn.addr == a)) [
  | inl same ↦ inr (es, rw same, hit e es (ground arith))
  | inr other ↦ elim (remove_entry_cases a es) [
    | inl (q, h) ↦ inl (rw (other, q), (ground arith, h))
    | inr (r, q, m) ↦ inr (e ∷ r, rw (other, q), miss e (ground arith) m)
  ]
]

pub Removed-All {κ} :
    (P : LockEntry → Type κ) {a : ℕ} {es r : List LockEntry} → Removed a es r → All P es → All P r
Removed-All P (hit e es q) h = h.1
Removed-All P (miss e n m) h = (h.0, Removed-All P m h.1)

pub Removed-Distinct : {a : ℕ} {es r : List LockEntry} → Removed a es r → Distinct es → Distinct r
Removed-Distinct (hit e es q) h = h.1
Removed-Distinct (miss e n m) h =
    (Removed-All (λ v. v.txn.addr ≢ e.txn.addr) m h.0, Removed-Distinct m h.1)

pub length-Removed : {a : ℕ} {es r : List LockEntry} → Removed a es r → length es ≡ suc (length r)
length-Removed (hit e es q) = refl
length-Removed (miss e n m) = omega (arith, length-Removed m)

-- The entry that is gone.
pub Removed-perm :
    {a : ℕ} {es r : List LockEntry}
    → Removed a es r
    → (e : LockEntry) × (e.txn.addr ≡ a) × Perm es (e ∷ r)
Removed-perm (hit e es q) = (e, q, Perm.refl (e ∷ es))
Removed-perm (miss e {r = r} n m) =
    let (gone, q, p) = Removed-perm m in (gone, q, Perm.trans (Perm.cons e p) (Perm.swap gone e r))
