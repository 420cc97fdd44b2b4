-- ===== src/RowLock/Enqueue.antt =====
-- The two ways in which lock_get puts a waiter into the list, and what they keep.
use mathlib.Core.List.{Perm}
use mathlib.Core.List.Perm
use dbx1000_bskiplist.Base.{
  suc, arith, List, ◌≢◌, ◌∷◌, length, ◌++◌, All, ◌≡◌, Bool-cases, ◌||◌, sym, [], ltb, not, inl,
  true, inr, refl,
}
use dbx1000_bskiplist.RowLock.{
  LockEntry, insert_waiter, LockType, conflict_lock, older_than_head, is_empty,
}
use dbx1000_bskiplist.RowLock.Invariant.{Absent, Distinct, Blocked}

-- The second list is the first with `e` put in somewhere.
pub data Inserted (e : LockEntry) : List LockEntry → List LockEntry → Type 0 where
  here : (ws : List LockEntry) → Inserted e ws (e ∷ ws)
  later : (w : LockEntry) {ws r : List LockEntry} → Inserted e ws r → Inserted e (w ∷ ws) (w ∷ r)

pub Inserted-last : (e : LockEntry) (ws : List LockEntry) → Inserted e ws (ws ++ e ∷ [])
Inserted-last e [] = here []
Inserted-last e (w ∷ ws) = later w (Inserted-last e ws)

pub insert_waiter-Inserted :
    (e : LockEntry) (ws : List LockEntry) → Inserted e ws (insert_waiter e ws)
unfolding insert_waiter
insert_waiter-Inserted e [] = here []
insert_waiter-Inserted e (w ∷ ws) = elim (Bool-cases (ltb e.txn.ts w.txn.ts)) [
  | inl c ↦ rw c (later w (insert_waiter-Inserted e ws))
  | inr c ↦ rw c (here (w ∷ ws))
]

pub length-Inserted :
    {e : LockEntry} {ws r : List LockEntry} → Inserted e ws r → length r ≡ suc (length ws)
length-Inserted (here ws) = refl
length-Inserted (later w m) = omega (arith, length-Inserted m)

pub Inserted-All {κ} :
    (P : LockEntry → Type κ) {e : LockEntry} {ws r : List LockEntry}
    → Inserted e ws r
    → P e
    → All P ws
    → All P r
Inserted-All P (here ws) p h = (p, h)
Inserted-All P (later w m) p h = (h.0, Inserted-All P m p h.1)

pub Inserted-Distinct :
    {e : LockEntry} {ws r : List LockEntry}
    → Inserted e ws r
    → Absent e.txn.addr ws
    → Distinct ws
    → Distinct r
Inserted-Distinct (here ws) a d = (a, d)
Inserted-Distinct {e} (later w m) a d = (
  Inserted-All (λ v. v.txn.addr ≢ w.txn.addr) m (λ q. a.0 (sym q)) d.0,
  Inserted-Distinct m a.1 d.1,
)

pub Inserted-perm : {e : LockEntry} {ws r : List LockEntry} → Inserted e ws r → Perm r (e ∷ ws)
Inserted-perm {e} (here ws) = Perm.refl (e ∷ ws)
Inserted-perm {e} (later w {ws = ws} m) =
    Perm.trans (Perm.cons w (Inserted-perm m)) (Perm.swap e w ws)

-- The head stays blocked: an entry at the head must be blocked itself.
pub Blocked-last :
    (type : LockType) (e : LockEntry) (ws : List LockEntry)
    → Blocked type ws
    → (conflict_lock type e.type || not (is_empty ws)) ≡ true
    → Blocked type (ws ++ e ∷ [])
Blocked-last type e [] b c = ground arith
Blocked-last type e (w ∷ ws) b c = b

pub Blocked-insert_waiter :
    (type : LockType) (e : LockEntry) (ws : List LockEntry)
    → Blocked type ws
    → (conflict_lock type e.type || older_than_head e.txn.ts ws) ≡ true
    → Blocked type (insert_waiter e ws)
unfolding insert_waiter
Blocked-insert_waiter type e [] b c = ground arith
Blocked-insert_waiter type e (w ∷ ws) b c = ground arith
