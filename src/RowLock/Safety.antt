-- ===== src/RowLock/Safety.antt =====
-- The histories of a row lock: any sequence of lock_get and lock_release from Row_lock::init.
use dbx1000_bskiplist.RowLock.Release.{lock_release_total}
use dbx1000_bskiplist.RowLock.Grant.{Got, lock_get_total}
use mathlib.Core.List.{Memᴰ}
use dbx1000_bskiplist.Base.{
  ℕ, refl, inl, inr, some, arith, ◌+◌, ◌<◌, List, ◌≢◌, ◌≡◌, u32_mod, ◌≤◌, subst, leb, sym, ltb, ◌∙◌,
  assert-eq-some, some_inj, Bool, [], ◌∷◌, All,
}
use dbx1000_bskiplist.RowLock.{
  CcAlg, LockType, lock_ex, lock_sh, lock_none, LockEntry, RowLock, Txn, Outcome, lock_get, Rc,
  lock_release, init,
}
use dbx1000_bskiplist.RowLock.Invariant.{Inv, Absent, Held, init-Inv, Blocked}

-- One operation of a transaction that is not waiting here, or that releases.
pub data Step (alg : CcAlg) (threads : ℕ) (s t : RowLock) : Type 0 where
  gets :
      (type : LockType) (txn : Txn) (rc : Rc) (ids : List ℕ)
      → type ≢ lock_none
      → Absent txn.addr s.waiters
      → lock_get alg threads type txn s ≡ some (t, rc, ids)
      → Step alg threads s t
  releases : (txn : Txn) → lock_release txn s ≡ some t → Step alg threads s t

pub data Reach (alg : CcAlg) (threads : ℕ) (s : RowLock) : RowLock → Type 0 where
  start : Reach alg threads s s
  next : {t u : RowLock} → Reach alg threads s t → Step alg threads t u → Reach alg threads s u

-- A call that returned had passed its two assertions on the counts.
lock_get_counts :
    (alg : CcAlg) (threads : ℕ) (type : LockType) (txn : Txn) (s : RowLock) {r : Outcome}
    → lock_get alg threads type txn s ≡ some r
    → (s.owner_cnt ≤ threads) × (s.waiter_cnt < threads)
unfolding lock_get
lock_get_counts alg threads type txn s h =
    let (a, rest) = assert-eq-some (leb s.owner_cnt threads) _ h in
    let (b, last) = assert-eq-some (ltb s.waiter_cnt threads) _ rest in (ground arith, ground arith)

pub Step-Gets :
    (alg : CcAlg) (threads : ℕ) (type : LockType) (txn : Txn) (s : RowLock) {r : Outcome}
    → Inv s
    → type ≢ lock_none
    → Absent txn.addr s.waiters
    → threads + threads < u32_mod
    → lock_get alg threads type txn s ≡ some r
    → Inv r.0 × Got (record { type = type; txn = txn }) s r.0 r.1
Step-Gets alg threads type txn s {r = r} v q absent small h =
    let (few, fewer) = lock_get_counts alg threads type txn s h in
    let (u, rc, ids, q', w, got) =
      lock_get_total alg threads type txn s v q absent (omega arith) (omega arith) small in
    let same : (u, rc, ids) ≡ r = some_inj (sym q' ∙ h) in
    (
      subst (λ (x : Outcome). Inv x.0) same w,
      subst (λ (x : Outcome). Got (record { type = type; txn = txn }) s x.0 x.1) same got,
    )

Step-Inv :
    {alg : CcAlg} {threads : ℕ} {s t : RowLock}
    → threads + threads < u32_mod
    → Step alg threads s t
    → Inv s
    → Inv t
Step-Inv {alg} {threads} {s} small (gets type txn rc ids q absent h) v =
    (Step-Gets alg threads type txn s v q absent small h).0
Step-Inv {s = s} small (releases txn h) v = elim (lock_release_total txn s v) [
  | inl (q, _, _) ↦ cc
  | inr (u, q, w, _) ↦ subst Inv (some_inj (sym q ∙ h)) w
]

pub Reach-Inv :
    {alg : CcAlg} {threads : ℕ} {s t : RowLock}
    → threads + threads < u32_mod
    → Inv s
    → Reach alg threads s t
    → Inv t
Reach-Inv small v start = v
Reach-Inv small v (next r st) = Step-Inv small st (Reach-Inv small v r)

Held-writer :
    (type : LockType) (os : List LockEntry) (e : LockEntry)
    → Held type os
    → Memᴰ e os
    → e.type ≡ lock_ex
    → os ≡ e ∷ []
Held-writer type [] e h m x = elim m [ ]
Held-writer lock_none (o ∷ os) e h m x = absurd (omega arith)
Held-writer lock_sh (o ∷ os) e h m x = absurd (no_reader (o ∷ os) h.1 m)
  where
    no_reader : (l : List LockEntry) → All (λ y. y.type ≡ lock_sh) l → Memᴰ e l → ⊥
    no_reader [] a k = elim k [ ]
    no_reader (y ∷ l) a (Memᴰ.head q) = cc
    no_reader (y ∷ l) a (Memᴰ.tail k) = no_reader l a.1 k
Held-writer lock_ex (o ∷ []) e h (Memᴰ.head q) x = rw q
Held-writer lock_ex (o ∷ []) e h (Memᴰ.tail k) x = elim k [ ]
Held-writer lock_ex (o ∷ p ∷ os) e h m x = absurd (omega arith)

-- In every reachable state a transaction that owns the row exclusively is its only owner, in each
-- of the three modes.
pub writer_alone :
    (alg : CcAlg) (threads : ℕ) (ready : ℕ → Bool) (s : RowLock) (e : LockEntry)
    → threads + threads < u32_mod
    → Reach alg threads (init ready) s
    → Memᴰ e s.owners
    → e.type ≡ lock_ex
    → s.owners ≡ e ∷ []
writer_alone alg threads ready s e small r m x =
    Held-writer s.lock_type s.owners e (Reach-Inv small (init-Inv ready) r).inner.held m x

pub nobody_waits :
    (type : LockType) (ws : List LockEntry) → Held type [] → Blocked type ws → ws ≡ []
nobody_waits type [] h b = refl
nobody_waits lock_none (w ∷ ws) h b = cc
nobody_waits lock_sh (w ∷ ws) h b = absurd (omega arith)
nobody_waits lock_ex (w ∷ ws) h b = absurd (omega arith)
