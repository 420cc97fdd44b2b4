-- ===== src/RowLock/Wakes.antt =====
-- The waiters that lock_release makes owners (row_lock.cpp).
use mathlib.Core.List.{Memᴰ}
use dbx1000_bskiplist.Base.{
  ℕ, refl, inl, inr, ◌⊎◌, some, arith, ◌+◌, ◌<◌, List, ◌≡◌, u32_mod, subst, sym, ◌∙◌, some_inj,
  Bool, true, [], ◌∷◌, Bool-cases, bind-eq-some, assert-eq-some, ◌==◌, ap, Option-cases,
}
use dbx1000_bskiplist.RowLock.{
  CcAlg, LockEntry, RowLock, Txn, lock_release, promote, promote_head, drop_entry, remove_entry,
  conflict_lock, init,
}
use dbx1000_bskiplist.RowLock.Invariant.{init-Inv, Blocked, Held}
use dbx1000_bskiplist.RowLock.Safety.{Reach, Reach-Inv, next, releases, nobody_waits}

-- An owner that is new is told so.
abbrev pub Woken : RowLock → RowLock → LockEntry → Type 0
Woken s u e = Memᴰ e s.owners ⊎ (u.lock_ready e.txn.addr ≡ true)

promote_keeps :
    (ws : List LockEntry) (s u : RowLock) (a : ℕ)
    → promote ws s ≡ some u
    → s.lock_ready a ≡ true
    → u.lock_ready a ≡ true
unfolding promote
promote_keeps [] s u a run on = subst (λ (x : RowLock). x.lock_ready a ≡ true) (some_inj run) on
promote_keeps (w ∷ ws) s u a run on = elim (Bool-cases (conflict_lock s.lock_type w.type)) [
  | inl c ↦ subst (λ (x : RowLock). x.lock_ready a ≡ true) (some_inj (rw c at run)) on
  | inr c ↦
      let (_, rest) = assert-eq-some _ _ (rw c at run) in
      promote_keeps ws (promote_head s w ws) u a rest (ground arith)
]

promote_wakes :
    (ws : List LockEntry) (s u : RowLock) (e : LockEntry)
    → promote ws s ≡ some u
    → Memᴰ e u.owners
    → Woken s u e
unfolding promote
promote_wakes [] s u e run m = inl (subst (λ (x : RowLock). Memᴰ e x.owners) (sym (some_inj run)) m)
promote_wakes (w ∷ ws) s u e run m = elim (Bool-cases (conflict_lock s.lock_type w.type)) [
  | inl c ↦ inl (subst (λ (x : RowLock). Memᴰ e x.owners) (sym (some_inj (rw c at run))) m)
  | inr c ↦
      let (_, rest) = assert-eq-some _ _ (rw c at run) in
      elim (promote_wakes ws (promote_head s w ws) u e rest m) [
        | inr told ↦ inr told
        | inl old ↦ owner e rest old
      ]
]
  where
    owner :
        (x : LockEntry)
        → promote ws (promote_head s w ws) ≡ some u
        → Memᴰ x (w ∷ s.owners)
        → Woken s u x
    owner x rest (Memᴰ.head q) = inr (
        promote_keeps ws (promote_head s w ws) u x.txn.addr rest
          (let same : (x.txn.addr == w.txn.addr) ≡ true = rw q (ground arith) in rw same refl))
    owner x rest (Memᴰ.tail k) = inl k

remove_entry-Memᴰ :
    (a : ℕ) (es rest : List LockEntry) (e : LockEntry)
    → remove_entry a es ≡ some rest
    → Memᴰ e rest
    → Memᴰ e es
unfolding remove_entry
remove_entry-Memᴰ a [] rest e run m = absurd (cc)
remove_entry-Memᴰ a (x ∷ es) rest e run m = elim (Bool-cases (x.txn.addr == a)) [
  | inl c ↦ Memᴰ.tail (subst (Memᴰ e) (sym (some_inj (rw c at run))) m)
  | inr c ↦
      let (more, run', q) = bind-eq-some (remove_entry a es) (λ r. some (x ∷ r)) (rw c at run) in
      later more (λ k. remove_entry-Memᴰ a es more e run' k) (subst (Memᴰ e) (sym (some_inj q)) m)
]
  where
    later :
        (more : List LockEntry) → (Memᴰ e more → Memᴰ e es) → Memᴰ e (x ∷ more) → Memᴰ e (x ∷ es)
    later more inner (Memᴰ.head q) = Memᴰ.head q
    later more inner (Memᴰ.tail k) = Memᴰ.tail (inner k)

drop_entry-owners :
    (a : ℕ) (s t : RowLock) (e : LockEntry)
    → drop_entry a s ≡ some t
    → Memᴰ e t.owners
    → Memᴰ e s.owners
unfolding drop_entry
drop_entry-owners a s t e run m = elim (Option-cases (remove_entry a s.owners)) [
  | inr (os, c) ↦
      remove_entry-Memᴰ a s.owners os e c
        (subst (λ (x : RowLock). Memᴰ e x.owners) (sym (some_inj (rw (c, drop_entry) at run))) m)
  | inl c ↦
      let (ws, _, q) = bind-eq-some (remove_entry a s.waiters) _ (rw (c, drop_entry) at run) in
      subst (λ (x : RowLock). Memᴰ e x.owners) (sym (some_inj q)) m
]

-- In every reachable state, in each mode: when lock_release ends, each owner was one before or has
-- been told by its lock_ready, a row without owners has no waiters, and otherwise the head of those
-- that wait conflicts with the owners.
pub lock_release_wakes :
    (alg : CcAlg) (threads : ℕ) (ready : ℕ → Bool) (txn : Txn) (s u : RowLock)
    → threads + threads < u32_mod
    → Reach alg threads (init ready) s
    → lock_release txn s ≡ some u
    → ((e : LockEntry) → Memᴰ e u.owners → Woken s u e)
      × (u.owners ≡ [] → u.waiters ≡ [])
      × Blocked u.lock_type u.waiters
unfolding lock_release
lock_release_wakes alg threads ready txn s u small r run =
    let (t, dropped, rest) = bind-eq-some (drop_entry txn.addr s) _ run in
    let (_, rest') = assert-eq-some _ _ rest in
    let (u', promoted, last) = bind-eq-some (promote t.waiters t) _ rest' in
    let (_, end) = assert-eq-some _ _ last in
    let same : u' ≡ u = some_inj end in
    let v = Reach-Inv small (init-Inv ready) (next r (releases txn run)) in
    let promoted' : promote t.waiters t ≡ some u = promoted ∙ ap some same in
    (
      λ e m. elim (promote_wakes t.waiters t u e promoted' m) [
        | inl old ↦ inl (drop_entry-owners txn.addr s t e dropped old)
        | inr told ↦ inr told
      ],
      λ none.
          nobody_waits u.lock_type u.waiters (subst (Held u.lock_type) none v.inner.held) v.blocked,
      v.blocked,
    )
