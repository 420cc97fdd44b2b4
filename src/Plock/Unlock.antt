-- ===== src/Plock/Unlock.antt =====
-- PartMan::unlock: whom it takes out, and the order that it keeps (plock.cpp).
use dbx1000_bskiplist.Plock.Remove.{Removed}
use dbx1000_bskiplist.Plock.Remove.{
  drop_from_total, shift_front_total, Removed-Rising, Removed-older, first_least,
}
use dbx1000_bskiplist.Base.{
  sym, ◌⊎◌, ==_iff, subst, ℕ, suc, ◌+◌, ◌-◌, arith, ◌≡◌, ◌<◌, refl, some, none, ◌≢◌, Bool-cases,
  inl, inr, true, false, ◌==◌,
}
use dbx1000_bskiplist.Plock.{Txn, PartMan, part_unlock, sub_ready}
use dbx1000_bskiplist.Plock.Order.{Ordered}

-- What PartMan::unlock leaves of an ordered partition, when the waiter at `k` goes.
pub record WaiterGone (k : ℕ) (p q : PartMan) : Type 0 where
  pub same_owner : q.owner ≡ p.owner
  pub fewer : q.waiter_cnt + 1 ≡ p.waiter_cnt
  pub removed : Removed k p.waiter_cnt p.waiters q.waiters

-- On an ordered partition PartMan::unlock of the first waiter with the transaction's address, which
-- is not the owner, fails no assertion, takes out that waiter alone, and keeps the order.
pub part_unlock_waiter :
    (txn : Txn) (p : PartMan) (ready : ℕ → ℕ) (k : ℕ) (o : Txn)
    → Ordered p
    → p.owner ≡ some o
    → o.addr ≢ txn.addr
    → k < p.waiter_cnt
    → ((j : ℕ) → j < k → (p.waiters j).addr ≢ txn.addr)
    → (p.waiters k).addr ≡ txn.addr
    → (q : PartMan) × (part_unlock txn p ready ≡ some (q, sub_ready txn.addr ready))
      × Ordered q
      × WaiterGone k p q
unfolding part_unlock
part_unlock_waiter txn p ready k o v owned other inside before here =
    let other' : (o.addr == txn.addr) ≡ false = ground arith in
    let (rs, run, rem) =
      drop_from_total p.waiter_cnt txn.addr p.waiter_cnt 0 k p.waiters (omega arith) (omega arith)
        inside before here in
    let q = record p { waiters = rs; waiter_cnt = p.waiter_cnt - 1 } in
    let ordered : Ordered q = record {
      rising = Removed-Rising k p.waiter_cnt p.waiters rs rem v.rising;
      older = λ o' e' j h. Removed-older k p.waiter_cnt p.waiters rs rem o'.ts (v.older o' e') j h;
      idle = λ e'. cc;
    } in
    (
      q,
      rw (owned, other', run) refl,
      ordered,
      record { same_owner = refl; fewer = omega arith; removed = rem },
    )

-- On an ordered partition PartMan::unlock of the owner fails no assertion and keeps the order: the
-- first waiter, the oldest, is the owner next, and nobody is when nobody waits.
pub part_unlock_owner :
    (txn : Txn) (p : PartMan) (ready : ℕ → ℕ) (o : Txn)
    → Ordered p
    → p.owner ≡ some o
    → o.addr ≡ txn.addr
    → (q : PartMan) × (ready' : ℕ → ℕ) × (part_unlock txn p ready ≡ some (q, ready'))
      × Ordered q
      × (((p.waiter_cnt ≡ 0) × (q.owner ≡ none))
          ⊎ ((q.owner ≡ some (p.waiters 0))
              × (q.waiter_cnt + 1 ≡ p.waiter_cnt)
              × Removed 0 p.waiter_cnt p.waiters q.waiters))
unfolding part_unlock
part_unlock_owner txn p ready o v owned mine =
    let mine' : (o.addr == txn.addr) ≡ true = ground arith in
    elim (Bool-cases (p.waiter_cnt == 0)) [
      | inl c ↦
          let empty : p.waiter_cnt ≡ 0 = (==_iff p.waiter_cnt 0).0 c in
          let q = record p { owner = none } in
          let ordered : Ordered q = record {
            rising = v.rising;
            older = λ o' e'. cc;
            idle = λ e'. empty;
          } in
          (q, ready, rw (owned, mine', c) refl, ordered, inl (empty, refl))
      | inr c ↦
          let some_wait : 0 < p.waiter_cnt = ground arith in
          let size : suc (0 + (p.waiter_cnt - 1)) ≡ p.waiter_cnt = omega arith in
          let (rs, run, rem') =
            shift_front_total (p.waiter_cnt - 1) 0 p.waiters (λ j h k. v.rising j (omega arith)) in
          let rem = subst (λ x. Removed 0 x p.waiters rs) size rem' in
          let q : PartMan = record {
            owner = some (p.waiters 0);
            waiters = rs;
            waiter_cnt = p.waiter_cnt - 1;
          } in
          let ordered : Ordered q = record {
            rising = Removed-Rising 0 p.waiter_cnt p.waiters rs rem v.rising;
            older = λ o' e' j h.
                let same : p.waiters 0 ≡ o' = cc in
                rw (sym same, rem.moved j (omega arith) (omega arith))
                  (first_least p.waiter_cnt p.waiters v.rising j (omega arith));
            idle = λ e'. cc;
          } in
          (
            q,
            sub_ready (p.waiters 0).addr ready,
            rw (owned, mine', c, run) refl,
            ordered,
            inr (refl, omega arith, rem),
          )
    ]
