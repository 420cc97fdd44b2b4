-- ===== src/Plock/Order.antt =====
-- The order of a partition's waiters, which PartMan::lock and PartMan::unlock keep (plock.cpp).
use dbx1000_bskiplist.Base.{
  Option-cases, dec_lt, ℕ_discrete, true, sym, subst, ℕ, zero, suc, ◌+◌, arith, ◌≡◌, ◌<◌, ◌≤◌, refl,
  some, none, ap, ◌∙◌, ◌≢◌, Bool-cases, inl, inr, ltb,
}
use dbx1000_bskiplist.RowLock.{Rc, rc_ok, abort, wait}
use dbx1000_bskiplist.Plock.{Txn, PartMan, insert_from, part_lock, add_ready}
use dbx1000_bskiplist.Plock.Insert.{Inserted, insert_from-Inserted}

-- The first `n` timestamps rise.
abbrev pub Rising : ℕ → (ℕ → Txn) → Type 0
Rising n ws = (j : ℕ) → suc j < n → (ws j).ts < (ws (suc j)).ts

-- The waiters' timestamps rise, all above the owner's; without an owner nobody waits.
pub record Ordered (p : PartMan) : Type 0 where
  pub rising : Rising p.waiter_cnt p.waiters
  pub older : (o : Txn) → p.owner ≡ some o → (j : ℕ) → j < p.waiter_cnt → o.ts < (p.waiters j).ts
  pub idle : p.owner ≡ none → p.waiter_cnt ≡ 0

has_pred : (j : ℕ) → 0 < j → (k : ℕ) × (j ≡ suc k)
has_pred zero h = absurd (omega arith)
has_pred (suc k) h = (k, refl)

module _ (txn : Txn) (n : ℕ) (ws rs : ℕ → Txn) (p : ℕ) (ins : Inserted txn n ws rs p) where
  moved_Rising :
      (k : ℕ) → Rising n ws → p ≤ k → suc (suc k) < n + 1 → (rs (suc k)).ts < (rs (suc (suc k))).ts
  moved_Rising k rising low h =
      rw (ins.moved k low (omega arith), ins.moved (suc k) (omega arith) (omega arith))
        (rising k (omega arith))

  Inserted-Rising : ((j : ℕ) → j < n → (ws j).ts ≢ txn.ts) → Rising n ws → Rising (n + 1) rs
  Inserted-Rising distinct rising j h = elim (dec_lt (suc j) p) [
    | yes l ↦
        rw (ins.below j (omega arith), ins.below (suc j) l) (rising j (omega (arith, ins.bound)))
    | no l ↦ elim (ℕ_discrete (suc j) p) [
      | yes e ↦ rw (ins.below j (omega arith), e, ins.placed) (ins.after j e)
      | no l' ↦ elim (ℕ_discrete j p) [
        | yes e ↦
            let a = ap (λ (x : Txn). x.ts) (ap rs e ∙ ins.placed) in
            let b = ap (λ (x : Txn). x.ts) (ins.moved j (omega arith) (omega arith)) in
            let c = ins.before j (omega arith) (omega arith) in
            let d = distinct j (omega arith) in omega arith
        | no l'' ↦
            let (k, e) = has_pred j (omega arith) in
            subst (λ x. (rs x).ts < (rs (suc x)).ts) (sym e)
              (moved_Rising k rising (omega arith) (omega arith))
      ]
    ]
  ]

  Inserted-older :
      (t : ℕ) → t < txn.ts → ((j : ℕ) → j < n → t < (ws j).ts) → (j : ℕ) → j < n + 1 → t < (rs j).ts
  Inserted-older t first others j h = elim (dec_lt j p) [
    | yes l ↦ rw (ins.below j l) (others j (omega (arith, ins.bound)))
    | no l ↦ elim (ℕ_discrete j p) [
      | yes e ↦ rw (e, ins.placed) first
      | no l' ↦
          let (k, e) = has_pred j (omega arith) in
          rw (e, ins.moved k (omega arith) (omega arith)) (others k (omega arith))
    ]
  ]

-- With room for one more waiter, and no waiter of the same timestamp, PartMan::lock fails no
-- assertion and keeps the partition ordered; a transaction that is told to wait is put in among the
-- waiters at its place.
pub part_lock_total :
    (thread_cnt : ℕ) (txn : Txn) (p : PartMan) (ready : ℕ → ℕ)
    → Ordered p
    → p.waiter_cnt < thread_cnt
    → ((j : ℕ) → j < p.waiter_cnt → (p.waiters j).ts ≢ txn.ts)
    → (q : PartMan) × (ready' : ℕ → ℕ) × (rc : Rc) × (part_lock thread_cnt txn p ready
        ≡ some (q, ready', rc))
      × Ordered q
      × (rc ≡ wait
          → (i : ℕ) × Inserted txn p.waiter_cnt p.waiters q.waiters i
            × (q.waiter_cnt ≡ p.waiter_cnt + 1))
unfolding part_lock
part_lock_total thread_cnt txn p ready v room distinct = elim (Option-cases p.owner) [
  | inl e ↦
      let q = record p { owner = some txn } in
      let empty = v.idle e in
      let o : Ordered q = record {
        rising = v.rising;
        older = λ o e' j h. absurd (omega arith);
        idle = λ e'. empty;
      } in
      rw e (q, ready, rc_ok, refl, o, λ x. cc)
  | inr (o, e) ↦ elim (Bool-cases (ltb o.ts txn.ts)) [
    | inl c ↦
        let room' : ltb p.waiter_cnt thread_cnt ≡ true = ground arith in
        let q = record p {
          waiters = insert_from txn p.waiter_cnt p.waiters;
          waiter_cnt = p.waiter_cnt + 1;
        } in
        let (i, ins) = insert_from-Inserted txn p.waiter_cnt p.waiters in
        let ordered : Ordered q = record {
          rising = Inserted-Rising txn p.waiter_cnt p.waiters q.waiters i ins distinct v.rising;
          older = λ o' e' j h.
              let same : o ≡ o' = cc in
              let same_ts = ap (λ (x : Txn). x.ts) same in
              Inserted-older txn p.waiter_cnt p.waiters q.waiters i ins o'.ts (ground arith)
                (v.older o' e') j h;
          idle = λ e'. cc;
        } in
        (q, add_ready txn.addr ready, wait, rw (e, c, room') refl, ordered, λ x. (i, ins, refl))
    | inr c ↦ (p, ready, abort, rw (e, c) refl, v, λ x. cc)
  ]
]
