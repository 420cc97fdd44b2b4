-- ===== src/Plock/Remove.antt =====
-- The loops of PartMan::unlock, which take one waiter out of the array (plock.cpp).
use dbx1000_bskiplist.Base.{
  sym, subst, ◌||◌, ℕ, zero, suc, ◌+◌, ◌-◌, arith, ◌≡◌, ◌<◌, ◌≤◌, refl, some, ◌∙◌, ◌≢◌, Bool-cases,
  inl, inr, ltb, true, false, dec_lt, ℕ_discrete, ◌==◌, ◌||◌,
}
use dbx1000_bskiplist.Plock.{Txn, put, shift_front, drop_from}
use dbx1000_bskiplist.Plock.Insert.{put_same, put_other}
use dbx1000_bskiplist.Plock.Order.{Rising}

-- `rs` is `ws`, of which `n` are used, less the one at `k`.
pub record Removed (k n : ℕ) (ws rs : ℕ → Txn) : Type 0 where
  pub below : (j : ℕ) → j < k → rs j ≡ ws j
  pub moved : (j : ℕ) → k ≤ j → suc j < n → rs j ≡ ws (suc j)

module _ (k n : ℕ) (ws rs : ℕ → Txn) (rem : Removed k n ws rs) where
  pub Removed-Rising : Rising n ws → Rising (n - 1) rs
  Removed-Rising rising j h = elim (dec_lt (suc j) k) [
    | yes l ↦ rw (rem.below j (omega arith), rem.below (suc j) l) (rising j (omega arith))
    | no l ↦ elim (dec_lt j k) [
      | yes l' ↦
          let first = rising j (omega arith) in
          let second = rising (suc j) (omega arith) in
          rw (rem.below j l', rem.moved (suc j) (omega arith) (omega arith)) (omega arith)
      | no l' ↦
          rw
            (rem.moved j (omega arith) (omega arith), rem.moved (suc j) (omega arith) (omega arith))
            (rising (suc j) (omega arith))
    ]
  ]

  pub Removed-older :
      (t : ℕ) → ((j : ℕ) → j < n → t < (ws j).ts) → (j : ℕ) → j < n - 1 → t < (rs j).ts
  Removed-older t others j h = elim (dec_lt j k) [
    | yes l ↦ rw (rem.below j l) (others j (omega arith))
    | no l ↦ rw (rem.moved j (omega arith) (omega arith)) (others (suc j) (omega arith))
  ]

pub first_least :
    (n : ℕ) (ws : ℕ → Txn) → Rising n ws → (j : ℕ) → suc j < n → (ws 0).ts < (ws (suc j)).ts
first_least n ws rising zero h = rising 0 h
first_least n ws rising (suc j) h =
    let before = first_least n ws rising j (omega arith) in
    let next = rising (suc j) h in omega arith

-- With `n` rounds from `i` on rising timestamps the loop passes its assertions and takes out `i`.
pub shift_front_total :
    (n i : ℕ) (ws : ℕ → Txn)
    → ((j : ℕ) → i ≤ j → j < i + n → (ws j).ts < (ws (suc j)).ts)
    → (rs : ℕ → Txn) × (shift_front n i ws ≡ some rs) × Removed i (suc (i + n)) ws rs
unfolding shift_front
shift_front_total zero i ws rising =
    (ws, refl, record { below = λ j h. refl; moved = λ j h k. absurd (omega arith) })
shift_front_total (suc n) i ws rising =
    let us = put ws i (ws (suc i)) in
    let same : (j : ℕ) → j ≢ i → us j ≡ ws j = λ j d. put_other ws i j (ws (suc i)) d in
    let (rs, run, rem) = shift_front_total n (suc i) us (λ j h k.
      rw (same j (λ e. absurd (omega arith)), same (suc j) (λ e. absurd (omega arith)))
        (rising j (omega arith) (omega arith))) in
    let passes : ltb (ws i).ts (ws (suc i)).ts ≡ true =
      let r = rising i (omega arith) (omega arith) in ground arith in
    (
      rs,
      rw passes run,
      record {
        below = λ j h. rem.below j (omega arith) ∙ same j (λ e. absurd (omega arith));
        moved = λ j h k. elim (ℕ_discrete j i) [
          | yes e ↦ rw e (rem.below i (omega arith) ∙ put_same ws i (ws (suc i)))
          | no d ↦
              rem.moved j (omega arith) (omega arith) ∙ same (suc j) (λ e. absurd (omega arith))
        ];
      },
    )

-- From where the waiter was found, the rest moves down.
drop_from_found :
    (cnt addr n i : ℕ) (ws : ℕ → Txn)
    → i + n ≡ cnt
    → (rs : ℕ → Txn) × (drop_from cnt addr n i true ws ≡ (true, rs)) × Removed i cnt ws rs
unfolding drop_from
drop_from_found cnt addr zero i ws h =
    (ws, refl, record { below = λ j l. refl; moved = λ j l k. absurd (omega arith) })
drop_from_found cnt addr (suc n) i ws h =
    let found : ((ws i).addr == addr || true) ≡ true = ground arith in
    elim (Bool-cases (ltb i (cnt - 1))) [
      | inl c ↦
          let us = put ws i (ws (suc i)) in
          let same : (j : ℕ) → j ≢ i → us j ≡ ws j = λ j d. put_other ws i j (ws (suc i)) d in
          let (rs, run, rem) = drop_from_found cnt addr n (suc i) us (omega arith) in
          (
            rs,
            rw (found, c) run,
            record {
              below = λ j l. rem.below j (omega arith) ∙ same j (λ e. absurd (omega arith));
              moved = λ j l k. elim (ℕ_discrete j i) [
                | yes e ↦ rw e (rem.below i (omega arith) ∙ put_same ws i (ws (suc i)))
                | no d ↦ rem.moved j (omega arith) k ∙ same (suc j) (λ e. absurd (omega arith))
              ];
            },
          )
      | inr c ↦
          let (rs, run, rem) = drop_from_found cnt addr n (suc i) ws (omega arith) in
          (
            rs,
            rw (found, c) run,
            record {
              below = λ j l. rem.below j (omega arith);
              moved = λ j l k. absurd (ground arith);
            },
          )
    ]

pub drop_from_total :
    (cnt addr n i k : ℕ) (ws : ℕ → Txn)
    → i + n ≡ cnt
    → i ≤ k
    → k < cnt
    → ((j : ℕ) → j < k → (ws j).addr ≢ addr)
    → (ws k).addr ≡ addr
    → (rs : ℕ → Txn) × (drop_from cnt addr n i false ws ≡ (true, rs)) × Removed k cnt ws rs
unfolding drop_from
drop_from_total cnt addr zero i k ws h low high others here = absurd (omega arith)
drop_from_total cnt addr (suc n) i k ws h low high others here = elim (ℕ_discrete i k) [
  | yes e ↦
      let at_i = subst (λ x. (ws x).addr ≡ addr) (sym e) here in
      let mine : ((ws i).addr == addr) ≡ true = ground arith in
      let same : drop_from cnt addr (suc n) i false ws ≡ drop_from cnt addr (suc n) i true ws =
        rw mine refl in
      let (rs, run, rem) = drop_from_found cnt addr (suc n) i ws h in
      (rs, same ∙ run, subst (λ x. Removed x cnt ws rs) e rem)
  | no d ↦
      let other : ((ws i).addr == addr) ≡ false = let o = others i (omega arith) in ground arith in
      rw other
        (drop_from_total cnt addr n (suc i) k ws (omega arith) (omega arith) high others here)
]
