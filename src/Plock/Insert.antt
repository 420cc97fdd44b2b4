-- ===== src/Plock/Insert.antt =====
-- PartMan::lock keeps the waiters of a partition in order (plock.cpp).
use dbx1000_bskiplist.Base.{
  ℕ, zero, suc, arith, ◌≡◌, ◌<◌, ◌≤◌, refl, ◌∙◌, Bool-cases, ◌≢◌, ltb, inl, inr, ℕ_discrete, subst,
}
use dbx1000_bskiplist.Plock.{Txn, put, insert_from}

-- `rs` is `ws` with `txn` put in at `p`, the later ones up to `i` moved up by one.
pub record Inserted (txn : Txn) (i : ℕ) (ws rs : ℕ → Txn) (p : ℕ) : Type 0 where
  pub bound : p ≤ i
  pub below : (j : ℕ) → j < p → rs j ≡ ws j
  pub placed : rs p ≡ txn
  pub moved : (j : ℕ) → p ≤ j → j < i → rs (suc j) ≡ ws j
  pub above : (j : ℕ) → i < j → rs j ≡ ws j
  pub after : (j : ℕ) → suc j ≡ p → (ws j).ts < txn.ts
  pub before : (j : ℕ) → p ≤ j → j < i → txn.ts ≤ (ws j).ts

pub put_same : (ws : ℕ → Txn) (i : ℕ) (t : Txn) → put ws i t i ≡ t
put_same ws i t = ground arith

pub put_other : (ws : ℕ → Txn) (i x : ℕ) (t : Txn) → x ≢ i → put ws i t x ≡ ws x
put_other ws i x t n = ground arith

pub insert_from-Inserted :
    (txn : Txn) (i : ℕ) (ws : ℕ → Txn) → (p : ℕ) × Inserted txn i ws (insert_from txn i ws) p
unfolding insert_from
insert_from-Inserted txn zero ws = (
  0,
  record {
    bound = omega arith;
    below = λ j h. absurd (omega arith);
    placed = refl;
    moved = λ j h k. absurd (omega arith);
    above = λ j h. put_other ws 0 j txn (λ e. absurd (omega arith));
    after = λ j h. absurd (omega arith);
    before = λ j h k. absurd (omega arith);
  },
)
insert_from-Inserted txn (suc i) ws = elim (Bool-cases (ltb (ws i).ts txn.ts)) [
  | inl c ↦ rw c (
    suc i,
    record {
      bound = omega arith;
      below = λ j h. put_other ws (suc i) j txn (λ e. absurd (omega arith));
      placed = put_same ws (suc i) txn;
      moved = λ j h k. absurd (omega arith);
      above = λ j h. put_other ws (suc i) j txn (λ e. absurd (omega arith));
      after = λ j h. let e : j ≡ i = omega arith in rw e (ground arith);
      before = λ j h k. absurd (omega arith);
    },
  )
  | inr c ↦
      let us = put ws (suc i) (ws i) in
      let same : (j : ℕ) → j ≢ suc i → us j ≡ ws j = λ j n. put_other ws (suc i) j (ws i) n in
      let (p, ins) = insert_from-Inserted txn i us in
      rw c (
        p,
        record {
          bound = omega (arith, ins.bound);
          below = λ j h. ins.below j h ∙ same j (λ e. absurd (omega (arith, ins.bound)));
          placed = ins.placed;
          moved = λ j h k. elim (ℕ_discrete j i) [
            | yes e ↦ rw e (ins.above (suc i) (omega arith) ∙ put_same ws (suc i) (ws i))
            | no n ↦ ins.moved j h (omega arith) ∙ same j (λ e. absurd (omega arith))
          ];
          above = λ j h. ins.above j (omega arith) ∙ same j (λ e. absurd (omega arith));
          after = λ j h.
              subst (λ x. x.ts < txn.ts) (same j (λ e. absurd (omega (arith, ins.bound))))
                (ins.after j h);
          before = λ j h k. elim (ℕ_discrete j i) [
            | yes e ↦ rw e (ground arith)
            | no n ↦
                subst (λ x. txn.ts ≤ x.ts) (same j (λ e. absurd (omega arith)))
                  (ins.before j h (omega arith))
          ];
        },
      )
]
