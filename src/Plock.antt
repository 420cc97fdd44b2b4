-- ===== src/Plock.antt =====
-- concurrency_control/plock.h and plock.cpp: the locks of partitions under HSTORE. A transaction is
-- its address and its timestamp; `ready_part` is the field of that name of every transaction, of 32
-- bits; `waiters` is the array, used below `waiter_cnt`. Each operation of a partition runs under
-- its latch and is one step.
pub mod Insert
pub mod Order
pub mod Remove
pub mod Unlock
mod Examples
use dbx1000_bskiplist.RowLock.{Rc, rc_ok, abort, wait}
use dbx1000_bskiplist.Base.{
  ℕ, zero, suc, ◌+◌, ◌-◌, ◌%◌, Bool, true, false, Option, none, some, List, [], ◌∷◌, if◌then◌else◌,
  ltb, leb, ◌==◌, ◌||◌, ◌&&◌,
}

abbrev pub u32_mod : ℕ
u32_mod = 4294967296

pub record Txn : Type 0 where
  pub addr : ℕ
  pub ts : ℕ

pub record PartMan : Type 0 where
  pub owner : Option Txn
  pub waiters : ℕ → Txn
  pub waiter_cnt : ℕ

abbrev pub put : (ℕ → Txn) → ℕ → Txn → ℕ → Txn
put ws i t x = if x == i then t else ws x

abbrev pub part_init : (ℕ → Txn) → PartMan
part_init waiters = record { owner = none; waiters = waiters; waiter_cnt = 0 }

-- The loop of PartMan::lock, with the place at `i` free: waiters with a later timestamp, or the
-- same, move up.
pub insert_from : Txn → ℕ → (ℕ → Txn) → ℕ → Txn
insert_from txn zero ws = put ws 0 txn
insert_from txn (suc i) ws =
    let rest = insert_from txn i (put ws (suc i) (ws i)) in
    if ltb (ws i).ts txn.ts then put ws (suc i) txn else rest

abbrev pub add_ready : ℕ → (ℕ → ℕ) → ℕ → ℕ
add_ready a ready x = if x == a then (ready x + 1) % u32_mod else ready x

abbrev pub sub_ready : ℕ → (ℕ → ℕ) → ℕ → ℕ
sub_ready a ready x = if x == a then (ready x + u32_mod - 1) % u32_mod else ready x

-- PartMan::lock; `none` is a failed assertion. The fields ready_part are passed along.
pub part_lock : (thread_cnt : ℕ) → Txn → PartMan → (ℕ → ℕ) → Option (PartMan × (ℕ → ℕ) × Rc)
unfolding insert_from
part_lock thread_cnt txn p ready = elim p.owner [
  | none ↦ some (record p { owner = some txn }, ready, rc_ok)
  | some o ↦
      if ltb o.ts txn.ts
      then (if ltb p.waiter_cnt thread_cnt
          then some (
            record p {
              waiters = insert_from txn p.waiter_cnt p.waiters;
              waiter_cnt = p.waiter_cnt + 1;
            },
            add_ready txn.addr ready,
            wait,
          )
          else none)
      else some (p, ready, abort)
]

-- The loop of PartMan::unlock for an owner, `n` rounds from `i`, with its assertion.
pub shift_front : ℕ → ℕ → (ℕ → Txn) → Option (ℕ → Txn)
shift_front zero i ws = some ws
shift_front (suc n) i ws =
    let rest = shift_front n (suc i) (put ws i (ws (suc i))) in
    if ltb (ws i).ts (ws (suc i)).ts then rest else none

-- The loop of PartMan::unlock for a waiter, `n` rounds from `i`: whether it was found, and the array.
pub drop_from : (cnt addr n i : ℕ) → Bool → (ℕ → Txn) → Bool × (ℕ → Txn)
drop_from cnt addr zero i found ws = (found, ws)
drop_from cnt addr (suc n) i found ws =
    let found' = (ws i).addr == addr || found in
    drop_from cnt addr n (suc i) found'
      (if found' && ltb i (cnt - 1) then put ws i (ws (suc i)) else ws)

abbrev pub unlock_owner : PartMan → (ℕ → ℕ) → Option (PartMan × (ℕ → ℕ))
unlock_owner p ready =
    if p.waiter_cnt == 0
    then some (record p { owner = none }, ready)
    else elim (shift_front (p.waiter_cnt - 1) 0 p.waiters) [
      | none ↦ none
      | some ws ↦ some (
        record { owner = some (p.waiters 0); waiters = ws; waiter_cnt = p.waiter_cnt - 1 },
        sub_ready (p.waiters 0).addr ready,
      )
    ]

abbrev pub unlock_waiter : Txn → PartMan → (ℕ → ℕ) → Option (PartMan × (ℕ → ℕ))
unlock_waiter txn p ready =
    let (found, ws) = drop_from p.waiter_cnt txn.addr p.waiter_cnt 0 false p.waiters in
    if found
    then some (record p { waiters = ws; waiter_cnt = p.waiter_cnt - 1 }, sub_ready txn.addr ready)
    else none

pub part_unlock : Txn → PartMan → (ℕ → ℕ) → Option (PartMan × (ℕ → ℕ))
unfolding shift_front drop_from
part_unlock txn p ready = elim p.owner [
  | none ↦ unlock_waiter txn p ready
  | some o ↦ if o.addr == txn.addr then unlock_owner p ready else unlock_waiter txn p ready
]
