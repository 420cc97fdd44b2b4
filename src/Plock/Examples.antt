-- ===== src/Plock/Examples.antt =====
-- The theorems on partition locks at a partition with an owner and two waiters.
use dbx1000_bskiplist.Base.{ℕ, ◌+◌, arith, ◌≡◌, some, if◌then◌else◌, ◌==◌}
use dbx1000_bskiplist.RowLock.{Rc, wait}
use dbx1000_bskiplist.Plock.{Txn, PartMan, part_lock}
use dbx1000_bskiplist.Plock.Insert.{Inserted}
use dbx1000_bskiplist.Plock.Order.{Ordered, part_lock_total}

abbrev holder : Txn
holder = record { addr = 1; ts = 5 }

abbrev second : Txn
second = record { addr = 2; ts = 7 }

abbrev third : Txn
third = record { addr = 3; ts = 9 }

abbrev newcomer : Txn
newcomer = record { addr = 4; ts = 8 }

abbrev busy_part : PartMan
busy_part = record {
  owner = some holder;
  waiters = λ i. if i == 0 then second else third;
  waiter_cnt = 2;
}

abbrev one_each : ℕ → ℕ
one_each x = 1

busy_part-Ordered : Ordered busy_part
busy_part-Ordered = record {
  rising = λ j h. ground arith;
  older = λ o e j h. let same : holder ≡ o = cc in let same_ts : 5 ≡ o.ts = cc in ground arith;
  idle = λ e. cc;
}

part_lock_total_example :
    (q : PartMan) × (ready' : ℕ → ℕ) × (rc : Rc) × (part_lock 4 newcomer busy_part one_each
      ≡ some (q, ready', rc))
    × Ordered q
    × (rc ≡ wait
        → (i : ℕ) × Inserted newcomer 2 busy_part.waiters q.waiters i × (q.waiter_cnt ≡ 2 + 1))
part_lock_total_example =
    part_lock_total 4 newcomer busy_part one_each busy_part-Ordered (omega arith)
      (λ j h. ground arith)
