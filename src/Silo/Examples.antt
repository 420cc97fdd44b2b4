-- ===== src/Silo/Examples.antt =====
-- The theorems on validations at one that reads a row and writes another, and one that does nothing.
use dbx1000_bskiplist.Base.{
  ℕ, ◌≡◌, ◌<◌, [], ◌∷◌, true, false, refl, arith, ◌==◌, if◌then◌else◌, suc, zero, some,
}
use dbx1000_bskiplist.Silo.{
  lock_bit, Words, Access, Txn, validate_reads, next_tid, step, locked, tid_of, committed, Phase,
}
use dbx1000_bskiplist.Silo.System.{System, Steps, begins, here, also, runs, locks_exclude}
use dbx1000_bskiplist.Silo.Phases.{holds}
use dbx1000_bskiplist.Silo.Snapshot.{serial_point}
use mathlib.Core.List.{Memᴰ}
use mathlib.Core.List.Memᴰ

abbrev written : Access
written = record { row = 1; tid = 5 }

abbrev read : Access
read = record { row = 2; tid = 3 }

abbrev txns : ℕ → Txn
txns i =
    if i == 0
    then record { writes = written ∷ []; reads = read ∷ []; cur_tid = 4 }
    else record { writes = []; reads = []; cur_tid = 0 }

abbrev words : Words
words row = if row == 1 then 5 else 3

txns_fit : (i : ℕ) → next_tid (txns i) < lock_bit
unfolding next_tid
txns_fit zero = omega arith
txns_fit (suc i) = let c : (suc i == 0) ≡ false = ground arith in rw c (omega arith)

abbrev Run : System → System → Type 0
Run = Steps false true txns

to_locked :
    (m : System) × Run (begins false true txns words) m × (m.phases 0 ≡ validate_reads (read ∷ []))
unfolding step
to_locked = (
  _,
  also (also (also (also here (runs 0 _ _ refl)) (runs 0 _ _ refl)) (runs 0 _ _ refl))
      (runs 0 _ _ refl),
  refl,
)

abbrev at_lock : System
at_lock = to_locked.0

to_committed : (s : System) × Run at_lock s × (s.phases 0 ≡ committed)
unfolding step to_locked
to_committed = (
  _,
  also
      (also
        (also
          (also
            (also (also (also (also here (runs 0 _ _ refl)) (runs 0 _ _ refl)) (runs 0 _ _ refl))
              (runs 0 _ _ refl))
            (runs 0 _ _ refl))
          (runs 0 _ _ refl))
        (runs 0 _ _ refl))
      (runs 0 _ _ refl),
  refl,
)

serial_point_example :
    ((a : Access) → Memᴰ a (read ∷ []) → tid_of (at_lock.words a.row) ≡ a.tid)
    × ((a : Access)
        → Memᴰ a (written ∷ [])
        → (tid_of (at_lock.words a.row) ≡ a.tid) × (locked (at_lock.words a.row) ≡ true))
serial_point_example =
    serial_point false true txns txns_fit 0 words at_lock to_committed.0 to_locked.1
      (λ a h. (
        begins false true txns words,
        here,
        to_locked.1,
        let e = Memᴰ.eq_of_singleton h in rw e refl,
      ))
      to_locked.2 to_committed.1 to_committed.2

locks_exclude_example :
    ((i j : ℕ) (a b : Access)
      → Memᴰ a (holds (txns i) (at_lock.phases i))
      → Memᴰ b (holds (txns j) (at_lock.phases j))
      → a.row ≡ b.row
      → (i ≡ j) × (locked (at_lock.words a.row) ≡ true))
    × ((i : ℕ)
        → (p : Phase) × (after : Words) × (step false true (txns i) (at_lock.phases i) at_lock.words
            ≡ some (p, after)))
locks_exclude_example = locks_exclude false true txns txns_fit words at_lock to_locked.1
