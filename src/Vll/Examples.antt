-- ===== src/Vll/Examples.antt =====
-- The theorems on VLL at a row that is being written.
use dbx1000_bskiplist.Vll.Queue.{finish_txn-begin_txn, finish_txn_total, Without}
use dbx1000_bskiplist.Vll.Blocked.{blocked_for_ever}
use dbx1000_bskiplist.Vll.System.{
  System, Worker, start, Reached, at_start, then_step, enters, Counted,
}
use dbx1000_bskiplist.Base.{ℕ, arith, [], ◌∷◌, ◌++◌, ◌≡◌, some, ◌≢◌, refl, inl, List}
use dbx1000_bskiplist.Vll.{
  VllMan, VllTxn, QEntry, Task, run_own, run_front, wr, main_enter, RowVll, finish_txn, begin_txn,
  get_q_entry, vll_free, update, vll_blocked, left_blocked, init,
}

abbrev writer : VllTxn
writer = record { addr = 5; accesses = record { type = wr; orig_row = 7 } ∷ [] }

abbrev one_writer : RowVll
one_writer = record { cs = 0; cx = 1 }

abbrev busy : VllMan
busy = record {
  txn_queue = [];
  txn_queue_size = 0;
  next_entry = 1;
  rows = λ x. one_writer;
  fields = λ x y. 0;
  types = λ x. vll_free;
}

abbrev stuck : VllMan
stuck = record busy {
  txn_queue = get_q_entry busy ∷ [];
  next_entry = 2;
  rows = update busy.rows 7 (record { cs = 0; cx = 2 });
  types = update busy.types 5 vll_blocked;
}

finish_txn_total_example :
    (m' : VllMan) × (finish_txn writer (get_q_entry busy) stuck ≡ some m')
    × ((x : ℕ) → m'.rows x ≡ one_writer)
    × Without 1 stuck.txn_queue m'.txn_queue
    × (m'.next_entry ≡ 2)
finish_txn_total_example =
    finish_txn_total writer (get_q_entry busy) stuck (λ x. one_writer) (λ x. ground arith)
      (inl refl)

finish_txn-begin_txn_example :
    let (begun, entry, code) = begin_txn 4 writer busy in
    (m' : VllMan) × (finish_txn writer entry begun ≡ some m')
    × ((x : ℕ) → m'.rows x ≡ busy.rows x)
    × (m'.txn_queue ≡ busy.txn_queue)
finish_txn-begin_txn_example = finish_txn-begin_txn 4 writer busy tt

-- Another writer of the same row.
abbrev second : VllTxn
second = record { addr = 6; accesses = record { type = wr; orig_row = 7 } ∷ [] }

abbrev idle : System
idle = start (λ x y. 0)

abbrev begun : VllMan
begun = (begin_txn 4 writer idle.man).0

abbrev both_begun : VllMan
both_begun = (begin_txn 4 second begun).0

-- The first runs, and the second, which came while it did, is left blocked.
abbrev overtaken : System
overtaken = record {
  man = both_begun;
  running = record { txn = writer; entry = get_q_entry idle.man } ∷ [];
  blocked = second ∷ [];
}

overtaken-Reached : Reached 4 1 idle overtaken
unfolding init main_enter begin_txn
overtaken-Reached =
    then_step
      {t = record {
        man = begun;
        running = record { txn = writer; entry = get_q_entry idle.man } ∷ [];
        blocked = [];
      }}
      (then_step {t = idle} at_start (enters writer begun (run_own (get_q_entry idle.man)) refl))
      (enters second both_begun left_blocked refl)

blocked_for_ever_example :
    Counted overtaken
    × ((txn : VllTxn)
        → (m : VllMan) × (task : Task) × (main_enter 4 txn overtaken.man ≡ some (m, task))
          × ((e : QEntry) (t : VllTxn) → task ≢ run_front e t))
    × ((before after : List Worker) (w : Worker)
        → overtaken.running ≡ before ++ w ∷ after
        → (m : VllMan) × (finish_txn w.txn w.entry overtaken.man ≡ some m))
blocked_for_ever_example = blocked_for_ever 4 1 (λ x y. 0) overtaken overtaken-Reached
