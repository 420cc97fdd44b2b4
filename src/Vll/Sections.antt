-- ===== src/Vll/Sections.antt =====
-- What keeps the system of threads in vllMainLoop well formed (vll.cpp).
use dbx1000_bskiplist.Base.{
  ℕ, arith, All, All-append, List, ◌<◌, ◌≡◌, ◌≢◌, ◌+◌, ◌∷◌, [], none, some, ◌++◌, Bool-cases, ◌⊎◌,
  refl, inl, inr, ap, sym, subst, suc,
}
use dbx1000_bskiplist.Vll.{
  VllMan, VllTxn, QEntry, RowVll, Task, run_own, left_blocked, main_enter, begin_txn, finish_txn,
  insert_all, init, get_q_entry,
}
use dbx1000_bskiplist.Vll.Counters.{Adds, insert_all-Adds}
use dbx1000_bskiplist.Vll.Queue.{IsNull, IsFresh, Queued, Without, finish_txn_total, no_front}
use dbx1000_bskiplist.Vll.System.{
  Worker, System, start, joined, stranded, run_shared, run_exclusive, held_shared, held_exclusive,
  run_mid, Apart, Inv, All-mid, All-map, Apart-mid, Queued-append, Queued-last, Queued-other,
  Without-All,
}

pub start-Inv : (fields : ℕ → ℕ → ℕ) → Inv (start fields)
unfolding init
start-Inv fields = record {
  null = tt;
  fresh = tt;
  counted = λ x. (refl, refl);
  older = tt;
  queued = tt;
  apart = tt;
}

-- What begin_txn does to the manager, where no queue entry has its transaction.
pub record Begun (txn : VllTxn) (m m' : VllMan) (task : Task) : Type 0 where
  pub queue : m'.txn_queue ≡ m.txn_queue ++ get_q_entry m ∷ []
  pub next : m'.next_entry ≡ suc m.next_entry
  pub adds : Adds txn.accesses m.rows m'.rows
  pub outcome : (task ≡ run_own (get_q_entry m)) ⊎ (task ≡ left_blocked)

pub main_enter-Begun :
    (limit : ℕ) (txn : VllTxn) (m : VllMan)
    → IsNull m
    → (m' : VllMan) × (task : Task) × (main_enter limit txn m ≡ some (m', task))
      × Begun txn m m' task
unfolding main_enter begin_txn
main_enter-Begun limit txn m null =
    let front = no_front m m.txn_queue null in
    let m' = (begin_txn limit txn m).0 in
    elim (Bool-cases (insert_all txn.accesses m.rows).1) [
      | inl c ↦ (
        m',
        left_blocked,
        rw (front, main_enter, c) refl,
        record {
          queue = refl;
          next = refl;
          adds = insert_all-Adds txn.accesses m.rows;
          outcome = inr refl;
        },
      )
      | inr c ↦ (
        m',
        run_own (get_q_entry m),
        rw (front, main_enter, c) refl,
        record {
          queue = refl;
          next = refl;
          adds = insert_all-Adds txn.accesses m.rows;
          outcome = inl refl;
        },
      )
    ]

-- A thread enters with its own transaction.
pub enters-Inv :
    (s : System) (txn : VllTxn) (m : VllMan) (task : Task)
    → Inv s
    → Begun txn s.man m task
    → Inv (record {
      man = m;
      running = joined txn task s.running;
      blocked = stranded txn task s.blocked;
    })
enters-Inv s txn m task v b =
    let e = get_q_entry s.man in
    let null : IsNull m =
      subst (All (λ (o : QEntry). o.txn ≡ none)) (sym b.queue)
        (All-append (λ (o : QEntry). o.txn ≡ none) s.man.txn_queue _ v.null (refl, tt)) in
    let fresh : IsFresh m = subst (All (λ (o : QEntry). o.entry_id < m.next_entry)) (sym b.queue) (
      All-append (λ (o : QEntry). o.entry_id < m.next_entry) s.man.txn_queue _
        (All-map (λ (o : QEntry). o.entry_id < s.man.next_entry)
          (λ (o : QEntry). o.entry_id < m.next_entry) s.man.txn_queue
          (λ o l. let n = b.next in omega arith) v.fresh)
        (let n = b.next in omega arith, tt)) in
    let older : All (λ (w : Worker). w.entry.entry_id < m.next_entry) s.running =
      All-map (λ (w : Worker). w.entry.entry_id < s.man.next_entry)
        (λ (w : Worker). w.entry.entry_id < m.next_entry) s.running
        (λ w l. let n = b.next in omega arith) v.older in
    let queued : All (λ (w : Worker). Queued w.entry.entry_id m.txn_queue) s.running =
      All-map (λ (w : Worker). Queued w.entry.entry_id s.man.txn_queue)
        (λ (w : Worker). Queued w.entry.entry_id m.txn_queue) s.running
        (λ w q.
          subst (Queued w.entry.entry_id) (sym b.queue)
            (Queued-append w.entry.entry_id s.man.txn_queue e q))
        v.queued in
    elim b.outcome [
      | inr is ↦
          subst
            (λ k. Inv (record {
              man = m;
              running = joined txn k s.running;
              blocked = stranded txn k s.blocked;
            }))
            (sym is)
            (record {
              null = null;
              fresh = fresh;
              counted = λ x.
                  let (p, q) = v.counted x in let (p', q') = b.adds x in (omega arith, omega arith);
              older = older;
              queued = queued;
              apart = v.apart;
            })
      | inl is ↦
          subst
            (λ k. Inv (record {
              man = m;
              running = joined txn k s.running;
              blocked = stranded txn k s.blocked;
            }))
            (sym is)
            (record {
              null = null;
              fresh = fresh;
              counted = λ x.
                  let (p, q) = v.counted x in let (p', q') = b.adds x in (omega arith, omega arith);
              older = (let n = b.next in omega arith, older);
              queued =
                  (subst (Queued e.entry_id) (sym b.queue) (Queued-last s.man.txn_queue e), queued);
              apart = (
                All-map (λ (w : Worker). w.entry.entry_id < s.man.next_entry)
                    (λ (w : Worker). w.entry.entry_id ≢ e.entry_id) s.running
                    (λ w l q. absurd (omega arith)) v.older,
                v.apart,
              );
            })
    ]

-- The accesses of all but one of the transactions.
abbrev pub rest_rows : System → List Worker → ℕ → RowVll
rest_rows s ws x = record {
  cs = run_shared x ws + held_shared x s.blocked;
  cx = run_exclusive x ws + held_exclusive x s.blocked;
}

-- A transaction that is run can finish.
pub finishes_lem :
    (s : System) (before after : List Worker) (w : Worker)
    → Inv s
    → s.running ≡ before ++ w ∷ after
    → (m : VllMan) × (finish_txn w.txn w.entry s.man ≡ some m)
      × Inv (record s { man = m; running = before ++ after })
finishes_lem s before after w v is =
    let rest = before ++ after in
    let (mine, others) =
      All-mid (λ (o : Worker). Queued o.entry.entry_id s.man.txn_queue) before after w
        (subst (All (λ (o : Worker). Queued o.entry.entry_id s.man.txn_queue)) is v.queued) in
    let (_, older) =
      All-mid (λ (o : Worker). o.entry.entry_id < s.man.next_entry) before after w
        (subst (All (λ (o : Worker). o.entry.entry_id < s.man.next_entry)) is v.older) in
    let (distinct, apart) = Apart-mid before after w (subst Apart is v.apart) in
    let adds : Adds w.txn.accesses (rest_rows s rest) s.man.rows = λ x.
      let (p, q) = v.counted x in
      let (p', q') = run_mid x before after w in
      let e = ap (run_shared x) is in
      let e' = ap (run_exclusive x) is in (omega arith, omega arith) in
    let (m, run, left, gone, next) =
      finish_txn_total w.txn w.entry s.man (rest_rows s rest) adds mine in
    (
      m,
      run,
      record {
        null =
            Without-All (λ (o : QEntry). o.txn ≡ none) w.entry.entry_id s.man.txn_queue m.txn_queue
              gone v.null;
        fresh =
            Without-All (λ (o : QEntry). o.entry_id < m.next_entry) w.entry.entry_id s.man.txn_queue
              m.txn_queue gone
              (subst (λ n. All (λ (o : QEntry). o.entry_id < n) s.man.txn_queue) (sym next)
                v.fresh);
        counted = λ x. (ap (λ (r : RowVll). r.cs) (left x), ap (λ (r : RowVll). r.cx) (left x));
        older = subst (λ n. All (λ (o : Worker). o.entry.entry_id < n) rest) (sym next) older;
        queued = both rest m.txn_queue gone distinct others;
        apart = apart;
      },
    )
  where
    both :
        (ws : List Worker) (queue : List QEntry)
        → Without w.entry.entry_id s.man.txn_queue queue
        → All (λ (o : Worker). o.entry.entry_id ≢ w.entry.entry_id) ws
        → All (λ (o : Worker). Queued o.entry.entry_id s.man.txn_queue) ws
        → All (λ (o : Worker). Queued o.entry.entry_id queue) ws
    both [] queue g d q = tt
    both (o ∷ ws) queue g d q = (
      Queued-other o.entry.entry_id w.entry.entry_id s.man.txn_queue queue g d.0 q.0,
      both ws queue g d.1 q.1,
    )
