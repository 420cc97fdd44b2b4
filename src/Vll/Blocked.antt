-- ===== src/Vll/Blocked.antt =====
-- A transaction that beginTxn left blocked stays so (vll.cpp).
use dbx1000_bskiplist.Base.{
  ℕ, All, List, ◌<◌, ◌≡◌, ◌≢◌, ◌∷◌, none, some, ◌++◌, inl, inr, ap, sym, subst, some_inj, ◌∙◌,
}
use dbx1000_bskiplist.Vll.{
  VllMan, VllTxn, QEntry, RowVll, Task, main_enter, finish_txn, execute, run_front,
}
use dbx1000_bskiplist.Vll.Queue.{Queued, execute_frame}
use dbx1000_bskiplist.Vll.System.{
  Worker, System, start, joined, stranded, Inv, Reached, at_start, Step, then_step, enters, Counted,
  executes, finishes,
}
use dbx1000_bskiplist.Vll.Sections.{start-Inv, main_enter-Begun, enters-Inv, finishes_lem}

executes-Inv :
    (field_cnt : ℕ) (s : System) (txn : VllTxn) (m : VllMan)
    → Inv s
    → execute field_cnt txn s.man ≡ some m
    → Inv (record s { man = m })
executes-Inv field_cnt s txn m v run =
    let (rows, queue, next) = execute_frame field_cnt txn s.man m run in
    record {
      null = subst (All (λ (o : QEntry). o.txn ≡ none)) (sym queue) v.null;
      fresh =
          subst (λ n. All (λ (o : QEntry). o.entry_id < n) m.txn_queue) (sym next)
            (subst (All (λ (o : QEntry). o.entry_id < s.man.next_entry)) (sym queue) v.fresh);
      counted = λ x.
          let e = ap (λ (r : ℕ → RowVll). r x) rows in
          let (p, q) = v.counted x in
          (ap (λ (r : RowVll). r.cs) e ∙ p, ap (λ (r : RowVll). r.cx) e ∙ q);
      older = subst (λ n. All (λ (w : Worker). w.entry.entry_id < n) s.running) (sym next) v.older;
      queued =
          subst (λ es. All (λ (w : Worker). Queued w.entry.entry_id es) s.running) (sym queue)
            v.queued;
      apart = v.apart;
    }

Step-Inv : (limit field_cnt : ℕ) (s t : System) → Step limit field_cnt s t → Inv s → Inv t
Step-Inv limit field_cnt s _ (enters txn m task run) v =
    let (m', task', run', b) = main_enter-Begun limit txn s.man v.null in
    let e : (m', task') ≡ (m, task) = some_inj (sym run' ∙ run) in
    subst
      (λ (o : VllMan × Task). Inv (record {
        man = o.0;
        running = joined txn o.1 s.running;
        blocked = stranded txn o.1 s.blocked;
      }))
      e (enters-Inv s txn m' task' v b)
Step-Inv limit field_cnt s _ (executes before after w m is run) v =
    executes-Inv field_cnt s w.txn m v run
Step-Inv limit field_cnt s _ (finishes before after w m is run) v =
    let (m', run', v') = finishes_lem s before after w v is in
    subst (λ n. Inv (record s { man = n; running = before ++ after })) (some_inj (sym run' ∙ run))
      v'

Reached-Inv : (limit field_cnt : ℕ) (s t : System) → Reached limit field_cnt s t → Inv s → Inv t
Reached-Inv limit field_cnt s _ at_start v = v
Reached-Inv limit field_cnt s u (then_step {t = t} r step) v =
    Step-Inv limit field_cnt t u step (Reached-Inv limit field_cnt s t r v)

-- However the threads in vllMainLoop run between each other's critical sections, in every state
-- reached from init: the counters of each row are those of the accesses of the transactions that
-- are run, and of all that were ever left blocked, so that these are never taken away; a thread that
-- enters fails no assertion and never takes a transaction from the front of the queue; and each
-- transaction that is run can finish, failing no assertion.
pub blocked_for_ever :
    (limit field_cnt : ℕ) (fields : ℕ → ℕ → ℕ) (s : System)
    → Reached limit field_cnt (start fields) s
    → Counted s
      × ((txn : VllTxn)
          → (m : VllMan) × (task : Task) × (main_enter limit txn s.man ≡ some (m, task))
            × ((e : QEntry) (t : VllTxn) → task ≢ run_front e t))
      × ((before after : List Worker) (w : Worker)
          → s.running ≡ before ++ w ∷ after
          → (m : VllMan) × (finish_txn w.txn w.entry s.man ≡ some m))
blocked_for_ever limit field_cnt fields s r =
    let v = Reached-Inv limit field_cnt (start fields) s r (start-Inv fields) in
    (
      v.counted,
      λ txn.
          let (m, task, run, b) = main_enter-Begun limit txn s.man v.null in
          (
            m,
            task,
            run,
            λ e t is. elim b.outcome [ inl own ↦ absurd (cc) | inr left ↦ absurd (cc) ],
          ),
      λ before after w is. let (m, run, _) = finishes_lem s before after w v is in (m, run),
    )
