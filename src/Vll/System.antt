-- ===== src/Vll/System.antt =====
-- The threads in vllMainLoop (vll.cpp), between whose critical sections others run.
use dbx1000_bskiplist.Base.{
  ℕ, arith, All, List, ◌<◌, ◌≡◌, ◌≢◌, ◌+◌, ◌∷◌, [], some, ◌++◌, refl, inl, inr, ◌∙◌, sym, subst,
}
use dbx1000_bskiplist.Vll.{
  VllMan, VllTxn, QEntry, Task, run_front, run_own, left_blocked, execute, main_enter, finish_txn,
  init,
}
use dbx1000_bskiplist.Vll.Counters.{shared_on, exclusive_on}
use dbx1000_bskiplist.Vll.Queue.{IsNull, IsFresh, Queued, Without}

-- A transaction that its thread runs, with its entry.
pub record Worker : Type 0 where
  pub txn : VllTxn
  pub entry : QEntry

-- The manager, the transactions that are run, and all that beginTxn has left blocked so far.
pub record System : Type 0 where
  pub man : VllMan
  pub running : List Worker
  pub blocked : List VllTxn

abbrev pub start : (ℕ → ℕ → ℕ) → System
start fields = record { man = init fields; running = []; blocked = [] }

abbrev pub joined : VllTxn → Task → List Worker → List Worker
joined txn (run_front e t) ws = record { txn = t; entry = e } ∷ ws
joined txn (run_own e) ws = record { txn = txn; entry = e } ∷ ws
joined txn left_blocked ws = ws

abbrev pub stranded : VllTxn → Task → List VllTxn → List VllTxn
stranded txn left_blocked ts = txn ∷ ts
stranded txn _ ts = ts

-- A thread enters with its own transaction, executes the one that it runs, or finishes it; the runs
-- of the program are among these.
pub data Step (limit field_cnt : ℕ) : System → System → Type 0 where
  enters :
      {s : System} (txn : VllTxn) (m : VllMan) (task : Task)
      → main_enter limit txn s.man ≡ some (m, task)
      → Step limit field_cnt s (record {
        man = m;
        running = joined txn task s.running;
        blocked = stranded txn task s.blocked;
      })
  executes :
      {s : System} (before after : List Worker) (w : Worker) (m : VllMan)
      → s.running ≡ before ++ w ∷ after
      → execute field_cnt w.txn s.man ≡ some m
      → Step limit field_cnt s (record s { man = m })
  finishes :
      {s : System} (before after : List Worker) (w : Worker) (m : VllMan)
      → s.running ≡ before ++ w ∷ after
      → finish_txn w.txn w.entry s.man ≡ some m
      → Step limit field_cnt s (record s { man = m; running = before ++ after })

pub data Reached (limit field_cnt : ℕ) (s : System) : System → Type 0 where
  at_start : Reached limit field_cnt s s
  then_step :
      {t u : System}
      → Reached limit field_cnt s t
      → Step limit field_cnt t u
      → Reached limit field_cnt s u

-- How many shared or other accesses to a row the transactions have.
abbrev pub run_shared : ℕ → List Worker → ℕ
run_shared x [] = 0
run_shared x (w ∷ ws) = shared_on x w.txn.accesses + run_shared x ws

abbrev pub run_exclusive : ℕ → List Worker → ℕ
run_exclusive x [] = 0
run_exclusive x (w ∷ ws) = exclusive_on x w.txn.accesses + run_exclusive x ws

abbrev pub held_shared : ℕ → List VllTxn → ℕ
held_shared x [] = 0
held_shared x (t ∷ ts) = shared_on x t.accesses + held_shared x ts

abbrev pub held_exclusive : ℕ → List VllTxn → ℕ
held_exclusive x [] = 0
held_exclusive x (t ∷ ts) = exclusive_on x t.accesses + held_exclusive x ts

pub run_mid :
    (x : ℕ) (before after : List Worker) (w : Worker)
    → (run_shared x (before ++ w ∷ after)
        ≡ run_shared x (before ++ after) + shared_on x w.txn.accesses)
      × (run_exclusive x (before ++ w ∷ after)
          ≡ run_exclusive x (before ++ after) + exclusive_on x w.txn.accesses)
run_mid x [] after w = (omega arith, omega arith)
run_mid x (b ∷ before) after w = let (p, q) = run_mid x before after w in (omega arith, omega arith)

-- The counters are those of the accesses that are run and of those left blocked.
abbrev pub Counted : System → Type 0
Counted s =
    (x : ℕ)
    → ((s.man.rows x).cs ≡ run_shared x s.running + held_shared x s.blocked)
      × ((s.man.rows x).cx ≡ run_exclusive x s.running + held_exclusive x s.blocked)

-- The numbers of the entries differ.
abbrev pub Apart : List Worker → Type 0
Apart [] = Unit {0}
Apart (w ∷ ws) = All (λ (o : Worker). o.entry.entry_id ≢ w.entry.entry_id) ws × Apart ws

pub record Inv (s : System) : Type 0 where
  pub null : IsNull s.man
  pub fresh : IsFresh s.man
  pub counted : Counted s
  pub older : All (λ (w : Worker). w.entry.entry_id < s.man.next_entry) s.running
  pub queued : All (λ (w : Worker). Queued w.entry.entry_id s.man.txn_queue) s.running
  pub apart : Apart s.running

pub All-mid {ℓ κ} :
    {A : Type ℓ} (P : A → Type κ) (before after : List A) (w : A)
    → All P (before ++ w ∷ after)
    → P w × All P (before ++ after)
All-mid P [] after w h = h
All-mid P (b ∷ before) after w h = let (p, q) = All-mid P before after w h.1 in (p, (h.0, q))

pub All-map {ℓ κ λ'} :
    {A : Type ℓ} (P : A → Type κ) (Q : A → Type λ') (xs : List A)
    → ((x : A) → P x → Q x)
    → All P xs
    → All Q xs
All-map P Q [] f h = tt
All-map P Q (x ∷ xs) f h = (f x h.0, All-map P Q xs f h.1)

pub Apart-mid :
    (before after : List Worker) (w : Worker)
    → Apart (before ++ w ∷ after)
    → All (λ (o : Worker). o.entry.entry_id ≢ w.entry.entry_id) (before ++ after)
      × Apart (before ++ after)
Apart-mid [] after w h = h
Apart-mid (b ∷ before) after w h =
    let (others, rest) = Apart-mid before after w h.1 in
    let (first, firsts) =
      All-mid (λ (o : Worker). o.entry.entry_id ≢ b.entry.entry_id) before after w h.0 in
    ((λ e. first (sym e), others), (firsts, rest))

pub Queued-append :
    (id : ℕ) (es : List QEntry) (e : QEntry) → Queued id es → Queued id (es ++ e ∷ [])
Queued-append id [] e q = absurd q
Queued-append id (o ∷ es) e (inl h) = inl h
Queued-append id (o ∷ es) e (inr q) = inr (Queued-append id es e q)

pub Queued-last : (es : List QEntry) (e : QEntry) → Queued e.entry_id (es ++ e ∷ [])
Queued-last [] e = inl refl
Queued-last (o ∷ es) e = inr (Queued-last es e)

pub Queued-other :
    (id k : ℕ) (es rest : List QEntry) → Without k es rest → id ≢ k → Queued id es → Queued id rest
Queued-other id k es rest w d q =
    subst (Queued id) (sym w.others) (go w.before w.entry w.its (subst (Queued id) w.whole q))
  where
    go :
        (before : List QEntry) (e : QEntry)
        → e.entry_id ≡ k
        → Queued id (before ++ e ∷ w.after)
        → Queued id (before ++ w.after)
    go [] e its (inl h) = absurd (d (sym h ∙ its))
    go [] e its (inr q) = q
    go (b ∷ before) e its (inl h) = inl h
    go (b ∷ before) e its (inr q) = inr (go before e its q)

pub Without-All {κ} :
    (P : QEntry → Type κ) (k : ℕ) (es rest : List QEntry)
    → Without k es rest
    → All P es
    → All P rest
Without-All P k es rest w h =
    subst (All P) (sym w.others) (All-mid P w.before w.after w.entry (subst (All P) w.whole h)).1
