-- ===== src/Vll/Queue.antt =====
-- beginTxn and finishTxn (vll.cpp): what becomes of the row counters and of the queue, and what front
-- vllMainLoop finds there.
use dbx1000_bskiplist.Base.{
  ◌⊎◌, ==_iff, false, ℕ, arith, All, List, ◌<◌, ◌≡◌, ◌∷◌, none, some, ◌++◌, Bool-cases, ◌==◌,
  bind-eq-some, [], refl, inl, inr, ap, sym, some_inj,
}
use dbx1000_bskiplist.Vll.{
  remove_all, VllMan, VllTxn, QEntry, execute, begin_txn, remove_entry, finish_txn, RowVll,
  blocked_front, execute_all,
}
use dbx1000_bskiplist.Vll.Counters.{Adds, remove_all_total, insert_all-Adds}

-- The queue has an entry with the number.
abbrev pub Queued : ℕ → List QEntry → Type 0
Queued id [] = ⊥
Queued id (e ∷ es) = (e.entry_id ≡ id) ⊎ Queued id es

-- The queue less one entry with the number.
pub record Without (id : ℕ) (es rest : List QEntry) : Type 0 where
  pub before : List QEntry
  pub entry : QEntry
  pub after : List QEntry
  pub whole : es ≡ before ++ entry ∷ after
  pub its : entry.entry_id ≡ id
  pub others : rest ≡ before ++ after

pub remove_entry-Without :
    (id : ℕ) (es : List QEntry)
    → Queued id es
    → (rest : List QEntry) × (remove_entry id es ≡ some rest) × Without id es rest
unfolding remove_entry
remove_entry-Without id [] q = absurd q
remove_entry-Without id (e ∷ es) q = elim (Bool-cases (e.entry_id == id)) [
  | inl c ↦ (
    es,
    rw c refl,
    record {
      before = [];
      entry = e;
      after = es;
      whole = refl;
      its = (==_iff _ id).0 c;
      others = refl;
    },
  )
  | inr c ↦
      let more : Queued id es = elim q [
        | inl here ↦ let on = (==_iff _ id).1 here in absurd (cc)
        | inr more ↦ more
      ] in
      let (rest, run, w) = remove_entry-Without id es more in
      (
        e ∷ rest,
        rw (c, run) refl,
        record {
          before = e ∷ w.before;
          entry = w.entry;
          after = w.after;
          whole = ap (λ xs. e ∷ xs) w.whole;
          its = w.its;
          others = ap (λ xs. e ∷ xs) w.others;
        },
      )
]

-- While the counters contain the transaction's accesses and the queue its entry, finishTxn fails no
-- assertion, whatever other transactions have begun or finished since. It takes away just those
-- accesses, and one entry with that number.
pub finish_txn_total :
    (txn : VllTxn) (entry : QEntry) (m : VllMan) (base : ℕ → RowVll)
    → Adds txn.accesses base m.rows
    → Queued entry.entry_id m.txn_queue
    → (m' : VllMan) × (finish_txn txn entry m ≡ some m')
      × ((x : ℕ) → m'.rows x ≡ base x)
      × Without entry.entry_id m.txn_queue m'.txn_queue
      × (m'.next_entry ≡ m.next_entry)
unfolding finish_txn
finish_txn_total txn entry m base h q =
    let (after, run, left) = remove_all_total txn.accesses base m.rows h in
    let (rest, run', w) = remove_entry-Without entry.entry_id m.txn_queue q in
    (record m { rows = after; txn_queue = rest }, rw (run, run') refl, left, w, refl)

-- Entries in the queue are older than the next one.
abbrev pub IsFresh : VllMan → Type 0
IsFresh m = All (λ e. e.entry_id < m.next_entry) m.txn_queue

remove_entry-last :
    (es : List QEntry) (e : QEntry)
    → All (λ (o : QEntry). o.entry_id < e.entry_id) es
    → remove_entry e.entry_id (es ++ e ∷ []) ≡ some es
unfolding remove_entry
remove_entry-last [] e h = ground arith
remove_entry-last (o ∷ es) e h =
    let c : (o.entry_id == e.entry_id) ≡ false = let l = h.0 in ground arith in
    rw (c, remove_entry-last es e h.1) refl

finish_run :
    (txn : VllTxn) (entry : QEntry) (m : VllMan) (rows : ℕ → RowVll) (rest : List QEntry)
    → remove_all txn.accesses m.rows ≡ some rows
    → remove_entry entry.entry_id m.txn_queue ≡ some rest
    → finish_txn txn entry m ≡ some (record m { rows = rows; txn_queue = rest })
unfolding finish_txn
finish_run txn entry m rows rest run run' = rw (run, run') refl

-- finishTxn undoes what beginTxn did to the row counters and to the queue.
pub finish_txn-begin_txn :
    (limit : ℕ) (txn : VllTxn) (m : VllMan)
    → IsFresh m
    → let (begun, entry, code) = begin_txn limit txn m in
      (m' : VllMan) × (finish_txn txn entry begun ≡ some m')
      × ((x : ℕ) → m'.rows x ≡ m.rows x)
      × (m'.txn_queue ≡ m.txn_queue)
unfolding begin_txn
finish_txn-begin_txn limit txn m fresh =
    let (begun, entry, code) = begin_txn limit txn m in
    let (rows, run, left) =
      remove_all_total txn.accesses m.rows begun.rows (insert_all-Adds txn.accesses m.rows) in
    (
      record begun { rows = rows; txn_queue = m.txn_queue },
      finish_run txn entry begun rows m.txn_queue run (remove_entry-last m.txn_queue entry fresh),
      left,
      refl,
    )

-- No entry of the queue has its transaction.
abbrev pub IsNull : VllMan → Type 0
IsNull m = All (λ e. e.txn ≡ none) m.txn_queue

pub no_front :
    (m : VllMan) (es : List QEntry) → All (λ e. e.txn ≡ none) es → blocked_front m es ≡ none
no_front m [] h = refl
no_front m (e ∷ es) h = ground (arith, h.0)

pub execute_frame :
    (field_cnt : ℕ) (txn : VllTxn) (m m' : VllMan)
    → execute field_cnt txn m ≡ some m'
    → (m'.rows ≡ m.rows) × (m'.txn_queue ≡ m.txn_queue) × (m'.next_entry ≡ m.next_entry)
unfolding execute
execute_frame field_cnt txn m m' h =
    let (fields, _, q) = bind-eq-some (execute_all field_cnt txn.accesses m.fields) _ h in
    (
      ap (λ (n : VllMan). n.rows) (sym (some_inj q)),
      ap (λ (n : VllMan). n.txn_queue) (sym (some_inj q)),
      ap (λ (n : VllMan). n.next_entry) (sym (some_inj q)),
    )
