-- ===== src/Vll.antt =====
-- concurrency_control/row_vll.cpp and vll.cpp: very lightweight locking. A row counts the shared
-- and the exclusive accesses in progress; the manager keeps a queue of transactions. Rows and
-- transactions are known by their addresses; a queue entry by the number of its allocation.
-- The counters are `int`, whose overflow C++ leaves undefined, so they do not wrap here. `none` is
-- a failed assertion.
pub mod Counters
pub mod Queue
pub mod System
pub mod Sections
pub mod Blocked
mod Examples
use dbx1000_bskiplist.Base.{
  ℕ, suc, ◌+◌, ◌-◌, Bool, true, false, ◌||◌, Option, none, some, List, [], ◌∷◌, ◌++◌, if◌then◌else◌,
  ltb, leb, ◌==◌, ◌>>=◌, ◌>>◌, assert,
}

pub data AccessType : Type 0 where
  rd wr xp scan : AccessType

abbrev pub is_rd : AccessType → Bool
is_rd rd = true
is_rd _ = false

pub record RowVll : Type 0 where
  pub cs : ℕ
  pub cx : ℕ

pub init_row : RowVll
init_row = record { cs = 0; cx = 0 }

-- The new counters, and whether the access is blocked.
pub insert_access : AccessType → RowVll → RowVll × Bool
insert_access type r =
    if is_rd type
    then (record r { cs = r.cs + 1 }, ltb 0 r.cx)
    else (record r { cx = r.cx + 1 }, ltb 1 (r.cx + 1) || ltb 0 r.cs)

pub remove_access : AccessType → RowVll → Option RowVll
remove_access type r =
    if is_rd type
    then (assert (ltb 0 r.cs) >> some (record r { cs = r.cs - 1 }))
    else (assert (ltb 0 r.cx) >> some (record r { cx = r.cx - 1 }))

-- An Access: its type and its row.
pub record Access : Type 0 where
  pub type : AccessType
  pub orig_row : ℕ

pub data TxnType : Type 0 where
  vll_blocked vll_free : TxnType

pub record VllTxn : Type 0 where
  pub addr : ℕ
  pub accesses : List Access

-- TxnQEntry: `txn` is the pointer, `none` for NULL.
pub record QEntry : Type 0 where
  pub entry_id : ℕ
  pub txn : Option VllTxn

-- The manager, the rows' counters and fields, and the vll_txn_type of every transaction.
pub record VllMan : Type 0 where
  pub txn_queue : List QEntry
  pub txn_queue_size : ℕ
  pub next_entry : ℕ
  pub rows : ℕ → RowVll
  pub fields : ℕ → ℕ → ℕ
  pub types : ℕ → TxnType

abbrev pub update {ℓ} : {A : Type ℓ} → (ℕ → A) → ℕ → A → ℕ → A
update f a v x = if x == a then v else f x

pub init : (ℕ → ℕ → ℕ) → VllMan
unfolding init_row
init fields = record {
  txn_queue = [];
  txn_queue_size = 0;
  next_entry = 0;
  rows = λ x. init_row;
  fields = fields;
  types = λ x. vll_free;
}

-- The loop over the accesses in beginTxn: the rows, and whether some access was blocked.
pub insert_all : List Access → (ℕ → RowVll) → (ℕ → RowVll) × Bool
insert_all [] rows = (rows, false)
insert_all (a ∷ as') rows =
    let (r, blocked) = insert_access a.type (rows a.orig_row) in
    let (after, more) = insert_all as' (update rows a.orig_row r) in (after, blocked || more)

-- The loop in finishTxn.
pub remove_all : List Access → (ℕ → RowVll) → Option (ℕ → RowVll)
remove_all [] rows = some rows
remove_all (a ∷ as') rows = do
  r ← remove_access a.type (rows a.orig_row)
  remove_all as' (update rows a.orig_row r)

-- getQEntry: a fresh entry, whose pointers are NULL.
abbrev pub get_q_entry : VllMan → QEntry
get_q_entry m = record { entry_id = m.next_entry; txn = none }

-- The assignments of `ret` in beginTxn, in their order: the code 3 for a full queue is overwritten.
abbrev pub return_code : Bool → Bool → ℕ
return_code full blocked = if blocked then 1 else 2

-- beginTxn: the manager, the entry and the code that it returns.
pub begin_txn : ℕ → VllTxn → VllMan → VllMan × QEntry × ℕ
unfolding insert_all insert_access
begin_txn limit txn m =
    let (rows, blocked) = insert_all txn.accesses m.rows in
    (
      record m {
        txn_queue = m.txn_queue ++ get_q_entry m ∷ [];
        next_entry = suc m.next_entry;
        rows = rows;
        types = update m.types txn.addr (if blocked then vll_blocked else vll_free);
      },
      get_q_entry m,
      return_code (leb limit m.txn_queue_size) blocked,
    )

-- LIST_REMOVE_HT of an entry: `none` where it is not in the queue, so that the assertions of the
-- macro on the head and the tail do not hold of its null pointers.
pub remove_entry : ℕ → List QEntry → Option (List QEntry)
remove_entry id [] = none
remove_entry id (e ∷ es) =
    if e.entry_id == id then some es else do rest ← remove_entry id es; some (e ∷ rest)

pub finish_txn : VllTxn → QEntry → VllMan → Option VllMan
finish_txn txn entry m = do
  rows ← remove_all txn.accesses m.rows
  queue ← remove_entry entry.entry_id m.txn_queue
  some (record m { rows = rows; txn_queue = queue })

-- The writes of execute: the first field_cnt fields become 0.
abbrev pub clear_fields : ℕ → (ℕ → ℕ) → ℕ → ℕ
clear_fields field_cnt f x = if ltb x field_cnt then 0 else f x

abbrev pub execute_one : ℕ → AccessType → ℕ → (ℕ → ℕ → ℕ) → Option (ℕ → ℕ → ℕ)
execute_one field_cnt rd row fields = some fields
execute_one field_cnt wr row fields = some (update fields row (clear_fields field_cnt (fields row)))
execute_one field_cnt xp row fields = none
execute_one field_cnt scan row fields = none

pub execute_all : ℕ → List Access → (ℕ → ℕ → ℕ) → Option (ℕ → ℕ → ℕ)
execute_all field_cnt [] fields = some fields
execute_all field_cnt (a ∷ as') fields = do
  fields' ← execute_one field_cnt a.type a.orig_row fields
  execute_all field_cnt as' fields'

pub execute : ℕ → VllTxn → VllMan → Option VllMan
unfolding execute_all
execute field_cnt txn m = do
  fields ← execute_all field_cnt txn.accesses m.fields
  some (record m { fields = fields })

abbrev pub is_blocked : TxnType → Bool
is_blocked vll_blocked = true
is_blocked vll_free = false

-- `front_txn && front_txn->vll_txn_type == VLL_Blocked`, with the entry and its transaction.
abbrev pub blocked_front : VllMan → List QEntry → Option (QEntry × VllTxn)
blocked_front m [] = none
blocked_front m (e ∷ es) = elim e.txn [
  | none ↦ none
  | some t ↦ if is_blocked (m.types t.addr) then some (e, t) else none
]

-- What a thread does after a critical section at the top of vllMainLoop: it runs the front
-- transaction, then tries again; or its own, or has left that blocked, and is done.
pub data Task : Type 0 where
  run_front : QEntry → VllTxn → Task
  run_own : QEntry → Task
  left_blocked : Task

-- That section, under the mutex: it takes the front transaction if it is blocked, or begins the
-- thread's own one.
unfoldable pub main_enter : ℕ → VllTxn → VllMan → Option (VllMan × Task)
unfolding begin_txn
main_enter limit txn m = elim (blocked_front m m.txn_queue) [
  | some (e, t) ↦ some (record m { types = update m.types t.addr vll_free }, run_front e t)
  | none ↦
      let (m', entry, ok) = begin_txn limit txn m in
      if ok == 2 then some (m', run_own entry) else (do assert (ok == 1); some (m', left_blocked))
]
