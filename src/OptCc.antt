-- ===== src/OptCc.antt =====
-- concurrency_control/occ.h and occ.cpp: central validation, as in the paper on optimistic
-- concurrency control. A row and a transaction are their addresses. `history` and `active` are the
-- stacks of those names, latest first. central_validate takes the latch twice: `enter` is what it does
-- under the first, `leave` under the second; between them it compares sets that no one changes.
pub mod Validity
pub mod Invariant
pub mod Interleavings
pub mod PerRow
mod Examples
use dbx1000_bskiplist.Base.{
  ℕ, List, [], ◌∷◌, Option, none, some, if◌then◌else◌, ◌==◌, ◌+◌, ltb, Bool, true, false, ◌&&◌, not,
  ◌>>=◌, length,
}
use dbx1000_bskiplist.Vll.{AccessType, Access, wr}

pub record SetEnt : Type 0 where
  pub tn : ℕ
  pub txn : ℕ
  pub rows : List ℕ

pub record OptCc : Type 0 where
  pub history : List SetEnt
  pub active : List SetEnt
  pub tnc : ℕ

-- OptCC::init; the source leaves `history`, of an object with static storage, null.
abbrev pub init : OptCc
init = record { history = []; active = []; tnc = 0 }

abbrev pub is_write : AccessType → Bool
is_write wr = true
is_write _ = false

-- get_rw_set: the rows read, and the rows written.
pub get_rw_set : List Access → List ℕ × List ℕ
get_rw_set [] = ([], [])
get_rw_set (a ∷ es) =
    let (rset, wset) = get_rw_set es in
    if is_write a.type then (rset, a.orig_row ∷ wset) else (a.orig_row ∷ rset, wset)

-- test_valid: the inner loop, and the outer one.
pub misses : ℕ → List ℕ → Bool
misses x [] = true
misses x (y ∷ ys) = let rest = misses x ys in if x == y then false else rest

pub test_valid : List ℕ → List ℕ → Bool
unfolding misses
test_valid [] set2 = true
test_valid (x ∷ xs) set2 = let rest = test_valid xs set2 in if misses x set2 then rest else false

-- A validation between its two critical sections.
pub record Validation : Type 0 where
  pub txn : ℕ
  pub rset : List ℕ
  pub wset : List ℕ
  pub start_tn : ℕ
  pub finish_tn : ℕ
  pub finish_active : List SetEnt
  pub his : List SetEnt

abbrev pub readonly : List ℕ → Bool
readonly [] = true
readonly (x ∷ xs) = false

-- The first critical section. The field tn of a new set is not set yet.
abbrev pub enter : ℕ → ℕ → List ℕ → List ℕ → OptCc → OptCc × Validation
enter txn start_tn rset wset s = (
  if readonly wset
      then s
      else record s { active = record { tn = 0; txn = txn; rows = wset } ∷ s.active },
  record {
    txn = txn;
    rset = rset;
    wset = wset;
    start_tn = start_tn;
    finish_tn = s.tnc;
    finish_active = s.active;
    his = s.history;
  },
)

-- The two loops over the history.
pub skip_later : ℕ → List SetEnt → List SetEnt
skip_later finish_tn [] = []
skip_later finish_tn (h ∷ hs) =
    let rest = skip_later finish_tn hs in if ltb finish_tn h.tn then rest else h ∷ hs

pub test_history : ℕ → List ℕ → List SetEnt → Bool
unfolding test_valid
test_history start_tn rset [] = true
test_history start_tn rset (h ∷ hs) =
    let rest = test_history start_tn rset hs in
    if ltb start_tn h.tn then (if test_valid h.rows rset then rest else false) else true

pub test_active : List ℕ → List ℕ → List SetEnt → Bool
unfolding test_valid
test_active rset wset [] = true
test_active rset wset (a ∷ es) =
    let rest = test_active rset wset es in
    if test_valid a.rows rset then (if test_valid a.rows wset then rest else false) else false

-- What the comparisons make of `valid`.
pub check : Validation → Bool
unfolding skip_later test_history test_active
check v =
    let history =
      if ltb v.start_tn v.finish_tn
      then test_history v.start_tn v.rset (skip_later v.finish_tn v.his)
      else true in
    let active = test_active v.rset v.wset v.finish_active in if history then active else false

-- The search for the own set in `active`; at its end the source follows a null pointer.
pub remove_active : ℕ → List SetEnt → Option (SetEnt × List SetEnt)
remove_active txn [] = none
remove_active txn (a ∷ es) =
    let rest = remove_active txn es >>= λ (e, fs). some (e, a ∷ fs) in
    if a.txn == txn then some (a, es) else rest

abbrev pub last_tn_is : ℕ → List SetEnt → Bool
last_tn_is tnc [] = true
last_tn_is tnc (h ∷ hs) = h.tn == tnc

-- The write set goes to the history, with the next transaction number.
abbrev pub commit : SetEnt → List SetEnt → OptCc → Option (OptCc × Bool)
commit e active s =
    if last_tn_is s.tnc s.history
    then some (
      record {
        history = record e { tn = s.tnc + 1 } ∷ s.history;
        active = active;
        tnc = s.tnc + 1;
      },
      true,
    )
    else none

-- The second critical section: the state, and whether the transaction commits.
pub leave : Validation → OptCc → Option (OptCc × Bool)
unfolding check remove_active
leave v s =
    let valid = check v in
    let update = remove_active v.txn s.active >>= λ (e, active).
    if valid then commit e active s else some (record s { active = active }, false) in
    if readonly v.wset then some (s, valid) else update
