-- ===== src/DlDetect.antt =====
-- concurrency_control/dl_detect.cpp and dl_detect.h: the dependencies between waiting transactions,
-- and the depth-first search for a cycle. The latches make each update one step, and a search reads
-- the dependencies of one moment. A transaction id is its 64-bit pattern, so -1 is the largest one.
pub mod Graph
pub mod Marks
pub mod Steps
pub mod Dfs
pub mod Finish
pub mod Cycles
pub mod Victim
mod Examples
use dbx1000_bskiplist.Base.{
  ℕ, zero, suc, ◌+◌, ◌-◌, ◌%◌, List, [], ◌∷◌, ◌++◌, Bool, true, false, not, ◌&&◌, if◌then◌else◌,
  ltb, ◌==◌, Option, none, some,
}
use dbx1000_bskiplist.Run.{Run, done, failed, no_fuel, ◌>>=◌}

-- (uint64_t) -1
abbrev pub invalid : ℕ
invalid = 18446744073709551615

-- (int64_t) (SInt32) t
abbrev pub narrow : ℕ → ℕ
narrow t =
    let low = t % 4294967296 in
    if ltb low 2147483648 then low else low + (18446744073709551616 - 4294967296)

pub record DepThd : Type 0 where
  pub adj : List ℕ
  pub txnid : ℕ
  pub num_locks : ℕ

pub record DetectData : Type 0 where
  pub visited : ℕ → Bool
  pub rec_stack : ℕ → Bool
  pub loop : Bool
  pub onloop : Bool
  pub loopstart : ℕ
  pub min_lock_num : ℕ
  pub min_txnid : ℕ

abbrev pub mark : (ℕ → Bool) → ℕ → Bool → ℕ → Bool
mark flags a v x = if x == a then v else flags x

abbrev pub set_dep : (ℕ → DepThd) → ℕ → DepThd → ℕ → DepThd
set_dep dependency a v x = if x == a then v else dependency x

module _ (g_thread_cnt : ℕ) where
  abbrev pub get_thdid_from_txnid : ℕ → ℕ
  get_thdid_from_txnid txnid = txnid % g_thread_cnt

  pub add_dep : ℕ → List ℕ → ℕ → (ℕ → DepThd) → ℕ → DepThd
  add_dep txnid1 txnids num_locks dependency =
      let thd1 = get_thdid_from_txnid txnid1 in
      set_dep dependency thd1
        (record { adj = (dependency thd1).adj ++ txnids; txnid = txnid1; num_locks = num_locks })

  pub clear_dep : ℕ → (ℕ → DepThd) → ℕ → DepThd
  clear_dep txnid dependency =
      set_dep dependency (get_thdid_from_txnid txnid)
        (record { adj = []; txnid = invalid; num_locks = 0 })

  module _ (dependency : ℕ → DepThd) where
    -- The loop of nextNode over `txnids`; `next` is the recursive call.
    pub scan : (ℕ → DetectData → Run (Bool × DetectData)) → List ℕ → DetectData → Run DetectData
    scan next [] d = done d
    scan next (t ∷ txnids) d =
        let nextthd = get_thdid_from_txnid t in
        let rest = scan next txnids d in
        let deeper = next t d >>= λ (found, e).
        (let onward = scan next txnids e in if found then done e else onward) in
        if d.rec_stack nextthd && (narrow t == (dependency nextthd).txnid)
        then done (record d { loop = true; onloop = true; loopstart = nextthd })
        else if not (d.visited nextthd) && ((dependency nextthd).txnid == t)
        then deeper
        else rest

    -- What nextNode does after its loop.
    abbrev pub least : ℕ → ℕ → DetectData → DetectData
    least txnid lock_num d =
        if d.loop && (d.onloop && ltb lock_num d.min_lock_num)
        then record d { min_lock_num = lock_num; min_txnid = txnid }
        else d

    abbrev pub leave : ℕ → DetectData → DetectData
    leave thd d = if thd == d.loopstart then record d { onloop = false } else d

    abbrev pub finish : ℕ → ℕ → ℕ → DetectData → DetectData
    finish thd txnid lock_num d =
        leave thd (least txnid lock_num (record d { rec_stack = mark d.rec_stack thd false }))

    abbrev pub enter : ℕ → DetectData → DetectData
    enter thd d = record d {
      visited = mark d.visited thd true;
      rec_stack = mark d.rec_stack thd true;
    }

    pub next_node : ℕ → ℕ → DetectData → Run (Bool × DetectData)
    unfolding scan
    next_node zero txnid d = no_fuel
    next_node (suc fuel) txnid d =
        let thd = get_thdid_from_txnid txnid in
        let dep = dependency thd in
        let search = scan (next_node fuel) dep.adj (enter thd d) >>= λ e.
        (let f = finish thd txnid dep.num_locks e in done (f.loop, f)) in
        let stale = record (enter thd d) { rec_stack = mark (enter thd d).rec_stack thd false } in
        if d.visited thd then failed else if dep.txnid == txnid then search else done (false, stale)

    -- `start` and `started` are what the memory of `onloop` and `loopstart` holds before.
    abbrev pub detect_data : Bool → ℕ → DetectData
    detect_data started start = record {
      visited = λ i. false;
      rec_stack = λ i. false;
      loop = false;
      onloop = started;
      loopstart = start;
      min_lock_num = 1000;
      min_txnid = invalid;
    }

    -- The result of detect_cycle, and the thread whose transaction it aborts.
    pub detect_cycle : ℕ → Bool → ℕ → ℕ → Run (ℕ × Option ℕ)
    unfolding next_node
    detect_cycle fuel started start txnid =
        next_node fuel txnid (detect_data started start) >>= λ (found, d).
        (let thd_to_abort = get_thdid_from_txnid d.min_txnid in
          if found
          then done (
            1,
            if (dependency thd_to_abort).txnid == d.min_txnid then some thd_to_abort else none,
          )
          else done (0, none))
