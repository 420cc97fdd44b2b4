-- ===== src/DlDetect/Victim.antt =====
-- What detect_cycle returns, and whom it aborts.
use dbx1000_bskiplist.Base.{
  ◌≢◌, ℕ, ◌≡◌, ◌<◌, ◌≤◌, List, Bool, true, ◌⊎◌, ◌==◌, inl, inr, refl, ◌∙◌, arith, sym, subst,
  ==_iff, ap, Option, none, some, if◌then◌else◌, false, [],
}
use mathlib.Core.List.{Memᴰ}
use dbx1000_bskiplist.Run.{done}
use dbx1000_bskiplist.DlDetect.{
  clear_dep, get_thdid_from_txnid, DepThd, DetectData, detect_data, detect_cycle, next_node,
  invalid,
}
use dbx1000_bskiplist.DlDetect.Graph.{thread, Edge, Way, Walk, HasCycle}
use dbx1000_bskiplist.DlDetect.Marks.{unmarked_none}
use dbx1000_bskiplist.DlDetect.Dfs.{Quiet, Finished, Closed}
use dbx1000_bskiplist.DlDetect.Finish.{Finished-path}
use dbx1000_bskiplist.DlDetect.Cycles.{next_node-NextNode}
use mathlib.Core.List.Memᴰ

module _ (g : ℕ) (dependency : ℕ → DepThd) where
  Walk-Way : {x u : ℕ} {p : List ℕ} → Walk g dependency x p u → Way g dependency x u
  Walk-Way Walk.last = Way.here
  Walk-Way (Walk.next edge walk) = prepend edge (Walk-Way walk)
    where
      prepend : {a b c : ℕ} → Edge g dependency a b → Way g dependency b c → Way g dependency a c
      prepend first Way.here = Way.step Way.here first
      prepend first (Way.step way next) = Way.step (prepend first way) next

  -- A search that has left a node quietly leads to no cycle.
  Finished-no_cycle :
      (e : DetectData) (x : ℕ) → Quiet g dependency e → Finished e x → HasCycle g dependency x → ⊥
  Finished-no_cycle e x v h c =
      first c.start c.end c.nodes c.walk c.back (Finished-path g dependency e x c.start v h c.way)
    where
      first :
          (y u : ℕ) (p : List ℕ)
          → Walk g dependency y p u
          → Edge g dependency u y
          → Finished e y
          → ⊥
      first y u p Walk.last back done_y = v.acyclic y y done_y back Way.here
      first y u p (Walk.next edge walk) back done_y =
          v.acyclic y _ done_y edge (Way.step (Walk-Way walk) back)

  -- A transaction that is waited for runs on the thread of its id.
  Walk-live :
      {x u : ℕ} {p : List ℕ}
      → Walk g dependency x p u
      → thread g dependency (dependency x).txnid ≡ x
      → (z : ℕ) → Memᴰ z p
      → thread g dependency (dependency z).txnid ≡ z
  Walk-live {x} Walk.last live z h =
      subst (λ y. thread g dependency (dependency y).txnid ≡ y) (sym (Memᴰ.eq_of_singleton h)) live
  Walk-live {x} (Walk.next {y = y} (t, mem, to, there) walk) live z h = elim (Memᴰ.cases_cons h) [
    | inl e ↦ subst (λ y. thread g dependency (dependency y).txnid ≡ y) (sym e) live
    | inr h' ↦ Walk-live walk (ap (thread g dependency) there ∙ to) z h'
  ]

  -- Every transaction of a cycle waits.
  Walk-waits :
      {x u y : ℕ} {p : List ℕ}
      → Walk g dependency x p u
      → Edge g dependency u y
      → (z : ℕ) → Memᴰ z p
      → (t : ℕ) × Memᴰ t (dependency z).adj
  Walk-waits Walk.last (t, mem, _, _) z h =
      (t, subst (λ y. Memᴰ t (dependency y).adj) (sym (Memᴰ.eq_of_singleton h)) mem)
  Walk-waits (Walk.next (t, mem, _, _) walk) back z h = elim (Memᴰ.cases_cons h) [
    | inl e ↦ (t, subst (λ y. Memᴰ t (dependency y).adj) (sym e) mem)
    | inr h' ↦ Walk-waits walk back z h'
  ]

  -- The transaction to abort is one of the cycle with the fewest locks, unless all hold 1000.
  abbrev pub Victim : List ℕ → Option ℕ → Type 0
  Victim p a =
      ((z : ℕ) × (a ≡ some z)
        × Memᴰ z p
        × ((w : ℕ) → Memᴰ w p → (dependency z).num_locks ≤ (dependency w).num_locks))
      ⊎ ((w : ℕ) → Memᴰ w p → 1000 ≤ (dependency w).num_locks)

  abbrev pub Verdict : ℕ → ℕ → Option ℕ → Type 0
  Verdict x r a =
      ((r ≡ 0) × (a ≡ none) × (HasCycle g dependency x → ⊥))
      ⊎ ((r ≡ 1) × ((c : HasCycle g dependency x) × Victim c.nodes a))

  abbrev aborted : ℕ → Option ℕ
  aborted id = let z = thread g dependency id in if (dependency z).txnid == id then some z else none

  Least-Victim :
      (x : ℕ) (e : DetectData)
      → (v : Closed g dependency x e) → Victim v.nodes (aborted e.min_txnid)
  Least-Victim x e v = elim v.least.attained [
    | inl (m, _) ↦ inr (λ w h. omega (arith, v.least.below w h))
    | inr (z, h, locks, txn, few) ↦
        let (t, mem, to, there) = v.back in
        let live = Walk-live v.walk (ap (thread g dependency) there ∙ to) z h in
        let at : thread g dependency e.min_txnid ≡ z = ap (thread g dependency) txn ∙ live in
        let same : ((dependency (thread g dependency e.min_txnid)).txnid == e.min_txnid) ≡ true =
          (==_iff _ e.min_txnid).1 (ap (λ y. (dependency y).txnid) at ∙ sym txn) in
        inl (z, rw same (ap some at), h, λ w h'. omega (arith, v.least.below w h'))
  ]

  module _ (some_threads : 0 < g)
      (small : (x t : ℕ) → Memᴰ t (dependency x).adj → t < 2147483648) where
    -- The search from fresh marks.
    detect_search :
        (fuel : ℕ) (started : Bool) (start txnid : ℕ)
        → g < fuel
        → (dependency (thread g dependency txnid)).txnid ≡ txnid
        → let run = next_node g dependency fuel txnid (detect_data g dependency started start) in
          (e : DetectData) × (((run ≡ done (false, e))
              × (HasCycle g dependency (thread g dependency txnid) → ⊥))
            ⊎ ((run ≡ done (true, e)) × Closed g dependency (thread g dependency txnid) e))
    detect_search fuel started start txnid enough live =
        let d = detect_data g dependency started start in
        let quiet : Quiet g dependency d = record {
          no_loop = refl;
          min_lock_num = refl;
          min_txnid = refl;
          stacked = λ x h. cc;
          closed = λ x y (h, _) edge. cc;
          acyclic = λ x y (h, _) edge way. cc;
        } in
        let (e, result) =
          next_node-NextNode g dependency some_threads small fuel txnid d quiet refl live
            (omega (arith, unmarked_none g)) in
        elim result [
          | inl (run, more, finished) ↦
              (e, inl (run, Finished-no_cycle e (thread g dependency txnid) more.quiet finished))
          | inr (run, (h, found)) ↦ elim found [
            | inl (p, v) ↦ let none_pending = v.pending in cc
            | inr v ↦ (e, inr (run, v))
          ]
        ]

    -- For a transaction that its thread runs, with ids below 2^31 in the lists and more fuel than
    -- threads: detect_cycle ends, whatever onloop and loopstart hold before; it returns 1 if the
    -- transaction leads to a cycle of waiting transactions, and 0 if there is none. With 1 it aborts
    -- a transaction of such a cycle, with the fewest locks there, unless all hold 1000 or more.
    pub detect_cycle-Verdict :
        (fuel : ℕ) (started : Bool) (start txnid : ℕ)
        → g < fuel
        → (dependency (thread g dependency txnid)).txnid ≡ txnid
        → (r : ℕ) × (a : Option ℕ) × (detect_cycle g dependency fuel started start txnid
            ≡ done (r, a))
          × Verdict (thread g dependency txnid) r a
    unfolding detect_cycle
    detect_cycle-Verdict fuel started start txnid enough live =
        let (e, result) = detect_search fuel started start txnid enough live in
        elim result [
          | inl (run, none_there) ↦ (0, none, rw run refl, inl (refl, refl, none_there))
          | inr (run, v) ↦ (
            1,
            aborted e.min_txnid,
            rw run refl,
            inr (
              refl,
              (
                record {
                  start = v.start;
                  nodes = v.nodes;
                  end = v.end;
                  way = v.way;
                  walk = v.walk;
                  back = v.back;
                },
                Least-Victim (thread g dependency txnid) e v,
              ),
            ),
          )
        ]

    -- Where each waiting transaction holds 1000 locks or more, and the thread of the id -1 is idle: on
    -- a cycle detect_cycle, with ids below 2^31 in the lists and more fuel than threads, returns 1, and
    -- the slot of the victim that it picks is that idle thread's, which waits for nothing: no
    -- transaction of the cycle is picked.
    pub detect_cycle_stray :
        (fuel : ℕ) (started : Bool) (start txnid : ℕ)
        → g < fuel
        → (dependency (thread g dependency txnid)).txnid ≡ txnid
        → ((x t : ℕ) → Memᴰ t (dependency x).adj → 1000 ≤ (dependency x).num_locks)
        → (dependency (thread g dependency invalid)).txnid ≡ invalid
        → (dependency (thread g dependency invalid)).num_locks < 1000
        → HasCycle g dependency (thread g dependency txnid)
        → (detect_cycle g dependency fuel started start txnid
            ≡ done (1, some (thread g dependency invalid)))
          × ((y : ℕ) → Edge g dependency (thread g dependency invalid) y → ⊥)
    unfolding detect_cycle
    detect_cycle_stray fuel started start txnid enough live many idle unlocked cycle =
        let (e, result) = detect_search fuel started start txnid enough live in
        (
          elim result [
            | inl (run, none_there) ↦ absurd (none_there cycle)
            | inr (run, v) ↦ elim v.least.attained [
              | inl (_, id) ↦
                  let same : ((dependency (thread g dependency invalid)).txnid == invalid) ≡ true =
                    (==_iff _ invalid).1 idle in
                  rw (run, id, same) refl
              | inr (z, h, locks, txn, few) ↦
                  let (t, mem) = Walk-waits v.walk v.back z h in
                  absurd (omega (arith, many z t mem))
            ]
          ],
          λ y (t, mem, to, there). omega (arith, many (thread g dependency invalid) t mem),
        )

-- A node with no edges leads to no cycle.
no_edges :
    (g : ℕ) (dependency : ℕ → DepThd) (x : ℕ)
    → ((y : ℕ) → Edge g dependency x y → ⊥)
    → HasCycle g dependency x
    → ⊥
no_edges g dependency x none_out c = at_start c.start c.end c.nodes (stays c.way) c.walk c.back
  where
    stays : {z : ℕ} → Way g dependency x z → z ≡ x
    stays Way.here = refl
    stays (Way.step {z = z} way edge) =
        absurd (none_out z (subst (λ y. Edge g dependency y z) (stays way) edge))

    at_start : (y u : ℕ) (p : List ℕ) → y ≡ x → Walk g dependency y p u → Edge g dependency u y → ⊥
    at_start y u p e Walk.last back = none_out y (subst (λ w. Edge g dependency w y) e back)
    at_start y u p e (Walk.next {y = z} edge walk) back =
        none_out z (subst (λ w. Edge g dependency w z) e edge)

-- After clear_dep the thread of the transaction leads to no cycle, and the dependencies of the other
-- threads are as before.
pub clear_dep_lem :
    (g : ℕ) (dependency : ℕ → DepThd) (txnid : ℕ)
    → let after = clear_dep g txnid dependency in
      (HasCycle g after (get_thdid_from_txnid g txnid) → ⊥)
      × ((x : ℕ) → x ≢ get_thdid_from_txnid g txnid → after x ≡ dependency x)
unfolding clear_dep
clear_dep_lem g dependency txnid =
    let thd = get_thdid_from_txnid g txnid in
    let after = clear_dep g txnid dependency in
    let same : (thd == thd) ≡ true = ground arith in
    let empty : (after thd).adj ≡ [] = rw same refl in
    (
      no_edges g after thd (λ y (t, h, _, _). Memᴰ.not-nil (subst (Memᴰ t) empty h)),
      λ x d. let c : (x == thd) ≡ false = ground arith in rw c refl,
    )
