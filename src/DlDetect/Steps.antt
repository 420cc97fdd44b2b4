-- ===== src/DlDetect/Steps.antt =====
-- The branches of nextNode and of its loop.
use dbx1000_bskiplist.Base.{
  ap, ◌∙◌, ℕ, suc, ◌≡◌, ◌∷◌, List, Bool, true, false, not, ◌&&◌, ◌==◌, ==_iff, refl,
}
use dbx1000_bskiplist.Run.{Run, done}
use dbx1000_bskiplist.DlDetect.{
  DepThd, DetectData, get_thdid_from_txnid, scan, next_node, finish, enter, narrow,
}

module _ (g_thread_cnt : ℕ) (dependency : ℕ → DepThd) where
  module _ (next : ℕ → DetectData → Run (Bool × DetectData)) (t : ℕ) (ts : List ℕ)
      (d : DetectData) where
    abbrev y : ℕ
    y = get_thdid_from_txnid g_thread_cnt t

    pub scan-back :
        (d.rec_stack y && (narrow t == (dependency y).txnid)) ≡ true
        → scan g_thread_cnt dependency next (t ∷ ts) d
          ≡ done (record d { loop = true; onloop = true; loopstart = y })
    unfolding scan
    scan-back c = rw c refl

    pub scan-found :
        (e : DetectData)
        → (d.rec_stack y && (narrow t == (dependency y).txnid)) ≡ false
        → d.visited y ≡ false
        → (dependency y).txnid ≡ t
        → next t d ≡ done (true, e)
        → scan g_thread_cnt dependency next (t ∷ ts) d ≡ done e
    unfolding scan
    scan-found e c new live run =
        let c' : (not (d.visited y) && ((dependency y).txnid == t)) ≡ true =
          rw new ((==_iff _ t).1 live) in
        rw (c, c', run) refl

    pub scan-onward :
        (e : DetectData)
        → (d.rec_stack y && (narrow t == (dependency y).txnid)) ≡ false
        → d.visited y ≡ false
        → (dependency y).txnid ≡ t
        → next t d ≡ done (false, e)
        → scan g_thread_cnt dependency next (t ∷ ts) d ≡ scan g_thread_cnt dependency next ts e
    unfolding scan
    scan-onward e c new live run =
        let c' : (not (d.visited y) && ((dependency y).txnid == t)) ≡ true =
          rw new ((==_iff _ t).1 live) in
        rw (c, c', run) refl

    pub scan-skip :
        (d.rec_stack y && (narrow t == (dependency y).txnid)) ≡ false
        → (not (d.visited y) && ((dependency y).txnid == t)) ≡ false
        → scan g_thread_cnt dependency next (t ∷ ts) d ≡ scan g_thread_cnt dependency next ts d
    unfolding scan
    scan-skip c c' = rw (c, c') refl

  next_node-eq :
      (fuel txnid : ℕ) (d e : DetectData)
      → let thd = get_thdid_from_txnid g_thread_cnt txnid in
        d.visited thd ≡ false
        → (dependency thd).txnid ≡ txnid
        → scan g_thread_cnt dependency
            (next_node g_thread_cnt dependency fuel)
            (dependency thd).adj
            (enter g_thread_cnt dependency thd d)
          ≡ done e
        → let f = finish g_thread_cnt dependency thd txnid (dependency thd).num_locks e in
          next_node g_thread_cnt dependency (suc fuel) txnid d ≡ done (f.loop, f)
  unfolding next_node
  next_node-eq fuel txnid d e new live run =
      let c = (==_iff _ txnid).1 live in rw (new, c, run) refl

  pub next_node-search :
      (fuel txnid : ℕ) (d e : DetectData) (found : Bool)
      → let thd = get_thdid_from_txnid g_thread_cnt txnid in
        d.visited thd ≡ false
        → (dependency thd).txnid ≡ txnid
        → scan g_thread_cnt dependency
            (next_node g_thread_cnt dependency fuel)
            (dependency thd).adj
            (enter g_thread_cnt dependency thd d)
          ≡ done e
        → let f = finish g_thread_cnt dependency thd txnid (dependency thd).num_locks e in
          f.loop ≡ found → next_node g_thread_cnt dependency (suc fuel) txnid d ≡ done (found, f)
  next_node-search fuel txnid d e found new live run loop =
      let thd = get_thdid_from_txnid g_thread_cnt txnid in
      next_node-eq fuel txnid d e new live run
      ∙ ap (λ l. done (l, finish g_thread_cnt dependency thd txnid (dependency thd).num_locks e))
          loop
