-- ===== src/OptCc/Interleavings.antt =====
-- Central validation over all interleavings of its critical sections (occ.cpp).
use dbx1000_bskiplist.OptCc.Invariant.{Inv, Running, Without, entered-Inv, entry, Saw, leave-Inv}
use dbx1000_bskiplist.Base.{
  ℕ, List, [], ◌∷◌, ◌≡◌, ◌≢◌, ◌↔◌, All, true, false, refl, Bool, some, ◌+◌, ◌∙◌, All-mem, some_inj,
  sym, subst, ap,
}
use mathlib.Core.List.{Memᴰ}
use dbx1000_bskiplist.OptCc.{OptCc, Validation, init, enter, leave, readonly, check}
use dbx1000_bskiplist.OptCc.Validity.{Falling, IsValid, check-IsValid, Disjoint}

-- The states that the critical sections reach, with the validations that run.
pub data Reached : OptCc → Running → Type 0 where
  start : Reached init []
  entered :
      (s : OptCc) (vs : Running) (txn start_tn : ℕ) (rset wset : List ℕ)
      → Reached s vs
      → All (λ v. v.txn ≢ txn) vs
      → Reached (enter txn start_tn rset wset s).0 ((enter txn start_tn rset wset s).1 ∷ vs)
  left :
      (s t : OptCc) (vs ws : Running) (v : Validation) (committed : Bool)
      → Reached s vs
      → Without v vs ws
      → leave v s ≡ some (t, committed)
      → Reached t ws

init-Inv : Inv init []
init-Inv = record { numbered = (tt, refl); active_exact = refl; saw = tt; snapshots = tt }

pub Reached-Inv : (s : OptCc) (vs : Running) → Reached s vs → Inv s vs
Reached-Inv _ _ start = init-Inv
Reached-Inv _ _ (entered s vs txn start_tn rset wset r new) =
    entered-Inv s vs txn start_tn rset wset (Reached-Inv s vs r)
Reached-Inv _ _ (left s t vs ws v committed r out run) =
    let (u, b, run', i, _) = leave-Inv s vs ws v (Reached-Inv s vs r) out in
    let same = some_inj (sym run ∙ run') in subst (λ x. Inv x ws) (sym (ap (λ x. x.0) same)) i

-- In every state that the critical sections reach, in any interleaving, a running validation finds
-- its own set and leaves without a failed assertion. It commits exactly when no set committed in its
-- range of numbers meets its reads, and no set active when it entered meets its reads or writes.
pub leave_total :
    (s : OptCc) (vs ws : Running) (v : Validation)
    → Reached s vs
    → Without v vs ws
    → (t : OptCc) × (committed : Bool) × (leave v s ≡ some (t, committed))
      × Reached t ws
      × ((committed ≡ true) ↔ IsValid v)
leave_total s vs ws v r out =
    let (t, b, run, i, iff) = leave-Inv s vs ws v (Reached-Inv s vs r) out in
    (t, b, run, left s t vs ws v b r out run, iff)

-- `w` entered before `v`, and both run.
pub data Earlier (w v : Validation) : Running → Type 0 where
  first : (vs : Running) → Memᴰ w vs → Earlier w v (v ∷ vs)
  later : (u : Validation) (vs : Running) → Earlier w v vs → Earlier w v (u ∷ vs)

Saw-Earlier :
    (w v : Validation) (vs : Running)
    → Saw vs
    → Earlier w v vs
    → readonly w.wset ≡ false
    → Memᴰ (entry w) v.finish_active
Saw-Earlier w v vs a (first us m) c = All-mem _ us w a.0 m c
Saw-Earlier w v vs a (later u us e) c = Saw-Earlier w v us a.1 e c

snapshot_of :
    (w v : Validation) (vs : Running)
    → All (λ x. Falling (x.finish_tn + 1) x.his) vs
    → Earlier w v vs
    → Falling (v.finish_tn + 1) v.his
snapshot_of w v vs a (first us m) = a.0
snapshot_of w v vs a (later u us e) = snapshot_of w v us a.1 e

-- Of two validations that run at once in a reachable state, the one that entered later commits only
-- if the rows that the earlier writes meet neither its reads nor its writes.
pub overlap-Disjoint :
    (s : OptCc) (vs : Running) (w v : Validation)
    → Reached s vs
    → Earlier w v vs
    → readonly w.wset ≡ false
    → check v ≡ true
    → Disjoint w.wset v.rset × Disjoint w.wset v.wset
overlap-Disjoint s vs w v r e c d =
    let i = Reached-Inv s vs r in
    let valid = (check-IsValid v (v.finish_tn + 1) (snapshot_of w v vs i.snapshots e)).0 d in
    All-mem _ v.finish_active (entry w) valid.concurrent (Saw-Earlier w v vs i.saw e c)
