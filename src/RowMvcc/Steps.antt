-- ===== src/RowMvcc/Steps.antt =====
-- Runs of accesses to one row (row_mvcc.cpp).
use dbx1000_bskiplist.Base.{
  ℕ, ◌≡◌, ◌≢◌, ◌<◌, ◌≤◌, true, Option, some, none, List, [], inl, inr, ◌⊎◌, arith, refl, sym, ◌∙◌,
  subst, ap, some_inj, u32_mod, ◌==◌, false,
}
use dbx1000_bskiplist.RowLock.{Rc, rc_ok, abort, wait}
use dbx1000_bskiplist.RowTs.{uint64_max, update}
use dbx1000_bskiplist.RowMvcc.{RowMvcc}
use dbx1000_bskiplist.RowMvcc.Access.{
  Outcome, access_read, access_prewrite, access_write, access_abort,
}
use dbx1000_bskiplist.RowMvcc.Versions.{Sees, Fresh, Holds, Retains-refl, entry_at}
use dbx1000_bskiplist.RowMvcc.Slots.{Absent}
use dbx1000_bskiplist.RowMvcc.Choose.{History-recast, Retains-recast}
use dbx1000_bskiplist.RowMvcc.Quiet.{Quiet-refl}
use dbx1000_bskiplist.RowMvcc.Reads.{access_read-Inv}
use dbx1000_bskiplist.RowMvcc.Prewrites.{access_prewrite-Inv}
use dbx1000_bskiplist.RowMvcc.Writes.{access_write-Inv, access_abort-Inv}
use dbx1000_bskiplist.RowMvcc.Invariant.{Inv, Keeps, Keeps-trans, Quiet-Keeps}

not_refused : (rc_ok ≢ abort) × (rc_ok ≢ wait)
not_refused = (λ e. absurd (cc), λ e. absurd (cc))

module _ {D : Type 0} where
  -- The transaction with the granted prewrite changes its copy.
  abbrev pub edited : D → RowMvcc D → RowMvcc D
  edited x s = record s { heap = update s.heap (entry_at s s.prewrite_his_id).row x }

  -- One access; each transaction has a timestamp of its own and prewrites before it writes.
  pub data Step (thread_cnt : ℕ) : RowMvcc D → RowMvcc D → Type 0 where
    read :
        {s t : RowMvcc D} (min_ts fresh txn ts : ℕ) (rc : Rc) (row : Option ℕ)
        → ts < uint64_max
        → Absent ts s.requests
        → ts ≢ s.oldest_wts
        → s.latest_wts < u32_mod
        → access_read thread_cnt min_ts fresh txn ts s ≡ some (t, rc, row, [])
        → Step thread_cnt s t
    prewrite :
        {s t : RowMvcc D} (min_ts fresh txn ts : ℕ) (rc : Rc) (row : Option ℕ)
        → Fresh s fresh
        → ts < uint64_max
        → Absent ts s.requests
        → ts ≢ s.latest_wts
        → (s.exists_prewrite ≡ true → ts ≢ s.prewrite_ts)
        → access_prewrite thread_cnt min_ts fresh txn ts s ≡ some (t, rc, row, [])
        → Step thread_cnt s t
    edit : {s : RowMvcc D} (x : D) → s.exists_prewrite ≡ true → Step thread_cnt s (edited x s)
    write :
        {s t : RowMvcc D} (min_ts fresh ts row : ℕ) (ready : List (ℕ × ℕ))
        → Fresh s fresh
        → s.exists_prewrite ≡ true
        → ts ≡ s.prewrite_ts
        → row ≡ (entry_at s s.prewrite_his_id).row
        → access_write thread_cnt min_ts fresh ts row s ≡ some (t, rc_ok, none, ready)
        → Step thread_cnt s t
    rollback :
        {s t : RowMvcc D} (min_ts fresh ts row : ℕ) (ready : List (ℕ × ℕ))
        → Fresh s fresh
        → s.exists_prewrite ≡ true
        → ts ≡ s.prewrite_ts
        → row ≡ (entry_at s s.prewrite_his_id).row
        → access_abort thread_cnt min_ts fresh ts row s ≡ some (t, rc_ok, none, ready)
        → Step thread_cnt s t

  pub data Steps (thread_cnt : ℕ) (s : RowMvcc D) : RowMvcc D → Type 0 where
    done : Steps thread_cnt s s
    more : {t u : RowMvcc D} → Steps thread_cnt s t → Step thread_cnt t u → Steps thread_cnt s u

  abbrev state_of : Outcome D → RowMvcc D
  state_of (t, rc, row, ready) = t

  abbrev result_of : Outcome D → Rc
  result_of (t, rc, row, ready) = rc

  abbrev row_of : Outcome D → Option ℕ
  row_of (t, rc, row, ready) = row

  -- A run has one outcome.
  same_state :
      (run : Option (Outcome D)) (o p : Outcome D)
      → run ≡ some o
      → run ≡ some p
      → state_of o ≡ state_of p
  same_state run o p e f = ap state_of (some_inj (sym e ∙ f))

  -- No version is the granted copy.
  edited-Inv :
      (x : D) (s : RowMvcc D)
      → s.exists_prewrite ≡ true
      → Inv s
      → Inv (edited x s) × Keeps s (edited x s)
  edited-Inv x s on v = elim (v.state) [
    | inl (off, _, _) ↦ absurd (cc)
    | inr (_, r, p, d) ↦
        let own = (entry_at s s.prewrite_his_id).row in
        let heap = update s.heap own x in
        let apart : (w y : ℕ) → Holds s w y → y ≢ own = λ w y holds q. elim holds [
          | inl (_, base) ↦ v.history.apart_base s.prewrite_his_id r.inside (sym q ∙ base)
          | inr (j, l, is, _, at) ↦
              v.history.apart s.prewrite_his_id j r.inside l
                (λ e.
                  let on' = subst (λ k. (entry_at s k).valid ≡ true) (sym e) is in
                  let off = r.waiting in absurd (cc))
                r.has_row (sym (at ∙ q))
        ] in
        (
          record {
            history =
                History-recast s s.exists_prewrite s.prewrite_his_id s.prewrite_ts s.max_served_rts
                  s.requests heap v.history;
            state = inr (
              on,
              record {
                inside = r.inside;
                waiting = r.waiting;
                has_row = r.has_row;
                only = r.only;
                newer = r.newer;
                after_reads = r.after_reads;
                timed = r.timed;
              },
              p,
              d,
            );
            slots = v.slots;
          },
          Quiet-Keeps s (edited x s) (record {
            retains =
                Retains-recast s s s.exists_prewrite s.prewrite_his_id s.prewrite_ts
                  s.max_served_rts s.requests heap (Retains-refl s)
                  (λ w y holds.
                    let c : (y == own) ≡ false = let d = apart w y holds in ground arith in
                    rw c refl);
            latest_wts = refl;
            reads = omega arith;
          }),
        )
  ]

  module _ (thread_cnt : ℕ) (threads : thread_cnt ≤ 1073741824) where
    same_end : (s t u : RowMvcc D) → u ≡ t → Inv u → Keeps s u → Inv t × Keeps s t
    same_end s t u e v k = (subst Inv e v, subst (Keeps s) e k)

    pub Step-Inv : (s t : RowMvcc D) → Step thread_cnt s t → Inv s → Inv t × Keeps s t
    Step-Inv s t (read min_ts fresh txn ts rc row timed absent apart narrow run) v =
        let (u, rc', row', run', v', k, _) =
          access_read-Inv thread_cnt min_ts fresh threads txn ts s v timed absent apart narrow in
        same_end s t u (same_state _ _ _ run' run) v' k
    Step-Inv s t (prewrite min_ts fresh txn ts rc row unused timed absent apart other run) v =
        let (u, rc', row', run', v', k, _) =
          access_prewrite-Inv thread_cnt min_ts fresh threads txn ts s v unused timed absent apart
            other in
        same_end s t u (same_state _ _ _ run' run) v' k
    Step-Inv s _ (edit x on) v = edited-Inv x s on v
    Step-Inv s t (write min_ts fresh ts row ready unused on at own run) v =
        let (u, ready', run', v', k, _, _) =
          access_write-Inv thread_cnt min_ts fresh threads ts row s v unused on at own in
        same_end s t u (same_state _ _ _ run' run) v' k
    Step-Inv s t (rollback min_ts fresh ts row ready unused on at own run) v =
        let (u, ready', run', v', q) =
          access_abort-Inv thread_cnt min_ts fresh threads ts row s v unused on at own in
        same_end s t u (same_state _ _ _ run' run) v' (Quiet-Keeps s u q)

    pub Steps-Inv : (s t : RowMvcc D) → Steps thread_cnt s t → Inv s → Inv t × Keeps s t
    Steps-Inv s _ done v = (v, Quiet-Keeps s s (Quiet-refl s))
    Steps-Inv s u (more {t = t} steps step) v =
        let (w, k) = Steps-Inv s t steps v in
        let (w', k') = Step-Inv t u step w in (w', Keeps-trans s t u k k')

    -- On a row with the invariant and at most 2^30 threads, where the read's timestamp is not the
    -- oldest version's, has no request waiting and is below the largest number, and versions fit in
    -- 32 bits: the row that a read returned is, after any accesses, still what its timestamp sees, with
    -- the same contents, as long as the oldest version kept is older than the timestamp.
    pub access_read-stable :
        (min_ts fresh txn ts row : ℕ) (s t u : RowMvcc D)
        → Inv s
        → ts < uint64_max
        → Absent ts s.requests
        → ts ≢ s.oldest_wts
        → s.latest_wts < u32_mod
        → access_read thread_cnt min_ts fresh txn ts s ≡ some (t, rc_ok, some row, [])
        → Steps thread_cnt t u
        → u.oldest_wts < ts
        → Sees u ts row × (u.heap row ≡ t.heap row)
    access_read-stable min_ts fresh txn ts row s t u v timed absent apart narrow run steps low =
        let (t', rc', row', run', v', k', ends) =
          access_read-Inv thread_cnt min_ts fresh threads txn ts s v timed absent apart narrow in
        let e : (t', rc', row', []) ≡ (t, rc_ok, some row, []) = some_inj (sym run' ∙ run) in
        let (w, k) = Steps-Inv t u steps (subst Inv (ap state_of e) v') in
        elim ends [
          | inl (aborted, _) ↦ absurd (not_refused.0 (sym (ap result_of e) ∙ aborted))
          | inr (inl waits) ↦ absurd (not_refused.1 (sym (ap result_of e) ∙ waits))
          | inr (inr (_, (r, is, see, past))) ↦
              let same : r ≡ row = some_inj (sym is ∙ ap row_of e) in
              let state : t' ≡ t = ap state_of e in
              let see' = subst (λ y. Sees y ts row) state (subst (Sees t' ts) same see) in
              let past' =
                subst (λ (y : RowMvcc D). (ts ≤ y.latest_wts) ⊎ (ts ≤ y.max_served_rts)) state
                  past in
              k.sees ts row past' see' low
        ]
