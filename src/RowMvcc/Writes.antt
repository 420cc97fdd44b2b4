-- ===== src/RowMvcc/Writes.antt =====
-- Writes and aborts of the transaction whose prewrite is granted (row_mvcc.cpp).
use dbx1000_bskiplist.Base.{
  ℕ, ◌+◌, ◌≡◌, ◌≢◌, ◌<◌, ◌≤◌, true, false, some, none, List, inl, inr, arith, refl, sym, subst, ap,
  ltb, ◌==◌, ℕ_discrete, ◌∙◌,
}
use dbx1000_bskiplist.RowLock.{rc_ok}
use dbx1000_bskiplist.RowTs.{update}
use dbx1000_bskiplist.RowMvcc.{WriteHisEntry, RowMvcc}
use dbx1000_bskiplist.RowMvcc.Access.{update_buffer, access_write, access_abort}
use dbx1000_bskiplist.RowMvcc.Versions.{
  Sees, Retains-Sees, Fresh, oldest-le-latest, History, Reserved, entry_at,
}
use dbx1000_bskiplist.RowMvcc.Slots.{Pending}
use dbx1000_bskiplist.RowMvcc.Choose.{History-recast, Retains-recast}
use dbx1000_bskiplist.RowMvcc.Replace.{
  replaced, replaced_own, replaced_other, replaced-History, replaced-Retains,
}
use dbx1000_bskiplist.RowMvcc.Written.{written, written-History, written-Idle, written-Keeps}
use dbx1000_bskiplist.RowMvcc.Reads.{Sees-latest}
use dbx1000_bskiplist.RowMvcc.Quiet.{Quiet, Quiet-trans, Idle}
use dbx1000_bskiplist.RowMvcc.Invariant.{Inv, Keeps, Keeps-trans, Quiet-Keeps, update_buffer-Inv}

module _ {D : Type 0} where
  -- The reserved entry is free again.
  abbrev pub freed : RowMvcc D → RowMvcc D
  freed s = record s {
    write_history =
        update s.write_history s.prewrite_his_id
          (record (entry_at s s.prewrite_his_id) { valid = false; reserved = false });
    exists_prewrite = false;
  }

  freed_lem :
      (fresh ts : ℕ) (s : RowMvcc D)
      → History s
      → Reserved s
      → ts ≡ s.prewrite_ts
      → Fresh s fresh
      → Idle (freed s) fresh (ts + 1) × Quiet s (freed s)
  freed_lem fresh ts s v r at (new, base, rows) =
      let id = s.prewrite_his_id in
      let e : WriteHisEntry = record (entry_at s id) { valid = false; reserved = false } in
      let not_base = v.apart_base id r.inside in
      let not_other : (j : ℕ) → j < s.his_len → j ≢ id → e.row ≢ 0 → (entry_at s j).row ≢ e.row =
        λ j l d there q. v.apart id j r.inside l (λ x. d (sym x)) there (sym q) in
      let u = replaced s v id r.inside r.waiting e refl not_base not_other in
      let h = replaced-History s v id r.inside r.waiting e refl not_base not_other in
      let k = replaced-Retains s v id r.inside r.waiting e refl not_base not_other in
      let own = replaced_own s v id r.inside r.waiting e refl not_base not_other in
      let other = replaced_other s v id r.inside r.waiting e refl not_base not_other in
      (
        record {
          history = History-recast u false id s.prewrite_ts s.max_served_rts s.requests s.heap h;
          unreserved = λ j l is. elim (ℕ_discrete j id) [
            | yes q ↦
                subst (λ i. (entry_at u i).reserved ≡ false) (sym q)
                  (ap (λ (x : WriteHisEntry). x.reserved) own)
            | no d ↦
                let same = other j d in
                ap (λ (x : WriteHisEntry). x.reserved) same
                ∙ r.only j l d (ap (λ (x : WriteHisEntry). x.valid) (sym same) ∙ is)
          ];
          exists = refl;
          unused = (
            new,
            base,
            λ j l q. elim (ℕ_discrete j id) [
              | yes x ↦ rows id r.inside (
                  sym (ap (λ (x : WriteHisEntry). x.row) own)
                  ∙ (subst (λ i. (entry_at u i).row ≡ fresh) x q))
              | no d ↦ rows j l (sym (ap (λ (x : WriteHisEntry). x.row) (other j d)) ∙ q)
            ],
          );
          newer = omega (arith, r.newer);
          after_reads = omega (arith, r.after_reads);
        },
        record {
          retains =
              Retains-recast s u false id s.prewrite_ts s.max_served_rts s.requests s.heap k
                (λ w x holds. refl);
          latest_wts = refl;
          reads = omega arith;
        },
      )

  module _ (thread_cnt min_ts fresh : ℕ) (threads : thread_cnt ≤ 1073741824) where
    write_run :
        (ts row : ℕ) (s t : RowMvcc D) (ready : List (ℕ × ℕ))
        → s.latest_wts < ts
        → row ≡ (entry_at s s.prewrite_his_id).row
        → update_buffer thread_cnt min_ts fresh ts (written ts row s) ≡ some (t, ready)
        → access_write thread_cnt min_ts fresh ts row s ≡ some (t, rc_ok, none, ready)
    unfolding access_write
    write_run ts row s t ready after own run =
        let c : ltb s.latest_wts ts ≡ true = ground arith in
        let d : (row == (entry_at s s.prewrite_his_id).row) ≡ true = ground arith in
        rw (run, c, d) refl

    abort_run :
        (ts row : ℕ) (s t : RowMvcc D) (ready : List (ℕ × ℕ))
        → row ≡ (entry_at s s.prewrite_his_id).row
        → update_buffer thread_cnt min_ts fresh ts (freed s) ≡ some (t, ready)
        → access_abort thread_cnt min_ts fresh ts row s ≡ some (t, rc_ok, none, ready)
    unfolding access_abort
    abort_run ts row s t ready own run =
        let d : (row == (entry_at s s.prewrite_his_id).row) ≡ true = ground arith in
        rw (run, d) refl

    -- On a row with the invariant and at most 2^30 threads, the write of the granted prewrite, with its
    -- timestamp and row, fails no assertion, keeps the invariant and what others have seen; its
    -- timestamp is the latest, and every later timestamp sees the row with the contents it had.
    pub access_write-Inv :
        (ts row : ℕ) (s : RowMvcc D)
        → Inv s
        → Fresh s fresh
        → s.exists_prewrite ≡ true
        → ts ≡ s.prewrite_ts
        → row ≡ (entry_at s s.prewrite_his_id).row
        → (t : RowMvcc D) × (ready : List (ℕ × ℕ)) × (access_write thread_cnt min_ts fresh ts row s
            ≡ some (t, rc_ok, none, ready))
          × Inv t
          × Keeps s t
          × (t.latest_wts ≡ ts)
          × ((m : ℕ) → ts < m → Sees t m row × (t.heap row ≡ s.heap row))
    access_write-Inv ts row s v unused on at own = elim (v.state) [
      | inl (off, _, _) ↦ absurd (cc)
      | inr (_, r, p, d) ↦
          let w = written ts row s in
          let after : s.latest_wts < ts = omega (arith, r.newer) in
          let (t, ready, run, i, q) =
            update_buffer-Inv thread_cnt min_ts fresh threads ts w
              (written-Idle ts row s v.history r at own fresh unused) (omega (arith, r.after_reads))
              (omega (arith, r.timed)) (subst (λ n. Pending n s.requests) (sym at) p) d v.slots in
          (
            t,
            ready,
            write_run ts row s t ready after own run,
            i,
            Keeps-trans s w t (written-Keeps ts row s v.history r at own) (Quiet-Keeps w t q),
            q.latest_wts,
            λ m later.
                Retains-Sees w t m row q.retains
                  (Sees-latest w m (written-History ts row s v.history r at own) later)
                  (let e = q.latest_wts in let o = oldest-le-latest t i.history in omega arith),
          )
    ]

    -- An abort of a granted prewrite succeeds and adds no version.
    pub access_abort-Inv :
        (ts row : ℕ) (s : RowMvcc D)
        → Inv s
        → Fresh s fresh
        → s.exists_prewrite ≡ true
        → ts ≡ s.prewrite_ts
        → row ≡ (entry_at s s.prewrite_his_id).row
        → (t : RowMvcc D) × (ready : List (ℕ × ℕ)) × (access_abort thread_cnt min_ts fresh ts row s
            ≡ some (t, rc_ok, none, ready))
          × Inv t
          × Quiet s t
    access_abort-Inv ts row s v unused on at own = elim (v.state) [
      | inl (off, _, _) ↦ absurd (cc)
      | inr (_, r, p, d) ↦
          let (idle, q) = freed_lem fresh ts s v.history r at unused in
          let (t, ready, run, i, q') =
            update_buffer-Inv thread_cnt min_ts fresh threads ts (freed s) idle
              (omega (arith, r.after_reads)) (omega (arith, r.timed))
              (subst (λ n. Pending n s.requests) (sym at) p) d v.slots in
          (t, ready, abort_run ts row s t ready own run, i, Quiet-trans s (freed s) t q q')
    ]
