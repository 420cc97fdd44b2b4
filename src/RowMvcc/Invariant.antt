-- ===== src/RowMvcc/Invariant.antt =====
-- What every access to a row keeps, and how an access that releases the row ends (row_mvcc.cpp).
use dbx1000_bskiplist.Base.{
  ℕ, ◌+◌, ◌≡◌, ◌<◌, ◌≤◌, true, false, some, none, List, [], ◌∷◌, inl, inr, ◌⊎◌, arith, refl, sym,
  ◌∙◌, subst, ◌&&◌, ltb,
}
use dbx1000_bskiplist.RowTs.{uint64_max, at_least, r_req, p_req}
use dbx1000_bskiplist.RowMvcc.{Slots, ReqEntry, RowMvcc, next_prewrite, buffer_req}
use dbx1000_bskiplist.RowMvcc.Access.{serve, serve_read, update_buffer}
use dbx1000_bskiplist.RowMvcc.Versions.{Sees, Retains-Sees, History, Unreserved, Reserved}
use dbx1000_bskiplist.RowMvcc.Choose.{History-recast, Retains-recast}
use dbx1000_bskiplist.RowMvcc.Slots.{
  buffer_req-PutIn, Absent, Pending, Distinct, Empty, SomeSlots, Has, next_prewrite_lem,
}
use dbx1000_bskiplist.RowMvcc.Quiet.{Quiet, Quiet-refl, Idle}
use dbx1000_bskiplist.RowMvcc.Serve.{serve-Granted, serve-Idle}

Has-between :
    (low m : ℕ) (slots : Slots) → Has m slots → Pending low slots → (low < m) × (m < uint64_max)
Has-between low m [] h v = absurd h
Has-between low m (none ∷ slots) h v = Has-between low m slots h v
Has-between low m (some q ∷ slots) (inl (_, e)) ((l, b, _), v) = (omega arith, omega arith)
Has-between low m (some q ∷ slots) (inr h) (_, v) = Has-between low m slots h v

module _ {D : Type 0} where
  -- Requests wait only for a prewrite, which is before them; the rest is in History and Reserved.
  pub record Inv (s : RowMvcc D) : Type 0 where
    pub history : History s
    pub state :
        ((s.exists_prewrite ≡ false) × Unreserved s × Empty s.requests)
        ⊎ ((s.exists_prewrite ≡ true)
            × Reserved s
            × Pending s.prewrite_ts s.requests
            × Distinct s.requests)
    pub slots : SomeSlots s.requests

  -- What a timestamp up to the latest write or read saw, it still sees, with the same contents.
  pub record Keeps (s t : RowMvcc D) : Type 0 where
    pub advances : s.oldest_wts ≤ t.oldest_wts
    pub latest : s.latest_wts ≤ t.latest_wts
    pub reads : s.max_served_rts ≤ t.max_served_rts
    pub sees :
        (ts row : ℕ)
        → (ts ≤ s.latest_wts) ⊎ (ts ≤ s.max_served_rts)
        → Sees s ts row
        → t.oldest_wts < ts
        → Sees t ts row × (t.heap row ≡ s.heap row)

  pub Keeps-trans : (s t u : RowMvcc D) → Keeps s t → Keeps t u → Keeps s u
  Keeps-trans s t u v w = record {
    advances = omega (arith, v.advances, w.advances);
    latest = omega (arith, v.latest, w.latest);
    reads = omega (arith, v.reads, w.reads);
    sees = λ ts row past see low.
        let (see', same) = v.sees ts row past see (omega (arith, w.advances)) in
        let past' : (ts ≤ t.latest_wts) ⊎ (ts ≤ t.max_served_rts) = elim past [
          | inl l ↦ inl (omega (arith, v.latest))
          | inr l ↦ inr (omega (arith, v.reads))
        ] in
        let (see'', same') = w.sees ts row past' see' low in (see'', same' ∙ same);
  }

  pub Quiet-Keeps : (s t : RowMvcc D) → Quiet s t → Keeps s t
  Quiet-Keeps s t v = record {
    advances = v.retains.advances;
    latest = let e = v.latest_wts in omega arith;
    reads = v.reads;
    sees = λ ts row past see low. Retains-Sees s t ts row v.retains see low;
  }

  pub Quiet-slots :
      (s t : RowMvcc D) (slots : Slots) → Quiet s t → Quiet s (record t { requests = slots })
  Quiet-slots s t slots v = record {
    retains =
        Retains-recast s t t.exists_prewrite t.prewrite_his_id t.prewrite_ts t.max_served_rts slots
          t.heap v.retains (λ w r h. refl);
    latest_wts = v.latest_wts;
    reads = v.reads;
  }

  pub History-slots :
      (t : RowMvcc D) (slots : Slots) → History t → History (record t { requests = slots })
  History-slots t slots v =
      History-recast t t.exists_prewrite t.prewrite_his_id t.prewrite_ts t.max_served_rts slots
        t.heap v

  pub Reserved-slots :
      (t : RowMvcc D) (slots : Slots) → Reserved t → Reserved (record t { requests = slots })
  Reserved-slots t slots v = record {
    inside = v.inside;
    waiting = v.waiting;
    has_row = v.has_row;
    only = v.only;
    newer = v.newer;
    after_reads = v.after_reads;
    timed = v.timed;
  }

  -- A request waits.
  pub buffered-Inv :
      (q : ReqEntry) (s : RowMvcc D)
      → Inv s
      → s.exists_prewrite ≡ true
      → s.prewrite_ts < q.ts
      → q.ts < uint64_max
      → (q.type ≡ r_req) ⊎ (q.type ≡ p_req)
      → Absent q.ts s.requests
      → (slots : Slots) × (buffer_req q s.requests ≡ some slots)
        × Inv (record s { requests = slots })
        × Quiet s (record s { requests = slots })
  buffered-Inv q s v busy after timed which absent =
      let (slots, run, (n, pending, _, distinct)) = buffer_req-PutIn q s.requests v.slots in
      elim (v.state) [
        | inl (idle, _, _) ↦ absurd (cc)
        | inr (_, r, p, d) ↦ (
          slots,
          run,
          record {
            history = History-slots s slots v.history;
            state = inr (
              busy,
              Reserved-slots s slots r,
              pending s.prewrite_ts p (after, timed, which),
              distinct d absent,
            );
            slots = n;
          },
          Quiet-slots s s slots (Quiet-refl s),
        )
      ]

  module _ (thread_cnt min_ts fresh : ℕ) where
    -- A read that no granted prewrite is before is served.
    pub read-Inv :
        (ts : ℕ) (s : RowMvcc D)
        → Inv s
        → (s.exists_prewrite && ltb s.prewrite_ts ts) ≡ false
        → Inv (serve_read thread_cnt min_ts fresh ts s)
    read-Inv ts s v c = record {
      history =
          History-recast s s.exists_prewrite s.prewrite_his_id s.prewrite_ts
            (at_least s.max_served_rts ts) s.requests s.heap v.history;
      state = elim (v.state) [
        | inl idle ↦ inl idle
        | inr (busy, r, p, d) ↦ inr (
          busy,
          record {
            inside = r.inside;
            waiting = r.waiting;
            has_row = r.has_row;
            only = r.only;
            newer = r.newer;
            after_reads = let a = r.after_reads in ground arith;
            timed = r.timed;
          },
          p,
          d,
        )
      ];
      slots = v.slots;
    }

  module _ (thread_cnt min_ts fresh : ℕ) (threads : thread_cnt ≤ 1073741824) where
    update_run :
        (ts : ℕ) (s t : RowMvcc D) (slots : Slots) (ready : List (ℕ × ℕ))
        → serve thread_cnt min_ts fresh ts (next_prewrite ts s.requests uint64_max) s.requests s
          ≡ some (slots, t, ready)
        → update_buffer thread_cnt min_ts fresh ts s ≡ some (record t { requests = slots }, ready)
    update_run ts s t slots ready run = rw run refl

    -- After a write or an abort the requests up to the next prewrite are served.
    pub update_buffer-Inv :
        (ts : ℕ) (s : RowMvcc D)
        → Idle s fresh (ts + 1)
        → s.max_served_rts ≤ ts
        → ts < uint64_max
        → Pending ts s.requests
        → Distinct s.requests
        → SomeSlots s.requests
        → (t : RowMvcc D) × (ready : List (ℕ × ℕ)) × (update_buffer thread_cnt min_ts fresh ts s
            ≡ some (t, ready))
          × Inv t
          × Quiet s t
    update_buffer-Inv ts s b served timed v d slots =
        let next = next_prewrite ts s.requests uint64_max in
        let (found, least) = next_prewrite_lem ts s.requests uint64_max v in
        let newer = b.newer in
        let idle : (m : ℕ) → ts < m → Idle s fresh m = λ m l. record {
          history = b.history;
          unreserved = b.unreserved;
          exists = b.exists;
          unused = b.unused;
          newer = omega arith;
          after_reads = omega arith;
        } in
        elim found [
          | inl top ↦
              let (rest, t, ready, run, (_, n, _, _), quiet, (empty, i)) =
                serve-Idle thread_cnt min_ts fresh threads ts next s.requests s v least top
                  (idle next (omega arith)) in
              (
                record t { requests = rest },
                ready,
                update_run ts s t rest ready run,
                record {
                  history = History-slots t rest i.history;
                  state = inl (i.exists, i.unreserved, empty);
                  slots = n slots;
                },
                Quiet-slots s t rest quiet,
              )
          | inr has ↦
              let (low, high) = Has-between ts next s.requests has v in
              let (rest, t, ready, run, (pending, n, _, distinct), quiet, (busy, at)) =
                serve-Granted thread_cnt min_ts fresh threads ts next s.requests s v d has least
                  high (idle next low) in
              (
                record t { requests = rest },
                ready,
                update_run ts s t rest ready run,
                record {
                  history = History-slots t rest busy.history;
                  state = inr (
                    busy.exists,
                    Reserved-slots t rest busy.reserved,
                    subst (λ m. Pending m rest) (sym at) pending,
                    distinct,
                  );
                  slots = n slots;
                },
                Quiet-slots s t rest quiet,
              )
        ]
