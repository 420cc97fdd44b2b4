-- ===== src/RowMvcc/Quiet.antt =====
-- What serving a request of a row keeps (row_mvcc.cpp).

use dbx1000_bskiplist.Base.{ℕ, ◌≡◌, ◌<◌, ◌≤◌, true, false, arith, refl, ◌∙◌}
use dbx1000_bskiplist.RowTs.{at_least}
use dbx1000_bskiplist.RowMvcc.{RowMvcc}
use dbx1000_bskiplist.RowMvcc.Access.{serve_read}
use dbx1000_bskiplist.RowMvcc.Versions.{
  Fresh, Retains, Retains-refl, Retains-trans, History, Unreserved, Reserved,
}
use dbx1000_bskiplist.RowMvcc.Choose.{History-recast, Retains-recast}

module _ {D : Type 0} where
  -- No version is touched but those below a new oldest one; reads are only added.
  pub record Quiet (s t : RowMvcc D) : Type 0 where
    pub retains : Retains s t
    pub latest_wts : t.latest_wts ≡ s.latest_wts
    pub reads : s.max_served_rts ≤ t.max_served_rts

  pub Quiet-refl : (s : RowMvcc D) → Quiet s s
  Quiet-refl s = record { retains = Retains-refl s; latest_wts = refl; reads = omega arith }

  pub Quiet-trans : (s t u : RowMvcc D) → Quiet s t → Quiet t u → Quiet s u
  Quiet-trans s t u v w = record {
    retains = Retains-trans s t u v.retains w.retains;
    latest_wts = w.latest_wts ∙ v.latest_wts;
    reads = omega (arith, v.reads, w.reads);
  }

  -- A prewrite is granted.
  pub record Busy (s : RowMvcc D) : Type 0 where
    pub history : History s
    pub reserved : Reserved s
    pub exists : s.exists_prewrite ≡ true

  -- None is.
  pub record Idle (s : RowMvcc D) (fresh ts : ℕ) : Type 0 where
    pub history : History s
    pub unreserved : Unreserved s
    pub exists : s.exists_prewrite ≡ false
    pub unused : Fresh s fresh
    pub newer : s.latest_wts < ts
    pub after_reads : s.max_served_rts ≤ ts

  module _ (thread_cnt min_ts fresh : ℕ) where
    pub read-Quiet : (ts : ℕ) (s : RowMvcc D) → Quiet s (serve_read thread_cnt min_ts fresh ts s)
    read-Quiet ts s = record {
      retains =
          Retains-recast s s s.exists_prewrite s.prewrite_his_id s.prewrite_ts
            (at_least s.max_served_rts ts) s.requests s.heap (Retains-refl s) (λ w r h. refl);
      latest_wts = refl;
      reads = ground arith;
    }

    pub read-Busy :
        (ts : ℕ) (s : RowMvcc D)
        → ts ≤ s.prewrite_ts
        → Busy s
        → Busy (serve_read thread_cnt min_ts fresh ts s)
    read-Busy ts s l v = record {
      history =
          History-recast s s.exists_prewrite s.prewrite_his_id s.prewrite_ts
            (at_least s.max_served_rts ts) s.requests s.heap v.history;
      reserved = record {
        inside = v.reserved.inside;
        waiting = v.reserved.waiting;
        has_row = v.reserved.has_row;
        only = v.reserved.only;
        newer = v.reserved.newer;
        after_reads = let a = v.reserved.after_reads in ground arith;
        timed = v.reserved.timed;
      };
      exists = v.exists;
    }

    pub read-Idle :
        (ts next : ℕ) (s : RowMvcc D)
        → ts ≤ next
        → Idle s fresh next
        → Idle (serve_read thread_cnt min_ts fresh ts s) fresh next
    read-Idle ts next s l v = record {
      history =
          History-recast s s.exists_prewrite s.prewrite_his_id s.prewrite_ts
            (at_least s.max_served_rts ts) s.requests s.heap v.history;
      unreserved = v.unreserved;
      exists = v.exists;
      unused = v.unused;
      newer = v.newer;
      after_reads = let a = v.after_reads in ground arith;
    }
