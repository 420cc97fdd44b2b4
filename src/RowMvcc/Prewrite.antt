-- ===== src/RowMvcc/Prewrite.antt =====
-- A prewrite that is granted (row_mvcc.cpp).
use dbx1000_bskiplist.Base.{
  ℕ, ◌≡◌, ◌≢◌, ◌<◌, ◌≤◌, true, false, some, inl, inr, arith, ◌==◌, refl, sym, ◌∙◌, subst, ap,
  ==_iff,
}
use dbx1000_bskiplist.RowTs.{update, uint64_max}
use dbx1000_bskiplist.RowMvcc.{RowMvcc}
use dbx1000_bskiplist.RowMvcc.Reserve.{
  reserve_entry, choose_entry, collect, reserve_row, grant_prewrite,
}
use dbx1000_bskiplist.RowMvcc.Versions.{Fresh, Holds, History, Unreserved, entry_at}
use dbx1000_bskiplist.RowMvcc.Recycle.{collect-History}
use dbx1000_bskiplist.RowMvcc.Choose.{History-recast, Retains-recast}
use dbx1000_bskiplist.RowMvcc.Granted.{Granted}
use dbx1000_bskiplist.RowMvcc.Chosen.{Granted-after, choose_entry-Granted}

module _ {D : Type 0} where
  module _ (thread_cnt fresh ts : ℕ) (threads : thread_cnt ≤ 1073741824)
      (timed : ts < uint64_max) where
    module _ (min_ts : ℕ) where
      reserve_run :
          (s t u : RowMvcc D) (idx : ℕ)
          → s.exists_prewrite ≡ false
          → collect min_ts s ≡ some t
          → choose_entry thread_cnt t ≡ some (u, idx)
          → reserve_row thread_cnt min_ts fresh ts s ≡ some (reserve_entry fresh ts idx u)
      unfolding reserve_row
      reserve_run s t u idx off first second = simp off (rw (first, second) refl)

      grant_run :
          (s t : RowMvcc D) (row : ℕ)
          → reserve_row thread_cnt min_ts fresh ts s ≡ some (t, row)
          → row ≢ 0
          → grant_prewrite thread_cnt min_ts fresh ts s
            ≡ some (record t { heap = update t.heap row (t.heap t.latest_row) }, row)
      unfolding grant_prewrite
      grant_run s t row run there = let c : (row == 0) ≡ false = ground arith in rw (run, c) refl

      -- The copy goes to no version's row.
      copied :
          (s t : RowMvcc D) (row : ℕ)
          → Granted s t ts row
          → Granted s (record t { heap = update t.heap row (t.heap t.latest_row) }) ts row
      copied s t row g = record {
        history =
            History-recast t t.exists_prewrite t.prewrite_his_id t.prewrite_ts t.max_served_rts
              t.requests after g.history;
        reserved = record {
          inside = g.reserved.inside;
          waiting = g.reserved.waiting;
          has_row = g.reserved.has_row;
          only = g.reserved.only;
          newer = g.reserved.newer;
          after_reads = g.reserved.after_reads;
          timed = g.reserved.timed;
        };
        retains =
            Retains-recast s t t.exists_prewrite t.prewrite_his_id t.prewrite_ts t.max_served_rts
              t.requests after g.retains apart;
        exists_prewrite = g.exists_prewrite;
        prewrite_ts = g.prewrite_ts;
        own_row = g.own_row;
        latest_wts = g.latest_wts;
        latest_row = g.latest_row;
        max_served_rts = g.max_served_rts;
        requests = g.requests;
      }
        where
          after : ℕ → D
          after = update t.heap row (t.heap t.latest_row)

          other : (w r : ℕ) → Holds t w r → r ≢ row
          other w r (inl (_, e)) q =
              g.history.apart_base t.prewrite_his_id g.reserved.inside (g.own_row ∙ sym q ∙ e)
          other w r (inr (j, l, is, _, e)) q =
              let d : t.prewrite_his_id ≢ j = λ x.
                let is' = subst (λ k. (entry_at t k).valid ≡ true) (sym x) is in
                let off = g.reserved.waiting in absurd (cc) in
              g.history.apart t.prewrite_his_id j g.reserved.inside l d g.reserved.has_row
                (g.own_row ∙ sym q ∙ sym e)

          apart : (w r : ℕ) → Holds t w r → after r ≡ t.heap r
          apart w r holds =
              let d = other w r holds in let c : (r == row) ≡ false = ground arith in rw c refl

      -- On a well-ordered history without a prewrite, one after the latest version and the reads
      -- is granted, and no version is touched but those below a new oldest one.
      pub grant_prewrite-Granted :
          (s : RowMvcc D)
          → History s
          → Unreserved s
          → s.exists_prewrite ≡ false
          → Fresh s fresh
          → s.latest_wts < ts
          → s.max_served_rts ≤ ts
          → (t : RowMvcc D) × (row : ℕ) × (grant_prewrite thread_cnt min_ts fresh ts s
              ≡ some (t, row))
            × Granted s t ts row
            × (t.heap row ≡ s.heap s.latest_row)
      grant_prewrite-Granted s v free off unused newer after_reads =
          let (t, first, v', free', r, f, still) = collect-History min_ts s v free in
          let (u, idx, second, g) =
            choose_entry-Granted thread_cnt fresh ts threads timed t v' free' (still fresh unused)
              (let e = f.latest_wts in omega arith) (let e = f.max_served_rts in omega arith) in
          let w = (reserve_entry fresh ts idx u).0 in
          let row = (reserve_entry fresh ts idx u).1 in
          let whole = Granted-after s t w ts row r f g in
          let there : row ≢ 0 = λ z. g.reserved.has_row (g.own_row ∙ z) in
          (
            record w { heap = update w.heap row (w.heap w.latest_row) },
            row,
            grant_run s w row (reserve_run s t u idx off first second) there,
            copied s w row whole,
            let c : (row == row) ≡ true = (==_iff row row).1 refl in
                rw c (
                  whole.retains.contents w.latest_wts w.latest_row whole.history.latest
                  ∙ ap s.heap whole.latest_row),
          )
