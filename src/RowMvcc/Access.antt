-- ===== src/RowMvcc/Access.antt =====
-- access and update_buffer of concurrency_control/row_mvcc.cpp.
use dbx1000_bskiplist.Base.{
  ℕ, ◌+◌, ◌%◌, true, false, ◌&&◌, ◌||◌, Option, none, some, List, [], ◌∷◌, if◌then◌else◌, ltb, ◌==◌,
  assert, ◌>>=◌, ◌>>◌, u32_mod,
}
use dbx1000_bskiplist.RowLock.{Rc, rc_ok, abort, wait}
use dbx1000_bskiplist.RowTs.{at_least, r_req, p_req, uint64_max, update}
use dbx1000_bskiplist.RowMvcc.{ReqEntry, Slots, RowMvcc, buffer_req, newest_below, next_prewrite}
use dbx1000_bskiplist.RowMvcc.Reserve.{grant_prewrite}

-- The state, the result, cur_row, and the transactions made ready with their cur_row.
abbrev pub Outcome : Type 0 → Type 0
Outcome D = RowMvcc D × Rc × Option ℕ × List (ℕ × ℕ)

module _ {D : Type 0} where
  module _ (thread_cnt min_ts fresh : ℕ) where
    abbrev pub serve_read : ℕ → RowMvcc D → RowMvcc D
    serve_read ts s = record s { max_served_rts = at_least s.max_served_rts ts }

    -- The second loop of update_buffer: the slots, and the transactions made ready with their rows.
    unfoldable pub serve : ℕ → ℕ → Slots → RowMvcc D → Option (Slots × RowMvcc D × List (ℕ × ℕ))
    serve ts next [] s = some ([], s, [])
    serve ts next (none ∷ slots) s =
        serve ts next slots s >>= λ (rest, t, ready). some (none ∷ rest, t, ready)
    serve ts next (some q ∷ slots) s =
        let read = serve ts next slots (serve_read q.ts s) >>= λ (rest, t, ready).
        some (none ∷ rest, t, (q.txn, s.latest_row) ∷ ready) in
        let prewrite = grant_prewrite thread_cnt min_ts fresh q.ts s >>= λ (t, row).
        (serve ts next slots t >>= λ (rest, u, ready).
        some (none ∷ rest, u, (q.txn, row) ∷ ready)) in
        let keep = serve ts next slots s >>= λ (rest, t, ready). some (some q ∷ rest, t, ready) in
        assert (ltb ts q.ts) >> elim q.type [
          | r_req ↦ if ltb q.ts next then read else if q.ts == next then none else keep
          | p_req ↦ if q.ts == next then prewrite else keep
          | _ ↦ if q.ts == next then none else keep
        ]

    abbrev pub update_buffer : ℕ → RowMvcc D → Option (RowMvcc D × List (ℕ × ℕ))
    update_buffer ts s =
        serve ts (next_prewrite ts s.requests uint64_max) s.requests s >>= λ (slots, t, ready).
        some (record t { requests = slots }, ready)

    abbrev pub wait_for : ReqEntry → RowMvcc D → Option (Outcome D)
    wait_for q s =
        buffer_req q s.requests >>= λ slots. some (record s { requests = slots }, wait, none, [])

    -- the_ts has 32 bits.
    unfoldable pub read_version : ℕ → RowMvcc D → ℕ
    unfolding newest_below
    read_version ts s =
        let idx = (newest_below (λ t. t % u32_mod) s.write_history ts s.his_len 0 0 s.his_len).1 in
        if idx == s.his_len then s.row else (s.write_history idx).row

    unfoldable pub access_read : ℕ → ℕ → RowMvcc D → Option (Outcome D)
    unfolding read_version buffer_req
    access_read txn ts s =
        let now = some (serve_read ts s, rc_ok, some s.latest_row, []) in
        let later = wait_for (record { type = r_req; ts = ts; txn = txn }) s in
        if ltb ts s.oldest_wts
        then some (s, abort, none, [])
        else if ltb s.latest_wts ts
        then if s.exists_prewrite && ltb s.prewrite_ts ts then later else now
        else some (s, rc_ok, some (read_version ts s), [])

    unfoldable pub access_prewrite : ℕ → ℕ → RowMvcc D → Option (Outcome D)
    unfolding buffer_req
    access_prewrite txn ts s =
        let later = wait_for (record { type = p_req; ts = ts; txn = txn }) s in
        let now = grant_prewrite thread_cnt min_ts fresh ts s >>= λ (t, row).
        some (t, rc_ok, some row, []) in
        if ltb ts s.latest_wts
          || ltb ts s.max_served_rts
          || (s.exists_prewrite && ltb ts s.prewrite_ts)
        then some (s, abort, none, [])
        else if s.exists_prewrite
        then later
        else now

    -- W_REQ
    unfoldable pub access_write : ℕ → ℕ → RowMvcc D → Option (Outcome D)
    unfolding serve next_prewrite
    access_write ts row s =
        let id = s.prewrite_his_id in
        let e = s.write_history id in
        assert (ltb s.latest_wts ts)
        >> (assert (row == e.row)
            >> (update_buffer ts (record s {
              write_history = update s.write_history id (record e { valid = true; ts = ts });
              latest_wts = ts;
              latest_row = row;
              exists_prewrite = false;
              num_versions = (s.num_versions + 1) % u32_mod;
            })
                >>= λ (t, ready). some (t, rc_ok, none, ready)))

    -- XP_REQ
    unfoldable pub access_abort : ℕ → ℕ → RowMvcc D → Option (Outcome D)
    unfolding serve next_prewrite
    access_abort ts row s =
        let id = s.prewrite_his_id in
        let e = s.write_history id in
        assert (row == e.row)
        >> (update_buffer ts (record s {
          write_history = update s.write_history id (record e { valid = false; reserved = false });
          exists_prewrite = false;
        })
            >>= λ (t, ready). some (t, rc_ok, none, ready))
