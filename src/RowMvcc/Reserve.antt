-- ===== src/RowMvcc/Reserve.antt =====
-- reserveRow of concurrency_control/row_mvcc.cpp: garbage collection, and an entry for a new version.
use dbx1000_bskiplist.Base.{
  ℕ, zero, suc, ◌+◌, ◌*◌, ◌%◌, true, false, not, ◌&&◌, Option, some, if◌then◌else◌, ltb, leb, ◌==◌,
  assert, ◌>>=◌, ◌>>◌, dec32, u32_mod,
}
use dbx1000_bskiplist.RowTs.{uint64_max, update}
use dbx1000_bskiplist.RowMvcc.{
  WriteHisEntry, RowMvcc, empty_entry, newest_below, oldest_version, unused_entry,
}

module _ {D : Type 0} where
  -- An old version's row becomes the base row, whose memory goes to the entry.
  abbrev pub swap_row : ℕ → ℕ → RowMvcc D → RowMvcc D
  swap_row idx wts s = record s {
    row = (s.write_history idx).row;
    write_history = update s.write_history idx (record (s.write_history idx) { row = s.row });
    oldest_wts = wts;
  }

  -- The loop that takes the versions up to a timestamp out.
  unfoldable pub drop_versions : ℕ → ℕ → ℕ → RowMvcc D → Option (RowMvcc D)
  drop_versions zero i wts s = some s
  drop_versions (suc rounds) i wts s =
      let e = s.write_history i in
      let dropped =
        assert (not (e.row == 0))
        >> some (record s {
          write_history = update s.write_history i (record e { valid = false; reserved = false });
          num_versions = dec32 s.num_versions;
        }) in
      (if e.valid && leb e.ts wts then dropped else some s) >>= λ t.
      drop_versions rounds (i + 1) wts t

  -- The garbage collection of reserveRow.
  unfoldable pub collect : ℕ → RowMvcc D → Option (RowMvcc D)
  unfolding newest_below drop_versions
  collect min_ts s =
      let (wts, idx) = newest_below (λ t. t) s.write_history min_ts s.his_len 0 0 s.his_len in
      let found = drop_versions s.his_len 0 wts (swap_row idx wts s) in
      if ltb s.oldest_wts min_ts && s.num_versions == s.his_len && not (idx == s.his_len)
      then found
      else some s

  unfoldable pub recycle_oldest : RowMvcc D → Option (RowMvcc D × ℕ)
  unfolding oldest_version
  recycle_oldest s =
      let (wts, idx) = oldest_version s.write_history s.his_len 0 uint64_max s.his_len in
      assert (ltb s.oldest_wts wts)
      >> (assert (not ((s.write_history idx).row == 0))
          >> some (record (swap_row idx wts s) { num_versions = dec32 s.num_versions }, idx))

  abbrev pub double_list : RowMvcc D → RowMvcc D
  double_list s = record s {
    write_history = λ i. if ltb i s.his_len then s.write_history i else empty_entry;
    his_len = (s.his_len * 2) % u32_mod;
  }

  -- The entry for a new version.
  unfoldable pub choose_entry : ℕ → RowMvcc D → Option (RowMvcc D × ℕ)
  choose_entry thread_cnt s =
      let idx = unused_entry s.write_history s.his_len 0 s.his_len in
      let unused = assert (ltb idx s.his_len) >> some (s, idx) in
      if ltb s.num_versions s.his_len
      then unused
      else if leb thread_cnt s.his_len
      then recycle_oldest s
      else some (double_list s, s.his_len)

  -- The entry is reserved; `fresh` is a new row_t for an entry that has none.
  abbrev pub reserve_entry : ℕ → ℕ → ℕ → RowMvcc D → RowMvcc D × ℕ
  reserve_entry fresh ts idx s =
      let e = s.write_history idx in
      let row = if e.row == 0 then fresh else e.row in
      let reserved : WriteHisEntry = record {
        valid = false;
        reserved = true;
        ts = ts;
        row = row;
      } in
      (
        record s {
          write_history = update s.write_history idx reserved;
          exists_prewrite = true;
          prewrite_his_id = idx;
          prewrite_ts = ts;
        },
        row,
      )

  -- `min_ts` is glob_manager->get_min_ts.
  module _ (thread_cnt min_ts fresh : ℕ) where
    unfoldable pub reserve_row : ℕ → RowMvcc D → Option (RowMvcc D × ℕ)
    reserve_row ts s =
        assert (not s.exists_prewrite)
        >> (collect min_ts s >>= λ t.
            (choose_entry thread_cnt t >>= λ (u, idx). some (reserve_entry fresh ts idx u)))

    -- A prewrite that is granted: the latest version is copied for it.
    unfoldable pub grant_prewrite : ℕ → RowMvcc D → Option (RowMvcc D × ℕ)
    grant_prewrite ts s = reserve_row ts s >>= λ (t, row).
        (assert (not (row == 0))
          >> some (record t { heap = update t.heap row (t.heap t.latest_row) }, row))
