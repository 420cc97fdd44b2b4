-- ===== src/RowTs/Examples.antt =====
-- The theorems on timestamp ordering at rows with waiting reads and writes.
use dbx1000_bskiplist.Run.{done, Ends}
use dbx1000_bskiplist.RowTs.Reached.{drained, Reached, step, start}
use dbx1000_bskiplist.RowTs.Writes.{release_writes_least}
use dbx1000_bskiplist.Base.{ℕ, arith, [], ◌∷◌, ◌≡◌, none, some, true, false, refl, List, All, ◌≤◌}
use dbx1000_bskiplist.RowLock.{rc_ok, wait}
use mathlib.Core.List.{Memᴰ}
use dbx1000_bskiplist.RowTs.{
  init, RowTs, Req, access, update, uint64_max, update_buffer, round, release_reads, release_writes,
  raise_min_rts, cal_min, min_from, taken, left, remove_txn, debuffer_pre, end_pre, write_access,
  perform_reads, w_req, is_nil, debuffer_pres, choose_young, p_req, r_req, at_least,
}
use dbx1000_bskiplist.RowTs.Invariant.{Inv}
use dbx1000_bskiplist.RowTs.Accesses.{access-Inv}

-- A transaction whose address is its timestamp.
abbrev plain : ℕ → Req ℕ
plain t = record { txn = t; row = none; ts = t }

abbrev with_row : ℕ → Req ℕ
with_row t = record { txn = t; row = some t; ts = t }

abbrev empty : RowTs ℕ
empty = record {
  row = 0;
  wts = 0;
  rts = 0;
  min_wts = uint64_max;
  min_rts = uint64_max;
  min_pts = uint64_max;
  readreq = [];
  writereq = [];
  prereq = [];
  preq_len = 0;
  cur_row = λ a. none;
  ts_ready = λ a. false;
}

-- Transactions 1, 10 and 20 have prewritten, 5 waits to read, and 10 and 20 wait to write.
abbrev crowded : RowTs ℕ
crowded = record empty {
  min_wts = 10;
  min_rts = 5;
  min_pts = 1;
  readreq = plain 5 ∷ [];
  writereq = with_row 20 ∷ with_row 10 ∷ [];
  prereq = plain 20 ∷ plain 10 ∷ plain 1 ∷ [];
  preq_len = 3;
}

crowded-Inv : Inv crowded
unfolding cal_min min_from
crowded-Inv = record {
  loose = record {
    pts_low = omega arith;
    rts_exact = refl;
    waiting = (omega arith, tt);
    backed = λ a. ground arith;
    writes = (((20, refl), omega arith), (((10, refl), omega arith), tt));
  };
  pts_exact = refl;
}

access-Inv_example : Ends (λ r. Inv r.0) (access 4 w_req (with_row 1) crowded)
access-Inv_example =
    access-Inv 4 w_req (with_row 1) crowded (omega arith) (omega arith, ((1, refl), omega arith))
      crowded-Inv

-- The read of 5 goes on, and of the two writes only the one of 10 is performed.
younger_write_lost :
    access 4 w_req (with_row 1) crowded
    ≡ done (
      record crowded {
        row = 10;
        wts = 10;
        rts = 5;
        min_rts = uint64_max;
        min_pts = uint64_max;
        readreq = [];
        writereq = [];
        prereq = [];
        preq_len = 0;
        cur_row = update crowded.cur_row 5 (some 1);
        ts_ready = update crowded.ts_ready 5 true;
      },
      rc_ok,
    )
unfolding access write_access end_pre update_buffer round release_reads raise_min_rts release_writes
    cal_min min_from taken left remove_txn debuffer_pre perform_reads debuffer_pres choose_young
younger_write_lost = refl

-- The crowded row when the write of 1 has been performed and the read of 5 has gone on.
abbrev two_ready : RowTs ℕ
two_ready = record crowded {
  row = 1;
  wts = 1;
  rts = 5;
  min_rts = uint64_max;
  min_pts = 10;
  readreq = [];
  prereq = plain 20 ∷ plain 10 ∷ [];
  preq_len = 2;
}

two_ready-Inv : Inv two_ready
unfolding cal_min min_from
two_ready-Inv = record {
  loose = record {
    pts_low = omega arith;
    rts_exact = refl;
    waiting = tt;
    backed = λ a. ground arith;
    writes = (((20, refl), omega arith), (((10, refl), omega arith), tt));
  };
  pts_exact = refl;
}

two_ready-taken : is_nil (taken uint64_max [] two_ready.writereq) ≡ false
unfolding taken
two_ready-taken = refl

release_writes_least_example :
    let ready = taken uint64_max [] two_ready.writereq in
    (r : Req ℕ) × (d : ℕ) × (prereq : List (Req ℕ)) × (n : ℕ) × Memᴰ r ready
    × (r.row ≡ some d)
    × All (λ p. r.ts ≤ p.ts) ready
    × (release_writes done two_ready
        ≡ done (record two_ready {
          row = d;
          wts = at_least 1 r.ts;
          writereq = left uint64_max two_ready.writereq;
          prereq = prereq;
          preq_len = n;
        }))
release_writes_least_example = release_writes_least done two_ready two_ready-Inv two_ready-taken

-- 3 prewrites, 5 waits to read, 3 writes.
abbrev prewritten : RowTs ℕ
prewritten = record empty { min_pts = 3; prereq = plain 3 ∷ []; preq_len = 1 }

abbrev one_waits : RowTs ℕ
one_waits = record prewritten {
  min_rts = 5;
  readreq = plain 5 ∷ [];
  ts_ready = update prewritten.ts_ready 5 false;
}

abbrev written : RowTs ℕ
written = record one_waits {
  row = 3;
  wts = 3;
  rts = 5;
  min_rts = uint64_max;
  min_pts = uint64_max;
  readreq = [];
  prereq = [];
  preq_len = 0;
  cur_row = update one_waits.cur_row 5 (some 3);
  ts_ready = update one_waits.ts_ready 5 true;
}

written-Reached : Reached written
unfolding init access write_access end_pre update_buffer round release_reads raise_min_rts
    release_writes cal_min min_from taken left remove_txn debuffer_pre perform_reads
written-Reached =
    let r1 : Reached prewritten =
      step prewritten rc_ok 1 p_req (plain 3) (start 0 empty.cur_row empty.ts_ready) tt
        (omega arith) refl in
    let r2 : Reached one_waits = step one_waits wait 2 r_req (plain 5) r1 tt (omega arith) refl in
    step written rc_ok 2 w_req (with_row 3) r2 (omega arith, ((3, refl), omega arith)) (omega arith)
      refl

drained_example : (written.readreq ≡ []) × (written.writereq ≡ [])
drained_example = drained written written-Reached tt refl
