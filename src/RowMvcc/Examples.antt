-- ===== src/RowMvcc/Examples.antt =====
-- Multiversion timestamp ordering at small rows.
use dbx1000_bskiplist.RowMvcc.Writes.{access_write-Inv}
use dbx1000_bskiplist.RowMvcc.Prewrites.{PrewriteEnds, access_prewrite-Inv}
use dbx1000_bskiplist.RowMvcc.Reads.{ReadEnds, access_read-Inv}
use dbx1000_bskiplist.RowMvcc.Versions.{Sees}
use dbx1000_bskiplist.RowMvcc.Steps.{
  Step, Step-Inv, edited, read, prewrite, access_read-stable, more, done, edit,
}
use dbx1000_bskiplist.Base.{
  ℕ, ◌*◌, ◌≡◌, true, false, some, [], refl, arith, List, if◌then◌else◌, Option, u32_mod, ◌+◌, none,
  ◌==◌, ◌<◌,
}
use dbx1000_bskiplist.RowLock.{rc_ok, Rc}
use dbx1000_bskiplist.RowTs.{update}
use dbx1000_bskiplist.RowMvcc.{RowMvcc, init, newest_below, unused_entry, empty_entry}
use dbx1000_bskiplist.RowMvcc.Reserve.{
  drop_versions, collect, choose_entry, reserve_row, grant_prewrite,
}
use dbx1000_bskiplist.RowMvcc.Access.{access_read, access_prewrite, read_version, access_write}
use dbx1000_bskiplist.RowMvcc.Invariant.{Inv, Keeps}
use dbx1000_bskiplist.RowMvcc.Init.{init-Inv}

-- The row at address 1 with 10 in it.
abbrev new_row : RowMvcc ℕ
new_row = init 1 (λ i. 0) (λ r. r * 10)

new_row-Inv : Inv new_row
new_row-Inv = init-Inv 1 (λ i. 0) (λ r. r * 10) (omega arith)

-- Timestamp 5 has read it.
abbrev seen : RowMvcc ℕ
seen = record new_row { max_served_rts = 5 }

read_run : access_read 4 0 9 1 5 new_row ≡ some (seen, rc_ok, some 1, [])
unfolding init access_read
read_run = refl

-- Timestamp 7 has a copy at address 9.
abbrev granted : RowMvcc ℕ
granted = record seen {
  write_history =
      update new_row.write_history 3 (record { valid = false; reserved = true; ts = 7; row = 9 });
  exists_prewrite = true;
  prewrite_his_id = 3;
  prewrite_ts = 7;
  heap = update new_row.heap 9 10;
}

grant_run : access_prewrite 4 0 9 2 7 seen ≡ some (granted, rc_ok, some 9, [])
unfolding init access_prewrite grant_prewrite reserve_row collect choose_entry newest_below
    drop_versions unused_entry
grant_run = refl

seen-Inv : Inv seen
unfolding init
seen-Inv =
    (Step-Inv 4 (omega arith) new_row seen
      (read 0 9 1 5 rc_ok (some 1) (omega arith) tt (omega arith) (omega arith) read_run)
      new_row-Inv).0

grant : Step 4 seen granted
unfolding init
grant =
    prewrite 0 9 2 7 rc_ok (some 9) (omega arith, omega arith, λ i l. omega arith) (omega arith) tt
      (omega arith) (λ q. absurd (cc)) grant_run

granted-Inv : Inv granted
unfolding init
granted-Inv = (Step-Inv 4 (omega arith) seen granted grant seen-Inv).0

-- The read of 5 still finds 10 at address 1 while 7 writes 70 into its copy.
access_read-stable_example :
    Sees (edited 70 granted) 5 1 × ((edited 70 granted).heap 1 ≡ seen.heap 1)
unfolding init
access_read-stable_example =
    access_read-stable 4 (omega arith) 0 9 1 5 1 new_row seen (edited 70 granted) new_row-Inv
      (omega arith) tt (omega arith) (omega arith) read_run (more (more done grant) (edit 70 refl))
      (omega arith)

access_write-Inv_example :
    (t : RowMvcc ℕ) × (ready : List (ℕ × ℕ)) × (access_write 4 0 11 7 9 granted
      ≡ some (t, rc_ok, none, ready))
    × Inv t
    × Keeps granted t
    × (t.latest_wts ≡ 7)
    × ((m : ℕ) → 7 < m → Sees t m 9 × (t.heap 9 ≡ granted.heap 9))
unfolding init
access_write-Inv_example =
    access_write-Inv 4 0 11 (omega arith) 7 9 granted granted-Inv
      (omega arith, omega arith, λ i l. ground arith) refl refl refl

access_prewrite-Inv_example :
    (t : RowMvcc ℕ) × (rc : Rc) × (row : Option ℕ) × (access_prewrite 4 0 9 2 7 seen
      ≡ some (t, rc, row, []))
    × Inv t
    × Keeps seen t
    × PrewriteEnds 7 seen t rc row
unfolding init
access_prewrite-Inv_example =
    access_prewrite-Inv 4 0 9 (omega arith) 2 7 seen seen-Inv
      (omega arith, omega arith, λ i l. omega arith) (omega arith) tt (omega arith)
      (λ q. absurd (cc))

access_read-Inv_example :
    (t : RowMvcc ℕ) × (rc : Rc) × (row : Option ℕ) × (access_read 4 0 11 3 8 granted
      ≡ some (t, rc, row, []))
    × Inv t
    × Keeps granted t
    × ReadEnds 4 0 11 (omega arith) 8 t rc row
unfolding init
access_read-Inv_example =
    access_read-Inv 4 0 11 (omega arith) 3 8 granted granted-Inv (omega arith) tt (omega arith)
      (omega arith)

-- Timestamps from 2^32 on are cut: the read gets the version of 10, not the one just below it.
abbrev cut : RowMvcc ℕ
cut = record new_row {
  write_history = λ i. record empty_entry {
    valid = true;
    ts = if i == 0 then u32_mod + 5 else if i == 1 then 10 else u32_mod + 200;
    row = i + 2;
  };
  latest_wts = u32_mod + 200;
}

cut_read : read_version 4 0 9 (u32_mod + 100) cut ≡ 3
unfolding init read_version newest_below
cut_read = refl
