-- ===== src/OptCc/PerRow/Examples.antt =====
-- The theorem on per_row_validate at a transaction that reads one row and writes another.
use dbx1000_bskiplist.Base.{
  ℕ, ◌≡◌, ◌≢◌, ◌<◌, ◌≤◌, true, false, Bool, arith, ◌⊎◌, some, ◌==◌, if◌then◌else◌,
}
use dbx1000_bskiplist.RowLock.{rc_ok, abort}
use dbx1000_bskiplist.Vll.{Access, rd, wr}
use dbx1000_bskiplist.OptCc.PerRow.{per_row_validate}
use dbx1000_bskiplist.OptCc.PerRow.Writes.{Stamped}
use dbx1000_bskiplist.OptCc.PerRow.Verdict.{per_row_validate_total}

-- Both rows stand in one table.
abbrev name_above : ℕ → ℕ → Bool
name_above x y = false

abbrev same_name : ℕ → ℕ → Bool
same_name x y = true

abbrev table : ℕ → ℕ
table row = 0

abbrev primary_key : ℕ → ℕ
primary_key row = row

abbrev accesses : ℕ → Access
accesses i =
    if i == 0 then record { type = wr; orig_row = 7 } else record { type = rd; orig_row = i }

abbrev wts : ℕ → ℕ
wts row = if row == 7 then 5 else 2

older : (row : ℕ) → wts row < 20
older row = ground arith

distinct : (i j : ℕ) → i < j → j < 2 → (accesses i).orig_row ≢ (accesses j).orig_row
distinct i j h l e = ground arith

per_row_validate_total_example :
    (((i : ℕ) → i < 2 → wts (accesses i).orig_row ≤ 10)
      × ((after : ℕ → ℕ) × (per_row_validate name_above same_name table primary_key 2 accesses 10 20
              wts
            ≡ some (rc_ok, after))
          × Stamped 2 accesses 20 wts after))
    ⊎ (((i : ℕ) × (i < 2) × (10 < wts (accesses i).orig_row))
        × (per_row_validate name_above same_name table primary_key 2 accesses 10 20 wts
            ≡ some (abort, wts)))
per_row_validate_total_example =
    per_row_validate_total name_above same_name table primary_key 2 accesses 10 20 wts distinct
      older
