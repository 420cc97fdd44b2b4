-- ===== src/RowTictoc/Examples.antt =====
-- The theorems on timestamp words at small timestamps.
use dbx1000_bskiplist.Base.{ℕ, List, [], ◌∷◌, ◌≡◌, ◌<◌, refl, arith, true, false, some, ◌+◌, ◌⊎◌}
use dbx1000_bskiplist.RowTictoc.{
  lock_bit, locked, get_wts, get_rts, lease, pack, release, access, Reading, Local, swapped,
  try_renew,
}
use dbx1000_bskiplist.RowTictoc.Words.{pack_fields, write_data-release, stamped, taken}
use dbx1000_bskiplist.RowTictoc.Renew.{retry_shortens}

pack_fields_example :
    (get_wts (pack 100 7) ≡ 100) × (lease (pack 100 7) ≡ 7) × (locked (pack 100 7) ≡ false)
pack_fields_example = pack_fields 100 7 (omega arith) (omega arith)

abbrev locked_word : ℕ
locked_word = lock_bit + pack 100 7

-- The first reading is of a locked row, the second is overtaken by a write.
abbrev readings : List (Reading ℕ)
readings =
    record { before = locked_word; copied = 1; after = locked_word }
    ∷ record { before = pack 100 7; copied = 1; after = pack 120 0 }
    ∷ record { before = pack 120 0; copied = 2; after = pack 120 5 }
    ∷ []

abbrev outcome : Local ℕ
outcome = record { local_row = 2; last_wts = 120; last_rts = 120 }

ends_third : access readings ≡ some outcome
unfolding access
ends_third = refl

write_data-release_example :
    let done = release (stamped (pack 100 7) 120) in
    (locked (taken (pack 100 7)) ≡ true)
    × (locked (stamped (pack 100 7) 120) ≡ true)
    × (locked done ≡ false)
    × (get_wts done ≡ 120)
    × (get_rts done ≡ 120)
    × ((before after : ℕ)
        → (before ≡ pack 100 7)
          ⊎ ((before ≡ taken (pack 100 7)) ⊎ (before ≡ stamped (pack 100 7) 120))
        → (after ≡ taken (pack 100 7)) ⊎ ((after ≡ stamped (pack 100 7) 120) ⊎ (after ≡ done))
        → access (record { before = before; copied = 1; after = after } ∷ readings)
          ≡ access readings)
write_data-release_example =
    write_data-release 1 readings (pack 100 7) 120 (omega arith) (omega arith) refl (omega arith)

retry_shortens_example :
    (try_renew 100 (100 + 5) (pack 100 2) (pack 100 10 ∷ pack 100 10 ∷ []) ≡ swapped (pack 100 5))
    × (get_rts (pack 100 5) < get_rts (pack 100 10))
retry_shortens_example =
    retry_shortens 100 5 10 2 [] (omega arith) (omega arith) (omega arith) (omega arith)
      (omega arith)
