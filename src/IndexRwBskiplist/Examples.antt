-- ===== src/IndexRwBskiplist/Examples.antt =====
-- The theorems on the index at a list of two leaves.
use dbx1000_bskiplist.Base.{ℕ, ◌≡◌, arith, refl, false}
use dbx1000_bskiplist.Run.{done}
use dbx1000_bskiplist.BSkip.FindExamples.{two_leaves, two_leaves-Shape, Live, no_elements}
use dbx1000_bskiplist.BSkip.RangeExamples.{two_leaves-Ended}
use dbx1000_bskiplist.IndexRwBskiplist.{BskipScanCursor, Cursor, index_next}
use dbx1000_bskiplist.IndexRwBskiplist.Next.{Ahead, Moved, index_next-Moved}
use dbx1000_bskiplist.IndexRwBskiplist.Read.{empty-Ahead}

abbrev pub no_next : ℕ → ℕ
no_next item = 0

-- A thread that has read the key 2, which the list has as 3.
abbrev pub at_two : Cursor
at_two = record {
  cur_key = 2;
  cur_item = 30;
  scan = record { entries = no_elements; count = 0; pos = 0 };
}

abbrev AheadHere : ℕ → BskipScanCursor → Type 0
AheadHere =
    Ahead 100 two_leaves 4 no_next Live two_leaves-Shape two_leaves-Ended (refl, omega arith) refl
      (omega arith) (omega arith)

abbrev MovedHere : Cursor → ℕ → Cursor → Type 0
MovedHere =
    Moved 100 two_leaves 4 no_next Live two_leaves-Shape two_leaves-Ended (refl, omega arith) refl
      (omega arith) (omega arith)

index_next-Moved_example :
    (item : ℕ) × (c' : Cursor) × (index_next 100 two_leaves 4 no_next false at_two
      ≡ done (item, c'))
    × MovedHere at_two item c'
    × (c'.cur_item ≡ item)
    × AheadHere c'.cur_key c'.scan
index_next-Moved_example =
    index_next-Moved 100 two_leaves 4 no_next Live two_leaves-Shape two_leaves-Ended
      (refl, omega arith) refl (omega arith) (omega arith) at_two (omega arith) (omega arith) refl
      (empty-Ahead 100 two_leaves 4 no_next Live two_leaves-Shape two_leaves-Ended
        (refl, omega arith) refl (omega arith) (omega arith) 2 at_two.scan)
