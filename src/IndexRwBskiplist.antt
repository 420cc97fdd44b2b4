-- ===== src/IndexRwBskiplist.antt =====
-- storage/index_rw_bskiplist.cpp: the index over the B-skiplist of storage/RW_bskiplist. Items are
-- their addresses, 0 the null pointer; a key is stored as the key and one, since the list reserves 0.
pub mod Buffer
pub mod Next
pub mod Read
pub mod Examples
use dbx1000_bskiplist.Base.{
  ℕ, zero, suc, ◌+◌, ◌-◌, ◌%◌, List, [], ◌∷◌, Bool, true, false, not, ◌&&◌, if◌then◌else◌, ltb, leb,
  ◌==◌,
}
use dbx1000_bskiplist.Run.{Run, done, failed, no_fuel, ◌>>=◌}
use dbx1000_bskiplist.BSkip.Leaf.{Element}
use dbx1000_bskiplist.BSkip.Node.{Memory}
use dbx1000_bskiplist.BSkip.Find.{exists, value}
use dbx1000_bskiplist.BSkip.Range.{map_range_length}

abbrev pub u64_mod : ℕ
u64_mod = 18446744073709551616

-- BSKIP_SCAN_BATCH
abbrev pub scan_batch : ℕ
scan_batch = 32

-- The elements that a scan has read ahead, a key and a value in each entry.
pub record BskipScanCursor : Type 0 where
  pub entries : ℕ → Element
  pub count : ℕ
  pub pos : ℕ

-- A thread's slots of cur_key_per_thd, cur_item_per_thd and scan_cursor_per_thd.
pub record Cursor : Type 0 where
  pub cur_key : ℕ
  pub cur_item : ℕ
  pub scan : BskipScanCursor

abbrev pub inner_key : ℕ → ℕ
inner_key key = (key + 1) % u64_mod

-- The callback of index_next.
abbrev pub push : Element → BskipScanCursor → BskipScanCursor
push e sc =
    let entries = λ (i : ℕ). if i == sc.count then e else sc.entries i in
    if ltb sc.count scan_batch then record sc { entries = entries; count = sc.count + 1 } else sc

pub fill : List Element → BskipScanCursor → BskipScanCursor
fill [] sc = sc
fill (e ∷ es) sc = fill es (push e sc)

-- `fuel` bounds the loops of the list, `header` is the header of its top level, and `next` gives
-- each item's next.
module _ (fuel : ℕ) (memory : Memory) (header : ℕ) (next : ℕ → ℕ) where
  abbrev pub index_exist : ℕ → Run Bool
  index_exist key = exists fuel memory header (inner_key key)

  -- The item, and the thread's cursor after it.
  abbrev pub index_read : ℕ → Cursor → Run (ℕ × Cursor)
  index_read key c = value fuel memory header (inner_key key) >>= λ item. done (
    item,
    record c { cur_key = key; cur_item = item; scan = record c.scan { count = 0; pos = 0 } },
  )

  -- A batch is read when the buffer has no unread entry.
  abbrev pub refill : ℕ → BskipScanCursor → Run BskipScanCursor
  refill cur_key sc =
      let batch =
        map_range_length fuel memory header (inner_key (inner_key cur_key)) scan_batch >>= λ es.
        done (record (fill es (record sc { count = 0 })) { pos = 0 }) in
      if leb sc.count sc.pos then batch else done sc

  abbrev pub take_entry : Cursor → BskipScanCursor → ℕ × Cursor
  take_entry c sc =
      let e = sc.entries sc.pos in
      if ltb sc.pos sc.count
      then (
        e.value,
        record {
          cur_key = (e.key + (u64_mod - 1)) % u64_mod;
          cur_item = e.value;
          scan = record sc { pos = sc.pos + 1 };
        },
      )
      else (0, record c { cur_item = 0; scan = sc })

  abbrev pub index_next : Bool → Cursor → Run (ℕ × Cursor)
  index_next samekey c =
      let next_item = if c.cur_item == 0 then 0 else next c.cur_item in
      let onward = refill c.cur_key c.scan >>= λ sc. done (take_entry c sc) in
      if not samekey && next_item == 0
      then onward
      else done (next_item, record c { cur_item = next_item })
