-- ===== src/IndexRwBskiplist/Next.antt =====
-- index_next walks the list in the order of its keys (index_rw_bskiplist.cpp).
use dbx1000_bskiplist.Base.{
  ℕ, suc, ◌+◌, ◌-◌, ◌%◌, ◌≡◌, ◌<◌, ◌≤◌, List, [], ◌∷◌, length, refl, arith, true, false, ◌==◌, ltb,
  leb, if◌then◌else◌, ap, ◌∙◌, subst, inl, inr, sym, ◌⊎◌, dec_lt,
}
use mathlib.Core.List.Memᴰ
use mathlib.Core.List.{Memᴰ}
use dbx1000_bskiplist.Run.{done}
use dbx1000_bskiplist.BSkip.Leaf.{Element}
use dbx1000_bskiplist.BSkip.Node.{Memory, max_sentinel, get_key_at_rank}
use dbx1000_bskiplist.BSkip.Find.{top_level}
use dbx1000_bskiplist.BSkip.Find.Shape.{Shape}
use dbx1000_bskiplist.BSkip.Insert.Contents.{Contains}
use dbx1000_bskiplist.BSkip.Range.{map_range_length}
use dbx1000_bskiplist.BSkip.Range.Visit.{First, Ended, below_max}
use dbx1000_bskiplist.BSkip.Range.Length.{map_range_length-First}
use dbx1000_bskiplist.IndexRwBskiplist.{
  BskipScanCursor, Cursor, fill, scan_batch, inner_key, refill, index_next, u64_mod, take_entry,
}
use dbx1000_bskiplist.IndexRwBskiplist.Buffer.{
  unread, unread-fill, unread_next, unread_none, First-least, First-rest, First-own,
}

inner_keys : (key : ℕ) → key + 2 < max_sentinel → inner_key (inner_key key) ≡ key + 2
inner_keys key h = omega arith

module _ (fuel : ℕ) (memory : Memory) (header : ℕ) (next : ℕ → ℕ) where
  refill_batch :
      (cur_key : ℕ) (sc : BskipScanCursor) (es : List Element)
      → leb sc.count sc.pos ≡ true
      → map_range_length fuel memory header (inner_key (inner_key cur_key)) scan_batch ≡ done es
      → refill fuel memory header next cur_key sc
        ≡ done (record (fill es (record sc { count = 0 })) { pos = 0 })
  refill_batch cur_key sc es c run = rw (c, run) refl

  refill_kept :
      (cur_key : ℕ) (sc : BskipScanCursor)
      → leb sc.count sc.pos ≡ false
      → refill fuel memory header next cur_key sc ≡ done sc
  refill_kept cur_key sc c = rw c refl

  index_next_onward :
      (c : Cursor) (sc : BskipScanCursor)
      → (if c.cur_item == 0 then 0 else next c.cur_item) ≡ 0
      → refill fuel memory header next c.cur_key c.scan ≡ done sc
      → index_next fuel memory header next false c ≡ done (take_entry fuel memory header next c sc)
  index_next_onward c sc last run = rw (last, run) refl

module _ (fuel : ℕ) (memory : Memory) (header : ℕ) (next : ℕ → ℕ) (Live : ℕ → ℕ → Type 0)
    (shape : Shape memory Live) (ended : Ended memory Live) (live : Live top_level header)
    (zero_key : get_key_at_rank (memory header) 0 ≡ 0) (deep : top_level < fuel)
    (batch : scan_batch < fuel) where
  -- The unread entries are the first elements of the list above the current key.
  abbrev pub Ahead : ℕ → BskipScanCursor → Type 0
  Ahead cur_key sc = First memory Live (cur_key + 2) (length (unread sc)) (unread sc)

  refill-Ahead :
      (cur_key : ℕ) (sc : BskipScanCursor)
      → cur_key + 2 < max_sentinel
      → cur_key + 2 < fuel
      → Ahead cur_key sc
      → (sc' : BskipScanCursor) × (refill fuel memory header next cur_key sc ≡ done sc')
        × Ahead cur_key sc'
        × (sc'.count ≤ sc'.pos → (e : Element) → Contains memory Live e → e.key < cur_key + 2)
  refill-Ahead cur_key sc high enough ahead = elim (dec_lt sc.pos sc.count) [
    | yes some_there ↦ (
      sc,
      refill_kept fuel memory header next cur_key sc (ground arith),
      ahead,
      λ none. absurd (omega arith),
    )
    | no empty ↦
        let keys = inner_keys cur_key high in
        let (es, run, first) =
          map_range_length-First memory Live shape ended fuel header (cur_key + 2) scan_batch live
            zero_key high enough deep batch in
        let after = record (fill es (record sc { count = 0 })) { pos = 0 } in
        let now : unread after ≡ es = unread-fill es sc first.few in
        (
          after,
          refill_batch fuel memory header next cur_key sc es (ground arith) (rw keys run),
          subst (λ xs. First memory Live (cur_key + 2) (length xs) xs) (sym now)
              (First-own memory Live (cur_key + 2) scan_batch es first),
          λ none e has.
              let nil : es ≡ [] = sym now ∙ unread_none after none in
              elim (dec_lt e.key (cur_key + 2)) [
                | yes l ↦ l
                | no l ↦ elim (first.complete e has (omega arith)) [
                  | inl m ↦ absurd (Memᴰ.not-nil (subst (λ xs. Memᴰ e xs) nil m))
                  | inr (full, all) ↦
                      let size = ap (length {A = Element}) nil in absurd (omega arith)
                ]
              ],
        )
  ]

  -- The cursor has moved to the element with the least key above the old one, or there is none.
  abbrev pub Moved : Cursor → ℕ → Cursor → Type 0
  Moved c item c' =
      ((e : Element) × Contains memory Live e
        × (c.cur_key + 2 ≤ e.key)
        × ((x : Element) → Contains memory Live x → c.cur_key + 2 ≤ x.key → e.key ≤ x.key)
        × (item ≡ e.value)
        × (c'.cur_key + 1 ≡ e.key))
      ⊎ (((x : Element) → Contains memory Live x → x.key < c.cur_key + 2)
          × (item ≡ 0)
          × (c'.cur_key ≡ c.cur_key))

  take_entry-Moved :
      (c : Cursor) (sc : BskipScanCursor)
      → Ahead c.cur_key sc
      → (sc.count ≤ sc.pos → (e : Element) → Contains memory Live e → e.key < c.cur_key + 2)
      → (item : ℕ) × (c' : Cursor) × (take_entry fuel memory header next c sc ≡ (item, c'))
        × Moved c item c'
        × (c'.cur_item ≡ item)
        × Ahead c'.cur_key c'.scan
  take_entry-Moved c sc ahead none = elim (dec_lt sc.pos sc.count) [
    | no empty ↦
        let test : ltb sc.pos sc.count ≡ false = ground arith in
        (
          0,
          record c { cur_item = 0; scan = sc },
          rw test refl,
          inr (none (omega arith), refl, refl),
          refl,
          ahead,
        )
    | yes there ↦
        let test : ltb sc.pos sc.count ≡ true = ground arith in
        let e = sc.entries sc.pos in
        let rest = record sc { pos = sc.pos + 1 } in
        let first : First memory Live (c.cur_key + 2) (suc (length (unread rest)))
            (e ∷ unread rest) =
          subst (λ xs. First memory Live (c.cur_key + 2) (length xs) xs) (unread_next sc there)
            ahead in
        let low : c.cur_key + 2 ≤ e.key = first.rising.0 in
        let has : Contains memory Live e = first.found e (Memᴰ.head refl) in
        let under : e.key < max_sentinel = below_max memory Live shape e has in
        let back : (e.key + (u64_mod - 1)) % u64_mod + 1 ≡ e.key = omega arith in
        let low' : (e.key + (u64_mod - 1)) % u64_mod + 2 ≡ e.key + 1 = omega arith in
        (
          e.value,
          record { cur_key = (e.key + (u64_mod - 1)) % u64_mod; cur_item = e.value; scan = rest },
          rw test refl,
          inl (
            e,
            has,
            low,
            First-least memory Live (c.cur_key + 2) (suc (length (unread rest))) e (unread rest)
                first,
            refl,
            back,
          ),
          refl,
          subst (λ n. First memory Live n (length (unread rest)) (unread rest)) (sym low')
              (First-rest memory Live (c.cur_key + 2) (length (unread rest)) e (unread rest) first),
        )
  ]

  -- Where the entries read ahead are the first elements above the current key and the current item
  -- has no next one: index_next without samekey ends, for a key two below the maximal sentinel and
  -- the fuel. It returns the item of the least key above the current one, which becomes the current
  -- key, or the null pointer if the list has no key above it; and the entries that are still read
  -- ahead are the first above the new current key.
  pub index_next-Moved :
      (c : Cursor)
      → c.cur_key + 2 < max_sentinel
      → c.cur_key + 2 < fuel
      → (if c.cur_item == 0 then 0 else next c.cur_item) ≡ 0
      → Ahead c.cur_key c.scan
      → (item : ℕ) × (c' : Cursor) × (index_next fuel memory header next false c ≡ done (item, c'))
        × Moved c item c'
        × (c'.cur_item ≡ item)
        × Ahead c'.cur_key c'.scan
  index_next-Moved c high enough last ahead =
      let (sc, run, ahead', none) = refill-Ahead c.cur_key c.scan high enough ahead in
      let (item, c', taken, moved, current, still) = take_entry-Moved c sc ahead' none in
      (
        item,
        c',
        index_next_onward fuel memory header next c sc last run ∙ ap done taken,
        moved,
        current,
        still,
      )
