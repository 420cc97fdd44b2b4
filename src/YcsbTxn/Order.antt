-- ===== src/YcsbTxn/Order.antt =====
-- A SCAN request goes through the rows in the order of their keys (ycsb_txn.cpp).
use dbx1000_bskiplist.Base.{
  ℕ, zero, suc, ◌+◌, ◌-◌, ◌%◌, ◌≡◌, ◌≢◌, ◌<◌, ◌≤◌, List, [], ◌∷◌, refl, arith, inl, inr, false,
  true, ◌==◌, if◌then◌else◌, ap, sym, ◌∙◌, subst, u32_mod, ==_iff, ℕ_discrete,
}
use mathlib.Core.List.{Memᴰ}
use mathlib.Core.List.Memᴰ
use dbx1000_bskiplist.Run.{done}
use dbx1000_bskiplist.BSkip.Leaf.{Element}
use dbx1000_bskiplist.BSkip.Node.{Memory, max_sentinel, get_key_at_rank}
use dbx1000_bskiplist.BSkip.Find.{top_level}
use dbx1000_bskiplist.BSkip.Find.Shape.{Shape, Maps}
use dbx1000_bskiplist.BSkip.Insert.Contents.{Contains, Maps-Contains, element}
use dbx1000_bskiplist.BSkip.Insert.Lookup.{Maps-unique}
use dbx1000_bskiplist.BSkip.Range.Visit.{Ended, First}
use dbx1000_bskiplist.IndexRwBskiplist.{Cursor, index_read, index_next, scan_batch}
use dbx1000_bskiplist.IndexRwBskiplist.Next.{Ahead, index_next-Moved}
use dbx1000_bskiplist.IndexRwBskiplist.Read.{index_read-Returns}
use dbx1000_bskiplist.YcsbTxn.{later_rounds, scan_request}

-- The items of elements.
pub items_of : List Element → List ℕ
items_of [] = []
items_of (e ∷ es) = e.value ∷ items_of es

items_of_nil : items_of [] ≡ []
unfolding items_of
items_of_nil = refl

items_of_cons :
    (item : ℕ) (e : Element) (es : List Element)
    → item ≡ e.value
    → item ∷ items_of es ≡ items_of (e ∷ es)
unfolding items_of
items_of_cons item e es same = ap (λ i. i ∷ items_of es) same

module _ (fuel : ℕ) (memory : Memory) (header : ℕ) (next : ℕ → ℕ) where
  round_none : (c : Cursor) → later_rounds fuel memory header next 0 c ≡ done (items_of [])
  unfolding later_rounds items_of
  round_none c = refl

  round_last :
      (rounds : ℕ) (c c' : Cursor) (item : ℕ)
      → index_next fuel memory header next false c ≡ done (item, c')
      → (item == 0) ≡ true
      → later_rounds fuel memory header next (suc rounds) c ≡ done []
  unfolding later_rounds
  round_last rounds c c' item run null = rw (run, null) refl

  round_more :
      (rounds : ℕ) (c c' : Cursor) (item : ℕ) (items : List ℕ)
      → index_next fuel memory header next false c ≡ done (item, c')
      → (item == 0) ≡ false
      → later_rounds fuel memory header next rounds c' ≡ done items
      → later_rounds fuel memory header next (suc rounds) c ≡ done (item ∷ items)
  unfolding later_rounds
  round_more rounds c c' item items run some_there rest = rw (run, some_there, rest) refl

  scan_request_run :
      (key scan_len : ℕ) (c c' : Cursor) (item : ℕ) (items : List ℕ)
      → index_read fuel memory header next key c ≡ done (item, c')
      → (item == 0) ≡ false
      → later_rounds fuel memory header next ((scan_len + (u32_mod - 1)) % u32_mod) c' ≡ done items
      → scan_request fuel memory header next key scan_len c ≡ done (item ∷ items)
  unfolding scan_request
  scan_request_run key scan_len c c' item items run some_there rest =
      rw (run, some_there, rest) refl

module _ (fuel : ℕ) (memory : Memory) (header : ℕ) (next : ℕ → ℕ) (Live : ℕ → ℕ → Type 0)
    (shape : Shape memory Live) (ended : Ended memory Live) (live : Live top_level header)
    (zero_key : get_key_at_rank (memory header) 0 ≡ 0) (deep : top_level < fuel)
    (batch : scan_batch < fuel) (single : (item : ℕ) → next item ≡ 0)
    (bounded : (e : Element)
      → Contains memory Live e
      → (e.key + 1 < max_sentinel) × (e.key + 1 < fuel) × (e.key ≢ 0 → e.value ≢ 0)) where
  same_key :
      (e x : Element) → Contains memory Live e → Contains memory Live x → e.key ≡ x.key → e ≡ x
  same_key e x has has' same =
      let maps = (Maps-Contains memory Live e.key e.value).1 has in
      let maps' =
        (Maps-Contains memory Live e.key x.value).1
          (subst (λ k. Contains memory Live (element k x.value)) (sym same) has') in
      ap (element e.key) (Maps-unique memory Live shape e.key e.value x.value maps maps')
      ∙ ap (λ k. element k x.value) same

  -- The least element from a key on, before the first ones after it.
  First-cons :
      (low count : ℕ) (e : Element) (es : List Element)
      → Contains memory Live e
      → low ≤ e.key
      → ((x : Element) → Contains memory Live x → low ≤ x.key → e.key ≤ x.key)
      → First memory Live (e.key + 1) count es
      → First memory Live low (suc count) (e ∷ es)
  First-cons low count e es has from least v = record {
    rising = (from, v.rising);
    found = λ x m. elim (Memᴰ.cases_cons m) [
      | inl here ↦ subst (Contains memory Live) (sym here) has
      | inr later ↦ v.found x later
    ];
    few = omega (arith, v.few);
    complete = λ x has' from'. elim (ℕ_discrete e.key x.key) [
      | yes same ↦ inl (Memᴰ.head (sym (same_key e x has has' same)))
      | no other ↦ elim (v.complete x has' (omega (arith, least x has' from'))) [
        | inl m ↦ inl (Memᴰ.tail m)
        | inr (full, all) ↦ inr (
          omega arith,
          λ y m. elim (Memᴰ.cases_cons m) [
            | inl here ↦
                let k = ap (λ (z : Element). z.key) here in omega (arith, least x has' from')
            | inr later ↦ all y later
          ],
        )
      ]
    ];
  }

  no_next : (item : ℕ) → (if item == 0 then 0 else next item) ≡ 0
  no_next item = let n = single item in ground arith

  later_rounds-First :
      (rounds : ℕ) (c : Cursor)
      → c.cur_key + 2 < max_sentinel
      → c.cur_key + 2 < fuel
      → Ahead fuel memory header next Live shape ended live zero_key deep batch c.cur_key c.scan
      → (es : List Element) × (later_rounds fuel memory header next rounds c ≡ done (items_of es))
        × First memory Live (c.cur_key + 2) rounds es
  later_rounds-First zero c high enough ahead = (
    [],
    round_none fuel memory header next c,
    record {
      rising = tt;
      found = λ e m. absurd (Memᴰ.not-nil m);
      few = omega arith;
      complete = λ e has from. inr (refl, λ x m. absurd (Memᴰ.not-nil m));
    },
  )
  later_rounds-First (suc rounds) c high enough ahead =
      let (item, c', run, moved, current, ahead') =
        index_next-Moved fuel memory header next Live shape ended live zero_key deep batch c high
          enough (no_next c.cur_item) ahead in
      elim moved [
        | inr (none, null, same) ↦ (
          [],
          round_last fuel memory header next rounds c c' item run ((==_iff item 0).1 null)
              ∙ ap done (sym items_of_nil),
          record {
            rising = tt;
            found = λ e m. absurd (Memᴰ.not-nil m);
            few = omega arith;
            complete = λ e has from. absurd (omega (arith, none e has));
          },
        )
        | inl (e, has, from, least, value, key) ↦
            let (high', enough', real) = bounded e has in
            let pointer : e.value ≢ 0 = real (omega arith) in
            let test : (item == 0) ≡ false = ground arith in
            let (es, rest, first) =
              later_rounds-First rounds c' (omega arith) (omega arith) ahead' in
            let low : c'.cur_key + 2 ≡ e.key + 1 = omega arith in
            (
              e ∷ es,
              round_more fuel memory header next rounds c c' item (items_of es) run test rest
                  ∙ ap done (items_of_cons item e es value),
              First-cons (c.cur_key + 2) rounds e es has from least
                  (subst (λ n. First memory Live n rounds es) low first),
            )
      ]

  -- On a well-formed list whose items are not null and have no next one, with keys two below the
  -- maximal sentinel and the fuel: for a key that the list holds, a request of at least one row ends,
  -- and its rows are the items of the first keys from the request's own on, in order, as many as the
  -- scan_len, or all there are.
  pub scan_request-First :
      (key scan_len v : ℕ) (c : Cursor)
      → Maps memory Live (key + 1) v
      → 0 < scan_len
      → scan_len < u32_mod
      → (es : List Element) × (scan_request fuel memory header next key scan_len c
          ≡ done (items_of es))
        × First memory Live (key + 1) scan_len es
  scan_request-First key scan_len v c maps pos small =
      let has = (Maps-Contains memory Live (key + 1) v).0 maps in
      let (high, enough, real) = bounded (element (key + 1) v) has in
      let pointer : v ≢ 0 = real (omega arith) in
      let (item, c', run, returns, at, current, ahead) =
        index_read-Returns fuel memory header next Live shape ended live zero_key deep batch key c
          (omega arith) (omega arith) in
      let value : item ≡ v = elim returns [
        | inl maps' ↦ Maps-unique memory Live shape (key + 1) item v maps' maps
        | inr (absent, null) ↦ absurd (absent (v, maps))
      ] in
      let test : (item == 0) ≡ false = ground arith in
      let rounds : (scan_len + (u32_mod - 1)) % u32_mod ≡ scan_len - 1 = omega arith in
      let (es, rest, first) =
        later_rounds-First ((scan_len + (u32_mod - 1)) % u32_mod) c' (omega arith) (omega arith)
          ahead in
      let low : c'.cur_key + 2 ≡ key + 1 + 1 = omega arith in
      let count : suc ((scan_len + (u32_mod - 1)) % u32_mod) ≡ scan_len = omega arith in
      (
        element (key + 1) v ∷ es,
        scan_request_run fuel memory header next key scan_len c c' item (items_of es) run test rest
            ∙ ap done (items_of_cons item (element (key + 1) v) es value),
        subst (λ n. First memory Live (key + 1) n (element (key + 1) v ∷ es)) count
            (First-cons (key + 1) ((scan_len + (u32_mod - 1)) % u32_mod) (element (key + 1) v) es
              has (omega arith) (λ x has' from. omega arith)
              (subst (λ n. First memory Live n ((scan_len + (u32_mod - 1)) % u32_mod) es) low
                first)),
      )
