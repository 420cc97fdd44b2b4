-- ===== src/IndexRwBskiplist/Read.antt =====
-- What index_read returns, and where it leaves a thread's cursor (index_rw_bskiplist.cpp).
use dbx1000_bskiplist.Base.{ℕ, ◌+◌, ◌≡◌, ◌<◌, length, refl, arith, inr, subst, sym}
use mathlib.Core.List.Memᴰ
use dbx1000_bskiplist.Run.{done}
use dbx1000_bskiplist.BSkip.Node.{Memory, max_sentinel, get_key_at_rank}
use dbx1000_bskiplist.BSkip.Find.{top_level, value}
use dbx1000_bskiplist.BSkip.Find.Shape.{Shape}
use dbx1000_bskiplist.BSkip.Find.Value.{Returns, value-Returns}
use dbx1000_bskiplist.BSkip.Range.Visit.{Ended, First}
use dbx1000_bskiplist.IndexRwBskiplist.{BskipScanCursor, Cursor, inner_key, index_read, scan_batch}
use dbx1000_bskiplist.IndexRwBskiplist.Buffer.{unread_none}
use dbx1000_bskiplist.IndexRwBskiplist.Next.{Ahead}

index_read_run :
    (fuel : ℕ) (memory : Memory) (header : ℕ) (next : ℕ → ℕ) (key item : ℕ) (c : Cursor)
    → value fuel memory header (inner_key key) ≡ done item
    → index_read fuel memory header next key c
      ≡ done (
        item,
        record c { cur_key = key; cur_item = item; scan = record c.scan { count = 0; pos = 0 } },
      )
index_read_run fuel memory header next key item c run = rw run refl

module _ (fuel : ℕ) (memory : Memory) (header : ℕ) (next : ℕ → ℕ) (Live : ℕ → ℕ → Type 0)
    (shape : Shape memory Live) (ended : Ended memory Live) (live : Live top_level header)
    (zero_key : get_key_at_rank (memory header) 0 ≡ 0) (deep : top_level < fuel)
    (batch : scan_batch < fuel) where
  pub empty-Ahead :
      (key : ℕ) (sc : BskipScanCursor)
      → Ahead fuel memory header next Live shape ended live zero_key deep batch key
          (record sc { count = 0; pos = 0 })
  empty-Ahead key sc =
      subst (λ es. First memory Live (key + 2) (length es) es)
        (sym (unread_none (record sc { count = 0; pos = 0 }) (omega arith)))
        (record {
          rising = tt;
          found = λ e m. absurd (Memᴰ.not-nil m);
          few = omega arith;
          complete = λ e has from. inr (refl, λ x m. absurd (Memᴰ.not-nil m));
        })

  -- For a key one below the maximal sentinel and the fuel, index_read ends with the item of the key,
  -- or with the null pointer for a key that is not there; the key and the item become the thread's
  -- current ones, and nothing is read ahead.
  pub index_read-Returns :
      (key : ℕ) (c : Cursor)
      → key + 1 < max_sentinel
      → key + 1 < fuel
      → (item : ℕ) × (c' : Cursor) × (index_read fuel memory header next key c ≡ done (item, c'))
        × Returns memory Live shape (key + 1) item
        × (c'.cur_key ≡ key)
        × (c'.cur_item ≡ item)
        × Ahead fuel memory header next Live shape ended live zero_key deep batch c'.cur_key c'.scan
  index_read-Returns key c high enough =
      let inner : inner_key key ≡ key + 1 = omega arith in
      let (item, run, returns) =
        value-Returns memory Live shape fuel header (key + 1) live zero_key high enough
          (omega arith) in
      (
        item,
        record c { cur_key = key; cur_item = item; scan = record c.scan { count = 0; pos = 0 } },
        index_read_run fuel memory header next key item c
            (subst (λ k. value fuel memory header k ≡ done item) (sym inner) run),
        returns,
        refl,
        refl,
        empty-Ahead key c.scan,
      )
