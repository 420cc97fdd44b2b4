-- ===== src/BSkip/Range/Between.antt =====
-- What map_range visits (range.cpp).
use dbx1000_bskiplist.Base.{
  ℕ, zero, suc, ◌+◌, ◌≡◌, ◌<◌, ◌≤◌, List, [], ◌∷◌, arith, inl, inr, sym, subst, true, false, leb,
  dec_lt, refl, ap, not, ◌&&◌, ◌↔◌, ℕ_discrete,
}
use mathlib.Core.List.Memᴰ
use mathlib.Core.List.{Memᴰ}
use dbx1000_bskiplist.Run.{done}
use dbx1000_bskiplist.BSkip.Leaf.{Element}
use dbx1000_bskiplist.BSkip.Node.{Memory, leaf, key_in, max_sentinel, get_key_at_rank}
use dbx1000_bskiplist.BSkip.Find.{top_level}
use dbx1000_bskiplist.BSkip.Find.Shape.{Shape}
use dbx1000_bskiplist.BSkip.Insert.Contents.{Contains}
use dbx1000_bskiplist.BSkip.Range.{
  Position, at_end, turn, past, locate_leaf, sink, visit_to, map_range, chunk,
}
use dbx1000_bskiplist.BSkip.Range.Chunk.{RisingFrom}
use dbx1000_bskiplist.BSkip.Range.Visit.{Ended}
use dbx1000_bskiplist.BSkip.Range.Begin.{Begins, turn-Begins, Stands-Lands, Stands-only}
use dbx1000_bskiplist.BSkip.Range.Locate.{key_at, locate_leaf-Lands, sink_leaf}

map_range_run :
    (fuel : ℕ) (memory : Memory) (header min max : ℕ) (p q r : Position) (out : List Element)
    → locate_leaf fuel memory min top_level header ≡ done (p, false)
    → sink fuel memory min p ≡ done q
    → past memory false q ≡ done r
    → visit_to fuel memory max r ≡ done out
    → map_range fuel memory header min max ≡ done out
unfolding map_range
map_range_run fuel memory header min max p q r out a b c d = rw (a, b, c, d) refl

visit_to_stop :
    (fuel : ℕ) (memory : Memory) (max : ℕ) (p : Position)
    → (leb (get_key_at_rank (memory p.node) p.rank) max && not (at_end memory p)) ≡ false
    → visit_to (suc fuel) memory max p ≡ done []
unfolding visit_to
visit_to_stop fuel memory max p c = rw c refl

visit_to_step :
    (fuel : ℕ) (memory : Memory) (max : ℕ) (p q : Position) (array : ℕ → Element)
    (out : List Element)
    → (leb (get_key_at_rank (memory p.node) p.rank) max && not (at_end memory p)) ≡ true
    → (memory p.node).body ≡ leaf array
    → turn memory (record p { rank = p.rank + 1 }) ≡ done q
    → visit_to fuel memory max q ≡ done out
    → visit_to (suc fuel) memory max p ≡ done (array p.rank ∷ out)
unfolding visit_to chunk
visit_to_step fuel memory max p q array out c body step rest = rw (c, body, step, rest) refl

module _ (memory : Memory) (Live : ℕ → ℕ → Type 0) (shape : Shape memory Live)
    (ended : Ended memory Live) where
  -- `out` are the elements of the list with keys from `low` to `high`, in order of their keys.
  pub record Between (low high : ℕ) (out : List Element) : Type 0 where
    pub rising : RisingFrom low out
    pub members :
        (e : Element) → Memᴰ e out ↔ (Contains memory Live e × (low ≤ e.key) × (e.key ≤ high))

  none-Between :
      (low high : ℕ)
      → ((e : Element) → Contains memory Live e → low ≤ e.key → high < e.key)
      → Between low high []
  none-Between low high above = record {
    rising = tt;
    members = λ e.
        (λ m. absurd (Memᴰ.not-nil m), λ (has, from, to). absurd (omega (arith, above e has from)));
  }

  visit_to-Between :
      (fuel low max : ℕ) (p : Position)
      → Begins memory Live shape ended low p
      → 0 < fuel
      → max + 1 < fuel + low
      → (out : List Element) × (visit_to fuel memory max p ≡ done out) × Between low max out
  visit_to-Between zero low max p v pos enough = absurd (omega arith)
  visit_to-Between (suc fuel) low max p (inr (end, none)) pos enough = (
    [],
    visit_to_stop fuel memory max p (ground arith),
    none-Between low max (λ e has from. absurd (omega (arith, none e has))),
  )
  visit_to-Between (suc fuel) low max p (inl v) pos enough =
      let key = key_at memory Live shape p in
      let w = shape.nodes 0 p.node v.live in
      let under : key < max_sentinel = omega (arith, w.sorted.under p.rank v.within, w.bound) in
      elim (dec_lt max key) [
        | yes beyond ↦ (
          [],
          visit_to_stop fuel memory max p (ground arith),
          none-Between low max (λ e has from. omega (arith, v.first e has from)),
        )
        | no inside ↦
            let (array, body) = w.arrays in
            let (q, step, begins) =
              turn-Begins memory Live shape ended key p
                (Stands-Lands memory Live shape ended low p v) in
            let (out, run, rest) =
              visit_to-Between fuel (key + 1) max q begins (omega (arith, v.from))
                (omega (arith, v.from)) in
            let same : (array p.rank).key ≡ key =
              sym (subst (λ b. key_in b p.rank ≡ (array p.rank).key) (sym body) refl) in
            (
              _,
              visit_to_step fuel memory max p q array out (ground arith) body step run,
              record {
                rising = (
                  omega (arith, v.from),
                  subst (λ n. RisingFrom (n + 1) out) (sym same) rest.rising,
                );
                members = λ e. (
                  λ m. elim (Memᴰ.cases_cons m) [
                    | inl here ↦
                        let k = ap (λ (x : Element). x.key) here in
                        (
                          (p.node, v.live, (array, p.rank, body, v.within, sym here)),
                          omega (arith, v.from),
                          omega arith,
                        )
                    | inr m' ↦
                        let (has, from, to) = (rest.members e).0 m' in
                        (has, omega (arith, v.from), to)
                  ],
                  λ (has, from, to). elim (ℕ_discrete e.key key) [
                    | yes k ↦
                        Memᴰ.head (Stands-only memory Live shape ended low p array e v body has k)
                    | no d ↦
                        Memᴰ.tail ((rest.members e).1 (has, omega (arith, v.first e has from), to))
                  ],
                );
              },
            )
      ]

  -- On a well-formed list, from the header of the top level, for a key `min` below the maximal
  -- sentinel: with more fuel than `min`, and than `max` and one, map_range ends, having applied the
  -- function to the elements with keys above `min` and at most `max`, in order of their keys. An
  -- element with the key `min` itself is left out.
  pub map_range-Between :
      (fuel header min max : ℕ)
      → Live top_level header
      → get_key_at_rank (memory header) 0 ≡ 0
      → min < max_sentinel
      → min < fuel
      → max < fuel
      → (out : List Element) × (map_range fuel memory header min max ≡ done out)
        × Between (min + 1) max out
  map_range-Between zero header min max live zero_key high enough more = absurd (omega arith)
  map_range-Between (suc fuel) header min max live zero_key high enough more =
      let (p, walk, lands) =
        locate_leaf-Lands memory Live shape (suc fuel) top_level header min live (omega arith) high
          enough in
      let (r, step, begins) = turn-Begins memory Live shape ended min p lands in
      let (out, run, between) =
        visit_to-Between (suc fuel) (min + 1) max r begins (omega arith) (omega arith) in
      (
        out,
        map_range_run (suc fuel) memory header min max p p r out walk
            (sink_leaf memory Live shape fuel min p lands.live) step run,
        between,
      )
