-- ===== src/BSkip/Range/Length.antt =====
-- What map_range_length visits (range.cpp).
use dbx1000_bskiplist.Base.{
  ℕ, zero, suc, ◌+◌, ◌%◌, ◌≡◌, ◌<◌, ◌≤◌, List, [], arith, inl, inr, sym, subst, Bool, u32_mod,
  ℕ_discrete, refl, dec_lt,
}
use mathlib.Core.List.Memᴰ
use dbx1000_bskiplist.Run.{done}
use dbx1000_bskiplist.BSkip.Leaf.{Element}
use dbx1000_bskiplist.BSkip.Node.{Memory, key_in, max_sentinel, get_key_at_rank}
use dbx1000_bskiplist.BSkip.Find.{top_level}
use dbx1000_bskiplist.BSkip.Find.Shape.{Shape}
use dbx1000_bskiplist.BSkip.Insert.Contents.{Contains}
use dbx1000_bskiplist.BSkip.Range.{Position, past, locate, sink, visit, map_range_length}
use dbx1000_bskiplist.BSkip.Range.Chunk.{RisingFrom-le}
use dbx1000_bskiplist.BSkip.Range.Visit.{Ended, First, visit_end}
use dbx1000_bskiplist.BSkip.Range.First.{visit-First}
use dbx1000_bskiplist.BSkip.Range.Begin.{Begins, turn-Begins, Lands-absent}
use dbx1000_bskiplist.BSkip.Range.Locate.{key_at, locate-Located, sink_leaf, sink_key}

map_range_length_run :
    (fuel : ℕ) (memory : Memory) (header start length : ℕ) (p q r : Position) (found : Bool)
    (out : List Element)
    → locate fuel memory start top_level header ≡ done (p, found)
    → sink fuel memory start p ≡ done q
    → past memory found q ≡ done r
    → visit fuel memory r (length % u32_mod) ≡ done out
    → map_range_length fuel memory header start length ≡ done out
unfolding map_range_length
map_range_length_run fuel memory header start length p q r found out a b c d = rw (a, b, c, d) refl

module _ (memory : Memory) (Live : ℕ → ℕ → Type 0) (shape : Shape memory Live)
    (ended : Ended memory Live) where
  visit-Begins :
      (fuel low remaining : ℕ) (p : Position)
      → Begins memory Live shape ended low p
      → remaining < fuel
      → (out : List Element) × (visit fuel memory p remaining ≡ done out)
        × First memory Live low remaining out
  visit-Begins zero low remaining p v enough = absurd (omega arith)
  visit-Begins (suc fuel) low remaining p (inr (end, none)) enough = (
    [],
    visit_end fuel memory p remaining end,
    record {
      rising = tt;
      found = λ e m. absurd (Memᴰ.not-nil m);
      few = omega arith;
      complete = λ e has from. absurd (omega (arith, none e has));
    },
  )
  visit-Begins (suc fuel) low remaining p (inl v) enough =
      let (array, body) = (shape.nodes 0 p.node v.live).arrays in
      let (out, run, first) =
        visit-First memory Live shape ended (suc fuel) p.node p.rank remaining array v.live body
          v.within enough in
      let key : (array p.rank).key ≡ key_at memory Live shape p =
        sym (subst (λ b. key_in b p.rank ≡ (array p.rank).key) (sym body) refl) in
      (
        out,
        run,
        record {
          rising = RisingFrom-le (array p.rank).key low out (omega (arith, v.from)) first.rising;
          found = first.found;
          few = first.few;
          complete = λ e has from. first.complete e has (omega (arith, v.first e has from));
        },
      )

  -- Where the loop of map_range_length begins.
  begin :
      (fuel header start : ℕ)
      → Live top_level header
      → get_key_at_rank (memory header) 0 ≡ 0
      → start < max_sentinel
      → start < fuel
      → top_level < fuel
      → (p : Position) × (found : Bool) × (q : Position) × (r : Position) × (locate fuel memory
            start top_level header
          ≡ done (p, found))
        × (sink fuel memory start p ≡ done q)
        × (past memory found q ≡ done r)
        × Begins memory Live shape ended start r
  begin zero header start live zero_key high enough deep = absurd (omega arith)
  begin (suc fuel) header start live zero_key high enough deep =
      let (p, found, walk, located) =
        locate-Located memory Live shape (suc fuel) top_level header start (omega arith) live
          (omega arith) high enough in
      elim located [
        | inl (yes_found, (level, few, lands, key)) ↦
            let (q, down, live', within, key') =
              sink_key memory Live shape (suc fuel) level start p lands.live lands.rank.within key
                (omega arith) in
            (
              p,
              found,
              q,
              q,
              walk,
              down,
              rw yes_found refl,
              inl (record {
                live = live';
                within = within;
                from = omega arith;
                first = λ e has from. omega arith;
              }),
            )
        | inr (not_found, lands, other) ↦
            let (r, step, begins) = turn-Begins memory Live shape ended start p lands in
            let absent = Lands-absent memory Live shape ended start p lands other in
            let above : (e : Element) → Contains memory Live e → start ≤ e.key → start + 1 ≤ e.key =
              λ e has from. elim (ℕ_discrete e.key start) [
                | yes same ↦ absurd (absent e has same)
                | no d ↦ omega arith
              ] in
            (
              p,
              found,
              p,
              r,
              walk,
              sink_leaf memory Live shape fuel start p lands.live,
              rw not_found step,
              elim begins [
                | inl v ↦ inl (record {
                  live = v.live;
                  within = v.within;
                  from = omega (arith, v.from);
                  first = λ e has from. v.first e has (above e has from);
                })
                | inr (end, none) ↦ inr (
                  end,
                  λ e has. elim (dec_lt e.key start) [
                    | yes l ↦ l
                    | no l ↦ absurd (omega (arith, above e has (omega arith), none e has))
                  ],
                )
              ],
            )
      ]

  -- On a well-formed list, from the header of the top level, for a key below the maximal sentinel:
  -- with more fuel than the key, than four and than the length modulo 2 ^ 32, map_range_length ends,
  -- having applied the function to the first elements with keys from `start` on, in order of their
  -- keys: as many as the length modulo 2 ^ 32, or all of them if there are fewer.
  pub map_range_length-First :
      (fuel header start length : ℕ)
      → Live top_level header
      → get_key_at_rank (memory header) 0 ≡ 0
      → start < max_sentinel
      → start < fuel
      → top_level < fuel
      → length % u32_mod < fuel
      → (out : List Element) × (map_range_length fuel memory header start length ≡ done out)
        × First memory Live start (length % u32_mod) out
  map_range_length-First fuel header start length live zero_key high enough deep more =
      let (p, found, q, r, walk, down, step, begins) =
        begin fuel header start live zero_key high enough deep in
      let (out, run, first) = visit-Begins fuel start (length % u32_mod) r begins more in
      (
        out,
        map_range_length_run fuel memory header start length p q r found out walk down step run,
        first,
      )
