-- ===== src/BSkip/Range/First.antt =====
-- What the loop of map_range_length visits from a rank of a leaf (range.cpp).
use dbx1000_bskiplist.Base.{
  ℕ, zero, suc, ◌+◌, ◌-◌, ◌≡◌, ◌<◌, ◌≤◌, List, [], ◌++◌, arith, inl, inr, sym, subst, length-append,
  true, false, ◌==◌, ==_iff, dec_lt, ℕ_discrete,
}
use mathlib.Core.List.{append-nil}
use mathlib.Core.List.Memᴰ
use dbx1000_bskiplist.Run.{done}
use dbx1000_bskiplist.BSkip.Leaf.{Element}
use dbx1000_bskiplist.BSkip.Node.{Memory, leaf, key_in, max_sentinel}
use dbx1000_bskiplist.BSkip.Find.Shape.{Shape}
use dbx1000_bskiplist.BSkip.Range.{Position, chunk, at_end, visit}
use dbx1000_bskiplist.BSkip.Range.Chunk.{RisingFrom-append, length-chunk}
use dbx1000_bskiplist.BSkip.Range.Visit.{
  Ended, First, visit_none, visit_end, visit_last, visit_more, chunk_first, chunk_cases, below_max,
}

module _ (memory : Memory) (Live : ℕ → ℕ → Type 0) (shape : Shape memory Live)
    (ended : Ended memory Live) where
  -- The chunk alone, when it is all that remains.
  chunk-First :
      (a rank count : ℕ) (array : ℕ → Element)
      → Live 0 a
      → (memory a).body ≡ leaf array
      → 0 < count
      → rank + count ≤ (memory a).num_elts
      → First memory Live (array rank).key count (chunk array rank count ++ [])
  chunk-First a rank count array live body pos inside =
      let (rising, below, has) =
        chunk_first memory Live shape a rank count 0 0 array [] live body pos inside in
      subst (First memory Live (array rank).key count) (sym (append-nil (chunk array rank count)))
        (record {
          rising = rising;
          found = has;
          few = omega (arith, length-chunk array rank count);
          complete = λ e h low.
              elim (chunk_cases memory Live shape a rank count 0 0 array [] live body pos inside e h
                low) [ inl m ↦ inl m | inr (_, all) ↦ inr (length-chunk array rank count, all) ];
        })

  -- The rest of a leaf, and what the next leaves give.
  more-First :
      (a rank it count : ℕ) (array : ℕ → Element) (out : List Element)
      → Live 0 a
      → (memory a).body ≡ leaf array
      → 0 < it
      → rank + it ≡ (memory a).num_elts
      → it ≤ count
      → First memory Live (memory a).next_header (count - it) out
      → First memory Live (array rank).key count (chunk array rank it ++ out)
  more-First a rank it count array out live body pos inside some_left v =
      let (rising, below, has) =
        chunk_first memory Live shape a rank it 0 0 array [] live body pos (omega arith) in
      let first : (array rank).key < (memory a).next_header =
        subst (λ x. key_in x rank < (memory a).next_header) body
          ((shape.nodes 0 a live).sorted.under rank (omega arith)) in
      let size = length-append (chunk array rank it) out in
      let chunk_size = length-chunk array rank it in
      record {
        rising =
            RisingFrom-append (array rank).key (memory a).next_header (chunk array rank it) out
              (omega arith) rising below v.rising;
        found = λ e m. elim (Memᴰ.append_cases (chunk array rank it) m) [
          | inl m' ↦ has e m'
          | inr m' ↦ v.found e m'
        ];
        few = omega (arith, size, chunk_size, v.few);
        complete = λ e h low.
            elim (chunk_cases memory Live shape a rank it 0 0 array [] live body pos (omega arith) e
              h low) [
                | inl m ↦ inl (Memᴰ.append_left out m)
                | inr (far, all) ↦ elim far [
                  | inl inside' ↦ absurd (omega arith)
                  | inr beyond ↦ elim (v.complete e h beyond) [
                    | inl m ↦ inl (Memᴰ.append_right (chunk array rank it) m)
                    | inr (full, rest) ↦ inr (
                      omega (arith, size, chunk_size),
                      λ x m. elim (Memᴰ.append_cases (chunk array rank it) m) [
                        | inl m' ↦ all x m'
                        | inr m' ↦ rest x m'
                      ],
                    )
                  ]
                ]
              ];
      }

  pub nothing-First : (count : ℕ) → First memory Live max_sentinel count []
  nothing-First count = record {
    rising = tt;
    found = λ e m. absurd (Memᴰ.not-nil m);
    few = omega arith;
    complete = λ e h low. absurd (omega (arith, below_max memory Live shape e h));
  }

  -- With more fuel than elements to visit, the loop ends with the first elements from its place on.
  pub visit-First :
      (fuel a rank remaining : ℕ) (array : ℕ → Element)
      → Live 0 a
      → (memory a).body ≡ leaf array
      → rank < (memory a).num_elts
      → remaining < fuel
      → (out : List Element) × (visit fuel memory (record { node = a; rank = rank }) remaining
          ≡ done out)
        × First memory Live (array rank).key remaining out
  visit-First zero a rank remaining array live body inside enough = absurd (omega arith)
  visit-First (suc fuel) a rank remaining array live body inside enough =
      let v = shape.nodes 0 a live in
      let under = v.sorted.under rank inside in
      let key : key_in (memory a).body rank < max_sentinel = omega (arith, v.bound) in
      let running : at_end memory (record { node = a; rank = rank }) ≡ false = ground arith in
      elim (ℕ_discrete remaining 0) [
        | yes z ↦ (
          [],
          subst (λ n. visit (suc fuel) memory (record { node = a; rank = rank }) n ≡ done [])
              (sym z) (visit_none fuel memory (record { node = a; rank = rank })),
          record {
            rising = tt;
            found = λ e m. absurd (Memᴰ.not-nil m);
            few = omega arith;
            complete = λ e h low. inr (sym z, λ x m. absurd (Memᴰ.not-nil m));
          },
        )
        | no some_left ↦
            let more : (remaining == 0) ≡ false = ground arith in
            let there = (memory a).num_elts - rank in
            elim (dec_lt there remaining) [
              | no last ↦ (
                _,
                visit_last fuel memory a rank remaining array [] running more body (omega arith)
                    (one_more fuel (record { node = a; rank = rank + remaining }) (omega arith)),
                chunk-First a rank remaining array live body (omega arith) (omega arith),
              )
              | yes onward ↦ elim (dec_lt (memory a).next_header max_sentinel) [
                | yes linked ↦
                    let (b, next, live', header) = v.linked linked in
                    let (array', body') = (shape.nodes 0 b live').arrays in
                    let (out, run, first) =
                      visit-First fuel b 0 (remaining - there) array' live' body'
                        (shape.nodes 0 b live').sorted.nonempty (omega arith) in
                    let low : (array' 0).key ≡ (memory a).next_header =
                      subst (λ x. key_in x 0 ≡ (memory a).next_header) body' header in
                    (
                      _,
                      visit_more fuel memory a rank remaining array out running more body b onward
                          next run,
                      more-First a rank there remaining array out live body (omega arith)
                          (omega arith) (omega arith)
                          (subst (λ n. First memory Live n (remaining - there) out) low first),
                    )
                | no last ↦
                    let top : (memory a).next_header ≡ max_sentinel = omega (arith, v.bound) in
                    let (b, next, key') = ended a live top in
                    let stop : at_end memory (record { node = b; rank = 0 }) ≡ true =
                      (==_iff _ max_sentinel).1 key' in
                    (
                      _,
                      visit_more fuel memory a rank remaining array [] running more body b onward
                          next
                          (end_of fuel (record { node = b; rank = 0 }) (remaining - there)
                            (omega arith) stop),
                      more-First a rank there remaining array [] live body (omega arith)
                          (omega arith) (omega arith)
                          (subst (λ n. First memory Live n (remaining - there) []) (sym top)
                            (nothing-First (remaining - there))),
                    )
              ]
            ]
      ]
    where
      one_more : (f : ℕ) (p : Position) → 0 < f → visit f memory p 0 ≡ done []
      one_more zero p h = absurd (omega arith)
      one_more (suc f) p h = visit_none f memory p

      end_of :
          (f : ℕ) (p : Position) (n : ℕ)
          → 0 < f
          → at_end memory p ≡ true
          → visit f memory p n ≡ done []
      end_of zero p n h c = absurd (omega arith)
      end_of (suc f) p n h c = visit_end f memory p n c
