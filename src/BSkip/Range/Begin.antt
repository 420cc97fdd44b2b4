-- ===== src/BSkip/Range/Begin.antt =====
-- Where the loops of range.cpp stand after a key: the next leaf's beginning is part of it.
use dbx1000_bskiplist.Base.{
  ℕ, ◌+◌, ◌≡◌, ◌<◌, ◌≤◌, arith, inl, inr, ◌⊎◌, sym, subst, ap, true, false, ◌==◌, ==_iff, dec_lt,
  ℕ_discrete, ◌≢◌, ◌∙◌, Bool-cases, refl, some,
}
use dbx1000_bskiplist.Run.{done}
use dbx1000_bskiplist.BSkip.Leaf.{Element}
use dbx1000_bskiplist.BSkip.Node.{Memory, key_in, max_sentinel, get_key_at_rank, leaf}
use dbx1000_bskiplist.BSkip.Find.Shape.{Shape}
use dbx1000_bskiplist.BSkip.Insert.Contents.{Contains}
use dbx1000_bskiplist.BSkip.Range.{Position, at_end, turn}
use dbx1000_bskiplist.BSkip.Range.Visit.{Ended, in_leaf, below_max}
use dbx1000_bskiplist.BSkip.Range.Locate.{Lands, key_at}

turn_here :
    (memory : Memory) (a r : ℕ)
    → (r == (memory a).num_elts) ≡ false
    → turn memory (record { node = a; rank = r }) ≡ done (record { node = a; rank = r })
turn_here memory a r c = rw c refl

turn_next :
    (memory : Memory) (a r b : ℕ)
    → (r == (memory a).num_elts) ≡ true
    → (memory a).next ≡ some b
    → turn memory (record { node = a; rank = r }) ≡ done (record { node = b; rank = 0 })
turn_next memory a r b c next = rw (c, next) refl

module _ (memory : Memory) (Live : ℕ → ℕ → Type 0) (shape : Shape memory Live)
    (ended : Ended memory Live) where
  -- A leaf's rank of the first key from `low` on.
  pub record Stands (low : ℕ) (p : Position) : Type 0 where
    pub live : Live 0 p.node
    pub within : p.rank < (memory p.node).num_elts
    pub from : low ≤ key_at memory Live shape p
    pub first :
        (e : Element) → Contains memory Live e → low ≤ e.key → key_at memory Live shape p ≤ e.key

  -- Such a rank, or the end where there is no such key.
  abbrev pub Begins : ℕ → Position → Type 0
  Begins low p =
      Stands low p
      ⊎ ((at_end memory p ≡ true) × ((e : Element) → Contains memory Live e → e.key < low))

  -- A rank stands on the largest key that is at most its own.
  pub Stands-Lands :
      (low : ℕ) (p : Position)
      → Stands low p
      → Lands memory Live shape 0 (key_at memory Live shape p) p
  Stands-Lands low p v =
      let w = (shape.nodes 0 p.node v.live).sorted in
      record {
        live = v.live;
        covers = (
          elim (ℕ_discrete p.rank 0) [
            | yes z ↦
                subst (λ r. get_key_at_rank (memory p.node) 0 ≤ get_key_at_rank (memory p.node) r)
                  (sym z) (omega arith)
            | no d ↦ omega (arith, w.rising 0 p.rank (omega arith) v.within)
          ],
          w.under p.rank v.within,
        );
        rank = record {
          within = v.within;
          at_most = omega arith;
          largest = λ i h l. w.rising p.rank i h l;
        };
      }

  -- One past the largest key that is at most `k`, over the end of its leaf.
  pub turn-Begins :
      (k : ℕ) (p : Position)
      → Lands memory Live shape 0 k p
      → (q : Position) × (turn memory (record p { rank = p.rank + 1 }) ≡ done q) × Begins (k + 1) q
  turn-Begins k p v =
      let a = p.node in
      let w = shape.nodes 0 a v.live in
      let (array, body) = w.arrays in
      let (low, high) = v.covers in
      -- What is above `k` in this leaf stands after the rank.
      let later : (e : Element)
          → Contains memory Live e
          → k + 1 ≤ e.key
          → e.key < (memory a).next_header
          → (i : ℕ) × (p.rank < i)
            × (i < (memory a).num_elts)
            × (key_in (memory a).body i ≡ e.key) =
        λ e has from near.
          let (i, h, at) =
            in_leaf memory Live shape a array e v.live body (omega arith, near) has in
          let key : key_in (memory a).body i ≡ e.key =
            subst (λ x. key_in x i ≡ e.key) (sym body) (ap (λ (x : Element). x.key) at) in
          elim (dec_lt p.rank i) [
            | yes l ↦ (i, l, h, key)
            | no l ↦ elim (ℕ_discrete i p.rank) [
              | yes same ↦
                  let key' = subst (λ r. key_in (memory a).body r ≡ e.key) same key in
                  absurd (omega (arith, v.rank.at_most))
              | no d ↦ absurd (
                  omega
                    (arith, w.sorted.rising i p.rank (omega arith) v.rank.within, v.rank.at_most))
            ]
          ] in
      elim (Bool-cases (p.rank + 1 == (memory a).num_elts)) [
        | inr c ↦
            let inside : p.rank + 1 < (memory a).num_elts = let h = v.rank.within in ground arith in
            (
              record { node = a; rank = p.rank + 1 },
              turn_here memory a (p.rank + 1) c,
              inl (record {
                live = v.live;
                within = inside;
                from = omega (arith, v.rank.largest (p.rank + 1) (omega arith) inside);
                first = λ e has from. elim (dec_lt e.key (memory a).next_header) [
                  | no far ↦ omega (arith, w.sorted.under (p.rank + 1) inside)
                  | yes near ↦
                      let (i, l, h, key) = later e has from near in
                      elim (ℕ_discrete i (p.rank + 1)) [
                        | yes same ↦
                            let key' = subst (λ r. key_in (memory a).body r ≡ e.key) same key in
                            omega arith
                        | no d ↦ omega (arith, w.sorted.rising (p.rank + 1) i (omega arith) h)
                      ]
                ];
              }),
            )
        | inl c ↦
            let last : p.rank + 1 ≡ (memory a).num_elts = (==_iff _ _).0 c in
            let beyond : (e : Element)
                → Contains memory Live e
                → k + 1 ≤ e.key
                → (memory a).next_header ≤ e.key =
              λ e has from. elim (dec_lt e.key (memory a).next_header) [
                | no far ↦ omega arith
                | yes near ↦ let (i, l, h, key) = later e has from near in absurd (omega arith)
              ] in
            elim (dec_lt (memory a).next_header max_sentinel) [
              | yes linked ↦
                  let (b, next, live', header) = w.linked linked in
                  (
                    record { node = b; rank = 0 },
                    turn_next memory a (p.rank + 1) b c next,
                    inl (record {
                      live = live';
                      within = (shape.nodes 0 b live').sorted.nonempty;
                      from = omega arith;
                      first = λ e has from. omega (arith, beyond e has from);
                    }),
                  )
              | no end ↦
                  let top : (memory a).next_header ≡ max_sentinel = omega (arith, w.bound) in
                  let (b, next, key) = ended a v.live top in
                  (
                    record { node = b; rank = 0 },
                    turn_next memory a (p.rank + 1) b c next,
                    inr (
                      (==_iff _ max_sentinel).1 key,
                      λ e has. elim (dec_lt e.key (k + 1)) [
                        | yes small ↦ small
                        | no d ↦ absurd (
                            omega (
                              arith,
                              beyond e has (omega arith),
                              below_max memory Live shape e has,
                            ))
                      ],
                    ),
                  )
            ]
      ]

  -- Where the largest key that is at most `k` is not `k`, the list does not hold it.
  pub Lands-absent :
      (k : ℕ) (p : Position)
      → Lands memory Live shape 0 k p
      → key_at memory Live shape p ≢ k
      → (e : Element) → Contains memory Live e
      → e.key ≢ k
  Lands-absent k p v other e has same =
      let a = p.node in
      let w = shape.nodes 0 a v.live in
      let (array, body) = w.arrays in
      let (low, high) = v.covers in
      let (i, h, at) =
        in_leaf memory Live shape a array e v.live body (omega arith, omega arith) has in
      let key : key_in (memory a).body i ≡ e.key =
        subst (λ x. key_in x i ≡ e.key) (sym body) (ap (λ (x : Element). x.key) at) in
      elim (dec_lt p.rank i) [
        | yes l ↦ omega (arith, v.rank.largest i l h)
        | no l ↦ elim (ℕ_discrete i p.rank) [
          | yes here ↦ other (subst (λ r. key_in (memory a).body r ≡ e.key) here key ∙ same)
          | no d ↦
              omega (arith, w.sorted.rising i p.rank (omega arith) v.rank.within, v.rank.at_most)
        ]
      ]

  -- The element at a rank is the only one with its key.
  pub Stands-only :
      (low : ℕ) (p : Position) (array : ℕ → Element) (e : Element)
      → Stands low p
      → (memory p.node).body ≡ leaf array
      → Contains memory Live e
      → e.key ≡ key_at memory Live shape p
      → e ≡ array p.rank
  Stands-only low p array e v body has same =
      let w = (shape.nodes 0 p.node v.live).sorted in
      let (below, above) = (Stands-Lands low p v).covers in
      let (i, h, at) =
        in_leaf memory Live shape p.node array e v.live body (omega arith, omega arith) has in
      let key : key_in (memory p.node).body i ≡ e.key =
        subst (λ x. key_in x i ≡ e.key) (sym body) (ap (λ (x : Element). x.key) at) in
      elim (ℕ_discrete i p.rank) [
        | yes here ↦ sym at ∙ ap array here
        | no d ↦ elim (dec_lt i p.rank) [
          | yes l ↦ absurd (omega (arith, w.rising i p.rank l v.within))
          | no l ↦ absurd (omega (arith, w.rising p.rank i (omega arith) h))
        ]
      ]
