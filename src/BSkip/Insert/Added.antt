-- ===== src/BSkip/Insert/Added.antt =====
-- The leaf level of BSkip::insert for a key that is promoted to no level: the list after it.
use dbx1000_bskiplist.Base.{
  suc, ℕ, ◌+◌, ◌/◌, ◌≡◌, ◌≢◌, ◌<◌, ◌≤◌, ◌⊎◌, arith, inl, inr, refl, sym, subst, ap, ltb, leb,
  Bool-cases,
}
use dbx1000_bskiplist.BSkip.Leaf.{Element, Leaf, split_keys}
use dbx1000_bskiplist.BSkip.Leaf.Search.{IsRank}
use dbx1000_bskiplist.BSkip.Node.{Node, Memory, leaf, get_key_at_rank}
use dbx1000_bskiplist.BSkip.Node.Rank.{Sorted, Found}
use dbx1000_bskiplist.BSkip.Find.Shape.{Shape}
use dbx1000_bskiplist.BSkip.Insert.{put, put_after, with_leaf, add_at_leaf}
use dbx1000_bskiplist.BSkip.Insert.Replace.{Upper, not_leaf, put_elsewhere, replace_leaf}
use dbx1000_bskiplist.BSkip.Insert.Divide.{at_other, And, Halves, divide_leaf}
use dbx1000_bskiplist.BSkip.Insert.Contents.{In, Adds, Contains, put-Adds, divided-Adds}
use dbx1000_bskiplist.BSkip.Insert.AtLeaf.{into_left, into_right}
use dbx1000_bskiplist.BSkip.Insert.PutAfter.{put_after_lem}

-- The list is well formed, it contains the element and what it contained before, and the nodes above
-- the leaves are as before.
abbrev pub Extended : Element → Memory → (ℕ → ℕ → Type 0) → Memory → (ℕ → ℕ → Type 0) → Type 0
Extended elt memory Live memory' Live' =
    Shape memory' Live'
    × Adds elt (Contains memory Live) (Contains memory' Live')
    × Upper memory Live memory'

-- The live nodes are those from before, or they are and the new one.
abbrev pub Added : ℕ → Element → Memory → (ℕ → ℕ → Type 0) → Memory → Type 0
Added spare elt memory Live memory' =
    Extended elt memory Live memory' Live ⊎ Extended elt memory Live memory' (And Live spare)

module _ (max_keys spare : ℕ) (fresh : ℕ → Element) (b r : ℕ) (array : ℕ → Element) (elt : Element)
    (memory : Memory) (Live : ℕ → ℕ → Type 0) (shape : Shape memory Live) (live : Live 0 b)
    (body : (memory b).body ≡ leaf array) (found : Found (memory b) elt.key r)
    (less : (array r).key < elt.key) (high : elt.key < (memory b).next_header) where
  abbrev n : Node
  n = memory b

  abbrev l : Leaf
  l = record { num_elts = n.num_elts; array = array }

  abbrev empty : Leaf
  empty = record { num_elts = 0; array = fresh }

  same : with_leaf n l ≡ n
  same = ap (λ x. record n { body = x }) (sym body)

  sorted : Sorted (with_leaf n l)
  sorted = subst Sorted (sym same) (shape.nodes 0 b live).sorted

  rank : IsRank l.num_elts l.array elt.key r
  rank =
      let f = subst (λ m. Found m elt.key r) (sym same) found in
      record { within = f.within; at_most = f.at_most; largest = f.largest }

  with_room :
      n.num_elts + 1 < 2147483648
      → Extended elt memory Live (put memory b (with_leaf n (put_after l r elt))) Live
  with_room room =
      let (ok, adds, first) = put_after_lem n l elt r sorted rank less high room in
      (
        replace_leaf memory Live b (with_leaf n (put_after l r elt)) _ shape live refl (record {
          sorted = ok;
          level = refl;
          next = refl;
          next_header = refl;
          header =
              subst (λ m. get_key_at_rank (with_leaf n (put_after l r elt)) 0 ≡ get_key_at_rank m 0)
                same first;
        }),
        put-Adds memory Live b elt live (with_leaf n (put_after l r elt))
            (subst (λ m. Adds elt (In m) (In (with_leaf n (put_after l r elt)))) same adds),
        λ level a here.
            put_elsewhere memory b a (with_leaf n (put_after l r elt))
              (not_leaf memory Live level a b shape live here),
      )

  module _ (unused : (level a : ℕ) → Live level a → a ≢ spare) where
    Halves-Extended :
        (left right : Node)
        → Halves left right (with_leaf n l) spare
          × Adds elt (In (with_leaf n l)) (λ e. In left e ⊎ In right e)
        → Extended elt memory Live (put (put memory spare right) b left) (And Live spare)
    Halves-Extended left right (v, adds) =
        let v' = subst (λ m. Halves left right m spare) same v in
        (
          divide_leaf memory Live b spare left right shape live unused v',
          divided-Adds memory Live b elt live spare left right shape unused v'
              (subst (λ m. Adds elt (In m) (λ e. In left e ⊎ In right e)) same adds),
          λ level a here.
              at_other memory Live b spare left right shape live unused v' a
                (not_leaf memory Live level a b shape live here) (unused (suc level) a here),
        )

    -- The new key goes into the leaf that covers it.
    pub add_at_leaf-Added :
        2 ≤ max_keys
        → max_keys < 2147483648
        → Added spare elt memory Live (add_at_leaf max_keys spare fresh b array r elt memory)
    unfolding add_at_leaf split_keys
    add_at_leaf-Added two small = elim (Bool-cases (ltb max_keys (n.num_elts + 1))) [
      | inr c ↦ inl (rw c (with_room (ground arith)))
      | inl c ↦
          let several : 2 ≤ n.num_elts = ground arith in
          let level = (shape.nodes 0 b live).on_level in
          elim (Bool-cases (leb (r + 1) (n.num_elts / 2))) [
            | inl d ↦ inr (
                rw (c, d)
                  (Halves-Extended _ _ (
                    into_left n l empty elt r spare sorted level refl several rank less high
                      (ground arith))))
            | inr d ↦ inr (
                rw (c, d)
                  (Halves-Extended _ _ (
                    into_right n l empty elt r spare sorted level refl several rank less high
                      (ground arith))))
          ]
    ]
