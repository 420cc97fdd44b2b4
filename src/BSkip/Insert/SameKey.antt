-- ===== src/BSkip/Insert/SameKey.antt =====
-- A leaf of a well-formed list with an element put in place of the one of its key.
use dbx1000_bskiplist.Base.{
  ℕ, ◌≡◌, ◌≢◌, ◌<◌, arith, true, false, inl, inr, refl, ◌==◌, subst, ◌⊎◌, ◌↔◌, sym, ap, ◌∙◌,
  ℕ_discrete, dec_lt, if◌then◌else◌,
}
use dbx1000_bskiplist.BSkip.Leaf.{Element, blind_write}
use dbx1000_bskiplist.BSkip.Node.{Node, Memory, leaf, key_in, get_key_at_rank}
use dbx1000_bskiplist.BSkip.Node.Rank.{Sorted}
use dbx1000_bskiplist.BSkip.Find.Shape.{Shape, Covers}
use dbx1000_bskiplist.BSkip.Find.Walk.{held_by_cover}
use dbx1000_bskiplist.BSkip.Insert.{put}
use dbx1000_bskiplist.BSkip.Insert.Replace.{replace_leaf, put_here, put_elsewhere}
use dbx1000_bskiplist.BSkip.Insert.Contents.{In, element, Contains}

-- The element instead of the one of its key.
abbrev pub Replaces : Element → (Element → Type 0) → (Element → Type 0) → Type 0
Replaces elt before after = (e : Element) → after e ↔ ((before e × (e.key ≢ elt.key)) ⊎ (e ≡ elt))

pub key_unique :
    (n : Node) (i j : ℕ)
    → Sorted n
    → i < n.num_elts
    → j < n.num_elts
    → get_key_at_rank n i ≡ get_key_at_rank n j
    → i ≡ j
key_unique n i j v h l e = elim (ℕ_discrete i j) [
  | yes same ↦ same
  | no d ↦ elim (dec_lt i j) [
    | yes a ↦ absurd (omega (arith, v.rising i j a l))
    | no a ↦ absurd (omega (arith, v.rising j i (omega arith) h))
  ]
]

pub rank-Covers : (n : Node) (i : ℕ) → Sorted n → i < n.num_elts → Covers n (get_key_at_rank n i)
rank-Covers n i v h = elim (ℕ_discrete i 0) [
  | yes z ↦ subst (λ x. Covers n (get_key_at_rank n x)) (sym z) (omega arith, v.under 0 v.nonempty)
  | no d ↦ (omega (arith, v.rising 0 i (omega arith) h), v.under i h)
]

module _ (memory : Memory) (Live : ℕ → ℕ → Type 0) (shape : Shape memory Live) (d r : ℕ)
    (array : ℕ → Element) (elt : Element) (live : Live 0 d) (body : (memory d).body ≡ leaf array)
    (within : r < (memory d).num_elts) (key : (array r).key ≡ elt.key) where
  abbrev pub replaced : Node
  replaced = record (memory d) { body = leaf (blind_write array r elt) }

  same_key : (i : ℕ) → (blind_write array r elt i).key ≡ key_in (memory d).body i
  same_key i = rw body (elim (ℕ_discrete i r) [
    | yes e ↦ let c : (i == r) ≡ true = ground arith in rw (c, e) (sym key)
    | no n ↦ let c : (i == r) ≡ false = ground arith in rw c refl
  ])

  pub replaced-Shape : Shape (put memory d replaced) Live
  replaced-Shape =
      let v = (shape.nodes 0 d live).sorted in
      replace_leaf memory Live d replaced (blind_write array r elt) shape live refl (record {
        sorted = record {
          nonempty = v.nonempty;
          fits = v.fits;
          rising = λ i j h l. omega (arith, same_key i, same_key j, v.rising i j h l);
          under = λ i h. omega (arith, same_key i, v.under i h);
        };
        level = refl;
        next = refl;
        next_header = refl;
        header = same_key 0;
      })

  key_at : key_in (memory d).body r ≡ elt.key
  key_at = subst (λ x. key_in x r ≡ elt.key) (sym body) key

  covers : Covers (memory d) elt.key
  covers =
      subst (Covers (memory d)) key_at
        (rank-Covers (memory d) r (shape.nodes 0 d live).sorted within)

  -- An element of the key stands at the rank.
  pub only_there :
      (a : ℕ) (e : Element) → Live 0 a → In (memory a) e → e.key ≡ elt.key → array r ≡ e
  only_there a e here (array', i, q, h, at) same =
      let (array'', j, q', h', at') =
        held_by_cover memory Live shape d elt.key e.value live covers
          (a, array', i, here, q, h, at ∙ ap (λ k. element k e.value) same) in
      let arrays : array'' ≡ array = let p = sym q' ∙ body in cc in
      let key' : key_in (memory d).body j ≡ elt.key =
        subst (λ x. key_in x j ≡ elt.key) (sym q') (ap (λ (x : Element). x.key) at') in
      let rank =
        key_unique (memory d) j r (shape.nodes 0 d live).sorted h' within (key' ∙ sym key_at) in
      ap array (sym rank)
      ∙ ap (λ f. f j) (sym arrays)
      ∙ at'
      ∙ ap (λ k. element k e.value) (sym same)

  replaced-In : (e : Element) → In replaced e ↔ ((In (memory d) e × (e.key ≢ elt.key)) ⊎ (e ≡ elt))
  replaced-In e = (to, from)
    where
      to : In replaced e → (In (memory d) e × (e.key ≢ elt.key)) ⊎ (e ≡ elt)
      to (array', i, q, h, at) =
          let here : blind_write array r elt i ≡ e =
            let p : blind_write array r elt ≡ array' = cc in ap (λ f. f i) p ∙ at in
          elim (ℕ_discrete i r) [
            | yes s ↦ inr (
                let c : (i == r) ≡ true = ground arith in
                sym (subst (λ x. (if x then elt else array i) ≡ e) c here))
            | no n ↦
                let c : (i == r) ≡ false = ground arith in
                let old : array i ≡ e = subst (λ x. (if x then elt else array i) ≡ e) c here in
                inl (
                  (array, i, body, h, old),
                  λ same. n (
                      key_unique (memory d) i r (shape.nodes 0 d live).sorted h within
                        (rw body (ap (λ (x : Element). x.key) old ∙ same ∙ sym key))),
                )
          ]

      from : (In (memory d) e × (e.key ≢ elt.key)) ⊎ (e ≡ elt) → In replaced e
      from (inr new) =
          let c : (r == r) ≡ true = ground arith in (_, r, refl, within, rw c (sym new))
      from (inl ((array', i, q, h, at), other)) =
          let old : array i ≡ e =
            let p = sym body ∙ q in let p' : array ≡ array' = cc in ap (λ f. f i) p' ∙ at in
          let c : (i == r) ≡ false = elim (ℕ_discrete i r) [
            | yes s ↦
                absurd
                  (other (ap (λ (x : Element). x.key) (sym old) ∙ ap (λ x. (array x).key) s ∙ key))
            | no n ↦ ground arith
          ] in
          (_, i, refl, h, rw c old)

  pub replaced-Replaces :
      Replaces elt (Contains memory Live) (Contains (put memory d replaced) Live)
  replaced-Replaces e = (to, from)
    where
      here : In replaced e → Contains (put memory d replaced) Live e
      here has = (d, live, subst (λ n. In n e) (sym (put_here memory d replaced)) has)

      at_d :
          (In (memory d) e × (e.key ≢ elt.key)) ⊎ (e ≡ elt)
          → (Contains memory Live e × (e.key ≢ elt.key)) ⊎ (e ≡ elt)
      at_d (inl (has, other)) = inl ((d, live, has), other)
      at_d (inr new) = inr new

      to :
          Contains (put memory d replaced) Live e
          → (Contains memory Live e × (e.key ≢ elt.key)) ⊎ (e ≡ elt)
      to (a, there, has) = elim (ℕ_discrete a d) [
        | yes q ↦ at_d (
            (replaced-In e).0 (
              subst (λ n. In n e) (put_here memory d replaced)
                (subst (λ x. In (put memory d replaced x) e) q has)))
        | no n ↦
            let has' = subst (λ m. In m e) (put_elsewhere memory d a replaced n) has in
            inl ((a, there, has'), λ same. n (elsewhere a has' there same))
      ]
        where
          elsewhere : (a : ℕ) → In (memory a) e → Live 0 a → e.key ≡ elt.key → a ≡ d
          elsewhere a (array', i, q, h, at) there same =
              let v = rank-Covers (memory a) i (shape.nodes 0 a there).sorted h in
              let k : key_in (memory a).body i ≡ elt.key =
                rw q (ap (λ (x : Element). x.key) at ∙ same) in
              shape.apart 0 a d elt.key there live (subst (Covers (memory a)) k v) covers

      from :
          (Contains memory Live e × (e.key ≢ elt.key)) ⊎ (e ≡ elt)
          → Contains (put memory d replaced) Live e
      from (inr new) = here ((replaced-In e).1 (inr new))
      from (inl ((a, there, has), other)) = elim (ℕ_discrete a d) [
        | yes q ↦ here ((replaced-In e).1 (inl (subst (λ x. In (memory x) e) q has, other)))
        | no n ↦ (a, there, subst (λ m. In m e) (sym (put_elsewhere memory d a replaced n)) has)
      ]
