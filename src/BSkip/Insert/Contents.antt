-- ===== src/BSkip/Insert/Contents.antt =====
-- What a list holds after one of its leaves was replaced, or divided.
use dbx1000_bskiplist.Base.{ℕ, ◌≡◌, ◌≢◌, ◌<◌, inl, inr, ◌⊎◌, sym, subst, refl, ℕ_discrete, ◌↔◌}
use dbx1000_bskiplist.BSkip.Leaf.{Element}
use dbx1000_bskiplist.BSkip.Node.{Node, Memory, leaf}
use dbx1000_bskiplist.BSkip.Find.Shape.{Shape, Maps}
use dbx1000_bskiplist.BSkip.Insert.{put}
use dbx1000_bskiplist.BSkip.Insert.Replace.{put_here, put_elsewhere}
use dbx1000_bskiplist.BSkip.Insert.Divide.{And, Halves, divided, at_b, at_s, at_other}

-- The leaf has the element.
abbrev pub In : Node → Element → Type 0
In n e = (array : ℕ → Element) × (i : ℕ) × (n.body ≡ leaf array) × (i < n.num_elts) × (array i ≡ e)

abbrev pub Adds : Element → (Element → Type 0) → (Element → Type 0) → Type 0
Adds elt before after = (e : Element) → after e ↔ (before e ⊎ (e ≡ elt))

abbrev pub element : ℕ → ℕ → Element
element k v = record { key = k; value = v }

-- The elements of a list.
abbrev pub Contains : Memory → (ℕ → ℕ → Type 0) → Element → Type 0
Contains memory Live e = (a : ℕ) × Live 0 a × In (memory a) e

pub Maps-Contains :
    (memory : Memory) (Live : ℕ → ℕ → Type 0) (k v : ℕ)
    → Maps memory Live k v ↔ Contains memory Live (element k v)
Maps-Contains memory Live k v = (
  λ (a, array, i, live, body, h, here). (a, live, (array, i, body, h, here)),
  λ (a, live, (array, i, body, h, here)). (a, array, i, live, body, h, here),
)

module _ (memory : Memory) (Live : ℕ → ℕ → Type 0) (b : ℕ) (elt : Element) (live : Live 0 b) where
  pub put-Adds :
      (n : Node)
      → Adds elt (In (memory b)) (In n)
      → Adds elt (Contains memory Live) (Contains (put memory b n) Live)
  put-Adds n adds e = (to, from)
    where
      to : Contains (put memory b n) Live e → Contains memory Live e ⊎ (e ≡ elt)
      to (a, here, has) = elim (ℕ_discrete a b) [
        | no d ↦ inl (a, here, subst (λ x. In x e) (put_elsewhere memory b a n d) has)
        | yes q ↦
            elim ((adds e).0 (
              subst (λ x. In x e) (put_here memory b n)
                (subst (λ x. In (put memory b n x) e) q has))) [
                  | inl old ↦ inl (b, live, old)
                  | inr new ↦ inr new
                ]
      ]

      at_b_now : In n e → Contains (put memory b n) Live e
      at_b_now has = (b, live, subst (λ x. In x e) (sym (put_here memory b n)) has)

      from : Contains memory Live e ⊎ (e ≡ elt) → Contains (put memory b n) Live e
      from (inr new) = at_b_now ((adds e).1 (inr new))
      from (inl (a, here, has)) = elim (ℕ_discrete a b) [
        | no d ↦ (a, here, subst (λ x. In x e) (sym (put_elsewhere memory b a n d)) has)
        | yes q ↦ at_b_now ((adds e).1 (inl (subst (λ x. In (memory x) e) q has)))
      ]

  module _ (s : ℕ) (left right : Node) (shape : Shape memory Live)
      (fresh : (level a : ℕ) → Live level a → a ≢ s) (v : Halves left right (memory b) s)
      (adds : Adds elt (In (memory b)) (λ e. In left e ⊎ In right e)) where
    abbrev after : Memory
    after = divided memory Live b s left right shape live fresh v

    left_now : (e : Element) → In left e → Contains after (And Live s) e
    left_now e has = (
      b,
      inl live,
      subst (λ x. In x e) (sym (at_b memory Live b s left right shape live fresh v)) has,
    )

    right_now : (e : Element) → In right e → Contains after (And Live s) e
    right_now e has = (
      s,
      inr (refl, refl),
      subst (λ x. In x e) (sym (at_s memory Live b s left right shape live fresh v)) has,
    )

    both_now : (e : Element) → In left e ⊎ In right e → Contains after (And Live s) e
    both_now e (inl h) = left_now e h
    both_now e (inr h) = right_now e h

    old_or_new : (e : Element) → In (memory b) e ⊎ (e ≡ elt) → Contains memory Live e ⊎ (e ≡ elt)
    old_or_new e (inl h) = inl (b, live, h)
    old_or_new e (inr h) = inr h

    divided_to : (e : Element) → Contains after (And Live s) e → Contains memory Live e ⊎ (e ≡ elt)
    divided_to e (a, inr (_, q), has) = old_or_new e (
        (adds e).0 (
          inr (
            subst (λ x. In x e) (at_s memory Live b s left right shape live fresh v)
              (subst (λ x. In (after x) e) q has))))
    divided_to e (a, inl here, has) = elim (ℕ_discrete a b) [
      | no d ↦ inl (
        a,
        here,
        subst (λ x. In x e)
            (at_other memory Live b s left right shape live fresh v a d (fresh 0 a here)) has,
      )
      | yes q ↦ old_or_new e (
          (adds e).0 (
            inl (
              subst (λ x. In x e) (at_b memory Live b s left right shape live fresh v)
                (subst (λ x. In (after x) e) q has))))
    ]

    divided_from :
        (e : Element) → Contains memory Live e ⊎ (e ≡ elt) → Contains after (And Live s) e
    divided_from e (inr new) = both_now e ((adds e).1 (inr new))
    divided_from e (inl (a, here, has)) = elim (ℕ_discrete a b) [
      | no d ↦ (
        a,
        inl here,
        subst (λ x. In x e)
            (sym (at_other memory Live b s left right shape live fresh v a d (fresh 0 a here))) has,
      )
      | yes q ↦ both_now e ((adds e).1 (inl (subst (λ x. In (memory x) e) q has)))
    ]

    pub divided-Adds : Adds elt (Contains memory Live) (Contains after (And Live s))
    divided-Adds e = (divided_to e, divided_from e)
