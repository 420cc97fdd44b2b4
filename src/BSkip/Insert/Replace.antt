-- ===== src/BSkip/Insert/Replace.antt =====
-- A leaf of a well-formed list replaced by another with the same header and the same place.
use dbx1000_bskiplist.Base.{
  ℕ, zero, suc, ◌≡◌, ◌≢◌, ◌<◌, ◌==◌, arith, ◌∙◌, sym, subst, ap, refl, ℕ_discrete, true, false,
}
use dbx1000_bskiplist.BSkip.Leaf.{Element}
use dbx1000_bskiplist.BSkip.Node.{Node, Body, Memory, leaf, get_key_at_rank, max_sentinel}
use dbx1000_bskiplist.BSkip.Node.Rank.{Sorted}
use dbx1000_bskiplist.BSkip.Find.Shape.{Shape, IsNode, Covers, Arrays}
use dbx1000_bskiplist.BSkip.Insert.{put}

pub put_here : (memory : Memory) (a : ℕ) (n : Node) → put memory a n a ≡ n
put_here memory a n = let c : (a == a) ≡ true = ground arith in rw c refl

pub put_elsewhere : (memory : Memory) (a x : ℕ) (n : Node) → x ≢ a → put memory a n x ≡ memory x
put_elsewhere memory a x n d = let c : (x == a) ≡ false = ground arith in rw c refl

-- A node that is as before, among live nodes with the headers they had.
module _ (memory memory' : Memory) (Live Live' : ℕ → ℕ → Type 0)
    (more : (level a : ℕ) → Live level a → Live' level a)
    (headers : (level a : ℕ)
      → Live level a
      → get_key_at_rank (memory' a) 0 ≡ get_key_at_rank (memory a) 0) where
  pub keep-Arrays :
      (level num : ℕ) (body : Body)
      → Arrays memory Live level num body
      → Arrays memory' Live' level num body
  keep-Arrays zero num body v = v
  keep-Arrays (suc level) num body (keys, children, e, below) = (
    keys,
    children,
    e,
    λ i h.
        let (c, link, live, key) = below i h in
        (c, link, more level c live, headers level c live ∙ key),
  )

  pub keep-IsNode :
      (level a : ℕ)
      → memory' a ≡ memory a
      → IsNode memory Live level a
      → IsNode memory' Live' level a
  keep-IsNode level a e v = record {
    sorted = subst Sorted (sym e) v.sorted;
    on_level = rw e v.on_level;
    bound = rw e v.bound;
    linked = λ h.
        let (c, link, live, key) = v.linked (subst (λ n. n.next_header < max_sentinel) e h) in
        (
          c,
          ap (λ (n : Node). n.next) e ∙ link,
          more level c live,
          headers level c live ∙ key ∙ sym (ap (λ (n : Node). n.next_header) e),
        );
    arrays =
        subst (λ n. Arrays memory' Live' level n.num_elts n.body) (sym e)
          (keep-Arrays level (memory a).num_elts (memory a).body v.arrays);
  }

-- Only level 0 has the node of a leaf.
pub leaf_level :
    (memory : Memory) (Live : ℕ → ℕ → Type 0) (level b : ℕ)
    → Shape memory Live
    → Live 0 b
    → Live level b
    → level ≡ 0
leaf_level memory Live level b shape live here =
    sym (shape.nodes level b here).on_level ∙ (shape.nodes 0 b live).on_level

-- The nodes above the leaves are as before.
abbrev pub Upper : Memory → (ℕ → ℕ → Type 0) → Memory → Type 0
Upper memory Live memory' = (level a : ℕ) → Live (suc level) a → memory' a ≡ memory a

pub not_leaf :
    (memory : Memory) (Live : ℕ → ℕ → Type 0) (level a b : ℕ)
    → Shape memory Live
    → Live 0 b
    → Live (suc level) a
    → a ≢ b
not_leaf memory Live level a b shape live here e =
    let z = leaf_level memory Live (suc level) b shape live (subst (Live (suc level)) e here) in
    absurd (omega (arith, z))

-- The new node stands in for the old one.
pub record InPlace (n m : Node) : Type 0 where
  pub sorted : Sorted n
  pub level : n.level ≡ m.level
  pub next : n.next ≡ m.next
  pub next_header : n.next_header ≡ m.next_header
  pub header : get_key_at_rank n 0 ≡ get_key_at_rank m 0

pub replace_leaf :
    (memory : Memory) (Live : ℕ → ℕ → Type 0) (b : ℕ) (n : Node) (array : ℕ → Element)
    → Shape memory Live
    → Live 0 b
    → n.body ≡ leaf array
    → InPlace n (memory b)
    → Shape (put memory b n) Live
replace_leaf memory Live b n array shape live body v = record {
  nodes = λ level a here. elim (ℕ_discrete a b) [
    | no d ↦
        keep-IsNode memory (put memory b n) Live Live (λ l x h. h) headers level a
          (put_elsewhere memory b a n d) (shape.nodes level a here)
    | yes e ↦
        let z = leaf_level memory Live level b shape live (subst (Live level) e here) in
        subst (λ l. IsNode (put memory b n) Live l a) (sym z)
          (subst (IsNode (put memory b n) Live 0) (sym e) new_leaf)
  ];
  apart = λ level a c k h h' k1 k2.
      shape.apart level a c k h h' (cover level a k h k1) (cover level c k h' k2);
}
  where
    headers :
        (level a : ℕ)
        → Live level a
        → get_key_at_rank (put memory b n a) 0 ≡ get_key_at_rank (memory a) 0
    headers level a h = elim (ℕ_discrete a b) [
      | yes e ↦
          subst (λ x. get_key_at_rank (put memory b n x) 0 ≡ get_key_at_rank (memory x) 0) (sym e)
            (ap (λ x. get_key_at_rank x 0) (put_here memory b n) ∙ v.header)
      | no d ↦ ap (λ x. get_key_at_rank x 0) (put_elsewhere memory b a n d)
    ]

    cover : (level a k : ℕ) → Live level a → Covers (put memory b n a) k → Covers (memory a) k
    cover level a k h c = elim (ℕ_discrete a b) [
      | yes e ↦
          let c' = subst (λ x. Covers (put memory b n x) k) e c in
          let (low, high) = subst (λ x. Covers x k) (put_here memory b n) c' in
          let k0 = v.header in
          let k1 = v.next_header in
          subst (λ x. Covers (memory x) k) (sym e) (omega arith, omega arith)
      | no d ↦ subst (λ x. Covers x k) (put_elsewhere memory b a n d) c
    ]

    new_leaf : IsNode (put memory b n) Live 0 b
    new_leaf =
        let old = shape.nodes 0 b live in
        let e = put_here memory b n in
        record {
          sorted = subst Sorted (sym e) v.sorted;
          on_level = rw e (v.level ∙ old.on_level);
          bound = rw e (let k1 = v.next_header in let o = old.bound in omega arith);
          linked = λ h.
              let h' = subst (λ x. x.next_header < max_sentinel) e h in
              let k1 = v.next_header in
              let (c, link, there, key) = old.linked (omega arith) in
              (
                c,
                ap (λ (x : Node). x.next) e ∙ v.next ∙ link,
                there,
                headers 0 c there
                    ∙ key
                    ∙ sym v.next_header
                    ∙ sym (ap (λ (x : Node). x.next_header) e),
              );
          arrays = (array, ap (λ (x : Node). x.body) e ∙ body);
        }
