-- ===== src/BSkip/Insert/Divide.antt =====
-- A leaf of a well-formed list divided in two: the first half in its place, the second in a new node.
use dbx1000_bskiplist.Base.{
  ℕ, ◌≡◌, ◌≢◌, ◌<◌, ◌≤◌, arith, inl, inr, ◌⊎◌, ◌∙◌, sym, subst, ap, refl, ℕ_discrete, some,
}
use dbx1000_bskiplist.BSkip.Leaf.{Element}
use dbx1000_bskiplist.BSkip.Node.{Node, Memory, leaf, get_key_at_rank, max_sentinel}
use dbx1000_bskiplist.BSkip.Node.Rank.{Sorted}
use dbx1000_bskiplist.BSkip.Find.Shape.{Shape, IsNode, Covers}
use dbx1000_bskiplist.BSkip.Insert.{put}
use dbx1000_bskiplist.BSkip.Insert.Replace.{put_here, put_elsewhere, keep-IsNode, leaf_level}

-- Two leaves in the place of `m`, the second at `s`.
pub record Halves (left right m : Node) (s : ℕ) : Type 0 where
  pub left_sorted : Sorted left
  pub left_level : left.level ≡ m.level
  pub left_next : left.next ≡ some s
  pub left_next_header : left.next_header ≡ get_key_at_rank right 0
  pub left_header : get_key_at_rank left 0 ≡ get_key_at_rank m 0
  pub right_sorted : Sorted right
  pub right_level : right.level ≡ 0
  pub right_next : right.next ≡ m.next
  pub left_leaf : (array : ℕ → Element) × (left.body ≡ leaf array)
  pub right_leaf : (array : ℕ → Element) × (right.body ≡ leaf array)
  pub right_next_header : right.next_header ≡ m.next_header

-- The live nodes, and the new one on level 0.
abbrev pub And : (ℕ → ℕ → Type 0) → ℕ → ℕ → ℕ → Type 0
And Live s level a = Live level a ⊎ ((level ≡ 0) × (a ≡ s))

module _ (memory : Memory) (Live : ℕ → ℕ → Type 0) (b s : ℕ) (left right : Node)
    (shape : Shape memory Live) (live : Live 0 b) (fresh : (level a : ℕ) → Live level a → a ≢ s)
    (v : Halves left right (memory b) s) where
  abbrev pub divided : Memory
  divided = put (put memory s right) b left

  pub at_b : divided b ≡ left
  at_b = put_here (put memory s right) b left

  pub at_s : divided s ≡ right
  at_s =
      put_elsewhere (put memory s right) b s left (λ e. fresh 0 b live (sym e))
      ∙ put_here memory s right

  pub at_other : (x : ℕ) → x ≢ b → x ≢ s → divided x ≡ memory x
  at_other x d e = put_elsewhere (put memory s right) b x left d ∙ put_elsewhere memory s x right e

  headers :
      (level a : ℕ) → Live level a → get_key_at_rank (divided a) 0 ≡ get_key_at_rank (memory a) 0
  headers level a h = elim (ℕ_discrete a b) [
    | yes e ↦
        subst (λ x. get_key_at_rank (divided x) 0 ≡ get_key_at_rank (memory x) 0) (sym e)
          (ap (λ x. get_key_at_rank x 0) at_b ∙ v.left_header)
    | no d ↦ ap (λ x. get_key_at_rank x 0) (at_other a d (fresh level a h))
  ]

  -- The second header is below the next one.
  middle : get_key_at_rank right 0 < (memory b).next_header
  middle =
      let u = v.right_sorted.under 0 v.right_sorted.nonempty in
      omega (arith, u, v.right_next_header)

  left_below : get_key_at_rank (memory b) 0 < get_key_at_rank right 0
  left_below =
      let u = v.left_sorted.under 0 v.left_sorted.nonempty in
      omega (arith, u, v.left_next_header, v.left_header)

  left-IsNode : IsNode divided (And Live s) 0 b
  left-IsNode =
      let old = shape.nodes 0 b live in
      record {
        sorted = subst Sorted (sym at_b) v.left_sorted;
        on_level = rw at_b (v.left_level ∙ old.on_level);
        bound = rw at_b (omega (arith, v.left_next_header, middle, old.bound));
        linked = λ h. (
          s,
          ap (λ (x : Node). x.next) at_b ∙ v.left_next,
          inr (refl, refl),
          ap (λ x. get_key_at_rank x 0) at_s
              ∙ sym v.left_next_header
              ∙ sym (ap (λ (x : Node). x.next_header) at_b),
        );
        arrays = (v.left_leaf.0, ap (λ (x : Node). x.body) at_b ∙ v.left_leaf.1);
      }

  right-IsNode : IsNode divided (And Live s) 0 s
  right-IsNode =
      let old = shape.nodes 0 b live in
      record {
        sorted = subst Sorted (sym at_s) v.right_sorted;
        on_level = rw at_s v.right_level;
        bound = rw at_s (omega (arith, v.right_next_header, old.bound));
        linked = λ h.
            let h' = subst (λ x. x.next_header < max_sentinel) at_s h in
            let (c, link, there, key) = old.linked (omega (arith, v.right_next_header)) in
            (
              c,
              ap (λ (x : Node). x.next) at_s ∙ v.right_next ∙ link,
              inl there,
              headers 0 c there
                  ∙ key
                  ∙ sym v.right_next_header
                  ∙ sym (ap (λ (x : Node). x.next_header) at_s),
            );
        arrays = (v.right_leaf.0, ap (λ (x : Node). x.body) at_s ∙ v.right_leaf.1);
      }

  nodes : (level a : ℕ) → And Live s level a → IsNode divided (And Live s) level a
  nodes level a (inr (z, e)) =
      subst (λ l. IsNode divided (And Live s) l a) (sym z)
        (subst (IsNode divided (And Live s) 0) (sym e) right-IsNode)
  nodes level a (inl here) = elim (ℕ_discrete a b) [
    | no d ↦
        keep-IsNode memory divided Live (And Live s) (λ l x h. inl h) headers level a
          (at_other a d (fresh level a here)) (shape.nodes level a here)
    | yes e ↦
        let z = leaf_level memory Live level b shape live (subst (Live level) e here) in
        subst (λ l. IsNode divided (And Live s) l a) (sym z)
          (subst (IsNode divided (And Live s) 0) (sym e) left-IsNode)
  ]

  -- What the node at `a` covers, the node covered before; `b` only below the second header.
  cover :
      (level a k : ℕ)
      → Live level a
      → Covers (divided a) k
      → Covers (memory a) k × (a ≡ b → k < get_key_at_rank right 0)
  cover level a k here c = elim (ℕ_discrete a b) [
    | no d ↦ (subst (λ x. Covers x k) (at_other a d (fresh level a here)) c, λ e. absurd (d e))
    | yes e ↦
        let (low, high) = subst (λ x. Covers x k) at_b (subst (λ x. Covers (divided x) k) e c) in
        (
          subst (λ x. Covers (memory x) k) (sym e)
              (omega (arith, v.left_header), omega (arith, v.left_next_header, middle)),
          λ _. omega (arith, v.left_next_header),
        )
  ]

  cover_new : (k : ℕ) → Covers (divided s) k → Covers (memory b) k × (get_key_at_rank right 0 ≤ k)
  cover_new k c =
      let (low, high) = subst (λ x. Covers x k) at_s c in
      ((omega (arith, left_below), omega (arith, v.right_next_header)), low)

  apart :
      (level a c k : ℕ)
      → And Live s level a
      → And Live s level c
      → Covers (divided a) k
      → Covers (divided c) k
      → a ≡ c
  apart level a c k (inr (z, e)) (inr (z', e')) h h' = e ∙ sym e'
  apart level a c k (inl x) (inl y) h h' =
      shape.apart level a c k x y (cover level a k x h).0 (cover level c k y h').0
  apart level a c k (inl x) (inr (z, e)) h h' =
      let (old, low) = cover_new k (subst (λ x. Covers (divided x) k) e h') in
      let (mine, high) = cover level a k x h in
      let same = shape.apart level a b k x (subst (λ l. Live l b) (sym z) live) mine old in
      absurd (omega (arith, high same))
  apart level a c k (inr (z, e)) (inl x) h h' =
      let (old, low) = cover_new k (subst (λ x. Covers (divided x) k) e h) in
      let (mine, high) = cover level c k x h' in
      let same = shape.apart level c b k x (subst (λ l. Live l b) (sym z) live) mine old in
      absurd (omega (arith, high same))

  pub divide_leaf : Shape divided (And Live s)
  divide_leaf = record { nodes = nodes; apart = apart }
