-- ===== src/BSkip/Find/Empty.antt =====
-- What the constructor builds: a well-formed list with the minimal sentinel as its only key
-- (constructor.cpp).
use dbx1000_bskiplist.Base.{ℕ, zero, suc, ◌≡◌, ◌<◌, arith, true, refl, ltb, sym, subst, ◌∙◌, ap}
use dbx1000_bskiplist.BSkip.Leaf.{Element}
use dbx1000_bskiplist.BSkip.Node.{max_sentinel, min_sentinel, get_key_at_rank, key_in}
use dbx1000_bskiplist.BSkip.Node.Rank.{Sorted}
use dbx1000_bskiplist.BSkip.Find.{new_list, header_node}
use dbx1000_bskiplist.BSkip.Find.Shape.{Shape, IsNode, Maps, Arrays}

-- The headers of the five levels.
abbrev pub Header : ℕ → ℕ → Type 0
Header level a = (a ≡ level) × (level < 5)

module _ (keys : ℕ → ℕ) (array : ℕ → Element) where
  at_header : (level : ℕ) → level < 5 → new_list keys array level ≡ header_node keys array level
  at_header level h = let c : ltb level 5 ≡ true = ground arith in rw c refl

  pub header_key : (level : ℕ) → get_key_at_rank (header_node keys array level) 0 ≡ min_sentinel
  header_key zero = refl
  header_key (suc level) = refl

  header_under :
      (level i : ℕ) → i < 1 → get_key_at_rank (header_node keys array level) i < max_sentinel
  header_under level i h =
      let z : i ≡ 0 = omega arith in
      subst (λ x. get_key_at_rank (header_node keys array level) x < max_sentinel) (sym z)
        (rw (header_key level) (omega arith))

  pub header-Sorted : (level : ℕ) → Sorted (header_node keys array level)
  header-Sorted level = record {
    nonempty = omega arith;
    fits = omega arith;
    rising = λ i j h l. absurd (omega arith);
    under = λ i h. header_under level i h;
  }

  Header-Arrays :
      (level : ℕ)
      → level < 5
      → Arrays (new_list keys array) Header level 1 (header_node keys array level).body
  Header-Arrays zero h = (_, refl)
  Header-Arrays (suc level) h = (
    _,
    _,
    refl,
    λ i l.
        let z : i ≡ 0 = omega arith in
        (
          level,
          rw z refl,
          (refl, omega arith),
          rw (at_header level (omega arith), z) (header_key level),
        ),
  )

  Header-IsNode : (level : ℕ) → level < 5 → IsNode (new_list keys array) Header level level
  Header-IsNode level h =
      let e = at_header level h in
      record {
        sorted = subst Sorted (sym e) (header-Sorted level);
        on_level = rw e refl;
        bound = rw e (omega arith);
        linked = λ l. absurd (omega (arith, subst (λ n. n.next_header < max_sentinel) e l));
        arrays =
            subst (λ n. Arrays (new_list keys array) Header level n.num_elts n.body) (sym e)
              (Header-Arrays level h);
      }

  first_key :
      (i : ℕ)
      → i < (new_list keys array 0).num_elts
      → get_key_at_rank (new_list keys array 0) i ≡ min_sentinel
  first_key i h =
      let z : i ≡ 0 = omega arith in
      subst (λ x. get_key_at_rank (new_list keys array 0) x ≡ min_sentinel) (sym z) refl

  -- The list that the constructor builds is well formed, and holds no key but the minimal sentinel.
  pub new_list-Shape :
      Shape (new_list keys array) Header
      × ((k v : ℕ) → Maps (new_list keys array) Header k v → k ≡ min_sentinel)
  new_list-Shape = (
    record {
      nodes = λ level a (e, h).
          subst (IsNode (new_list keys array) Header level) (sym e) (Header-IsNode level h);
      apart = λ level a b k (e, _) (f, _) _ _. e ∙ sym f;
    },
    λ k v (a, data', i, (e, _), body, h, here).
        let zero_key : i < (new_list keys array a).num_elts
            → get_key_at_rank (new_list keys array a) i ≡ min_sentinel =
          subst
            (λ x.
              i < (new_list keys array x).num_elts
              → get_key_at_rank (new_list keys array x) i ≡ min_sentinel)
            (sym e) (first_key i) in
        sym (ap (λ (x : Element). x.key) here) ∙ sym (ap (λ b. key_in b i) body) ∙ zero_key h,
  )
