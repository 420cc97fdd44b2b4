-- ===== src/BSkip/FindExamples.antt =====
-- The theorems on searches at a list of two leaves, the second below a promoted key.
use dbx1000_bskiplist.Base.{
  ℕ, zero, suc, ◌≡◌, ◌<◌, arith, refl, ltb, sym, subst, ◌∙◌, some, ◌⊎◌, inl, inr, ◌==◌,
  if◌then◌else◌, Bool, true, ◌↔◌, ℕ_discrete, false,
}
use dbx1000_bskiplist.Run.{done}
use dbx1000_bskiplist.BSkip.Leaf.{Element}
use dbx1000_bskiplist.BSkip.Node.{Node, Memory, max_sentinel, leaf, internal, get_key_at_rank}
use dbx1000_bskiplist.BSkip.Node.Rank.{Sorted}
use dbx1000_bskiplist.BSkip.Find.{new_list, header_node, exists, value}
use dbx1000_bskiplist.BSkip.Find.Shape.{Shape, IsNode, Covers, Arrays}
use dbx1000_bskiplist.BSkip.Find.Exists.{Holds, exists-Holds}
use dbx1000_bskiplist.BSkip.Find.Value.{Returns, value-Returns}
use dbx1000_bskiplist.BSkip.Find.Empty.{header-Sorted}

abbrev no_keys : ℕ → ℕ
no_keys i = 0

abbrev pub no_elements : ℕ → Element
no_elements i = record { key = 0; value = 0 }

abbrev first_leaf : Node
first_leaf = record {
  num_elts = 2;
  level = 0;
  next = some 10;
  next_header = 5;
  body =
      leaf (λ i. if i == 0 then record { key = 0; value = 0 } else record { key = 3; value = 30 });
}

abbrev second_leaf : Node
second_leaf = record {
  num_elts = 2;
  level = 0;
  next = some 5;
  next_header = max_sentinel;
  body =
      leaf (λ i. if i == 0 then record { key = 5; value = 50 } else record { key = 8; value = 80 });
}

abbrev promoted : Node
promoted = record {
  num_elts = 2;
  level = 1;
  next = some 6;
  next_header = max_sentinel;
  body = internal (λ i. if i == 0 then 0 else 5) (λ i. if i == 0 then some 0 else some 10);
}

abbrev pub two_leaves : Memory
two_leaves a =
    if a == 0
    then first_leaf
    else if a == 1
    then promoted
    else if a == 10
    then second_leaf
    else new_list no_keys no_elements a

abbrev pub Live : ℕ → ℕ → Type 0
Live zero a = (a ≡ 0) ⊎ (a ≡ 10)
Live (suc level) a = (a ≡ suc level) × (suc level < 5)

pair-Sorted :
    (n : Node)
    → n.num_elts ≡ 2
    → get_key_at_rank n 0 < get_key_at_rank n 1
    → get_key_at_rank n 1 < n.next_header
    → Sorted n
pair-Sorted n two up under = record {
  nonempty = omega arith;
  fits = omega arith;
  rising = λ i j h l. let a : i ≡ 0 = omega arith in let b : j ≡ 1 = omega arith in rw (a, b) up;
  under = λ i h. elim (ℕ_discrete i 0) [
    | yes e ↦ rw e (omega arith)
    | no d ↦ let e : i ≡ 1 = omega arith in rw e under
  ];
}

below_key : (m : ℕ) → m < 3 → get_key_at_rank (two_leaves (suc m)) 0 ≡ 0
below_key zero h = refl
below_key (suc zero) h = refl
below_key (suc (suc zero)) h = refl
below_key (suc (suc (suc m))) h = absurd (omega arith)

upper-IsNode : (m : ℕ) → m < 3 → IsNode two_leaves Live (suc (suc m)) (suc (suc m))
upper-IsNode m h =
    let level = suc (suc m) in
    let t0 : (level == 0) ≡ false = ground arith in
    let t1 : (level == 1) ≡ false = ground arith in
    let t10 : (level == 10) ≡ false = ground arith in
    let t : ltb level 5 ≡ true = ground arith in
    let e : two_leaves level ≡ header_node no_keys no_elements level = rw (t0, t1, t10, t) refl in
    record {
      sorted = subst Sorted (sym e) (header-Sorted no_keys no_elements level);
      on_level = rw e refl;
      bound = rw e (omega arith);
      linked = λ l. absurd (omega (arith, subst (λ n. n.next_header < max_sentinel) e l));
      arrays =
          subst (λ n. Arrays two_leaves Live level n.num_elts n.body) (sym e)
            (
              _,
              _,
              refl,
              λ i l.
                  let z : i ≡ 0 = omega arith in
                  (suc m, rw z refl, (refl, omega arith), rw z (below_key m h)),
            );
    }

promoted_child :
    (i : ℕ)
    → i < 2
    → (c : ℕ) × ((if i == 0 then some 0 else some 10) ≡ some c)
      × Live 0 c
      × (get_key_at_rank (two_leaves c) 0 ≡ (if i == 0 then 0 else 5))
promoted_child zero h = (0, refl, inl refl, refl)
promoted_child (suc zero) h = (10, refl, inr refl, refl)
promoted_child (suc (suc i)) h = absurd (omega arith)

live-IsNode : (level a : ℕ) → Live level a → IsNode two_leaves Live level a
live-IsNode zero a (inl e) = subst (IsNode two_leaves Live 0) (sym e) (record {
  sorted = pair-Sorted first_leaf refl (omega arith) (omega arith);
  on_level = refl;
  bound = omega arith;
  linked = λ h. (10, refl, inr refl, refl);
  arrays = (_, refl);
})
live-IsNode zero a (inr e) = subst (IsNode two_leaves Live 0) (sym e) (record {
  sorted = pair-Sorted second_leaf refl (omega arith) (omega arith);
  on_level = refl;
  bound = omega arith;
  linked = λ h. absurd (omega arith);
  arrays = (_, refl);
})
live-IsNode (suc zero) a (e, h) = subst (IsNode two_leaves Live 1) (sym e) (record {
  sorted = pair-Sorted promoted refl (omega arith) (omega arith);
  on_level = refl;
  bound = omega arith;
  linked = λ l. absurd (omega arith);
  arrays = (_, _, refl, promoted_child);
})
live-IsNode (suc (suc m)) a (e, h) =
    subst (IsNode two_leaves Live (suc (suc m))) (sym e) (upper-IsNode m (omega arith))

leaves_apart : (k : ℕ) → Covers first_leaf k → Covers second_leaf k → ⊥
leaves_apart k c d = omega (arith, c.1, d.0)

apart :
    (level a b k : ℕ)
    → Live level a
    → Live level b
    → Covers (two_leaves a) k
    → Covers (two_leaves b) k
    → a ≡ b
apart zero a b k (inl e) (inl f) c d = e ∙ sym f
apart zero a b k (inr e) (inr f) c d = e ∙ sym f
apart zero a b k (inl e) (inr f) c d = absurd (
    leaves_apart k (subst (λ x. Covers (two_leaves x) k) e c)
      (subst (λ x. Covers (two_leaves x) k) f d))
apart zero a b k (inr e) (inl f) c d = absurd (
    leaves_apart k (subst (λ x. Covers (two_leaves x) k) f d)
      (subst (λ x. Covers (two_leaves x) k) e c))
apart (suc level) a b k (e, _) (f, _) c d = e ∙ sym f

pub two_leaves-Shape : Shape two_leaves Live
two_leaves-Shape = record { nodes = live-IsNode; apart = apart }

exists-Holds_example :
    (found : Bool) × (exists 100 two_leaves 4 8 ≡ done found)
    × ((found ≡ true) ↔ Holds two_leaves Live two_leaves-Shape 8)
exists-Holds_example =
    exists-Holds two_leaves Live two_leaves-Shape 100 4 8 (refl, omega arith) refl (omega arith)
      (omega arith)

value-Returns_example :
    (v : ℕ) × (value 100 two_leaves 4 5 ≡ done v) × Returns two_leaves Live two_leaves-Shape 5 v
value-Returns_example =
    value-Returns two_leaves Live two_leaves-Shape 100 4 5 (refl, omega arith) refl (omega arith)
      (omega arith) (omega arith)
