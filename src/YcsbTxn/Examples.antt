-- ===== src/YcsbTxn/Examples.antt =====
-- The theorem on SCAN requests at a list of two leaves.
use dbx1000_bskiplist.Base.{
  ℕ, ◌+◌, ◌≡◌, ◌≢◌, ◌<◌, arith, refl, inl, inr, List, subst, sym, ap, ◌∙◌, ℕ_discrete,
}
use dbx1000_bskiplist.Run.{done}
use dbx1000_bskiplist.BSkip.Leaf.{Element}
use dbx1000_bskiplist.BSkip.Node.{max_sentinel, leaf}
use dbx1000_bskiplist.BSkip.FindExamples.{two_leaves, two_leaves-Shape, Live}
use dbx1000_bskiplist.BSkip.RangeExamples.{two_leaves-Ended}
use dbx1000_bskiplist.BSkip.Insert.Contents.{Contains, In}
use dbx1000_bskiplist.BSkip.Range.Visit.{First}
use dbx1000_bskiplist.IndexRwBskiplist.Examples.{at_two, no_next}
use dbx1000_bskiplist.YcsbTxn.{scan_request}
use dbx1000_bskiplist.YcsbTxn.Order.{items_of, scan_request-First}

abbrev Small : Element → Type 0
Small e = (e.key + 1 < max_sentinel) × (e.key + 1 < 100) × (e.key ≢ 0 → e.value ≢ 0)

member-Small :
    (a : ℕ) (array : ℕ → Element) (e : Element)
    → (two_leaves a).body ≡ leaf array
    → (two_leaves a).num_elts ≡ 2
    → Small (array 0)
    → Small (array 1)
    → In (two_leaves a) e
    → Small e
member-Small a array e body two first second (array', i, body', h, at) =
    let same : array ≡ array' = let p = sym body ∙ body' in cc in
    elim (ℕ_discrete i 0) [
      | yes z ↦ subst Small (ap array (sym z) ∙ ap (λ f. f i) same ∙ at) first
      | no d ↦
          let one : 1 ≡ i = omega arith in
          subst Small (ap array one ∙ ap (λ f. f i) same ∙ at) second
    ]

two_leaves-Small : (e : Element) → Contains two_leaves Live e → Small e
two_leaves-Small e (a, inl z, has) =
    member-Small 0 _ e refl refl (omega arith, omega arith, λ d. absurd (d refl))
      (omega arith, omega arith, λ d. omega arith) (subst (λ x. In (two_leaves x) e) z has)
two_leaves-Small e (a, inr z, has) =
    member-Small 10 _ e refl refl (omega arith, omega arith, λ d. omega arith)
      (omega arith, omega arith, λ d. omega arith) (subst (λ x. In (two_leaves x) e) z has)

scan_request-First_example :
    (es : List Element) × (scan_request 100 two_leaves 4 no_next 2 2 at_two ≡ done (items_of es))
    × First two_leaves Live 3 2 es
scan_request-First_example =
    scan_request-First 100 two_leaves 4 no_next Live two_leaves-Shape two_leaves-Ended
      (refl, omega arith) refl (omega arith) (omega arith) (λ item. refl) two_leaves-Small 2 2 30
      at_two (0, _, 1, inl refl, refl, omega arith, refl) (omega arith) (omega arith)
