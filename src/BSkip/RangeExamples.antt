-- ===== src/BSkip/RangeExamples.antt =====
-- The theorems on range queries at a list of two leaves.
use dbx1000_bskiplist.Base.{◌≡◌, arith, refl, subst, sym, inl, inr, List, some}
use dbx1000_bskiplist.Run.{done}
use dbx1000_bskiplist.BSkip.Leaf.{Element}
use dbx1000_bskiplist.BSkip.Node.{max_sentinel}
use dbx1000_bskiplist.BSkip.Range.{map_range, map_range_length}
use dbx1000_bskiplist.BSkip.Range.Visit.{Ended, First}
use dbx1000_bskiplist.BSkip.Range.Length.{map_range_length-First}
use dbx1000_bskiplist.BSkip.Range.Between.{Between, map_range-Between}
use dbx1000_bskiplist.BSkip.FindExamples.{two_leaves, two_leaves-Shape, Live}

pub two_leaves-Ended : Ended two_leaves Live
two_leaves-Ended a (inl e) h =
    absurd (omega (arith, subst (λ x. (two_leaves x).next_header ≡ max_sentinel) e h))
two_leaves-Ended a (inr e) h = (5, subst (λ x. (two_leaves x).next ≡ some 5) (sym e) refl, refl)

map_range_length-First_example :
    (out : List Element) × (map_range_length 100 two_leaves 4 4 7 ≡ done out)
    × First two_leaves Live 4 7 out
map_range_length-First_example =
    map_range_length-First two_leaves Live two_leaves-Shape two_leaves-Ended 100 4 4 7
      (refl, omega arith) refl (omega arith) (omega arith) (omega arith) (omega arith)

map_range-Between_example :
    (out : List Element) × (map_range 100 two_leaves 4 3 8 ≡ done out)
    × Between two_leaves Live two_leaves-Shape two_leaves-Ended 4 8 out
map_range-Between_example =
    map_range-Between two_leaves Live two_leaves-Shape two_leaves-Ended 100 4 3 8
      (refl, omega arith) refl (omega arith) (omega arith) (omega arith)
