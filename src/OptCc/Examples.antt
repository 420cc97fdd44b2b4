-- ===== src/OptCc/Examples.antt =====
-- The theorems on central validation at two validations that overlap.
use dbx1000_bskiplist.Base.{[], ◌∷◌, ◌≡◌, ◌↔◌, arith, true, Bool, refl, some}
use mathlib.Core.List.{Memᴰ}
use dbx1000_bskiplist.OptCc.{OptCc, Validation, init, enter, leave, check}
use dbx1000_bskiplist.OptCc.Validity.{Disjoint, IsValid}
use dbx1000_bskiplist.OptCc.Invariant.{Running, Without}
use dbx1000_bskiplist.OptCc.Interleavings.{Reached, Earlier, leave_total, overlap-Disjoint}

-- The writer of row 7 enters first, then a transaction that reads 9 and writes 8.
abbrev writer : OptCc × Validation
writer = enter 1 0 [] (7 ∷ []) init

abbrev second : OptCc × Validation
second = enter 2 0 (9 ∷ []) (8 ∷ []) writer.0

abbrev both : Running
both = second.1 ∷ writer.1 ∷ []

both-Reached : Reached second.0 both
both-Reached =
    Reached.entered writer.0 (writer.1 ∷ []) 2 0 (9 ∷ []) (8 ∷ [])
      (Reached.entered init [] 1 0 [] (7 ∷ []) Reached.start tt) (omega arith, tt)

leave_total_example :
    (t : OptCc) × (committed : Bool) × (leave writer.1 second.0 ≡ some (t, committed))
    × Reached t (second.1 ∷ [])
    × ((committed ≡ true) ↔ IsValid writer.1)
leave_total_example =
    leave_total second.0 both (second.1 ∷ []) writer.1 both-Reached
      (Without.there second.1 (writer.1 ∷ []) [] (omega arith) (Without.here []))

second_passes : check second.1 ≡ true
unfolding check
second_passes = refl

overlap-Disjoint_example : Disjoint (7 ∷ []) (9 ∷ []) × Disjoint (7 ∷ []) (8 ∷ [])
overlap-Disjoint_example =
    overlap-Disjoint second.0 both writer.1 second.1 both-Reached
      (Earlier.first (writer.1 ∷ []) (Memᴰ.head refl)) refl second_passes
