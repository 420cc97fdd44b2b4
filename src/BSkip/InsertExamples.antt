-- ===== src/BSkip/InsertExamples.antt =====
-- The theorems on insertion at a list of two leaves: a full leaf divided, and a key that is there.
use dbx1000_bskiplist.Base.{
  ℕ, zero, suc, ◌≡◌, ◌≢◌, ◌<◌, arith, refl, inl, inr, true, sym, subst, ap, ◌≤◌,
}
use dbx1000_bskiplist.Run.{done}
use dbx1000_bskiplist.BSkip.Leaf.{Element}
use dbx1000_bskiplist.BSkip.Find.Walk.{held_by_cover}
use dbx1000_bskiplist.BSkip.Node.{key_in, get_key_at_rank}
use dbx1000_bskiplist.BSkip.Find.Exists.{Holds}
use dbx1000_bskiplist.BSkip.FindExamples.{two_leaves, Live, two_leaves-Shape, no_elements}
use dbx1000_bskiplist.BSkip.Insert.{Store, insert_unpromoted, flip_coins}
use dbx1000_bskiplist.BSkip.Insert.Contents.{element}
use dbx1000_bskiplist.BSkip.Insert.Added.{Added}
use dbx1000_bskiplist.BSkip.Insert.NewKey.{insert_unpromoted-Added}
use dbx1000_bskiplist.BSkip.Insert.OldKey.{Replaced, insert_unpromoted-Replaced}
use dbx1000_bskiplist.BSkip.Insert.Coins.{flip_coins_bound}
use dbx1000_bskiplist.BSkip.Find.{top_level}
use dbx1000_bskiplist.BSkip.Insert.RoundTrip.{Answers, value-insert_unpromoted}

abbrev unchained : Store
unchained = record { memory = two_leaves; item_next = λ x. 0 }

unused : (level a : ℕ) → Live level a → a ≢ 20
unused zero a (inl e) q = absurd (omega arith)
unused zero a (inr e) q = absurd (omega arith)
unused (suc level) a (e, h) q = absurd (omega arith)

below_four : (i : ℕ) → i < 2 → get_key_at_rank (two_leaves 0) i ≡ 4 → ⊥
below_four zero h e = absurd (omega arith)
below_four (suc zero) h e = absurd (omega arith)
below_four (suc (suc i)) h e = absurd (omega arith)

four_is_new : Holds two_leaves Live two_leaves-Shape 4 → ⊥
four_is_new (v, m) =
    let (array, i, e, h, here) =
      held_by_cover two_leaves Live two_leaves-Shape 0 4 v (inl refl) (omega arith, omega arith)
        m in
    below_four i h (subst (λ x. key_in x i ≡ 4) (sym e) (ap (λ (x : Element). x.key) here))

insert_unpromoted-Added_example :
    (t : Store) × (insert_unpromoted 2 20 no_elements (element 4 40) 100 4 unchained
      ≡ done (true, t))
    × Added 20 (element 4 40) two_leaves Live t.memory
    × (t.item_next ≡ (λ x. 0))
insert_unpromoted-Added_example =
    insert_unpromoted-Added 2 20 no_elements (element 4 40) unchained Live two_leaves-Shape unused
      (omega arith) (omega arith) four_is_new 100 4 (refl, omega arith) refl (omega arith)
      (omega arith) (omega arith)

insert_unpromoted-Replaced_example :
    (t : Store) × (insert_unpromoted 2 20 no_elements (element 8 81) 100 4 unchained
      ≡ done (true, t))
    × Replaced 2 20 no_elements (element 8 81) unchained Live two_leaves-Shape 80 t
insert_unpromoted-Replaced_example =
    insert_unpromoted-Replaced 2 20 no_elements (element 8 81) unchained Live two_leaves-Shape 100 4
      80 (refl, omega arith) refl (omega arith) (omega arith) (omega arith) (omega arith)
      (10, _, 1, inr refl, refl, omega arith, refl)

flip_coins_bound_example : (r : ℕ) × (flip_coins 5 64 4096 ≡ done r) × (r ≤ top_level)
flip_coins_bound_example = flip_coins_bound 5 64 4096 (omega arith)

value-insert_unpromoted_example :
    (t : Store) × (insert_unpromoted 2 20 no_elements (element 4 40) 100 4 unchained
      ≡ done (true, t))
    × Answers
        (element 4 40)
        unchained
        Live
        two_leaves-Shape
        100
        4
        (refl, omega arith)
        refl
        (omega arith)
        (omega arith)
        (omega arith)
        t
value-insert_unpromoted_example =
    value-insert_unpromoted (element 4 40) unchained Live two_leaves-Shape 100 4 (refl, omega arith)
      refl (omega arith) (omega arith) (omega arith) 2 20 no_elements unused (omega arith)
      (omega arith) (omega arith)
