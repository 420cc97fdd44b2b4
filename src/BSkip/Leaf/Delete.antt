-- ===== src/BSkip/Leaf/Delete.antt =====
-- delete_key_at_rank of a leaf (LeafNode.hpp).
use dbx1000_bskiplist.BSkip.Leaf.Update.{shift_down_lem}
use dbx1000_bskiplist.Base.{ℕ, ◌+◌, arith, ◌<◌, ◌-◌, ◌≡◌, ◌↔◌, ◌≢◌, ◌≤◌, dec_lt, sym, ◌∙◌, ap}
use dbx1000_bskiplist.BSkip.Leaf.{Element, Leaf, delete_key_at_rank, dec32}
use dbx1000_bskiplist.BSkip.Leaf.Search.{Ascending}
use dbx1000_bskiplist.BSkip.Leaf.Rank.{IsLeaf}

-- The first num_elts - 1 elements after the deletion at a rank inside the leaf rise, and they are
-- those that the leaf held, less the one of that rank.
pub delete_key_at_rank_lem :
    (node : Leaf) (rank : ℕ)
    → IsLeaf node
    → rank < node.num_elts
    → let after = (delete_key_at_rank node rank).array in
      Ascending (node.num_elts - 1) after
      × ((e : Element)
          → ((j : ℕ) × (j < node.num_elts - 1) × (after j ≡ e))
            ↔ ((i : ℕ) × (i < node.num_elts) × (i ≢ rank) × (node.array i ≡ e)))
unfolding delete_key_at_rank
delete_key_at_rank_lem node rank v h =
    let after = (delete_key_at_rank node rank).array in
    let count : dec32 node.num_elts ≡ node.num_elts - 1 = omega (arith, v.fits, v.nonempty) in
    let low : ((x : ℕ) → x < rank → after x ≡ node.array x) =
      λ x l. ground (arith, shift_down_lem node.array rank (dec32 node.num_elts - rank) x) in
    let high : ((x : ℕ) → rank ≤ x → x < node.num_elts - 1 → after x ≡ node.array (x + 1)) =
      λ x l u. ground (arith, shift_down_lem node.array rank (dec32 node.num_elts - rank) x) in
    (
      λ i j a b. elim (dec_lt j rank) [
        | yes l ↦ rw (low i (omega arith), low j l) (v.ascending i j a (omega arith))
        | no g ↦ elim (dec_lt i rank) [
          | yes l ↦
              rw (low i l, high j (omega arith) b)
                (v.ascending i (j + 1) (omega arith) (omega arith))
          | no g' ↦
              rw (high i (omega arith) (omega arith), high j (omega arith) b)
                (v.ascending (i + 1) (j + 1) (omega arith) (omega arith))
        ]
      ],
      λ e. (
        (λ (j, b, q). elim (dec_lt j rank) [
          | yes l ↦ (j, omega arith, omega arith, sym (low j l) ∙ q)
          | no g ↦ (j + 1, omega arith, omega arith, sym (high j (omega arith) b) ∙ q)
        ]),
        λ (i, b, n, q). elim (dec_lt i rank) [
          | yes l ↦ (i, omega arith, low i l ∙ q)
          | no g ↦ (
            i - 1,
            omega arith,
            high (i - 1) (omega arith) (omega arith) ∙ ap node.array (omega arith) ∙ q,
          )
        ],
      ),
    )
