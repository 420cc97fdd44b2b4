-- ===== src/BSkip/Leaf/Split.antt =====
-- Splitting a full leaf (LeafNode.hpp, insert.cpp).
use dbx1000_bskiplist.BSkip.Leaf.Search.{IsRank}
use dbx1000_bskiplist.BSkip.Leaf.Update.{copy_lem}
use dbx1000_bskiplist.Base.{
  ℕ, ◌+◌, arith, ◌≡◌, ◌<◌, ◌↔◌, ◌⊎◌, ◌-◌, ◌%◌, dec_lt, inl, inr, ◌∙◌, ap, sym, ◌≤◌, refl,
}
use dbx1000_bskiplist.BSkip.Leaf.{Element, Leaf, split_keys, copy, u32_mod}
use dbx1000_bskiplist.BSkip.Leaf.Rank.{IsLeaf}
use dbx1000_bskiplist.BSkip.Leaf.Insert.{Holds}

-- split_keys into a fresh node, from a rank inside the leaf: both parts are well formed, every key
-- of the first is below every key of the second, and together they hold what the leaf held.
pub split_keys_lem :
    (node fresh : Leaf) (start : ℕ)
    → IsLeaf node
    → fresh.num_elts ≡ 0
    → 0 < start
    → start < node.num_elts
    → let (left, right, moved) = split_keys node fresh start 0 in
      IsLeaf left
      × IsLeaf right
      × (left.num_elts + right.num_elts ≡ node.num_elts)
      × ((i j : ℕ)
          → i < left.num_elts
          → j < right.num_elts
          → (left.array i).key < (right.array j).key)
      × ((e : Element) → Holds node e ↔ (Holds left e ⊎ Holds right e))
unfolding split_keys
split_keys_lem node fresh start v empty some_left some_right =
    let moved = node.num_elts - start in
    let there : ((x : ℕ)
        → x < moved
        → copy node.array fresh.array start 0 moved x ≡ node.array (start + x)) =
      λ x h. ground (arith, copy_lem node.array fresh.array start 0 moved x) in
    let count : (fresh.num_elts + moved) % u32_mod ≡ moved = omega (arith, v.fits) in
    (
      record {
        nonempty = some_left;
        fits = omega (arith, v.fits);
        ascending = λ i j a b. v.ascending i j a (omega arith);
      },
      record {
        nonempty = omega arith;
        fits = omega (arith, v.fits);
        ascending = λ i j a b.
            rw (there i (omega arith), there j (omega arith))
              (v.ascending (start + i) (start + j) (omega arith) (omega arith));
      },
      omega arith,
      (λ i j a b.
          rw (there j (omega arith)) (v.ascending i (start + j) (omega arith) (omega arith))),
      λ e. (
        (λ (i, h, q). elim (dec_lt i start) [
          | yes l ↦ inl (i, l, q)
          | no g ↦ inr (
            i - start,
            omega arith,
            there (i - start) (omega arith) ∙ ap node.array (omega arith) ∙ q,
          )
        ]),
        elim [
          | inl (i, h, q) ↦ (i, omega arith, q)
          | inr (i, h, q) ↦ (start + i, omega arith, sym (there i (omega arith)) ∙ q)
        ],
      ),
    )

-- The rank of a key in the leaf is its rank in the part that it falls into.
pub split_keys-IsRank :
    (node fresh : Leaf) (start k r : ℕ)
    → node.num_elts < u32_mod
    → fresh.num_elts ≡ 0
    → start < node.num_elts
    → IsRank node.num_elts node.array k r
    → let (left, right, moved) = split_keys node fresh start 0 in
      (left.num_elts ≡ start)
      × ((x : ℕ) → left.array x ≡ node.array x)
      × (right.array 0 ≡ node.array start)
      × (r < start → IsRank left.num_elts left.array k r)
      × (start ≤ r
          → IsRank right.num_elts right.array k (r - start)
            × (right.array (r - start) ≡ node.array r))
unfolding split_keys
split_keys-IsRank node fresh start k r fits empty some_right v =
    let moved = node.num_elts - start in
    let there : ((x : ℕ)
        → x < moved
        → copy node.array fresh.array start 0 moved x ≡ node.array (start + x)) =
      λ x h. ground (arith, copy_lem node.array fresh.array start 0 moved x) in
    let count : (fresh.num_elts + moved) % u32_mod ≡ moved = omega arith in
    (
      refl,
      (λ x. refl),
      there 0 (omega arith) ∙ ap node.array (omega arith),
      (λ h. record {
        within = h;
        at_most = v.at_most;
        largest = λ i a b. v.largest i a (omega arith);
      }),
      (λ h.
          let same = there (r - start) (omega (arith, v.within)) ∙ ap node.array (omega arith) in
          (
            record {
              within = omega (arith, v.within);
              at_most = rw same v.at_most;
              largest = λ i a b.
                  rw (there i (omega arith)) (v.largest (start + i) (omega arith) (omega arith));
            },
            same,
          )),
    )
