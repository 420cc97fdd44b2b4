-- ===== src/IndexHash/Refinement.antt =====
-- The hash index refines a map from the keys of each partition to the items inserted under them, the
-- latest first (index_hash.cpp).
use native.Mathlib.Nat.{div-eq-sub-div}
use dbx1000_bskiplist.Base.{
  ℕ, List, [], ◌∷◌, Option, none, some, if◌then◌else◌, ◌==◌, ◌≡◌, ◌≢◌, refl, arith, All, true,
  false, ltb, ◌<◌, Bool-cases, inl, inr, ==_iff, sym, subst, ◌&&◌, ap, ◌∙◌, ◌≤◌,
}
use dbx1000_bskiplist.Run.{done, failed}
use dbx1000_bskiplist.IndexHash.{
  IndexHash, BucketNode, find_node, insert_node, set_next, link_item, hash, index_insert,
  index_read, init,
}
use dbx1000_bskiplist.IndexHash.Chains.{Chain, Chain-set_next, find_node-insert_node}

-- A key without a node has no items; the node of a key begins the chain of its items.
abbrev pub Stored : (ℕ → Option ℕ) → Option BucketNode → List ℕ → Type 0
Stored next none [] = Unit
Stored next none (x ∷ xs) = ⊥
Stored next (some n) [] = ⊥
Stored next (some n) (x ∷ xs) = Chain next n.items (x ∷ xs)

abbrev pub Contents : Type 0
Contents = ℕ → ℕ → List ℕ

-- The table represents the contents.
pub record Represents (t : IndexHash) (m : Contents) : Type 0 where
  pub some_bucket : 0 < t.bucket_cnt_per_part
  pub stored :
      (part key : ℕ) → Stored t.next (find_node key (t.buckets part (hash t key))) (m part key)

abbrev pub insert : ℕ → ℕ → ℕ → Contents → Contents
insert part key item m p q = if p == part && q == key then item ∷ m p q else m p q

Stored-set_next :
    (next : ℕ → Option ℕ) (item : ℕ) (v : Option ℕ) (n : Option BucketNode) (xs : List ℕ)
    → All (λ x. x ≢ item) xs
    → Stored next n xs
    → Stored (set_next next item v) n xs
Stored-set_next next item v none [] fresh s = s
Stored-set_next next item v none (x ∷ xs) fresh s = s
Stored-set_next next item v (some n) [] fresh s = s
Stored-set_next next item v (some n) (x ∷ xs) fresh s =
    Chain-set_next next item v n.items (x ∷ xs) fresh s

-- Linking the item leaves the chains of the others.
Stored-link_item :
    (next : ℕ → Option ℕ) (item : ℕ) (f n : Option BucketNode) (xs : List ℕ)
    → All (λ x. x ≢ item) xs
    → Stored next n xs
    → Stored (link_item f item next) n xs
Stored-link_item next item none n xs fresh s = s
Stored-link_item next item (some m) n xs fresh s = Stored-set_next next item m.items n xs fresh s

-- The node that points to the item, linked, begins the longer chain.
Stored-inserted :
    (next : ℕ → Option ℕ) (key item : ℕ) (n : Option BucketNode) (xs : List ℕ)
    → All (λ x. x ≢ item) xs
    → next item ≡ none
    → Stored next n xs
    → Stored (link_item n item next) (some (record { key = key; items = some item })) (item ∷ xs)
Stored-inserted next key item none [] fresh e s = (refl, e)
Stored-inserted next key item none (x ∷ xs) fresh e s = absurd s
Stored-inserted next key item (some n) [] fresh e s = absurd s
Stored-inserted next key item (some n) (x ∷ xs) fresh e s =
    let same : (item == item) ≡ true = ground arith in
    (refl, rw same (Chain-set_next next item n.items n.items (x ∷ xs) fresh s))

Stored-some :
    (next : ℕ → Option ℕ) (f : Option BucketNode) (x : ℕ) (xs : List ℕ)
    → Stored next f (x ∷ xs)
    → (n : BucketNode) × (f ≡ some n) × (n.items ≡ some x)
Stored-some next none x xs s = absurd s
Stored-some next (some n) x xs s = (n, refl, s.0)

Stored-none : (next : ℕ → Option ℕ) (f : Option BucketNode) → Stored next f [] → f ≡ none
Stored-none next none s = refl
Stored-none next (some n) s = absurd s

abbrev with_item : ℕ → ℕ → ℕ → IndexHash → ℕ → ℕ → List BucketNode
with_item key item part t p j =
    if p == part
    then (if j == hash t key
        then insert_node key item (t.buckets part (hash t key))
        else t.buckets p j)
    else t.buckets p j

-- The node of a key after the insertion.
find_node-with_item :
    (key item part : ℕ) (t : IndexHash) (p q : ℕ)
    → find_node q (with_item key item part t p (hash t q)) ≡ (
        if p == part && q == key
        then some (record { key = key; items = some item })
        else find_node q (t.buckets p (hash t q)))
find_node-with_item key item part t p q = elim (Bool-cases (p == part)) [
  | inr c ↦ rw c refl
  | inl c ↦
      let same_part = (==_iff p part).0 c in
      elim (Bool-cases (hash t q == hash t key)) [
        | inl d ↦
            let same_hash = (==_iff (hash t q) (hash t key)).0 d in
            let there : t.buckets part (hash t key) ≡ t.buckets p (hash t q) =
              sym (
                ap (λ x. t.buckets x (hash t q)) same_part
                ∙ ap (λ x. t.buckets part x) same_hash) in
            rw (c, d, find_node-insert_node key item q (t.buckets part (hash t key)), there) refl
        | inr d ↦
            let other : (q == key) ≡ false = elim (Bool-cases (q == key)) [
              | inr k ↦ k
              | inl k ↦
                  let same_hash = ap (λ x. hash t x) ((==_iff q key).0 k) in
                  let hit = (==_iff (hash t q) (hash t key)).1 same_hash in cc
            ] in
            rw (c, d, other) refl
      ]
]

-- Inserting an item that is in no chain, and whose own next pointer is null, passes the assertion,
-- and puts the item before those of its key and partition.
pub index_insert-Represents :
    (key item part : ℕ) (t : IndexHash) (m : Contents)
    → Represents t m
    → ((p q : ℕ) → All (λ x. x ≢ item) (m p q))
    → t.next item ≡ none
    → (u : IndexHash) × (index_insert key item part t ≡ done u)
      × Represents u (insert part key item m)
unfolding index_insert
index_insert-Represents key item part t m v fresh e =
    let small : ltb (hash t key) t.bucket_cnt_per_part ≡ true =
      let pos = v.some_bucket in ground arith in
    let nodes = t.buckets part (hash t key) in
    let next = link_item (find_node key nodes) item t.next in
    let u = record t {
      buckets = λ p j.
          if p == part
          then (if j == hash t key then insert_node key item nodes else t.buckets p j)
          else t.buckets p j;
      next = next;
    } in
    let kept : (p q : ℕ) → Stored next (find_node q (t.buckets p (hash t q))) (m p q) = λ p q.
      Stored-link_item t.next item (find_node key nodes) _ (m p q) (fresh p q) (v.stored p q) in
    let stored : (p q : ℕ)
        → Stored u.next (find_node q (u.buckets p (hash u q))) (insert part key item m p q) =
      λ p q.
        let node = find_node-with_item key item part t p q in
        elim (Bool-cases (p == part && q == key)) [
          | inr c ↦ rw (node, c) (kept p q)
          | inl c ↦
              let same_part : p ≡ part = ground arith in
              let same_key : q ≡ key = ground arith in
              rw (node, c)
                (subst
                  (λ x. Stored next (some (record { key = key; items = some item })) (item ∷ m x q))
                  (sym same_part)
                  (subst
                    (λ x.
                      Stored next (some (record { key = key; items = some item }))
                        (item ∷ m part x))
                    (sym same_key)
                    (Stored-inserted t.next key item (find_node key nodes) (m part key)
                      (fresh part key) e (v.stored part key))))
        ] in
    (u, rw small refl, record { some_bucket = v.some_bucket; stored = stored })

-- Reading a key that has items ends with the latest of them; for a key without items it fails.
pub index_read-Represents :
    (key part : ℕ) (t : IndexHash) (m : Contents)
    → Represents t m
    → ((x : ℕ) (xs : List ℕ) → m part key ≡ x ∷ xs → index_read key part t ≡ done (some x))
      × (m part key ≡ [] → index_read key part t ≡ failed)
unfolding index_read
index_read-Represents key part t m v =
    let small : ltb (hash t key) t.bucket_cnt_per_part ≡ true =
      let pos = v.some_bucket in ground arith in
    let found = find_node key (t.buckets part (hash t key)) in
    (
      λ x xs h.
          let (n, e, first) =
            Stored-some t.next found x xs (subst (Stored t.next found) h (v.stored part key)) in
          rw (small, e, first) refl,
      λ h.
          let e = Stored-none t.next found (subst (Stored t.next found) h (v.stored part key)) in
          rw (small, e) refl,
    )

-- With as many buckets as partitions or more, a new index represents empty contents.
pub init-Represents :
    (bucket_cnt part_cnt : ℕ) (next : ℕ → Option ℕ)
    → 0 < part_cnt
    → part_cnt ≤ bucket_cnt
    → Represents (init bucket_cnt part_cnt next) (λ p q. [])
unfolding init find_node
init-Represents bucket_cnt part_cnt next pos enough = record {
  some_bucket =
      let step = div-eq-sub-div {m = part_cnt} {n = bucket_cnt} pos enough in omega (arith, step);
  stored = λ p q. tt;
}
