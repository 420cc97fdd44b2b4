-- ===== src/BSkip/Insert/Lookup.antt =====
-- BSkip::value after BSkip::insert (insert.cpp, value.cpp).
use dbx1000_bskiplist.Base.{ℕ, ◌≡◌, ◌<◌, ◌≤◌, inl, inr, subst, ◌↔◌, sym, ap, ◌∙◌}
use dbx1000_bskiplist.Run.{done}
use dbx1000_bskiplist.BSkip.Leaf.{Element}
use dbx1000_bskiplist.BSkip.Node.{Memory, key_in, max_sentinel, get_key_at_rank}
use dbx1000_bskiplist.BSkip.Find.{top_level, value}
use dbx1000_bskiplist.BSkip.Find.Shape.{Shape, Covers, Maps}
use dbx1000_bskiplist.BSkip.Find.Walk.{held_by_cover}
use dbx1000_bskiplist.BSkip.Find.Exists.{Holds}
use dbx1000_bskiplist.BSkip.Find.Value.{value-Returns}
use dbx1000_bskiplist.BSkip.Insert.Contents.{Contains, element, Maps-Contains}
use dbx1000_bskiplist.BSkip.Insert.SameKey.{rank-Covers, key_unique}

module _ (memory : Memory) (Live : ℕ → ℕ → Type 0) (shape : Shape memory Live) where
  pub Maps-unique : (k v w : ℕ) → Maps memory Live k v → Maps memory Live k w → v ≡ w
  Maps-unique k v w (a, array, i, live, e, h, here) other =
      let sorted = (shape.nodes 0 a live).sorted in
      let key : key_in (memory a).body i ≡ k = rw e (ap (λ (x : Element). x.key) here) in
      let covers = subst (Covers (memory a)) key (rank-Covers (memory a) i sorted h) in
      let (array', j, e', h', here') = held_by_cover memory Live shape a k w live covers other in
      let key' : key_in (memory a).body j ≡ k =
        subst (λ x. key_in x j ≡ k) (sym e') (ap (λ (x : Element). x.key) here') in
      let arrays : array ≡ array' = let p = sym e ∙ e' in cc in
      let same = key_unique (memory a) i j sorted h h' (key ∙ sym key') in
      ap (λ (x : Element). x.value) (sym here ∙ ap array same ∙ ap (λ f. f j) arrays ∙ here')

  module _ (fuel header k : ℕ) (live : Live top_level header)
      (zero_key : get_key_at_rank (memory header) 0 ≡ 0) (high : k < max_sentinel)
      (enough : k < fuel) (deep : top_level ≤ fuel) where
    pub value-Maps : (v : ℕ) → Maps memory Live k v → value fuel memory header k ≡ done v
    value-Maps v maps =
        let (w, run, returns) =
          value-Returns memory Live shape fuel header k live zero_key high enough deep in
        elim returns [
          | inl maps' ↦ run ∙ ap done (Maps-unique k w v maps' maps)
          | inr (absent, z) ↦ absurd (absent (v, maps))
        ]

    value-absent : (Holds memory Live shape k → ⊥) → value fuel memory header k ≡ done 0
    value-absent absent =
        let (w, run, returns) =
          value-Returns memory Live shape fuel header k live zero_key high enough deep in
        elim returns [ inl maps ↦ absurd (absent (w, maps)) | inr (_, z) ↦ run ∙ ap done z ]

-- Two lists that map a key alike give the same value for it.
pub same_value :
    (memory memory' : Memory) (Live Live' : ℕ → ℕ → Type 0) (fuel header k : ℕ)
    → Shape memory Live
    → Shape memory' Live'
    → Live top_level header
    → Live' top_level header
    → get_key_at_rank (memory header) 0 ≡ 0
    → get_key_at_rank (memory' header) 0 ≡ 0
    → k < max_sentinel
    → k < fuel
    → top_level ≤ fuel
    → ((v : ℕ) → Contains memory' Live' (element k v) ↔ Contains memory Live (element k v))
    → value fuel memory' header k ≡ value fuel memory header k
same_value memory memory' Live Live' fuel header k shape shape' live live' z z' high enough deep
      same =
    let (w, run, returns) = value-Returns memory Live shape fuel header k live z high enough deep in
    elim returns [
      | inl maps ↦
          value-Maps memory' Live' shape' fuel header k live' z' high enough deep w (
            (Maps-Contains memory' Live' k w).1
              ((same w).1 ((Maps-Contains memory Live k w).0 maps)))
          ∙ sym run
      | inr (absent, none_there) ↦
          value-absent memory' Live' shape' fuel header k live' z' high enough deep (λ (v, maps).
            absent (
              v,
              (Maps-Contains memory Live k v).1
                  ((same v).0 ((Maps-Contains memory' Live' k v).0 maps)),
            ))
          ∙ sym (run ∙ ap done none_there)
    ]
