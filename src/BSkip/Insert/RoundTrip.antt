-- ===== src/BSkip/Insert/RoundTrip.antt =====
-- What BSkip::value returns after BSkip::insert, whether or not the key was there.
use dbx1000_bskiplist.Base.{
  ℕ, ◌≡◌, ◌≢◌, ◌<◌, ◌≤◌, true, inl, inr, refl, subst, ◌↔◌, sym, ap, Bool-cases,
}
use dbx1000_bskiplist.Run.{done}
use dbx1000_bskiplist.BSkip.Leaf.{Element}
use dbx1000_bskiplist.BSkip.Node.{max_sentinel, get_key_at_rank}
use dbx1000_bskiplist.BSkip.Find.{top_level, value}
use dbx1000_bskiplist.BSkip.Find.Shape.{Shape}
use dbx1000_bskiplist.BSkip.Find.Exists.{Holds, exists-Holds}
use dbx1000_bskiplist.BSkip.Insert.{Store, insert_unpromoted}
use dbx1000_bskiplist.BSkip.Insert.Replace.{Upper}
use dbx1000_bskiplist.BSkip.Insert.Divide.{And}
use dbx1000_bskiplist.BSkip.Insert.Contents.{Adds, Contains, element, Maps-Contains}
use dbx1000_bskiplist.BSkip.Insert.SameKey.{Replaces}
use dbx1000_bskiplist.BSkip.Insert.Lookup.{value-Maps, same_value}
use dbx1000_bskiplist.BSkip.Insert.NewKey.{insert_unpromoted-Added}
use dbx1000_bskiplist.BSkip.Insert.OldKey.{insert_unpromoted-Replaced}

-- The list has the element, and of other keys what it had.
abbrev Updates : Element → (Element → Type 0) → (Element → Type 0) → Type 0
Updates elt before after =
    after elt × ((k v : ℕ) → k ≢ elt.key → after (element k v) ↔ before (element k v))

Adds-Updates :
    (elt : Element) (before after : Element → Type 0)
    → Adds elt before after
    → Updates elt before after
Adds-Updates elt before after adds = (
  (adds elt).1 (inr refl),
  λ k v other. (
    λ has. elim ((adds (element k v)).0 has) [
      | inl old ↦ old
      | inr q ↦ absurd (other (ap (λ (x : Element). x.key) q))
    ],
    λ old. (adds (element k v)).1 (inl old),
  ),
)

Replaces-Updates :
    (elt : Element) (before after : Element → Type 0)
    → Replaces elt before after
    → Updates elt before after
Replaces-Updates elt before after replaces = (
  (replaces elt).1 (inr refl),
  λ k v other. (
    λ has. elim ((replaces (element k v)).0 has) [
      | inl (old, _) ↦ old
      | inr q ↦ absurd (other (ap (λ (x : Element). x.key) q))
    ],
    λ old. (replaces (element k v)).1 (inl (old, other)),
  ),
)

module _ (elt : Element) (s : Store) (Live : ℕ → ℕ → Type 0) (shape : Shape s.memory Live)
    (fuel header : ℕ) (live : Live top_level header)
    (zero_key : get_key_at_rank (s.memory header) 0 ≡ 0) (high : elt.key < max_sentinel)
    (enough : elt.key < fuel) (deep : top_level ≤ fuel) where
  -- The new value for the key of the element, and the values of the old list for the others.
  abbrev pub Answers : Store → Type 0
  Answers t =
      (value fuel t.memory header elt.key ≡ done elt.value)
      × ((k : ℕ)
          → k ≢ elt.key
          → k < max_sentinel
          → k < fuel
          → value fuel t.memory header k ≡ value fuel s.memory header k)

  Updates-Answers :
      (t : Store) (Live' : ℕ → ℕ → Type 0)
      → Shape t.memory Live'
      → Live' top_level header
      → Upper s.memory Live t.memory
      → Updates elt (Contains s.memory Live) (Contains t.memory Live')
      → Answers t
  Updates-Answers t Live' shape' live' upper (new, others) =
      let zero_key' = subst (λ n. get_key_at_rank n 0 ≡ 0) (sym (upper 3 header live)) zero_key in
      (
        value-Maps t.memory Live' shape' fuel header elt.key live' zero_key' high enough deep
            elt.value ((Maps-Contains t.memory Live' elt.key elt.value).1 new),
        λ k other high' enough'.
            same_value s.memory t.memory Live Live' fuel header k shape shape' live live' zero_key
              zero_key' high' enough' deep (λ v. others k v other),
      )

  -- On a well-formed list, from the header of the top level, with more fuel than the key and at least
  -- four, an unused address for a new node, and at least two and less than 2^31 keys to a node: an
  -- insertion of an element, promoted to no level, whose key is neither sentinel, ends and returns
  -- true, and then `value` returns the element's value for its key, and for every other key below the
  -- maximal sentinel and the fuel what it returned before.
  pub value-insert_unpromoted :
      (max_keys spare : ℕ) (fresh : ℕ → Element)
      → ((level a : ℕ) → Live level a → a ≢ spare)
      → 2 ≤ max_keys
      → max_keys < 2147483648
      → 0 < elt.key
      → (t : Store) × (insert_unpromoted max_keys spare fresh elt fuel header s ≡ done (true, t))
        × Answers t
  value-insert_unpromoted max_keys spare fresh unused two small pos =
      let (found, run, iff) =
        exists-Holds s.memory Live shape fuel header elt.key live zero_key high enough in
      elim (Bool-cases found) [
        | inl c ↦
            let (old, maps) = iff.0 c in
            let (t, ends, (shape', replaces, chained, upper)) =
              insert_unpromoted-Replaced max_keys spare fresh elt s Live shape fuel header old live
                zero_key pos high enough deep maps in
            (
              t,
              ends,
              Updates-Answers t Live shape' live upper
                  (Replaces-Updates elt (Contains s.memory Live) (Contains t.memory Live) replaces),
            )
        | inr c ↦
            let absent : Holds s.memory Live shape elt.key → ⊥ = λ h. let e = iff.1 h in cc in
            let (t, ends, added, chained) =
              insert_unpromoted-Added max_keys spare fresh elt s Live shape unused two small absent
                fuel header live zero_key pos high enough in
            (
              t,
              ends,
              elim added [
                | inl (shape', adds, upper) ↦
                    Updates-Answers t Live shape' live upper
                      (Adds-Updates elt (Contains s.memory Live) (Contains t.memory Live) adds)
                | inr (shape', adds, upper) ↦
                    Updates-Answers t (And Live spare) shape' (inl live) upper (
                      Adds-Updates elt (Contains s.memory Live) (Contains t.memory (And Live spare))
                        adds)
              ],
            )
      ]
