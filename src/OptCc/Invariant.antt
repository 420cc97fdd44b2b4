-- ===== src/OptCc/Invariant.antt =====
-- What holds between the critical sections of central validation, and that each keeps it (occ.cpp).
use dbx1000_bskiplist.Base.{
  ℕ, List, [], ◌∷◌, if◌then◌else◌, ◌==◌, ◌≡◌, ◌≢◌, ◌↔◌, arith, All, true, false, Bool-cases, inl,
  inr, refl, Bool, some, ◌+◌, All-map, ◌∙◌,
}
use mathlib.Core.List.{Memᴰ}
use dbx1000_bskiplist.OptCc.{
  OptCc, SetEnt, Validation, enter, leave, remove_active, readonly, check, last_tn_is,
}
use dbx1000_bskiplist.OptCc.Validity.{Falling, IsValid, check-IsValid}

-- The validations that have entered and not left, the latest first.
abbrev pub Running : Type 0
Running = List Validation

-- The set that a validation has in `active`.
abbrev pub entry : Validation → SetEnt
entry v = record { tn = 0; txn = v.txn; rows = v.wset }

abbrev pub entries : Running → List SetEnt
entries [] = []
entries (v ∷ vs) = let rest = entries vs in if readonly v.wset then rest else entry v ∷ rest

-- The running validations less the one that leaves.
pub data Without (v : Validation) : Running → Running → Type 0 where
  here : (vs : Running) → Without v (v ∷ vs) vs
  there :
      (w : Validation) (vs ws : Running)
      → w.txn ≢ v.txn
      → Without v vs ws
      → Without v (w ∷ vs) (w ∷ ws)

-- The history ends with the number of the last commit.
abbrev pub Numbered : OptCc → Type 0
Numbered s = Falling (s.tnc + 1) s.history × (last_tn_is s.tnc s.history ≡ true)

-- Each validation saw the set of each one that entered before and still runs.
abbrev pub Saw : Running → Type 0
Saw [] = Unit
Saw (v ∷ vs) = All (λ w. readonly w.wset ≡ false → Memᴰ (entry w) v.finish_active) vs × Saw vs

pub record Inv (s : OptCc) (vs : Running) : Type 0 where
  pub numbered : Numbered s
  pub active_exact : s.active ≡ entries vs
  pub saw : Saw vs
  pub snapshots : All (λ v. Falling (v.finish_tn + 1) v.his) vs

Mem-entries : (vs : Running) → All (λ w. readonly w.wset ≡ false → Memᴰ (entry w) (entries vs)) vs
Mem-entries [] = tt
Mem-entries (v ∷ vs) = elim (Bool-cases (readonly v.wset)) [
  | inl c ↦ (λ k. cc, All-map _ _ (λ w f k. rw c (f k)) vs (Mem-entries vs))
  | inr c ↦ (
    λ k. rw c (Memᴰ.head refl),
    All-map _ _ (λ w f k. rw c (Memᴰ.tail (f k))) vs (Mem-entries vs),
  )
]

pub entered-Inv :
    (s : OptCc) (vs : Running) (txn start_tn : ℕ) (rset wset : List ℕ)
    → Inv s vs
    → Inv (enter txn start_tn rset wset s).0 ((enter txn start_tn rset wset s).1 ∷ vs)
entered-Inv s vs txn start_tn rset wset v = elim (Bool-cases (readonly wset)) [
  | inl c ↦ rw c (record {
    numbered = v.numbered;
    active_exact = rw c v.active_exact;
    saw = (rw v.active_exact (Mem-entries vs), v.saw);
    snapshots = (v.numbered.0, v.snapshots);
  })
  | inr c ↦ rw c (record {
    numbered = v.numbered;
    active_exact = rw (c, v.active_exact) refl;
    saw = (rw v.active_exact (Mem-entries vs), v.saw);
    snapshots = (v.numbered.0, v.snapshots);
  })
]

remove_active-entries :
    (v : Validation) (vs ws : Running)
    → Without v vs ws
    → readonly v.wset ≡ false
    → remove_active v.txn (entries vs) ≡ some (entry v, entries ws)
unfolding remove_active
remove_active-entries v vs ws (here _) w = rw w (ground arith)
remove_active-entries v vs ws (there u us xs d rest) w = elim (Bool-cases (readonly u.wset)) [
  | inl c ↦ rw c (remove_active-entries v us xs rest w)
  | inr c ↦
      let other : (u.txn == v.txn) ≡ false = ground arith in
      rw (c, other, remove_active-entries v us xs rest w) refl
]

entries-readonly :
    (v : Validation) (vs ws : Running)
    → Without v vs ws
    → readonly v.wset ≡ true
    → entries vs ≡ entries ws
entries-readonly v vs ws (here _) w = rw w refl
entries-readonly v vs ws (there u us xs d rest) w = rw (entries-readonly v us xs rest w) refl

module _ (P : Validation → Type 0) where
  All-Without : (v : Validation) (vs ws : Running) → Without v vs ws → All P vs → All P ws × P v
  All-Without v vs ws (here _) a = (a.1, a.0)
  All-Without v vs ws (there u us xs d rest) a =
      let (rest_all, p) = All-Without v us xs rest a.1 in ((a.0, rest_all), p)

Saw-Without : (v : Validation) (vs ws : Running) → Without v vs ws → Saw vs → Saw ws
Saw-Without v vs ws (here _) a = a.1
Saw-Without v vs ws (there u us xs d rest) a =
    ((All-Without _ v us xs rest a.0).0, Saw-Without v us xs rest a.1)

pub leave-Inv :
    (s : OptCc) (vs ws : Running) (v : Validation)
    → Inv s vs
    → Without v vs ws
    → (t : OptCc) × (committed : Bool) × (leave v s ≡ some (t, committed))
      × Inv t ws
      × ((committed ≡ true) ↔ IsValid v)
unfolding leave
leave-Inv s vs ws v i out =
    let (snapshots, own) = All-Without _ v vs ws out i.snapshots in
    let saw = Saw-Without v vs ws out i.saw in
    let valid = check-IsValid v (v.finish_tn + 1) own in
    elim (Bool-cases (readonly v.wset)) [
      | inl c ↦ (
        s,
        check v,
        rw c refl,
        record {
          numbered = i.numbered;
          active_exact = i.active_exact ∙ entries-readonly v vs ws out c;
          saw = saw;
          snapshots = snapshots;
        },
        valid,
      )
      | inr c ↦
          let gone = remove_active-entries v vs ws out c in
          elim (Bool-cases (check v)) [
            | inl d ↦ (
              record {
                history = record { tn = s.tnc + 1; txn = v.txn; rows = v.wset } ∷ s.history;
                active = entries ws;
                tnc = s.tnc + 1;
              },
              true,
              rw (c, d, i.active_exact, gone, i.numbered.1) refl,
              record {
                numbered = ((omega arith, i.numbered.0), ground arith);
                active_exact = refl;
                saw = saw;
                snapshots = snapshots;
              },
              (λ k. valid.0 d, λ k. refl),
            )
            | inr d ↦ (
              record s { active = entries ws },
              false,
              rw (c, d, i.active_exact, gone) refl,
              record {
                numbered = i.numbered;
                active_exact = refl;
                saw = saw;
                snapshots = snapshots;
              },
              (λ k. cc, λ k. let h = valid.1 k in cc),
            )
          ]
    ]
