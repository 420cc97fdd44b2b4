-- ===== src/Silo/System.antt =====
-- Validations in any order: their locks exclude one another, and ids rise (silo.cpp).
use dbx1000_bskiplist.Base.{
  ℕ, ◌≡◌, ◌≢◌, ◌<◌, ◌≤◌, Bool, true, false, refl, arith, inl, inr, some, sym, subst, ◌∙◌,
  ℕ_discrete, ◌==◌, some_inj, if◌then◌else◌,
}
use mathlib.Core.List.{Memᴰ}
use mathlib.Core.List.Memᴰ
use dbx1000_bskiplist.Silo.{
  lock_bit, locked, tid_of, Words, Access, Txn, Phase, next_tid, start, step,
}
use dbx1000_bskiplist.Silo.Phases.{holds, Local, Local-same}
use dbx1000_bskiplist.Silo.Steps.{Moves}
use dbx1000_bskiplist.Silo.Keeps.{begin, begin_holds}
use dbx1000_bskiplist.Silo.Commits.{step-Stepped}

-- The words of all rows, and where each validation stands.
pub record System : Type 0 where
  pub words : Words
  pub phases : ℕ → Phase

abbrev pub set_phase : (ℕ → Phase) → ℕ → Phase → ℕ → Phase
set_phase phases i p j = if j == i then p else phases j

pub set_phase_here : (phases : ℕ → Phase) (i : ℕ) (p : Phase) → set_phase phases i p i ≡ p
set_phase_here phases i p = let c : (i == i) ≡ true = ground arith in rw c refl

pub set_phase_other :
    (phases : ℕ → Phase) (i j : ℕ) (p : Phase) → j ≢ i → set_phase phases i p j ≡ phases j
set_phase_other phases i j p d = let c : (j == i) ≡ false = ground arith in rw c refl

module _ (pre_abort no_wait : Bool) (txns : ℕ → Txn) where
  pub data Step (s : System) : System → Type 0 where
    runs :
        (i : ℕ) (p : Phase) (words : Words)
        → step pre_abort no_wait (txns i) (s.phases i) s.words ≡ some (p, words)
        → Step s (record { words = words; phases = set_phase s.phases i p })

  pub data Steps (s : System) : System → Type 0 where
    here : Steps s s
    also : {t u : System} → Steps s t → Step t u → Steps s u

  abbrev pub begins : Words → System
  begins words = record { words = words; phases = λ i. start pre_abort no_wait (txns i) }

  pub record Inv (s : System) : Type 0 where
    pub locals : (i : ℕ) → Local (txns i) s.words (s.phases i)
    pub exclusive :
        (i j : ℕ) (a b : Access)
        → Memᴰ a (holds (txns i) (s.phases i))
        → Memᴰ b (holds (txns j) (s.phases j))
        → a.row ≡ b.row
        → i ≡ j

  module _ (fits : (i : ℕ) → next_tid (txns i) < lock_bit) where
    pub begins-Inv : (words : Words) → Inv (begins words)
    begins-Inv words = record {
      locals = λ i. begin pre_abort no_wait (txns i) (fits i) words;
      exclusive = λ i j a b h h' e.
          absurd (
            Memᴰ.not-nil
              (subst (Memᴰ a) (begin_holds pre_abort no_wait (txns i) (fits i) words) h));
    }

    -- What a step of `i` is, as the steps of one validation.
    pub Step-Moves :
        (s : System) (i : ℕ) (p : Phase) (words : Words)
        → Inv s
        → step pre_abort no_wait (txns i) (s.phases i) s.words ≡ some (p, words)
        → Local (txns i) words p × Moves (txns i) (s.phases i) p s.words words
    Step-Moves s i p words v run =
        let (p', words', run', l, m) =
          step-Stepped pre_abort no_wait (txns i) (fits i) s.words (s.phases i) (v.locals i) in
        let e = some_inj (sym run' ∙ run) in
        subst
          (λ (x : Phase × Words).
            Local (txns i) x.1 x.0 × Moves (txns i) (s.phases i) x.0 s.words x.1)
          e (l, m)

    module _ (s : System) (v : Inv s) (i : ℕ) (p : Phase) (words : Words)
        (l : Local (txns i) words p) (m : Moves (txns i) (s.phases i) p s.words words) where
      -- The rows that another validation holds are as before.
      others_same :
          (j : ℕ)
          → j ≢ i
          → (a : Access) → Memᴰ a (holds (txns j) (s.phases j))
          → words a.row ≡ s.words a.row
      others_same j d a h = elim (m.touches a.row) [
        | inl same ↦ same
        | inr taken ↦ elim taken [
          | inl free ↦ let on = (v.locals j).all_locked a h in cc
          | inr (b, mine, e) ↦ absurd (d (v.exclusive j i a b h mine (sym e)))
        ]
      ]

      after : System
      after = record { words = words; phases = set_phase s.phases i p }

      -- A row that a validation holds after the step is not held by another before.
      fresh_or_mine :
          (j : ℕ) (a b : Access)
          → Memᴰ a (holds (txns i) p)
          → j ≢ i
          → Memᴰ b (holds (txns j) (s.phases j))
          → a.row ≡ b.row
          → ⊥
      fresh_or_mine j a b h d h' e = elim (m.gains a h) [
        | inl old ↦ d (sym (v.exclusive i j a b old h' e))
        | inr free ↦
            let on = (v.locals j).all_locked b h' in
            let free' = subst (λ r. locked (s.words r) ≡ false) e free in cc
      ]

      Step-Inv : Inv (record { words = words; phases = set_phase s.phases i p })
      Step-Inv = record {
        locals = λ j. elim (ℕ_discrete j i) [
          | yes e ↦
              subst (λ k. Local (txns k) words (set_phase s.phases i p k)) (sym e)
                (subst (Local (txns i) words) (sym (set_phase_here s.phases i p)) l)
          | no d ↦
              subst (Local (txns j) words) (sym (set_phase_other s.phases i j p d))
                (Local-same (txns j) s.words words (s.phases j) (others_same j d) (v.locals j))
        ];
        exclusive = λ j k a b h h' e. elim (ℕ_discrete j i) [
          | yes q ↦ elim (ℕ_discrete k i) [
            | yes q' ↦ q ∙ sym q'
            | no d' ↦ absurd (fresh_or_mine k a b (mine j a q h) d' (theirs k b d' h') e)
          ]
          | no d ↦ elim (ℕ_discrete k i) [
            | yes q' ↦ absurd (fresh_or_mine j b a (mine k b q' h') d (theirs j a d h) (sym e))
            | no d' ↦ v.exclusive j k a b (theirs j a d h) (theirs k b d' h') e
          ]
        ];
      }
        where
          mine :
              (j : ℕ) (a : Access)
              → j ≡ i
              → Memᴰ a (holds (txns j) (set_phase s.phases i p j))
              → Memᴰ a (holds (txns i) p)
          mine j a q h =
              subst (λ x. Memᴰ a (holds (txns i) x)) (set_phase_here s.phases i p)
                (subst (λ k. Memᴰ a (holds (txns k) (set_phase s.phases i p k))) q h)

          theirs :
              (j : ℕ) (a : Access)
              → j ≢ i
              → Memᴰ a (holds (txns j) (set_phase s.phases i p j))
              → Memᴰ a (holds (txns j) (s.phases j))
          theirs j a d h =
              subst (λ x. Memᴰ a (holds (txns j) x)) (set_phase_other s.phases i j p d) h

    pub Steps-Inv : {s t : System} → Inv s → Steps s t → Inv t
    Steps-Inv v here = v
    Steps-Inv v (also {t} more (runs i p words run)) =
        let before = Steps-Inv v more in
        let (l, m) = Step-Moves t i p words before run in Step-Inv t before i p words l m

    pub Steps-rises :
        {s t : System} → Inv s → Steps s t → (row : ℕ) → tid_of (s.words row) ≤ tid_of (t.words row)
    Steps-rises v here row = omega arith
    Steps-rises v (also {t} more (runs i p words run)) row =
        let (l, m) = Step-Moves t i p words (Steps-Inv v more) run in
        omega (arith, Steps-rises v more row, m.rises row)

    -- Where no new id reaches the lock bit: in every state that the validations reach, in any order,
    -- no two of them hold one row, the rows that one holds are locked, and none fails an assertion of
    -- Row_silo::release or Row_silo::write with its next step.
    pub locks_exclude :
        (words : Words) (s : System)
        → Steps (begins words) s
        → ((i j : ℕ) (a b : Access)
            → Memᴰ a (holds (txns i) (s.phases i))
            → Memᴰ b (holds (txns j) (s.phases j))
            → a.row ≡ b.row
            → (i ≡ j) × (locked (s.words a.row) ≡ true))
          × ((i : ℕ)
              → (p : Phase) × (after : Words) × (step pre_abort no_wait
                    (txns i)
                    (s.phases i)
                    s.words
                  ≡ some (p, after)))
    locks_exclude words s more =
        let v = Steps-Inv (begins-Inv words) more in
        (
          λ i j a b h h' e. (v.exclusive i j a b h h' e, (v.locals i).all_locked a h),
          λ i.
              let (p, after, run, _, _) =
                step-Stepped pre_abort no_wait (txns i) (fits i) s.words (s.phases i)
                  (v.locals i) in
              (p, after, run),
        )
