-- ===== src/Silo/Snapshot.antt =====
-- A validation that succeeds saw one state: what it read and what it writes are as they were at the
-- moment when it had all its locks (silo.cpp).
use dbx1000_bskiplist.Base.{
  ℕ, ◌≡◌, ◌<◌, ◌≤◌, List, [], ◌∷◌, ◌⊎◌, Bool, true, false, arith, inl, inr, some, sym, subst, ap,
  ℕ_discrete, Bool-cases, some_inj, ◌&&◌, ltb,
}
use mathlib.Core.List.{Memᴰ}
use dbx1000_bskiplist.Silo.{
  lock_bit, locked, tid_of, Words, Access, Txn, Phase, pre_check, acquire, swap, check, give_back,
  validate_reads, validate_writes, install, release_next, abandon, committed, aborted, next_tid,
  step, row_validate,
}
use dbx1000_bskiplist.Silo.System.{
  System, Steps, runs, here, also, Inv, begins, begins-Inv, Steps-Inv, Steps-rises, set_phase,
  set_phase_here, set_phase_other,
}
use dbx1000_bskiplist.Silo.Phases.{Local}
use mathlib.Core.List.Memᴰ

-- What is known after the last lock: `words` are the words of that moment.
abbrev pub Validated : Words → List Access → Phase → Type 0
Validated words reads (validate_reads todo) =
    (a : Access) → Memᴰ a reads → Memᴰ a todo ⊎ (tid_of (words a.row) ≤ a.tid)
Validated words reads (validate_writes todo) =
    (a : Access) → Memᴰ a reads → tid_of (words a.row) ≤ a.tid
Validated words reads (install tid todo) =
    (a : Access) → Memᴰ a reads → tid_of (words a.row) ≤ a.tid
Validated words reads (release_next tid a todo) =
    (a : Access) → Memᴰ a reads → tid_of (words a.row) ≤ a.tid
Validated words reads committed = (a : Access) → Memᴰ a reads → tid_of (words a.row) ≤ a.tid
Validated words reads (abandon held) = Unit {0}
Validated words reads aborted = Unit {0}
Validated words reads other = ⊥

validate_eq : (v tid : ℕ) → row_validate v tid false ≡ true → tid ≡ tid_of v
validate_eq v tid c = ground arith

module _ (pre_abort no_wait : Bool) (t : Txn) (early : Words) where
  -- A step of the validation itself.
  step-Validated :
      (p q : Phase) (words after : Words)
      → ((row : ℕ) → tid_of (early row) ≤ tid_of (words row))
      → Validated early t.reads p
      → step pre_abort no_wait t p words ≡ some (q, after)
      → Validated early t.reads q
  unfolding step
  step-Validated (validate_reads []) q words after rises v run =
      subst (Validated early t.reads) (ap (λ (x : Phase × Words). x.0) (some_inj run))
        (λ a h. elim (v a h) [ inl none_left ↦ absurd (Memᴰ.not-nil none_left) | inr le ↦ le ])
  step-Validated (validate_reads (a ∷ todo)) q words after rises v run =
      elim (Bool-cases (row_validate (words a.row) a.tid false)) [
        | inl c ↦
            let run' = rw c at run in
            subst (Validated early t.reads) (ap (λ (x : Phase × Words). x.0) (some_inj run'))
              (λ b h. elim (v b h) [
                | inr le ↦ inr le
                | inl m ↦ elim (Memᴰ.cases_cons m) [
                  | inr m' ↦ inl m'
                  | inl e ↦ inr (
                      subst (λ (x : Access). tid_of (early x.row) ≤ x.tid) (sym e)
                        (omega (arith, rises a.row, validate_eq (words a.row) a.tid c)))
                ]
              ])
        | inr c ↦
            let run' = rw c at run in
            subst (Validated early t.reads) (ap (λ (x : Phase × Words). x.0) (some_inj run')) tt
      ]
  step-Validated (validate_writes []) q words after rises v run =
      subst (Validated early t.reads) (ap (λ (x : Phase × Words). x.0) (some_inj run)) v
  step-Validated (validate_writes (a ∷ todo)) q words after rises v run =
      elim (Bool-cases (row_validate (words a.row) a.tid true)) [
        | inl c ↦
            let run' = rw c at run in
            subst (Validated early t.reads) (ap (λ (x : Phase × Words). x.0) (some_inj run')) v
        | inr c ↦
            let run' = rw c at run in
            subst (Validated early t.reads) (ap (λ (x : Phase × Words). x.0) (some_inj run')) tt
      ]
  step-Validated (install tid []) q words after rises v run =
      subst (Validated early t.reads) (ap (λ (x : Phase × Words). x.0) (some_inj run)) v
  step-Validated (install tid (a ∷ todo)) q words after rises v run =
      elim (Bool-cases (ltb (tid_of (words a.row)) tid && locked (words a.row))) [
        | inl c ↦
            let run' = rw c at run in
            subst (Validated early t.reads) (ap (λ (x : Phase × Words). x.0) (some_inj run')) v
        | inr c ↦ let run' = rw c at run in cc
      ]
  step-Validated (release_next tid a todo) q words after rises v run =
      elim (Bool-cases (locked (words a.row))) [
        | inl c ↦
            let run' = rw c at run in
            subst (Validated early t.reads) (ap (λ (x : Phase × Words). x.0) (some_inj run')) v
        | inr c ↦ let run' = rw c at run in cc
      ]
  step-Validated (abandon []) q words after rises v run =
      subst (Validated early t.reads) (ap (λ (x : Phase × Words). x.0) (some_inj run)) tt
  step-Validated (abandon (a ∷ held)) q words after rises v run =
      elim (Bool-cases (locked (words a.row))) [
        | inl c ↦
            let run' = rw c at run in
            subst (Validated early t.reads) (ap (λ (x : Phase × Words). x.0) (some_inj run')) tt
        | inr c ↦ let run' = rw c at run in cc
      ]
  step-Validated committed q words after rises v run =
      subst (Validated early t.reads) (ap (λ (x : Phase × Words). x.0) (some_inj run)) v
  step-Validated aborted q words after rises v run =
      subst (Validated early t.reads) (ap (λ (x : Phase × Words). x.0) (some_inj run)) tt
  step-Validated (pre_check todo) q words after rises v run = absurd v
  step-Validated (acquire todo held) q words after rises v run = absurd v
  step-Validated (swap w a todo held) q words after rises v run = absurd v
  step-Validated (check a todo held) q words after rises v run = absurd v
  step-Validated (give_back held) q words after rises v run = absurd v

module _ (pre_abort no_wait : Bool) (txns : ℕ → Txn) (fits : (i : ℕ) → next_tid (txns i) < lock_bit)
    (i : ℕ) where
  Steps-Validated :
      {m s : System}
      → Inv pre_abort no_wait txns m
      → Validated m.words (txns i).reads (m.phases i)
      → Steps pre_abort no_wait txns m s
      → Validated m.words (txns i).reads (s.phases i)
  Steps-Validated v first here = first
  Steps-Validated {m} v first (also {t = s} steps (runs j p after run)) = elim (ℕ_discrete i j) [
    | no d ↦
        subst (Validated m.words (txns i).reads) (sym (set_phase_other s.phases j i p d))
          (Steps-Validated v first steps)
    | yes e ↦
        let run' =
          subst (λ k. step pre_abort no_wait (txns k) (s.phases k) s.words ≡ some (p, after))
            (sym e) run in
        let before = Steps-Validated v first steps in
        let next =
          step-Validated pre_abort no_wait (txns i) m.words (s.phases i) p s.words after
            (Steps-rises pre_abort no_wait txns fits v steps) before run' in
        subst (λ k. Validated m.words (txns i).reads (set_phase s.phases j p k)) (sym e)
          (subst (Validated m.words (txns i).reads) (sym (set_phase_here s.phases j p)) next)
  ]

  -- Where no new id reaches the lock bit, whatever the other validations do: if each row of the read
  -- set had its id in some earlier state, where it was read, and the transaction commits, then in the
  -- state in which it had locked its write set, every row of both sets had the id with which the
  -- transaction read it, and those of the write set were locked.
  pub serial_point :
      (words : Words) (m s : System)
      → Steps pre_abort no_wait txns (begins pre_abort no_wait txns words) m
      → ((a : Access)
          → Memᴰ a (txns i).reads
          → (r : System) × Steps pre_abort no_wait txns (begins pre_abort no_wait txns words) r
            × Steps pre_abort no_wait txns r m
            × (tid_of (r.words a.row) ≡ a.tid))
      → m.phases i ≡ validate_reads (txns i).reads
      → Steps pre_abort no_wait txns m s
      → s.phases i ≡ committed
      → ((a : Access) → Memᴰ a (txns i).reads → tid_of (m.words a.row) ≡ a.tid)
        × ((a : Access)
            → Memᴰ a (txns i).writes
            → (tid_of (m.words a.row) ≡ a.tid) × (locked (m.words a.row) ≡ true))
  serial_point words m s to_m readings at_m to_s at_s =
      let start = begins-Inv pre_abort no_wait txns fits words in
      let v = Steps-Inv pre_abort no_wait txns fits start to_m in
      let first : Validated m.words (txns i).reads (m.phases i) =
        subst (Validated m.words (txns i).reads) (sym at_m) (λ a h. inl h) in
      let last = subst (Validated m.words (txns i).reads) at_s (Steps-Validated v first to_s) in
      let l = subst (Local (txns i) m.words) at_m (v.locals i) in
      (
        λ a h.
            let (r, to_r, onward, saw) = readings a h in
            let before = Steps-Inv pre_abort no_wait txns fits start to_r in
            let more = Steps-rises pre_abort no_wait txns fits before onward a.row in
            omega (arith, last a h),
        λ a h. (l.knows a h, l.all_locked a h),
      )
