-- ===== src/Silo/Keeps.antt =====
-- Each step of a validation succeeds, and keeps what the validation knows.
use dbx1000_bskiplist.Base.{
  ℕ, ◌≡◌, ◌≢◌, ◌<◌, List, [], ◌∷◌, ◌++◌, Bool, true, false, ◌==◌, refl, arith, inl, inr, some, sym,
  subst, ap, ◌∙◌, Bool-cases, ==_iff,
}
use mathlib.Core.List.{Memᴰ, append_assoc, append-nil}
use mathlib.Core.List.Memᴰ
use dbx1000_bskiplist.Silo.{
  lock_bit, locked, tid_of, with_lock, Words, put_word, Access, Txn, Phase, pre_check, acquire,
  swap, check, validate_reads, abandon, next_tid, start, busy, step,
}
use dbx1000_bskiplist.Silo.Words.{put_word_here, with_lock_lem}
use dbx1000_bskiplist.Silo.Phases.{
  holds, Local, Distinct, Distinct-append, AllLocked, Unchanged, Unchanged-same, Knows,
}
use dbx1000_bskiplist.Silo.Steps.{Moves, stays, takes, put_word-SameOn}

module _ (pre_abort no_wait : Bool) (t : Txn) (fits : next_tid t < lock_bit) (words : Words) where
  abbrev pub Stepped : Phase → Type 0
  Stepped p =
      (p' : Phase) × (words' : Words) × (step pre_abort no_wait t p words ≡ some (p', words'))
      × Local t words' p'
      × Moves t p p' words words'

  pub nothing : (p : Phase) → holds t p ≡ [] → Knows t words p → Local t words p
  nothing p e k = record {
    all_locked = λ a h. absurd (Memᴰ.not-nil (subst (Memᴰ a) e h));
    distinct = subst Distinct (sym e) tt;
    knows = k;
  }

  pub begin : Local t words (start pre_abort no_wait t)
  begin = elim (Bool-cases pre_abort) [
    | inl c ↦ rw c (nothing (pre_check (t.writes ++ t.reads)) refl tt)
    | inr c ↦ rw c (nothing (acquire t.writes []) refl (refl, λ a h. absurd (Memᴰ.not-nil h)))
  ]

  pub begin_holds : holds t (start pre_abort no_wait t) ≡ []
  begin_holds = elim (Bool-cases pre_abort) [ inl c ↦ rw c refl | inr c ↦ rw c refl ]

  pub pre_check-Stepped :
      (todo : List Access) → Local t words (pre_check todo) → Stepped (pre_check todo)
  unfolding step
  pre_check-Stepped [] v = (
    acquire t.writes [],
    words,
    refl,
    nothing (acquire t.writes []) refl (refl, λ a h. absurd (Memᴰ.not-nil h)),
    stays t (pre_check []) (acquire t.writes []) words (λ a h. h),
  )
  pre_check-Stepped (a ∷ todo) v = elim (Bool-cases (tid_of (words a.row) == a.tid)) [
    | inl c ↦ (
      pre_check todo,
      words,
      rw c refl,
      nothing (pre_check todo) refl tt,
      stays t (pre_check (a ∷ todo)) (pre_check todo) words (λ a h. h),
    )
    | inr c ↦ (
      abandon [],
      words,
      rw c refl,
      nothing (abandon []) refl tt,
      stays t (pre_check (a ∷ todo)) (abandon []) words (λ a h. h),
    )
  ]

  -- A row that cannot be locked: the locks are given back, or the row is tried again.
  busy-Local :
      (a : Access) (todo held : List Access)
      → AllLocked words held
      → Distinct held
      → t.writes ≡ held ++ a ∷ todo
      → Unchanged words held
      → Local t words (busy pre_abort no_wait t a todo held)
        × (holds t (busy pre_abort no_wait t a todo held) ≡ held)
  busy-Local a todo held all apart order same = elim (Bool-cases no_wait) [
    | inl c ↦ rw c (record { all_locked = all; distinct = apart; knows = tt }, refl)
    | inr c ↦ rw c (record { all_locked = all; distinct = apart; knows = (order, same) }, refl)
  ]

  pub acquire-Stepped :
      (todo held : List Access) → Local t words (acquire todo held) → Stepped (acquire todo held)
  unfolding step
  acquire-Stepped [] held v =
      let all : t.writes ≡ held = v.knows.0 ∙ append-nil held in
      (
        validate_reads t.reads,
        words,
        refl,
        record {
          all_locked = subst (AllLocked words) (sym all) v.all_locked;
          distinct = subst Distinct (sym all) v.distinct;
          knows = subst (Unchanged words) (sym all) v.knows.1;
        },
        stays t (acquire [] held) (validate_reads t.reads) words (λ a h. subst (Memᴰ a) all h),
      )
  acquire-Stepped (a ∷ todo) held v = elim (Bool-cases (locked (words a.row))) [
    | inl c ↦
        let (l, e) = busy-Local a todo held v.all_locked v.distinct v.knows.0 v.knows.1 in
        (
          busy pre_abort no_wait t a todo held,
          words,
          rw c refl,
          l,
          stays t (acquire (a ∷ todo) held) (busy pre_abort no_wait t a todo held) words
              (λ b h. subst (Memᴰ b) e h),
        )
    | inr c ↦ (
      swap (words a.row) a todo held,
      words,
      rw c refl,
      record {
        all_locked = v.all_locked;
        distinct = v.distinct;
        knows = (v.knows.0, v.knows.1, ground arith);
      },
      stays t (acquire (a ∷ todo) held) (swap (words a.row) a todo held) words (λ b h. h),
    )
  ]

  pub swap-Stepped :
      (v : ℕ) (a : Access) (todo held : List Access)
      → Local t words (swap v a todo held)
      → Stepped (swap v a todo held)
  unfolding step
  swap-Stepped w a todo held v = elim (Bool-cases (words a.row == w)) [
    | inr c ↦
        let (l, e) = busy-Local a todo held v.all_locked v.distinct v.knows.0 v.knows.1 in
        (
          busy pre_abort no_wait t a todo held,
          words,
          rw c refl,
          l,
          stays t (swap w a todo held) (busy pre_abort no_wait t a todo held) words
              (λ b h. subst (Memᴰ b) e h),
        )
    | inl c ↦
        let same = (==_iff (words a.row) w).0 c in
        let small : words a.row < lock_bit = omega (arith, v.knows.2) in
        let free : locked (words a.row) ≡ false = ground arith in
        let new = put_word words a.row (with_lock (words a.row)) in
        let apart : (b : Access) → Memᴰ b held → b.row ≢ a.row = λ b h q.
          let h' = v.all_locked b h in
          let f = subst (λ r. locked (words r) ≡ false) (sym q) free in cc in
        let others = put_word-SameOn words a.row (with_lock (words a.row)) held apart in
        (
          check a todo held,
          new,
          rw c (ap (λ x. some (check a todo held, put_word words a.row (with_lock x))) (sym same)),
          record {
            all_locked = λ b h. elim (Memᴰ.append_cases held h) [
              | inl h' ↦ ap locked (others b h') ∙ v.all_locked b h'
              | inr h' ↦
                  subst (λ x. locked (new x.row) ≡ true) (sym (Memᴰ.eq_of_singleton h'))
                    (ap locked (put_word_here words a.row (with_lock (words a.row)))
                      ∙ (with_lock_lem (words a.row) small).0)
            ];
            distinct = Distinct-append held a v.distinct apart;
            knows = (v.knows.0, Unchanged-same t words new held others v.knows.1);
          },
          takes t (swap w a todo held) (check a todo held) words a free (λ b h.
              elim (Memᴰ.append_cases held h) [
                | inl h' ↦ inl h'
                | inr h' ↦ inr (Memᴰ.eq_of_singleton h')
              ]),
        )
  ]

  pub check-Stepped :
      (a : Access) (todo held : List Access)
      → Local t words (check a todo held)
      → Stepped (check a todo held)
  unfolding step
  check-Stepped a todo held v = elim (Bool-cases (tid_of (words a.row) == a.tid)) [
    | inl c ↦ (
      acquire todo (held ++ a ∷ []),
      words,
      rw c refl,
      record {
        all_locked = v.all_locked;
        distinct = v.distinct;
        knows = (
          v.knows.0 ∙ sym (append_assoc held (a ∷ []) todo),
          λ b h. elim (Memᴰ.append_cases held h) [
            | inl h' ↦ v.knows.1 b h'
            | inr h' ↦
                subst (λ (x : Access). tid_of (words x.row) ≡ x.tid) (sym (Memᴰ.eq_of_singleton h'))
                  ((==_iff _ a.tid).0 c)
          ],
        );
      },
      stays t (check a todo held) (acquire todo (held ++ a ∷ [])) words (λ b h. h),
    )
    | inr c ↦ (
      abandon (held ++ a ∷ []),
      words,
      rw c refl,
      record { all_locked = v.all_locked; distinct = v.distinct; knows = tt },
      stays t (check a todo held) (abandon (held ++ a ∷ [])) words (λ b h. h),
    )
  ]
