-- ===== src/Silo/Commits.antt =====
-- The later phases of a validation: its checks, its writes, and what it gives up.
use dbx1000_bskiplist.Base.{
  ℕ, ◌≡◌, ◌<◌, List, [], ◌∷◌, Bool, true, false, ◌&&◌, ltb, refl, arith, inl, inr, sym, subst, ap,
  ◌∙◌, Bool-cases,
}
use mathlib.Core.List.{Memᴰ}
use mathlib.Core.List.Memᴰ
use dbx1000_bskiplist.Silo.{
  lock_bit, locked, tid_of, with_lock, Words, put_word, Access, Txn, Phase, pre_check, acquire,
  swap, check, give_back, validate_reads, validate_writes, install, release_next, abandon,
  committed, aborted, next_tid, start, step, row_validate,
}
use dbx1000_bskiplist.Silo.Words.{put_word_here, with_lock_lem, next_tid-gt}
use dbx1000_bskiplist.Silo.Phases.{holds, Local, Distinct, AllLocked, Unchanged-same}
use dbx1000_bskiplist.Silo.Steps.{Moves, stays, writes, put_word-SameOn, release_first}
use dbx1000_bskiplist.Silo.Keeps.{
  Stepped, nothing, begin, begin_holds, pre_check-Stepped, acquire-Stepped, swap-Stepped,
  check-Stepped,
}

module _ (pre_abort no_wait : Bool) (t : Txn) (fits : next_tid t < lock_bit) (words : Words) where
  abbrev After : Phase → Type 0
  After = Stepped pre_abort no_wait t fits words

  -- The release of the first row, which is locked.
  released :
      (p p' : Phase) (a : Access) (es : List Access)
      → holds t p ≡ a ∷ es
      → holds t p' ≡ es
      → Moves t p p' words (put_word words a.row (tid_of (words a.row)))
  released p p' a es e e' =
      writes t p p' words a (tid_of (words a.row)) (subst (Memᴰ a) (sym e) (Memᴰ.head refl))
        (omega arith) (λ b h. subst (Memᴰ b) (sym e) (Memᴰ.tail (subst (Memᴰ b) e' h)))

  give_back-Stepped : (held : List Access) → Local t words (give_back held) → After (give_back held)
  unfolding step
  give_back-Stepped [] v = (
    start pre_abort no_wait t,
    words,
    refl,
    begin pre_abort no_wait t fits words,
    stays t (give_back []) (start pre_abort no_wait t) words
        (λ a h. subst (Memᴰ a) (begin_holds pre_abort no_wait t fits words) h),
  )
  give_back-Stepped (a ∷ held) v =
      let c = v.all_locked a (Memᴰ.head refl) in
      (
        give_back held,
        put_word words a.row (tid_of (words a.row)),
        rw c refl,
        record {
          all_locked = release_first words a held v.all_locked v.distinct;
          distinct = v.distinct.1;
          knows = tt;
        },
        released (give_back (a ∷ held)) (give_back held) a held refl refl,
      )

  abandon-Stepped : (held : List Access) → Local t words (abandon held) → After (abandon held)
  unfolding step
  abandon-Stepped [] v = (
    aborted,
    words,
    refl,
    nothing pre_abort no_wait t fits words aborted refl tt,
    stays t (abandon []) aborted words (λ a h. h),
  )
  abandon-Stepped (a ∷ held) v =
      let c = v.all_locked a (Memᴰ.head refl) in
      (
        abandon held,
        put_word words a.row (tid_of (words a.row)),
        rw c refl,
        record {
          all_locked = release_first words a held v.all_locked v.distinct;
          distinct = v.distinct.1;
          knows = tt;
        },
        released (abandon (a ∷ held)) (abandon held) a held refl refl,
      )

  -- A failed validation gives up all locks.
  give_up :
      (p : Phase)
      → holds t p ≡ t.writes
      → Local t words p
      → Local t words (abandon t.writes) × Moves t p (abandon t.writes) words words
  give_up p e v = (
    record {
      all_locked = subst (AllLocked words) e v.all_locked;
      distinct = subst Distinct e v.distinct;
      knows = tt;
    },
    stays t p (abandon t.writes) words (λ a h. subst (Memᴰ a) (sym e) h),
  )

  reads-Stepped :
      (todo : List Access) → Local t words (validate_reads todo) → After (validate_reads todo)
  unfolding step
  reads-Stepped [] v = (
    validate_writes t.writes,
    words,
    refl,
    record { all_locked = v.all_locked; distinct = v.distinct; knows = v.knows },
    stays t (validate_reads []) (validate_writes t.writes) words (λ a h. h),
  )
  reads-Stepped (a ∷ todo) v = elim (Bool-cases (row_validate (words a.row) a.tid false)) [
    | inl c ↦ (
      validate_reads todo,
      words,
      rw c refl,
      record { all_locked = v.all_locked; distinct = v.distinct; knows = v.knows },
      stays t (validate_reads (a ∷ todo)) (validate_reads todo) words (λ b h. h),
    )
    | inr c ↦
        let (l, m) = give_up (validate_reads (a ∷ todo)) refl v in
        (abandon t.writes, words, rw c refl, l, m)
  ]

  writes-Stepped :
      (todo : List Access) → Local t words (validate_writes todo) → After (validate_writes todo)
  unfolding step
  writes-Stepped [] v = (
    install (next_tid t) t.writes,
    words,
    refl,
    record {
      all_locked = v.all_locked;
      distinct = v.distinct;
      knows = (v.knows, (next_tid-gt t).2, fits);
    },
    stays t (validate_writes []) (install (next_tid t) t.writes) words (λ a h. h),
  )
  writes-Stepped (a ∷ todo) v = elim (Bool-cases (row_validate (words a.row) a.tid true)) [
    | inl c ↦ (
      validate_writes todo,
      words,
      rw c refl,
      record { all_locked = v.all_locked; distinct = v.distinct; knows = v.knows },
      stays t (validate_writes (a ∷ todo)) (validate_writes todo) words (λ b h. h),
    )
    | inr c ↦
        let (l, m) = give_up (validate_writes (a ∷ todo)) refl v in
        (abandon t.writes, words, rw c refl, l, m)
  ]

  install-Stepped :
      (tid : ℕ) (todo : List Access) → Local t words (install tid todo) → After (install tid todo)
  unfolding step
  install-Stepped tid [] v = (
    committed,
    words,
    refl,
    nothing pre_abort no_wait t fits words committed refl tt,
    stays t (install tid []) committed words (λ a h. h),
  )
  install-Stepped tid (a ∷ todo) v =
      let mine : Memᴰ a (a ∷ todo) = Memᴰ.head refl in
      let here = v.all_locked a mine in
      let less : tid_of (words a.row) < tid = omega (arith, v.knows.0 a mine, v.knows.1 a mine) in
      let (on, same, _) = with_lock_lem tid v.knows.2 in
      let c : (ltb (tid_of (words a.row)) tid && locked (words a.row)) ≡ true =
        rw here (ground arith) in
      let new = put_word words a.row (with_lock tid) in
      let others = put_word-SameOn words a.row (with_lock tid) todo v.distinct.0 in
      (
        release_next tid a todo,
        new,
        rw c refl,
        record {
          all_locked = λ b h. elim (Memᴰ.cases_cons h) [
            | inl e ↦
                subst (λ x. locked (new x.row) ≡ true) (sym e)
                  (ap locked (put_word_here words a.row (with_lock tid)) ∙ on)
            | inr h' ↦ ap locked (others b h') ∙ v.all_locked b (Memᴰ.tail h')
          ];
          distinct = v.distinct;
          knows = (
            Unchanged-same t words new todo others (λ b h. v.knows.0 b (Memᴰ.tail h)),
            (λ b h. v.knows.1 b (Memᴰ.tail h)),
            v.knows.2,
          );
        },
        writes t (install tid (a ∷ todo)) (release_next tid a todo) words a (with_lock tid) mine
            (omega (arith, same)) (λ b h. h),
      )

  release_next-Stepped :
      (tid : ℕ) (a : Access) (todo : List Access)
      → Local t words (release_next tid a todo)
      → After (release_next tid a todo)
  unfolding step
  release_next-Stepped tid a todo v =
      let c = v.all_locked a (Memᴰ.head refl) in
      let others = put_word-SameOn words a.row (tid_of (words a.row)) todo v.distinct.0 in
      (
        install tid todo,
        put_word words a.row (tid_of (words a.row)),
        rw c refl,
        record {
          all_locked = release_first words a todo v.all_locked v.distinct;
          distinct = v.distinct.1;
          knows = (
            Unchanged-same t words (put_word words a.row (tid_of (words a.row))) todo others
                v.knows.0,
            v.knows.1,
            v.knows.2,
          );
        },
        released (release_next tid a todo) (install tid todo) a todo refl refl,
      )

  -- No assertion of release or of write fails.
  pub step-Stepped : (p : Phase) → Local t words p → After p
  unfolding step
  step-Stepped (pre_check todo) v = pre_check-Stepped pre_abort no_wait t fits words todo v
  step-Stepped (acquire todo held) v = acquire-Stepped pre_abort no_wait t fits words todo held v
  step-Stepped (swap w a todo held) v = swap-Stepped pre_abort no_wait t fits words w a todo held v
  step-Stepped (check a todo held) v = check-Stepped pre_abort no_wait t fits words a todo held v
  step-Stepped (give_back held) v = give_back-Stepped held v
  step-Stepped (validate_reads todo) v = reads-Stepped todo v
  step-Stepped (validate_writes todo) v = writes-Stepped todo v
  step-Stepped (install tid todo) v = install-Stepped tid todo v
  step-Stepped (release_next tid a todo) v = release_next-Stepped tid a todo v
  step-Stepped (abandon held) v = abandon-Stepped held v
  step-Stepped committed v =
      (committed, words, refl, v, stays t committed committed words (λ a h. h))
  step-Stepped aborted v = (aborted, words, refl, v, stays t aborted aborted words (λ a h. h))
