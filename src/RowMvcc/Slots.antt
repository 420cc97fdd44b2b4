-- ===== src/RowMvcc/Slots.antt =====
-- The pending requests of a row, in the slots of their array (row_mvcc.cpp).
use dbx1000_bskiplist.Base.{
  bind-eq-some, some_inj, Option-cases, subst, ℕ, ◌≡◌, ◌≢◌, ◌<◌, ◌≤◌, true, false, ◌&&◌, some, none,
  [], ◌∷◌, ◌++◌, inl, inr, ◌⊎◌, arith, ltb, refl, sym, Bool-cases, Option-cases,
}
use dbx1000_bskiplist.RowTs.{r_req, p_req, uint64_max}
use dbx1000_bskiplist.RowMvcc.{
  ReqEntry, Slots, put_free, free_slots, buffer_req, next_prewrite, is_prewrite,
}

-- A read or a prewrite after a timestamp.
abbrev pub Waits : ℕ → ReqEntry → Type 0
Waits low q = (low < q.ts) × (q.ts < uint64_max) × ((q.type ≡ r_req) ⊎ (q.type ≡ p_req))

abbrev pub Pending : ℕ → Slots → Type 0
Pending low [] = Unit {0}
Pending low (none ∷ slots) = Pending low slots
Pending low (some q ∷ slots) = Waits low q × Pending low slots

-- No request has the timestamp.
abbrev pub Absent : ℕ → Slots → Type 0
Absent ts [] = Unit {0}
Absent ts (none ∷ slots) = Absent ts slots
Absent ts (some q ∷ slots) = (q.ts ≢ ts) × Absent ts slots

abbrev pub Distinct : Slots → Type 0
Distinct [] = Unit {0}
Distinct (none ∷ slots) = Distinct slots
Distinct (some q ∷ slots) = Absent q.ts slots × Distinct slots

abbrev pub Empty : Slots → Type 0
Empty [] = Unit {0}
Empty (none ∷ slots) = Empty slots
Empty (some q ∷ slots) = ⊥

abbrev pub SomeSlots : Slots → Type 0
SomeSlots [] = ⊥
SomeSlots (slot ∷ slots) = Unit {0}

-- The timestamp is a prewrite's, and no prewrite has a smaller one.
abbrev pub Has : ℕ → Slots → Type 0
Has ts [] = ⊥
Has ts (none ∷ slots) = Has ts slots
Has ts (some q ∷ slots) = ((q.type ≡ p_req) × (q.ts ≡ ts)) ⊎ Has ts slots

abbrev pub AtMost : ℕ → Slots → Type 0
AtMost ts [] = Unit {0}
AtMost ts (none ∷ slots) = AtMost ts slots
AtMost ts (some q ∷ slots) = (q.type ≡ p_req → ts ≤ q.ts) × AtMost ts slots

pub Empty-Pending : (low : ℕ) (slots : Slots) → Empty slots → Pending low slots × Distinct slots
Empty-Pending low [] e = (tt, tt)
Empty-Pending low (none ∷ slots) e = Empty-Pending low slots e
Empty-Pending low (some q ∷ slots) e = absurd e

pub Has-Absent : (ts : ℕ) (slots : Slots) → Has ts slots → Absent ts slots → ⊥
Has-Absent ts [] h a = h
Has-Absent ts (none ∷ slots) h a = Has-Absent ts slots h a
Has-Absent ts (some q ∷ slots) (inl (_, same)) (d, a) = d same
Has-Absent ts (some q ∷ slots) (inr h) (d, a) = Has-Absent ts slots h a

AtMost-le : (m n : ℕ) (slots : Slots) → m ≤ n → AtMost n slots → AtMost m slots
AtMost-le m n [] l a = tt
AtMost-le m n (none ∷ slots) l a = AtMost-le m n slots l a
AtMost-le m n (some q ∷ slots) l (first, a) =
    (λ is. let f = first is in omega arith, AtMost-le m n slots l a)

next_prewrite-le : (ts : ℕ) (slots : Slots) (best : ℕ) → next_prewrite ts slots best ≤ best
unfolding next_prewrite
next_prewrite-le ts [] best = omega arith
next_prewrite-le ts (none ∷ slots) best = next_prewrite-le ts slots best
next_prewrite-le ts (some q ∷ slots) best =
    elim (Bool-cases (is_prewrite q.type && ltb ts q.ts && ltb q.ts best)) [
      | inl c ↦
          rw c
            (let less : q.ts < best = ground arith in omega (arith, next_prewrite-le ts slots q.ts))
      | inr c ↦ rw c (next_prewrite-le ts slots best)
    ]

-- The next prewrite is one of the slots, or there is none below the bound.
pub next_prewrite_lem :
    (ts : ℕ) (slots : Slots) (best : ℕ)
    → Pending ts slots
    → ((next_prewrite ts slots best ≡ best) ⊎ Has (next_prewrite ts slots best) slots)
      × AtMost (next_prewrite ts slots best) slots
unfolding next_prewrite
next_prewrite_lem ts [] best v = (inl refl, tt)
next_prewrite_lem ts (none ∷ slots) best v = next_prewrite_lem ts slots best v
next_prewrite_lem ts (some q ∷ slots) best ((low, _, which), v) =
    elim (Bool-cases (is_prewrite q.type && ltb ts q.ts && ltb q.ts best)) [
      | inl c ↦
          let (found, least) = next_prewrite_lem ts slots q.ts v in
          let pre : q.type ≡ p_req = elim which [
            | inl read ↦
                let off : is_prewrite q.type ≡ false = rw read refl in absurd (ground arith)
            | inr pre ↦ pre
          ] in
          let e : next_prewrite ts (some q ∷ slots) best ≡ next_prewrite ts slots q.ts =
            rw c refl in
          subst (λ m. ((m ≡ best) ⊎ Has m (some q ∷ slots)) × AtMost m (some q ∷ slots)) (sym e)
            (
              elim found [ inl here ↦ inr (inl (pre, sym here)) | inr has ↦ inr (inr has) ],
              (λ p. next_prewrite-le ts slots q.ts, least),
            )
      | inr c ↦
          let (found, least) = next_prewrite_lem ts slots best v in
          let e : next_prewrite ts (some q ∷ slots) best ≡ next_prewrite ts slots best =
            rw c refl in
          subst (λ m. ((m ≡ best) ⊎ Has m (some q ∷ slots)) × AtMost m (some q ∷ slots)) (sym e)
            (
              elim found [ inl none_there ↦ inl none_there | inr has ↦ inr (inr has) ],
              (
                λ p.
                    let on : is_prewrite q.type ≡ true = rw p refl in
                    let l = next_prewrite-le ts slots best in ground arith,
                least,
              ),
            )
    ]

-- A request is put into the slots.
abbrev pub PutIn : ReqEntry → Slots → Slots → Type 0
PutIn q slots slots' =
    SomeSlots slots'
    × ((low : ℕ) → Pending low slots → Waits low q → Pending low slots')
    × ((m : ℕ) → Absent m slots → q.ts ≢ m → Absent m slots')
    × (Distinct slots → Absent q.ts slots → Distinct slots')

put_free-PutIn :
    (q : ReqEntry) (slots slots' : Slots) → put_free q slots ≡ some slots' → PutIn q slots slots'
unfolding put_free
put_free-PutIn q [] slots' run = absurd (cc)
put_free-PutIn q (none ∷ slots) slots' run =
    subst (PutIn q (none ∷ slots)) (some_inj run)
      (tt, λ low v w. (w, v), λ m a d. (d, a), λ d a. (a, d))
put_free-PutIn q (some r ∷ slots) slots' run =
    let (rest, run', e) = bind-eq-some (put_free q slots) (λ rest. some (some r ∷ rest)) run in
    let (_, pending, absent, distinct) = put_free-PutIn q slots rest run' in
    subst (PutIn q (some r ∷ slots)) (some_inj e) (
      tt,
      λ low (first, v) w. (first, pending low v w),
      λ m (first, a) d. (first, absent m a d),
      λ (first, d) (other, a). (absent r.ts first (λ x. other (sym x)), distinct d a),
    )

-- More free slots change nothing.
free_more :
    (xs ys : Slots)
    → ((low : ℕ) → Pending low xs → Pending low (xs ++ free_slots ys))
      × ((m : ℕ) → Absent m xs → Absent m (xs ++ free_slots ys))
      × (Distinct xs → Distinct (xs ++ free_slots ys))
unfolding free_slots
free_more [] [] = (λ low v. tt, λ m a. tt, λ d. tt)
free_more [] (y ∷ ys) = free_more [] ys
free_more (none ∷ xs) ys = free_more xs ys
free_more (some q ∷ xs) ys =
    let (pending, absent, distinct) = free_more xs ys in
    (
      λ low (first, v). (first, pending low v),
      λ m (first, a). (first, absent m a),
      λ (first, d). (absent q.ts first, distinct d),
    )

free_room :
    (q : ReqEntry) (xs : Slots) (ys : Slots)
    → (zs : Slots) × (put_free q (xs ++ none ∷ ys) ≡ some zs)
unfolding put_free
free_room q [] ys = (_, refl)
free_room q (none ∷ xs) ys = (_, refl)
free_room q (some r ∷ xs) ys = let (zs, run) = free_room q xs ys in (some r ∷ zs, rw run refl)

buffer_full :
    (q : ReqEntry) (slots slots' : Slots)
    → put_free q slots ≡ none
    → put_free q (slots ++ free_slots slots) ≡ some slots'
    → buffer_req q slots ≡ some slots'
unfolding buffer_req
buffer_full q slots slots' full run = rw full run

-- buffer_req finds a slot.
pub buffer_req-PutIn :
    (q : ReqEntry) (slots : Slots)
    → SomeSlots slots
    → (slots' : Slots) × (buffer_req q slots ≡ some slots') × PutIn q slots slots'
unfolding buffer_req free_slots
buffer_req-PutIn q [] there = absurd there
buffer_req-PutIn q (slot ∷ slots) there = elim (Option-cases (put_free q (slot ∷ slots))) [
  | inr (slots', run) ↦ (slots', rw run refl, put_free-PutIn q (slot ∷ slots) slots' run)
  | inl full ↦
      let (slots', run) = free_room q (slot ∷ slots) (free_slots slots) in
      let (s, pending, absent, distinct) =
        put_free-PutIn q ((slot ∷ slots) ++ free_slots (slot ∷ slots)) slots' run in
      let (pending', absent', distinct') = free_more (slot ∷ slots) (slot ∷ slots) in
      (
        slots',
        buffer_full q (slot ∷ slots) slots' full run,
        (
          s,
          λ low v w. pending low (pending' low v) w,
          λ m a d. absent m (absent' m a) d,
          λ d a. distinct (distinct' d) (absent' q.ts a),
        ),
      )
]
