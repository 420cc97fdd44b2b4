-- ===== src/RowMvcc/ServeBusy.antt =====
-- The reads that are served while a prewrite is granted (row_mvcc.cpp).

use dbx1000_bskiplist.Base.{
  ℕ, ◌≡◌, ◌<◌, true, false, some, none, List, [], ◌∷◌, inl, inr, arith, ltb, ◌==◌, Bool-cases,
}
use dbx1000_bskiplist.RowMvcc.{ReqEntry, Slots, RowMvcc}
use dbx1000_bskiplist.RowMvcc.Access.{serve, serve_read}
use dbx1000_bskiplist.RowMvcc.Slots.{Waits, Pending, Absent, Distinct, SomeSlots, AtMost}
use dbx1000_bskiplist.RowMvcc.Quiet.{Quiet, Quiet-refl, Quiet-trans, Busy, read-Quiet, read-Busy}
use dbx1000_bskiplist.RowMvcc.ServeStep.{
  serve_nil, serve-none, step_read, step_keep_read, step_keep_prewrite,
}

-- What the loop leaves of the slots.
abbrev pub Left : ℕ → Slots → Slots → Type 0
Left low slots rest =
    Pending low rest
    × (SomeSlots slots → SomeSlots rest)
    × ((m : ℕ) → Absent m slots → Absent m rest)
    × Distinct rest

pub Left-none :
    (low : ℕ) (slots rest : Slots) → Left low slots rest → Left low (none ∷ slots) (none ∷ rest)
Left-none low slots rest (v, n, a, d) = (v, λ x. tt, a, d)

pub Left-gone :
    (low : ℕ) (q : ReqEntry) (slots rest : Slots)
    → Left low slots rest
    → Left low (some q ∷ slots) (none ∷ rest)
Left-gone low q slots rest (v, n, a, d) = (v, λ x. tt, λ m (_, x). a m x, d)

pub Left-some :
    (low : ℕ) (q : ReqEntry) (slots rest : Slots)
    → Waits low q
    → Absent q.ts slots
    → Left low slots rest
    → Left low (some q ∷ slots) (some q ∷ rest)
Left-some low q slots rest w x (v, n, a, d) =
    ((w, v), λ y. tt, λ m (z, y). (z, a m y), (a q.ts x, d))

module _ {D : Type 0} where
  module _ (thread_cnt min_ts fresh : ℕ) where
    abbrev read : ℕ → RowMvcc D → RowMvcc D
    read ts s = serve_read thread_cnt min_ts fresh ts s

    module _ (ts next : ℕ) where
      abbrev pub Result : Slots → RowMvcc D → (Slots → RowMvcc D → Type 0) → Type 0
      Result slots s P =
          (rest : Slots) × (t : RowMvcc D) × (ready : List (ℕ × ℕ)) × (serve thread_cnt min_ts fresh
              ts next slots s
            ≡ some (rest, t, ready))
          × Left next slots rest
          × Quiet s t
          × P rest t

      abbrev pub AtNext : Slots → RowMvcc D → Type 0
      AtNext rest t = Busy t × (t.prewrite_ts ≡ next)

      -- After the prewrite is granted, the other reads before it are served.
      pub serve-Busy :
          (slots : Slots) (s : RowMvcc D)
          → Pending ts slots
          → Distinct slots
          → Absent next slots
          → AtMost next slots
          → Busy s
          → s.prewrite_ts ≡ next
          → Result slots s AtNext
      serve-Busy [] s v d a m b e = (
        [],
        s,
        [],
        serve_nil thread_cnt min_ts fresh ts next s,
        (tt, λ x. x, λ m x. tt, tt),
        Quiet-refl s,
        (b, e),
      )
      serve-Busy (none ∷ slots) s v d a m b e =
          let (rest, t, ready, run, left, quiet, done) = serve-Busy slots s v d a m b e in
          (
            none ∷ rest,
            t,
            ready,
            serve-none thread_cnt min_ts fresh ts next slots rest s t ready run,
            Left-none next slots rest left,
            quiet,
            done,
          )
      serve-Busy (some q ∷ slots) s ((low, high, which), v) (x, d) (other, a) (least, m) b e =
          let later : ltb ts q.ts ≡ true = ground arith in
          let apart : (q.ts == next) ≡ false = ground arith in
          elim which [
            | inr pre ↦
                let above : next < q.ts = let l = least pre in omega arith in
                let (rest, t, ready, run, left, quiet, done) = serve-Busy slots s v d a m b e in
                (
                  some q ∷ rest,
                  t,
                  ready,
                  step_keep_prewrite thread_cnt min_ts fresh ts next q slots rest s t ready later
                      pre apart run,
                  Left-some next q slots rest (above, high, inr pre) x left,
                  quiet,
                  done,
                )
            | inl get ↦ elim (Bool-cases (ltb q.ts next)) [
              | inr c ↦
                  let (rest, t, ready, run, left, quiet, done) = serve-Busy slots s v d a m b e in
                  (
                    some q ∷ rest,
                    t,
                    ready,
                    step_keep_read thread_cnt min_ts fresh ts next q slots rest s t ready later get
                        c apart run,
                    Left-some next q slots rest (ground arith, high, inl get) x left,
                    quiet,
                    done,
                  )
              | inl c ↦
                  let (rest, t, ready, run, left, quiet, done) =
                    serve-Busy slots (read q.ts s) v d a m
                      (read-Busy thread_cnt min_ts fresh q.ts s (ground arith) b) e in
                  (
                    none ∷ rest,
                    t,
                    (q.txn, s.latest_row) ∷ ready,
                    step_read thread_cnt min_ts fresh ts next q slots rest s t ready later get c
                        run,
                    Left-gone next q slots rest left,
                    Quiet-trans s (read q.ts s) t (read-Quiet thread_cnt min_ts fresh q.ts s) quiet,
                    done,
                  )
            ]
          ]
