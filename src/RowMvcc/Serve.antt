-- ===== src/RowMvcc/Serve.antt =====
-- The requests that update_buffer serves (row_mvcc.cpp).
use dbx1000_bskiplist.RowMvcc.Prewrite.{grant_prewrite-Granted}
use dbx1000_bskiplist.Base.{
  ℕ, ◌≡◌, ◌<◌, ◌≤◌, true, false, some, none, [], ◌∷◌, inl, inr, arith, ltb, ◌==◌, ◌∙◌, Bool-cases,
  ℕ_discrete, subst,
}
use dbx1000_bskiplist.RowTs.{p_req}
use dbx1000_bskiplist.RowMvcc.{Slots, RowMvcc, uint64_max}
use dbx1000_bskiplist.RowMvcc.Access.{serve_read}
use dbx1000_bskiplist.RowMvcc.Slots.{Pending, Absent, Distinct, AtMost, Has, Empty, Has-Absent}
use dbx1000_bskiplist.RowMvcc.Quiet.{Quiet-refl, Quiet-trans, Idle, read-Quiet, read-Idle}
use dbx1000_bskiplist.RowMvcc.ServeStep.{
  serve_nil, serve-none, step_read, step_keep_read, step_keep_prewrite, step_prewrite,
}
use dbx1000_bskiplist.RowMvcc.ServeBusy.{
  Left-none, Left-gone, Left-some, Result, AtNext, serve-Busy,
}

module _ {D : Type 0} where
  module _ (thread_cnt min_ts fresh : ℕ) (threads : thread_cnt ≤ 1073741824) where
    abbrev read : ℕ → RowMvcc D → RowMvcc D
    read ts s = serve_read thread_cnt min_ts fresh ts s

    module _ (ts next : ℕ) where
      -- Up to the next prewrite, reads are served; then it is granted.
      pub serve-Granted :
          (slots : Slots) (s : RowMvcc D)
          → Pending ts slots
          → Distinct slots
          → Has next slots
          → AtMost next slots
          → next < uint64_max
          → Idle s fresh next
          → Result thread_cnt min_ts fresh ts next slots s (AtNext thread_cnt min_ts fresh ts next)
      serve-Granted [] s v d has m timed b = absurd has
      serve-Granted (none ∷ slots) s v d has m timed b =
          let (rest, t, ready, run, left, quiet, done) = serve-Granted slots s v d has m timed b in
          (
            none ∷ rest,
            t,
            ready,
            serve-none thread_cnt min_ts fresh ts next slots rest s t ready run,
            Left-none next slots rest left,
            quiet,
            done,
          )
      serve-Granted (some q ∷ slots) s ((low, high, which), v) (x, d) has (least, m) timed b =
          let later : ltb ts q.ts ≡ true = ground arith in
          elim (ℕ_discrete q.ts next) [
            | yes same ↦
                let here : (q.ts == next) ≡ true = ground arith in
                let absent : Absent next slots = subst (λ n. Absent n slots) same x in
                let pre : q.type ≡ p_req = elim has [
                  | inl (pre, _) ↦ pre
                  | inr more ↦ absurd (Has-Absent next slots more absent)
                ] in
                let newer = b.newer in
                let reads = b.after_reads in
                let (u, row, grant, g, _) =
                  grant_prewrite-Granted thread_cnt fresh q.ts threads high min_ts s b.history
                    b.unreserved b.exists b.unused (omega arith) (omega arith) in
                let (rest, t, ready, run, left, quiet, done) =
                  serve-Busy thread_cnt min_ts fresh ts next slots u v d absent m
                    (record {
                      history = g.history;
                      reserved = g.reserved;
                      exists = g.exists_prewrite;
                    })
                    (g.prewrite_ts ∙ same) in
                (
                  none ∷ rest,
                  t,
                  (q.txn, row) ∷ ready,
                  step_prewrite thread_cnt min_ts fresh ts next q slots rest s t ready later u row
                      pre here grant run,
                  Left-gone next q slots rest left,
                  Quiet-trans s u t
                      (record {
                        retains = g.retains;
                        latest_wts = g.latest_wts;
                        reads = let e = g.max_served_rts in omega arith;
                      })
                      quiet,
                  done,
                )
            | no other ↦
                let apart : (q.ts == next) ≡ false = ground arith in
                let has' : Has next slots = elim has [
                  | inl (_, same) ↦ absurd (other same)
                  | inr more ↦ more
                ] in
                elim which [
                  | inr pre ↦
                      let above : next < q.ts = let l = least pre in omega arith in
                      let (rest, t, ready, run, left, quiet, done) =
                        serve-Granted slots s v d has' m timed b in
                      (
                        some q ∷ rest,
                        t,
                        ready,
                        step_keep_prewrite thread_cnt min_ts fresh ts next q slots rest s t ready
                            later pre apart run,
                        Left-some next q slots rest (above, high, inr pre) x left,
                        quiet,
                        done,
                      )
                  | inl get ↦ elim (Bool-cases (ltb q.ts next)) [
                    | inr c ↦
                        let (rest, t, ready, run, left, quiet, done) =
                          serve-Granted slots s v d has' m timed b in
                        (
                          some q ∷ rest,
                          t,
                          ready,
                          step_keep_read thread_cnt min_ts fresh ts next q slots rest s t ready
                              later get c apart run,
                          Left-some next q slots rest (ground arith, high, inl get) x left,
                          quiet,
                          done,
                        )
                    | inl c ↦
                        let (rest, t, ready, run, left, quiet, done) =
                          serve-Granted slots (read q.ts s) v d has' m timed
                            (read-Idle thread_cnt min_ts fresh q.ts next s (ground arith) b) in
                        (
                          none ∷ rest,
                          t,
                          (q.txn, s.latest_row) ∷ ready,
                          step_read thread_cnt min_ts fresh ts next q slots rest s t ready later get
                              c run,
                          Left-gone next q slots rest left,
                          Quiet-trans s (read q.ts s) t (read-Quiet thread_cnt min_ts fresh q.ts s)
                              quiet,
                          done,
                        )
                  ]
                ]
          ]

      abbrev pub AllServed : Slots → RowMvcc D → Type 0
      AllServed rest t = Empty rest × Idle t fresh next

      -- With no pending prewrite, all reads are served.
      pub serve-Idle :
          (slots : Slots) (s : RowMvcc D)
          → Pending ts slots
          → AtMost next slots
          → next ≡ uint64_max
          → Idle s fresh next
          → Result thread_cnt min_ts fresh ts next slots s AllServed
      serve-Idle [] s v m top b = (
        [],
        s,
        [],
        serve_nil thread_cnt min_ts fresh ts next s,
        (tt, λ x. x, λ m x. tt, tt),
        Quiet-refl s,
        (tt, b),
      )
      serve-Idle (none ∷ slots) s v m top b =
          let (rest, t, ready, run, left, quiet, done) = serve-Idle slots s v m top b in
          (
            none ∷ rest,
            t,
            ready,
            serve-none thread_cnt min_ts fresh ts next slots rest s t ready run,
            Left-none next slots rest left,
            quiet,
            done,
          )
      serve-Idle (some q ∷ slots) s ((low, high, which), v) (least, m) top b =
          let later : ltb ts q.ts ≡ true = ground arith in
          let c : ltb q.ts next ≡ true = ground arith in
          elim which [
            | inr pre ↦ let l = least pre in absurd (omega arith)
            | inl get ↦
                let (rest, t, ready, run, left, quiet, done) =
                  serve-Idle slots (read q.ts s) v m top
                    (read-Idle thread_cnt min_ts fresh q.ts next s (omega arith) b) in
                (
                  none ∷ rest,
                  t,
                  (q.txn, s.latest_row) ∷ ready,
                  step_read thread_cnt min_ts fresh ts next q slots rest s t ready later get c run,
                  Left-gone next q slots rest left,
                  Quiet-trans s (read q.ts s) t (read-Quiet thread_cnt min_ts fresh q.ts s) quiet,
                  done,
                )
          ]
