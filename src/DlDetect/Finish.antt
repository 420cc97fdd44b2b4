-- ===== src/DlDetect/Finish.antt =====
-- What nextNode does after its loop.
use dbx1000_bskiplist.DlDetect.Marks.{mark_here, mark_elsewhere}
use dbx1000_bskiplist.DlDetect.Graph.{Way, Edge}
use dbx1000_bskiplist.DlDetect.Dfs.{
  FoundBeside, Quiet, Finished, FoundBelow, Explored, Least-cons, Least,
}
use dbx1000_bskiplist.Base.{
  ℕ, ◌≡◌, Bool, true, false, ◌==◌, inl, inr, refl, ltb, Bool-cases, if◌then◌else◌, subst, sym, ◌∙◌,
  ◌≢◌, ℕ_discrete, ◌∷◌, ==_iff,
}
use dbx1000_bskiplist.DlDetect.{DepThd, DetectData, mark, finish, enter}

module _ (g : ℕ) (dependency : ℕ → DepThd) where
  -- The three fields that `finish` may change.
  pub finish-quiet :
      (thd txnid n : ℕ) (e : DetectData)
      → e.loop ≡ false
      → (b : Bool) × (finish g dependency thd txnid n e
          ≡ record e { rec_stack = mark e.rec_stack thd false; onloop = b })
  finish-quiet thd txnid n e h = elim (Bool-cases (thd == e.loopstart)) [
    | inl c ↦ (false, rw (h, c) refl)
    | inr c ↦ (e.onloop, rw (h, c) refl)
  ]

  pub finish-off :
      (thd txnid n : ℕ) (e : DetectData)
      → e.onloop ≡ false
      → finish g dependency thd txnid n e
        ≡ record e { rec_stack = mark e.rec_stack thd false; onloop = false }
  finish-off thd txnid n e h = elim (Bool-cases (thd == e.loopstart)) [
    | inl c ↦ elim (Bool-cases e.loop) [ inl l ↦ rw (h, l, c) refl | inr l ↦ rw (h, l, c) refl ]
    | inr c ↦ elim (Bool-cases e.loop) [ inl l ↦ rw (h, l, c) refl | inr l ↦ rw (h, l, c) refl ]
  ]

  pub finish-on :
      (thd txnid n : ℕ) (e : DetectData)
      → e.loop ≡ true
      → e.onloop ≡ true
      → finish g dependency thd txnid n e ≡ record e {
        rec_stack = mark e.rec_stack thd false;
        onloop = if thd == e.loopstart then false else true;
        min_lock_num = if ltb n e.min_lock_num then n else e.min_lock_num;
        min_txnid = if ltb n e.min_lock_num then txnid else e.min_txnid;
      }
  finish-on thd txnid n e h k = elim (Bool-cases (thd == e.loopstart)) [
    | inl c ↦ elim (Bool-cases (ltb n e.min_lock_num)) [
      | inl l ↦ rw (h, k, l, c) refl
      | inr l ↦ rw (h, k, l, c) refl
    ]
    | inr c ↦ elim (Bool-cases (ltb n e.min_lock_num)) [
      | inl l ↦ rw (h, k, l, c) refl
      | inr l ↦ rw (h, k, l, c) refl
    ]
  ]

  pub Finished-path :
      (e : DetectData) (y z : ℕ)
      → Quiet g dependency e
      → Finished e y
      → Way g dependency y z
      → Finished e z
  Finished-path e y z v h Way.here = h
  Finished-path e y z v h (Way.step {y = w} way edge) =
      v.closed w z (Finished-path e y w v h way) edge

  -- A node from which all edges lead to nodes left without a cycle.
  module _ (thd : ℕ) (d e : DetectData) (v : Quiet g dependency d) (new : d.visited thd ≡ false)
      (after : Explored g dependency (enter g dependency thd d) e)
      (leads : (y : ℕ) → Edge g dependency thd y → Finished e y) (b : Bool) where
    abbrev f : DetectData
    f = record e { rec_stack = mark e.rec_stack thd false; onloop = b }

    on_stack : e.rec_stack thd ≡ true
    on_stack = after.same thd ∙ mark_here d.rec_stack thd true

    keep : (y : ℕ) → Finished e y → Finished f y
    keep y (h, k) = (
      h,
      elim (ℕ_discrete y thd) [
        | yes q ↦
            subst (λ z. mark e.rec_stack thd false z ≡ false) (sym q)
              (mark_here e.rec_stack thd false)
        | no q ↦ mark_elsewhere e.rec_stack thd y false q ∙ k
      ],
    )

    back_to : (x : ℕ) → x ≢ thd → Finished f x → Finished e x
    back_to x q (h, k) = (h, sym (mark_elsewhere e.rec_stack thd x false q) ∙ k)

    f-Quiet : Quiet g dependency f
    f-Quiet = record {
      no_loop = after.quiet.no_loop;
      min_lock_num = after.quiet.min_lock_num;
      min_txnid = after.quiet.min_txnid;
      stacked = λ x h. elim (ℕ_discrete x thd) [
        | yes q ↦
            let same = mark_here e.rec_stack thd false in
            let h' = subst (λ z. mark e.rec_stack thd false z ≡ true) q h in cc
        | no q ↦ after.quiet.stacked x (sym (mark_elsewhere e.rec_stack thd x false q) ∙ h)
      ];
      closed = λ x y h edge. elim (ℕ_discrete x thd) [
        | yes q ↦ keep y (leads y (subst (λ z. Edge g dependency z y) q edge))
        | no q ↦ keep y (after.quiet.closed x y (back_to x q h) edge)
      ];
      acyclic = λ x y h edge way. elim (ℕ_discrete x thd) [
        | yes q ↦
            let (_, off) =
              Finished-path e y thd after.quiet
                (leads y (subst (λ z. Edge g dependency z y) q edge))
                (subst (Way g dependency y) q way) in
            let on = on_stack in cc
        | no q ↦ after.quiet.acyclic x y (back_to x q h) edge way
      ];
    }

    pub finish-Explored : Explored g dependency d f × Finished f thd
    finish-Explored = (
      record {
        quiet = f-Quiet;
        same = λ x. elim (ℕ_discrete x thd) [
          | yes q ↦
              subst (λ z. mark e.rec_stack thd false z ≡ d.rec_stack z) (sym q)
                (mark_here e.rec_stack thd false
                  ∙ sym (elim (Bool-cases (d.rec_stack thd)) [
                    | inl c ↦ let c' = v.stacked thd c in cc
                    | inr c ↦ c
                  ]))
          | no q ↦
              mark_elsewhere e.rec_stack thd x false q
              ∙ after.same x
              ∙ mark_elsewhere d.rec_stack thd x true q
        ];
        more = λ x h. after.more x (elim (ℕ_discrete x thd) [
          | yes q ↦
              subst (λ z. mark d.visited thd true z ≡ true) (sym q) (mark_here d.visited thd true)
          | no q ↦ mark_elsewhere d.visited thd x true q ∙ h
        ]);
      },
      (after.more thd (mark_here d.visited thd true), mark_here e.rec_stack thd false),
    )

  -- A node whose loop found a cycle.
  pub finish-FoundBelow :
      (thd txnid : ℕ) (stack : ℕ → Bool) (e : DetectData)
      → (dependency thd).txnid ≡ txnid
      → FoundBeside g dependency (mark stack thd true) thd e
      → FoundBelow g dependency stack thd
          (finish g dependency thd txnid (dependency thd).num_locks e)
  finish-FoundBelow thd txnid stack e live (h, inr v) =
      let q = finish-off thd txnid (dependency thd).num_locks e v.off in
      subst (FoundBelow g dependency stack thd) (sym q) (
        h,
        inr (record {
          off = refl;
          start = v.start;
          end = v.end;
          nodes = v.nodes;
          way = v.way;
          walk = v.walk;
          back = v.back;
          least = v.least;
        }),
      )
  finish-FoundBelow thd txnid stack e live (h, inl (p, v)) =
      let n = (dependency thd).num_locks in
      let q = finish-on thd txnid n e h v.on in
      let (less, more) = Least-cons dependency e.min_lock_num e.min_txnid thd p v.least in
      let smallest : Least dependency (if ltb n e.min_lock_num then n else e.min_lock_num)
          (if ltb n e.min_lock_num then txnid else e.min_txnid) (thd ∷ p) =
        elim (Bool-cases (ltb n e.min_lock_num)) [
          | inl c ↦ rw c (subst (λ id. Least dependency n id (thd ∷ p)) live (less c))
          | inr c ↦ rw c (more c)
        ] in
      subst (FoundBelow g dependency stack thd) (sym q) (
        h,
        elim (Bool-cases (thd == e.loopstart)) [
          | inl c ↦ inr (record {
            off = rw c refl;
            start = thd;
            end = v.end;
            nodes = thd ∷ p;
            way = Way.here;
            walk = v.walk;
            back = subst (Edge g dependency v.end) (sym ((==_iff thd e.loopstart).0 c)) v.back;
            least = smallest;
          })
          | inr c ↦ inl (
            thd ∷ p,
            record {
              on = rw c refl;
              pending =
                  sym (
                    mark_elsewhere stack thd e.loopstart true
                      (λ s. let c' = (==_iff thd e.loopstart).1 (sym s) in cc))
                  ∙ v.pending;
              end = v.end;
              walk = v.walk;
              back = v.back;
              least = smallest;
            },
          )
        ],
      )
