-- ===== src/DlDetect/Cycles.antt =====
-- nextNode ends, and finds a cycle exactly where there is one.
use dbx1000_bskiplist.Base.{
  ℕ, zero, suc, ◌≡◌, ◌<◌, List, [], ◌∷◌, Bool, true, false, not, ◌&&◌, ◌==◌, inl, inr, refl, ◌∙◌,
  arith, sym, subst, Bool-cases, ==_iff, ap, ℕ_discrete,
}
use mathlib.Core.List.{Memᴰ}
use mathlib.Core.List.Memᴰ
use dbx1000_bskiplist.DlDetect.{DepThd, DetectData, narrow, scan, enter, finish, mark, next_node}
use dbx1000_bskiplist.DlDetect.Graph.{thread, Walk}
use dbx1000_bskiplist.DlDetect.Marks.{
  unmarked, unmarked-le, unmarked-mark, mark_here, mark_elsewhere,
}
use dbx1000_bskiplist.DlDetect.Steps.{
  scan-back, scan-found, scan-onward, scan-skip, next_node-search,
}
use dbx1000_bskiplist.DlDetect.Dfs.{
  Quiet, Finished, Explored, NextNodes, Scanned, FoundBelow-FoundBeside, FoundBeside-stack,
  Explored-Finished, Explored-trans, Least-nil, Least,
}
use dbx1000_bskiplist.DlDetect.Finish.{finish-quiet, finish-Explored, finish-FoundBelow}

narrow_small : (t : ℕ) → t < 2147483648 → narrow t ≡ t
narrow_small t h = ground arith

both : (a b : Bool) → (a && b) ≡ true → (a ≡ true) × (b ≡ true)
both true b h = (refl, h)
both false b h = cc

-- A next node that the loop passes over is one that the search has left.
passed :
    (seen on_stack : Bool) (t txnid : ℕ)
    → (on_stack && (narrow t == txnid)) ≡ false
    → (not seen && (txnid == t)) ≡ false
    → txnid ≡ t
    → narrow t ≡ t
    → (seen ≡ true) × (on_stack ≡ false)
passed true true t txnid c c' live wide =
    let e = (==_iff (narrow t) txnid).1 (wide ∙ sym live) in cc
passed true false t txnid c c' live wide = (refl, refl)
passed false on_stack t txnid c c' live wide = let e = (==_iff txnid t).1 live in cc

entered :
    (seen : Bool) (t txnid : ℕ) → (not seen && (txnid == t)) ≡ true → (seen ≡ false) × (txnid ≡ t)
entered true t txnid c = cc
entered false t txnid c = (refl, (==_iff txnid t).0 c)

module _ (g : ℕ) (dependency : ℕ → DepThd) (some_threads : 0 < g)
    (small : (x t : ℕ) → Memᴰ t (dependency x).adj → t < 2147483648) where
  stay : (d : DetectData) → Quiet g dependency d → Explored g dependency d d
  stay d v = record { quiet = v; same = λ x. refl; more = λ x h. h }

  -- A node on the stack has not been left.
  enter-Quiet :
      (thd : ℕ) (d : DetectData)
      → Quiet g dependency d
      → d.visited thd ≡ false
      → Quiet g dependency (enter g dependency thd d)
  enter-Quiet thd d v new = record {
    no_loop = v.no_loop;
    min_lock_num = v.min_lock_num;
    min_txnid = v.min_txnid;
    stacked = λ x h. elim (ℕ_discrete x thd) [
      | yes q ↦ subst (λ z. mark d.visited thd true z ≡ true) (sym q) (mark_here d.visited thd true)
      | no q ↦
          mark_elsewhere d.visited thd x true q
          ∙ v.stacked x (sym (mark_elsewhere d.rec_stack thd x true q) ∙ h)
    ];
    closed = λ x y h edge. forth y (v.closed x y (back x h) edge);
    acyclic = λ x y h edge way. v.acyclic x y (back x h) edge way;
  }
    where
      back : (x : ℕ) → Finished (enter g dependency thd d) x → Finished d x
      back x (h, k) = elim (ℕ_discrete x thd) [
        | yes q ↦
            let k' = subst (λ z. mark d.rec_stack thd true z ≡ false) q k in
            let same = mark_here d.rec_stack thd true in cc
        | no q ↦ (
          sym (mark_elsewhere d.visited thd x true q) ∙ h,
          sym (mark_elsewhere d.rec_stack thd x true q) ∙ k,
        )
      ]

      forth : (x : ℕ) → Finished d x → Finished (enter g dependency thd d) x
      forth x (h, k) = elim (ℕ_discrete x thd) [
        | yes q ↦ let h' = subst (λ z. d.visited z ≡ true) q h in cc
        | no q ↦
            (mark_elsewhere d.visited thd x true q ∙ h, mark_elsewhere d.rec_stack thd x true q ∙ k)
      ]

  module _ (fuel x : ℕ) (next : NextNodes g dependency fuel) where
    scan-Scanned :
        (ts : List ℕ) (d : DetectData)
        → Quiet g dependency d
        → ((t : ℕ) → Memᴰ t ts → Memᴰ t (dependency x).adj)
        → unmarked d.visited g < fuel
        → Scanned g dependency fuel x ts d
    unfolding scan
    scan-Scanned [] d v within enough =
        (d, refl, inl (stay d v, λ y (t, h, _, _). absurd (Memᴰ.not-nil h)))
    scan-Scanned (t ∷ ts) d v within enough =
        let y = thread g dependency t in
        let mem = within t (Memᴰ.head refl) in
        let wide = narrow_small t (small x t mem) in
        let rest = λ (s : ℕ) (h : Memᴰ s ts). within s (Memᴰ.tail h) in
        elim (Bool-cases (d.rec_stack y && (narrow t == (dependency y).txnid))) [
          | inl c ↦
              let (on_stack, same) = both _ _ c in
              let live = sym ((==_iff (narrow t) (dependency y).txnid).0 same) ∙ wide in
              (
                _,
                scan-back g dependency (next_node g dependency fuel) t ts d c,
                inr (
                  refl,
                  inl (
                    [],
                    record {
                      on = refl;
                      pending = on_stack;
                      end = x;
                      walk = Walk.last;
                      back = (t, mem, refl, live);
                      least =
                          subst (λ m. Least dependency m d.min_txnid []) (sym v.min_lock_num)
                            (subst (λ m. Least dependency 1000 m []) (sym v.min_txnid)
                              (Least-nil dependency));
                    },
                  ),
                ),
              )
          | inr c ↦ elim (Bool-cases (not (d.visited y) && ((dependency y).txnid == t))) [
            | inr c' ↦
                let (e, run, result) = scan-Scanned ts d v rest enough in
                (
                  e,
                  scan-skip g dependency (next_node g dependency fuel) t ts d c c' ∙ run,
                  elim result [
                    | inr found ↦ inr found
                    | inl (more, all) ↦ inl (
                      more,
                      λ z (s, h, to, live). elim (Memᴰ.cases_cons h) [
                        | inr h' ↦ all z (s, h', to, live)
                        | inl same ↦
                            let to' = subst (λ u. thread g dependency u ≡ z) same to in
                            let live' =
                              subst (λ u. (dependency u).txnid ≡ t) (sym to') (live ∙ same) in
                            Explored-Finished g dependency d e z more (
                              subst (Finished d) to'
                                (passed (d.visited y) (d.rec_stack y) t _ c c' live' wide))
                      ],
                    )
                  ],
                )
            | inl c' ↦
                let (new, live) = entered (d.visited y) t _ c' in
                let (e, result) = next t d v new live enough in
                elim result [
                  | inr (run, found) ↦ (
                    e,
                    scan-found g dependency (next_node g dependency fuel) t ts d e c new live run,
                    inr (
                        FoundBelow-FoundBeside g dependency d.rec_stack x y e (t, mem, refl, live)
                          found),
                  )
                  | inl (run, more, finished) ↦
                      let less = unmarked-le d.visited e.visited g more.more in
                      let (f, run', result') = scan-Scanned ts e more.quiet rest (omega arith) in
                      (
                        f,
                        scan-onward g dependency (next_node g dependency fuel) t ts d e c new live
                              run
                            ∙ run',
                        elim result' [
                          | inr found ↦ inr (
                              FoundBeside-stack g dependency e.rec_stack d.rec_stack x f more.same
                                found)
                          | inl (more', all) ↦ inl (
                            Explored-trans g dependency d e f more more',
                            λ z (s, h, to, live'). elim (Memᴰ.cases_cons h) [
                              | inr h' ↦ all z (s, h', to, live')
                              | inl same ↦ Explored-Finished g dependency e f z more' (
                                  subst (Finished e)
                                    (subst (λ u. thread g dependency u ≡ z) same to) finished)
                            ],
                          )
                        ],
                      )
                ]
          ]
        ]

  -- The contract of nextNode holds for every fuel.
  pub next_node-NextNode : (fuel : ℕ) → NextNodes g dependency fuel
  next_node-NextNode zero t d v new live enough = absurd (omega arith)
  next_node-NextNode (suc fuel) t d v new live enough =
      let thd = thread g dependency t in
      let inside : thd < g = grind arith in
      let less = unmarked-mark d.visited thd g inside new in
      let entered_d = enter g dependency thd d in
      let quiet : Quiet g dependency entered_d = enter-Quiet thd d v new in
      let (e, run, result) =
        scan-Scanned fuel thd (next_node-NextNode fuel) (dependency thd).adj entered_d quiet
          (λ u h. h) (omega arith) in
      elim result [
        | inl (more, all) ↦
            let (b, same) =
              finish-quiet g dependency thd t (dependency thd).num_locks e more.quiet.no_loop in
            let (explored, finished) =
              subst (λ f. Explored g dependency d f × Finished f thd) (sym same)
                (finish-Explored g dependency thd d e v new more
                  (λ y (u, h, to, there). all y (u, h, to, there)) b) in
            let quiet = ap (λ (f : DetectData). f.loop) same ∙ more.quiet.no_loop in
            (
              finish g dependency thd t (dependency thd).num_locks e,
              inl (
                next_node-search g dependency fuel t d e false new live run quiet,
                explored,
                finished,
              ),
            )
        | inr found ↦
            let below = finish-FoundBelow g dependency thd t d.rec_stack e live found in
            (
              finish g dependency thd t (dependency thd).num_locks e,
              inr (next_node-search g dependency fuel t d e true new live run below.0, below),
            )
      ]
