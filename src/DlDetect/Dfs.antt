-- ===== src/DlDetect/Dfs.antt =====
-- What nextNode has explored, and what it has found: the contracts of the call and of its loop.
use dbx1000_bskiplist.Base.{
  ℕ, ◌≡◌, ◌<◌, ◌≤◌, List, [], ◌∷◌, Bool, true, false, ◌⊎◌, inl, inr, refl, ◌∙◌, arith, ltb, sym,
}
use mathlib.Core.List.{Memᴰ}
use mathlib.Core.List.Memᴰ
use dbx1000_bskiplist.Run.{done}
use dbx1000_bskiplist.DlDetect.{DepThd, DetectData, invalid, next_node, scan}
use dbx1000_bskiplist.DlDetect.Graph.{thread, Edge, Way, Walk}
use dbx1000_bskiplist.DlDetect.Marks.{unmarked}

-- The search has left the node.
abbrev pub Finished : DetectData → ℕ → Type 0
Finished d x = (d.visited x ≡ true) × (d.rec_stack x ≡ false)

-- The smallest number of locks of the nodes below 1000, and the transaction that holds them.
pub record Least (dependency : ℕ → DepThd) (m id : ℕ) (p : List ℕ) : Type 0 where
  pub bound : m ≤ 1000
  pub below : (z : ℕ) → Memᴰ z p → m ≤ (dependency z).num_locks
  pub attained :
      ((m ≡ 1000) × (id ≡ invalid))
      ⊎ ((z : ℕ) × Memᴰ z p
          × (m ≡ (dependency z).num_locks)
          × (id ≡ (dependency z).txnid)
          × (m < 1000))

module _ (g_thread_cnt : ℕ) (dependency : ℕ → DepThd) where
  -- No cycle has been found among the nodes that the search has left, which lead to no other nodes.
  pub record Quiet (d : DetectData) : Type 0 where
    pub no_loop : d.loop ≡ false
    pub min_lock_num : d.min_lock_num ≡ 1000
    pub min_txnid : d.min_txnid ≡ invalid
    pub stacked : (x : ℕ) → d.rec_stack x ≡ true → d.visited x ≡ true
    pub closed : (x y : ℕ) → Finished d x → Edge g_thread_cnt dependency x y → Finished d y
    pub acyclic :
        (x y : ℕ)
        → Finished d x
        → Edge g_thread_cnt dependency x y
        → Way g_thread_cnt dependency y x
        → ⊥

  pub record Explored (d e : DetectData) : Type 0 where
    pub quiet : Quiet e
    pub same : (x : ℕ) → e.rec_stack x ≡ d.rec_stack x
    pub more : (x : ℕ) → d.visited x ≡ true → e.visited x ≡ true

  -- The cycle is complete, and can be reached from `x`.
  pub record Closed (x : ℕ) (e : DetectData) : Type 0 where
    pub off : e.onloop ≡ false
    pub start : ℕ
    pub end : ℕ
    pub nodes : List ℕ
    pub way : Way g_thread_cnt dependency x start
    pub walk : Walk g_thread_cnt dependency start nodes end
    pub back : Edge g_thread_cnt dependency end start
    pub least : Least dependency e.min_lock_num e.min_txnid nodes

  -- A walk from `x` leads back to a node of the stack; the locks of `counted` have been compared.
  pub record Open (stack : ℕ → Bool) (x : ℕ) (e : DetectData) (counted nodes : List ℕ)
      : Type 0 where
    pub on : e.onloop ≡ true
    pub pending : stack e.loopstart ≡ true
    pub end : ℕ
    pub walk : Walk g_thread_cnt dependency x nodes end
    pub back : Edge g_thread_cnt dependency end e.loopstart
    pub least : Least dependency e.min_lock_num e.min_txnid counted

  -- What a call for `x` finds, and what the loop of that call finds.
  abbrev pub FoundBelow : (ℕ → Bool) → ℕ → DetectData → Type 0
  FoundBelow stack x e = (e.loop ≡ true) × (((p : List ℕ) × Open stack x e p p) ⊎ Closed x e)

  abbrev pub FoundBeside : (ℕ → Bool) → ℕ → DetectData → Type 0
  FoundBeside stack x e = (e.loop ≡ true) × (((p : List ℕ) × Open stack x e p (x ∷ p)) ⊎ Closed x e)

  abbrev pub NextNode : ℕ → ℕ → DetectData → Type 0
  NextNode fuel t d =
      let x = thread g_thread_cnt dependency t in
      (e : DetectData) × (((next_node g_thread_cnt dependency fuel t d ≡ done (false, e))
          × Explored d e
          × Finished e x)
        ⊎ ((next_node g_thread_cnt dependency fuel t d ≡ done (true, e))
            × FoundBelow d.rec_stack x e))

  -- The contract of nextNode for a transaction that its thread runs, not visited before.
  abbrev pub NextNodes : ℕ → Type 0
  NextNodes fuel =
      (t : ℕ) (d : DetectData)
      → Quiet d
      → d.visited (thread g_thread_cnt dependency t) ≡ false
      → (dependency (thread g_thread_cnt dependency t)).txnid ≡ t
      → unmarked d.visited g_thread_cnt < fuel
      → NextNode fuel t d

  abbrev pub Leads : List ℕ → ℕ → Type 0
  Leads ts y =
      (t : ℕ) × Memᴰ t ts × (thread g_thread_cnt dependency t ≡ y) × ((dependency y).txnid ≡ t)

  -- The contract of its loop over `ts`.
  abbrev pub Scanned : ℕ → ℕ → List ℕ → DetectData → Type 0
  Scanned fuel x ts d =
      (e : DetectData) × (scan g_thread_cnt dependency (next_node g_thread_cnt dependency fuel) ts d
        ≡ done e)
      × ((Explored d e × ((y : ℕ) → Leads ts y → Finished e y)) ⊎ FoundBeside d.rec_stack x e)

  pub Explored-Finished : (d e : DetectData) (x : ℕ) → Explored d e → Finished d x → Finished e x
  Explored-Finished d e x v (h, h') = (v.more x h, v.same x ∙ h')

  pub Explored-trans : (d e f : DetectData) → Explored d e → Explored e f → Explored d f
  Explored-trans d e f v w = record {
    quiet = w.quiet;
    same = λ x. w.same x ∙ v.same x;
    more = λ x h. w.more x (v.more x h);
  }

  -- A cycle found below a next node.
  pub FoundBelow-FoundBeside :
      (stack : ℕ → Bool) (x y : ℕ) (e : DetectData)
      → Edge g_thread_cnt dependency x y
      → FoundBelow stack y e
      → FoundBeside stack x e
  FoundBelow-FoundBeside stack x y e edge (h, inl (p, v)) = (
    h,
    inl (
      p,
      record {
        on = v.on;
        pending = v.pending;
        end = v.end;
        walk = Walk.next edge v.walk;
        back = v.back;
        least = v.least;
      },
    ),
  )
  FoundBelow-FoundBeside stack x y e edge (h, inr v) = (
    h,
    inr (record {
      off = v.off;
      start = v.start;
      end = v.end;
      nodes = v.nodes;
      way = prepend edge v.way;
      walk = v.walk;
      back = v.back;
      least = v.least;
    }),
  )
    where
      prepend :
          {a b c : ℕ}
          → Edge g_thread_cnt dependency a b
          → Way g_thread_cnt dependency b c
          → Way g_thread_cnt dependency a c
      prepend first Way.here = Way.step Way.here first
      prepend first (Way.step way next) = Way.step (prepend first way) next

  -- The same for another description of the stack.
  pub FoundBeside-stack :
      (stack stack' : ℕ → Bool) (x : ℕ) (e : DetectData)
      → ((z : ℕ) → stack z ≡ stack' z)
      → FoundBeside stack x e
      → FoundBeside stack' x e
  FoundBeside-stack stack stack' x e same (h, inl (p, v)) = (
    h,
    inl (
      p,
      record {
        on = v.on;
        pending = sym (same e.loopstart) ∙ v.pending;
        end = v.end;
        walk = v.walk;
        back = v.back;
        least = v.least;
      },
    ),
  )
  FoundBeside-stack stack stack' x e same (h, inr v) = (h, inr v)

-- One more node is compared.
pub Least-cons :
    (dependency : ℕ → DepThd) (m id x : ℕ) (p : List ℕ)
    → Least dependency m id p
    → (ltb (dependency x).num_locks m ≡ true
        → Least dependency (dependency x).num_locks (dependency x).txnid (x ∷ p))
      × (ltb (dependency x).num_locks m ≡ false → Least dependency m id (x ∷ p))
Least-cons dependency m id x p v = (
  λ c. record {
    bound = ground (arith, v.bound);
    below = λ z h. elim (Memᴰ.cases_cons h) [
      | inl e ↦ rw e (omega arith)
      | inr h' ↦ ground (arith, v.below z h')
    ];
    attained = inr (x, Memᴰ.head refl, refl, refl, ground (arith, v.bound));
  },
  λ c. record {
    bound = v.bound;
    below = λ z h. elim (Memᴰ.cases_cons h) [ inl e ↦ rw e (ground arith) | inr h' ↦ v.below z h' ];
    attained = elim v.attained [
      | inl none_yet ↦ inl none_yet
      | inr (z, h, locks, txn, few) ↦ inr (z, Memᴰ.tail h, locks, txn, few)
    ];
  },
)

pub Least-nil : (dependency : ℕ → DepThd) → Least dependency 1000 invalid []
Least-nil dependency = record {
  bound = omega arith;
  below = λ z h. absurd (Memᴰ.not-nil h);
  attained = inl (refl, refl);
}
