-- ===== src/DlDetect/Graph.antt =====
-- The graph that the dependencies stand for: its nodes are threads, and an edge leads from a waiting
-- transaction to one that its thread still runs.
use dbx1000_bskiplist.Base.{ℕ, ◌≡◌, List, [], ◌∷◌}
use mathlib.Core.List.{Memᴰ}
use dbx1000_bskiplist.DlDetect.{DepThd, get_thdid_from_txnid}

module _ (g_thread_cnt : ℕ) (dependency : ℕ → DepThd) where
  abbrev pub thread : ℕ → ℕ
  thread = get_thdid_from_txnid g_thread_cnt

  abbrev pub Edge : ℕ → ℕ → Type 0
  Edge x y = (t : ℕ) × Memᴰ t (dependency x).adj × (thread t ≡ y) × ((dependency y).txnid ≡ t)

  pub data Way (x : ℕ) : ℕ → Type 0 where
    here : Way x x
    step : {y z : ℕ} → Way x y → Edge y z → Way x z

  -- A walk by its nodes.
  pub data Walk : ℕ → List ℕ → ℕ → Type 0 where
    last : {x : ℕ} → Walk x (x ∷ []) x
    next : {x y u : ℕ} {p : List ℕ} → Edge x y → Walk y p u → Walk x (x ∷ p) u

  -- A way from `x` to a cycle.
  pub record HasCycle (x : ℕ) : Type 0 where
    pub start : ℕ
    pub nodes : List ℕ
    pub end : ℕ
    pub way : Way x start
    pub walk : Walk start nodes end
    pub back : Edge end start
