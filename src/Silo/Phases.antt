-- ===== src/Silo/Phases.antt =====
-- What a validation holds in each phase, and what it knows of the rows that it holds.
use dbx1000_bskiplist.Base.{
  ℕ, ◌≡◌, ◌≢◌, ◌<◌, List, [], ◌∷◌, ◌++◌, true, sym, ◌∙◌, ap, inl, inr, refl,
}
use mathlib.Core.List.{Memᴰ}
use mathlib.Core.List.Memᴰ
use dbx1000_bskiplist.Silo.{
  lock_bit, locked, tid_of, Words, Access, Txn, Phase, pre_check, acquire, swap, check, give_back,
  validate_reads, validate_writes, install, release_next, abandon, committed, aborted,
}

abbrev pub holds : Txn → Phase → List Access
holds t (pre_check todo) = []
holds t (acquire todo held) = held
holds t (swap v a todo held) = held
holds t (check a todo held) = held ++ a ∷ []
holds t (give_back held) = held
holds t (validate_reads todo) = t.writes
holds t (validate_writes todo) = t.writes
holds t (install tid todo) = todo
holds t (release_next tid a todo) = a ∷ todo
holds t (abandon held) = held
holds t committed = []
holds t aborted = []

-- No row stands twice.
abbrev pub Distinct : List Access → Type 0
Distinct [] = Unit {0}
Distinct (a ∷ es) = ((b : Access) → Memᴰ b es → b.row ≢ a.row) × Distinct es

abbrev pub AllLocked : Words → List Access → Type 0
AllLocked words es = (a : Access) → Memᴰ a es → locked (words a.row) ≡ true

-- The rows have the ids that they had when the transaction read them.
abbrev pub Unchanged : Words → List Access → Type 0
Unchanged words es = (a : Access) → Memᴰ a es → tid_of (words a.row) ≡ a.tid

abbrev pub Fewer : ℕ → List Access → Type 0
Fewer tid es = (a : Access) → Memᴰ a es → a.tid < tid

module _ (t : Txn) (words : Words) where
  abbrev pub Knows : Phase → Type 0
  Knows (pre_check todo) = Unit {0}
  Knows (acquire todo held) = (t.writes ≡ held ++ todo) × Unchanged words held
  Knows (swap v a todo held) = (t.writes ≡ held ++ a ∷ todo) × Unchanged words held × (v < lock_bit)
  Knows (check a todo held) = (t.writes ≡ held ++ a ∷ todo) × Unchanged words held
  Knows (give_back held) = Unit {0}
  Knows (validate_reads todo) = Unchanged words t.writes
  Knows (validate_writes todo) = Unchanged words t.writes
  Knows (install tid todo) = Unchanged words todo × Fewer tid todo × (tid < lock_bit)
  Knows (release_next tid a todo) = Unchanged words todo × Fewer tid todo × (tid < lock_bit)
  Knows (abandon held) = Unit {0}
  Knows committed = Unit {0}
  Knows aborted = Unit {0}

  pub record Local (p : Phase) : Type 0 where
    pub all_locked : AllLocked words (holds t p)
    pub distinct : Distinct (holds t p)
    pub knows : Knows p

-- The facts of a validation are about the words of the rows that it holds.
module _ (t : Txn) (words words' : Words) where
  abbrev pub SameOn : List Access → Type 0
  SameOn es = (a : Access) → Memᴰ a es → words' a.row ≡ words a.row

  pub Unchanged-same : (es : List Access) → SameOn es → Unchanged words es → Unchanged words' es
  Unchanged-same es same v a h = ap tid_of (same a h) ∙ v a h

  Knows-same : (p : Phase) → SameOn (holds t p) → Knows t words p → Knows t words' p
  Knows-same (pre_check todo) same v = v
  Knows-same (acquire todo held) same (e, v) = (e, Unchanged-same held same v)
  Knows-same (swap w a todo held) same (e, v, h) = (e, Unchanged-same held same v, h)
  Knows-same (check a todo held) same (e, v) =
      (e, Unchanged-same held (λ b h. same b (Memᴰ.append_left (a ∷ []) h)) v)
  Knows-same (give_back held) same v = v
  Knows-same (validate_reads todo) same v = Unchanged-same t.writes same v
  Knows-same (validate_writes todo) same v = Unchanged-same t.writes same v
  Knows-same (install tid todo) same (v, few, h) = (Unchanged-same todo same v, few, h)
  Knows-same (release_next tid a todo) same (v, few, h) =
      (Unchanged-same todo (λ b k. same b (Memᴰ.tail k)) v, few, h)
  Knows-same (abandon held) same v = v
  Knows-same committed same v = v
  Knows-same aborted same v = v

  pub Local-same : (p : Phase) → SameOn (holds t p) → Local t words p → Local t words' p
  Local-same p same v = record {
    all_locked = λ a h. ap locked (same a h) ∙ v.all_locked a h;
    distinct = v.distinct;
    knows = Knows-same p same v.knows;
  }

-- A row that is not among the others goes at the end.
pub Distinct-append :
    (held : List Access) (a : Access)
    → Distinct held
    → ((b : Access) → Memᴰ b held → b.row ≢ a.row)
    → Distinct (held ++ a ∷ [])
Distinct-append [] a v new = (λ b h. absurd (Memᴰ.not-nil h), tt)
Distinct-append (c ∷ held) a (first, v) new = (
  λ b h. elim (Memᴰ.append_cases held h) [
    | inl h' ↦ first b h'
    | inr h' ↦
        let e = Memᴰ.eq_of_singleton h' in
        λ q. new c (Memᴰ.head refl) (sym (ap (λ (x : Access). x.row) (sym e) ∙ q))
  ],
  Distinct-append held a v (λ b h. new b (Memᴰ.tail h)),
)
