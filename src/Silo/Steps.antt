-- ===== src/Silo/Steps.antt =====
-- One step of a validation: no assertion fails, and what it changes (silo.cpp, row_silo.cpp).
use dbx1000_bskiplist.Base.{
  ℕ, ◌≡◌, ◌≢◌, ◌≤◌, List, ◌∷◌, false, refl, arith, inl, inr, ◌⊎◌, sym, subst, ap, ◌∙◌, ℕ_discrete,
}
use mathlib.Core.List.{Memᴰ}
use dbx1000_bskiplist.Silo.{locked, tid_of, with_lock, Words, put_word, Access, Txn, Phase}
use dbx1000_bskiplist.Silo.Words.{put_word_here, put_word_other}
use dbx1000_bskiplist.Silo.Phases.{holds, Distinct, AllLocked}

-- What a step does for the other validations: it takes or changes only a row that it holds or that is
-- unlocked, it comes to hold no other rows, and no id falls.
pub record Moves (t : Txn) (p p' : Phase) (words words' : Words) : Type 0 where
  pub rises : (row : ℕ) → tid_of (words row) ≤ tid_of (words' row)
  pub touches :
      (row : ℕ)
      → (words' row ≡ words row)
        ⊎ (locked (words row) ≡ false)
        ⊎ ((a : Access) × Memᴰ a (holds t p) × (a.row ≡ row))
  pub gains :
      (a : Access) → Memᴰ a (holds t p') → Memᴰ a (holds t p) ⊎ (locked (words a.row) ≡ false)

module _ (t : Txn) (p p' : Phase) (words : Words) where
  pub stays : ((a : Access) → Memᴰ a (holds t p') → Memᴰ a (holds t p)) → Moves t p p' words words
  stays sub = record {
    rises = λ row. omega arith;
    touches = λ row. inl refl;
    gains = λ a h. inl (sub a h);
  }

  -- A word written by its holder, with an id that is no less.
  pub writes :
      (a : Access) (v : ℕ)
      → Memᴰ a (holds t p)
      → tid_of (words a.row) ≤ tid_of v
      → ((b : Access) → Memᴰ b (holds t p') → Memᴰ b (holds t p))
      → Moves t p p' words (put_word words a.row v)
  writes a v mine more sub = record {
    rises = λ row. elim (ℕ_discrete row a.row) [
      | yes e ↦
          subst (λ r. tid_of (words r) ≤ tid_of (put_word words a.row v r)) (sym e)
            (rw (put_word_here words a.row v) more)
      | no d ↦ rw (put_word_other words a.row row v d) (omega arith)
    ];
    touches = λ row. elim (ℕ_discrete row a.row) [
      | yes e ↦ inr (inr (a, mine, sym e))
      | no d ↦ inl (put_word_other words a.row row v d)
    ];
    gains = λ b h. inl (sub b h);
  }

  -- The lock of a row, taken by the swap.
  pub takes :
      (a : Access)
      → locked (words a.row) ≡ false
      → ((b : Access) → Memᴰ b (holds t p') → Memᴰ b (holds t p) ⊎ (b ≡ a))
      → Moves t p p' words (put_word words a.row (with_lock (words a.row)))
  takes a free sub = record {
    rises = λ row. elim (ℕ_discrete row a.row) [
      | yes e ↦
          subst (λ r. tid_of (words r) ≤ tid_of (put_word words a.row (with_lock (words a.row)) r))
            (sym e) (rw (put_word_here words a.row (with_lock (words a.row))) (ground arith))
      | no d ↦ rw (put_word_other words a.row row (with_lock (words a.row)) d) (omega arith)
    ];
    touches = λ row. elim (ℕ_discrete row a.row) [
      | yes e ↦ inr (inl (subst (λ r. locked (words r) ≡ false) (sym e) free))
      | no d ↦ inl (put_word_other words a.row row (with_lock (words a.row)) d)
    ];
    gains = λ b h. elim (sub b h) [
      | inl old ↦ inl old
      | inr e ↦ inr (subst (λ x. locked (words x.row) ≡ false) (sym e) free)
    ];
  }

-- After a word was put, the other rows of a list without it are the same.
pub put_word-SameOn :
    (words : Words) (row v : ℕ) (es : List Access)
    → ((b : Access) → Memᴰ b es → b.row ≢ row)
    → (b : Access) → Memᴰ b es
    → put_word words row v b.row ≡ words b.row
put_word-SameOn words row v es apart b h = put_word_other words row b.row v (apart b h)

-- The release of the first of the rows held.
pub release_first :
    (words : Words) (a : Access) (es : List Access)
    → AllLocked words (a ∷ es)
    → Distinct (a ∷ es)
    → AllLocked (put_word words a.row (tid_of (words a.row))) es
release_first words a es all (apart, rest) b h =
    ap locked (put_word-SameOn words a.row (tid_of (words a.row)) es apart b h)
    ∙ all b (Memᴰ.tail h)
