-- ===== src/Silo/Words.antt =====
-- The word of a row, and the id of a commit.
use dbx1000_bskiplist.Base.{
  ℕ, ◌≡◌, ◌≢◌, ◌<◌, ◌≤◌, List, [], ◌∷◌, true, false, ltb, ◌==◌, refl, arith, inl, inr, ◌*◌,
  if◌then◌else◌, ap,
}
use mathlib.Core.List.{Memᴰ}
use mathlib.Core.List.Memᴰ
use dbx1000_bskiplist.Silo.{
  lock_bit, locked, tid_of, with_lock, Words, put_word, Access, Txn, max_from, next_tid,
}

pub put_word_here : (words : Words) (row v : ℕ) → put_word words row v row ≡ v
put_word_here words row v = let c : (row == row) ≡ true = ground arith in rw c refl

pub put_word_other : (words : Words) (row x v : ℕ) → x ≢ row → put_word words row v x ≡ words x
put_word_other words row x v d = let c : (x == row) ≡ false = ground arith in rw c refl

pub with_lock_lem :
    (v : ℕ)
    → v < lock_bit
    → (locked (with_lock v) ≡ true) × (tid_of (with_lock v) ≡ v) × (with_lock v < 2 * lock_bit)
with_lock_lem v h = (ground arith, ground arith, ground arith)

pub tid_of_lem :
    (v : ℕ) → (locked (tid_of v) ≡ false) × (tid_of (tid_of v) ≡ tid_of v) × (tid_of v < lock_bit)
tid_of_lem v = (ground arith, omega arith, omega arith)

max_from-le :
    (m : ℕ) (es : List Access)
    → (m ≤ max_from m es) × ((a : Access) → Memᴰ a es → a.tid ≤ max_from m es)
max_from-le m [] = (omega arith, λ a h. absurd (Memᴰ.not-nil h))
max_from-le m (b ∷ es) =
    let (more, all) = max_from-le (if ltb m b.tid then b.tid else m) es in
    (
      ground (arith, more),
      λ a h. elim (Memᴰ.cases_cons h) [
        | inl e ↦ let e' = ap (λ (x : Access). x.tid) e in ground (arith, more)
        | inr h' ↦ all a h'
      ],
    )

-- The id of a commit is above the ids of all that the transaction accessed, and above its last one.
pub next_tid-gt :
    (t : Txn)
    → (t.cur_tid < next_tid t)
      × ((a : Access) → Memᴰ a t.reads → a.tid < next_tid t)
      × ((a : Access) → Memᴰ a t.writes → a.tid < next_tid t)
unfolding next_tid
next_tid-gt t =
    let (_, reads) = max_from-le 0 t.reads in
    let (more, writes) = max_from-le (max_from 0 t.reads) t.writes in
    (ground arith, λ a h. ground (arith, more, reads a h), λ a h. ground (arith, writes a h))
