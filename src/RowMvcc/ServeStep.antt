-- ===== src/RowMvcc/ServeStep.antt =====
-- The steps of the loop of update_buffer (row_mvcc.cpp).

use dbx1000_bskiplist.Base.{ℕ, ◌≡◌, true, false, some, none, List, [], ◌∷◌, ltb, ◌==◌, refl}
use dbx1000_bskiplist.RowTs.{r_req, p_req}
use dbx1000_bskiplist.RowMvcc.{ReqEntry, Slots, RowMvcc}
use dbx1000_bskiplist.RowMvcc.Reserve.{grant_prewrite}
use dbx1000_bskiplist.RowMvcc.Access.{serve, serve_read}

module _ {D : Type 0} (thread_cnt min_ts fresh ts next : ℕ) where
  pub serve_nil : (s : RowMvcc D) → serve thread_cnt min_ts fresh ts next [] s ≡ some ([], s, [])
  unfolding serve
  serve_nil s = refl

  pub serve-none :
      (slots rest : Slots) (s t : RowMvcc D) (ready : List (ℕ × ℕ))
      → serve thread_cnt min_ts fresh ts next slots s ≡ some (rest, t, ready)
      → serve thread_cnt min_ts fresh ts next (none ∷ slots) s ≡ some (none ∷ rest, t, ready)
  unfolding serve
  serve-none slots rest s t ready run = rw run refl

  module _ (q : ReqEntry) (slots rest : Slots) (s t : RowMvcc D) (ready : List (ℕ × ℕ))
      (later : ltb ts q.ts ≡ true) where
    pub step_read :
        q.type ≡ r_req
        → ltb q.ts next ≡ true
        → serve thread_cnt min_ts fresh ts next slots (serve_read thread_cnt min_ts fresh q.ts s)
          ≡ some (rest, t, ready)
        → serve thread_cnt min_ts fresh ts next (some q ∷ slots) s
          ≡ some (none ∷ rest, t, (q.txn, s.latest_row) ∷ ready)
    unfolding serve
    step_read type c run = simp type (rw (later, c, run) refl)

    pub step_keep_read :
        q.type ≡ r_req
        → ltb q.ts next ≡ false
        → (q.ts == next) ≡ false
        → serve thread_cnt min_ts fresh ts next slots s ≡ some (rest, t, ready)
        → serve thread_cnt min_ts fresh ts next (some q ∷ slots) s ≡ some (some q ∷ rest, t, ready)
    unfolding serve
    step_keep_read type c d run = simp type (rw (later, c, d, run) refl)

    pub step_keep_prewrite :
        q.type ≡ p_req
        → (q.ts == next) ≡ false
        → serve thread_cnt min_ts fresh ts next slots s ≡ some (rest, t, ready)
        → serve thread_cnt min_ts fresh ts next (some q ∷ slots) s ≡ some (some q ∷ rest, t, ready)
    unfolding serve
    step_keep_prewrite type d run = simp type (rw (later, d, run) refl)

    pub step_prewrite :
        (u : RowMvcc D) (row : ℕ)
        → q.type ≡ p_req
        → (q.ts == next) ≡ true
        → grant_prewrite thread_cnt min_ts fresh q.ts s ≡ some (u, row)
        → serve thread_cnt min_ts fresh ts next slots u ≡ some (rest, t, ready)
        → serve thread_cnt min_ts fresh ts next (some q ∷ slots) s
          ≡ some (none ∷ rest, t, (q.txn, row) ∷ ready)
    unfolding serve
    step_prewrite u row type d grant run = simp type (rw (later, d, grant, run) refl)
