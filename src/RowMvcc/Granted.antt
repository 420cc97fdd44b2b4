-- ===== src/RowMvcc/Granted.antt =====
-- What reserveRow leaves: an entry reserved for the prewrite, and every version (row_mvcc.cpp).
use dbx1000_bskiplist.Base.{
  ℕ, zero, suc, ◌+◌, ◌≡◌, ◌≢◌, ◌<◌, ◌≤◌, true, false, ◌&&◌, inl, inr, ◌⊎◌, arith, if◌then◌else◌,
  ◌==◌, ℕ_discrete, refl, sym, ◌∙◌, subst, ap, ltb, Bool-cases, ==_iff, dec32,
}
use dbx1000_bskiplist.RowTs.{update, uint64_max}
use dbx1000_bskiplist.RowMvcc.{WriteHisEntry, RowMvcc, oldest_version}
use dbx1000_bskiplist.RowMvcc.Reserve.{swap_row, reserve_entry}
use dbx1000_bskiplist.RowMvcc.Versions.{
  Fresh, one_if, count_valid, count_same, count_update, count_bound, Retains, History, Unreserved,
  Reserved, entry_at,
}
use dbx1000_bskiplist.RowMvcc.Swap.{Swapped, swapped, swapped-History, swapped-Retains}
use dbx1000_bskiplist.RowMvcc.Recycle.{swap_valid}
use dbx1000_bskiplist.RowMvcc.Choose.{History-recast, Retains-recast}
use dbx1000_bskiplist.RowMvcc.Replace.{
  replaced, replaced-History, replaced-Retains, replaced_own, replaced_other,
}

-- The oldest version of the first `n`, or none.
abbrev pub Oldest : (ℕ → WriteHisEntry) → ℕ → ℕ → ℕ × ℕ → Type 0
Oldest h len n (best, idx) =
    (((idx ≡ len) × (best ≡ uint64_max))
      ⊎ ((idx < n) × ((h idx).valid ≡ true) × ((h idx).ts ≡ best)))
    × ((i : ℕ) → i < n → (h i).valid ≡ true → best ≤ (h i).ts)

pub oldest_version-Oldest :
    (h : ℕ → WriteHisEntry) (len rounds i best idx : ℕ)
    → Oldest h len i (best, idx)
    → Oldest h len (i + rounds) (oldest_version h rounds i best idx)
unfolding oldest_version
oldest_version-Oldest h len zero i best idx v =
    let z : i ≡ i + 0 = omega arith in subst (λ n. Oldest h len n (best, idx)) z v
oldest_version-Oldest h len (suc rounds) i best idx (which, least) =
    let z : i + 1 + rounds ≡ i + suc rounds = omega arith in
    let older = (h i).valid && ltb (h i).ts best in
    let now : Oldest h len (i + 1) (if older then (h i).ts else best, if older then i else idx) =
      elim (Bool-cases older) [
        | inl c ↦
            let valid : (h i).valid ≡ true = ground arith in
            let less : (h i).ts < best = ground arith in
            rw c (
              inr (omega arith, valid, refl),
              λ j l is. elim (ℕ_discrete j i) [
                | yes e ↦ rw e (omega arith)
                | no d ↦ omega (arith, least j (omega arith) is)
              ],
            )
        | inr c ↦ rw c (
          elim which [ inl none_yet ↦ inl none_yet | inr (l, is, at) ↦ inr (omega arith, is, at) ],
          λ j l is. elim (ℕ_discrete j i) [
            | yes e ↦
                let is' = subst (λ k. (h k).valid ≡ true) e is in
                subst (λ k. best ≤ (h k).ts) (sym e) (ground arith)
            | no d ↦ least j (omega arith) is
          ],
        )
      ] in
    subst (λ n. Oldest h len n (oldest_version h (suc rounds) i best idx)) z
      (oldest_version-Oldest h len rounds (i + 1) (if older then (h i).ts else best)
        (if older then i else idx) now)

module _ {D : Type 0} where
  pub record Granted (s t : RowMvcc D) (ts row : ℕ) : Type 0 where
    pub history : History t
    pub reserved : Reserved t
    pub retains : Retains s t
    pub exists_prewrite : t.exists_prewrite ≡ true
    pub prewrite_ts : t.prewrite_ts ≡ ts
    pub own_row : (entry_at t t.prewrite_his_id).row ≡ row
    pub latest_wts : t.latest_wts ≡ s.latest_wts
    pub latest_row : t.latest_row ≡ s.latest_row
    pub max_served_rts : t.max_served_rts ≡ s.max_served_rts
    pub requests : t.requests ≡ s.requests

  module _ (s : RowMvcc D) (v : History s) (free : Unreserved s) (fresh ts : ℕ)
      (unused : Fresh s fresh) (newer : s.latest_wts < ts) (after_reads : s.max_served_rts ≤ ts)
      (timed : ts < uint64_max) where
    -- An entry without a version is reserved.
    pub reserve_entry-Granted :
        (idx : ℕ)
        → idx < s.his_len
        → (entry_at s idx).valid ≡ false
        → Granted s (reserve_entry fresh ts idx s).0 ts (reserve_entry fresh ts idx s).1
    reserve_entry-Granted idx in_len off =
        let row = (reserve_entry fresh ts idx s).1 in
        let e : WriteHisEntry = record { valid = false; reserved = true; ts = ts; row = row } in
        let (there, not_base, not_other) = row_ok in
        let w = replaced-History s v idx in_len off e refl not_base (λ j l d x. not_other j l d) in
        let r = replaced-Retains s v idx in_len off e refl not_base (λ j l d x. not_other j l d) in
        let t = replaced s v idx in_len off e refl not_base (λ j l d x. not_other j l d) in
        let own = replaced_own s v idx in_len off e refl not_base (λ j l d x. not_other j l d) in
        let other =
          replaced_other s v idx in_len off e refl not_base (λ j l d x. not_other j l d) in
        record {
          history = History-recast t true idx ts t.max_served_rts t.requests t.heap w;
          reserved = record {
            inside = in_len;
            waiting = ap (λ (x : WriteHisEntry). x.valid) own;
            has_row = λ z. there (ap (λ (x : WriteHisEntry). x.row) (sym own) ∙ z);
            only = λ j l d is.
                ap (λ (x : WriteHisEntry). x.reserved) (other j d)
                ∙ free j l (ap (λ (x : WriteHisEntry). x.valid) (sym (other j d)) ∙ is);
            newer = newer;
            after_reads = after_reads;
            timed = timed;
          };
          retains =
              Retains-recast s t true idx ts t.max_served_rts t.requests t.heap r (λ x y z. refl);
          exists_prewrite = refl;
          prewrite_ts = refl;
          own_row = ap (λ (x : WriteHisEntry). x.row) own;
          latest_wts = refl;
          latest_row = refl;
          max_served_rts = refl;
          requests = refl;
        }
      where
        row_ok :
            ((reserve_entry fresh ts idx s).1 ≢ 0)
            × ((reserve_entry fresh ts idx s).1 ≢ s.row)
            × ((j : ℕ)
                → j < s.his_len
                → j ≢ idx
                → (entry_at s j).row ≢ (reserve_entry fresh ts idx s).1)
        row_ok = elim (Bool-cases ((entry_at s idx).row == 0)) [
          | inl c ↦ rw c (unused.0, λ q. unused.1 (sym q), λ j l d. unused.2 j l)
          | inr c ↦
              let has : (entry_at s idx).row ≢ 0 = λ z. let t = (==_iff _ 0).1 z in cc in
              rw c (
                has,
                v.apart_base idx in_len,
                λ j l d q. v.apart idx j in_len l (λ x. d (sym x)) has (sym q),
              )
        ]

    -- The oldest version's entry is reserved, where every entry has a version.
    module _ (all : (i : ℕ) → i < s.his_len → (entry_at s i).valid ≡ true) (idx : ℕ)
        (in_len : idx < s.his_len)
        (least : (i : ℕ) → i < s.his_len → (entry_at s idx).ts ≤ (entry_at s i).ts) where
      abbrev pub recycled : RowMvcc D
      recycled = record (swap_row idx (entry_at s idx).ts s) { num_versions = dec32 s.num_versions }

      recycled_row : (entry_at recycled idx).row ≡ s.row
      recycled_row = let t : (idx == idx) ≡ true = ground arith in rw t refl

      row_is : (reserve_entry fresh ts idx recycled).1 ≡ s.row
      row_is =
          let b = v.base in
          let c : ((entry_at recycled idx).row == 0) ≡ false =
            let r = recycled_row in ground arith in
          rw c recycled_row

      abbrev last_entry : WriteHisEntry
      last_entry = record {
        valid = false;
        reserved = true;
        ts = ts;
        row = (reserve_entry fresh ts idx recycled).1;
      }

      abbrev last_history : ℕ → WriteHisEntry
      last_history = update recycled.write_history idx last_entry

      last_own : last_history idx ≡ last_entry
      last_own = let t : (idx == idx) ≡ true = ground arith in rw t refl

      last_other : (j : ℕ) → j ≢ idx → last_history j ≡ entry_at s j
      last_other j d = let t : (j == idx) ≡ false = ground arith in rw t refl

      fewer : dec32 s.num_versions ≡ count_valid last_history s.his_len
      fewer =
          let first : count_valid recycled.write_history s.his_len
              ≡ count_valid s.write_history s.his_len =
            count_same s.write_history recycled.write_history s.his_len
              (λ j l. swap_valid s v free idx in_len (all idx in_len) j) in
          let second = count_update recycled.write_history idx last_entry s.his_len in_len in
          let was : one_if (entry_at recycled idx).valid ≡ 1 =
            ap one_if (swap_valid s v free idx in_len (all idx in_len) idx ∙ all idx in_len) in
          let few = (count_bound s.write_history s.his_len).0 in
          let counted = v.count in let b = v.bound in omega arith

      last-Swapped : Swapped s v idx in_len (all idx in_len) last_history (dec32 s.num_versions)
      last-Swapped = record {
        other_row = λ j l d. ap (λ (x : WriteHisEntry). x.row) (last_other j d);
        own_row = ap (λ (x : WriteHisEntry). x.row) last_own ∙ row_is;
        only = λ j l is. elim (ℕ_discrete j idx) [
          | yes q ↦
              let is' = subst (λ k. (last_history k).valid ≡ true) q is in
              let is'' = subst (λ (w : WriteHisEntry). w.valid ≡ true) last_own is' in absurd (cc)
          | no d ↦
              let same = last_other j d in
              (
                d,
                all j l,
                ap (λ (x : WriteHisEntry). x.ts) same,
                elim (ℕ_discrete (entry_at s idx).ts (entry_at s j).ts) [
                  | yes q ↦ absurd (d (v.once j idx l in_len (all j l) (all idx in_len) (sym q)))
                  | no d' ↦ omega (arith, least j l)
                ],
              )
        ];
        stay = λ j l is after.
            let d : j ≢ idx = λ q.
              let after' = subst (λ k. (entry_at s idx).ts < (entry_at s k).ts) q after in
              absurd (omega arith) in
            let same = last_other j d in
            (ap (λ (x : WriteHisEntry). x.valid) same ∙ is, ap (λ (x : WriteHisEntry). x.ts) same);
        counted = fewer;
      }

      pub recycled-Granted :
          Granted s
            (reserve_entry fresh ts idx recycled).0
            ts
            (reserve_entry fresh ts idx recycled).1
      recycled-Granted =
          let n = dec32 s.num_versions in
          let t = swapped s v idx in_len (all idx in_len) last_history n in
          let w = swapped-History s v idx in_len (all idx in_len) last_history n last-Swapped in
          let r = swapped-Retains s v idx in_len (all idx in_len) last_history n last-Swapped in
          record {
            history = History-recast t true idx ts t.max_served_rts t.requests t.heap w;
            reserved = record {
              inside = in_len;
              waiting = ap (λ (x : WriteHisEntry). x.valid) last_own;
              has_row =
                  λ z. v.base (sym row_is ∙ ap (λ (x : WriteHisEntry). x.row) (sym last_own) ∙ z);
              only = λ j l d is.
                  let off = ap (λ (x : WriteHisEntry). x.valid) (sym (last_other j d)) ∙ is in
                  let on = all j l in absurd (cc);
              newer = newer;
              after_reads = after_reads;
              timed = timed;
            };
            retains =
                Retains-recast s t true idx ts t.max_served_rts t.requests t.heap r (λ x y z. refl);
            exists_prewrite = refl;
            prewrite_ts = refl;
            own_row = ap (λ (x : WriteHisEntry). x.row) last_own;
            latest_wts = refl;
            latest_row = refl;
            max_served_rts = refl;
            requests = refl;
          }
