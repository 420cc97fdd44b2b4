-- ===== src/Vll/Counters.antt =====
-- The counters of Row_vll against the accesses in progress, and the loops of vll.cpp over them.
use dbx1000_bskiplist.Base.{
  ℕ, suc, ◌+◌, arith, List, ◌∷◌, ◌≡◌, Bool, Bool-cases, false, if◌then◌else◌, some, true, ltb, ◌==◌,
  inl, [], not, inr, refl, ◌&&◌, ◌||◌, ◌-◌, ◌>>=◌,
}
use dbx1000_bskiplist.Vll.{
  AccessType, RowVll, is_rd, insert_access, insert_all, remove_all, remove_access, Access, update,
}

-- How many of the accesses are shared, and how many are not.
abbrev pub shared : List AccessType → ℕ
shared [] = 0
shared (a ∷ as') = let rest = shared as' in if is_rd a then suc rest else rest

abbrev pub exclusive : List AccessType → ℕ
exclusive [] = 0
exclusive (a ∷ as') = let rest = exclusive as' in if is_rd a then rest else suc rest

pub record Counts (r : RowVll) (as' : List AccessType) : Type 0 where
  pub cs_exact : r.cs ≡ shared as'
  pub cx_exact : r.cx ≡ exclusive as'

-- Some access in progress is not compatible: two are unless both read.
abbrev pub clashes : AccessType → List AccessType → Bool
clashes type [] = false
clashes type (a ∷ as') = not (is_rd type && is_rd a) || clashes type as'

clashes_rd :
    (type : AccessType) (as' : List AccessType)
    → is_rd type ≡ true
    → clashes type as' ≡ ltb 0 (exclusive as')
clashes_rd type [] e = ground arith
clashes_rd type (a ∷ as') e = ground (arith, clashes_rd type as' e)

clashes_wr :
    (type : AccessType) (as' : List AccessType)
    → is_rd type ≡ false
    → clashes type as' ≡ ltb 0 (shared as' + exclusive as')
clashes_wr type [] e = ground arith
clashes_wr type (a ∷ as') e = ground (arith, clashes_wr type as' e)

-- insert_access counts the access, and says that it is blocked exactly when an access in progress
-- on the row is not compatible with it.
pub insert_access_lem :
    (type : AccessType) (r : RowVll) (as' : List AccessType)
    → Counts r as'
    → Counts (insert_access type r).0 (type ∷ as') × ((insert_access type r).1 ≡ clashes type as')
unfolding insert_access
insert_access_lem type r as' c = elim (Bool-cases (is_rd type)) [
  | inl e ↦ rw e (
    record { cs_exact = ground arith; cx_exact = ground arith },
    ground (arith, clashes_rd type as'),
  )
  | inr e ↦ rw e (
    record { cs_exact = ground arith; cx_exact = ground arith },
    ground (arith, clashes_wr type as'),
  )
]

-- How many shared or other accesses of a list are to the row.
abbrev pub shared_on : ℕ → List Access → ℕ
shared_on x [] = 0
shared_on x (a ∷ as') =
    let rest = shared_on x as' in if x == a.orig_row && is_rd a.type then suc rest else rest

abbrev pub exclusive_on : ℕ → List Access → ℕ
exclusive_on x [] = 0
exclusive_on x (a ∷ as') =
    let rest = exclusive_on x as' in
    if x == a.orig_row && not (is_rd a.type) then suc rest else rest

-- `rows` counts the accesses on top of `base`.
abbrev pub Adds : List Access → (ℕ → RowVll) → (ℕ → RowVll) → Type 0
Adds as' base rows =
    (x : ℕ)
    → ((rows x).cs ≡ (base x).cs + shared_on x as')
      × ((rows x).cx ≡ (base x).cx + exclusive_on x as')

pub insert_all-Adds :
    (as' : List Access) (rows : ℕ → RowVll) → Adds as' rows (insert_all as' rows).0
unfolding insert_all insert_access
insert_all-Adds [] rows x = omega arith
insert_all-Adds (a ∷ as') rows x = ground (
  arith,
  insert_all-Adds as' (update rows a.orig_row (insert_access a.type (rows a.orig_row)).0) x,
)

abbrev pub lowered : AccessType → RowVll → RowVll
lowered type r = if is_rd type then record r { cs = r.cs - 1 } else record r { cx = r.cx - 1 }

remove_access_total :
    (type : AccessType) (r : RowVll)
    → (if is_rd type then ltb 0 r.cs else ltb 0 r.cx) ≡ true
    → remove_access type r ≡ some (lowered type r)
unfolding remove_access
remove_access_total type r h = ground arith

Adds-lowered :
    (a : Access) (as' : List Access) (base rows : ℕ → RowVll)
    → Adds (a ∷ as') base rows
    → Adds as' base (update rows a.orig_row (lowered a.type (rows a.orig_row)))
Adds-lowered a as' base rows h x = ground (arith, h x)

-- The accesses can be removed from any counters that contain them, and leave the rest.
pub remove_all_total :
    (as' : List Access) (base rows : ℕ → RowVll)
    → Adds as' base rows
    → (after : ℕ → RowVll) × (remove_all as' rows ≡ some after) × ((x : ℕ) → after x ≡ base x)
unfolding remove_all
remove_all_total [] base rows h = (rows, refl, λ x. ground (arith, h x))
remove_all_total (a ∷ as') base rows h =
    let hit = h a.orig_row in
    let (after, run, left) =
      remove_all_total as' base (update rows a.orig_row (lowered a.type (rows a.orig_row)))
        (Adds-lowered a as' base rows h) in
    (
      after,
      rw (remove_access_total a.type (rows a.orig_row) (ground (arith, hit)), ◌>>=◌) run,
      left,
    )
