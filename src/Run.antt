-- ===== src/Run.antt =====
-- Calls that may fail an assertion or run out of the fuel of a loop: access of row_ts.cpp, and the
-- searches of storage/RW_bskiplist, where a failure is also the use of a null pointer.
use dbx1000_bskiplist.Base.{Option, some, none, ◌≡◌}

-- A call ends, fails an assertion, or runs out of the fuel of its loop.
pub data Run (A : Type 0) : Type 0 where
  done : A → Run A
  failed : Run A
  no_fuel : Run A

infixl 5 ◌>>=◌
abbrev pub ◌>>=◌ : {A B : Type 0} → Run A → (A → Run B) → Run B
done a >>= f = f a
failed >>= f = failed
no_fuel >>= f = no_fuel

-- The use of a pointer.
abbrev pub deref : {A : Type 0} → Option A → Run A
deref none = failed
deref (some a) = done a

-- A call ends, in a state with the property.
abbrev pub Ends : {A : Type 0} → (A → Type 0) → Run A → Type 0
Ends P (done a) = P a
Ends P failed = ⊥
Ends P no_fuel = ⊥

pub Ends-done : {A : Type 0} (P : A → Type 0) (r : Run A) (a : A) → r ≡ done a → Ends P r → P a
Ends-done P r a e h = rw e at h

pub Ends-bind :
    {A B : Type 0} {P : A → Type 0} (Q : B → Type 0) (r : Run A) (f : A → Run B)
    → Ends P r
    → ((a : A) → P a → Ends Q (f a))
    → Ends Q (r >>= f)
Ends-bind Q (done a) f h k = k a h
Ends-bind Q failed f h k = absurd h
Ends-bind Q no_fuel f h k = absurd h
