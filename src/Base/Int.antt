-- ===== src/Base/Int.antt =====
-- Signed integers over the native numbers. `negsuc n` is -(n + 1).
use Prim.Native.Nat.{ℕ, zero, suc, ◌-◌, ◌%◌, ◌<◌}
use mathlib.Core.Path.{◌≡◌, refl}
use mathlib.Core.Logic.{◌↔◌}
use mathlib.Core.Bool.{Bool, true, false}
use mathlib.Core.List.{List}
use mathlib.Core.Option.{Option, none, some}
use native.Mathlib.Omega.{arith}
use ics_trafficgen.Base.Tests.{◌==◌, ltb, if◌then◌else◌}
use ics_trafficgen.Base.Lists.{
  get_elem?, set, length, length-set, get_elem?_of_lt, get_elem?-set_self,
}

pub data ℤ : Type 0 where
  pos : ℕ → ℤ
  negsuc : ℕ → ℤ

-- Equality of integers.
abbrev pub int_eq : ℤ → ℤ → Bool
int_eq (pos m) (pos n) = m == n
int_eq (pos m) (negsuc n) = false
int_eq (negsuc m) (pos n) = false
int_eq (negsuc m) (negsuc n) = m == n

pub int_eq_iff : (a b : ℤ) → (int_eq a b ≡ true) ↔ (a ≡ b)
int_eq_iff (pos m) (pos n) = ground arith
int_eq_iff (pos m) (negsuc n) = ground arith
int_eq_iff (negsuc m) (pos n) = ground arith
int_eq_iff (negsuc m) (negsuc n) = ground arith

-- The conversion to `uint16_t`: the residue modulo 2 ^ 16.
abbrev pub to_u16 : ℤ → ℕ
to_u16 (pos n) = n % 65536
to_u16 (negsuc n) = 65535 - n % 65536

pub to_u16-lt : (z : ℤ) → to_u16 z < 65536
to_u16-lt (pos n) = omega arith
to_u16-lt (negsuc n) = omega arith

-- i - 1
abbrev pub dec_int : ℤ → ℤ
dec_int (pos zero) = negsuc 0
dec_int (pos (suc n)) = pos n
dec_int (negsuc n) = negsuc (suc n)

-- `INT_MAX`
abbrev pub int_max : ℕ
int_max = 2147483647

-- The conversion to a 32-bit `int`: the residue modulo 2 ^ 32 from -2 ^ 31 to 2 ^ 31 - 1.
abbrev pub to_i32 : ℤ → ℤ
to_i32 (pos n) =
    let r : ℕ = n % 4294967296 in if ltb r 2147483648 then pos r else negsuc (4294967295 - r)
to_i32 (negsuc n) =
    let r : ℕ = n % 4294967296 in if ltb r 2147483648 then negsuc r else pos (4294967295 - r)

-- The index for a key of a Lua table, in an `int`: the key less one.
abbrev pub index_of : ℤ → ℤ
index_of k = to_i32 (dec_int k)

module _ {ℓ} {A : Type ℓ} where
  -- `v[i]` of a vector: `none` is an access out of bounds, which C++ leaves undefined.
  abbrev pub read_at : List A → ℤ → Option A
  read_at xs (pos i) = get_elem? xs i
  read_at xs (negsuc i) = none

  -- `v[i] = a`, in the same way.
  abbrev pub write_at : List A → ℤ → A → Option (List A)
  write_at xs (pos i) a = elim (get_elem? xs i) [ none ↦ none | some _ ↦ some (set xs i a) ]
  write_at xs (negsuc i) a = none

-- The integer is an index of a vector of this length.
abbrev pub InRange : ℤ → ℕ → Type 0
InRange (pos i) n = i < n
InRange (negsuc i) n = ⊥

module _ {ℓ} {A : Type ℓ} where
  -- The list after a write in range.
  abbrev pub put : List A → ℤ → A → List A
  put xs (pos i) a = set xs i a
  put xs (negsuc i) a = xs

  pub length-put : (xs : List A) (z : ℤ) (a : A) → length (put xs z a) ≡ length xs
  length-put xs (pos i) a = length-set xs i a
  length-put xs (negsuc i) a = refl

  pub read_at_of_InRange :
      (xs : List A) (z : ℤ) → InRange z (length xs) → (a : A) × (read_at xs z ≡ some a)
  read_at_of_InRange xs (pos i) h = get_elem?_of_lt xs i h
  read_at_of_InRange xs (negsuc i) h = absurd h

  pub write_at_of_InRange :
      (xs : List A) (z : ℤ) (a : A) → InRange z (length xs) → write_at xs z a ≡ some (put xs z a)
  write_at_of_InRange xs (pos i) a h = let (b, e) = get_elem?_of_lt xs i h in rw (write_at, e)
  write_at_of_InRange xs (negsuc i) a h = absurd h

  pub read_at-put :
      (xs : List A) (z : ℤ) (a : A) → InRange z (length xs) → read_at (put xs z a) z ≡ some a
  read_at-put xs (pos i) a h = get_elem?-set_self xs i a h
  read_at-put xs (negsuc i) a h = absurd h
