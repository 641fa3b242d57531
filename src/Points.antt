-- ===== src/Points.antt =====
-- DataPoint.h, Node.h and MappingOutstation.h: the records of points that the stations share.
-- An `int` is a ℤ; where a sum may pass 2 ^ 31, the definition says what it does. A `time_t` is a ℕ.
use ics_trafficgen.Base.{
  ℕ, ◌+◌, ◌≡◌, Bool, String, ℤ, pos, negsuc, Map, lookup_or, insert, ltb, ◌&&◌, int_max, str_eq,
  if◌then◌else◌, lookup_or-insert, eq_iff, arith,
}

-- What the program uses of the type `double`: `==`, and the conversions.
pub record Doubles (D : Type 0) : Type 0 where
  pub zero_value : D
  pub eq : D → D → Bool
  pub of_int : ℤ → D
  pub of_bool : Bool → D
  pub of_uint32 : ℕ → D
  pub to_bool : D → Bool
  pub to_uint32 : D → ℕ
  pub round_int : D → ℤ

pub record DataPoint (F : Type 0) : Type 0 where
  pub index : ℤ
  pub s_variation : ℤ
  pub e_variation : ℤ
  pub event_class : ℤ
  pub point_type : String
  pub deadband : F

pub record MappedDataPoint : Type 0 where
  pub index : ℤ
  pub input_index : ℤ
  pub point_type : String

pub record Dnp3Point (D : Type 0) : Type 0 where
  pub value : D
  pub timestamp : ℕ

-- `if (dbSize[type] < index + 1) dbSize[type] = index + 1;` A size is never below 0, so a negative
-- index leaves it. At the largest `int` the sum overflows, which C++ leaves undefined: here it wraps to
-- the smallest one, which is below every size.
unfoldable pub grow : String → ℤ → Map ℕ → Map ℕ
grow t (pos i) sizes =
    let more = if ltb (lookup_or 0 t sizes) (i + 1) then insert t (i + 1) sizes else sizes in
    if ltb i int_max then more else sizes
grow t (negsuc i) sizes = sizes

-- What `grow` does to the size of each type.
pub lookup_or-grow :
    (t u : String) (i : ℕ) (sizes : Map ℕ)
    → lookup_or 0 u (grow t (pos i) sizes) ≡ (
        if str_eq t u
        then (if ltb i int_max && ltb (lookup_or 0 t sizes) (i + 1)
            then i + 1
            else lookup_or 0 t sizes)
        else lookup_or 0 u sizes)
unfolding grow
lookup_or-grow t u i sizes = ground (arith, lookup_or-insert 0 t u (i + 1) sizes, eq_iff t u)
