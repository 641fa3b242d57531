-- ===== src/Station.antt =====
-- Station.h and Station.cpp: the tables of variations, and `ConfigureDatabase`. `opendnp3` and
-- `asiodnp3` are not part of the repository: an enumerator such as Group30Var5 is its two numbers.
pub mod Database
pub mod Rounds
pub mod Starting
use ics_trafficgen.Base.{
  ℕ, String, List, [], ◌∷◌, Map, Option, none, some, Bool, true, false, ℤ, pos, negsuc, ◌==◌,
  if◌then◌else◌, str_eq,
}

pub record Variation : Type 0 where
  pub group : ℕ
  pub number : ℕ

-- `opendnp3::PointClass`; `no_class` is the enumeration's 0, which has no name there.
pub data PointClass : Type 0 where
  no_class : PointClass
  class0 : PointClass
  class1 : PointClass
  class2 : PointClass
  class3 : PointClass

-- A table with a variation of one group for each of the numbers, which are its keys.
pub record Table : Type 0 where
  pub group : ℕ
  pub numbers : List ℕ

abbrev pub s_analog_input : Table
s_analog_input = record { group = 30; numbers = 1 ∷ 2 ∷ 3 ∷ 4 ∷ 5 ∷ 6 ∷ [] }

abbrev pub e_analog_input : Table
e_analog_input = record { group = 32; numbers = 1 ∷ 2 ∷ 3 ∷ 4 ∷ 5 ∷ 6 ∷ 7 ∷ 8 ∷ [] }

abbrev pub s_counter : Table
s_counter = record { group = 20; numbers = 1 ∷ 2 ∷ 5 ∷ 6 ∷ [] }

abbrev pub e_counter : Table
e_counter = record { group = 22; numbers = 1 ∷ 2 ∷ 5 ∷ 6 ∷ [] }

abbrev pub s_frozen_counter : Table
s_frozen_counter = record { group = 21; numbers = 1 ∷ 2 ∷ 5 ∷ 6 ∷ 9 ∷ 10 ∷ [] }

abbrev pub e_frozen_counter : Table
e_frozen_counter = record { group = 23; numbers = 1 ∷ 2 ∷ 5 ∷ 6 ∷ [] }

abbrev pub s_binary : Table
s_binary = record { group = 1; numbers = 1 ∷ 2 ∷ [] }

abbrev pub e_binary : Table
e_binary = record { group = 2; numbers = 1 ∷ 2 ∷ 3 ∷ [] }

abbrev pub s_double_binary : Table
s_double_binary = record { group = 3; numbers = 2 ∷ [] }

abbrev pub e_double_binary : Table
e_double_binary = record { group = 4; numbers = 1 ∷ 2 ∷ 3 ∷ [] }

-- `pointClassVarMap[std::to_string(c)]`: at a missing key, the value that is 0
unfoldable pub point_class : ℤ → PointClass
point_class (pos n) =
    if n == 0
    then class0
    else if n == 1
    then class1
    else if n == 2
    then class2
    else if n == 3
    then class3
    else no_class
point_class (negsuc n) = no_class

abbrev pub is_key : List ℕ → ℕ → Bool
is_key [] n = false
is_key (k ∷ ks) n = if k == n then true else is_key ks n

-- `try { table.at(v); } catch (out_of_range) { v = other; }`, and then `table[v]`
unfoldable pub variation : Table → ℕ → ℤ → Variation
variation table other (pos n) = record {
  group = table.group;
  number = if is_key table.numbers n then n else other;
}
variation table other (negsuc n) = record { group = table.group; number = other }
