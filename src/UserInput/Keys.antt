-- ===== src/UserInput/Keys.antt =====
-- `std::unordered_map<int, std::string>` as a list of entries with different keys.
use ics_trafficgen.Base.{
  ℕ, ◌+◌, String, List, [], ◌∷◌, Option, none, some, Bool, true, false, ◌||◌, ◌==◌, length,
  if◌then◌else◌, ◌≡◌, refl, arith, Bool-cases, inl, inr, ==_iff,
}

abbrev pub lookup : ℕ → List (ℕ × String) → Option String
lookup k [] = none
lookup k ((j, v) ∷ m) = if j == k then some v else lookup k m

abbrev pub has_key : ℕ → List (ℕ × String) → Bool
has_key k [] = false
has_key k ((j, v) ∷ m) = j == k || has_key k m

abbrev pub erase : ℕ → List (ℕ × String) → List (ℕ × String)
erase k [] = []
erase k ((j, v) ∷ m) = if j == k then erase k m else (j, v) ∷ erase k m

-- `m[k] = v`
abbrev pub put : ℕ → String → List (ℕ × String) → List (ℕ × String)
put k v m = (k, v) ∷ erase k m

abbrev pub Unique : List (ℕ × String) → Type 0
Unique [] = Unit
Unique ((k, v) ∷ m) = (lookup k m ≡ none) × Unique m

pub lookup-erase :
    (k j : ℕ) (m : List (ℕ × String)) → lookup j (erase k m) ≡ (if k == j then none else lookup j m)
lookup-erase k j [] = ground arith
lookup-erase k j ((i, v) ∷ m) = ground (arith, lookup-erase k j m)

pub erase_missing : (k : ℕ) (m : List (ℕ × String)) → lookup k m ≡ none → erase k m ≡ m
erase_missing k [] h = refl
erase_missing k ((j, v) ∷ m) h = ground (arith, erase_missing k m)

pub erase-Unique : (k : ℕ) (m : List (ℕ × String)) → Unique m → Unique (erase k m)
erase-Unique k [] u = tt
erase-Unique k ((j, v) ∷ m) u = ground (arith, erase-Unique k m u.1, lookup-erase k j m)

pub length-erase :
    (k : ℕ) (m : List (ℕ × String)) {v : String}
    → Unique m
    → lookup k m ≡ some v
    → length (erase k m) + 1 ≡ length m
length-erase k [] u h = cc
length-erase k ((j, w) ∷ m) u h = elim (Bool-cases (j == k)) [
  | inl same ↦
      let e : j ≡ k = (==_iff j k).0 same in
      let gone : erase k m ≡ m = erase_missing k m (rw e at u.0) in rw (same, gone) (omega arith)
  | inr other ↦ rw other (omega (arith, length-erase k m u.1 (rw other at h)))
]

pub has_key_of_lookup :
    (k : ℕ) (m : List (ℕ × String)) (v : String) → lookup k m ≡ some v → has_key k m ≡ true
has_key_of_lookup k [] v h = cc
has_key_of_lookup k ((j, w) ∷ m) v h = ground (arith, has_key_of_lookup k m v)
