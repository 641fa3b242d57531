-- ===== src/Config/IndexList.antt =====
-- CfgJsonParser.cpp: the indexes that "Index List" names, by the matches of ([0-9]+)-*([0-9]+)*
pub mod RoundTrip
pub mod Termination
use ics_trafficgen.Base.{int_max}
use ics_trafficgen.Base.{
  ℕ, zero, suc, ◌+◌, ◌-◌, ◌^◌, List, [], ◌∷◌, Option, none, some, Bool, true, false, leb, ◌==◌,
  if◌then◌else◌, ◌>>=◌, length,
}
use ics_trafficgen.Decimal.{scan, is_digit}

-- the dashes that `-*` takes
unfoldable pub skip_dashes : List ℕ → List ℕ
skip_dashes [] = []
skip_dashes (c ∷ cs) = let rest = skip_dashes cs in if c == b'-' then rest else c ∷ cs

abbrev pub begins_with_digit : List ℕ → Bool
begins_with_digit [] = false
begins_with_digit (c ∷ cs) = is_digit c

-- The second group, if it matches: the end of the range, and the text after the match. A number that
-- `std::stoi` rejects leaves the end at the start.
unfoldable pub read_end : ℕ → List ℕ → ℕ × List ℕ
read_end start cs =
    if begins_with_digit cs
    then (let (n, rest) = scan 0 cs in (if leb n int_max then n else start, rest))
    else (start, cs)

-- The ranges of the matches, in order. Each match takes a digit or more, so the length of the text is
-- fuel enough. `none`: a first number that `std::stoi` rejects, and nothing catches.
unfoldable pub ranges : ℕ → List ℕ → Option (List (ℕ × ℕ))
ranges zero cs = some []
ranges (suc fuel) [] = some []
ranges (suc fuel) (c ∷ cs) = elim (is_digit c) [
  | false ↦ ranges fuel cs
  | true ↦
      let (start, after) = scan 0 (c ∷ cs) in
      let (end_, rest) = read_end start (skip_dashes after) in
      elim (leb start int_max) [
        | false ↦ none
        | true ↦ ranges fuel rest >>= λ rs. some ((start, end_) ∷ rs)
      ]
]

unfoldable pub index_ranges : List ℕ → Option (List (ℕ × ℕ))
index_ranges cs = ranges (length cs) cs

-- `for (int i = startIndex; i <= endIndex; i++)`
unfoldable pub count_up : ℕ → ℕ → List ℕ
count_up i zero = []
count_up i (suc n) = i ∷ count_up (i + 1) n

abbrev pub indexes_of : ℕ × ℕ → List ℕ
indexes_of (start, end_) = count_up start (end_ + 1 - start)
