-- ===== src/StringUtilities.antt =====
-- StringUtilities.cpp. A string is the list of its characters' codes.
pub mod Trim
use ics_trafficgen.Base.{
  ℕ, List, [], ◌∷◌, ◌++◌, Bool, true, false, ◌==◌, if◌then◌else◌, ◌≡◌, ◌≢◌, refl, arith, ap, ◌∙◌,
  All, not, any,
}

-- a character in front of the tokens of what follows it
abbrev pub put_front : ℕ → List (List ℕ) → List (List ℕ)
put_front c [] = (c ∷ []) ∷ []
put_front c (t ∷ ts) = (c ∷ t) ∷ ts

-- `split`: the tokens that `getline` reads; a delimiter at the end begins no token.
unfoldable pub split : ℕ → List ℕ → List (List ℕ)
split d [] = []
split d (c ∷ cs) =
    let rest = split d cs in
    if c == d then [] ∷ rest else elim cs [ [] ↦ (c ∷ []) ∷ [] | _ ∷ _ ↦ put_front c rest ]

-- The tokens with a delimiter behind each, and then the last one.
abbrev pub joined : ℕ → List (List ℕ) → List ℕ → List ℕ
joined d [] last = last
joined d (t ∷ ts) last = t ++ d ∷ joined d ts last

abbrev pub Avoids : ℕ → List ℕ → Type 0
Avoids d = All (λ c. (c == d) ≡ false)

split_token : (d : ℕ) (t rest : List ℕ) → Avoids d t → split d (t ++ d ∷ rest) ≡ t ∷ split d rest
unfolding split
split_token d [] rest a = ground arith
split_token d (c ∷ []) rest a = ground arith
split_token d (c ∷ c' ∷ t) rest a = rw (a.0, split_token d (c' ∷ t) rest a.1)

split_last : (d c : ℕ) (t : List ℕ) → Avoids d (c ∷ t) → split d (c ∷ t) ≡ (c ∷ t) ∷ []
unfolding split
split_last d c [] a = rw a.0
split_last d c (c' ∷ t) a = rw (a.0, split_last d c' t a.1)

-- `split` takes joined tokens apart again, if none holds the delimiter and the last is not empty.
pub split-joined :
    (d c : ℕ) (last : List ℕ) (tokens : List (List ℕ))
    → Avoids d (c ∷ last)
    → All (Avoids d) tokens
    → split d (joined d tokens (c ∷ last)) ≡ tokens ++ (c ∷ last) ∷ []
split-joined d c last [] a b = split_last d c last a
split-joined d c last (t ∷ tokens) a b =
    split_token d t _ b.0 ∙ ap (◌∷◌ t) (split-joined d c last tokens a b.1)

-- A text of lines, each of which the delimiter ends, is taken apart into its lines.
pub split-lines :
    (d : ℕ) (tokens : List (List ℕ)) → All (Avoids d) tokens → split d (joined d tokens []) ≡ tokens
unfolding split
split-lines d [] b = refl
split-lines d (t ∷ tokens) b = split_token d t _ b.0 ∙ ap (◌∷◌ t) (split-lines d tokens b.1)
