-- ===== src/Decimal.antt =====
-- Numbers in text, as `operator<<`, `operator>>`, `std::to_string` and `std::stoi` write and read
-- them: digits are the code points 48 to 57.
use ics_trafficgen.Base.{
  ℕ, zero, suc, ◌+◌, ◌-◌, ◌*◌, ◌/◌, ◌%◌, ◌≤◌, ◌<◌, List, [], ◌∷◌, ◌++◌, Bool, true, false, ◌&&◌,
  ltb, leb, if◌then◌else◌, ◌≡◌, refl, ◌∙◌, ap, arith, append_assoc, Bool-cases, inl, inr, All,
  All-append, All-of, ◌==◌,
}

abbrev pub is_digit : ℕ → Bool
is_digit c = leb 48 c && leb c 57

-- The digits of `n`; its own value is fuel enough for the divisions by ten.
unfoldable pub digits : ℕ → ℕ → List ℕ
digits zero n = (48 + n) ∷ []
digits (suc f) n = if ltb n 10 then (48 + n) ∷ [] else digits f (n / 10) ++ (48 + n % 10) ∷ []

unfoldable pub print : ℕ → List ℕ
unfolding digits
print n = digits n n

-- The number that the digits at the front continue, and the text after them.
unfoldable pub scan : ℕ → List ℕ → ℕ × List ℕ
scan acc [] = (acc, [])
scan acc (c ∷ cs) =
    let more = scan (acc * 10 + (c - 48)) cs in if is_digit c then more else (acc, c ∷ cs)

-- The text does not go on with a digit.
abbrev pub NoDigit : List ℕ → Type 0
NoDigit [] = Unit
NoDigit (c ∷ cs) = is_digit c ≡ false

scan-digit : (acc d : ℕ) (cs : List ℕ) → d < 10 → scan acc ((48 + d) ∷ cs) ≡ scan (acc * 10 + d) cs
unfolding scan
scan-digit acc d cs h =
    let e : 48 + d - 48 ≡ d = omega arith in
    let t : is_digit (48 + d) ≡ true = ground arith in rw (t, e)

scan-digits : (f n : ℕ) (rest : List ℕ) → n ≤ f → scan 0 (digits f n ++ rest) ≡ scan n rest
unfolding digits
scan-digits zero n rest h = scan-digit 0 n rest (omega arith) ∙ ap (λ m. scan m rest) (omega arith)
scan-digits (suc f) n rest h = elim (Bool-cases (ltb n 10)) [
  | inl small ↦ rw small (scan-digit 0 n rest (ground arith) ∙ ap (λ m. scan m rest) (omega arith))
  | inr large ↦
      rw (large, append_assoc)
        (scan-digits f (n / 10) _ (ground arith)
          ∙ scan-digit (n / 10) (n % 10) rest (omega arith)
          ∙ ap (λ m. scan m rest) (omega arith))
]

scan_stops : (n : ℕ) (rest : List ℕ) → NoDigit rest → scan n rest ≡ (n, rest)
unfolding scan
scan_stops n [] h = refl
scan_stops n (c ∷ cs) h = rw h

-- Scanning a printed number, followed by a text that does not begin with a digit, gives the number
-- and that text.
pub scan-print : (n : ℕ) (rest : List ℕ) → NoDigit rest → scan 0 (print n ++ rest) ≡ (n, rest)
unfolding print
scan-print n rest h = scan-digits n n rest (omega arith) ∙ scan_stops n rest h

pub digits-digit : (f n : ℕ) → n ≤ f → All (λ c. is_digit c ≡ true) (digits f n)
unfolding digits
digits-digit zero n h = (ground arith, tt)
digits-digit (suc f) n h = elim (Bool-cases (ltb n 10)) [
  | inl small ↦ rw small (ground arith, tt)
  | inr large ↦ rw large (
      All-append (λ c. is_digit c ≡ true) (digits f (n / 10)) _
        (digits-digit f (n / 10) (ground arith)) (ground arith, tt))
]

pub digits-cons : (f n : ℕ) → (c : ℕ) × (cs : List ℕ) × (digits f n ≡ c ∷ cs)
unfolding digits
digits-cons zero n = (48 + n, [], refl)
digits-cons (suc f) n = elim (Bool-cases (ltb n 10)) [
  | inl small ↦ (48 + n, [], rw small refl)
  | inr large ↦
      let (c, cs, e) = digits-cons f (n / 10) in (c, cs ++ (48 + n % 10) ∷ [], rw (large, e) refl)
]

-- A printed number avoids every character that is not a digit.
pub print-avoids : (d n : ℕ) → is_digit d ≡ false → All (λ c. (c == d) ≡ false) (print n)
unfolding print
print-avoids d n h =
    All-of (λ c. (c == d) ≡ false) (λ c e. ground arith) (digits n n)
      (digits-digit n n (omega arith))
