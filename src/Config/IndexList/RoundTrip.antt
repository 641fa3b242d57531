-- ===== src/Config/IndexList/RoundTrip.antt =====
-- The text of an index list, and the ranges that are read from it.
use ics_trafficgen.Base.{int_max}
use ics_trafficgen.Base.{
  ℕ, zero, suc, ◌+◌, ◌/◌, ◌≤◌, List, [], ◌∷◌, ◌++◌, some, true, leb, ltb, ◌>>=◌, ◌≡◌, refl, sym, ap,
  ◌∙◌, subst, All, length, length-append, arith, Bool-cases, inl, inr,
}
use ics_trafficgen.Decimal.{is_digit, digits, print, scan, scan-print}
use ics_trafficgen.Config.IndexList.{skip_dashes, begins_with_digit, read_end, ranges, index_ranges}

-- Ranges as a configuration writes them: `3-7,10-10,`.
abbrev pub text_of : List (ℕ × ℕ) → List ℕ
text_of [] = []
text_of ((a, b) ∷ rs) = print a ++ b'-' ∷ (print b ++ b',' ∷ text_of rs)

-- The text begins with a digit.
record StartsWithDigit (cs : List ℕ) : Type 0 where
  first : ℕ
  others : List ℕ
  split_up : cs ≡ first ∷ others
  digit : is_digit first ≡ true

StartsWithDigit-append : (cs ds : List ℕ) → StartsWithDigit cs → StartsWithDigit (cs ++ ds)
StartsWithDigit-append cs ds s = record {
  first = s.first;
  others = s.others ++ ds;
  split_up = ap (λ x. x ++ ds) s.split_up;
  digit = s.digit;
}

digits-StartsWithDigit : (f n : ℕ) → n ≤ f → StartsWithDigit (digits f n)
unfolding digits
digits-StartsWithDigit zero n h = record {
  first = 48 + n;
  others = [];
  split_up = refl;
  digit = ground arith;
}
digits-StartsWithDigit (suc f) n h = elim (Bool-cases (ltb n 10)) [
  | inl small ↦
      rw small (record { first = 48 + n; others = []; split_up = refl; digit = ground arith })
  | inr large ↦ rw large (
      StartsWithDigit-append (digits f (n / 10)) _
        (digits-StartsWithDigit f (n / 10) (ground arith)))
]

print-StartsWithDigit : (n : ℕ) (cs : List ℕ) → StartsWithDigit (print n ++ cs)
unfolding print
print-StartsWithDigit n cs =
    StartsWithDigit-append (digits n n) cs (digits-StartsWithDigit n n (omega arith))

skip_dashes-digit : (c : ℕ) (cs : List ℕ) → is_digit c ≡ true → skip_dashes (b'-' ∷ c ∷ cs) ≡ c ∷ cs
unfolding skip_dashes
skip_dashes-digit c cs h = ground arith

skip_dashes-StartsWithDigit : (cs : List ℕ) → StartsWithDigit cs → skip_dashes (b'-' ∷ cs) ≡ cs
skip_dashes-StartsWithDigit cs s =
    subst (λ x. skip_dashes (b'-' ∷ x) ≡ x) (sym s.split_up)
      (skip_dashes-digit s.first s.others s.digit)

begins_with_digit-StartsWithDigit : (cs : List ℕ) → StartsWithDigit cs → begins_with_digit cs ≡ true
begins_with_digit-StartsWithDigit cs s = ap begins_with_digit s.split_up ∙ s.digit

read_end_lem :
    (a b : ℕ) (cs rest : List ℕ)
    → begins_with_digit cs ≡ true
    → scan 0 cs ≡ (b, rest)
    → b ≤ int_max
    → read_end a cs ≡ (b, rest)
unfolding read_end
read_end_lem a b cs rest d e h =
    let small : leb b int_max ≡ true = ground arith in rw (d, e, small) refl

-- One round of `ranges`, by what its parts give.
ranges-round :
    (f a b c : ℕ) (cs after rest : List ℕ)
    → is_digit c ≡ true
    → scan 0 (c ∷ cs) ≡ (a, after)
    → read_end a (skip_dashes after) ≡ (b, rest)
    → a ≤ int_max
    → ranges (suc f) (c ∷ cs) ≡ (ranges f rest >>= λ rs. some ((a, b) ∷ rs))
unfolding ranges
ranges-round f a b c cs after rest d e r h =
    let small : leb a int_max ≡ true = ground arith in rw (ranges, d, e, small, e, r) refl

-- One match: its two numbers, and the text from the comma on.
ranges-match :
    (f a b : ℕ) (rest : List ℕ)
    → a ≤ int_max
    → b ≤ int_max
    → ranges (suc f) (print a ++ b'-' ∷ (print b ++ b',' ∷ rest))
      ≡ (ranges f (b',' ∷ rest) >>= λ rs. some ((a, b) ∷ rs))
ranges-match f a b rest ha hb =
    let second = print b ++ b',' ∷ rest in
    let s = print-StartsWithDigit a (b'-' ∷ second) in
    let t = print-StartsWithDigit b (b',' ∷ rest) in
    ap (ranges (suc f)) s.split_up
    ∙ ranges-round f a b s.first s.others (b'-' ∷ second) (b',' ∷ rest) s.digit
        (ap (scan 0) (sym s.split_up) ∙ scan-print a (b'-' ∷ second) refl)
        (ap (read_end a) (skip_dashes-StartsWithDigit second t)
          ∙ read_end_lem a b second (b',' ∷ rest) (begins_with_digit-StartsWithDigit second t)
              (scan-print b (b',' ∷ rest) refl) hb)
        ha

ranges-comma : (f : ℕ) (rest : List ℕ) → ranges (suc f) (b',' ∷ rest) ≡ ranges f rest
unfolding ranges
ranges-comma f rest = refl

-- Both numbers of each range are an `int`.
abbrev pub FitInt : ℕ × ℕ → Type 0
FitInt (a, b) = (a ≤ int_max) × (b ≤ int_max)

length-text_of :
    (a b : ℕ) (rs : List (ℕ × ℕ)) → 2 + length (text_of rs) ≤ length (text_of ((a, b) ∷ rs))
length-text_of a b rs = omega (
  arith,
  length-append (print a) (b'-' ∷ (print b ++ b',' ∷ text_of rs)),
  length-append (print b) (b',' ∷ text_of rs),
)

ranges-text_of :
    (f : ℕ) (rs : List (ℕ × ℕ))
    → All FitInt rs
    → length (text_of rs) ≤ f
    → ranges f (text_of rs) ≡ some rs
unfolding ranges
ranges-text_of zero [] fit h = refl
ranges-text_of (suc f) [] fit h = refl
ranges-text_of zero ((a, b) ∷ rs) fit h = let l = length-text_of a b rs in absurd (omega arith)
ranges-text_of (suc zero) ((a, b) ∷ rs) fit h =
    let l = length-text_of a b rs in absurd (omega arith)
ranges-text_of (suc (suc f)) ((a, b) ∷ rs) fit h =
    let l = length-text_of a b rs in
    ranges-match (suc f) a b (text_of rs) fit.0.0 fit.0.1
    ∙ ap (λ m. m >>= λ rs. some ((a, b) ∷ rs))
        (ranges-comma f (text_of rs) ∙ ranges-text_of f rs fit.1 (omega arith))

-- If both numbers of each range fit an `int`, then reading the text of a list of ranges, each written
-- as its first number, a dash, its last number and a comma, gives the ranges back.
pub index_ranges-text_of : (rs : List (ℕ × ℕ)) → All FitInt rs → index_ranges (text_of rs) ≡ some rs
unfolding index_ranges
index_ranges-text_of rs fit = ranges-text_of (length (text_of rs)) rs fit (omega arith)
