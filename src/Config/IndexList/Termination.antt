-- ===== src/Config/IndexList/Termination.antt =====
-- The loop over the matches of an index list ends by itself: its fuel never runs out.
use ics_trafficgen.Base.{int_max}
use ics_trafficgen.Base.{
  ℕ, zero, suc, ◌+◌, ◌-◌, ◌*◌, ◌≤◌, List, [], ◌∷◌, Option, none, some, Bool, true, false, leb, ◌==◌,
  ◌>>=◌, length, ◌≡◌, refl, sym, ap, ◌∙◌, subst, arith, Bool-cases, inl, inr,
}
use ics_trafficgen.Decimal.{scan, is_digit}
use ics_trafficgen.Config.IndexList.{skip_dashes, begins_with_digit, read_end, ranges, index_ranges}

scan-shorter : (acc : ℕ) (cs : List ℕ) → length (scan acc cs).1 ≤ length cs
unfolding scan
scan-shorter acc [] = omega arith
scan-shorter acc (c ∷ cs) = elim (Bool-cases (is_digit c)) [
  | inl digit ↦ rw digit (omega (arith, scan-shorter (acc * 10 + (c - 48)) cs))
  | inr other ↦ rw other (omega arith)
]

skip_dashes-shorter : (cs : List ℕ) → length (skip_dashes cs) ≤ length cs
unfolding skip_dashes
skip_dashes-shorter [] = omega arith
skip_dashes-shorter (c ∷ cs) = elim (Bool-cases (c == b'-')) [
  | inl dash ↦ rw dash (omega (arith, skip_dashes-shorter cs))
  | inr other ↦ rw other (omega arith)
]

read_end-shorter : (start : ℕ) (cs : List ℕ) → length (read_end start cs).1 ≤ length cs
unfolding read_end
read_end-shorter start cs = elim (Bool-cases (begins_with_digit cs)) [
  | inl digit ↦ rw digit (scan-shorter 0 cs)
  | inr other ↦ rw other (omega arith)
]

-- The text behind a match, from what `scan` gives.
abbrev behind : ℕ × List ℕ → List ℕ
behind r = (read_end r.0 (skip_dashes r.1)).1

scan-strict : (c : ℕ) (cs : List ℕ) → is_digit c ≡ true → length (scan 0 (c ∷ cs)).1 ≤ length cs
unfolding scan
scan-strict c cs digit = rw digit (scan-shorter (0 * 10 + (c - 48)) cs)

behind-shorter : (r : ℕ × List ℕ) → length (behind r) ≤ length r.1
behind-shorter (start, after) =
    omega (arith, read_end-shorter start (skip_dashes after), skip_dashes-shorter after)

-- One match or one skipped character, with the loop on the rest as `r`.
abbrev turn : Bool → ℕ → List ℕ → (List ℕ → Option (List (ℕ × ℕ))) → Option (List (ℕ × ℕ))
turn false c cs r = r cs
turn true c cs r =
    let (start, after) = scan 0 (c ∷ cs) in
    let (end_, rest) = read_end start (skip_dashes after) in
    elim (leb start int_max) [ false ↦ none | true ↦ r rest >>= λ rs. some ((start, end_) ∷ rs) ]

turn-same :
    (b : Bool) (c : ℕ) (cs : List ℕ) (r q : List ℕ → Option (List (ℕ × ℕ)))
    → r cs ≡ q cs
    → r (behind (scan 0 (c ∷ cs))) ≡ q (behind (scan 0 (c ∷ cs)))
    → turn b c cs r ≡ turn b c cs q
turn-same false c cs r q e d = e
turn-same true c cs r q e d =
    let start = (scan 0 (c ∷ cs)).0 in
    let end_ = (read_end start (skip_dashes (scan 0 (c ∷ cs)).1)).0 in
    ap
      (λ o. elim (leb start int_max) [
        | false ↦ none
        | true ↦ o >>= λ rs. some ((start, end_) ∷ rs)
      ])
      d

ranges-turn : (f c : ℕ) (cs : List ℕ) → ranges (suc f) (c ∷ cs) ≡ turn (is_digit c) c cs (ranges f)
unfolding ranges
ranges-turn f c cs = by_cases (is_digit c)
  where
    by_cases :
        (b : Bool)
        → (elim b [
          | false ↦ ranges f cs
          | true ↦
              let (start, after) = scan 0 (c ∷ cs) in
              let (end_, rest) = read_end start (skip_dashes after) in
              elim (leb start int_max) [
                | false ↦ none
                | true ↦ ranges f rest >>= λ rs. some ((start, end_) ∷ rs)
              ]
        ])
          ≡ turn b c cs (ranges f)
    by_cases true = refl
    by_cases false = refl

same_fuel : (f g : ℕ) (cs : List ℕ) → length cs ≤ f → length cs ≤ g → ranges f cs ≡ ranges g cs
unfolding ranges
same_fuel zero zero cs h k = refl
same_fuel zero (suc g) [] h k = refl
same_fuel zero (suc g) (c ∷ cs) h k = elim h [ ]
same_fuel (suc f) zero [] h k = refl
same_fuel (suc f) zero (c ∷ cs) h k = elim k [ ]
same_fuel (suc f) (suc g) [] h k = refl
same_fuel (suc f) (suc g) (c ∷ cs) h k = elim (Bool-cases (is_digit c)) [
  | inl digit ↦
      let less : length (behind (scan 0 (c ∷ cs))) ≤ length cs =
        omega (arith, behind-shorter (scan 0 (c ∷ cs)), scan-strict c cs digit) in
      ranges-turn f c cs
      ∙ turn-same (is_digit c) c cs (ranges f) (ranges g)
          (same_fuel f g cs (omega arith) (omega arith))
          (same_fuel f g (behind (scan 0 (c ∷ cs))) (omega arith) (omega arith))
      ∙ sym (ranges-turn g c cs)
  | inr other ↦
      ranges-turn f c cs
      ∙ subst (λ b. turn b c cs (ranges f) ≡ turn b c cs (ranges g)) (sym other)
          (same_fuel f g cs (omega arith) (omega arith))
      ∙ sym (ranges-turn g c cs)
]

-- The loop over the matches has ended when its fuel is the length of the text: with any more fuel,
-- the ranges are the same.
pub ranges-enough : (fuel : ℕ) (cs : List ℕ) → length cs ≤ fuel → ranges fuel cs ≡ index_ranges cs
unfolding index_ranges
ranges-enough fuel cs h = same_fuel fuel (length cs) cs h (omega arith)
