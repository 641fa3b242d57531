-- ===== src/StringUtilities/Trim.antt =====
-- StringUtilities.cpp: `trim`.
use ics_trafficgen.Base.{
  ℕ, zero, suc, ◌-◌, List, [], ◌∷◌, ◌++◌, Bool, true, false, ◌==◌, if◌then◌else◌, Option, none,
  some, ◌≡◌, refl, arith, ap, All, any, length, append_assoc, length-append,
}

abbrev pub take : ℕ → List ℕ → List ℕ
take zero xs = []
take (suc n) [] = []
take (suc n) (x ∷ xs) = x ∷ take n xs

abbrev pub drop : ℕ → List ℕ → List ℕ
drop zero xs = xs
drop (suc n) [] = []
drop (suc n) (x ∷ xs) = drop n xs

abbrev pub is_delim : List ℕ → ℕ → Bool
is_delim delims c = any (λ d. c == d) delims

-- `find_first_not_of`
unfoldable pub find_first_not_of : List ℕ → List ℕ → Option ℕ
find_first_not_of delims [] = none
find_first_not_of delims (c ∷ cs) =
    let later = find_first_not_of delims cs in
    if is_delim delims c then elim later [ none ↦ none | some i ↦ some (suc i) ] else some 0

-- `find_last_not_of`
unfoldable pub find_last_not_of : List ℕ → List ℕ → Option ℕ
find_last_not_of delims [] = none
find_last_not_of delims (c ∷ cs) = elim (find_last_not_of delims cs) [
  | some i ↦ some (suc i)
  | none ↦ if is_delim delims c then none else some 0
]

-- `trim`; a count of `npos` takes all of the rest
unfoldable pub trim : List ℕ → List ℕ → List ℕ
trim delims source =
    let pos : ℕ = elim (find_first_not_of delims source) [ none ↦ 0 | some i ↦ i ] in
    elim (find_last_not_of delims source) [
      | none ↦ drop pos source
      | some last ↦ take (last - pos) (drop pos source)
    ]

module _ (delims : List ℕ) where
  abbrev pub Blank : List ℕ → Type 0
  Blank = All (λ c. is_delim delims c ≡ true)

  first_after :
      (pre rest : List ℕ) (a : ℕ)
      → Blank pre
      → is_delim delims a ≡ false
      → find_first_not_of delims (pre ++ a ∷ rest) ≡ some (length pre)
  unfolding find_first_not_of
  first_after [] rest a b h = rw h
  first_after (c ∷ pre) rest a b h = rw (b.0, first_after pre rest a b.1 h)

  none_in-Blank : (post : List ℕ) → Blank post → find_last_not_of delims post ≡ none
  unfolding find_last_not_of
  none_in-Blank [] b = refl
  none_in-Blank (c ∷ post) b = rw (none_in-Blank post b.1, b.0)

  last_before :
      (front post : List ℕ) (z : ℕ)
      → Blank post
      → is_delim delims z ≡ false
      → find_last_not_of delims (front ++ z ∷ post) ≡ some (length front)
  unfolding find_last_not_of
  last_before [] post z b h = rw (none_in-Blank post b, h)
  last_before (c ∷ front) post z b h = rw (last_before front post z b h)

  drop-length : (xs ys : List ℕ) → drop (length xs) (xs ++ ys) ≡ ys
  drop-length [] ys = refl
  drop-length (x ∷ xs) ys = drop-length xs ys

  take-length : (xs ys : List ℕ) → take (length xs) (xs ++ ys) ≡ xs
  take-length [] ys = refl
  take-length (x ∷ xs) ys = ap (◌∷◌ x) (take-length xs ys)

  trim_between :
      (pre mid post : List ℕ) (a z : ℕ)
      → Blank pre
      → Blank post
      → is_delim delims a ≡ false
      → is_delim delims z ≡ false
      → trim delims (pre ++ a ∷ (mid ++ z ∷ post)) ≡ a ∷ mid
  unfolding trim
  trim_between pre mid post a z b b' h k =
      let last : find_last_not_of delims (pre ++ a ∷ (mid ++ z ∷ post))
          ≡ some (length (pre ++ a ∷ mid)) =
        rw (← append_assoc pre (a ∷ mid) (z ∷ post)) (last_before (pre ++ a ∷ mid) post z b' k) in
      let count : length (pre ++ a ∷ mid) - length pre ≡ suc (length mid) =
        omega (arith, length-append pre (a ∷ mid)) in
      rw
        (
          trim,
          last,
          first_after pre (mid ++ z ∷ post) a b h,
          count,
          drop-length pre (a ∷ (mid ++ z ∷ post)),
        )
        (ap (◌∷◌ a) (take-length mid (z ∷ post)))

  none_first : (pre : List ℕ) → Blank pre → find_first_not_of delims pre ≡ none
  unfolding find_first_not_of
  none_first [] b = refl
  none_first (c ∷ pre) b = rw (b.0, none_first pre b.1)

  trim-Blank : (pre : List ℕ) → Blank pre → trim delims pre ≡ pre
  unfolding trim
  trim-Blank pre b = rw (trim, none_in-Blank pre b, none_first pre b)

  -- Of a text of two characters or more that neither begins nor ends with a blank, with blanks round
  -- it, `trim` drops the blanks and also the last character; a text that has only blanks it leaves
  -- as it is.
  pub trim_lem :
      (pre mid post : List ℕ) (a z : ℕ)
      → Blank pre
      → Blank post
      → is_delim delims a ≡ false
      → is_delim delims z ≡ false
      → (trim delims (pre ++ a ∷ (mid ++ z ∷ post)) ≡ a ∷ mid) × (trim delims pre ≡ pre)
  trim_lem pre mid post a z b b' h k = (trim_between pre mid post a z b b' h k, trim-Blank pre b)
