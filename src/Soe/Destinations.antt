-- ===== src/Soe/Destinations.antt =====
-- The destinations of a handler: `Process` goes through a list of shared outstations.
use ics_trafficgen.Base.{
  ℕ, zero, suc, ◌+◌, String, List, [], ◌∷◌, Option, none, some, Bool, true, false, ◌==◌, ==_iff,
  get_elem?, set, countb, if◌then◌else◌, ◌≡◌, ◌≢◌, refl, sym, ap, ◌∙◌, Option-cases, Bool-cases,
  inl, inr, arith, get_elem?-set_self, get_elem?-set_ne, lt_of_get_elem?,
}
use ics_trafficgen.Points.{Doubles}
use ics_trafficgen.Mapping.{MappingOutstation}
use ics_trafficgen.Soe.{Collection, MappingSoeHandler, process_at, process_all, process}

module _ {A : Type 0} (f : A → A) where
  -- `n` applications, if there is a value.
  abbrev pub repeated : ℕ → Option A → Option A
  repeated n none = none
  repeated zero (some a) = some a
  repeated (suc n) (some a) = repeated n (some (f a))

  repeated-zero : (o : Option A) → o ≡ repeated 0 o
  repeated-zero none = refl
  repeated-zero (some a) = refl

  abbrev visit : ℕ → List A → List A
  visit q xs = elim (get_elem? xs q) [ none ↦ xs | some a ↦ set xs q (f a) ]

  repeated-step :
      (b : Bool) (n : ℕ) (o : Option A)
      → repeated n (if b then repeated 1 o else o) ≡ repeated ((if b then 1 else 0) + n) o
  repeated-step true n none = refl
  repeated-step true n (some a) =
      let e : suc n ≡ 1 + n = omega arith in ap (λ k. repeated k (some a)) e
  repeated-step false n o = let e : n ≡ 0 + n = omega arith in ap (λ k. repeated k o) e

  visited : (q : ℕ) (xs : List A) → get_elem? (visit q xs) q ≡ repeated 1 (get_elem? xs q)
  visited q xs =
      let V : Option A → List A = λ o. elim o [ none ↦ xs | some a ↦ set xs q (f a) ] in
      elim (Option-cases (get_elem? xs q)) [
        | inl missing ↦
            ap (λ o. get_elem? (V o) q) missing ∙ missing ∙ ap (repeated 1) (sym missing)
        | inr (a, found) ↦
            ap (λ o. get_elem? (V o) q) found
            ∙ get_elem?-set_self xs q (f a) (lt_of_get_elem? xs q found)
            ∙ ap (repeated 1) (sym found)
      ]

  missed : (q r : ℕ) (xs : List A) → q ≢ r → get_elem? (visit q xs) r ≡ get_elem? xs r
  missed q r xs ne =
      let V : Option A → List A = λ o. elim o [ none ↦ xs | some a ↦ set xs q (f a) ] in
      elim (Option-cases (get_elem? xs q)) [
        | inl missing ↦ ap (λ o. get_elem? (V o) r) missing
        | inr (a, found) ↦ ap (λ o. get_elem? (V o) r) found ∙ get_elem?-set_ne xs (f a) ne
      ]

  differ : {b : Bool} → b ≡ true → b ≢ false
  differ t e = cc

  get_elem?-visit :
      (q r : ℕ) (xs : List A)
      → get_elem? (visit q xs) r ≡ (if q == r then repeated 1 (get_elem? xs r) else get_elem? xs r)
  get_elem?-visit q r xs = elim (Bool-cases (q == r)) [
    | inl same ↦
        let e : q ≡ r = (==_iff q r).0 same in
        rw same (
          ap (λ k. get_elem? (visit q xs) k) (sym e)
          ∙ visited q xs
          ∙ ap (λ k. repeated 1 (get_elem? xs k)) e)
    | inr other ↦ rw other (missed q r xs (λ e. differ ((==_iff q r).1 e) other))
  ]

module _ {D : Type 0} (ops : Doubles D) where
  process_all-at :
      (src : String) (c : Collection D) (rs : List ℕ) (ms : List (MappingOutstation D)) (r : ℕ)
      → get_elem? (process_all ops src c rs ms) r
        ≡ repeated (process_at ops src c) (countb (λ q. q == r) rs) (get_elem? ms r)
  unfolding process_all
  process_all-at src c [] ms r = repeated-zero (process_at ops src c) (get_elem? ms r)
  process_all-at src c (q ∷ rs) ms r =
      let f = process_at ops src c in
      process_all-at src c rs (visit f q ms) r
      ∙ ap (repeated f (countb (λ q. q == r) rs)) (get_elem?-visit f q r ms)
      ∙ repeated-step f (q == r) (countb (λ q. q == r) rs) (get_elem? ms r)

  -- A batch of measurements reaches each shared outstation once for every time that it stands in the
  -- handler's list of destinations, and no other outstation.
  pub process_lem :
      (h : MappingSoeHandler) (c : Collection D) (ms : List (MappingOutstation D)) (r : ℕ)
      → get_elem? (process ops h c ms) r
        ≡ repeated
            (process_at ops h.src_name c)
            (countb (λ q. q == r) h.destination_list)
            (get_elem? ms r)
  unfolding process
  process_lem h c ms r = process_all-at h.src_name c h.destination_list ms r
