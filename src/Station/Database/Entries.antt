-- ===== src/Station/Database/Entries.antt =====
-- What ConfigureDatabase leaves in the vectors of the view: at each index, the settings of the last
-- point with that type and index, and elsewhere what was there.
use ics_trafficgen.Base.{
  ℕ, zero, suc, List, [], ◌∷◌, Option, none, some, Bool, true, false, ℤ, pos, negsuc, int_eq, ◌&&◌,
  ◌==◌, ◌>>=◌, get_elem?, get_elem?-set_self, get_elem?-set_ne, set, length, if◌then◌else◌, ◌<◌,
  ◌≡◌, ◌≢◌, refl, sym, ◌∙◌, subst, arith, Returns, Returns-always, Returns-then, Returns-imp,
  write_at, Bool-cases, inl, inr, Option-cases,
}
use ics_trafficgen.Points.{DataPoint}
use ics_trafficgen.Station.{
  s_analog_input, e_analog_input, s_counter, e_counter, s_frozen_counter, e_frozen_counter,
  s_binary, e_binary, s_double_binary, e_double_binary,
}
use ics_trafficgen.Station.Database.{
  PointConfig, Database, InputType, analog_input, binary_input, double_binary_input, counter_input,
  frozen_counter_input, other_type, input_type, point_config, configure_as, configure_database,
  set_deadband,
}

-- The place of a type among the vectors.
abbrev pub place : InputType → ℕ
place analog_input = 0
place binary_input = 1
place double_binary_input = 2
place counter_input = 3
place frozen_counter_input = 4
place other_type = 5

-- The entry at an index of one of several vectors.
abbrev pub entry_in : List (List PointConfig) → ℕ → ℕ → Option PointConfig
entry_in v k i = get_elem? v k >>= λ xs. get_elem? xs i

in_range : {A : Type 0} (ys : List A) (n : ℕ) (y : A) → get_elem? ys n ≡ some y → n < length ys
in_range [] n y h = cc
in_range (y' ∷ ys) zero y h = omega arith
in_range (y' ∷ ys) (suc n) y h = omega (arith, in_range ys n y h)

-- What a write leaves at an index.
written :
    {A : Type 0} (xs : List A) (z : ℤ) (c : A) (i : ℕ)
    → Returns
        (λ ys. get_elem? ys i ≡ (if int_eq (pos i) z then some c else get_elem? xs i))
        (write_at xs z c)
written {A} xs (negsuc j) c i = tt
written {A} xs (pos j) c i =
    let P : List A → Type 0 = λ ys. get_elem? ys i ≡ (if i == j then some c else get_elem? xs i) in
    let Q : Option A → Type 0 =
      λ o. Returns P (elim o [ none ↦ none | some _ ↦ some (set xs j c) ]) in
    elim (Option-cases (get_elem? xs j)) [
      | inl missing ↦ subst Q (sym missing) tt
      | inr (x, e) ↦ subst Q (sym e) (set_lem (in_range xs j x e))
    ]
  where
    set_lem : j < length xs → get_elem? (set xs j c) i ≡ (if i == j then some c else get_elem? xs i)
    set_lem r = elim (Bool-cases (i == j)) [
      | inl same ↦ let k : i ≡ j = ground arith in rw (same, k) (get_elem?-set_self xs j c r)
      | inr other ↦ let ne : j ≢ i = ground arith in rw other (get_elem?-set_ne xs c ne)
    ]

-- The same for one vector of several.
entry_written :
    (v : List (List PointConfig)) (n k i : ℕ) (xs ys : List PointConfig) (z : ℤ) (c : PointConfig)
    → get_elem? v n ≡ some xs
    → get_elem? ys i ≡ (if int_eq (pos i) z then some c else get_elem? xs i)
    → entry_in (set v n ys) k i ≡ (if n == k && int_eq (pos i) z then some c else entry_in v k i)
entry_written v n k i xs ys z c there e = elim (Bool-cases (n == k)) [
  | inl same ↦
      let m : k ≡ n = ground arith in
      rw (same, m, get_elem?-set_self v n ys (in_range v n xs there), there) e
  | inr other ↦ let ne : n ≢ k = ground arith in rw (other, get_elem?-set_ne v ys ne) refl
]

module _ {F : Type 0} where
  -- The vectors in the order of `place`.
  abbrev pub vectors : Database F → List (List PointConfig)
  vectors db = db.analog ∷ db.binary ∷ db.double_binary ∷ db.counter ∷ db.frozen_counter ∷ []

  -- The settings of a point: its own variations where their table has them, or those of the type.
  abbrev pub config_of : InputType → DataPoint F → Option PointConfig
  config_of analog_input dp = some (point_config s_analog_input 5 e_analog_input 7 dp)
  config_of binary_input dp = some (point_config s_binary 1 e_binary 1 dp)
  config_of double_binary_input dp = some (point_config s_double_binary 2 e_double_binary 1 dp)
  config_of counter_input dp = some (point_config s_counter 5 e_counter 5 dp)
  config_of frozen_counter_input dp = some (point_config s_frozen_counter 5 e_frozen_counter 5 dp)
  config_of other_type dp = none

  -- The point is of the type in place `k` and has the index.
  abbrev pub is_at : ℕ → ℕ → DataPoint F → Bool
  is_at k i dp = place (input_type dp.point_type) == k && int_eq (pos i) dp.index

  abbrev pub later_or : Option (DataPoint F) → Bool → DataPoint F → Option (DataPoint F)
  later_or none here dp = if here then some dp else none
  later_or (some later) here dp = some later

  -- The last point of them that passes the test.
  abbrev pub latest : (DataPoint F → Bool) → List (DataPoint F) → Option (DataPoint F)
  latest test [] = none
  latest test (dp ∷ dps) = later_or (latest test dps) (test dp) dp

  -- The settings of the point, or the entry that was there.
  abbrev pub settings_or : Option (DataPoint F) → Option PointConfig → Option PointConfig
  settings_or none before = before
  settings_or (some dp) before = config_of (input_type dp.point_type) dp

  -- The deadband of the point, or the one that was there.
  abbrev pub deadband_or : Option (DataPoint F) → Option F → Option F
  deadband_or none before = before
  deadband_or (some dp) before = some dp.deadband

module _ {F : Type 0} (positive : F → Bool) where
  -- The entries after one point of the type.
  abbrev Wrote : InputType → DataPoint F → ℕ → ℕ → Database F → Database F → Type 0
  Wrote ty dp k i db db' = entry_in (vectors db') k i ≡ (
      if place ty == k && int_eq (pos i) dp.index
      then config_of ty dp
      else entry_in (vectors db) k i)

  configure_as-Wrote :
      (ty : InputType) (dp : DataPoint F) (k i : ℕ) (db : Database F)
      → Returns (Wrote ty dp k i db) (configure_as positive ty dp db)
  unfolding configure_as
  configure_as-Wrote analog_input dp k i db =
      Returns-then _ (Wrote analog_input dp k i db) (write_at db.analog dp.index _) _
        (written db.analog dp.index _ i)
        (λ xs e.
          Returns-always (Wrote analog_input dp k i db) (set_deadband positive dp db.deadband) _
            (λ ds. entry_written (vectors db) 0 k i db.analog xs dp.index _ refl e))
  configure_as-Wrote binary_input dp k i db =
      Returns-then _ (Wrote binary_input dp k i db) (write_at db.binary dp.index _) _
        (written db.binary dp.index _ i)
        (λ xs e. entry_written (vectors db) 1 k i db.binary xs dp.index _ refl e)
  configure_as-Wrote double_binary_input dp k i db =
      Returns-then _ (Wrote double_binary_input dp k i db) (write_at db.double_binary dp.index _) _
        (written db.double_binary dp.index _ i)
        (λ xs e. entry_written (vectors db) 2 k i db.double_binary xs dp.index _ refl e)
  configure_as-Wrote counter_input dp k i db =
      Returns-then _ (Wrote counter_input dp k i db) (write_at db.counter dp.index _) _
        (written db.counter dp.index _ i)
        (λ xs e. entry_written (vectors db) 3 k i db.counter xs dp.index _ refl e)
  configure_as-Wrote frozen_counter_input dp k i db =
      Returns-then _ (Wrote frozen_counter_input dp k i db) (write_at db.frozen_counter dp.index _)
        _ (written db.frozen_counter dp.index _ i)
        (λ xs e. entry_written (vectors db) 4 k i db.frozen_counter xs dp.index _ refl e)
  configure_as-Wrote other_type dp k i db = beyond k
    where
      beyond :
          (k : ℕ)
          → entry_in (vectors db) k i
            ≡ (if 5 == k && int_eq (pos i) dp.index then none else entry_in (vectors db) k i)
      beyond k = elim (Bool-cases (5 == k)) [
        | inl same ↦ let e : k ≡ 5 = ground arith in rw e ground arith
        | inr other ↦ rw other refl
      ]

  -- For each type of input and each index: the entry after the points.
  abbrev Left : List (DataPoint F) → ℕ → ℕ → Database F → Database F → Type 0
  Left dps k i db db' =
      entry_in (vectors db') k i ≡ settings_or (latest (is_at k i) dps) (entry_in (vectors db) k i)

  configure_database-Left :
      (dps : List (DataPoint F)) (k i : ℕ) (db : Database F)
      → Returns (Left dps k i db) (configure_database positive dps db)
  unfolding configure_database
  configure_database-Left [] k i db = refl
  configure_database-Left (dp ∷ dps) k i db =
      let ty = input_type dp.point_type in
      Returns-then (Wrote ty dp k i db) (Left (dp ∷ dps) k i db) (configure_as positive ty dp db) _
        (configure_as-Wrote ty dp k i db)
        (λ d e.
          Returns-imp (Left dps k i d) (Left (dp ∷ dps) k i db) (configure_database positive dps d)
            (λ d' e'. e' ∙ further (latest (is_at k i) dps) (is_at k i dp) _ _ e)
            (configure_database-Left dps k i d))
    where
      further :
          (l : Option (DataPoint F)) (here : Bool) (a b : Option PointConfig)
          → a ≡ (if here then config_of (input_type dp.point_type) dp else b)
          → settings_or l a ≡ settings_or (later_or l here dp) b
      further none true a b e = e
      further none false a b e = e
      further (some later) here a b e = refl

  -- An analog point with the index, and with a deadband that is written.
  abbrev pub is_dead : ℕ → DataPoint F → Bool
  is_dead i dp = is_at 0 i dp && positive dp.deadband

  -- The deadbands after one point of the type.
  abbrev Dead : InputType → DataPoint F → ℕ → Database F → Database F → Type 0
  Dead ty dp i db db' = get_elem? db'.deadband i ≡ (
      if (place ty == 0 && int_eq (pos i) dp.index) && positive dp.deadband
      then some dp.deadband
      else get_elem? db.deadband i)

  set_deadband-written :
      (dp : DataPoint F) (xs : List F) (i : ℕ)
      → Returns
          (λ ds. get_elem? ds i ≡ (
            if int_eq (pos i) dp.index && positive dp.deadband
            then some dp.deadband
            else get_elem? xs i))
          (set_deadband positive dp xs)
  set_deadband-written dp xs i =
      let Goal : Bool → Type 0 = λ b.
        Returns
          (λ ds.
            get_elem? ds i
            ≡ (if int_eq (pos i) dp.index && b then some dp.deadband else get_elem? xs i))
          (if b then write_at xs dp.index dp.deadband else some xs) in
      elim (Bool-cases (positive dp.deadband)) [
        | inl above ↦ subst Goal (sym above) (
            subst
              (λ c.
                Returns (λ ds. get_elem? ds i ≡ (if c then some dp.deadband else get_elem? xs i))
                  (write_at xs dp.index dp.deadband))
              (sym (and_true (int_eq (pos i) dp.index))) (written xs dp.index dp.deadband i))
        | inr none_set ↦ subst Goal (sym none_set) (rw (and_false (int_eq (pos i) dp.index)) refl)
      ]
    where
      and_true : (b : Bool) → (b && true) ≡ b
      and_true true = refl
      and_true false = refl

      and_false : (b : Bool) → (b && false) ≡ false
      and_false true = refl
      and_false false = refl

  configure_as-Dead :
      (ty : InputType) (dp : DataPoint F) (i : ℕ) (db : Database F)
      → Returns (Dead ty dp i db) (configure_as positive ty dp db)
  unfolding configure_as
  configure_as-Dead analog_input dp i db =
      Returns-always (Dead analog_input dp i db) (write_at db.analog dp.index _) _ (λ xs.
        Returns-then _ (Dead analog_input dp i db) (set_deadband positive dp db.deadband) _
          (set_deadband-written dp db.deadband i) (λ ds e. e))
  configure_as-Dead binary_input dp i db =
      Returns-always (Dead binary_input dp i db) (write_at db.binary dp.index _) _ (λ xs. refl)
  configure_as-Dead double_binary_input dp i db =
      Returns-always (Dead double_binary_input dp i db) (write_at db.double_binary dp.index _) _
        (λ xs. refl)
  configure_as-Dead counter_input dp i db =
      Returns-always (Dead counter_input dp i db) (write_at db.counter dp.index _) _ (λ xs. refl)
  configure_as-Dead frozen_counter_input dp i db =
      Returns-always (Dead frozen_counter_input dp i db) (write_at db.frozen_counter dp.index _) _
        (λ xs. refl)
  configure_as-Dead other_type dp i db = refl

  -- The deadbands after the points.
  abbrev LeftDead : List (DataPoint F) → ℕ → Database F → Database F → Type 0
  LeftDead dps i db db' =
      get_elem? db'.deadband i ≡ deadband_or (latest (is_dead i) dps) (get_elem? db.deadband i)

  configure_database-LeftDead :
      (dps : List (DataPoint F)) (i : ℕ) (db : Database F)
      → Returns (LeftDead dps i db) (configure_database positive dps db)
  unfolding configure_database
  configure_database-LeftDead [] i db = refl
  configure_database-LeftDead (dp ∷ dps) i db =
      let ty = input_type dp.point_type in
      Returns-then (Dead ty dp i db) (LeftDead (dp ∷ dps) i db) (configure_as positive ty dp db) _
        (configure_as-Dead ty dp i db)
        (λ d e.
          Returns-imp (LeftDead dps i d) (LeftDead (dp ∷ dps) i db)
            (configure_database positive dps d)
            (λ d' e'. e' ∙ further (latest (is_dead i) dps) (is_dead i dp) _ _ e)
            (configure_database-LeftDead dps i d))
    where
      further :
          (l : Option (DataPoint F)) (here : Bool) (a b : Option F)
          → a ≡ (if here then some dp.deadband else b)
          → deadband_or l a ≡ deadband_or (later_or l here dp) b
      further none true a b e = e
      further none false a b e = e
      further (some later) here a b e = refl

  -- When ConfigureDatabase returns, each entry of the five vectors holds the variations and the class
  -- of the last point with its type and index, and what it held before where there is no such point;
  -- its deadband is that of the last analog point with the index whose deadband is positive, and what
  -- it was before where there is no such point.
  pub configure_database_lem :
      (dps : List (DataPoint F)) (db db' : Database F) (k i : ℕ)
      → configure_database positive dps db ≡ some db'
      → (entry_in (vectors db') k i
          ≡ settings_or (latest (is_at k i) dps) (entry_in (vectors db) k i))
        × (get_elem? db'.deadband i
            ≡ deadband_or (latest (is_dead i) dps) (get_elem? db.deadband i))
  configure_database_lem dps db db' k i run = (
    subst (Returns (Left dps k i db)) run (configure_database-Left dps k i db),
    subst (Returns (LeftDead dps i db)) run (configure_database-LeftDead dps i db),
  )
