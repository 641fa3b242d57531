-- ===== src/Station/Database/Indexes.antt =====
-- The indexes that ConfigureDatabase notes for each type of point: those of the node's points.
use ics_trafficgen.Base.{
  String, List, [], ◌∷◌, Map, some, Bool, true, false, ℤ, int_eq, int_eq_iff, any, ◌&&◌, ◌||◌,
  if◌then◌else◌, str_eq, lookup_or, lookup_or-insert, ◌≡◌, refl, sym, ap, ◌∙◌, subst, arith, eq_iff,
  Returns, Returns-always, Returns-then, write_at, Returns-imp, Bool-cases, inl, inr,
}
use ics_trafficgen.Points.{DataPoint}
use ics_trafficgen.Station.Database.{
  Database, InputType, analog_input, binary_input, double_binary_input, counter_input,
  frozen_counter_input, other_type, input_type, add_index, note_index, noted, configure_as,
  configure_database, set_deadband,
}

-- The index is noted for the type.
abbrev pub is_noted : String → ℤ → Map (List ℤ) → Bool
is_noted t z m = any (int_eq z) (lookup_or [] t m)

any-add_index :
    (z i : ℤ) (is : List ℤ) → any (int_eq z) (add_index i is) ≡ (int_eq z i || any (int_eq z) is)
any-add_index z i is = elim (Bool-cases (any (int_eq i) is)) [
  | inl there ↦ elim (Bool-cases (int_eq z i)) [
    | inl same ↦
        let e : z ≡ i = (int_eq_iff z i).0 same in
        rw (there, same) (subst (λ k. any (int_eq k) is ≡ true) (sym e) there)
    | inr other ↦ rw (there, other) refl
  ]
  | inr absent ↦ rw absent refl
]

is_noted-note_index :
    (t u : String) (z i : ℤ) (m : Map (List ℤ))
    → is_noted t z (note_index u i m) ≡ ((str_eq u t && int_eq z i) || is_noted t z m)
unfolding note_index
is_noted-note_index t u z i m = elim (Bool-cases (str_eq u t)) [
  | inl same ↦
      rw (lookup_or-insert [] u t (add_index i (lookup_or [] u m)) m, same)
        (any-add_index z i (lookup_or [] u m)
          ∙ ap (λ k. int_eq z i || any (int_eq z) (lookup_or [] k m)) ((eq_iff u t).0 same))
  | inr other ↦ rw (lookup_or-insert [] u t (add_index i (lookup_or [] u m)) m, other) refl
]

abbrev pub is_other : InputType → Bool
is_other other_type = true
is_other analog_input = false
is_other binary_input = false
is_other double_binary_input = false
is_other counter_input = false
is_other frozen_counter_input = false

module _ {F : Type 0} where
  -- The point has this type and index.
  abbrev pub is_point : String → ℤ → DataPoint F → Bool
  is_point t z dp = str_eq dp.point_type t && int_eq z dp.index

  point-noted :
      (t : String) (z : ℤ) (dp : DataPoint F) (m : Map (List ℤ))
      → is_other (input_type t) ≡ false
      → is_noted t z (if is_other (input_type dp.point_type) then m else noted dp m)
        ≡ (is_point t z dp || is_noted t z m)
  point-noted t z dp m h = elim (Bool-cases (is_other (input_type dp.point_type))) [
    | inl other ↦ elim (Bool-cases (str_eq dp.point_type t)) [
      | inl same ↦
          let e : dp.point_type ≡ t = (eq_iff dp.point_type t).0 same in
          let f = subst (λ u. is_other (input_type u) ≡ true) e other in cc
      | inr ne ↦ rw (other, ne) refl
    ]
    | inr noted ↦ rw noted (is_noted-note_index t dp.point_type z dp.index m)
  ]

module _ {F : Type 0} (positive : F → Bool) where
  -- The map of indexes after a point of one type.
  abbrev Noted : InputType → DataPoint F → Database F → Database F → Type 0
  Noted ty dp db db' =
      db'.dp_type_index_map
      ≡ (if is_other ty then db.dp_type_index_map else noted dp db.dp_type_index_map)

  configure_as-Noted :
      (ty : InputType) (dp : DataPoint F) (db : Database F)
      → Returns (Noted ty dp db) (configure_as positive ty dp db)
  unfolding configure_as
  configure_as-Noted analog_input dp db =
      Returns-always (Noted analog_input dp db) (write_at db.analog dp.index _) _ (λ xs.
        Returns-always (Noted analog_input dp db) (set_deadband positive dp db.deadband) _
          (λ ds. refl))
  configure_as-Noted binary_input dp db =
      Returns-always (Noted binary_input dp db) (write_at db.binary dp.index _) _ (λ xs. refl)
  configure_as-Noted double_binary_input dp db =
      Returns-always (Noted double_binary_input dp db) (write_at db.double_binary dp.index _) _
        (λ xs. refl)
  configure_as-Noted counter_input dp db =
      Returns-always (Noted counter_input dp db) (write_at db.counter dp.index _) _ (λ xs. refl)
  configure_as-Noted frozen_counter_input dp db =
      Returns-always (Noted frozen_counter_input dp db) (write_at db.frozen_counter dp.index _) _
        (λ xs. refl)
  configure_as-Noted other_type dp db = refl

  -- The indexes of a type are those of the points, and those noted before.
  abbrev NotesPoints : String → ℤ → List (DataPoint F) → Database F → Database F → Type 0
  NotesPoints t z dps db db' =
      is_noted t z db'.dp_type_index_map
      ≡ (any (is_point t z) dps || is_noted t z db.dp_type_index_map)

  or_swap : (a b c : Bool) → (a || (b || c)) ≡ ((b || a) || c)
  or_swap a b c = ground arith

  configure_database-Returns :
      (t : String) (z : ℤ) (dps : List (DataPoint F)) (db : Database F)
      → is_other (input_type t) ≡ false
      → Returns (NotesPoints t z dps db) (configure_database positive dps db)
  unfolding configure_database
  configure_database-Returns t z [] db h = refl
  configure_database-Returns t z (dp ∷ dps) db h =
      let ty = input_type dp.point_type in
      Returns-then (Noted ty dp db) (NotesPoints t z (dp ∷ dps) db) (configure_as positive ty dp db)
        _ (configure_as-Noted ty dp db)
        (λ d e.
          Returns-imp (NotesPoints t z dps d) (NotesPoints t z (dp ∷ dps) db)
            (configure_database positive dps d)
            (λ d' e'.
              e'
              ∙ ap (λ m. any (is_point t z) dps || is_noted t z m) e
              ∙ ap (λ b. any (is_point t z) dps || b) (point-noted t z dp db.dp_type_index_map h)
              ∙ or_swap (any (is_point t z) dps) (is_point t z dp)
                  (is_noted t z db.dp_type_index_map))
            (configure_database-Returns t z dps d h))

  -- For a type of input that `configure_database` knows, the indexes noted when it returns are those
  -- noted before and those of the node's points of that type.
  pub configure_database-noted :
      (t : String) (z : ℤ) (dps : List (DataPoint F)) (db db' : Database F)
      → is_other (input_type t) ≡ false
      → configure_database positive dps db ≡ some db'
      → is_noted t z db'.dp_type_index_map
        ≡ (any (is_point t z) dps || is_noted t z db.dp_type_index_map)
  configure_database-noted t z dps db db' h run =
      subst (Returns (NotesPoints t z dps db)) run (configure_database-Returns t z dps db h)
