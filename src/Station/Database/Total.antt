-- ===== src/Station/Database/Total.antt =====
-- ConfigureDatabase on a database with the sizes of the configuration.
use ics_trafficgen.Base.{
  ℕ, String, List, [], ◌∷◌, Map, some, Bool, ℤ, pos, negsuc, if◌then◌else◌, write_at, length,
  length-put, write_at_of_InRange, InRange, Succeeds, Succeeds-then, lookup_or, ◌≡◌, sym, ◌∙◌,
  subst, All, Bool-cases, inl, inr, eq_iff, arith,
}
use ics_trafficgen.Points.{DataPoint}
use ics_trafficgen.Node.{Node}
use ics_trafficgen.Config.DataSpecs.Sizes.{Within, Covers}
use ics_trafficgen.Station.Database.{
  Database, InputType, analog_input, binary_input, double_binary_input, counter_input,
  frozen_counter_input, other_type, input_type, set_deadband, configure_as, configure_database,
}

-- The vectors have the sizes that the configuration gives, with a deadband for each analog.
abbrev pub HasSizes : {F : Type 0} → Map ℕ → Database F → Type 0
HasSizes sizes db =
    (length db.analog ≡ lookup_or 0 "Analog Input" sizes)
    × (length db.deadband ≡ lookup_or 0 "Analog Input" sizes)
    × (length db.binary ≡ lookup_or 0 "Binary Input" sizes)
    × (length db.double_binary ≡ lookup_or 0 "Double Binary Input" sizes)
    × (length db.counter ≡ lookup_or 0 "Counter" sizes)
    × (length db.frozen_counter ≡ lookup_or 0 "Frozen Counter" sizes)

-- A point of no type that is configured needs no room.
abbrev Room : InputType → Map ℕ → ℤ → Type 0
Room analog_input sizes z = InRange z (lookup_or 0 "Analog Input" sizes)
Room binary_input sizes z = InRange z (lookup_or 0 "Binary Input" sizes)
Room double_binary_input sizes z = InRange z (lookup_or 0 "Double Binary Input" sizes)
Room counter_input sizes z = InRange z (lookup_or 0 "Counter" sizes)
Room frozen_counter_input sizes z = InRange z (lookup_or 0 "Frozen Counter" sizes)
Room other_type sizes z = Unit

abbrev pub IsIndex : ℤ → Type 0
IsIndex (pos i) = Unit
IsIndex (negsuc i) = ⊥

Within-Room :
    (t : String) (z : ℤ) (sizes : Map ℕ)
    → Within sizes t z
    → IsIndex z
    → Room (input_type t) sizes z
unfolding input_type
Within-Room t (pos i) sizes w n = ground (
  arith,
  eq_iff t "Analog Input",
  eq_iff t "Binary Input",
  eq_iff t "Double Binary Input",
  eq_iff t "Counter",
  eq_iff t "Frozen Counter",
)
Within-Room t (negsuc i) sizes w n = absurd n

-- A write in range, to a vector of the size that is named.
write_at-Succeeds :
    {A : Type 0} (xs : List A) (z : ℤ) (a : A) (n : ℕ)
    → length xs ≡ n
    → InRange z n
    → Succeeds (λ ys. length ys ≡ n) (write_at xs z a)
write_at-Succeeds xs z a n e r =
    subst (Succeeds (λ ys. length ys ≡ n))
      (sym (write_at_of_InRange xs z a (subst (InRange z) (sym e) r))) (length-put xs z a ∙ e)

module _ {F : Type 0} (positive : F → Bool) where
  set_deadband-Succeeds :
      (dp : DataPoint F) (xs : List F) (n : ℕ)
      → length xs ≡ n
      → InRange dp.index n
      → Succeeds (λ ys. length ys ≡ n) (set_deadband positive dp xs)
  set_deadband-Succeeds dp xs n e r =
      let P : Bool → Type 0 = λ b.
        Succeeds (λ ys. length ys ≡ n) (if b then write_at xs dp.index dp.deadband else some xs) in
      elim (Bool-cases (positive dp.deadband)) [
        | inl above ↦ subst P (sym above) (write_at-Succeeds xs dp.index dp.deadband n e r)
        | inr zero_or_less ↦ subst P (sym zero_or_less) e
      ]

  configure_as-Succeeds :
      (ty : InputType) (dp : DataPoint F) (sizes : Map ℕ) (db : Database F)
      → Room ty sizes dp.index
      → HasSizes sizes db
      → Succeeds (HasSizes sizes) (configure_as positive ty dp db)
  unfolding configure_as
  configure_as-Succeeds analog_input dp sizes db r (a, d, b, bb, c, f) =
      Succeeds-then _ (HasSizes sizes) (write_at db.analog dp.index _) _
        (write_at-Succeeds db.analog dp.index _ _ a r)
        (λ xs l.
          Succeeds-then _ (HasSizes sizes) (set_deadband positive dp db.deadband) _
            (set_deadband-Succeeds dp db.deadband _ d r) (λ ds k. (l, k, b, bb, c, f)))
  configure_as-Succeeds binary_input dp sizes db r (a, d, b, bb, c, f) =
      Succeeds-then _ (HasSizes sizes) (write_at db.binary dp.index _) _
        (write_at-Succeeds db.binary dp.index _ _ b r) (λ xs l. (a, d, l, bb, c, f))
  configure_as-Succeeds double_binary_input dp sizes db r (a, d, b, bb, c, f) =
      Succeeds-then _ (HasSizes sizes) (write_at db.double_binary dp.index _) _
        (write_at-Succeeds db.double_binary dp.index _ _ bb r) (λ xs l. (a, d, b, l, c, f))
  configure_as-Succeeds counter_input dp sizes db r (a, d, b, bb, c, f) =
      Succeeds-then _ (HasSizes sizes) (write_at db.counter dp.index _) _
        (write_at-Succeeds db.counter dp.index _ _ c r) (λ xs l. (a, d, b, bb, l, f))
  configure_as-Succeeds frozen_counter_input dp sizes db r (a, d, b, bb, c, f) =
      Succeeds-then _ (HasSizes sizes) (write_at db.frozen_counter dp.index _) _
        (write_at-Succeeds db.frozen_counter dp.index _ _ f r) (λ xs l. (a, d, b, bb, c, l))
  configure_as-Succeeds other_type dp sizes db r h = h

  points-Succeed :
      (dps : List (DataPoint F)) (sizes : Map ℕ) (db : Database F)
      → All (λ dp. Within sizes dp.point_type dp.index) dps
      → All (λ dp. IsIndex dp.index) dps
      → HasSizes sizes db
      → Succeeds (HasSizes sizes) (configure_database positive dps db)
  unfolding configure_database
  points-Succeed [] sizes db w i h = h
  points-Succeed (dp ∷ dps) sizes db w i h =
      Succeeds-then _ (HasSizes sizes) (configure_as positive (input_type dp.point_type) dp db) _
        (configure_as-Succeeds (input_type dp.point_type) dp sizes db
          (Within-Room dp.point_type dp.index sizes w.0 i.0) h)
        (λ db' h'. points-Succeed dps sizes db' w.1 i.1 h')

  -- If a node's database sizes cover its points, no index of a point is negative, and the vectors
  -- of the view have those sizes, then `configure_database` returns, so that it makes no access out
  -- of bounds, and the vectors keep their sizes.
  pub configure_database-HasSizes :
      (n : Node F) (db : Database F)
      → Covers n
      → All (λ dp. IsIndex dp.index) n.data_points
      → HasSizes n.db_size db
      → Succeeds (HasSizes n.db_size) (configure_database positive n.data_points db)
  configure_database-HasSizes n db c i h =
      points-Succeed n.data_points n.db_size db c.points_within i h
