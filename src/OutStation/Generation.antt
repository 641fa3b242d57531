-- ===== src/OutStation/Generation.antt =====
-- What an outstation reports of the data that its script generates.
use ics_trafficgen.Base.{
  ℕ, ◌<◌, ◌%◌, String, List, [], ◌∷◌, ◌++◌, Map, Option, none, some, Bool, true, false, ℤ, index_of,
  int_eq, any, ◌||◌, lookup, to_u16, length, if◌then◌else◌, ◌≡◌, refl, sym, ap, ap₂, ◌∙◌, All,
  arith, Bool-cases, inl, inr, Succeeds, Succeeds-run,
}
use ics_trafficgen.Points.{Doubles, DataPoint}
use ics_trafficgen.Node.{Node}
use ics_trafficgen.Mapping.{Update, analog_update, binary_update, counter_update}
use ics_trafficgen.Mapping.Inject.{bool_of}
use ics_trafficgen.Config.DataSpecs.Sizes.{Covers}
use ics_trafficgen.Station.Database.{Database, input_type, configure_database}
use ics_trafficgen.Station.Database.Total.{HasSizes, IsIndex, configure_database-HasSizes}
use ics_trafficgen.Station.Database.Indexes.{is_noted, is_other, is_point, configure_database-noted}
use ics_trafficgen.OutStation.{
  GeneratedData, take_points, take_table, lua_invoke_script, DatabaseSizes, stack_config,
}

module _ {D V F : Type 0} (mk : V → ℕ → Update D) (t : String) (dps : List (DataPoint F)) where
  -- The entries of a table whose key, less one, is the index of a point of the type, as updates.
  abbrev pub wanted : List (ℤ × V) → List (Update D)
  wanted [] = []
  wanted ((k, v) ∷ es) =
      (if any (is_point t (index_of k)) dps then mk v (to_u16 (index_of k)) ∷ [] else [])
      ++ wanted es

  abbrev pub wanted_of : Option (List (ℤ × V)) → List (Update D)
  wanted_of none = []
  wanted_of (some es) = wanted es

  wanted-none : (es : List (ℤ × V)) → ((z : ℤ) → any (is_point t z) dps ≡ false) → wanted es ≡ []
  wanted-none [] h = refl
  wanted-none ((k, v) ∷ es) h = rw (h (index_of k)) (wanted-none es h)

  take_points_lem :
      (o : Option (List ℤ)) (es : List (ℤ × V))
      → ((z : ℤ) → any (int_eq z) (elim o [ none ↦ [] | some is ↦ is ]) ≡ any (is_point t z) dps)
      → take_points mk o es ≡ wanted es
  unfolding take_points
  take_points_lem none [] h = refl
  take_points_lem none (e ∷ es) h = sym (wanted-none (e ∷ es) (λ z. sym (h z)))
  take_points_lem (some is) [] h = refl
  take_points_lem (some is) ((k, v) ∷ es) h = elim (Bool-cases (any (int_eq (index_of k)) is)) [
    | inl there ↦
        let b : any (is_point t (index_of k)) dps ≡ true = sym (h (index_of k)) ∙ there in
        rw (there, b) (ap (λ us. mk v (to_u16 (index_of k)) ∷ us) (take_points_lem (some is) es h))
    | inr absent ↦
        let b : any (is_point t (index_of k)) dps ≡ false = sym (h (index_of k)) ∙ absent in
        rw (absent, b) (take_points_lem (some is) es h)
  ]

  take_table_lem :
      (im : Map (List ℤ)) (table : Option (List (ℤ × V)))
      → ((z : ℤ) → is_noted t z im ≡ any (is_point t z) dps)
      → take_table mk (lookup t im) table ≡ wanted_of table
  take_table_lem im none h = refl
  take_table_lem im (some es) h = take_points_lem (lookup t im) es h

module _ {D F : Type 0} (ops : Doubles D) where
  -- The updates that the points of a node ask for, of the data of a script.
  abbrev pub generated : List (DataPoint F) → ℕ → GeneratedData D → List (Update D)
  generated dps now d =
      wanted_of (λ v i. analog_update v now i) "Analog Input" dps d.analog_inputs
      ++ (wanted_of (λ v i. counter_update (ops.to_uint32 v) now i) "Counter" dps d.counters
          ++ wanted_of (λ v i. binary_update (bool_of v) now i) "Binary Input" dps d.binary_inputs)

  lua_invoke_script-generated :
      (dps : List (DataPoint F)) (im : Map (List ℤ)) (now : ℕ) (d : GeneratedData D)
      → ((t : String) (z : ℤ)
          → is_other (input_type t) ≡ false
          → is_noted t z im ≡ any (is_point t z) dps)
      → lua_invoke_script ops im now d ≡ (if d.has_entry then generated dps now d ∷ [] else [])
  unfolding lua_invoke_script input_type
  lua_invoke_script-generated dps im now d h =
      let analog =
        take_table_lem (λ v i. analog_update v now i) "Analog Input" dps im d.analog_inputs
          (λ z. h "Analog Input" z refl) in
      let counter =
        take_table_lem (λ v i. counter_update (ops.to_uint32 v) now i) "Counter" dps im d.counters
          (λ z. h "Counter" z refl) in
      let binary =
        take_table_lem (λ v i. binary_update (bool_of v) now i) "Binary Input" dps im
          d.binary_inputs (λ z. h "Binary Input" z refl) in
      ap (λ us. if d.has_entry then us ∷ [] else [])
        (ap₂ (λ a b. a ++ b) analog (ap₂ (λ a b. a ++ b) counter binary))

or_none : (b : Bool) → (b || false) ≡ b
or_none true = refl
or_none false = refl

-- `asiodnp3::DatabaseConfig` of these sizes: its vectors have the sizes as 16-bit numbers, and no
-- index is noted yet.
pub record IsView {F : Type 0} (sizes : DatabaseSizes) (db : Database F) : Type 0 where
  pub analog_size : length db.analog ≡ sizes.analog % 65536
  pub deadband_size : length db.deadband ≡ sizes.analog % 65536
  pub binary_size : length db.binary ≡ sizes.binary % 65536
  pub double_binary_size : length db.double_binary ≡ sizes.double_binary % 65536
  pub counter_size : length db.counter ≡ sizes.counter % 65536
  pub frozen_counter_size : length db.frozen_counter ≡ sizes.frozen_counter % 65536
  pub none_noted : db.dp_type_index_map ≡ []

-- The vectors that `configure_database` writes are of sizes that a 16-bit number holds.
pub record IsSmall (sizes : DatabaseSizes) : Type 0 where
  pub analog_small : sizes.analog < 65536
  pub binary_small : sizes.binary < 65536
  pub double_binary_small : sizes.double_binary < 65536
  pub counter_small : sizes.counter < 65536
  pub frozen_counter_small : sizes.frozen_counter < 65536

module _ {D F : Type 0} (ops : Doubles D) (positive : F → Bool) where
  -- What the loop of the outstation reports, from a database that its points have configured.
  abbrev pub Reports : Node F → ℕ → GeneratedData D → Database F → Type 0
  Reports n now d db =
      lua_invoke_script ops db.dp_type_index_map now d
      ≡ (if d.has_entry then generated ops n.data_points now d ∷ [] else [])

  -- Let a node's sizes cover its points, let no index of a point be negative, and let the sizes of
  -- the inputs and counters be below 2 ^ 16. Then ConfigureDatabase returns, on a view that the
  -- stack's configuration makes with nothing noted, and from then on each round
  -- of a script with data calls `Apply` once, with the analog values, the counters and the binary
  -- values, in this order, whose index is that of one of the node's points of the type. A
  -- round without data calls nothing.
  pub run-Reports :
      (n : Node F) (db : Database F) (now : ℕ) (d : GeneratedData D)
      → Covers n
      → All (λ dp. IsIndex dp.index) n.data_points
      → IsSmall (stack_config n).sizes
      → IsView (stack_config n).sizes db
      → Succeeds (Reports n now d) (configure_database positive n.data_points db)
  unfolding stack_config
  run-Reports n db now d c i small view =
      let sizes : HasSizes n.db_size db = (
        omega (arith, view.analog_size, small.analog_small),
        omega (arith, view.deadband_size, small.analog_small),
        omega (arith, view.binary_size, small.binary_small),
        omega (arith, view.double_binary_size, small.double_binary_small),
        omega (arith, view.counter_size, small.counter_small),
        omega (arith, view.frozen_counter_size, small.frozen_counter_small),
      ) in
      Succeeds-run (HasSizes n.db_size) (Reports n now d)
        (configure_database positive n.data_points db)
        (configure_database-HasSizes positive n db c i sizes)
        (λ db' run same.
          lua_invoke_script-generated ops n.data_points db'.dp_type_index_map now d (λ t z known.
            configure_database-noted positive t z n.data_points db db' known run
            ∙ nothing_before t z))
    where
      nothing_before :
          (t : String) (z : ℤ)
          → (any (is_point t z) n.data_points || is_noted t z db.dp_type_index_map)
            ≡ any (is_point t z) n.data_points
      nothing_before t z =
          ap (λ m. any (is_point t z) n.data_points || is_noted t z m) view.none_noted
          ∙ or_none (any (is_point t z) n.data_points)
