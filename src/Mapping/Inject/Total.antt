-- ===== src/Mapping/Inject/Total.antt =====
-- `injectDataChanges` as a whole, with a script that returns and leaves a table.
use ics_trafficgen.Base.{
  String, List, [], ◌∷◌, Map, Option, some, Bool, ℤ, lookup, to_u16, ◌>>=◌, if◌then◌else◌, ◌≡◌,
  refl, sym, subst, All, All-append, length, Bool-cases, inl, inr, Succeeds, Succeeds-then,
}
use ics_trafficgen.Points.{MappedDataPoint}
use ics_trafficgen.Mapping.{
  MappingOutstation, Update, analog_update, binary_update, counter_update, is_flagged,
}
use ics_trafficgen.Mapping.Emission.{FitsSource, FitsSources}
use ics_trafficgen.Mapping.Ready.{IsReady, SameShape, SameShape-refl, FitsSources-shape}
use ics_trafficgen.Mapping.Inject.{
  LuaScript, applied_of, load, Injection, invoke_analog_script, invoke_binary_script,
  invoke_counter_script, inject_analog, inject_binary, load_counter, inject_source, inject_sources,
  inject_data_changes,
}
use ics_trafficgen.Mapping.Inject.Safe.{
  Answers, IsKnown, AllIn, applied_of-Succeeds, SameShape-trans, load-Succeeds,
}

-- The update is of a point that the map of indexes has for its type.
abbrev pub KnownUpdate : {D : Type 0} → Map (List ℤ) → Update D → Type 0
KnownUpdate im (analog_update v ts i) =
    (z : ℤ) × IsKnown (lookup "Analog Input" im) z × (i ≡ to_u16 z)
KnownUpdate im (binary_update v ts i) =
    (z : ℤ) × IsKnown (lookup "Binary Input" im) z × (i ≡ to_u16 z)
KnownUpdate im (counter_update v ts i) = (z : ℤ) × IsKnown (lookup "Counter" im) z × (i ≡ to_u16 z)

-- The output arrays have room for the indexes of the map.
abbrev pub HasRoom : {D : Type 0} → MappingOutstation D → Type 0
HasRoom m =
    AllIn (lookup "Analog Input" m.dp_type_index_map) (length m.analog.out)
    × AllIn (lookup "Binary Input" m.dp_type_index_map) (length m.binary.out)
    × AllIn (lookup "Counter" m.dp_type_index_map) (length m.counter.out)

module _ {D : Type 0} (lua : LuaScript D) (Fine : lua.State → Type 0) where
  -- The arrays have the sizes that they have in `m`, the map of indexes is that of `m`, all updates
  -- so far are of points in it, and the state of Lua is fine.
  abbrev pub IsInjected : MappingOutstation D → Injection lua → Type 0
  IsInjected m s =
      SameShape m.analog s.station.analog
      × SameShape m.binary s.station.binary
      × SameShape m.counter s.station.counter
      × (s.station.dp_type_index_map ≡ m.dp_type_index_map)
      × All (All (KnownUpdate m.dp_type_index_map)) s.applied
      × Fine s.state

module _ {D : Type 0} (lua : LuaScript D) (Fine : lua.State → Type 0)
    (answers : Answers lua Fine) where
  invoke_analog_script-Succeeds :
      (m : MappingOutstation D) (s : Injection lua)
      → HasRoom m
      → IsInjected lua Fine m s
      → Succeeds (IsInjected lua Fine m) (invoke_analog_script lua s)
  unfolding invoke_analog_script
  invoke_analog_script-Succeeds m s r (a, b, c, k, us, h) =
      Succeeds-then (λ e. Fine e.0) (IsInjected lua Fine m) (lua.modify_analog _ s.state) _
        (answers.analog _ s.state h)
        (λ e fine.
          Succeeds-then (All (All (KnownUpdate m.dp_type_index_map))) (IsInjected lua Fine m)
            (applied_of _ _ _ e.1) _
            (applied_of-Succeeds (KnownUpdate m.dp_type_index_map) _ _ _ e.1
              (rw (k, a.out_size) r.0)
              (λ v ts z known.
                (z, subst (λ im. IsKnown (lookup "Analog Input" im) z) k known, refl)))
            (λ new g. (
              a,
              b,
              c,
              k,
              All-append (All (KnownUpdate m.dp_type_index_map)) s.applied new us g,
              fine,
            )))

  invoke_binary_script-Succeeds :
      (m : MappingOutstation D) (s : Injection lua)
      → HasRoom m
      → IsInjected lua Fine m s
      → Succeeds (IsInjected lua Fine m) (invoke_binary_script lua s)
  unfolding invoke_binary_script
  invoke_binary_script-Succeeds m s r (a, b, c, k, us, h) =
      Succeeds-then (λ e. Fine e.0) (IsInjected lua Fine m) (lua.modify_binary _ s.state) _
        (answers.binary _ s.state h)
        (λ e fine.
          Succeeds-then (All (All (KnownUpdate m.dp_type_index_map))) (IsInjected lua Fine m)
            (applied_of _ _ _ e.1) _
            (applied_of-Succeeds (KnownUpdate m.dp_type_index_map) _ _ _ e.1
              (rw (k, b.out_size) r.1)
              (λ v ts z known.
                (z, subst (λ im. IsKnown (lookup "Binary Input" im) z) k known, refl)))
            (λ new g. (
              a,
              b,
              c,
              k,
              All-append (All (KnownUpdate m.dp_type_index_map)) s.applied new us g,
              fine,
            )))

  invoke_counter_script-Succeeds :
      (m : MappingOutstation D) (s : Injection lua)
      → HasRoom m
      → IsInjected lua Fine m s
      → Succeeds (IsInjected lua Fine m) (invoke_counter_script lua s)
  unfolding invoke_counter_script
  invoke_counter_script-Succeeds m s r (a, b, c, k, us, h) =
      Succeeds-then (λ e. Fine e.0) (IsInjected lua Fine m) (lua.modify_counter _ s.state) _
        (answers.counter _ s.state h)
        (λ e fine.
          Succeeds-then (All (All (KnownUpdate m.dp_type_index_map))) (IsInjected lua Fine m)
            (applied_of _ _ _ e.1) _
            (applied_of-Succeeds (KnownUpdate m.dp_type_index_map) _ _ _ e.1
              (rw (k, c.out_size) r.2)
              (λ v ts z known. (z, subst (λ im. IsKnown (lookup "Counter" im) z) k known, refl)))
            (λ new g. (
              a,
              b,
              c,
              k,
              All-append (All (KnownUpdate m.dp_type_index_map)) s.applied new us g,
              fine,
            )))

  still_fits :
      (m m' : MappingOutstation D) (src : String) (dps : List MappedDataPoint)
      → SameShape m.analog m'.analog
      → SameShape m.binary m'.binary
      → SameShape m.counter m'.counter
      → FitsSource m src dps
      → FitsSource m' src dps
  still_fits m m' src dps a b c f = (FitsSources-shape m m' ((src, dps) ∷ []) a b c (f, tt)).0

  module _ (m : MappingOutstation D) (src : String) (dps : List MappedDataPoint)
      (f : FitsSource m src dps) (r : HasRoom m) where
    inject_analog-Succeeds :
        (s : Injection lua)
        → IsInjected lua Fine m s
        → Succeeds (IsInjected lua Fine m) (inject_analog lua src dps s)
    unfolding inject_analog
    inject_analog-Succeeds s (a, b, c, k, us, h) =
        let up : Option (Injection lua) = load "Analog Input" src dps s.station.analog >>= λ ch.
        invoke_analog_script lua (record s { station = record s.station { analog = ch } }) in
        let Goal : Bool → Type 0 =
          λ x. Succeeds (IsInjected lua Fine m) (if x then up else some s) in
        elim (Bool-cases (is_flagged src s.station.analog)) [
          | inl flagged ↦ subst Goal (sym flagged) (
              Succeeds-then (SameShape s.station.analog) (IsInjected lua Fine m) _ _
                (load-Succeeds "Analog Input" src dps s.station.analog
                  (still_fits m s.station src dps a b c f).analog_fits)
                (λ ch l.
                  invoke_analog_script-Succeeds m _ r
                    (SameShape-trans m.analog s.station.analog ch a l, b, c, k, us, h)))
          | inr idle ↦ subst Goal (sym idle) (a, b, c, k, us, h)
        ]

    inject_binary-Succeeds :
        (s : Injection lua)
        → IsInjected lua Fine m s
        → Succeeds (IsInjected lua Fine m) (inject_binary lua src dps s)
    unfolding inject_binary
    inject_binary-Succeeds s (a, b, c, k, us, h) =
        let up : Option (Injection lua) = load "Binary Input" src dps s.station.binary >>= λ ch.
        invoke_binary_script lua (record s { station = record s.station { binary = ch } }) in
        let Goal : Bool → Type 0 =
          λ x. Succeeds (IsInjected lua Fine m) (if x then up else some s) in
        elim (Bool-cases (is_flagged src s.station.binary)) [
          | inl flagged ↦ subst Goal (sym flagged) (
              Succeeds-then (SameShape s.station.binary) (IsInjected lua Fine m) _ _
                (load-Succeeds "Binary Input" src dps s.station.binary
                  (still_fits m s.station src dps a b c f).binary_fits)
                (λ ch l.
                  invoke_binary_script-Succeeds m _ r
                    (a, SameShape-trans m.binary s.station.binary ch b l, c, k, us, h)))
          | inr idle ↦ subst Goal (sym idle) (a, b, c, k, us, h)
        ]

    load_counter-Succeeds :
        (s : Injection lua)
        → IsInjected lua Fine m s
        → Succeeds (IsInjected lua Fine m) (load_counter lua src dps s)
    unfolding load_counter
    load_counter-Succeeds s (a, b, c, k, us, h) =
        let up : Option (Injection lua) = load "Counter" src dps s.station.counter >>= λ ch.
        some (record s { station = record s.station { counter = ch } }) in
        let Goal : Bool → Type 0 =
          λ x. Succeeds (IsInjected lua Fine m) (if x then up else some s) in
        elim (Bool-cases (is_flagged src s.station.counter)) [
          | inl flagged ↦ subst Goal (sym flagged) (
              Succeeds-then (SameShape s.station.counter) (IsInjected lua Fine m) _ _
                (load-Succeeds "Counter" src dps s.station.counter
                  (still_fits m s.station src dps a b c f).counter_fits)
                (λ ch l. (a, b, SameShape-trans m.counter s.station.counter ch c l, k, us, h)))
          | inr idle ↦ subst Goal (sym idle) (a, b, c, k, us, h)
        ]

    inject_source-Succeeds :
        (s : Injection lua)
        → IsInjected lua Fine m s
        → Succeeds (IsInjected lua Fine m) (inject_source lua src dps s)
    unfolding inject_source
    inject_source-Succeeds s g =
        Succeeds-then (IsInjected lua Fine m) (IsInjected lua Fine m) _ _
          (inject_analog-Succeeds s g)
          (λ s₁ g₁.
            Succeeds-then (IsInjected lua Fine m) (IsInjected lua Fine m) _ _
              (inject_binary-Succeeds s₁ g₁)
              (λ s₂ g₂.
                Succeeds-then (IsInjected lua Fine m) (IsInjected lua Fine m) _ _
                  (load_counter-Succeeds s₂ g₂)
                  (λ s₃ g₃. invoke_counter_script-Succeeds m s₃ r g₃)))

  inject_sources-Succeeds :
      (m : MappingOutstation D) (srcs : Map (List MappedDataPoint)) (s : Injection lua)
      → FitsSources m srcs
      → HasRoom m
      → IsInjected lua Fine m s
      → Succeeds (IsInjected lua Fine m) (inject_sources lua srcs s)
  unfolding inject_sources
  inject_sources-Succeeds m [] s f r g = g
  inject_sources-Succeeds m ((src, dps) ∷ rest) s f r g =
      Succeeds-then (IsInjected lua Fine m) (IsInjected lua Fine m) _ _
        (inject_source-Succeeds m src dps f.0 r s g)
        (λ s' g'. inject_sources-Succeeds m rest s' f.1 r g')

  -- Let the functions of the script return and leave a table from every fine state of Lua, in a fine
  -- state again. If a station is ready, its output arrays have room for the indexes of its map, and
  -- the state of Lua is fine, then `inject_data_changes` returns, so that it makes no access out of
  -- bounds; the arrays keep their sizes and the map of indexes stays; every update it applies is of a
  -- point that the map has for the update's type; and the state of Lua is fine.
  pub inject_data_changes-IsInjected :
      (m : MappingOutstation D) (state : lua.State)
      → IsReady m
      → HasRoom m
      → Fine state
      → Succeeds (IsInjected lua Fine m) (inject_data_changes lua m state)
  unfolding inject_data_changes
  inject_data_changes-IsInjected m state ready r fine =
      inject_sources-Succeeds m m.data_sources _ ready.fits r
        (SameShape-refl m.analog, SameShape-refl m.binary, SameShape-refl m.counter, refl, tt, fine)
