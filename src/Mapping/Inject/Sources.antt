-- ===== src/Mapping/Inject/Sources.antt =====
-- `injectDataChanges` leaves the sources of the station, and so a ready station is ready after it.
use ics_trafficgen.Base.{
  String, List, [], ◌∷◌, Map, Option, some, Bool, if◌then◌else◌, ◌≡◌, refl, sym, subst, Bool-cases,
  inl, inr, Returns, Returns-always, Returns-then, Succeeds, Succeeds-run,
}
use ics_trafficgen.Points.{MappedDataPoint}
use ics_trafficgen.Mapping.{MappingOutstation, is_flagged}
use ics_trafficgen.Mapping.Emission.{FitsSources}
use ics_trafficgen.Mapping.Ready.{IsReady, FitsSources-shape}
use ics_trafficgen.Mapping.Inject.{
  LuaScript, applied_of, load, Injection, invoke_analog_script, invoke_binary_script,
  invoke_counter_script, inject_analog, inject_binary, load_counter, inject_source, inject_sources,
  inject_data_changes,
}
use ics_trafficgen.Mapping.Inject.Safe.{Answers}
use ics_trafficgen.Mapping.Inject.Total.{IsInjected, HasRoom, inject_data_changes-IsInjected}

module _ {D : Type 0} (lua : LuaScript D) (srcs : Map (List MappedDataPoint)) where
  -- The sources of the station are still these.
  abbrev HasSources : Injection lua → Type 0
  HasSources s = s.station.data_sources ≡ srcs

  -- A block under `if (xFlag[srcName])`.
  Returns-if :
      (b : Bool) (up : Option (Injection lua)) (s : Injection lua)
      → Returns HasSources up
      → HasSources s
      → Returns HasSources (if b then up else some s)
  Returns-if b up s r h = elim (Bool-cases b) [
    | inl flagged ↦ subst (λ x. Returns HasSources (if x then up else some s)) (sym flagged) r
    | inr idle ↦ subst (λ x. Returns HasSources (if x then up else some s)) (sym idle) h
  ]

  invoke_analog_script-HasSources :
      (s : Injection lua) → HasSources s → Returns HasSources (invoke_analog_script lua s)
  unfolding invoke_analog_script
  invoke_analog_script-HasSources s h =
      Returns-always HasSources (lua.modify_analog _ s.state) _
        (λ e. Returns-always HasSources (applied_of _ _ _ _) _ (λ us. h))

  invoke_binary_script-HasSources :
      (s : Injection lua) → HasSources s → Returns HasSources (invoke_binary_script lua s)
  unfolding invoke_binary_script
  invoke_binary_script-HasSources s h =
      Returns-always HasSources (lua.modify_binary _ s.state) _
        (λ e. Returns-always HasSources (applied_of _ _ _ _) _ (λ us. h))

  invoke_counter_script-HasSources :
      (s : Injection lua) → HasSources s → Returns HasSources (invoke_counter_script lua s)
  unfolding invoke_counter_script
  invoke_counter_script-HasSources s h =
      Returns-always HasSources (lua.modify_counter _ s.state) _
        (λ e. Returns-always HasSources (applied_of _ _ _ _) _ (λ us. h))

  inject_analog-HasSources :
      (src : String) (dps : List MappedDataPoint) (s : Injection lua)
      → HasSources s
      → Returns HasSources (inject_analog lua src dps s)
  unfolding inject_analog
  inject_analog-HasSources src dps s h =
      Returns-if (is_flagged src s.station.analog) _ s
        (Returns-always HasSources (load "Analog Input" src dps s.station.analog) _
          (λ ch. invoke_analog_script-HasSources _ h))
        h

  inject_binary-HasSources :
      (src : String) (dps : List MappedDataPoint) (s : Injection lua)
      → HasSources s
      → Returns HasSources (inject_binary lua src dps s)
  unfolding inject_binary
  inject_binary-HasSources src dps s h =
      Returns-if (is_flagged src s.station.binary) _ s
        (Returns-always HasSources (load "Binary Input" src dps s.station.binary) _
          (λ ch. invoke_binary_script-HasSources _ h))
        h

  load_counter-HasSources :
      (src : String) (dps : List MappedDataPoint) (s : Injection lua)
      → HasSources s
      → Returns HasSources (load_counter lua src dps s)
  unfolding load_counter
  load_counter-HasSources src dps s h =
      Returns-if (is_flagged src s.station.counter) _ s
        (Returns-always HasSources (load "Counter" src dps s.station.counter) _ (λ ch. h)) h

  inject_sources-HasSources :
      (rest : Map (List MappedDataPoint)) (s : Injection lua)
      → HasSources s
      → Returns HasSources (inject_sources lua rest s)
  unfolding inject_sources inject_source
  inject_sources-HasSources [] s h = h
  inject_sources-HasSources ((src, dps) ∷ rest) s h =
      Returns-then HasSources HasSources (inject_source lua src dps s) _
        (Returns-then HasSources HasSources (inject_analog lua src dps s) _
          (inject_analog-HasSources src dps s h)
          (λ s₁ h₁.
            Returns-then HasSources HasSources (inject_binary lua src dps s₁) _
              (inject_binary-HasSources src dps s₁ h₁)
              (λ s₂ h₂.
                Returns-then HasSources HasSources (load_counter lua src dps s₂) _
                  (load_counter-HasSources src dps s₂ h₂)
                  (λ s₃ h₃. invoke_counter_script-HasSources s₃ h₃))))
        (λ s' h'. inject_sources-HasSources rest s' h')

module _ {D : Type 0} (lua : LuaScript D) (Fine : lua.State → Type 0) where
  -- The station after the injection is as ready as before, and so is the state of Lua.
  abbrev pub StaysReady : Injection lua → Type 0
  StaysReady s = IsReady s.station × HasRoom s.station × Fine s.state

  IsInjected-StaysReady :
      (m : MappingOutstation D) (s : Injection lua)
      → IsReady m
      → HasRoom m
      → IsInjected lua Fine m s
      → s.station.data_sources ≡ m.data_sources
      → StaysReady s
  IsInjected-StaysReady m s ready room (a, b, c, k, us, h) e = (
    record {
      keys = rw e ready.keys;
      fits =
          subst (FitsSources s.station) (sym e)
            (FitsSources-shape m s.station m.data_sources a b c ready.fits);
    },
    rw (k, a.out_size, b.out_size, c.out_size) room,
    h,
  )

module _ {D : Type 0} (lua : LuaScript D) (Fine : lua.State → Type 0)
    (answers : Answers lua Fine) where
  pub inject_data_changes-StaysReady :
      (m : MappingOutstation D) (state : lua.State)
      → IsReady m
      → HasRoom m
      → Fine state
      → Succeeds (StaysReady lua Fine) (inject_data_changes lua m state)
  unfolding inject_data_changes
  inject_data_changes-StaysReady m state ready room fine =
      Succeeds-run (IsInjected lua Fine m) (StaysReady lua Fine) (inject_data_changes lua m state)
        (inject_data_changes-IsInjected lua Fine answers m state ready room fine)
        (λ s run injected. IsInjected-StaysReady lua Fine m s ready room injected (
          subst (Returns (HasSources lua m.data_sources)) run
            (inject_sources-HasSources lua m.data_sources m.data_sources _ refl)))
