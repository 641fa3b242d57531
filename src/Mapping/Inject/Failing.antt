-- ===== src/Mapping/Inject/Failing.antt =====
-- A script without a function for counters: the code calls it for every source, whatever was received.
use ics_trafficgen.Base.{
  String, List, [], ◌∷◌, Map, Option, none, some, ℤ, ◌>>=◌, ◌≡◌, refl, ap, ◌∙◌,
}
use ics_trafficgen.Points.{MappedDataPoint}
use ics_trafficgen.Mapping.{MappingOutstation}
use ics_trafficgen.Mapping.Inject.{
  LuaScript, Injection, inject_analog, inject_binary, load_counter, invoke_counter_script,
  inject_source, inject_sources, inject_data_changes,
}

>>=-none :
    {A B : Type 0} (m : Option A) (f : A → Option B) → ((a : A) → f a ≡ none) → (m >>= f) ≡ none
>>=-none none f h = refl
>>=-none (some a) f h = h a

module _ {D : Type 0} (lua : LuaScript D) where
  inject_source-fails :
      (src : String) (dps : List MappedDataPoint) (s : Injection lua)
      → ((vs : List ℤ) (state : lua.State) → lua.modify_counter vs state ≡ none)
      → inject_source lua src dps s ≡ none
  unfolding inject_source invoke_counter_script
  inject_source-fails src dps s missing = >>=-none (inject_analog lua src dps s) _ (λ s₁.
      >>=-none (inject_binary lua src dps s₁) _
        (λ s₂. >>=-none (load_counter lua src dps s₂) _ (λ s₃. rw (missing _ s₃.state) refl)))

  inject_sources-fails :
      (src : String) (dps : List MappedDataPoint) (rest : Map (List MappedDataPoint))
      (s : Injection lua)
      → ((vs : List ℤ) (state : lua.State) → lua.modify_counter vs state ≡ none)
      → inject_sources lua ((src, dps) ∷ rest) s ≡ none
  unfolding inject_sources
  inject_sources-fails src dps rest s missing =
      ap (λ o. o >>= λ s'. inject_sources lua rest s') (inject_source-fails src dps s missing)

  -- Let a call of the script's function for counters raise an error in every state, as it does where
  -- the script has no such function. Then every injection of a station that has a source fails,
  -- whatever points its sources have, none of them a counter perhaps, and whatever was received.
  pub inject_data_changes-fails :
      (m : MappingOutstation D) (state : lua.State) (src : String) (dps : List MappedDataPoint)
      (rest : Map (List MappedDataPoint))
      → m.data_sources ≡ (src, dps) ∷ rest
      → ((vs : List ℤ) (s : lua.State) → lua.modify_counter vs s ≡ none)
      → inject_data_changes lua m state ≡ none
  unfolding inject_data_changes
  inject_data_changes-fails m state src dps rest e missing =
      let begun : Injection lua = record { station = m; state = state; applied = [] } in
      ap (λ srcs. inject_sources lua srcs begun) e ∙ inject_sources-fails src dps rest begun missing
