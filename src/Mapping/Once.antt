-- ===== src/Mapping/Once.antt =====
-- A pass hands over each change once: the next one, with no callback in between, has nothing to say.
use ics_trafficgen.Base.{List, [], ◌∷◌, Map, some, ◌≡◌, refl, ap, ◌∙◌, subst}
use ics_trafficgen.Points.{MappedDataPoint, Doubles}
use ics_trafficgen.Mapping.{MappingOutstation, Update}
use ics_trafficgen.Mapping.Passing.{pass_thru_data_changes}
use ics_trafficgen.Mapping.Emission.{report}
use ics_trafficgen.Mapping.Pass.{Cleared, Swept, pass_thru_data_changes_lem}
use ics_trafficgen.Mapping.Ready.{IsReady, Swept-IsReady}

module _ {D : Type 0} (ops : Doubles D) where
  report-Cleared :
      (m : MappingOutstation D) (srcs : Map (List MappedDataPoint))
      → Cleared m.analog srcs
      → Cleared m.binary srcs
      → Cleared m.counter srcs
      → report ops m srcs ≡ []
  report-Cleared m [] a b c = refl
  report-Cleared m ((src, dps) ∷ rest) (a, as_) (b, bs) (c, cs) =
      rw (a, b, c) (report-Cleared m rest as_ bs cs)

  -- After a pass of a ready outstation, a second one, with no callback in between, succeeds and calls
  -- `Apply` with no update.
  pub pass-once :
      (m m' : MappingOutstation D) (ups : List (Update D))
      → IsReady m
      → pass_thru_data_changes ops m ≡ some (m', ups)
      → (m'' : MappingOutstation D) × (pass_thru_data_changes ops m' ≡ some (m'', []))
  pass-once m m' ups ready run =
      let (q, e, swept₀) = pass_thru_data_changes_lem ops m ready.keys ready.fits in
      let same : q ≡ m' = cc in
      let swept = subst (Swept m.data_sources m) same swept₀ in
      let ready' = Swept-IsReady m m' swept ready in
      let (m'', e', s') = pass_thru_data_changes_lem ops m' ready'.keys ready'.fits in
      let silent : report ops m' m'.data_sources ≡ [] =
        ap (report ops m') swept.sources_kept
        ∙ report-Cleared m' m.data_sources swept.analog_swept.cleared swept.binary_swept.cleared
            swept.counter_swept.cleared in
      (m'', e' ∙ ap (λ ups. some (m'', ups)) silent)
