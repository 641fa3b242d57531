-- ===== src/Soe/Delivery.antt =====
-- From a callback of the handler to the updates of a bound outstation: every order of callbacks and
-- passes is safe, and a pass hands over what the callbacks have brought.
use ics_trafficgen.Base.{String, List, some, ◌≡◌, subst}
use ics_trafficgen.Points.{Doubles}
use ics_trafficgen.Mapping.{MappingOutstation, Update}
use ics_trafficgen.Mapping.Arrays.{start}
use ics_trafficgen.Mapping.Passing.{pass_thru_data_changes}
use ics_trafficgen.Mapping.Emission.{report, DistinctKeys}
use ics_trafficgen.Mapping.Pass.{Swept, pass_thru_data_changes_lem}
use ics_trafficgen.Mapping.Ready.{
  IsReady, SameShape-refl, FitsSources-shape, Swept-IsReady, start-IsReady,
}
use ics_trafficgen.Mapping.Start.{AreConfigured}
use ics_trafficgen.Soe.{Collection, binaries, analogs, counters, process_at}
use ics_trafficgen.Soe.Arrays.{receive-SameShape}

module _ {D : Type 0} (ops : Doubles D) where
  pub process_at-IsReady :
      (src : String) (c : Collection D) (m : MappingOutstation D)
      → IsReady m
      → IsReady (process_at ops src c m)
  unfolding process_at
  process_at-IsReady src (binaries es) m r = record {
    keys = r.keys;
    fits =
        FitsSources-shape m _ m.data_sources (SameShape-refl _)
          (receive-SameShape ops _ src es m.binary) (SameShape-refl _) r.fits;
  }
  process_at-IsReady src (analogs es) m r = record {
    keys = r.keys;
    fits =
        FitsSources-shape m _ m.data_sources (receive-SameShape ops _ src es m.analog)
          (SameShape-refl _) (SameShape-refl _) r.fits;
  }
  process_at-IsReady src (counters es) m r = record {
    keys = r.keys;
    fits =
        FitsSources-shape m _ m.data_sources (SameShape-refl _) (SameShape-refl _)
          (receive-SameShape ops _ src es m.counter) r.fits;
  }

  -- The histories of an outstation: callbacks of any master and passes of its own loop, one after
  -- the other under its mutex.
  pub data History (m : MappingOutstation D) : MappingOutstation D → Type 0 where
    begin : History m m
    receives :
        {m' : MappingOutstation D} (src : String) (c : Collection D)
        → History m m'
        → History m (process_at ops src c m')
    passes :
        {m' m'' : MappingOutstation D} {ups : List (Update D)}
        → History m m'
        → pass_thru_data_changes ops m' ≡ some (m'', ups)
        → History m m''

  pub pass-IsReady :
      (m m' : MappingOutstation D) (ups : List (Update D))
      → pass_thru_data_changes ops m ≡ some (m', ups)
      → IsReady m
      → IsReady m'
  pass-IsReady m m' ups e r =
      let (q, e', s) = pass_thru_data_changes_lem ops m r.keys r.fits in
      let same : q ≡ m' = cc in Swept-IsReady m m' (subst (λ x. Swept m.data_sources m x) same s) r

  pub History-IsReady : {m m' : MappingOutstation D} → IsReady m → History m m' → IsReady m'
  History-IsReady r begin = r
  History-IsReady r (receives src c h) = process_at-IsReady src c _ (History-IsReady r h)
  History-IsReady r (passes {m'} {m''} {ups} h e) = pass-IsReady m' m'' ups e (History-IsReady r h)

  -- If the sources have different names and each mapped point lies within the sizes of its own
  -- arrays, then after any history from the start a pass stays within the arrays, and hands over
  -- exactly what the flagged sources hold.
  pub History-is_safe :
      (m : MappingOutstation D) {m' : MappingOutstation D}
      → DistinctKeys m.data_sources
      → AreConfigured m.db_size m.data_sources
      → History (start ops m) m'
      → (m'' : MappingOutstation D) × (pass_thru_data_changes ops m'
          ≡ some (m'', report ops m' m'.data_sources))
  History-is_safe m {m'} d f h =
      let r = History-IsReady (start-IsReady ops m d f) h in
      let (m'', e, s) = pass_thru_data_changes_lem ops m' r.keys r.fits in (m'', e)
