-- ===== src/Mapping/Ready.antt =====
-- When the arrays of a mapping outstation are large enough for every pass: from its start on.
use ics_trafficgen.Base.{
  ℕ, String, List, [], ◌∷◌, Map, lookup_or, ◌≡◌, refl, sym, ap, subst, length,
}
use ics_trafficgen.Points.{MappedDataPoint, Doubles}
use ics_trafficgen.Mapping.{Channel, MappingOutstation, source_values}
use ics_trafficgen.Mapping.Arrays.{
  length-resize, configure_sources, configure_input_multiplexing_arrays, resize_out, clear_flags,
  start,
}
use ics_trafficgen.Mapping.Emission.{FitsSources, DistinctKeys}
use ics_trafficgen.Mapping.Pass.{Swept}
use ics_trafficgen.Mapping.Start.{
  AreConfigured, AreSized, clear_flags-kept, configure_sources-AreSized, configure_sources-kept,
}

-- The sources have different names and every mapped point fits its arrays.
pub record IsReady {D : Type 0} (m : MappingOutstation D) : Type 0 where
  pub keys : DistinctKeys m.data_sources
  pub fits : FitsSources m m.data_sources

-- The arrays of the two channels have the same sizes.
pub record SameShape {D : Type 0} (ch ch' : Channel D) : Type 0 where
  pub out_size : length ch'.out ≡ length ch.out
  pub in_size : (k : String) → length (source_values k ch') ≡ length (source_values k ch)

module _ {D : Type 0} where
  pub SameShape-refl : (ch : Channel D) → SameShape ch ch
  SameShape-refl ch = record { out_size = refl; in_size = λ k. refl }

  pub FitsSources-shape :
      (m m' : MappingOutstation D) (srcs : Map (List MappedDataPoint))
      → SameShape m.analog m'.analog
      → SameShape m.binary m'.binary
      → SameShape m.counter m'.counter
      → FitsSources m srcs
      → FitsSources m' srcs
  FitsSources-shape m m' [] a b c f = tt
  FitsSources-shape m m' ((src, dps) ∷ rest) a b c (f, fs) = (
    record {
      analog_fits = rw (a.out_size, a.in_size src) f.analog_fits;
      binary_fits = rw (b.out_size, b.in_size src) f.binary_fits;
      counter_fits = rw (c.out_size, c.in_size src) f.counter_fits;
    },
    FitsSources-shape m m' rest a b c fs,
  )

  -- A pass keeps a station ready.
  pub Swept-IsReady :
      (m m' : MappingOutstation D) → Swept m.data_sources m m' → IsReady m → IsReady m'
  Swept-IsReady m m' s r = record {
    keys = rw s.sources_kept r.keys;
    fits = subst (FitsSources m') (sym s.sources_kept) (
        FitsSources-shape m m' m.data_sources
          (record {
            out_size = s.analog_swept.size_kept;
            in_size = λ k. rw s.analog_swept.values_kept;
          })
          (record {
            out_size = s.binary_swept.size_kept;
            in_size = λ k. rw s.binary_swept.values_kept;
          })
          (record {
            out_size = s.counter_swept.size_kept;
            in_size = λ k. rw s.counter_swept.values_kept;
          })
          r.fits);
  }

  AreSized-values :
      (m m' : MappingOutstation D) (srcs : Map (List MappedDataPoint))
      → m'.analog.values ≡ m.analog.values
      → m'.binary.values ≡ m.binary.values
      → m'.counter.values ≡ m.counter.values
      → AreSized m srcs
      → AreSized m' srcs
  AreSized-values m m' [] a b c s = tt
  AreSized-values m m' ((src, dps) ∷ rest) a b c (s, ss) = (
    record {
      analog_sized = rw a s.analog_sized;
      binary_sized = rw b s.binary_sized;
      counter_sized = rw c s.counter_sized;
    },
    AreSized-values m m' rest a b c ss,
  )

  -- Arrays of the sizes that the points call for fit them.
  FitsSources-sized :
      (db_size : Map ℕ) (m : MappingOutstation D) (srcs : Map (List MappedDataPoint))
      → length m.analog.out ≡ lookup_or 0 "Analog Input" db_size
      → length m.binary.out ≡ lookup_or 0 "Binary Input" db_size
      → length m.counter.out ≡ lookup_or 0 "Counter" db_size
      → AreSized m srcs
      → AreConfigured db_size srcs
      → FitsSources m srcs
  FitsSources-sized db_size m [] a b c s f = tt
  FitsSources-sized db_size m ((src, dps) ∷ rest) a b c (s, ss) (f, fs) = (
    record {
      analog_fits = rw (a, s.analog_sized) f.analog_lies;
      binary_fits = rw (b, s.binary_sized) f.binary_lies;
      counter_fits = rw (c, s.counter_sized) f.counter_lies;
    },
    FitsSources-sized db_size m rest a b c ss fs,
  )

module _ {D : Type 0} (ops : Doubles D) where
  start-fits :
      (m : MappingOutstation D)
      → DistinctKeys m.data_sources
      → AreConfigured m.db_size m.data_sources
      → FitsSources (start ops m) m.data_sources
  unfolding start configure_input_multiplexing_arrays
  start-fits m d f =
      let c = configure_sources ops m.data_sources m in
      let sized : MappingOutstation D = record c {
        analog = resize_out ops (lookup_or 0 "Analog Input" m.db_size) c.analog;
        binary = resize_out ops (lookup_or 0 "Binary Input" m.db_size) c.binary;
        counter = resize_out ops (lookup_or 0 "Counter" m.db_size) c.counter;
      } in
      let cleared : (ch : Channel D) → SameShape ch (clear_flags m.data_sources ch) = λ ch. record {
        out_size = ap length (clear_flags-kept m.data_sources ch).1;
        in_size = λ k. rw (clear_flags-kept m.data_sources ch).0;
      } in
      FitsSources-shape sized _ m.data_sources (cleared sized.analog) (cleared sized.binary)
        (cleared sized.counter)
        (FitsSources-sized m.db_size sized m.data_sources (length-resize _ _ _)
          (length-resize _ _ _) (length-resize _ _ _)
          (AreSized-values c sized m.data_sources refl refl refl
            (configure_sources-AreSized ops m.data_sources m d))
          f)

  -- A station whose sources have different names, and whose points lie within the sizes that their
  -- lists give, is ready after `run` has set up its arrays.
  pub start-IsReady :
      (m : MappingOutstation D)
      → DistinctKeys m.data_sources
      → AreConfigured m.db_size m.data_sources
      → IsReady (start ops m)
  unfolding start configure_input_multiplexing_arrays
  start-IsReady m d f =
      let e = configure_sources-kept ops m.data_sources m in
      record { keys = rw e d; fits = subst (FitsSources (start ops m)) (sym e) (start-fits m d f) }

  -- The input arrays of each source have the sizes of its list, after `run` has set them up.
  pub start-AreSized :
      (m : MappingOutstation D)
      → DistinctKeys m.data_sources
      → AreSized (start ops m) m.data_sources
  unfolding start configure_input_multiplexing_arrays
  start-AreSized m d =
      let c = configure_sources ops m.data_sources m in
      AreSized-values c _ m.data_sources (clear_flags-kept m.data_sources _).0
        (clear_flags-kept m.data_sources _).0 (clear_flags-kept m.data_sources _).0
        (configure_sources-AreSized ops m.data_sources m d)
