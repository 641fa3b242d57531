-- ===== src/Mapping/Start.antt =====
-- The arrays that `run` sets up before its loop, and when they are large enough for every pass.
use ics_trafficgen.Base.{
  ℕ, String, List, [], ◌∷◌, Map, map, false, str_eq, lookup_or, ◌≡◌, refl, length, arith, eq_iff,
  eq_refl, lookup_or-insert, Bool-cases, inl, inr, All, true, ap, if◌then◌else◌,
}
use ics_trafficgen.Points.{MappedDataPoint, Doubles}
use ics_trafficgen.Mapping.{Channel, MappingOutstation, source_values, is_flagged}
use ics_trafficgen.Mapping.Arrays.{
  resize, length-resize, source_sizes, origin, clear_source, resize_source, configure_source,
  configure_sources, clear_flags,
}
use ics_trafficgen.Mapping.Safety.{Fits}
use ics_trafficgen.Mapping.Emission.{Without, DistinctKeys}
use ics_trafficgen.Mapping.Pass.{Cleared}

length-map {ℓ} : {A : Type ℓ} (f : A → A) (xs : List A) → length (map f xs) ≡ length xs
length-map f [] = refl
length-map f (x ∷ xs) = omega (arith, length-map f xs)

-- A mapped point of type `t` that names an output below `n`, and an input below the size that its
-- source's list of points gives.
abbrev pub Lies : String → ℕ → ℕ → List MappedDataPoint → Type 0
Lies t n k = All (Fits t n k)

-- The sources of a configuration whose points all lie in the arrays that it calls for.
pub record IsConfigured (db_size : Map ℕ) (dps : List MappedDataPoint) : Type 0 where
  pub analog_lies :
      Lies "Analog Input"
        (lookup_or 0 "Analog Input" db_size)
        (lookup_or 0 "Analog Input" (source_sizes dps []))
        dps
  pub binary_lies :
      Lies "Binary Input"
        (lookup_or 0 "Binary Input" db_size)
        (lookup_or 0 "Binary Input" (source_sizes dps []))
        dps
  pub counter_lies :
      Lies "Counter"
        (lookup_or 0 "Counter" db_size)
        (lookup_or 0 "Counter" (source_sizes dps []))
        dps

abbrev pub AreConfigured : Map ℕ → Map (List MappedDataPoint) → Type 0
AreConfigured db_size [] = Unit
AreConfigured db_size ((src, dps) ∷ rest) = IsConfigured db_size dps × AreConfigured db_size rest

module _ {D : Type 0} where
  -- The input arrays of a source have the sizes of its list of points.
  pub record IsSized (m : MappingOutstation D) (src : String) (sizes : Map ℕ) : Type 0 where
    pub analog_sized : length (source_values src m.analog) ≡ lookup_or 0 "Analog Input" sizes
    pub binary_sized : length (source_values src m.binary) ≡ lookup_or 0 "Binary Input" sizes
    pub counter_sized : length (source_values src m.counter) ≡ lookup_or 0 "Counter" sizes

  abbrev pub AreSized : MappingOutstation D → Map (List MappedDataPoint) → Type 0
  AreSized m [] = Unit
  AreSized m ((src, dps) ∷ rest) = IsSized m src (source_sizes dps []) × AreSized m rest

  pub clear_flags-kept :
      (srcs : Map (List MappedDataPoint)) (ch : Channel D)
      → ((clear_flags srcs ch).values ≡ ch.values) × ((clear_flags srcs ch).out ≡ ch.out)
  unfolding clear_flags
  clear_flags-kept [] ch = (refl, refl)
  clear_flags-kept ((src, dps) ∷ rest) ch = clear_flags-kept rest _

  clear_flags-others :
      (srcs : Map (List MappedDataPoint)) (ch : Channel D) (k : String)
      → is_flagged k ch ≡ false
      → is_flagged k (clear_flags srcs ch) ≡ false
  unfolding clear_flags
  clear_flags-others [] ch k h = h
  clear_flags-others ((src, dps) ∷ rest) ch k h =
      clear_flags-others rest _ k (ground (arith, lookup_or-insert false src k false ch.flag))

  pub clear_flags-Cleared :
      (srcs : Map (List MappedDataPoint)) (ch : Channel D) → Cleared (clear_flags srcs ch) srcs
  unfolding clear_flags
  clear_flags-Cleared [] ch = tt
  clear_flags-Cleared ((src, dps) ∷ rest) ch = (
    clear_flags-others rest _ src (rw (lookup_or-insert false src src false ch.flag, eq_refl src)),
    clear_flags-Cleared rest _,
  )

module _ {D : Type 0} (ops : Doubles D) where
  clear_source-size :
      (src k : String) (n : ℕ) (ch : Channel D)
      → length (source_values k (clear_source ops src n ch))
        ≡ (if str_eq src k then n else length (source_values k ch))
  unfolding clear_source
  clear_source-size src k n ch = ground (
    arith,
    lookup_or-insert [] src k (map (λ _. origin ops) (resize n (origin ops) (source_values src ch)))
        ch.values,
    length-map (λ _. origin ops) (resize n (origin ops) (source_values src ch)),
    length-resize n (origin ops) (source_values src ch),
  )

  resize_source-size :
      (src k : String) (n : ℕ) (ch : Channel D)
      → length (source_values k (resize_source ops src n ch))
        ≡ (if str_eq src k then n else length (source_values k ch))
  unfolding resize_source
  resize_source-size src k n ch = ground (
    arith,
    lookup_or-insert [] src k (resize n (origin ops) (source_values src ch)) ch.values,
    length-resize n (origin ops) (source_values src ch),
  )

  IsSized-next :
      (src : String) (dps : List MappedDataPoint) (m : MappingOutstation D) (k : String)
      (sizes : Map ℕ)
      → (str_eq src k ≡ false → IsSized m k sizes)
      → (str_eq src k ≡ true → source_sizes dps [] ≡ sizes)
      → IsSized (configure_source ops src (source_sizes dps []) m) k sizes
  unfolding configure_source
  IsSized-next src dps m k sizes old new =
      let s = source_sizes dps [] in
      elim (Bool-cases (str_eq src k)) [
        | inl same ↦ record {
          analog_sized =
              rw (clear_source-size src k _ m.analog, same)
                (ap (lookup_or 0 "Analog Input") (new same));
          binary_sized =
              rw (clear_source-size src k _ m.binary, same)
                (ap (lookup_or 0 "Binary Input") (new same));
          counter_sized =
              rw (resize_source-size src k _ m.counter, same)
                (ap (lookup_or 0 "Counter") (new same));
        }
        | inr other ↦ record {
          analog_sized = rw (clear_source-size src k _ m.analog, other) (old other).analog_sized;
          binary_sized = rw (clear_source-size src k _ m.binary, other) (old other).binary_sized;
          counter_sized =
              rw (resize_source-size src k _ m.counter, other) (old other).counter_sized;
        }
      ]

  configure_sources-others :
      (srcs : Map (List MappedDataPoint)) (m : MappingOutstation D) (k : String) (sizes : Map ℕ)
      → Without k srcs
      → IsSized m k sizes
      → IsSized (configure_sources ops srcs m) k sizes
  unfolding configure_sources
  configure_sources-others [] m k sizes w s = s
  configure_sources-others ((src, dps) ∷ rest) m k sizes w s =
      configure_sources-others rest _ k sizes w.1
        (IsSized-next src dps m k sizes (λ _. s) (λ e. ground (arith, eq_iff k src, eq_iff src k)))

  pub configure_sources-AreSized :
      (srcs : Map (List MappedDataPoint)) (m : MappingOutstation D)
      → DistinctKeys srcs
      → AreSized (configure_sources ops srcs m) srcs
  unfolding configure_sources
  configure_sources-AreSized [] m d = tt
  configure_sources-AreSized ((src, dps) ∷ rest) m (w, d) = (
    configure_sources-others rest _ src _ w
        (IsSized-next src dps m src _ (λ e. ground (arith, eq_refl src)) (λ _. refl)),
    configure_sources-AreSized rest _ d,
  )

  pub configure_sources-kept :
      (srcs : Map (List MappedDataPoint)) (m : MappingOutstation D)
      → (configure_sources ops srcs m).data_sources ≡ m.data_sources
  unfolding configure_sources configure_source
  configure_sources-kept [] m = refl
  configure_sources-kept ((src, dps) ∷ rest) m = configure_sources-kept rest _
