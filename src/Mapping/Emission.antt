-- ===== src/Mapping/Emission.antt =====
-- `passThruDataChanges` as a whole: it never leaves the arrays, it hands over exactly what the
-- flagged sources hold, and it clears the flags.
use ics_trafficgen.Base.{
  ℕ, String, List, [], ◌∷◌, ◌++◌, Map, some, false, insert, str_eq, ◌≡◌, refl, ap, ◌∙◌, inl, inr,
  All, length, Bool-cases, append_assoc, append-nil, lookup_or-insert, eq_refl,
}
use ics_trafficgen.Points.{MappedDataPoint, Doubles}
use ics_trafficgen.Mapping.{
  Channel, MappingOutstation, Update, source_values, is_flagged, analog_of, binary_of, counter_of,
}
use ics_trafficgen.Mapping.Passing.{pass_channel, pass_source}
use ics_trafficgen.Mapping.Safety.{Fits, report_channel, pass_points_lem}

-- What a pass over the source `src` leaves of a channel.
pub record ChannelPassed {D : Type 0} (src : String) (ch ch' : Channel D) : Type 0 where
  pub values_kept : ch'.values ≡ ch.values
  pub size_kept : length ch'.out ≡ length ch.out
  pub cleared : is_flagged src ch' ≡ false
  pub others : (k : String) → str_eq src k ≡ false → is_flagged k ch' ≡ is_flagged k ch

module _ {D : Type 0} (t : String) (mk : D → ℕ → ℕ → Update D) (src : String) where
  pub pass_channel_lem :
      (dps : List MappedDataPoint) (ch : Channel D) (b : List (Update D))
      → All (Fits t (length ch.out) (length (source_values src ch))) dps
      → (ch' : Channel D) × (pass_channel t mk src dps (ch, b)
          ≡ some (ch', b ++ report_channel t mk src ch dps))
        × ChannelPassed src ch ch'
  unfolding pass_channel
  pass_channel_lem dps ch b f = elim (Bool-cases (is_flagged src ch)) [
    | inl flagged ↦
        let c : Channel D = record ch { flag = insert src false ch.flag } in
        let (out, e, l) = pass_points_lem t mk src dps c b f in
        (
          record c { out = out },
          rw flagged e,
          record {
            values_kept = refl;
            size_kept = l;
            cleared = rw (lookup_or-insert false src src false ch.flag, eq_refl src);
            others = λ k ne. rw (lookup_or-insert false src k false ch.flag, ne);
          },
        )
    | inr idle ↦ (
      ch,
      rw (idle, append-nil b),
      record { values_kept = refl; size_kept = refl; cleared = idle; others = λ k ne. refl },
    )
  ]

-- All points of a source, by the sizes of the three channels.
pub record FitsSource {D : Type 0} (m : MappingOutstation D) (src : String)
    (dps : List MappedDataPoint) : Type 0 where
  pub analog_fits :
      All (Fits "Analog Input" (length m.analog.out) (length (source_values src m.analog))) dps
  pub binary_fits :
      All (Fits "Binary Input" (length m.binary.out) (length (source_values src m.binary))) dps
  pub counter_fits :
      All (Fits "Counter" (length m.counter.out) (length (source_values src m.counter))) dps

module _ {D : Type 0} where
  abbrev pub FitsSources : MappingOutstation D → Map (List MappedDataPoint) → Type 0
  FitsSources m [] = Unit
  FitsSources m ((src, dps) ∷ rest) = FitsSource m src dps × FitsSources m rest

-- No key of the map is `src`.
abbrev pub Without {ℓ} : {V : Type ℓ} → String → Map V → Type 0
Without src [] = Unit
Without src ((k, v) ∷ m) = (str_eq src k ≡ false) × Without src m

-- The keys differ from one another, as those of a `std::map` do.
abbrev pub DistinctKeys {ℓ} : {V : Type ℓ} → Map V → Type 0
DistinctKeys [] = Unit
DistinctKeys ((k, v) ∷ m) = Without k m × DistinctKeys m

pub record Passed {D : Type 0} (src : String) (m m' : MappingOutstation D) : Type 0 where
  pub analog_passed : ChannelPassed src m.analog m'.analog
  pub binary_passed : ChannelPassed src m.binary m'.binary
  pub counter_passed : ChannelPassed src m.counter m'.counter
  pub sources_kept : m'.data_sources ≡ m.data_sources

module _ {D : Type 0} (ops : Doubles D) where
  abbrev pub report_source : MappingOutstation D → String → List MappedDataPoint → List (Update D)
  report_source m src dps =
      report_channel "Analog Input" (analog_of ops) src m.analog dps
      ++ (report_channel "Binary Input" (binary_of ops) src m.binary dps
          ++ report_channel "Counter" (counter_of ops) src m.counter dps)

  -- The updates that the present state of the input arrays and flags calls for.
  abbrev pub report : MappingOutstation D → Map (List MappedDataPoint) → List (Update D)
  report m [] = []
  report m ((src, dps) ∷ rest) = report_source m src dps ++ report m rest

  pub pass_source_lem :
      (src : String) (dps : List MappedDataPoint) (m : MappingOutstation D) (b : List (Update D))
      → FitsSource m src dps
      → (m' : MappingOutstation D) × (pass_source ops src dps (m, b)
          ≡ some (m', b ++ report_source m src dps))
        × Passed src m m'
  unfolding pass_source
  pass_source_lem src dps m b f =
      let (a, e, p) =
        pass_channel_lem "Analog Input" (analog_of ops) src dps m.analog b f.analog_fits in
      let b₁ = b ++ report_channel "Analog Input" (analog_of ops) src m.analog dps in
      let (bi, e₁, p₁) =
        pass_channel_lem "Binary Input" (binary_of ops) src dps m.binary b₁ f.binary_fits in
      let b₂ = b₁ ++ report_channel "Binary Input" (binary_of ops) src m.binary dps in
      let (c, e₂, p₂) =
        pass_channel_lem "Counter" (counter_of ops) src dps m.counter b₂ f.counter_fits in
      let m' : MappingOutstation D = record m { analog = a; binary = bi; counter = c } in
      (
        m',
        rw (e, e₁, e₂) (ap (λ z. some (m', z)) (append_assoc b₁ _ _ ∙ append_assoc b _ _)),
        record { analog_passed = p; binary_passed = p₁; counter_passed = p₂; sources_kept = refl },
      )

  -- A pass over one source leaves what the others are to report.
  report_channel-passed :
      (t : String) (mk : D → ℕ → ℕ → Update D) (src k : String) (ch ch' : Channel D)
      (dps : List MappedDataPoint)
      → str_eq src k ≡ false
      → ChannelPassed src ch ch'
      → report_channel t mk k ch' dps ≡ report_channel t mk k ch dps
  report_channel-passed t mk src k ch ch' dps ne p = rw (p.others k ne, p.values_kept)

  pub report-Passed :
      (src : String) (m m' : MappingOutstation D) (rest : Map (List MappedDataPoint))
      → Without src rest
      → Passed src m m'
      → report m' rest ≡ report m rest
  report-Passed src m m' [] w p = refl
  report-Passed src m m' ((k, dps) ∷ rest) w p = rw (
    report_channel-passed "Analog Input" (analog_of ops) src k m.analog m'.analog dps w.0
        p.analog_passed,
    report_channel-passed "Binary Input" (binary_of ops) src k m.binary m'.binary dps w.0
        p.binary_passed,
    report_channel-passed "Counter" (counter_of ops) src k m.counter m'.counter dps w.0
        p.counter_passed,
    report-Passed src m m' rest w.1 p,
  )

  pub FitsSources-Passed :
      (src : String) (m m' : MappingOutstation D) (rest : Map (List MappedDataPoint))
      → Passed src m m'
      → FitsSources m rest
      → FitsSources m' rest
  FitsSources-Passed src m m' [] p f = tt
  FitsSources-Passed src m m' ((k, dps) ∷ rest) p (f, fs) = (
    record {
      analog_fits = rw (p.analog_passed.size_kept, p.analog_passed.values_kept) f.analog_fits;
      binary_fits = rw (p.binary_passed.size_kept, p.binary_passed.values_kept) f.binary_fits;
      counter_fits = rw (p.counter_passed.size_kept, p.counter_passed.values_kept) f.counter_fits;
    },
    FitsSources-Passed src m m' rest p fs,
  )
