-- ===== src/Mapping/Pass.antt =====
-- `passThruDataChanges` as a whole: it never leaves the arrays, it hands over exactly what the
-- flagged sources hold, and it clears their flags.
use ics_trafficgen.Base.{
  String, List, [], ◌∷◌, ◌++◌, Map, some, false, ◌≡◌, refl, ◌∙◌, length, append_assoc, append-nil,
  arith, eq_iff,
}
use ics_trafficgen.Points.{MappedDataPoint, Doubles}
use ics_trafficgen.Mapping.{Channel, MappingOutstation, Update, is_flagged}
use ics_trafficgen.Mapping.Passing.{pass_sources, pass_thru_data_changes}
use ics_trafficgen.Mapping.Emission.{
  ChannelPassed, FitsSources, Without, DistinctKeys, report_source, report, pass_source_lem,
  report-Passed, FitsSources-Passed,
}

module _ {D : Type 0} where
  abbrev pub Cleared : Channel D → Map (List MappedDataPoint) → Type 0
  Cleared ch [] = Unit
  Cleared ch ((src, dps) ∷ rest) = (is_flagged src ch ≡ false) × Cleared ch rest

-- What a pass over several sources leaves of a channel.
pub record ChannelSwept {D : Type 0} (srcs : Map (List MappedDataPoint)) (ch ch' : Channel D)
    : Type 0 where
  pub values_kept : ch'.values ≡ ch.values
  pub size_kept : length ch'.out ≡ length ch.out
  pub cleared : Cleared ch' srcs
  pub others : (k : String) → Without k srcs → is_flagged k ch' ≡ is_flagged k ch

pub record Swept {D : Type 0} (srcs : Map (List MappedDataPoint)) (m m' : MappingOutstation D)
    : Type 0 where
  pub analog_swept : ChannelSwept srcs m.analog m'.analog
  pub binary_swept : ChannelSwept srcs m.binary m'.binary
  pub counter_swept : ChannelSwept srcs m.counter m'.counter
  pub sources_kept : m'.data_sources ≡ m.data_sources

module _ {D : Type 0} where
  sweep_none : (ch : Channel D) → ChannelSwept [] ch ch
  sweep_none ch = record {
    values_kept = refl;
    size_kept = refl;
    cleared = tt;
    others = λ k w. refl;
  }

  sweep_one :
      (src : String) (dps : List MappedDataPoint) (rest : Map (List MappedDataPoint))
      (ch ch' ch'' : Channel D)
      → Without src rest
      → ChannelPassed src ch ch'
      → ChannelSwept rest ch' ch''
      → ChannelSwept ((src, dps) ∷ rest) ch ch''
  sweep_one src dps rest ch ch' ch'' w p s = record {
    values_kept = s.values_kept ∙ p.values_kept;
    size_kept = s.size_kept ∙ p.size_kept;
    cleared = (s.others src w ∙ p.cleared, s.cleared);
    others = λ k h. s.others k h.1 ∙ p.others k (ground (arith, eq_iff k src, eq_iff src k));
  }

module _ {D : Type 0} (ops : Doubles D) where
  pass_sources_lem :
      (srcs : Map (List MappedDataPoint)) (m : MappingOutstation D) (b : List (Update D))
      → DistinctKeys srcs
      → FitsSources m srcs
      → (m' : MappingOutstation D) × (pass_sources ops srcs (m, b)
          ≡ some (m', b ++ report ops m srcs))
        × Swept srcs m m'
  unfolding pass_sources
  pass_sources_lem [] m b d f = (
    m,
    rw append-nil,
    record {
      analog_swept = sweep_none m.analog;
      binary_swept = sweep_none m.binary;
      counter_swept = sweep_none m.counter;
      sources_kept = refl;
    },
  )
  pass_sources_lem ((src, dps) ∷ rest) m b (w, d) (f, fs) =
      let (m', e, p) = pass_source_lem ops src dps m b f in
      let (m'', e', s) =
        pass_sources_lem rest m' (b ++ report_source ops m src dps) d
          (FitsSources-Passed ops src m m' rest p fs) in
      (
        m'',
        rw e (rw e' (rw (report-Passed ops src m m' rest w p, append_assoc))),
        record {
          analog_swept = sweep_one src dps rest _ _ _ w p.analog_passed s.analog_swept;
          binary_swept = sweep_one src dps rest _ _ _ w p.binary_passed s.binary_swept;
          counter_swept = sweep_one src dps rest _ _ _ w p.counter_passed s.counter_swept;
          sources_kept = s.sources_kept ∙ p.sources_kept;
        },
      )

  -- Where the keys of the sources differ and each mapped point fits its arrays, the pass reads and
  -- writes in bounds, calls `Apply` with exactly the reports of the flagged sources, in the order
  -- of the sources, clears their flags, and keeps the input arrays and the sizes.
  pub pass_thru_data_changes_lem :
      (m : MappingOutstation D)
      → DistinctKeys m.data_sources
      → FitsSources m m.data_sources
      → (m' : MappingOutstation D) × (pass_thru_data_changes ops m
          ≡ some (m', report ops m m.data_sources))
        × Swept m.data_sources m m'
  unfolding pass_thru_data_changes
  pass_thru_data_changes_lem m d f = pass_sources_lem m.data_sources m [] d f
