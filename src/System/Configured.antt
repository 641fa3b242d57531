-- ===== src/System/Configured.antt =====
-- From a configuration file to the run of the program.
use ics_trafficgen.Base.{
  ℕ, String, List, [], ◌∷◌, Map, some, Bool, true, lookup_or, ℤ, pos, negsuc, InRange, filterb, map,
  get_elem?, set, if◌then◌else◌, ◌≡◌, sym, subst, All, Above, IsSorted, less-ne, eq_iff, Bool-cases,
  inl, inr,
}
use ics_trafficgen.Points.{MappedDataPoint, Doubles}
use ics_trafficgen.Node.{Node}
use ics_trafficgen.Mapping.{MappingOutstation}
use ics_trafficgen.Mapping.Arrays.{source_sizes}
use ics_trafficgen.Mapping.Passing.{pass_thru_data_changes}
use ics_trafficgen.Mapping.Emission.{Without, DistinctKeys, report}
use ics_trafficgen.Mapping.Start.{AreConfigured, Lies}
use ics_trafficgen.Config.{PropTree, Parser}
use ics_trafficgen.Config.Parse.{parse_config}
use ics_trafficgen.Config.Parse.Sized.{parse_config-Covers}
use ics_trafficgen.Config.DataSpecs.Sizes.{Within, SourcesWithin, Covers}
use ics_trafficgen.Station.Database.Total.{IsIndex}
use ics_trafficgen.App.{mapping_station, launch_all, no_stations}
use ics_trafficgen.App.Launching.{launch_all_lem, is_mapping}
use ics_trafficgen.System.{System, Step, Reachable, is_running}
use ics_trafficgen.System.Safety.{IsLaid, Reachable-is_safe}

-- The keys of an ascending map differ.
Above-Without : {V : Type 0} (k : String) (m : Map V) → Above k m → Without k m
Above-Without k [] a = tt
Above-Without k ((j, v) ∷ m) a = (less-ne k j a.0, Above-Without k m a.1)

IsSorted-DistinctKeys : {V : Type 0} (m : Map V) → IsSorted m → DistinctKeys m
IsSorted-DistinctKeys [] s = tt
IsSorted-DistinctKeys ((k, v) ∷ m) s = (Above-Without k m s.0, IsSorted-DistinctKeys m s.1)

-- The index of a mapped point is not negative, and its input index lies below the size that the
-- output indexes of its source give to its type.
abbrev pub IsPlaced : List MappedDataPoint → MappedDataPoint → Type 0
IsPlaced dps dp =
    IsIndex dp.index × InRange dp.input_index (lookup_or 0 dp.point_type (source_sizes dps []))

abbrev pub ArePlaced : Map (List MappedDataPoint) → Type 0
ArePlaced [] = Unit
ArePlaced ((src, dps) ∷ rest) = All (IsPlaced dps) dps × ArePlaced rest

pub Within-InRange :
    (sizes : Map ℕ) (t : String) (z : ℤ)
    → IsIndex z
    → Within sizes t z
    → InRange z (lookup_or 0 t sizes)
Within-InRange sizes t (pos i) n w = w
Within-InRange sizes t (negsuc i) n w = absurd n

Lies-placed :
    (sizes source : Map ℕ) (t : String) (dps : List MappedDataPoint)
    → All (λ dp. Within sizes dp.point_type dp.index) dps
    → All (λ dp. IsIndex dp.index × InRange dp.input_index (lookup_or 0 dp.point_type source)) dps
    → Lies t (lookup_or 0 t sizes) (lookup_or 0 t source) dps
Lies-placed sizes source t [] w p = tt
Lies-placed sizes source t (dp ∷ dps) w p = (
  λ e.
      let same : dp.point_type ≡ t = (eq_iff dp.point_type t).0 e in
      (
        subst (λ u. InRange dp.index (lookup_or 0 u sizes)) same
            (Within-InRange sizes dp.point_type dp.index p.0.0 w.0),
        subst (λ u. InRange dp.input_index (lookup_or 0 u source)) same p.0.1,
      ),
  Lies-placed sizes source t dps w.1 p.1,
)

AreConfigured-placed :
    (sizes : Map ℕ) (srcs : Map (List MappedDataPoint))
    → SourcesWithin sizes srcs
    → ArePlaced srcs
    → AreConfigured sizes srcs
AreConfigured-placed sizes [] w p = tt
AreConfigured-placed sizes ((src, dps) ∷ rest) (w, ws) (p, ps) = (
  record {
    analog_lies = Lies-placed sizes (source_sizes dps []) "Analog Input" dps w p;
    binary_lies = Lies-placed sizes (source_sizes dps []) "Binary Input" dps w p;
    counter_lies = Lies-placed sizes (source_sizes dps []) "Counter" dps w p;
  },
  AreConfigured-placed sizes rest ws ps,
)

module _ {F : Type 0} (D : Type 0) where
  pub mapping_station-IsLaid :
      (n : Node F) → Covers n → ArePlaced n.data_sources → IsLaid (mapping_station {D = D} n)
  unfolding mapping_station
  mapping_station-IsLaid n c p = record {
    keys = IsSorted-DistinctKeys n.data_sources c.sources_sorted;
    configured = AreConfigured-placed n.db_size n.data_sources c.sources_within p;
  }

  mapping_stations-IsLaid :
      (ns : List (Node F))
      → All Covers ns
      → All (λ n. ArePlaced n.data_sources) ns
      → All IsLaid (map (mapping_station {D = D}) (filterb is_mapping ns))
  mapping_stations-IsLaid [] c p = tt
  mapping_stations-IsLaid (n ∷ ns) c p =
      let rest = mapping_stations-IsLaid ns c.1 p.1 in
      let Laid : Bool → Type 0 = λ b. All IsLaid (
        map (mapping_station {D = D})
          (if b then n ∷ filterb is_mapping ns else filterb is_mapping ns)) in
      elim (Bool-cases (is_mapping n)) [
        | inl taken ↦ subst Laid (sym taken) (mapping_station-IsLaid n c.0 p.0, rest)
        | inr skipped ↦ subst Laid (sym skipped) rest
      ]

-- Let a configuration file be read and its stations be launched. If in each node of it each mapped
-- point has an index that is not negative, and an input index below the size that the output
-- indexes of its source give to its type, then in every state that the program reaches from
-- there, the next pass of an outstation whose arrays are set up stays within the arrays, and hands over
-- exactly what the flagged sources hold.
pub configured-is_safe :
    {D : Type 0} (ops : Doubles D) (pt : PropTree) (t : PropTree.Tree pt) (p : Parser pt.Float)
    (s : System D) (r : ℕ) (m : MappingOutstation D)
    → parse_config pt t ≡ some p
    → All (λ n. ArePlaced n.data_sources) p.nodes
    → Reachable ops (launch_all p.nodes no_stations).mapped_out_stations s
    → is_running r s.running ≡ true
    → get_elem? s.outstations r ≡ some m
    → (m' : MappingOutstation D) × (pass_thru_data_changes ops m
        ≡ some (m', report ops m m.data_sources))
      × Step ops s (record s { outstations = set s.outstations r m' })
configured-is_safe {D = D} ops pt t p s r m parsed placed reached up found =
    let l = launch_all_lem {D = D} p.nodes in
    Reachable-is_safe ops (launch_all p.nodes no_stations).mapped_out_stations s r m
      (subst (All IsLaid) (sym l.mapped)
        (mapping_stations-IsLaid D p.nodes (parse_config-Covers pt t p parsed) placed))
      reached up found
