-- ===== src/Mapping/Passing.antt =====
-- MappingOutstation.cpp: `passThruDataChanges`, which runs with the station's mutex held.
use ics_trafficgen.Base.{
  ℕ, String, List, [], ◌∷◌, ◌++◌, Map, Option, some, insert, false, str_eq, read_at, to_u16, ◌>>=◌,
  if◌then◌else◌,
}
use ics_trafficgen.Points.{MappedDataPoint, Doubles}
use ics_trafficgen.Mapping.{
  Channel, MappingOutstation, Update, is_flagged, copy_point, analog_of, binary_of, counter_of,
}

module _ {D : Type 0} (t : String) (mk : D → ℕ → ℕ → Update D) (src : String) where
  -- One round of the loop over `mdpList`; the second part is what the builder holds.
  unfoldable pub pass_point :
      MappedDataPoint → Channel D × List (Update D) → Option (Channel D × List (Update D))
  pass_point dp (ch, builder) =
      if str_eq dp.point_type t
      then (do
        ch' ← copy_point src dp ch
        p ← read_at ch'.out dp.index
        some (ch', builder ++ mk p.value p.timestamp (to_u16 dp.index) ∷ []))
      else some (ch, builder)

  unfoldable pub pass_points :
      List MappedDataPoint → Channel D × List (Update D) → Option (Channel D × List (Update D))
  pass_points [] s = some s
  pass_points (dp ∷ dps) s = do s' ← pass_point dp s; pass_points dps s'

  -- the block under `if (xFlag[srcName])`
  unfoldable pub pass_channel :
      List MappedDataPoint → Channel D × List (Update D) → Option (Channel D × List (Update D))
  pass_channel dps (ch, builder) =
      if is_flagged src ch
      then pass_points dps (record ch { flag = insert src false ch.flag }, builder)
      else some (ch, builder)

module _ {D : Type 0} (ops : Doubles D) where
  unfoldable pub pass_source :
      String
      → List MappedDataPoint
      → MappingOutstation D × List (Update D)
      → Option (MappingOutstation D × List (Update D))
  pass_source src dps (m, b₀) = do
    (analog, b₁) ← pass_channel "Analog Input" (analog_of ops) src dps (m.analog, b₀)
    (binary, b₂) ← pass_channel "Binary Input" (binary_of ops) src dps (m.binary, b₁)
    (counter, b₃) ← pass_channel "Counter" (counter_of ops) src dps (m.counter, b₂)
    some (record m { analog = analog; binary = binary; counter = counter }, b₃)

  unfoldable pub pass_sources :
      Map (List MappedDataPoint)
      → MappingOutstation D × List (Update D)
      → Option (MappingOutstation D × List (Update D))
  pass_sources [] s = some s
  pass_sources ((src, dps) ∷ rest) s = do s' ← pass_source src dps s; pass_sources rest s'

  -- `passThruDataChanges`: the new station, and the updates that `Apply` is called with
  unfoldable pub pass_thru_data_changes :
      MappingOutstation D → Option (MappingOutstation D × List (Update D))
  pass_thru_data_changes m = pass_sources m.data_sources (m, [])
