-- ===== src/Soe/Arrival.antt =====
-- The last measurement that a master reports for an input reaches the output that it is mapped to.
use ics_trafficgen.Base.{
  ℕ, ◌<◌, String, List, [], ◌∷◌, ◌++◌, Map, true, false, some, lookup, str_eq, ◌==◌, to_u16,
  read_at, pos, ◌≡◌, ◌≢◌, refl, subst, sym, ap, ◌∙◌, inl, inr, All, Has, Has-append_left,
  Has-append_right, Bool-cases, arith, if◌then◌else◌, eq_iff, length, get_elem?_of_lt,
}
use ics_trafficgen.Points.{MappedDataPoint, Dnp3Point, Doubles}
use ics_trafficgen.Mapping.{
  MappingOutstation, Update, analog_update, source_values, analog_of, binary_of, counter_of,
}
use ics_trafficgen.Mapping.Passing.{pass_thru_data_changes}
use ics_trafficgen.Mapping.Safety.{report_points, report_channel}
use ics_trafficgen.Mapping.Emission.{report_source, report}
use ics_trafficgen.Mapping.Pass.{pass_thru_data_changes_lem}
use ics_trafficgen.Mapping.Ready.{IsReady}
use ics_trafficgen.Soe.{Indexed, analogs, refresh, process_at}
use ics_trafficgen.Soe.Arrays.{refresh_all, receive_parts}
use ics_trafficgen.Soe.Delivery.{process_at-IsReady}

module _ {D V : Type 0} (ops : Doubles D) (conv : V → D) where
  refresh_all_after :
      (i : ℕ) (after : List (Indexed V)) (d : Dnp3Point D)
      → All (λ e. (e.index == i) ≡ false) after
      → refresh_all ops conv i after d ≡ d
  refresh_all_after i [] d a = refl
  refresh_all_after i (e ∷ es) d (n, a) = rw n (refresh_all_after i es d a)

  -- An event with a time decides the point, whatever came before it.
  pub refresh_all_last :
      (i : ℕ) (before after : List (Indexed V)) (e : Indexed V) (d : Dnp3Point D)
      → e.index ≡ i
      → e.time ≢ 0
      → All (λ e'. (e'.index == i) ≡ false) after
      → refresh_all ops conv i (before ++ e ∷ after) d
        ≡ record { value = conv e.value; timestamp = e.time }
  refresh_all_last i [] after e d j n a =
      let p : Dnp3Point D = record { value = conv e.value; timestamp = e.time } in
      let q : (if e.index == i then refresh ops conv d e else d) ≡ p = ground arith in
      ap (refresh_all ops conv i after) q ∙ refresh_all_after i after p a
  refresh_all_last i (b ∷ before) after e d j n a = refresh_all_last i before after e _ j n a

module _ {D : Type 0} (ops : Doubles D) where
  report_points-Has :
      (t : String) (mk : D → ℕ → ℕ → Update D) (vals : List (Dnp3Point D))
      (dps : List MappedDataPoint) (dp : MappedDataPoint) (p : Dnp3Point D)
      → Has dp dps
      → str_eq dp.point_type t ≡ true
      → read_at vals dp.input_index ≡ some p
      → Has (mk p.value p.timestamp (to_u16 dp.index)) (report_points t mk vals dps)
  report_points-Has t mk vals [] dp p h s r = absurd h
  report_points-Has t mk vals (x ∷ dps) dp p (inl e) s r =
      subst
        (λ y. Has (mk p.value p.timestamp (to_u16 dp.index)) (report_points t mk vals (y ∷ dps)))
        (sym e) (rw (s, r) (inl refl))
  report_points-Has t mk vals (x ∷ dps) dp p (inr h) s r =
      Has-append_right _ _ _ (report_points-Has t mk vals dps dp p h s r)

  report_source-analog :
      (m : MappingOutstation D) (src : String) (dps : List MappedDataPoint) (u : Update D)
      → Has u (report_channel "Analog Input" (analog_of ops) src m.analog dps)
      → Has u (report_source ops m src dps)
  report_source-analog m src dps u h =
      Has-append_left u _
        (report_channel "Binary Input" (binary_of ops) src m.binary dps
          ++ report_channel "Counter" (counter_of ops) src m.counter dps)
        h

  report-Has :
      (m : MappingOutstation D) (srcs : Map (List MappedDataPoint)) (src : String)
      (dps : List MappedDataPoint) (u : Update D)
      → lookup src srcs ≡ some dps
      → Has u (report_source ops m src dps)
      → Has u (report ops m srcs)
  report-Has m [] src dps u e h = cc
  report-Has m ((k, xs) ∷ rest) src dps u e h = elim (Bool-cases (str_eq k src)) [
    | inl same ↦
        let k_eq : k ≡ src = (eq_iff k src).0 same in
        let xs_eq : xs ≡ dps = ground arith in
        Has-append_left u (report_source ops m k xs) (report ops m rest) (rw (k_eq, xs_eq) h)
    | inr other ↦ Has-append_right u _ _ (report-Has m rest src dps u (ground arith) h)
  ]

  process_at-data_sources :
      (src : String) (es : List (Indexed D)) (m : MappingOutstation D)
      → (process_at ops src (analogs es) m).data_sources ≡ m.data_sources
  unfolding process_at
  process_at-data_sources src es m = refl

  analog_reported :
      (m : MappingOutstation D) (src : String) (dps : List MappedDataPoint) (dp : MappedDataPoint)
      (i : ℕ) (before after : List (Indexed D)) (e : Indexed D)
      → Has dp dps
      → str_eq dp.point_type "Analog Input" ≡ true
      → dp.input_index ≡ pos i
      → i < length (source_values src m.analog)
      → e.index ≡ i
      → e.time ≢ 0
      → All (λ e'. (e'.index == i) ≡ false) after
      → Has
          (analog_update e.value e.time (to_u16 dp.index))
          (report_source ops (process_at ops src (analogs (before ++ e ∷ after)) m) src dps)
  unfolding process_at
  analog_reported m src dps dp i before after e h s ii lt j n a =
      let (arrays, flagged, o, others) =
        receive_parts ops (λ v. v) src (before ++ e ∷ after) m.analog in
      let (d, old) = get_elem?_of_lt (source_values src m.analog) i lt in
      let p : Dnp3Point D = record { value = e.value; timestamp = e.time } in
      let m₁ = process_at ops src (analogs (before ++ e ∷ after)) m in
      report_source-analog m₁ src dps _ (
        rw flagged (
          report_points-Has "Analog Input" (analog_of ops) (source_values src m₁.analog) dps dp p h
            s
            (rw ii
              (arrays i d old ∙ ap some (refresh_all_last ops (λ v. v) i before after e d j n a)))))

  -- Let a ready outstation map input `i` of `src` to `dp`, an analog point. If the batch of analog
  -- measurements that `src` reports has a last one for `i`, and that has a time, then the next pass
  -- succeeds, and updates the point with the value and the time of that measurement.
  pub analog_arrives :
      (m : MappingOutstation D) (src : String) (dps : List MappedDataPoint) (dp : MappedDataPoint)
      (i : ℕ) (before after : List (Indexed D)) (e : Indexed D)
      → IsReady m
      → lookup src m.data_sources ≡ some dps
      → Has dp dps
      → str_eq dp.point_type "Analog Input" ≡ true
      → dp.input_index ≡ pos i
      → i < length (source_values src m.analog)
      → e.index ≡ i
      → e.time ≢ 0
      → All (λ e'. (e'.index == i) ≡ false) after
      → (m' : MappingOutstation D) × (ups : List (Update D)) × (pass_thru_data_changes ops
            (process_at ops src (analogs (before ++ e ∷ after)) m)
          ≡ some (m', ups))
        × Has (analog_update e.value e.time (to_u16 dp.index)) ups
  analog_arrives m src dps dp i before after e r l h s ii lt j n a =
      let es = before ++ e ∷ after in
      let m₁ = process_at ops src (analogs es) m in
      let r₁ = process_at-IsReady ops src (analogs es) m r in
      let (m', run, swept) = pass_thru_data_changes_lem ops m₁ r₁.keys r₁.fits in
      (
        m',
        report ops m₁ m₁.data_sources,
        run,
        report-Has m₁ m₁.data_sources src dps _ (rw (process_at-data_sources src es m) l)
            (analog_reported m src dps dp i before after e h s ii lt j n a),
      )
