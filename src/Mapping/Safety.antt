-- ===== src/Mapping/Safety.antt =====
-- `passThruDataChanges` reads and writes in bounds, and hands over what the flagged sources hold.
use ics_trafficgen.Base.{
  ℕ, String, List, [], ◌∷◌, ◌++◌, none, some, true, str_eq, read_at, put, to_u16, if◌then◌else◌,
  ◌≡◌, refl, ◌∙◌, inl, inr, All, InRange, length, length-put, read_at_of_InRange,
  write_at_of_InRange, read_at-put, Bool-cases, append_assoc, append-nil,
}
use ics_trafficgen.Points.{MappedDataPoint, Dnp3Point}
use ics_trafficgen.Mapping.{Channel, Update, source_values, is_flagged, copy_point}
use ics_trafficgen.Mapping.Passing.{pass_point, pass_points}

-- A mapped point of type `t` has its index among `n` outputs, its input index among `k` inputs.
abbrev pub Fits : String → ℕ → ℕ → MappedDataPoint → Type 0
Fits t n k dp = str_eq dp.point_type t ≡ true → InRange dp.index n × InRange dp.input_index k

module _ {D : Type 0} (t : String) (mk : D → ℕ → ℕ → Update D) where
  -- What the station should report of one point, read off the input array.
  abbrev pub report_point : List (Dnp3Point D) → MappedDataPoint → List (Update D)
  report_point vals dp =
      if str_eq dp.point_type t
      then elim (read_at vals dp.input_index) [
        | none ↦ []
        | some p ↦ mk p.value p.timestamp (to_u16 dp.index) ∷ []
      ]
      else []

  abbrev pub report_points : List (Dnp3Point D) → List MappedDataPoint → List (Update D)
  report_points vals [] = []
  report_points vals (dp ∷ dps) = report_point vals dp ++ report_points vals dps

  abbrev pub report_channel : String → Channel D → List MappedDataPoint → List (Update D)
  report_channel src ch dps =
      if is_flagged src ch then report_points (source_values src ch) dps else []

  module _ (src : String) where
    copy_point_lem :
        (dp : MappedDataPoint) (ch : Channel D)
        → InRange dp.index (length ch.out)
        → InRange dp.input_index (length (source_values src ch))
        → (p : Dnp3Point D) × (read_at (source_values src ch) dp.input_index ≡ some p)
          × (copy_point src dp ch ≡ some (record ch { out = put ch.out dp.index p }))
    unfolding copy_point
    copy_point_lem dp ch h k =
        let (p, e) = read_at_of_InRange (source_values src ch) dp.input_index k in
        (p, e, rw (e, write_at_of_InRange ch.out dp.index p h))

    pass_point_lem :
        (dp : MappedDataPoint) (ch : Channel D) (b : List (Update D))
        → Fits t (length ch.out) (length (source_values src ch)) dp
        → (out : List (Dnp3Point D)) × (pass_point t mk src dp (ch, b)
            ≡ some (record ch { out = out }, b ++ report_point (source_values src ch) dp))
          × (length out ≡ length ch.out)
    unfolding pass_point
    pass_point_lem dp ch b f = elim (Bool-cases (str_eq dp.point_type t)) [
      | inl same ↦
          let (p, e, c) = copy_point_lem dp ch (f same).0 (f same).1 in
          (
            put ch.out dp.index p,
            rw (same, e, c, read_at-put ch.out dp.index p (f same).0),
            length-put ch.out dp.index p,
          )
      | inr other ↦ (ch.out, rw (other, append-nil b), refl)
    ]

    pub pass_points_lem :
        (dps : List MappedDataPoint) (ch : Channel D) (b : List (Update D))
        → All (Fits t (length ch.out) (length (source_values src ch))) dps
        → (out : List (Dnp3Point D)) × (pass_points t mk src dps (ch, b)
            ≡ some (record ch { out = out }, b ++ report_points (source_values src ch) dps))
          × (length out ≡ length ch.out)
    unfolding pass_points
    pass_points_lem [] ch b f = (ch.out, rw append-nil, refl)
    pass_points_lem (dp ∷ dps) ch b f =
        let (o, e, l) = pass_point_lem dp ch b f.0 in
        let c : Channel D = record ch { out = o } in
        let (o', e', l') =
          pass_points_lem dps c (b ++ report_point (source_values src ch) dp) (rw l f.1) in
        (o', rw e (rw e' (rw append_assoc)), l' ∙ l)
