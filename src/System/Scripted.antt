-- ===== src/System/Scripted.antt =====
-- A mapping outstation that is made of a node, when the loop of its script begins: `run` has set up
-- its arrays, and ConfigureDatabase has noted the indexes of its points.
use ics_trafficgen.Base.{
  ℕ, String, List, [], ◌∷◌, Map, Option, none, some, Bool, true, false, ℤ, int_eq, int_eq_iff, any,
  ◌&&◌, ◌||◌, str_eq, eq_iff, lookup, lookup_or, length, InRange, All, ◌≡◌, refl, sym, ap, ◌∙◌,
  subst, Bool-cases, inl, inr,
}
use ics_trafficgen.Points.{DataPoint, Doubles}
use ics_trafficgen.Node.{Node}
use ics_trafficgen.Mapping.{MappingOutstation}
use ics_trafficgen.Mapping.Arrays.{start, configure_input_multiplexing_arrays, length-resize}
use ics_trafficgen.Mapping.Start.{clear_flags-kept}
use ics_trafficgen.Mapping.Ready.{IsReady, SameShape-refl, FitsSources-shape}
use ics_trafficgen.Mapping.Inject.Safe.{AllIn}
use ics_trafficgen.Mapping.Inject.Total.{HasRoom}
use ics_trafficgen.Config.DataSpecs.Sizes.{Within, Covers}
use ics_trafficgen.Station.Database.{Database, input_type, configure_database}
use ics_trafficgen.Station.Database.Total.{IsIndex}
use ics_trafficgen.Station.Database.Indexes.{is_noted, is_other, is_point, configure_database-noted}
use ics_trafficgen.System.Configured.{Within-InRange}

All-any : (P : ℤ → Type 0) (is : List ℤ) → ((z : ℤ) → any (int_eq z) is ≡ true → P z) → All P is
All-any P [] h = tt
All-any P (i ∷ is) h = (
  (let self : int_eq i i ≡ true = (int_eq_iff i i).1 refl in h i (rw self refl)),
  All-any P is (λ z e. h z (later (int_eq z i) (any (int_eq z) is) e)),
)
  where
    later : (a b : Bool) → b ≡ true → (a || b) ≡ true
    later true b e = refl
    later false b e = e

AllIn-noted :
    (o : Option (List ℤ)) (k : ℕ)
    → ((z : ℤ) → any (int_eq z) (elim o [ none ↦ [] | some is ↦ is ]) ≡ true → InRange z k)
    → AllIn o k
AllIn-noted none k h = tt
AllIn-noted (some is) k h = All-any (λ z. InRange z k) is h

and-both : (a b : Bool) → (a && b) ≡ true → (a ≡ true) × (b ≡ true)
and-both true b e = (refl, e)
and-both false b e = cc

module _ {F : Type 0} where
  -- A point among those that the sizes cover has its index within them.
  point-InRange :
      (sizes : Map ℕ) (t : String) (z : ℤ) (dps : List (DataPoint F))
      → All (λ dp. Within sizes dp.point_type dp.index) dps
      → All (λ dp. IsIndex dp.index) dps
      → any (is_point t z) dps ≡ true
      → InRange z (lookup_or 0 t sizes)
  point-InRange sizes t z [] w i e = cc
  point-InRange sizes t z (dp ∷ dps) w i e = elim (Bool-cases (is_point t z dp)) [
    | inl here ↦
        let (type, index) = and-both (str_eq dp.point_type t) (int_eq z dp.index) here in
        let same_type : dp.point_type ≡ t = (eq_iff dp.point_type t).0 type in
        let same_index : dp.index ≡ z = sym ((int_eq_iff z dp.index).0 index) in
        subst (λ u. InRange z (lookup_or 0 u sizes)) same_type
          (subst (λ k. InRange k (lookup_or 0 dp.point_type sizes)) same_index
            (Within-InRange sizes dp.point_type dp.index i.0 w.0))
    | inr further ↦
        point-InRange sizes t z dps w.1 i.1
          (subst (λ b. (b || any (is_point t z) dps) ≡ true) further e)
  ]

  noted-AllIn :
      (positive : F → Bool) (n : Node F) (db db' : Database F) (t : String) (k : ℕ)
      → Covers n
      → All (λ dp. IsIndex dp.index) n.data_points
      → db.dp_type_index_map ≡ []
      → configure_database positive n.data_points db ≡ some db'
      → is_other (input_type t) ≡ false
      → k ≡ lookup_or 0 t n.db_size
      → AllIn (lookup t db'.dp_type_index_map) k
  noted-AllIn positive n db db' t k c i fresh run known size =
      AllIn-noted (lookup t db'.dp_type_index_map) k (λ z e.
        let of_points =
          configure_database-noted positive t z n.data_points db db' known run
          ∙ ap (λ m. any (is_point t z) n.data_points || is_noted t z m) fresh
          ∙ or_none (any (is_point t z) n.data_points) in
        subst (InRange z) (sym size)
          (point-InRange n.db_size t z n.data_points c.points_within i (sym of_points ∙ e)))
    where
      or_none : (b : Bool) → (b || false) ≡ b
      or_none true = refl
      or_none false = refl

module _ {D : Type 0} (ops : Doubles D) where
  start-out :
      (m : MappingOutstation D)
      → (length (start ops m).analog.out ≡ lookup_or 0 "Analog Input" m.db_size)
        × (length (start ops m).binary.out ≡ lookup_or 0 "Binary Input" m.db_size)
        × (length (start ops m).counter.out ≡ lookup_or 0 "Counter" m.db_size)
  unfolding start configure_input_multiplexing_arrays
  start-out m = (
    ap length (clear_flags-kept m.data_sources _).1 ∙ length-resize _ _ _,
    ap length (clear_flags-kept m.data_sources _).1 ∙ length-resize _ _ _,
    ap length (clear_flags-kept m.data_sources _).1 ∙ length-resize _ _ _,
  )

module _ {D F : Type 0} (ops : Doubles D) where
  -- A station when `run` has set up its arrays, and ConfigureDatabase has noted the indexes.
  abbrev pub begun : MappingOutstation D → Database F → MappingOutstation D
  begun m db = record (start ops m) { dp_type_index_map = db.dp_type_index_map }

  pub begun-IsReady :
      (m : MappingOutstation D) (db : Database F) → IsReady (start ops m) → IsReady (begun m db)
  begun-IsReady m db r = record {
    keys = r.keys;
    fits =
        FitsSources-shape (start ops m) (begun m db) (start ops m).data_sources (SameShape-refl _)
          (SameShape-refl _) (SameShape-refl _) r.fits;
  }

  pub begun-HasRoom :
      (positive : F → Bool) (n : Node F) (m : MappingOutstation D) (db db' : Database F)
      → Covers n
      → All (λ dp. IsIndex dp.index) n.data_points
      → m.db_size ≡ n.db_size
      → db.dp_type_index_map ≡ []
      → configure_database positive n.data_points db ≡ some db'
      → HasRoom (begun m db')
  unfolding input_type
  begun-HasRoom positive n m db db' c i sizes fresh run =
      let (a, b, k) = start-out ops m in
      (
        noted-AllIn positive n db db' "Analog Input" _ c i fresh run refl
            (a ∙ ap (lookup_or 0 "Analog Input") sizes),
        noted-AllIn positive n db db' "Binary Input" _ c i fresh run refl
            (b ∙ ap (lookup_or 0 "Binary Input") sizes),
        noted-AllIn positive n db db' "Counter" _ c i fresh run refl
            (k ∙ ap (lookup_or 0 "Counter") sizes),
      )
