-- ===== src/Config/DataSpecs/Sizes.antt =====
-- The sizes of an outstation's database cover all of its points.
use native.Mathlib.Nat.{le_trans}
use ics_trafficgen.Base.{
  ℕ, ◌≤◌, ◌<◌, String, List, [], ◌∷◌, Map, none, some, Bool, ℤ, pos, negsuc, if◌then◌else◌, insert,
  lookup_or, lookup, str_eq, sym, subst, All, All-of, All-append, arith, eq_iff, eq_refl, inl, inr,
  Bool-cases, IsSorted, ◌≡◌, true,
}
use ics_trafficgen.Points.{DataPoint, MappedDataPoint, grow, lookup_or-grow}
use ics_trafficgen.Node.{Node}
use ics_trafficgen.Config.DataSpecs.{is_below_max, add_point}

-- The index is below the size of its type, unless it is negative.
abbrev pub Within : Map ℕ → String → ℤ → Type 0
Within sizes t (pos i) = i < lookup_or 0 t sizes
Within sizes t (negsuc i) = Unit

abbrev pub SourcesWithin : Map ℕ → Map (List MappedDataPoint) → Type 0
SourcesWithin sizes [] = Unit
SourcesWithin sizes ((src, dps) ∷ rest) =
    All (λ dp. Within sizes dp.point_type dp.index) dps × SourcesWithin sizes rest

-- The points, and the mapped points of the sources, lie within the sizes; the sources ascend.
pub record AllWithin {F : Type 0} (sizes : Map ℕ) (points : List (DataPoint F))
    (sources : Map (List MappedDataPoint)) : Type 0 where
  pub points_within : All (λ dp. Within sizes dp.point_type dp.index) points
  pub sources_within : SourcesWithin sizes sources
  pub sources_sorted : IsSorted sources

-- All points of the node, mapped ones included, lie within its database; its sources ascend.
abbrev pub Covers : {F : Type 0} → Node F → Type 0
Covers n = AllWithin n.db_size n.data_points n.data_sources

-- One map of sizes is nowhere below another.
abbrev AtLeast : Map ℕ → Map ℕ → Type 0
AtLeast more sizes = (u : String) → lookup_or 0 u sizes ≤ lookup_or 0 u more

Within-mono :
    (sizes more : Map ℕ) (t : String) (z : ℤ)
    → AtLeast more sizes
    → Within sizes t z
    → Within more t z
Within-mono sizes more t (pos i) h w = le_trans w (h t)
Within-mono sizes more t (negsuc i) h w = tt

SourcesWithin-mono :
    (sizes more : Map ℕ) (srcs : Map (List MappedDataPoint))
    → AtLeast more sizes
    → SourcesWithin sizes srcs
    → SourcesWithin more srcs
SourcesWithin-mono sizes more [] h w = tt
SourcesWithin-mono sizes more ((src, dps) ∷ rest) h w = (
  All-of (λ dp. Within more dp.point_type dp.index)
      (λ dp x. Within-mono sizes more dp.point_type dp.index h x) dps w.0,
  SourcesWithin-mono sizes more rest h w.1,
)

grow-AtLeast : (t : String) (z : ℤ) (sizes : Map ℕ) → AtLeast (grow t z sizes) sizes
grow-AtLeast t (pos i) sizes u = ground (arith, lookup_or-grow t u i sizes, eq_iff t u)
grow-AtLeast t (negsuc i) sizes u = unfold grow in omega arith

pub grow-Within :
    (t : String) (z : ℤ) (sizes : Map ℕ) → is_below_max z ≡ true → Within (grow t z sizes) t z
grow-Within t (pos i) sizes h = rw (lookup_or-grow t t i sizes, eq_refl t) (ground arith)
grow-Within t (negsuc i) sizes h = tt

module _ {F : Type 0} where
  pub add_point-Covers :
      (dp : DataPoint F) (n : Node F)
      → is_below_max dp.index ≡ true
      → Covers n
      → Covers (add_point dp n)
  unfolding add_point
  add_point-Covers dp n b c =
      let more = grow dp.point_type dp.index n.db_size in
      let h = grow-AtLeast dp.point_type dp.index n.db_size in
      record {
        points_within =
            All-append (λ d. Within more d.point_type d.index) n.data_points (dp ∷ [])
              (All-of (λ d. Within more d.point_type d.index)
                (λ d x. Within-mono n.db_size more d.point_type d.index h x) n.data_points
                c.points_within)
              (grow-Within dp.point_type dp.index n.db_size b, tt);
        sources_within = SourcesWithin-mono n.db_size more n.data_sources h c.sources_within;
        sources_sorted = c.sources_sorted;
      }

-- A mapped point within the sizes may join its source.
pub insert-SourcesWithin :
    (sizes : Map ℕ) (src : String) (dps : List MappedDataPoint) (srcs : Map (List MappedDataPoint))
    → All (λ dp. Within sizes dp.point_type dp.index) dps
    → SourcesWithin sizes srcs
    → SourcesWithin sizes (insert src dps srcs)
insert-SourcesWithin sizes src dps [] a w = (a, tt)
insert-SourcesWithin sizes src dps ((k, xs) ∷ rest) a w =
    ground (arith, insert-SourcesWithin sizes src dps rest a w.1)

pub lookup-SourcesWithin :
    (sizes : Map ℕ) (src : String) (srcs : Map (List MappedDataPoint))
    → SourcesWithin sizes srcs
    → All (λ dp. Within sizes dp.point_type dp.index) (lookup_or [] src srcs)
lookup-SourcesWithin sizes src [] w = tt
lookup-SourcesWithin sizes src ((k, xs) ∷ rest) w =
    let P : List MappedDataPoint → Type 0 = All (λ dp. Within sizes dp.point_type dp.index) in
    let found : Bool → List MappedDataPoint =
      λ b. elim (if b then some xs else lookup src rest) [ none ↦ [] | some v ↦ v ] in
    elim (Bool-cases (str_eq k src)) [
      | inl same ↦ subst (λ b. P (found b)) (sym same) w.0
      | inr other ↦ subst (λ b. P (found b)) (sym other) (lookup-SourcesWithin sizes src rest w.1)
    ]
