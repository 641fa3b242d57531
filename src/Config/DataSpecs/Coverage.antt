-- ===== src/Config/DataSpecs/Coverage.antt =====
-- Reading the points of an outstation keeps them within its database.
use ics_trafficgen.Base.{String, [], ◌∷◌, ◌++◌, ℤ, insert, lookup_or, All-append, insert-IsSorted}
use ics_trafficgen.Points.{DataPoint}
use ics_trafficgen.Node.{Node}
use ics_trafficgen.Config.{PropTree}
use ics_trafficgen.Config.DataSpecs.{mapped_of}
use ics_trafficgen.Config.DataSpecs.Sizes.{
  Within, Covers, add_point-Covers, insert-SourcesWithin, lookup-SourcesWithin,
}
use ics_trafficgen.Config.DataSpecs.Preserved.{IsKept}

module _ (pt : PropTree) where
  open pt use {Float}

  join_source-Covers :
      (source : String) (dp : DataPoint Float) (input : ℤ) (n : Node Float)
      → Within n.db_size dp.point_type dp.index
      → Covers n
      → Covers (record n {
        data_sources =
            insert source
              (lookup_or [] source n.data_sources ++ mapped_of pt dp input ∷ [])
              n.data_sources;
      })
  join_source-Covers source dp input n w c = record {
    points_within = c.points_within;
    sources_within =
        insert-SourcesWithin n.db_size source _ n.data_sources
          (All-append (λ d. Within n.db_size d.point_type d.index)
            (lookup_or [] source n.data_sources) _
            (lookup-SourcesWithin n.db_size source n.data_sources c.sources_within) (w, tt))
          c.sources_within;
    sources_sorted = insert-IsSorted source _ n.data_sources c.sources_sorted;
  }

  pub Covers-IsKept : IsKept pt Covers
  Covers-IsKept = record {
    pushed = add_point-Covers;
    joined = join_source-Covers;
    buffered = λ b n c. c;
    polled = λ ps n c. c;
    bound = λ bs n c. c;
  }
