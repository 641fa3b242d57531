-- ===== src/Config/Parse/Finishing.antt =====
-- The readers of what only a master or only an outstation has keep what an entry's node has.
use ics_trafficgen.Base.{Option, none, some, Returns, Returns-then}
use ics_trafficgen.Node.{Node}
use ics_trafficgen.Config.{PropTree}
use ics_trafficgen.Config.Readers.{read_polling_specs, read_event_buffer_specs}
use ics_trafficgen.Config.DataSpecs.{read_data_generation_specs, read_mapped_data_generation_specs}
use ics_trafficgen.Config.DataSpecs.Preserved.{
  IsKept, read_data_generation_specs-Keeps, read_mapped_data_generation_specs-Keeps,
  read_event_buffer_specs-Keeps, read_polling_specs-Keeps, read_bound_outstations-kept,
}
use ics_trafficgen.Config.Parse.{finish_master, finish_outstation}
use ics_trafficgen.Config.Parse.Settings.{Still}

module _ (pt : PropTree) (P : Node pt.Float → Type 0) (kept : IsKept pt P) where
  open pt use {Tree, Float}

  pub finish_master-Still :
      (t : Tree) (n : Option (Node Float))
      → Returns P n
      → Returns (Still pt P n) (finish_master pt t n)
  unfolding finish_master
  finish_master-Still t none k = tt
  finish_master-Still t (some n) k =
      Returns-then P (Still pt P (some n)) (read_polling_specs pt t n) _
        (read_polling_specs-Keeps pt P kept t n k)
        (λ n' c. read_bound_outstations-kept pt P kept t n' c)

  pub finish_outstation-Still :
      (t : Tree) (n : Option (Node Float))
      → Returns P n
      → Returns (Still pt P n) (finish_outstation pt t n)
  unfolding finish_outstation
  finish_outstation-Still t none k = tt
  finish_outstation-Still t (some n) k =
      Returns-then P (Still pt P (some n)) (read_data_generation_specs pt t n) _
        (read_data_generation_specs-Keeps pt P kept t n k)
        (λ n₁ c₁.
          Returns-then P (Still pt P (some n)) (read_mapped_data_generation_specs pt t n₁) _
            (read_mapped_data_generation_specs-Keeps pt P kept t n₁ c₁)
            (λ n₂ c₂.
              Returns-then P (Still pt P (some n)) (read_event_buffer_specs pt t n₂) _
                (read_event_buffer_specs-Keeps pt P kept t n₂ c₂) (λ n₃ c₃. c₃)))
