-- ===== src/Config/DataSpecs/Preserved.antt =====
-- What the readers of a node's points, buffers and polls preserve: anything that a point, a joined
-- mapped point, and a change of buffers, polls or bound outstations preserve.
use ics_trafficgen.Base.{
  ℕ, String, List, [], ◌∷◌, ◌++◌, Map, Option, none, some, codes, ℤ, insert, lookup_or, Returns,
  Returns-then, Returns-always, Returns-imp, ◌≡◌, sym, subst, true, Bool-cases, inl, inr,
  if◌then◌else◌,
}
use ics_trafficgen.Points.{DataPoint}
use ics_trafficgen.Node.{Node, PollPoint}
use ics_trafficgen.Config.{PropTree}
use ics_trafficgen.Config.IndexList.{index_ranges, indexes_of}
use ics_trafficgen.Config.Readers.{
  read_polls, read_polling_specs, bind_all, read_bound_outstations, read_buffers,
  read_event_buffer_specs,
}
use ics_trafficgen.Config.DataSpecs.{
  is_below_max, add_point, push_point, push_indexes, push_ranges, read_data_point, push_index,
  push_list, read_points, read_data_generation_specs, mapped_of, read_mapped_points, read_mapped,
  read_sources, read_mapped_data_generation_specs,
}
use ics_trafficgen.Config.DataSpecs.Sizes.{Within, grow-Within}

module _ (pt : PropTree) where
  -- The property outlives each change that a reader makes to a node. A mapped point joins its source
  -- when the database already has room for it.
  pub record IsKept (P : Node pt.Float → Type 0) : Type 0 where
    pub pushed :
        (dp : DataPoint pt.Float) (n : Node pt.Float)
        → is_below_max dp.index ≡ true
        → P n
        → P (add_point dp n)
    pub joined :
        (source : String) (dp : DataPoint pt.Float) (input : ℤ) (n : Node pt.Float)
        → Within n.db_size dp.point_type dp.index
        → P n
        → P (record n {
          data_sources =
              insert source
                (lookup_or [] source n.data_sources ++ mapped_of pt dp input ∷ [])
                n.data_sources;
        })
    pub buffered : (b : Map ℤ) (n : Node pt.Float) → P n → P (record n { evt_buffer_size = b })
    pub polled : (ps : List PollPoint) (n : Node pt.Float) → P n → P (record n { poll_points = ps })
    pub bound :
        (bs : List String) (n : Node pt.Float) → P n → P (record n { bound_outstations = bs })

module _ (pt : PropTree) (P : Node pt.Float → Type 0) (kept : IsKept pt P) where
  open pt use {Tree, Float, children, get_int, get_string}

  -- What a reader of the node returns, if it returns, has the property.
  abbrev pub Keeps : Option (Node Float) → Type 0
  Keeps o = Returns P o

  -- A pushed point is there, and its type has room for it.
  abbrev HasPushed : DataPoint Float → Node Float → Type 0
  HasPushed dp n = Within n.db_size dp.point_type dp.index × P n

  push_point-HasPushed :
      (dp : DataPoint Float) (n : Node Float) → P n → Returns (HasPushed dp) (push_point dp n)
  unfolding push_point add_point
  push_point-HasPushed dp n s = elim (Bool-cases (is_below_max dp.index)) [
    | inl below ↦
        subst (λ b. Returns (HasPushed dp) (if b then some (add_point dp n) else none)) (sym below)
          (grow-Within dp.point_type dp.index n.db_size below, kept.pushed dp n below s)
    | inr largest ↦
        subst (λ b. Returns (HasPushed dp) (if b then some (add_point dp n) else none))
          (sym largest) tt
  ]

  push_point-Keeps : (dp : DataPoint Float) (n : Node Float) → P n → Keeps (push_point dp n)
  push_point-Keeps dp n s =
      Returns-imp (HasPushed dp) P (push_point dp n) (λ n' h. h.1) (push_point-HasPushed dp n s)

  push_indexes-Keeps :
      (dp : DataPoint Float) (is : List ℕ) (n : Node Float) → P n → Keeps (push_indexes dp is n)
  unfolding push_indexes
  push_indexes-Keeps dp [] n s = s
  push_indexes-Keeps dp (i ∷ is) n s =
      Returns-then P P (push_point _ n) _ (push_point-Keeps _ n s)
        (λ n' s'. push_indexes-Keeps dp is n' s')

  push_ranges-Keeps :
      (dp : DataPoint Float) (rs : List (ℕ × ℕ)) (n : Node Float)
      → P n
      → Keeps (push_ranges dp rs n)
  unfolding push_ranges
  push_ranges-Keeps dp [] n s = s
  push_ranges-Keeps dp (r ∷ rs) n s =
      Returns-then P P (push_indexes dp (indexes_of r) n) _
        (push_indexes-Keeps dp (indexes_of r) n s) (λ n' s'. push_ranges-Keeps dp rs n' s')

  Keeps-given :
      {A : Type 0} (o : Option A) (n : Node Float) (f : A → Option (Node Float))
      → P n
      → ((a : A) → Keeps (f a))
      → Keeps (elim o [ none ↦ some n | some a ↦ f a ])
  Keeps-given none n f s h = s
  Keeps-given (some a) n f s h = h a

  push_index-Keeps :
      (i : Option ℤ) (dp : DataPoint Float) (n : Node Float) → P n → Keeps (push_index pt i dp n)
  push_index-Keeps none dp n s = s
  push_index-Keeps (some i) dp n s = push_point-Keeps _ n s

  push_list-Keeps :
      (l : Option String) (dp : DataPoint Float) (n : Node Float)
      → P n
      → Keeps (push_list pt l dp n)
  push_list-Keeps none dp n s = s
  push_list-Keeps (some l) dp n s =
      Returns-always P (index_ranges (codes l)) _ (λ rs. push_ranges-Keeps dp rs n s)

  read_points-Keeps : (ts : List Tree) (n : Node Float) → P n → Keeps (read_points pt ts n)
  unfolding read_points
  read_points-Keeps [] n s = s
  read_points-Keeps (t ∷ ts) n s = Returns-always P (read_data_point pt t _) _ (λ dp.
      Returns-then P P (push_index pt (get_int t "Index") dp n) _
        (push_index-Keeps (get_int t "Index") dp n s)
        (λ n₁ s₁.
          Returns-then P P (push_list pt (get_string t "Index List") _ n₁) _
            (push_list-Keeps (get_string t "Index List") _ n₁ s₁)
            (λ n₂ s₂. read_points-Keeps ts n₂ s₂)))

  pub read_data_generation_specs-Keeps :
      (t : Tree) (n : Node Float) → P n → Keeps (read_data_generation_specs pt t n)
  unfolding read_data_generation_specs
  read_data_generation_specs-Keeps t n s = Keeps-given (children t "Data") n _ s (λ ts.
      Returns-then P P (read_points pt ts n) _ (read_points-Keeps ts n s)
        (λ n' s'. kept.buffered _ n' s'))

  read_mapped_points-Keeps :
      (source : String) (ts : List Tree) (n : Node Float)
      → P n
      → Keeps (read_mapped_points pt source ts n)
  unfolding read_mapped_points
  read_mapped_points-Keeps source [] n s = s
  read_mapped_points-Keeps source (t ∷ ts) n s = Returns-always P (read_data_point pt t _) _ (λ dp₀.
      Returns-always P (get_int t "Index") _ (λ index.
        let dp = record dp₀ { index = index } in
        Returns-then (HasPushed dp) P (push_point dp n) _ (push_point-HasPushed dp n s) (λ n₁ h.
          Returns-always P (get_int t "InputIndex") _ (λ input.
            read_mapped_points-Keeps source ts _ (kept.joined source dp input n₁ h.0 h.1)))))

  read_sources-Keeps : (ts : List Tree) (n : Node Float) → P n → Keeps (read_sources pt ts n)
  unfolding read_sources
  read_sources-Keeps [] n s = s
  read_sources-Keeps (t ∷ ts) n s = Returns-always P (get_string t "Source") _ (λ source.
      Returns-then P P (read_mapped pt source t n) _
        (Keeps-given (children t "Mapped Data") n _ s (λ ms.
          Returns-then P P (read_mapped_points pt source ms n) _
            (read_mapped_points-Keeps source ms n s) (λ n' s'. kept.buffered _ n' s')))
        (λ n' s'. read_sources-Keeps ts n' s'))

  pub read_mapped_data_generation_specs-Keeps :
      (t : Tree) (n : Node Float) → P n → Keeps (read_mapped_data_generation_specs pt t n)
  unfolding read_mapped_data_generation_specs
  read_mapped_data_generation_specs-Keeps t n s =
      Keeps-given (children t "Data Sources") n _ s (λ ts. read_sources-Keeps ts n s)

  read_buffers-Keeps : (ts : List Tree) (n : Node Float) → P n → Keeps (read_buffers pt ts n)
  unfolding read_buffers
  read_buffers-Keeps [] n s = s
  read_buffers-Keeps (t ∷ ts) n s = Returns-always P (get_string t "Type") _ (λ type.
      Returns-always P (get_int t "Size") _ (λ size. read_buffers-Keeps ts _ (kept.buffered _ n s)))

  pub read_event_buffer_specs-Keeps :
      (t : Tree) (n : Node Float) → P n → Keeps (read_event_buffer_specs pt t n)
  unfolding read_event_buffer_specs
  read_event_buffer_specs-Keeps t n s =
      Keeps-given (children t "Event Data") n _ s (λ ts. read_buffers-Keeps ts n s)

  read_polls-Keeps : (ts : List Tree) (n : Node Float) → P n → Keeps (read_polls pt ts n)
  unfolding read_polls
  read_polls-Keeps [] n s = s
  read_polls-Keeps (t ∷ ts) n s = Returns-always P (get_string t "Event Class") _ (λ class.
      Returns-always P (get_int t "Frequency") _ (λ f. read_polls-Keeps ts _ (kept.polled _ n s)))

  pub read_polling_specs-Keeps :
      (t : Tree) (n : Node Float) → P n → Keeps (read_polling_specs pt t n)
  unfolding read_polling_specs
  read_polling_specs-Keeps t n s =
      Keeps-given (children t "Poll Interval") n _ s (λ ts. read_polls-Keeps ts n s)

  bind_all-kept : (o : Option (List Tree)) (n : Node Float) → P n → P (bind_all pt o n)
  bind_all-kept none n s = s
  bind_all-kept (some ts) n s = kept.bound _ n s

  pub read_bound_outstations-kept :
      (t : Tree) (n : Node Float) → P n → P (read_bound_outstations pt t n)
  unfolding read_bound_outstations
  read_bound_outstations-kept t n s = bind_all-kept (children t "Bound Outstations") n s
