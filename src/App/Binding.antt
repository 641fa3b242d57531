-- ===== src/App/Binding.antt =====
-- Which outstations a master's measurements go to, after `main` has connected the stations.
use ics_trafficgen.Base.{
  subst, is_empty, map, filterb, ℕ, zero, suc, ◌+◌, ◌<◌, String, List, [], ◌∷◌, ◌++◌, some, Bool,
  true, false, get_elem?, countb, subst, str_eq, ◌==◌, if◌then◌else◌, ◌≡◌, refl, ap, ap₂, ◌∙◌, sym,
  arith, Bool-cases, inl, inr,
}
use ics_trafficgen.Points.{Doubles}
use ics_trafficgen.Mapping.{MappingOutstation}
use ics_trafficgen.Soe.{MappingSoeHandler, Collection, process, process_at}
use ics_trafficgen.Soe.Destinations.{repeated, process_lem}
use ics_trafficgen.Node.{Node}
use ics_trafficgen.App.Launching.{is_bound_master, is_mapping, launch_all_lem}
use ics_trafficgen.App.{
  MasterStation, initialize, mapping_station, launch_all, no_stations, places_named, destinations,
  update_destinations, connect_master, connect_all,
}

pub countb-append :
    {A : Type 0} (p : A → Bool) (xs ys : List A) → countb p (xs ++ ys) ≡ countb p xs + countb p ys
countb-append p [] ys = omega arith
countb-append p (x ∷ xs) ys = ground (arith, countb-append p xs ys)

module _ {D : Type 0} where
  -- No place before the first is named.
  places_named-before :
      (name : String) (i r : ℕ) (os : List (MappingOutstation D))
      → r < i
      → countb (λ q. q == r) (places_named name i os) ≡ 0
  unfolding places_named
  places_named-before name i r [] h = refl
  places_named-before name i r (o ∷ os) h = ground (arith, places_named-before name (i + 1) r os)

  places_named-count :
      (name : String) (i r : ℕ) (os : List (MappingOutstation D)) (o : MappingOutstation D)
      → get_elem? os r ≡ some o
      → countb (λ q. q == i + r) (places_named name i os)
        ≡ (if str_eq o.node_name name then 1 else 0)
  unfolding places_named
  places_named-count name i r [] o e = cc
  places_named-count name i zero (x ∷ os) o e =
      ground (arith, places_named-before name (i + 1) (i + 0) os)
  places_named-count name i (suc r) (x ∷ os) o e =
      let moved : i + 1 + r ≡ i + suc r = omega arith in
      let rest =
        ap (λ k. countb (λ q. q == k) (places_named name (i + 1) os)) (sym moved)
        ∙ places_named-count name (i + 1) r os o e in
      ground (arith, rest)

  -- Each outstation stands in the list of destinations as often as its name is bound.
  pub destinations-count :
      (names : List String) (os : List (MappingOutstation D)) (r : ℕ) (o : MappingOutstation D)
      → get_elem? os r ≡ some o
      → countb (λ q. q == r) (destinations names os)
        ≡ countb (λ name. str_eq o.node_name name) names
  unfolding destinations
  destinations-count [] os r o e = refl
  destinations-count (name ∷ names) os r o e =
      let zero_left : r ≡ 0 + r = omega arith in
      let first : countb (λ q. q == r) (places_named name 0 os)
          ≡ (if str_eq o.node_name name then 1 else 0) =
        ap (λ k. countb (λ q. q == k) (places_named name 0 os)) zero_left
        ∙ places_named-count name 0 r os o e in
      countb-append (λ q. q == r) (places_named name 0 os) (destinations names os)
      ∙ ap₂ (λ a b. a + b) first (destinations-count names os r o e)

get_elem?-map :
    {A B : Type 0} (f : A → B) (xs : List A) (i : ℕ) (a : A)
    → get_elem? xs i ≡ some a
    → get_elem? (map f xs) i ≡ some (f a)
get_elem?-map f [] i a e = cc
get_elem?-map f (x ∷ xs) zero a e = cc
get_elem?-map f (x ∷ xs) (suc i) a e = get_elem?-map f xs i a e

cons-holds :
    {A : Type 0} (p : A → Bool) (x : A) (ys : List A) (a : A)
    → ((j : ℕ) → get_elem? ys j ≡ some a → p a ≡ true)
    → p x ≡ true
    → (i : ℕ) → get_elem? (x ∷ ys) i ≡ some a
    → p a ≡ true
cons-holds p x ys a k h zero e = cc
cons-holds p x ys a k h (suc i) e = k i e

filterb-holds :
    {A : Type 0} (p : A → Bool) (xs : List A) (i : ℕ) (a : A)
    → get_elem? (filterb p xs) i ≡ some a
    → p a ≡ true
filterb-holds p [] i a e = cc
filterb-holds p (x ∷ xs) i a e =
    let at : Bool → Type 0 =
      λ b. get_elem? (if b then x ∷ filterb p xs else filterb p xs) i ≡ some a in
    elim (Bool-cases (p x)) [
      | inl kept ↦
          cons-holds p x (filterb p xs) a (λ j. filterb-holds p xs j a) kept i (subst at kept e)
      | inr dropped ↦ filterb-holds p xs i a (subst at dropped e)
    ]

module _ {F D : Type 0} where
  -- The callback of a master that is bound to outstations, once it is connected.
  connect_master_lem :
      (os : List (MappingOutstation D)) (n : Node F)
      → is_empty n.bound_outstations ≡ false
      → (connect_master os (initialize n)).custom_data_callback
        ≡ some
            (record { src_name = n.name; destination_list = destinations n.bound_outstations os })
  unfolding connect_master update_destinations initialize
  connect_master_lem os n bound = rw bound refl

  -- Let the nodes of a configuration be launched and connected. The handler of the `k`-th master that
  -- is bound to outstations then passes a batch of measurements on to the `r`-th mapping
  -- outstation once for each time that the master's node binds its name, under the name of the
  -- master, in whatever states the outstations are by then.
  pub connected_lem :
      (ops : Doubles D) (ns : List (Node F)) (k r : ℕ) (n o : Node F) (c : Collection D)
      (ms : List (MappingOutstation D))
      → get_elem? (filterb is_bound_master ns) k ≡ some n
      → get_elem? (filterb is_mapping ns) r ≡ some o
      → (m : MasterStation F) × (h : MappingSoeHandler) × (get_elem?
            (connect_all (launch_all {D = D} ns no_stations)).src_master_stations
            k
          ≡ some m)
        × (m.custom_data_callback ≡ some h)
        × (get_elem? (process ops h c ms) r
            ≡ repeated
                (process_at ops n.name c)
                (countb (λ name. str_eq o.name name) n.bound_outstations)
                (get_elem? ms r))
  unfolding connect_all mapping_station
  connected_lem ops ns k r n o c ms is_kth is_rth =
      let both = filterb-holds is_bound_master ns k n is_kth in
      let bound : is_empty n.bound_outstations ≡ false = ground arith in
      let l = launch_all_lem {D = D} ns in
      let os = (launch_all {D = D} ns no_stations).mapped_out_stations in
      let placed : get_elem? os r ≡ some (mapping_station o) =
        ap (λ xs. get_elem? xs r) l.mapped
        ∙ get_elem?-map mapping_station (filterb is_mapping ns) r o is_rth in
      let h : MappingSoeHandler = record {
        src_name = n.name;
        destination_list = destinations n.bound_outstations os;
      } in
      (
        connect_master os (initialize n),
        h,
        get_elem?-map (connect_master os) _ k (initialize n) (
            ap (λ xs. get_elem? xs k) l.masters
            ∙ get_elem?-map initialize (filterb is_bound_master ns) k n is_kth),
        connect_master_lem os n bound,
        process_lem ops h c ms r
            ∙ ap (λ j. repeated (process_at ops n.name c) j (get_elem? ms r))
                (destinations-count n.bound_outstations os r (mapping_station o) placed),
      )
