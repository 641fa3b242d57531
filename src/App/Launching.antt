-- ===== src/App/Launching.antt =====
-- The lists of stations that `main` makes of the nodes of a configuration.
use ics_trafficgen.Base.{
  ◌+◌, List, [], ◌∷◌, ◌++◌, Bool, true, false, not, ◌&&◌, ◌||◌, length, countb, str_eq, is_empty,
  map, filterb, append_assoc, append-nil, length-append, if◌then◌else◌, ◌≡◌, refl, ap, ◌∙◌, sym,
  subst, arith, eq_iff, Bool-cases, inl, inr,
}
use ics_trafficgen.Node.{Node}
use ics_trafficgen.App.{
  App, initialize, mapping_station, launch_master, launch_outstation, launch, launch_all,
  no_stations, add_trigger,
}

conditional :
    {A : Type 0} (b : Bool) (x : A) (xs : List A)
    → (if b then x ∷ [] else []) ++ xs ≡ (if b then x ∷ xs else xs)
conditional true x xs = refl
conditional false x xs = refl

map-if :
    {A B : Type 0} (f : A → B) (b : Bool) (x : A) (xs : List A)
    → map f (if b then x ∷ xs else xs) ≡ (if b then f x ∷ map f xs else map f xs)
map-if f true x xs = refl
map-if f false x xs = refl

module _ {F : Type 0} where
  abbrev pub is_bound_master : Node F → Bool
  is_bound_master n = str_eq n.role "Master" && not (is_empty n.bound_outstations)

  abbrev pub is_mapping : Node F → Bool
  is_mapping n = str_eq n.role "Outstation" && not (is_empty n.data_sources)

  abbrev pub is_station : Node F → Bool
  is_station n = str_eq n.role "Master" || str_eq n.role "Outstation"

  Master-ne : (n : Node F) → str_eq n.role "Master" ≡ true → str_eq n.role "Outstation" ≡ false
  Master-ne n m =
      subst (λ r. str_eq r "Outstation" ≡ false) (sym ((eq_iff n.role "Master").0 m)) refl

  -- One more node, ahead of the others.
  join :
      {A : Type 0} (f : Node F → A) (p : Node F → Bool) (n : Node F) (ns : List (Node F))
      (xs ys : List A)
      → ys ≡ xs ++ map f (filterb p (n ∷ []))
      → ys ++ map f (filterb p ns) ≡ xs ++ map f (filterb p (n ∷ ns))
  join f p n ns xs ys e =
      ap (λ zs. zs ++ map f (filterb p ns)) e
      ∙ append_assoc xs (map f (filterb p (n ∷ []))) (map f (filterb p ns))
      ∙ ap (λ zs. xs ++ zs)
          (ap (λ zs. zs ++ map f (filterb p ns)) (map-if f (p n) n [])
            ∙ conditional (p n) (f n) (map f (filterb p ns))
            ∙ sym (map-if f (p n) n (filterb p ns)))

module _ {F D : Type 0} where
  -- The parts of the program's variables after the loop over the nodes.
  pub record Launched (ns : List (Node F)) (a a' : App F D) : Type 0 where
    pub masters :
        a'.src_master_stations
        ≡ a.src_master_stations ++ map initialize (filterb is_bound_master ns)
    pub mapped :
        a'.mapped_out_stations
        ≡ a.mapped_out_stations ++ map mapping_station (filterb is_mapping ns)
    pub thread_count : length a'.threads ≡ length a.threads + countb is_station ns

  launch_role :
      (n : Node F) (a : App F D)
      → Launched (n ∷ []) a (
          if str_eq n.role "Master"
          then launch_master n a
          else if str_eq n.role "Outstation"
          then launch_outstation n a
          else a)
  unfolding launch_master launch_outstation
  launch_role n a = elim (Bool-cases (str_eq n.role "Master")) [
    | inl m ↦
        let o = Master-ne n m in
        elim (Bool-cases (is_empty n.bound_outstations)) [
          | inl b ↦ record {
            masters = rw (m, b, append-nil) refl;
            mapped = rw (m, b, o, append-nil) refl;
            thread_count = rw (m, b, length-append) refl;
          }
          | inr b ↦ record {
            masters = rw (m, b) refl;
            mapped = rw (m, b, o, append-nil) refl;
            thread_count = rw (m, b, length-append) refl;
          }
        ]
    | inr m ↦ elim (Bool-cases (str_eq n.role "Outstation")) [
      | inl o ↦ elim (Bool-cases (is_empty n.data_sources)) [
        | inl b ↦ record {
          masters = rw (m, o, b, append-nil) refl;
          mapped = rw (m, o, b, append-nil) refl;
          thread_count = rw (m, o, b, length-append) refl;
        }
        | inr b ↦ record {
          masters = rw (m, o, b, append-nil) refl;
          mapped = rw (m, o, b) refl;
          thread_count = rw (m, o, b, length-append) refl;
        }
      ]
      | inr o ↦ record {
        masters = rw (m, o, append-nil) refl;
        mapped = rw (m, o, append-nil) refl;
        thread_count = ground (arith, m, o);
      }
    ]
  ]

  launch_one : (n : Node F) (a : App F D) → Launched (n ∷ []) a (launch n a)
  unfolding launch
  launch_one n a = elim (Bool-cases (str_eq n.lua_key_switch "")) [
    | inl unset ↦ rw unset (launch_role n a)
    | inr keyed ↦
        let k = add_trigger n.lua_key_switch a.lua_triggers in
        let l = launch_role n (record a { lua_triggers = k }) in
        rw keyed (record { masters = l.masters; mapped = l.mapped; thread_count = l.thread_count })
  ]

  launch_all_from : (ns : List (Node F)) (a : App F D) → Launched ns a (launch_all ns a)
  unfolding launch_all
  launch_all_from [] a = record {
    masters = rw append-nil refl;
    mapped = rw append-nil refl;
    thread_count = omega arith;
  }
  launch_all_from (n ∷ ns) a =
      let l = launch_one n a in
      let r = launch_all_from ns (launch n a) in
      record {
        masters = r.masters ∙ join initialize is_bound_master n ns _ _ l.masters;
        mapped = r.mapped ∙ join mapping_station is_mapping n ns _ _ l.mapped;
        thread_count = ground (arith, r.thread_count, l.thread_count);
      }

  -- After the loop over the nodes, `srcMasterStations` are the masters with bound outstations and
  -- `mappedOutStations` the outstations with data sources, both in the order of the nodes, and there
  -- is one thread for each node whose role is "Master" or "Outstation".
  pub launch_all_lem :
      (ns : List (Node F)) → Launched ns no_stations (launch_all {D = D} ns no_stations)
  launch_all_lem ns = launch_all_from ns no_stations
