-- ===== src/Config/Parse/Pairs.antt =====
-- The master and the outstation of one entry of a configuration: their stacks are set to each other.
pub mod Entry
pub mod File
use ics_trafficgen.Base.{
  String, [], ◌∷◌, ◌++◌, Option, none, some, Bool, true, false, not, ℤ, ◌>>=◌, ◌≡◌, refl, sym, ap,
  ◌∙◌, subst, Returns, Returns-then, append_assoc,
}
use ics_trafficgen.Node.{Node, new_node}
use ics_trafficgen.Cidr.{Octets}
use ics_trafficgen.OutStation.{stack_config}
use ics_trafficgen.Master.Setup.{master_config}
use ics_trafficgen.Config.{PropTree, Parser}
use ics_trafficgen.Config.Addresses.{
  Pair, read_assign_dnp3_addresses, read_assign_ip_addresses, assign_master_ip,
  assign_outstation_ip, generate_ip_address, generate_from, allocate_ip_address, choose_address,
  get_next_dnp3_address,
}
use ics_trafficgen.Config.Readers.{
  if_given, allow_both, read_unsolicited, read_ip_ports, read_sleep_times, read_lua_file_names,
  read_lua_file_key_switch, read_polling_specs, read_event_buffer_specs,
}
use ics_trafficgen.Config.DataSpecs.{read_data_generation_specs, read_mapped_data_generation_specs}
use ics_trafficgen.Config.DataSpecs.Link.{SameLink, title}
use ics_trafficgen.Config.Parse.{
  finish_master, finish_outstation, read_settings, read_node, push_node,
}

module _ {F : Type 0} where
  -- The stack of a master and that of an outstation are set to each other.
  pub record Matched (m o : Node F) : Type 0 where
    pub to_outstation : (master_config m).remote_addr ≡ (stack_config o).local_addr
    pub to_master : (master_config m).local_addr ≡ (stack_config o).remote_addr
    pub connected : (master_config m).remote_ip_address ≡ o.local_ip_address
    pub unsolicited :
        (master_config m).disable_unsol_on_startup ≡ not (stack_config o).allow_unsolicited

  -- A master and an outstation with these names.
  abbrev pub AreNamed : String × String → Node F → Node F → Type 0
  AreNamed names m o = (title m ≡ (names.0, "Master")) × (title o ≡ (names.1, "Outstation"))

  abbrev pub Agree : String × String → Node F → Node F → Type 0
  Agree names m o =
      (m.remote_dnp3_addr ≡ o.local_dnp3_addr)
      × (m.local_dnp3_addr ≡ o.remote_dnp3_addr)
      × (m.remote_ip_address ≡ o.local_ip_address)
      × (m.allow_unsolicited ≡ o.allow_unsolicited)
      × AreNamed names m o

  pub Agree-Matched : (names : String × String) (m o : Node F) → Agree names m o → Matched m o
  unfolding master_config stack_config
  Agree-Matched names m o (d, e, i, a, n) = record {
    to_outstation = d;
    to_master = e;
    connected = i;
    unsolicited = ap not a;
  }

  pub SameLink-refl : (n : Node F) → SameLink n n
  SameLink-refl n = (refl, refl, refl, refl, refl, refl)

  pub Agree-SameLink :
      (names : String × String) (m o m' o' : Node F)
      → SameLink m m'
      → SameLink o o'
      → Agree names m o
      → Agree names m' o'
  Agree-SameLink names m o m' o' (s, t, u, v, w, x) (s', t', u', v', w', x') (a, b, c, d, n) =
      (t ∙ a ∙ sym s', s ∙ b ∙ sym t', v ∙ c ∙ sym u', w ∙ d ∙ sym w', (x ∙ n.0, x' ∙ n.1))

  -- What no address is part of.
  abbrev pub plate : Node F → Bool × (String × String)
  plate n = (n.allow_unsolicited, title n)

  generate_from-plate :
      (g : Option Octets) (n : Node F) (p : Parser F)
      → (plate (generate_from g n p).1 ≡ plate n) × ((generate_from g n p).0.nodes ≡ p.nodes)
  unfolding generate_from allocate_ip_address
  generate_from-plate none n p = (refl, refl)
  generate_from-plate (some g) n p = (refl, refl)

module _ (pt : PropTree) (names : String × String) where
  open pt use {Tree, Float, children, get_int, get_bool, get_string, get_float}

  -- A pair of two nodes with `P`.
  abbrev pub Both : (Node Float → Node Float → Type 0) → Pair pt → Type 0
  Both P (some m, some o) = P m o
  Both P (some m, none) = ⊥
  Both P (none, o) = ⊥

  abbrev SameAllow : Node Float → Node Float → Type 0
  SameAllow m o = (m.allow_unsolicited ≡ o.allow_unsolicited) × AreNamed names m o

  replated :
      (m o m' o' : Node Float)
      → plate m' ≡ plate m
      → plate o' ≡ plate o
      → SameAllow m o
      → SameAllow m' o'
  replated m o m' o' s r (a, n) =
      (ap (λ x. x.0) s ∙ a ∙ ap (λ x. x.0) (sym r), (ap (λ x. x.1) s ∙ n.0, ap (λ x. x.1) r ∙ n.1))

  master_ip :
      (ip : Option String) (p : Parser Float) (m : Node Float)
      → (p' : Parser Float) × (m' : Node Float) × (assign_master_ip pt ip p (some m)
          ≡ (p', some m'))
        × (p'.nodes ≡ p.nodes)
        × (plate m' ≡ plate m)
  unfolding assign_master_ip generate_ip_address
  master_ip (some a) p m = (p, record m { local_ip_address = _ }, refl, refl, refl)
  master_ip none p m = let g = generate_from-plate p.cidr_generator m p in (_, _, refl, g.1, g.0)

  outstation_ip :
      (ip : Option String) (p : Parser Float) (m o : Node Float)
      → SameAllow m o
      → (p' : Parser Float) × (m' o' : Node Float) × (assign_outstation_ip pt ip
            (p, (some m, some o))
          ≡ (p', (some m', some o')))
        × (p'.nodes ≡ p.nodes)
        × SameAllow m' o'
  unfolding assign_outstation_ip generate_ip_address
  outstation_ip (some a) p m o s =
      (p, record m { remote_ip_address = _ }, record o { local_ip_address = _ }, refl, refl, s)
  outstation_ip none p m o s =
      let g = generate_from-plate p.cidr_generator o p in
      (_, m, _, refl, g.1, replated m o m (generate_from p.cidr_generator o p).1 refl g.0 s)

  -- The addresses and settings so far of a pair of two nodes.
  abbrev pub SameIp : Node Float → Node Float → Type 0
  SameIp m o = (m.remote_ip_address ≡ o.local_ip_address) × SameAllow m o

  -- A parser with the nodes of `p`, and a pair of two nodes with `P`.
  abbrev pub PairWith :
      (Node Float → Node Float → Type 0) → Parser Float → Parser Float × Pair pt → Type 0
  PairWith P p (p', pair) = (p'.nodes ≡ p.nodes) × Both P pair

  pub assign_ip :
      (t : Tree) (p : Parser Float) (m o : Node Float)
      → SameAllow m o
      → PairWith SameIp p (read_assign_ip_addresses pt t (p, (some m, some o)))
  unfolding read_assign_ip_addresses
  assign_ip t p m o s =
      let (p₁, m₁, e₁, n₁, a₁) = master_ip (get_string t "IP Address.Master") p m in
      let (p₂, m₂, o₂, e₂, n₂, a₂) =
        outstation_ip (get_string t "IP Address.Outstation") p₁ m₁ o
          (replated m o m₁ o a₁ refl s) in
      rw (e₁, e₂) (n₂ ∙ n₁, (refl, a₂))

  choose_address-nodes :
      (a : Option ℤ) (p : Parser Float) → (choose_address pt a p).0.nodes ≡ p.nodes
  unfolding choose_address get_next_dnp3_address
  choose_address-nodes (some a) p = refl
  choose_address-nodes none p = refl

  pub assign_dnp3 :
      (t : Tree) (p : Parser Float) (pair : Pair pt)
      → Both SameIp pair
      → PairWith (Agree names) p (read_assign_dnp3_addresses pt t (p, pair))
  unfolding read_assign_dnp3_addresses
  assign_dnp3 t p (some m, some o) s = (
    choose_address-nodes (get_int t "DNP3 Address.Outstation") _
        ∙ choose_address-nodes (get_int t "DNP3 Address.Master") p,
    (refl, refl, s.0, s.1.0, s.1.1),
  )
  assign_dnp3 t p (some m, none) s = absurd s
  assign_dnp3 t p (none, o) s = absurd s

  given-Both :
      {A B : Type 0} (a : Option A) (b : Option B) (f : A → Node Float → Node Float)
      (g : B → Node Float → Node Float) (m o : Node Float)
      → ((x : A) (n : Node Float) → SameLink n (f x n))
      → ((x : B) (n : Node Float) → SameLink n (g x n))
      → Agree names m o
      → Both (Agree names) (if_given a f (some m), if_given b g (some o))
  given-Both none none f g m o k l h = h
  given-Both (some x) none f g m o k l h =
      Agree-SameLink names m o (f x m) o (k x m) (SameLink-refl o) h
  given-Both none (some y) f g m o k l h =
      Agree-SameLink names m o m (g y o) (SameLink-refl m) (l y o) h
  given-Both (some x) (some y) f g m o k l h =
      Agree-SameLink names m o (f x m) (g y o) (k x m) (l y o) h

  allow_both-Both :
      (b : Option Bool) (pair : Pair pt)
      → Both (Agree names) pair
      → Both (Agree names) (allow_both pt b pair)
  allow_both-Both none pair h = h
  allow_both-Both (some false) pair h = h
  allow_both-Both (some true) (some m, some o) h = (h.0, h.1, h.2, refl, h.4)
  allow_both-Both (some true) (some m, none) h = absurd h
  allow_both-Both (some true) (none, o) h = absurd h

  -- A reader of one setting of each node keeps the pair.
  abbrev pub KeepsPairs : (Tree → Pair pt → Pair pt) → Type 0
  KeepsPairs reader =
      (t : Tree) (pair : Pair pt) → Both (Agree names) pair → Both (Agree names) (reader t pair)

  read_ip_ports-Both : KeepsPairs (read_ip_ports pt)
  unfolding read_ip_ports
  read_ip_ports-Both t (some m, some o) h =
      given-Both _ _ _ _ m o (λ x n. SameLink-refl n) (λ x n. SameLink-refl n) h
  read_ip_ports-Both t (some m, none) h = absurd h
  read_ip_ports-Both t (none, o) h = absurd h

  read_sleep_times-Both : KeepsPairs (read_sleep_times pt)
  unfolding read_sleep_times
  read_sleep_times-Both t (some m, some o) h =
      given-Both _ _ _ _ m o (λ x n. SameLink-refl n) (λ x n. SameLink-refl n) h
  read_sleep_times-Both t (some m, none) h = absurd h
  read_sleep_times-Both t (none, o) h = absurd h

  read_lua_file_names-Both : KeepsPairs (read_lua_file_names pt)
  unfolding read_lua_file_names
  read_lua_file_names-Both t (some m, some o) h =
      given-Both _ _ _ _ m o (λ x n. SameLink-refl n) (λ x n. SameLink-refl n) h
  read_lua_file_names-Both t (some m, none) h = absurd h
  read_lua_file_names-Both t (none, o) h = absurd h

  read_lua_file_key_switch-Both : KeepsPairs (read_lua_file_key_switch pt)
  unfolding read_lua_file_key_switch
  read_lua_file_key_switch-Both t (some m, some o) h =
      given-Both _ _ _ _ m o (λ x n. SameLink-refl n) (λ x n. SameLink-refl n) h
  read_lua_file_key_switch-Both t (some m, none) h = absurd h
  read_lua_file_key_switch-Both t (none, o) h = absurd h

  pub read_settings-Both : KeepsPairs (read_settings pt)
  unfolding read_settings read_unsolicited
  read_settings-Both t pair h = read_lua_file_key_switch-Both t _ (
      read_lua_file_names-Both t _ (
        read_sleep_times-Both t _
          (allow_both-Both (get_bool t "Allow Unsolicited") _ (read_ip_ports-Both t pair h))))
