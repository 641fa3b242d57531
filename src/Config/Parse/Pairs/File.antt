-- ===== src/Config/Parse/Pairs/File.antt =====
-- A whole file each entry of which names a master and an outstation.
use ics_trafficgen.Base.{
  String, List, [], ◌∷◌, ◌++◌, Option, none, some, codes, ◌>>=◌, >>=-eq-some, ◌≡◌, refl, sym,
  append-nil, append_assoc, ap, ◌∙◌, subst, All, Returns, Returns-always,
}
use ics_trafficgen.Node.{Node}
use ics_trafficgen.Cidr.{network_address}
use ics_trafficgen.Config.{PropTree, Parser}
use ics_trafficgen.Config.Addresses.{read_all_dnp3_addresses}
use ics_trafficgen.Config.Parse.{
  read_node, read_nodes, with_generator, with_interface, no_nodes, parse_config,
}
use ics_trafficgen.Config.Parse.Pairs.{Matched}
use ics_trafficgen.Config.Parse.Pairs.Entry.{read_node_lem}

module _ (pt : PropTree) where
  open pt use {Tree, Float, children, get_string}

  -- A master and an outstation with the names that the entry gives, and with their stacks set to each
  -- other.
  pub record IsPair (t : Tree) (m o : Node Float) : Type 0 where
    pub master_named : get_string t "Name.Master" ≡ some m.name
    pub outstation_named : get_string t "Name.Outstation" ≡ some o.name
    pub is_master : m.role ≡ "Master"
    pub is_outstation : o.role ≡ "Outstation"
    pub matched : Matched m o

  -- The nodes are the masters and outstations of the entries in turn.
  abbrev pub ArePairs : List Tree → List (Node Float) → Type 0
  ArePairs [] [] = Unit
  ArePairs [] (n ∷ ns) = ⊥
  ArePairs (t ∷ ts) [] = ⊥
  ArePairs (t ∷ ts) (m ∷ []) = ⊥
  ArePairs (t ∷ ts) (m ∷ o ∷ ns) = IsPair t m o × ArePairs ts ns

  ArePairs-append :
      (ts : List Tree) (ns : List (Node Float)) (t : Tree) (m o : Node Float)
      → ArePairs ts ns
      → IsPair t m o
      → ArePairs (ts ++ t ∷ []) (ns ++ m ∷ o ∷ [])
  ArePairs-append [] [] t m o a h = (h, tt)
  ArePairs-append [] (n ∷ ns) t m o a h = absurd a
  ArePairs-append (t' ∷ ts) [] t m o a h = absurd a
  ArePairs-append (t' ∷ ts) (n ∷ []) t m o a h = absurd a
  ArePairs-append (t' ∷ ts) (n ∷ n' ∷ ns) t m o a h = (a.0, ArePairs-append ts ns t m o a.1 h)

  -- The entry names a master and an outstation.
  abbrev pub NamesBoth : Tree → Type 0
  NamesBoth t =
      ((master : String) × (get_string t "Name.Master" ≡ some master))
      × ((outstation : String) × (get_string t "Name.Outstation" ≡ some outstation))

  read_nodes-ArePairs :
      (done ts : List Tree) (p p' : Parser Float)
      → All NamesBoth ts
      → ArePairs done p.nodes
      → read_nodes pt ts p ≡ some p'
      → ArePairs (done ++ ts) p'.nodes
  unfolding read_nodes
  read_nodes-ArePairs done [] p p' names pairs run =
      let same : p ≡ p' = cc in
      subst (λ us. ArePairs us p'.nodes) (sym (append-nil done))
        (subst (λ q. ArePairs done q.nodes) same pairs)
  read_nodes-ArePairs done (t ∷ ts) p p' (named, names) pairs run =
      let (q, first, later) = >>=-eq-some (read_node pt t p) (read_nodes pt ts) run in
      let (m, o, pushed, titles, matched) =
        read_node_lem pt t p q named.0.0 named.1.0 named.0.1 named.1.1 first in
      let pair : IsPair t m o = record {
        master_named = named.0.1 ∙ ap (λ x. some x.0) (sym titles.0);
        outstation_named = named.1.1 ∙ ap (λ x. some x.0) (sym titles.1);
        is_master = ap (λ x. x.1) titles.0;
        is_outstation = ap (λ x. x.1) titles.1;
        matched = matched;
      } in
      let so_far : ArePairs (done ++ t ∷ []) q.nodes =
        subst (ArePairs (done ++ t ∷ [])) (sym pushed)
          (ArePairs-append done p.nodes t m o pairs pair) in
      subst (λ us. ArePairs us p'.nodes) (append_assoc done (t ∷ []) ts)
        (read_nodes-ArePairs (done ++ t ∷ []) ts q p' names so_far later)

  abbrev HasNone : Parser Float → Type 0
  HasNone p = p.nodes ≡ []

  with_interface-HasNone :
      (nic : Option String) (p : Parser Float) → HasNone p → HasNone (with_interface pt nic p)
  with_interface-HasNone none p h = h
  with_interface-HasNone (some nic) p h = h

  with_generator-HasNone :
      (cidr : Option String) (p : Parser Float)
      → HasNone p
      → Returns HasNone (with_generator pt cidr p)
  with_generator-HasNone none p h = h
  with_generator-HasNone (some cidr) p h =
      Returns-always HasNone (network_address (codes cidr)) _ (λ a. h)

  read_all_dnp3_addresses-HasNone :
      (t : Tree) (p : Parser Float) → HasNone p → Returns HasNone (read_all_dnp3_addresses pt t p)
  unfolding read_all_dnp3_addresses
  read_all_dnp3_addresses-HasNone t p h = Returns-always HasNone (children t "Nodes") _ (λ ts. h)

  -- Let each entry of "Nodes" in a file name a master and an outstation. If the file is read without
  -- an exception, the nodes are masters and outstations in turn, a pair for each entry, in their order
  -- and with the names that it gives. In each
  -- pair, each stack has the other's DNP3 address as its remote one, the master connects to the
  -- outstation's IP address, and the master disables unsolicited responses at its start exactly if
  -- the outstation does not allow them, whatever addresses and settings the entry gives.
  pub parse_config-ArePairs :
      (t : Tree) (ts : List Tree) (p : Parser Float)
      → children t "Nodes" ≡ some ts
      → All NamesBoth ts
      → parse_config pt t ≡ some p
      → ArePairs ts p.nodes
  unfolding parse_config
  parse_config-ArePairs t ts p given names run =
      let begun : Option (Parser Float) =
        with_generator pt (get_string t "CIDR Notation")
          (with_interface pt (get_string t "Virtual Interface") (no_nodes pt)) in
      let entries : Parser Float → List Tree → Option (Parser Float) = λ q us. read_nodes pt us q in
      let on_nodes : Parser Float → Option (Parser Float) = λ q. children t "Nodes" >>= entries q in
      let on_addresses : Parser Float → Option (Parser Float) =
        λ q. read_all_dnp3_addresses pt t q >>= on_nodes in
      let (p₁, e₁, run₁) = >>=-eq-some begun on_addresses run in
      let (p₂, e₂, run₂) = >>=-eq-some (read_all_dnp3_addresses pt t p₁) on_nodes run₁ in
      let (ts', e₃, run₃) = >>=-eq-some (children t "Nodes") (entries p₂) run₂ in
      let same : ts' ≡ ts = cc in
      let none₁ : HasNone p₁ = subst (Returns HasNone) e₁ (
        with_generator-HasNone (get_string t "CIDR Notation") _
          (with_interface-HasNone (get_string t "Virtual Interface") (no_nodes pt) refl)) in
      let none₂ : HasNone p₂ =
        subst (Returns HasNone) e₂ (read_all_dnp3_addresses-HasNone t p₁ none₁) in
      read_nodes-ArePairs [] ts p₂ p names (subst (ArePairs []) (sym none₂) tt)
        (subst (λ us. read_nodes pt us p₂ ≡ some p) same run₃)
