-- ===== src/Config/Addresses/Aliases.antt =====
-- The network interfaces and IP addresses that the parser generates, one after the other.
pub mod Distinct
use ics_trafficgen.Base.{
  ℕ, zero, suc, ◌+◌, String, List, [], ◌∷◌, ◌++◌, map, Option, none, some, Bool, true, false, not,
  codes, is_empty, Bool-cases, inl, inr, filterb, ◌≡◌, refl, sym, ap, ap₂, ◌∙◌, subst, Returns,
  arith, append_assoc, append-nil,
}
use ics_trafficgen.Node.{Node, allocate_command, destroy_command}
use ics_trafficgen.Decimal.{print}
use ics_trafficgen.Cidr.{Octets, print_address, get_next_ip_address}
use ics_trafficgen.Cidr.Sequence.{after_calls}
use ics_trafficgen.Config.{PropTree, Parser}
use ics_trafficgen.Config.Addresses.{
  Pair, on_node, read_assign_ip_addresses, assign_master_ip, assign_outstation_ip, connect_ip,
  generate_ip_address, generate_from, allocate_ip_address, read_assign_dnp3_addresses,
}
use ics_trafficgen.Config.Addresses.Kept.{read_assign_dnp3_addresses-part}

-- An IP address and the interface that has it.
abbrev pub Net : Type 0
Net = List ℕ × List ℕ

abbrev pub has_vnic : Net → Bool
has_vnic i = not (is_empty i.1)

abbrev pub net : {F : Type 0} → Node F → Net
net n = (n.local_ip_address, n.vnic)

-- The command that brings an interface up, and the one that brings it down.
abbrev pub up : Net → List ℕ
up i = codes "ifconfig " ++ (i.1 ++ (codes " " ++ i.0))

abbrev pub down : Net → List ℕ
down i = codes "ifconfig " ++ (i.1 ++ codes " down")

module _ (nic : String) (s : Octets) where
  -- The interface with number `i`, and the address of the call after `i` calls.
  abbrev pub alias : ℕ → Net
  alias i = (print_address (after_calls (suc i) s), codes nic ++ b':' ∷ print i)

  -- The first `k` of them.
  abbrev pub aliases : ℕ → List Net
  aliases zero = []
  aliases (suc k) = aliases k ++ alias k ∷ []

  -- The parser has given out as many addresses as it has counted, and brought their interfaces up;
  -- among `ns` are these interfaces and no others.
  pub record HasAliases {F : Type 0} (p : Parser F) (ns : List Net) : Type 0 where
    pub card : p.virtual_network_interface_card ≡ nic
    pub generator : p.cidr_generator ≡ some (after_calls p.vnictrack s)
    pub interfaces : filterb has_vnic ns ≡ aliases p.vnictrack
    pub brought_up : p.commands ≡ map up (aliases p.vnictrack)

filterb-append :
    (f : Net → Bool) (xs ys : List Net) → filterb f (xs ++ ys) ≡ filterb f xs ++ filterb f ys
filterb-append f [] ys = refl
filterb-append f (x ∷ xs) ys = elim (Bool-cases (f x)) [
  | inl kept ↦ rw kept (ap (◌∷◌ x) (filterb-append f xs ys))
  | inr dropped ↦ rw dropped (filterb-append f xs ys)
]

is_empty-cons : (xs : List ℕ) (c : ℕ) (ys : List ℕ) → is_empty (xs ++ c ∷ ys) ≡ false
is_empty-cons [] c ys = refl
is_empty-cons (x ∷ xs) c ys = refl

pub map-snoc :
    {A B : Type 0} (f : A → B) (xs : List A) (x : A) → map f (xs ++ x ∷ []) ≡ map f xs ++ f x ∷ []
map-snoc f [] x = refl
map-snoc f (y ∷ xs) x = ap (◌∷◌ (f y)) (map-snoc f xs x)

module _ {F : Type 0} (nic : String) (s : Octets) where
  -- A node without an interface.
  pub plain :
      (p : Parser F) (ns : List Net) (ip : List ℕ)
      → HasAliases nic s p ns
      → HasAliases nic s p (ns ++ (ip, []) ∷ [])
  plain p ns ip h = record {
    card = h.card;
    generator = h.generator;
    interfaces = filterb-append has_vnic ns ((ip, []) ∷ []) ∙ append-nil _ ∙ h.interfaces;
    brought_up = h.brought_up;
  }

  generate_from-HasAliases :
      (n : Node F) (p : Parser F) (ns : List Net)
      → HasAliases nic s p ns
      → let (p', n') = generate_from (some (after_calls p.vnictrack s)) n p in
        HasAliases nic s p' (ns ++ net n' ∷ [])
  unfolding generate_from allocate_ip_address get_next_ip_address allocate_command after_calls
  generate_from-HasAliases n p ns h =
      let k = p.vnictrack in
      let c = p.virtual_network_interface_card in
      let more : k + 1 ≡ suc k = omega arith in
      let made : Net = (print_address (after_calls (suc k) s), codes c ++ b':' ∷ print k) in
      let same : made ≡ alias nic s k = rw h.card refl in
      let one : filterb has_vnic (made ∷ []) ≡ alias nic s k ∷ [] =
        rw (is_empty-cons (codes c) b':' (print k)) (ap (λ i. i ∷ []) same) in
      record {
        card = h.card;
        generator = rw more refl;
        interfaces =
            rw more (filterb-append has_vnic ns (made ∷ []) ∙ ap₂ (λ a b. a ++ b) h.interfaces one);
        brought_up = rw more (
            ap₂ (λ a i. a ++ up i ∷ []) h.brought_up same
            ∙ sym (map-snoc up (aliases nic s k) (alias nic s k)));
      }

  pub generate_ip_address-HasAliases :
      (n : Node F) (p : Parser F) (ns : List Net)
      → HasAliases nic s p ns
      → let (p', n') = generate_ip_address n p in HasAliases nic s p' (ns ++ net n' ∷ [])
  unfolding generate_ip_address
  generate_ip_address-HasAliases n p ns h =
      subst (λ g. let (p', n') = generate_from g n p in HasAliases nic s p' (ns ++ net n' ∷ []))
        (sym h.generator) (generate_from-HasAliases n p ns h)

abbrev pub nets : {F : Type 0} → Option (Node F) → List Net
nets none = []
nets (some n) = net n ∷ []

module _ (pt : PropTree) (nic : String) (s : Octets) where
  open pt use {Tree, Float, get_string}

  abbrev IsBare : Option (Node Float) → Type 0
  IsBare o = Returns (λ n. n.vnic ≡ []) o

  with_plain :
      (p : Parser Float) (ns : List Net) (ip vnic : List ℕ)
      → vnic ≡ []
      → HasAliases nic s p ns
      → HasAliases nic s p (ns ++ (ip, vnic) ∷ [])
  with_plain p ns ip vnic bare h =
      subst (λ v. HasAliases nic s p (ns ++ (ip, v) ∷ [])) (sym bare) (plain nic s p ns ip h)

  with_none :
      (p : Parser Float) (ns : List Net) → HasAliases nic s p ns → HasAliases nic s p (ns ++ [])
  with_none p ns h = subst (HasAliases nic s p) (sym (append-nil ns)) h

  pub assign_master_ip-HasAliases :
      (ip : Option String) (p : Parser Float) (m : Option (Node Float)) (ns : List Net)
      → IsBare m
      → HasAliases nic s p ns
      → let (p', m') = assign_master_ip pt ip p m in HasAliases nic s p' (ns ++ nets m')
  unfolding assign_master_ip
  assign_master_ip-HasAliases ip p none ns bare h = with_none p ns h
  assign_master_ip-HasAliases (some a) p (some n) ns bare h =
      with_plain p ns (codes a) n.vnic bare h
  assign_master_ip-HasAliases none p (some n) ns bare h =
      generate_ip_address-HasAliases nic s n p ns h

  abbrev WithPair : Parser Float → List Net → Pair pt → Type 0
  WithPair p ns pair = HasAliases nic s p ((ns ++ nets pair.0) ++ nets pair.1)

  assign_outstation_ip-HasAliases :
      (ip : Option String) (p : Parser Float) (m o : Option (Node Float)) (ns : List Net)
      → IsBare o
      → HasAliases nic s p (ns ++ nets m)
      → let (p', pair) = assign_outstation_ip pt ip (p, (m, o)) in WithPair p' ns pair
  unfolding assign_outstation_ip
  assign_outstation_ip-HasAliases (some a) p none none ns bare h = with_none p _ h
  assign_outstation_ip-HasAliases (some a) p (some m) none ns bare h = with_none p _ h
  assign_outstation_ip-HasAliases (some a) p none (some o) ns bare h =
      with_plain p _ (codes a) o.vnic bare h
  assign_outstation_ip-HasAliases (some a) p (some m) (some o) ns bare h =
      with_plain p _ (codes a) o.vnic bare h
  assign_outstation_ip-HasAliases none p m none ns bare h = with_none p _ h
  assign_outstation_ip-HasAliases none p m (some o) ns bare h =
      generate_ip_address-HasAliases nic s o p _ h

  connect_ip-nets :
      (p : Parser Float) (pair : Pair pt) (ns : List Net)
      → WithPair p ns pair
      → WithPair p ns (connect_ip pt pair)
  connect_ip-nets p (some m, some o) ns h = h
  connect_ip-nets p (some m, none) ns h = h
  connect_ip-nets p (none, o) ns h = h

  -- An entry's nodes have the next interfaces, as many as they have no address from the file.
  pub read_assign_ip_addresses-HasAliases :
      (t : Tree) (p : Parser Float) (m o : Option (Node Float)) (ns : List Net)
      → IsBare m
      → IsBare o
      → HasAliases nic s p ns
      → let (p', pair) = read_assign_ip_addresses pt t (p, (m, o)) in WithPair p' ns pair
  unfolding read_assign_ip_addresses
  read_assign_ip_addresses-HasAliases t p m o ns bare_m bare_o h = connect_ip-nets _ _ ns (
      assign_outstation_ip-HasAliases (get_string t "IP Address.Outstation") _ _ o ns bare_o
        (assign_master_ip-HasAliases (get_string t "IP Address.Master") p m ns bare_m h))

  pub nets-on_node :
      (f : Node Float → Node Float) (o : Option (Node Float))
      → ((n : Node Float) → net (f n) ≡ net n)
      → nets (on_node pt f o) ≡ nets o
  nets-on_node f none e = refl
  nets-on_node f (some n) e = ap (λ i. i ∷ []) (e n)

  pub same_parts :
      (p q : Parser Float) (ns ms : List Net)
      → q.virtual_network_interface_card ≡ p.virtual_network_interface_card
      → q.cidr_generator ≡ p.cidr_generator
      → q.vnictrack ≡ p.vnictrack
      → q.commands ≡ p.commands
      → ms ≡ ns
      → HasAliases nic s p ns
      → HasAliases nic s q ms
  same_parts p q ns ms card generator track commands nets h = record {
    card = card ∙ h.card;
    generator = generator ∙ h.generator ∙ ap (λ k. some (after_calls k s)) (sym track);
    interfaces = ap (filterb has_vnic) nets ∙ h.interfaces ∙ ap (aliases nic s) (sym track);
    brought_up = commands ∙ h.brought_up ∙ ap (λ k. map up (aliases nic s k)) (sym track);
  }

  -- Assigning DNP3 addresses leaves the interfaces as they are.
  pub read_assign_dnp3_addresses-HasAliases :
      (t : Tree) (p : Parser Float) (pair : Pair pt) (ns : List Net)
      → WithPair p ns pair
      → let (p', pair') = read_assign_dnp3_addresses pt t (p, pair) in WithPair p' ns pair'
  unfolding read_assign_dnp3_addresses
  read_assign_dnp3_addresses-HasAliases t p pair ns h =
      same_parts p (read_assign_dnp3_addresses pt t (p, pair)).0 _ _
        (read_assign_dnp3_addresses-part pt (λ q. q.virtual_network_interface_card) (λ q k. refl) t
          p pair)
        (read_assign_dnp3_addresses-part pt (λ q. q.cidr_generator) (λ q k. refl) t p pair)
        (read_assign_dnp3_addresses-part pt (λ q. q.vnictrack) (λ q k. refl) t p pair)
        (read_assign_dnp3_addresses-part pt (λ q. q.commands) (λ q k. refl) t p pair)
        (ap₂ (λ a b. (ns ++ a) ++ b) (nets-on_node _ pair.0 (λ n. refl))
          (nets-on_node _ pair.1 (λ n. refl)))
        h

  pub read_assign_dnp3_addresses-nets :
      (t : Tree) (p : Parser Float) (pair : Pair pt)
      → let r = read_assign_dnp3_addresses pt t (p, pair) in
        nets r.1.0 ++ nets r.1.1 ≡ nets pair.0 ++ nets pair.1
  unfolding read_assign_dnp3_addresses
  read_assign_dnp3_addresses-nets t p pair =
      ap₂ (λ a b. a ++ b) (nets-on_node _ pair.0 (λ n. refl)) (nets-on_node _ pair.1 (λ n. refl))
