-- ===== src/Config/Addresses/Kept.antt =====
-- Assigning IP addresses changes of the parser the generator, the count of interfaces and the commands,
-- and nothing else; and it neither makes nor drops a node.
use ics_trafficgen.Base.{ℤ, ℕ, String, List, Option, none, some, ◌≡◌, refl, ◌∙◌}
use ics_trafficgen.Node.{Node}
use ics_trafficgen.Cidr.{Octets}
use ics_trafficgen.Config.{PropTree, Parser}
use ics_trafficgen.Config.Addresses.{
  Pair, read_assign_ip_addresses, assign_master_ip, assign_outstation_ip, generate_ip_address,
  generate_from, allocate_ip_address, choose_address, get_next_dnp3_address,
  read_assign_dnp3_addresses,
}

module _ {F A : Type 0} (part : Parser F → A)
    (kept : (p : Parser F) (g : Option Octets) (k : ℕ) (cs : List (List ℕ))
      → part (record p { cidr_generator = g; vnictrack = k; commands = cs }) ≡ part p) where
  generate_from-part :
      (g : Option Octets) (n : Node F) (p : Parser F) → part (generate_from g n p).0 ≡ part p
  unfolding generate_from allocate_ip_address
  generate_from-part none n p = refl
  generate_from-part (some g) n p = kept p _ _ _

module _ (pt : PropTree) {A : Type 0} (part : Parser pt.Float → A)
    (kept : (p : Parser pt.Float) (g : Option Octets) (k : ℕ) (cs : List (List ℕ))
      → part (record p { cidr_generator = g; vnictrack = k; commands = cs }) ≡ part p) where
  open pt use {Tree, Float, get_string}

  assign_master_ip-part :
      (ip : Option String) (p : Parser Float) (n : Option (Node Float))
      → part (assign_master_ip pt ip p n).0 ≡ part p
  unfolding assign_master_ip generate_ip_address
  assign_master_ip-part ip p none = refl
  assign_master_ip-part (some a) p (some n) = refl
  assign_master_ip-part none p (some n) = generate_from-part part kept p.cidr_generator n p

  assign_outstation_ip-part :
      (ip : Option String) (p : Parser Float) (pair : Pair pt)
      → part (assign_outstation_ip pt ip (p, pair)).0 ≡ part p
  unfolding assign_outstation_ip generate_ip_address
  assign_outstation_ip-part (some a) p pair = refl
  assign_outstation_ip-part none p (m, none) = refl
  assign_outstation_ip-part none p (m, some n) = generate_from-part part kept p.cidr_generator n p

  pub read_assign_ip_addresses-part :
      (t : Tree) (p : Parser Float) (pair : Pair pt)
      → part (read_assign_ip_addresses pt t (p, pair)).0 ≡ part p
  unfolding read_assign_ip_addresses
  read_assign_ip_addresses-part t p (m, o) =
      assign_outstation_ip-part (get_string t "IP Address.Outstation") _ _
      ∙ assign_master_ip-part (get_string t "IP Address.Master") p m

-- Assigning DNP3 addresses changes only the known addresses of the parser.
module _ (pt : PropTree) {A : Type 0} (part : Parser pt.Float → A)
    (kept : (p : Parser pt.Float) (known : List ℕ)
      → part (record p { local_dnp3_addrs = known }) ≡ part p) where
  open pt use {Tree, Float, get_int}

  choose_address-part : (a : Option ℤ) (p : Parser Float) → part (choose_address pt a p).0 ≡ part p
  unfolding choose_address get_next_dnp3_address
  choose_address-part (some a) p = refl
  choose_address-part none p = kept p _

  pub read_assign_dnp3_addresses-part :
      (t : Tree) (p : Parser Float) (pair : Pair pt)
      → part (read_assign_dnp3_addresses pt t (p, pair)).0 ≡ part p
  unfolding read_assign_dnp3_addresses
  read_assign_dnp3_addresses-part t p pair =
      choose_address-part (get_int t "DNP3 Address.Outstation") _
      ∙ choose_address-part (get_int t "DNP3 Address.Master") p
