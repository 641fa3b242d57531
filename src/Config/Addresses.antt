-- ===== src/Config/Addresses.antt =====
-- CfgJsonParser.cpp: the IP and DNP3 addresses of the nodes.
pub mod Fresh
pub mod Apart
pub mod Kept
pub mod Aliases
use ics_trafficgen.Base.{
  ℕ, ◌+◌, ◌%◌, String, List, [], ◌∷◌, ◌++◌, Option, none, some, codes, to_u16, ◌>>=◌, ℤ, pos, ltb,
  if◌then◌else◌,
}
use ics_trafficgen.Node.{Node, allocate_command}
use ics_trafficgen.Decimal.{print}
use ics_trafficgen.Cidr.{Octets, get_next_ip_address}
use ics_trafficgen.Config.{PropTree, Parser}

-- `*std::max_element`
abbrev pub max_element : ℕ → List ℕ → ℕ
max_element m [] = m
max_element m (x ∷ xs) = max_element (if ltb m x then x else m) xs

-- 90 in an empty list, and otherwise one more than the largest address
abbrev pub next_free : List ℕ → ℕ
next_free [] = 90
next_free (x ∷ xs) = max_element x xs + 1

module _ {F : Type 0} where
  -- `getNextDNP3Address`; the list is of `uint16_t`
  unfoldable pub get_next_dnp3_address : Parser F → Parser F × ℕ
  get_next_dnp3_address p =
      let a = next_free p.local_dnp3_addrs in
      (record p { local_dnp3_addrs = p.local_dnp3_addrs ++ (a % 65536) ∷ [] }, a)

  -- `allocateIpAddress`
  unfoldable pub allocate_ip_address : Node F → List ℕ → Parser F → Parser F × Node F
  unfolding allocate_command
  allocate_ip_address n ip p =
      let n' = record n {
        local_ip_address = ip;
        vnic = codes p.virtual_network_interface_card ++ b':' ∷ print p.vnictrack;
      } in
      (
        record p { vnictrack = p.vnictrack + 1; commands = p.commands ++ allocate_command n' ∷ [] },
        n',
      )

  unfoldable pub generate_from : Option Octets → Node F → Parser F → Parser F × Node F
  unfolding allocate_ip_address
  generate_from none n p = (p, n)
  generate_from (some g) n p =
      let (g', ip) = get_next_ip_address g in
      allocate_ip_address n ip (record p { cidr_generator = some g' })

  -- `allocateIpAddress(node, cidrGenerator->GetNextIpAddress())`, if there is a generator
  unfoldable pub generate_ip_address : Node F → Parser F → Parser F × Node F
  generate_ip_address n p = generate_from p.cidr_generator n p

module _ (pt : PropTree) where
  open pt use {Tree, Float, children, get_int, get_string}

  abbrev pub push_address : Option ℤ → List ℕ → List ℕ
  push_address none as_ = as_
  push_address (some a) as_ = as_ ++ to_u16 a ∷ []

  unfoldable pub read_addresses : List Tree → List ℕ → List ℕ
  read_addresses [] known = known
  read_addresses (t ∷ ts) known = read_addresses ts (
      push_address (get_int t "DNP3 Address.Outstation")
        (push_address (get_int t "DNP3 Address.Master") known))

  -- `readAllDnp3Addresses`
  unfoldable pub read_all_dnp3_addresses : Tree → Parser Float → Option (Parser Float)
  unfolding read_addresses
  read_all_dnp3_addresses t p = do
    nodes ← children t "Nodes"
    some (record p { local_dnp3_addrs = read_addresses nodes p.local_dnp3_addrs })

  -- the address in the file, or the next one; an `int`
  unfoldable pub choose_address : Option ℤ → Parser Float → Parser Float × ℤ
  choose_address (some a) p = (p, a)
  choose_address none p = let (p', a) = get_next_dnp3_address p in (p', pos a)

  -- A master or an outstation that the file names, or none: the pointers of the constructor.
  abbrev pub Pair : Type 0
  Pair = Option (Node Float) × Option (Node Float)

  abbrev pub on_node : (Node Float → Node Float) → Option (Node Float) → Option (Node Float)
  on_node f none = none
  on_node f (some n) = some (f n)

  -- `readAssignDNP3Addresses`
  unfoldable pub read_assign_dnp3_addresses : Tree → Parser Float × Pair → Parser Float × Pair
  unfolding choose_address
  read_assign_dnp3_addresses t (p, (master, outstation)) =
      let (p₁, m_addr) = choose_address (get_int t "DNP3 Address.Master") p in
      let (p₂, o_addr) = choose_address (get_int t "DNP3 Address.Outstation") p₁ in
      (
        p₂,
        (
          on_node
              (λ n. record n { local_dnp3_addr = to_u16 m_addr; remote_dnp3_addr = to_u16 o_addr })
              master,
          on_node
              (λ n. record n { local_dnp3_addr = to_u16 o_addr; remote_dnp3_addr = to_u16 m_addr })
              outstation,
        ),
      )

  -- the part of `readAssignIpAddresses` on the master
  unfoldable pub assign_master_ip :
      Option String → Parser Float → Option (Node Float) → Parser Float × Option (Node Float)
  assign_master_ip ip p none = (p, none)
  assign_master_ip (some a) p (some n) = (p, some (record n { local_ip_address = codes a }))
  assign_master_ip none p (some n) = let (p', n') = generate_ip_address n p in (p', some n')

  -- the part on the outstation's address
  unfoldable pub assign_outstation_ip : Option String → Parser Float × Pair → Parser Float × Pair
  assign_outstation_ip (some a) (p, (master, outstation)) = (
    p,
    (
      on_node (λ n. record n { remote_ip_address = codes a }) master,
      on_node (λ n. record n { local_ip_address = codes a }) outstation,
    ),
  )
  assign_outstation_ip none (p, (master, none)) = (p, (master, none))
  assign_outstation_ip none (p, (master, some n)) =
      let (p', n') = generate_ip_address n p in (p', (master, some n'))

  abbrev pub connect_ip : Pair → Pair
  connect_ip (some m, some o) = (some (record m { remote_ip_address = o.local_ip_address }), some o)
  connect_ip (some m, none) = (some m, none)
  connect_ip (none, o) = (none, o)

  -- `readAssignIpAddresses`
  unfoldable pub read_assign_ip_addresses : Tree → Parser Float × Pair → Parser Float × Pair
  unfolding assign_master_ip assign_outstation_ip
  read_assign_ip_addresses t (p, (master, outstation)) =
      let (p₁, master₁) = assign_master_ip (get_string t "IP Address.Master") p master in
      let (p₂, pair) =
        assign_outstation_ip (get_string t "IP Address.Outstation") (p₁, (master₁, outstation)) in
      (p₂, connect_ip pair)
