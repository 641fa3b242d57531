-- ===== src/Config/Parse/Identity/Whole.antt =====
-- The constructor on a whole file: the state in which it begins with the entries, and what every
-- entry keeps.
use ics_trafficgen.Base.{
  ℕ, String, List, [], ◌∷◌, Option, none, some, codes, ◌>>=◌, >>=-eq-some, ◌≡◌, refl, sym, ap, ◌∙◌,
  subst, Returns,
}
use ics_trafficgen.Cidr.{Octets, network_address}
use ics_trafficgen.Config.{PropTree, Parser}
use ics_trafficgen.Config.Addresses.{read_addresses, read_all_dnp3_addresses}
use ics_trafficgen.Config.Parse.{
  read_node, read_nodes, with_generator, with_interface, no_nodes, parse_config,
}
use ics_trafficgen.Config.Parse.Identity.{Entered, assigned, read_node-Entered}

-- The generator of addresses that a file with this CIDR text has.
abbrev pub generator_of : Option String → Option (Option Octets)
generator_of none = some none
generator_of (some cidr) = network_address (codes cidr) >>= λ a. some (some a)

abbrev pub text_or_empty : Option String → String
text_or_empty none = ""
text_or_empty (some s) = s

module _ (pt : PropTree) where
  open pt use {Tree, Float, children, get_string}

  -- The parser before the first entry.
  abbrev pub beginning : String → Option Octets → List ℕ → Parser Float
  beginning nic g known = record {
    nodes = [];
    virtual_network_interface_card = nic;
    cidr_generator = g;
    local_dnp3_addrs = known;
    vnictrack = 0;
    commands = [];
  }

  with_interface-beginning :
      (nic : Option String)
      → with_interface pt nic (no_nodes pt) ≡ beginning (text_or_empty nic) none []
  with_interface-beginning none = refl
  with_interface-beginning (some s) = refl

  with_generator-beginning :
      (cidr : Option String) (nic : String) (p : Parser Float)
      → with_generator pt cidr (beginning nic none []) ≡ some p
      → (g : Option Octets) × (generator_of cidr ≡ some g) × (p ≡ beginning nic g [])
  with_generator-beginning none nic p e = (none, refl, cc)
  with_generator-beginning (some cidr) nic p e =
      let (a, f, h) = >>=-eq-some (network_address (codes cidr)) _ e in (some a, rw f refl, cc)

  -- What a file that is read without an exception holds, and what is left to read after its head.
  pub record Begins (t : Tree) (p : Parser Float) : Type 0 where
    pub entries : List Tree
    pub generator : Option Octets
    pub listed : children t "Nodes" ≡ some entries
    pub generates : generator_of (get_string t "CIDR Notation") ≡ some generator
    pub run :
        read_nodes pt entries (
          beginning
            (text_or_empty (get_string t "Virtual Interface"))
            generator
            (read_addresses pt entries []))
        ≡ some p

  pub parse_config-Begins : (t : Tree) (p : Parser Float) → parse_config pt t ≡ some p → Begins t p
  unfolding parse_config read_all_dnp3_addresses
  parse_config-Begins t p h =
      let nic = text_or_empty (get_string t "Virtual Interface") in
      let entries : Parser Float → List Tree → Option (Parser Float) = λ q us. read_nodes pt us q in
      let on_nodes : Parser Float → Option (Parser Float) = λ q. children t "Nodes" >>= entries q in
      let on_addresses : Parser Float → Option (Parser Float) =
        λ q. read_all_dnp3_addresses pt t q >>= on_nodes in
      let (p₁, e₁, run₁) =
        >>=-eq-some
          (with_generator pt (get_string t "CIDR Notation")
            (with_interface pt (get_string t "Virtual Interface") (no_nodes pt)))
          on_addresses h in
      let (g, generates, begun) = with_generator-beginning (get_string t "CIDR Notation") nic p₁ (
        subst (λ q. with_generator pt (get_string t "CIDR Notation") q ≡ some p₁)
          (with_interface-beginning (get_string t "Virtual Interface")) e₁) in
      let (p₂, e₂, run₂) = >>=-eq-some (read_all_dnp3_addresses pt t p₁) on_nodes run₁ in
      let (ts, e₃, run₃) = >>=-eq-some (children t "Nodes") (entries p₂) run₂ in
      let with_known : Parser Float → List Tree → Parser Float =
        λ q us. record q { local_dnp3_addrs = read_addresses pt us q.local_dnp3_addrs } in
      let read = subst (λ o. (o >>= λ us. some (with_known p₁ us)) ≡ some p₂) e₃ e₂ in
      let same : with_known p₁ ts ≡ p₂ = cc in
      record {
        entries = ts;
        generator = g;
        listed = e₃;
        generates = generates;
        run =
            subst (λ q. read_nodes pt ts q ≡ some p) (sym same ∙ ap (λ q. with_known q ts) begun)
              run₃;
      }

  -- What each entry keeps, with the entries still to read, all of them keep.
  pub read_nodes-kept :
      (I : List Tree → Parser Float → Type 0)
      → ((t : Tree) (ts : List Tree) (p p' : Parser Float)
          → I (t ∷ ts) p
          → Entered pt (assigned pt t p) p'
          → I ts p')
      → (ts : List Tree) (p p' : Parser Float) → I ts p
      → read_nodes pt ts p ≡ some p'
      → I [] p'
  unfolding read_nodes
  read_nodes-kept I step [] p p' i run = let same : p ≡ p' = cc in subst (I []) same i
  read_nodes-kept I step (t ∷ ts) p p' i run =
      let (q, first, later) = >>=-eq-some (read_node pt t p) (read_nodes pt ts) run in
      let entered =
        subst (Returns (Entered pt (assigned pt t p))) first (read_node-Entered pt t p) in
      read_nodes-kept I step ts q p' (step t ts p q i entered) later
