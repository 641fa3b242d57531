-- ===== src/Config.antt =====
-- CfgJsonParser.h and CfgJsonParser.cpp. boost's property tree is not part of the repository: it is
-- a parameter, `PropTree`. A result `none` is an exception that leaves the parser.
pub mod Addresses
pub mod Readers
pub mod IndexList
pub mod DataSpecs
pub mod Parse
use ics_trafficgen.Base.{ℕ, String, List, Option, Bool, ℤ}
use ics_trafficgen.Node.{Node}
use ics_trafficgen.Cidr.{Octets}

-- What the parser calls of boost::property_tree, at a path.
pub record PropTree : Type 1 where
  pub Tree : Type 0
  pub Float : Type 0
  pub zero_float : Float
  pub children : Tree → String → Option (List Tree)
  pub get_int : Tree → String → Option ℤ
  pub get_bool : Tree → String → Option Bool
  pub get_string : Tree → String → Option String
  pub get_float : Tree → String → Option Float
  pub own_string : Tree → String
  pub micros_of : Float → ℤ

-- The members of `CfgJsonParser`, the counter `vnictrack`, and the shell commands so far.
pub record Parser (F : Type 0) : Type 0 where
  pub nodes : List (Node F)
  pub virtual_network_interface_card : String
  pub cidr_generator : Option Octets
  pub local_dnp3_addrs : List ℕ
  pub vnictrack : ℕ
  pub commands : List (List ℕ)
