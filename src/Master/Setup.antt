-- ===== src/Master/Setup.antt =====
-- MasterStation.cpp: what `run` does before its loop, up to the calls of opendnp3.
use ics_trafficgen.Base.{
  ℕ, String, List, [], ◌∷◌, ◌++◌, Option, none, some, Bool, not, ℤ, str_eq, if◌then◌else◌,
}
use ics_trafficgen.Node.{Node, PollPoint}
use ics_trafficgen.Station.{PointClass, class0, class1, class2, class3}

-- The arguments of `AddTCPClient` and what `run` sets of the stack; the time is in seconds.
pub record MasterStackConfig : Type 0 where
  pub remote_ip_address : List ℕ
  pub local_ip_address : List ℕ
  pub port : ℤ
  pub response_timeout : ℕ
  pub disable_unsol_on_startup : Bool
  pub local_addr : ℕ
  pub remote_addr : ℕ

-- A class scan is of all classes or of one.
pub data ScanClass : Type 0 where
  all_classes : ScanClass
  one_class : PointClass → ScanClass

-- The calls of the master before the loop; the time of a scan is in seconds.
pub data MasterCall : Type 0 where
  add_class_scan : ScanClass → ℤ → MasterCall
  enable : MasterCall
  disable_unsolicited : List (ℕ × ℕ) → MasterCall

-- `pointClassVarMap`, looked up by `count` and then by its key, with the keys of its initializer: those
-- that `operator[]` inserts for other event classes in ConfigureDatabase are left out.
unfoldable pub class_named : String → Option PointClass
class_named s =
    if str_eq s "0"
    then some class0
    else if str_eq s "1"
    then some class1
    else if str_eq s "2"
    then some class2
    else if str_eq s "3"
    then some class3
    else none

abbrev pub scan_of_class : Option PointClass → ℤ → List MasterCall
scan_of_class none f = []
scan_of_class (some k) f = add_class_scan (one_class k) f ∷ []

-- one round of the loop over `pollPoints`
unfoldable pub scan_calls : PollPoint → List MasterCall
scan_calls p =
    if str_eq p.event_class "0123"
    then add_class_scan all_classes p.frequency ∷ []
    else scan_of_class (class_named p.event_class) p.frequency

unfoldable pub add_scans : List PollPoint → List MasterCall
add_scans [] = []
add_scans (p ∷ ps) = scan_calls p ++ add_scans ps

module _ {F : Type 0} where
  unfoldable pub master_config : Node F → MasterStackConfig
  master_config n = record {
    remote_ip_address = n.remote_ip_address;
    local_ip_address = n.local_ip_address;
    port = n.port;
    response_timeout = 2;
    disable_unsol_on_startup = not n.allow_unsolicited;
    local_addr = n.local_dnp3_addr;
    remote_addr = n.remote_dnp3_addr;
  }

  -- the calls of `run` on the master, in their order
  unfoldable pub set_up : Node F → List MasterCall
  set_up n =
      add_scans n.poll_points
      ++ (enable
          ∷ (if n.allow_unsolicited
              then []
              else disable_unsolicited ((60, 2) ∷ (60, 3) ∷ (60, 4) ∷ []) ∷ []))
