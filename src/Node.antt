-- ===== src/Node.antt =====
-- Node.h, Node.cpp and DataPoint.cpp: what is configured of one station. `F` is the type of `float`.
-- Addresses and commands are texts, as lists of the codes of their characters.
use ics_trafficgen.Base.{
  ℕ, String, List, [], ◌∷◌, ◌++◌, Map, Bool, false, ℤ, pos, codes, str_eq, if◌then◌else◌, insert,
  Option, none, some, is_empty, ◌*◌,
}
use ics_trafficgen.Points.{DataPoint, MappedDataPoint}

pub record PollPoint : Type 0 where
  pub frequency : ℤ
  pub event_class : String

-- `Node`; the two DNP3 addresses are `uint16_t`.
pub record Node (F : Type 0) : Type 0 where
  pub name : String
  pub role : String
  pub ms_to_sleep : ℤ
  pub lua_file_names : List (List ℕ)
  pub lua_key_switch : String
  pub port : ℤ
  pub vnic : List ℕ
  pub local_ip_address : List ℕ
  pub remote_ip_address : List ℕ
  pub remote_dnp3_addr : ℕ
  pub local_dnp3_addr : ℕ
  pub data_points : List (DataPoint F)
  pub data_sources : Map (List MappedDataPoint)
  pub db_size : Map ℕ
  pub evt_buffer_size : Map ℤ
  pub allow_unsolicited : Bool
  pub poll_points : List PollPoint
  pub bound_outstations : List String

-- what the constructor writes to `dbSize`
abbrev pub initial_sizes : Map ℕ
initial_sizes = insert "Time Interval" 0 (
    insert "Analog Output" 0 (
      insert "Binary Output" 0 (
        insert "Frozen Counter" 0 (
          insert "Counter" 0 (
            insert "Analog Input" 0
              (insert "Double Binary Input" 0 (insert "Binary Input" 0 [])))))))

-- what the constructor writes to `evtBufferSize`
abbrev pub initial_buffers : Map ℤ
initial_buffers = insert "Analog Output" (pos 0) (
    insert "Binary Output" (pos 0) (
      insert "Frozen Counter" (pos 0) (
        insert "Counter" (pos 0) (
          insert "Analog Input" (pos 0)
            (insert "Double Binary Input" (pos 0) (insert "Binary Input" (pos 0) []))))))

module _ {F : Type 0} where
  -- `Node(name, role)`. The DNP3 addresses have no value yet: they are 0 here until they are assigned.
  unfoldable pub new_node : String → String → Node F
  new_node name role = record {
    name = name;
    role = role;
    ms_to_sleep = if str_eq role "Master" then pos (1000 * 1000) else pos 1000;
    lua_file_names = (codes name ++ codes ".lua") ∷ [];
    lua_key_switch = "";
    port = pos 20000;
    vnic = [];
    local_ip_address = [];
    remote_ip_address = [];
    remote_dnp3_addr = 0;
    local_dnp3_addr = 0;
    data_points = [];
    data_sources = [];
    db_size = initial_sizes;
    evt_buffer_size = initial_buffers;
    allow_unsolicited = false;
    poll_points = [];
    bound_outstations = [];
  }

  -- the command that `Allocate()` passes to `system`
  unfoldable pub allocate_command : Node F → List ℕ
  allocate_command n = codes "ifconfig " ++ (n.vnic ++ (codes " " ++ n.local_ip_address))

  -- the command that `Allocate(nic)` passes to `system`
  unfoldable pub allocate_on_command : List ℕ → Node F → List ℕ
  allocate_on_command nic n =
      codes "ip addr add "
      ++ (n.local_ip_address
          ++ (codes " dev " ++ (nic ++ (codes " " ++ (codes " label " ++ n.vnic)))))

  -- the command that `~Node` passes to `system`, if the node has an interface
  unfoldable pub destroy_command : Node F → Option (List ℕ)
  destroy_command n =
      if is_empty n.vnic then none else some (codes "ifconfig " ++ (n.vnic ++ codes " down"))

  -- `DataPoint()`
  unfoldable pub new_data_point : F → DataPoint F
  new_data_point zero_float = record {
    index = pos 0;
    s_variation = pos 1;
    e_variation = pos 1;
    event_class = pos 2;
    point_type = "";
    deadband = zero_float;
  }
