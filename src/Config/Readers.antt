-- ===== src/Config/Readers.antt =====
-- CfgJsonParser.cpp: the readers of a node's single settings.
use ics_trafficgen.Base.{
  List, [], ◌∷◌, ◌++◌, Option, none, some, Bool, true, false, codes, ◌>>=◌, map, insert,
}
use ics_trafficgen.Node.{Node}
use ics_trafficgen.Config.{PropTree}
use ics_trafficgen.Config.Addresses.{Pair, on_node}

-- `if (x && node != nullptr) node->field = *x`
abbrev pub if_given : {A B : Type 0} → Option A → (A → B → B) → Option B → Option B
if_given none f n = n
if_given (some a) f none = none
if_given (some a) f (some n) = some (f a n)

module _ (pt : PropTree) where
  open pt use {
    Tree, Float, children, get_int, get_bool, get_string, get_float, own_string, micros_of,
  }

  abbrev pub allow_both : Option Bool → Pair pt → Pair pt
  allow_both (some true) (master, outstation) = (
    on_node pt (λ n. record n { allow_unsolicited = true }) master,
    on_node pt (λ n. record n { allow_unsolicited = true }) outstation,
  )
  allow_both (some false) pair = pair
  allow_both none pair = pair

  -- `readUnsolicited`
  unfoldable pub read_unsolicited : Tree → Pair pt → Pair pt
  read_unsolicited t pair = allow_both (get_bool t "Allow Unsolicited") pair

  -- `readIpPorts`
  unfoldable pub read_ip_ports : Tree → Pair pt → Pair pt
  read_ip_ports t (master, outstation) = (
    if_given (get_int t "IP Port.Master") (λ v n. record n { port = v }) master,
    if_given (get_int t "IP Port.Outstation") (λ v n. record n { port = v }) outstation,
  )

  -- `readSleepTimes`
  unfoldable pub read_sleep_times : Tree → Pair pt → Pair pt
  read_sleep_times t (master, outstation) = (
    if_given (get_float t "Sleep Duration.Master") (λ v n. record n { ms_to_sleep = micros_of v })
        master,
    if_given (get_float t "Sleep Duration.Outstation")
        (λ v n. record n { ms_to_sleep = micros_of v }) outstation,
  )

  -- `readLuaFileNames`
  unfoldable pub read_lua_file_names : Tree → Pair pt → Pair pt
  read_lua_file_names t (master, outstation) = (
    if_given (children t "Lua File.Master")
        (λ ts n. record n { lua_file_names = map (λ c. codes (own_string c)) ts }) master,
    if_given (children t "Lua File.Outstation")
        (λ ts n. record n { lua_file_names = map (λ c. codes (own_string c)) ts }) outstation,
  )

  -- `readLuaFileKeySwitch`
  unfoldable pub read_lua_file_key_switch : Tree → Pair pt → Pair pt
  read_lua_file_key_switch t (master, outstation) = (
    if_given (get_string t "Lua Switch Trigger.Master") (λ v n. record n { lua_key_switch = v })
        master,
    if_given (get_string t "Lua Switch Trigger.Outstation") (λ v n. record n { lua_key_switch = v })
        outstation,
  )

  -- the loop of `readPollingSpecs`; a poll with no class or no frequency throws
  unfoldable pub read_polls : List Tree → Node Float → Option (Node Float)
  read_polls [] n = some n
  read_polls (t ∷ ts) n = do
    c ← get_string t "Event Class"
    f ← get_int t "Frequency"
    read_polls ts (record n {
      poll_points = n.poll_points ++ (record { frequency = f; event_class = c }) ∷ [];
    })

  -- `readPollingSpecs`
  unfoldable pub read_polling_specs : Tree → Node Float → Option (Node Float)
  unfolding read_polls
  read_polling_specs t n = elim (children t "Poll Interval") [
    | none ↦ some n
    | some ts ↦ read_polls ts n
  ]

  abbrev pub bind_all : Option (List Tree) → Node Float → Node Float
  bind_all none n = n
  bind_all (some ts) n = record n { bound_outstations = n.bound_outstations ++ map own_string ts }

  -- `readBoundOutstations`
  unfoldable pub read_bound_outstations : Tree → Node Float → Node Float
  read_bound_outstations t n = bind_all (children t "Bound Outstations") n

  -- the loop of `readEventBufferSpecs`
  unfoldable pub read_buffers : List Tree → Node Float → Option (Node Float)
  read_buffers [] n = some n
  read_buffers (t ∷ ts) n = do
    type ← get_string t "Type"
    size ← get_int t "Size"
    read_buffers ts (record n { evt_buffer_size = insert type size n.evt_buffer_size })

  -- `readEventBufferSpecs`
  unfoldable pub read_event_buffer_specs : Tree → Node Float → Option (Node Float)
  unfolding read_buffers
  read_event_buffer_specs t n = elim (children t "Event Data") [
    | none ↦ some n
    | some ts ↦ read_buffers ts n
  ]
