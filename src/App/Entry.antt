-- ===== src/App/Entry.antt =====
-- dnp3app.cpp: `main`, from the options to the loop on the user's commands. What the system answers
-- is an argument: a shell, the options that `getopt` finds, the files and the lines of the pipe. The
-- threads run in System; here they are the list of what is run.
pub mod Triggers
pub mod Endings
use ics_trafficgen.Base.{
  ℕ, String, List, [], ◌∷◌, ◌++◌, Option, none, some, Bool, codes, ◌==◌, ◌>>=◌, if◌then◌else◌, not,
}
use ics_trafficgen.Config.{PropTree, Parser}
use ics_trafficgen.Config.Parse.{parse_config}
use ics_trafficgen.UserInput.{no_input}
use ics_trafficgen.App.{App, Outcome, no_stations, launch_all, connect_all, read_commands}

-- What `main` asks of the system.
pub record Environment (pt : PropTree) : Type 0 where
  -- `system(NULL)`
  pub has_shell : Bool
  -- what the calls of `getopt` return before -1, each with `optarg`
  pub options : List (ℕ × String)
  -- `stat` finds the file
  pub file_exists : String → Bool
  -- `system` returns 0 for the command
  pub succeeds : List ℕ → Bool
  -- `read_json`; `none` is its exception
  pub read_json : String → Option pt.Tree
  -- what `getline` reads from the pipe
  pub lines : List String

-- The variables of `main` when it waits for a line or returns.
pub record Run (F D : Type 0) : Type 0 where
  pub cfg_reader : Parser F
  pub app : App F D
  pub outcome : Outcome

-- How `main` ends before it starts a station, or the run.
pub data Ending (F D : Type 0) : Type 0 where
  exit_failure : Ending F D
  returned : Ending F D
  thrown : Ending F D
  ran : Run F D → Ending F D

-- `cfgFileName` and `pipeName`
abbrev pub Names : Type 0
Names = String × String

abbrev pub default_names : Names
default_names = ("Config.json", "dnp3pipe")

-- the `switch` on an option
unfoldable pub set_name : ℕ → String → Names → Option Names
set_name c arg (cfg, pipe) =
    if c == b'c' then some (arg, pipe) else if c == b'p' then some (cfg, arg) else none

-- the loop over the options; `none` is an unknown one
unfoldable pub read_options : List (ℕ × String) → Names → Option Names
read_options [] names = some names
read_options ((c, arg) ∷ os) names = set_name c arg names >>= λ names'. read_options os names'

-- the command that makes the pipe
abbrev pub subcmd : String → List ℕ
subcmd pipe = codes "mkfifo " ++ codes pipe

module _ (pt : PropTree) (D : Type 0) where
  open pt use {Float}

  -- from the constructor of the parser on; `none` is an exception of it
  abbrev pub run_nodes : Environment pt → Option (Parser Float) → Ending Float D
  run_nodes e none = thrown
  run_nodes e (some p) =
      let app = connect_all (launch_all p.nodes no_stations) in
      ran (record {
        cfg_reader = p;
        app = app;
        outcome = read_commands app.lua_triggers e.lines no_input;
      })

  -- the pipe, and what comes after it
  unfoldable pub create_pipe : Environment pt → Names → Ending Float D
  create_pipe e (cfg, pipe) =
      if e.file_exists pipe
      then returned
      else if e.succeeds (subcmd pipe)
      then run_nodes e (e.read_json cfg >>= parse_config pt)
      else returned

  -- after the options; `none` is an unknown one
  abbrev pub with_names : Environment pt → Option Names → Ending Float D
  with_names e none = exit_failure
  with_names e (some names) = create_pipe e names

  unfoldable pub main : Environment pt → Ending Float D
  main e = if e.has_shell then with_names e (read_options e.options default_names) else exit_failure
