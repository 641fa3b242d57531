-- ===== src/System/Threads/FromFile.antt =====
-- From a configuration file to the run of the program with scripts and the user.
use ics_trafficgen.Base.{
  ℕ, ◌+◌, ◌≤◌, String, List, [], ◌∷◌, some, Bool, true, length, get_elem?, set, map, filterb, arith,
  All, ◌≡◌, sym, subst, Bool-cases, inl, inr, if◌then◌else◌,
}
use ics_trafficgen.Points.{Doubles}
use ics_trafficgen.Mapping.{MappingOutstation}
use ics_trafficgen.Mapping.Inject.{LuaScript}
use ics_trafficgen.Mapping.Loop.{Loop}
use ics_trafficgen.Mapping.Inject.Safe.{Answers}
use ics_trafficgen.Mapping.Loop.Soundness.{LoadsFine}
use ics_trafficgen.Config.{PropTree, Parser}
use ics_trafficgen.Config.Parse.{parse_config}
use ics_trafficgen.Config.Parse.Sized.{parse_config-Covers}
use ics_trafficgen.Config.DataSpecs.Sizes.{Covers}
use ics_trafficgen.Station.Database.Total.{IsIndex}
use ics_trafficgen.Station.Starting.{new_scripts, new_scripts-named, script_exists}
use ics_trafficgen.App.Launching.{is_mapping}
use ics_trafficgen.System.{is_running}
use ics_trafficgen.System.Configured.{ArePlaced}
use ics_trafficgen.System.Threads.{
  Thread, Program, new_thread, thread_of, next_round, Step, Reachable,
}
use ics_trafficgen.System.Threads.Sound.{IsUpToDate}
use ics_trafficgen.System.Threads.Runs.{Reachable-runs}

All-filterb :
    {A : Type 0} (P : A → Type 0) (p : A → Bool) (xs : List A) → All P xs → All P (filterb p xs)
All-filterb P p [] a = tt
All-filterb P p (x ∷ xs) a = elim (Bool-cases (p x)) [
  | inl kept ↦
      subst (λ b. All P (if b then x ∷ filterb p xs else filterb p xs)) (sym kept)
        (a.0, All-filterb P p xs a.1)
  | inr dropped ↦
      subst (λ b. All P (if b then x ∷ filterb p xs else filterb p xs)) (sym dropped)
        (All-filterb P p xs a.1)
]

new_thread-IsUpToDate :
    {D : Type 0} (lua : LuaScript D) (file_exists : String → Bool)
    (load_file : String → lua.State → lua.State) (initial : lua.State) (names : List String)
    (key : String)
    → let t = new_thread lua file_exists load_file initial (names, key) in
      IsUpToDate [] t.exists t.scripts
new_thread-IsUpToDate lua file_exists load_file initial names key =
    elim (Bool-cases (script_exists file_exists names)) [
      | inl there ↦
          subst (λ b. IsUpToDate [] b (new_scripts names key)) (sym there)
            (record {
              named = new_scripts-named file_exists names key there;
              seen = unfold new_scripts in omega arith;
            })
      | inr missing ↦ subst (λ b. IsUpToDate [] b (new_scripts names key)) (sym missing) tt
    ]

new_threads-IsUpToDate :
    {D : Type 0} (lua : LuaScript D) (file_exists : String → Bool)
    (load_file : String → lua.State → lua.State) (initial : lua.State)
    (settings : List (List String × String))
    → All
        (λ t. IsUpToDate [] t.exists t.scripts)
        (map (new_thread lua file_exists load_file initial) settings)
new_threads-IsUpToDate lua file_exists load_file initial [] = tt
new_threads-IsUpToDate lua file_exists load_file initial ((names, key) ∷ rest) = (
  new_thread-IsUpToDate lua file_exists load_file initial names key,
  new_threads-IsUpToDate lua file_exists load_file initial rest,
)

-- Let a configuration file be read, and the threads of its mapping outstations run, each with the
-- names of its scripts and its key. Let no index of a point be negative, and each mapped point
-- have an input index below the size that the output indexes of its source give to its type. Let each
-- script that exists bring Lua to a fine state, from which the functions of the script return and
-- leave a table, in a fine state again; and let no file that is loaded make a fine state less. Then in
-- every state that the program reaches, by whatever order of set-ups, callbacks, rounds and inputs of
-- the user, the next round of an outstation that has begun its loop returns, whatever values its
-- script leaves, if it has no script or at most ten inputs still to see.
pub configured-runs :
    {D : Type 0} (ops : Doubles D) (lua : LuaScript D) (load_file : String → lua.State → lua.State)
    (Fine : lua.State → Type 0) (pt : PropTree) (positive : pt.Float → Bool)
    (tree : PropTree.Tree pt) (p : Parser pt.Float) (file_exists : String → Bool)
    (initial : lua.State) (settings : List (List String × String)) (s : Program lua) (r : ℕ)
    (m : MappingOutstation D) (t : Thread lua)
    → Answers lua Fine
    → LoadsFine Fine load_file
    → All
        (λ t. t.exists ≡ true → Fine t.state)
        (map (new_thread lua file_exists load_file initial) settings)
    → parse_config pt tree ≡ some p
    → All (λ n. All (λ dp. IsIndex dp.index) n.data_points) p.nodes
    → All (λ n. ArePlaced n.data_sources) p.nodes
    → Reachable ops lua load_file positive
        (filterb is_mapping p.nodes)
        (map (new_thread lua file_exists load_file initial) settings)
        s
    → is_running r s.running ≡ true
    → get_elem? s.outstations r ≡ some m
    → get_elem? s.threads r ≡ some t
    → (t.exists ≡ true → length s.inputs ≤ t.scripts.local_lua_flag + 10)
    → (l : Loop lua) × (next_round ops lua load_file positive (filterb is_mapping p.nodes) s m t
        ≡ some l)
      × Step ops lua load_file positive (filterb is_mapping p.nodes) s (record s {
        outstations = set s.outstations r l.station;
        threads = set s.threads r (thread_of t.exists l);
      })
configured-runs ops lua load_file Fine pt positive tree p file_exists initial settings s r m t
      answers loads fine parsed indexes placed reached up found thread near =
    Reachable-runs ops lua load_file Fine answers loads positive (filterb is_mapping p.nodes)
      (All-filterb Covers is_mapping p.nodes (parse_config-Covers pt tree p parsed))
      (All-filterb _ is_mapping p.nodes indexes) (All-filterb _ is_mapping p.nodes placed) r m t
      (new_threads-IsUpToDate lua file_exists load_file initial settings) fine reached up found
      thread near
