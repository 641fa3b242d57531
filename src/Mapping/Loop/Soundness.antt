-- ===== src/Mapping/Loop/Soundness.antt =====
-- A round of an outstation's loop succeeds, and leaves it ready for the next.
use ics_trafficgen.Base.{
  ◌+◌, ◌≤◌, ◌<◌, String, List, [], ◌∷◌, Bool, true, false, length, sym, subst, arith, Succeeds,
  Succeeds-then,
}
use ics_trafficgen.Points.{Doubles}
use ics_trafficgen.Mapping.Pass.{pass_thru_data_changes_lem}
use ics_trafficgen.Mapping.Ready.{IsReady, Swept-IsReady}
use ics_trafficgen.Mapping.Inject.{LuaScript, inject_data_changes}
use ics_trafficgen.Mapping.Inject.Safe.{Answers}
use ics_trafficgen.Mapping.Inject.Total.{HasRoom}
use ics_trafficgen.Mapping.Inject.Sources.{StaysReady, inject_data_changes-StaysReady}
use ics_trafficgen.UserInput.{load_files, Scripts, no_input, write_all, switch_scripts}
use ics_trafficgen.UserInput.Switching.{switch_scripts_lem}
use ics_trafficgen.Mapping.Loop.{Loop, loop_round}

-- The station has an index that names one of its scripts, and has seen at most the inputs `xs`.
pub record IsOnTime (xs : List String) (s : Scripts) : Type 0 where
  pub named : s.current_lua_file_index < length s.lua_file_names
  pub seen : s.local_lua_flag ≤ length xs

module _ {D : Type 0} {lua : LuaScript D} (Fine : lua.State → Type 0) where
  -- The arrays are ready for the next round: for the script too, if there is one, which then finds
  -- the state of Lua fine.
  abbrev pub HasArrays : Bool → Loop lua → Type 0
  HasArrays true l = IsReady l.station × HasRoom l.station × Fine l.state
  HasArrays false l = IsReady l.station

  abbrev pub IsSound : Bool → List String → Loop lua → Type 0
  IsSound exists xs l = HasArrays exists l × IsOnTime xs l.scripts

-- No file that is loaded makes the state of Lua less than fine.
abbrev pub LoadsFine : {S : Type 0} → (S → Type 0) → (String → S → S) → Type 0
LoadsFine Fine load_file = (file : String) (s : _) → Fine s → Fine (load_file file s)

pub load_files-fine :
    {S : Type 0} (Fine : S → Type 0) (load_file : String → S → S) (files : List String) (s : S)
    → LoadsFine Fine load_file
    → Fine s
    → Fine (load_files load_file files s)
unfolding load_files
load_files-fine Fine load_file [] s h fine = fine
load_files-fine Fine load_file (f ∷ fs) s h fine =
    load_files-fine Fine load_file fs (load_file f s) h (h f s fine)

module _ {D : Type 0} (ops : Doubles D) (lua : LuaScript D)
    (load_file : String → lua.State → lua.State) (Fine : lua.State → Type 0)
    (answers : Answers lua Fine) (loads : LoadsFine Fine load_file) where
  switch_scripts-IsOnTime :
      (xs : List String) (s : Scripts)
      → IsOnTime xs s
      → length xs ≤ s.local_lua_flag + 10
      → Succeeds (λ r. IsOnTime xs r.0) (switch_scripts (write_all xs no_input) s)
  switch_scripts-IsOnTime xs s t l =
      let (loaded, e) = switch_scripts_lem xs s t.named t.seen l in
      let n = t.named in
      subst (Succeeds (λ r. IsOnTime xs r.0)) (sym e)
        (record { named = omega (arith, n); seen = omega arith })

  pass-IsSound :
      (xs : List String) (l : Loop lua)
      → IsSound Fine false xs l
      → Succeeds
          (IsSound Fine false xs)
          (loop_round ops lua load_file false (write_all xs no_input) l)
  unfolding loop_round
  pass-IsSound xs l (ready, t) =
      let (m, e, swept) = pass_thru_data_changes_lem ops l.station ready.keys ready.fits in
      rw e (Swept-IsReady l.station m swept ready, record { named = t.named; seen = t.seen })

  -- Let the functions of the script return and leave a table from every fine state of Lua, in a fine
  -- state again, and let no file that is loaded make a fine state less. Let the arrays of an
  -- outstation be ready, and if it has a script, for the script too, with a fine state of Lua; let it
  -- have scripts and an index that names one, and at most ten of the user's inputs still to see. Then
  -- a round of its loop succeeds, whatever values the script leaves, and all of this but the number of
  -- inputs to see is so again.
  pub loop_round-IsSound :
      (exists : Bool) (xs : List String) (l : Loop lua)
      → IsSound Fine exists xs l
      → length xs ≤ l.scripts.local_lua_flag + 10
      → Succeeds
          (IsSound Fine exists xs)
          (loop_round ops lua load_file exists (write_all xs no_input) l)
  unfolding loop_round
  loop_round-IsSound false xs l s h = pass-IsSound xs l s
  loop_round-IsSound true xs l (arrays, t) h =
      Succeeds-then (λ r. IsOnTime xs r.0) (IsSound Fine true xs)
        (switch_scripts (write_all xs no_input) l.scripts) _
        (switch_scripts-IsOnTime xs l.scripts t h)
        (λ r on_time.
          Succeeds-then (StaysReady lua Fine) (IsSound Fine true xs)
            (inject_data_changes lua l.station (load_files load_file r.1 l.state)) _
            (inject_data_changes-StaysReady lua Fine answers l.station _ arrays.0 arrays.1
              (load_files-fine Fine load_file r.1 l.state loads arrays.2))
            (λ i ready. (ready, on_time)))
