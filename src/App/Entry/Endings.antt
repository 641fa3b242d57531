-- ===== src/App/Entry/Endings.antt =====
-- Every way in which `main` ends, and what it has done by then.
use ics_trafficgen.Base.{
  ℕ, String, List, [], ◌∷◌, none, some, Bool, true, false, ◌==◌, ◌>>=◌, ◌&&◌, ◌||◌, any, str_eq,
  filterb, if◌then◌else◌, ◌≡◌, refl, sym, ap, ◌∙◌, subst, arith, Bool-cases, Option-cases, ◌⊎◌, inl,
  inr,
}
use ics_trafficgen.Config.{PropTree}
use ics_trafficgen.Config.Parse.{parse_config}
use ics_trafficgen.UserInput.{no_input, write_all}
use ics_trafficgen.App.{exited, waits, no_stations, launch_all, connect_all}
use ics_trafficgen.App.Commands.{before_exit, read_commands_lem}
use ics_trafficgen.App.Entry.{
  Environment, Ending, exit_failure, returned, thrown, ran, default_names, set_name, read_options,
  subcmd, run_nodes, with_names, create_pipe, main,
}
use ics_trafficgen.App.Entry.Triggers.{is_key, is_trigger}

-- The argument of the last option `c`, or the default.
abbrev pub last_arg : ℕ → List (ℕ × String) → String → String
last_arg c [] default = default
last_arg c ((o, arg) ∷ os) default = last_arg c os (if o == c then arg else default)

-- Every option is `-c` or `-p`.
abbrev pub all_known : List (ℕ × String) → Bool
all_known [] = true
all_known ((o, arg) ∷ os) = (o == b'c' || o == b'p') && all_known os

read_options_lem :
    (os : List (ℕ × String)) (cfg pipe : String)
    → read_options os (cfg, pipe)
      ≡ (if all_known os then some (last_arg b'c' os cfg, last_arg b'p' os pipe) else none)
unfolding read_options set_name
read_options_lem [] cfg pipe = refl
read_options_lem ((o, arg) ∷ os) cfg pipe =
    ground (arith, read_options_lem os arg pipe, read_options_lem os cfg arg)

filterb-same :
    (p q : String → Bool) (ls : List String)
    → ((l : String) → p l ≡ q l)
    → filterb p ls ≡ filterb q ls
filterb-same p q [] e = refl
filterb-same p q (l ∷ ls) e = rw (e l, filterb-same p q ls e) refl

module _ (pt : PropTree) (D : Type 0) where
  open pt use {Float}

  module _ (e : Environment pt) where
    abbrev pub config_name : String
    config_name = last_arg b'c' e.options "Config.json"

    abbrev pub pipe_name : String
    pipe_name = last_arg b'p' e.options "dnp3pipe"

    -- There is a shell, and no unknown option.
    abbrev pub IsCalled : Type 0
    IsCalled = (e.has_shell ≡ true) × (all_known e.options ≡ true)

    -- The pipe was not there, and has been made.
    abbrev pub HasPipe : Type 0
    HasPipe = (e.file_exists pipe_name ≡ false) × (e.succeeds (subcmd pipe_name) ≡ true)

    -- What is so if `main` ends in this way.
    abbrev pub Ends : Ending Float D → Type 0
    Ends exit_failure = (e.has_shell ≡ false) ⊎ (all_known e.options ≡ false)
    Ends returned =
        IsCalled × ((e.file_exists pipe_name ≡ true) ⊎ (e.succeeds (subcmd pipe_name) ≡ false))
    Ends thrown = IsCalled × HasPipe × ((e.read_json config_name >>= parse_config pt) ≡ none)
    Ends (ran r) =
        IsCalled
        × HasPipe
        × ((e.read_json config_name >>= parse_config pt) ≡ some r.cfg_reader)
        × (r.app ≡ connect_all (launch_all r.cfg_reader.nodes no_stations))
        × (r.outcome ≡ (
            let recorded =
              write_all (filterb (is_key r.cfg_reader.nodes) (before_exit e.lines)) no_input in
            if any (λ l. str_eq l "x") e.lines then exited recorded else waits recorded))

    run_nodes-Ends :
        IsCalled → HasPipe → Ends (run_nodes pt D e (e.read_json config_name >>= parse_config pt))
    run_nodes-Ends called pipe = elim (Option-cases (e.read_json config_name >>= parse_config pt)) [
      | inl failed ↦ subst (λ o. Ends (run_nodes pt D e o)) (sym failed) (called, pipe, failed)
      | inr (p, parsed) ↦
          subst (λ o. Ends (run_nodes pt D e o)) (sym parsed)
            (
              called,
              pipe,
              parsed,
              refl,
              read_commands_lem (connect_all {D = D} (launch_all p.nodes no_stations)).lua_triggers
                    e.lines no_input
                  ∙ ap
                      (λ ls.
                        let recorded = write_all ls no_input in
                        if any (λ l. str_eq l "x") e.lines then exited recorded else waits recorded)
                      (filterb-same _ (is_key p.nodes) (before_exit e.lines)
                        (is_trigger D p.nodes)),
            )
    ]

    create_pipe-Ends : IsCalled → Ends (create_pipe pt D e (config_name, pipe_name))
    unfolding create_pipe
    create_pipe-Ends called =
        let run = run_nodes pt D e (e.read_json config_name >>= parse_config pt) in
        elim (Bool-cases (e.file_exists pipe_name)) [
          | inl there ↦
              subst
                (λ b.
                  Ends (
                    if b
                    then returned
                    else if e.succeeds (subcmd pipe_name)
                    then run
                    else returned))
                (sym there) (called, inl there)
          | inr new ↦
              subst
                (λ b.
                  Ends (
                    if b
                    then returned
                    else if e.succeeds (subcmd pipe_name)
                    then run
                    else returned))
                (sym new)
                (elim (Bool-cases (e.succeeds (subcmd pipe_name))) [
                  | inl made ↦
                      subst (λ b. Ends (if b then run else returned)) (sym made)
                        (run_nodes-Ends called (new, made))
                  | inr failed ↦
                      subst (λ b. Ends (if b then run else returned)) (sym failed)
                        (called, inr failed)
                ])
        ]

    with_names-Ends :
        e.has_shell ≡ true → Ends (with_names pt D e (read_options e.options default_names))
    with_names-Ends shell =
        subst (λ o. Ends (with_names pt D e o))
          (sym (read_options_lem e.options "Config.json" "dnp3pipe"))
          (elim (Bool-cases (all_known e.options)) [
            | inr unknown ↦
                subst
                  (λ b.
                    Ends (with_names pt D e (if b then some (config_name, pipe_name) else none)))
                  (sym unknown) (inr unknown)
            | inl known ↦
                subst
                  (λ b.
                    Ends (with_names pt D e (if b then some (config_name, pipe_name) else none)))
                  (sym known) (create_pipe-Ends (shell, known))
          ])

    -- `main` ends with a failure only without a shell or at an unknown option. Otherwise the names are
    -- those of the last options `-c` and `-p`, or the defaults, and it returns only if the pipe exists
    -- or cannot be made; it throws only if the pipe has been made and the file cannot be read or
    -- parsed. If it runs, the file was parsed and its nodes are launched and connected; of the lines
    -- before the first "x", those that are the key of a node are written to the inputs, in their
    -- order, and no others; and it ends exactly if there is an "x".
    pub main-Ends : Ends (main pt D e)
    unfolding main
    main-Ends =
        let called = with_names pt D e (read_options e.options default_names) in
        elim (Bool-cases e.has_shell) [
          | inr missing ↦
              subst (λ b. Ends (if b then called else exit_failure)) (sym missing) (inl missing)
          | inl shell ↦
              subst (λ b. Ends (if b then called else exit_failure)) (sym shell)
                (with_names-Ends shell)
        ]
