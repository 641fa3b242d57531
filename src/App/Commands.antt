-- ===== src/App/Commands.antt =====
-- What the loop of `main` does with the user's commands.
use ics_trafficgen.Base.{
  String, List, [], ◌∷◌, any, filterb, str_eq, if◌then◌else◌, ◌≡◌, refl, Bool-cases, inl, inr,
}
use ics_trafficgen.UserInput.{ThreadSafeUserInput, unconditional_writer, write_all}
use ics_trafficgen.App.{exited, waits, read_commands}

-- The lines before the first "x".
abbrev pub before_exit : List String → List String
before_exit [] = []
before_exit (l ∷ ls) = if str_eq l "x" then [] else l ∷ before_exit ls

-- The first "x" ends the program, and the lines before it that are triggers, and no others, are
-- written to the inputs, in their order. Without an "x" the program waits for more.
pub read_commands_lem :
    (triggers lines : List String) (u : ThreadSafeUserInput)
    → read_commands triggers lines u ≡ (
        let recorded = write_all (filterb (λ l. any (str_eq l) triggers) (before_exit lines)) u in
        if any (λ l. str_eq l "x") lines then exited recorded else waits recorded)
unfolding read_commands write_all
read_commands_lem triggers [] u = refl
read_commands_lem triggers (l ∷ ls) u = elim (Bool-cases (str_eq l "x")) [
  | inl quit ↦ rw quit refl
  | inr other ↦ elim (Bool-cases (any (str_eq l) triggers)) [
    | inl wanted ↦ rw (other, wanted, read_commands_lem triggers ls (unconditional_writer l u)) refl
    | inr ignored ↦ rw (other, ignored, read_commands_lem triggers ls u) refl
  ]
]
