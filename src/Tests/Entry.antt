-- ===== src/Tests/Entry.antt =====
-- The theorem on `main`, at a call with two options and three lines on the pipe.
use ics_trafficgen.Base.{ℕ, [], ◌∷◌, some, true, str_eq}
use ics_trafficgen.App.Entry.{Environment, main}
use ics_trafficgen.App.Entry.Endings.{Ends, main-Ends}
use ics_trafficgen.Tests.Networks.{file}

abbrev environment : Environment file
environment = record {
  has_shell = true;
  options = (b'c', "one.json") ∷ (b'c', "two.json") ∷ [];
  file_exists = λ name. str_eq name "otherpipe";
  succeeds = λ command. true;
  read_json = λ name. some 0;
  lines = "k" ∷ "n" ∷ "x" ∷ [];
}

main-Ends_example : Ends file ℕ environment (main file ℕ environment)
main-Ends_example = main-Ends file ℕ environment
