-- ===== src/System.antt =====
-- The run of the whole program: the threads of the mapping outstations and the callbacks of the
-- masters, as steps on the outstations that they share (dnp3app.cpp, MappingOutstation.cpp and
-- MappingSoeHandler.cpp). A callback may come before a thread has set up its arrays.
pub mod Safety
pub mod Configured
pub mod Scripted
pub mod Threads
use ics_trafficgen.Base.{ℕ, List, [], ◌∷◌, Bool, true, false, some, any, ◌==◌, get_elem?, set, ◌≡◌}
use ics_trafficgen.Points.{Doubles}
use ics_trafficgen.Mapping.{MappingOutstation, Update}
use ics_trafficgen.Mapping.Arrays.{start}
use ics_trafficgen.Mapping.Passing.{pass_thru_data_changes}
use ics_trafficgen.Soe.{MappingSoeHandler, Collection, process}

-- The mapping outstations, and the places of those whose thread has set up its arrays.
pub record System (D : Type 0) : Type 0 where
  pub outstations : List (MappingOutstation D)
  pub running : List ℕ

abbrev pub is_running : ℕ → List ℕ → Bool
is_running r rs = any (λ q. q == r) rs

module _ {D : Type 0} (ops : Doubles D) where
  -- A step of one thread: an outstation that has no script starts, a master hands a batch of
  -- measurements to its destinations, or an outstation makes a round of its loop.
  pub data Step (s : System D) : System D → Type 0 where
    starts :
        (r : ℕ) (m : MappingOutstation D)
        → is_running r s.running ≡ false
        → get_elem? s.outstations r ≡ some m
        → Step s
            (record { outstations = set s.outstations r (start ops m); running = r ∷ s.running })
    receives :
        (h : MappingSoeHandler) (c : Collection D)
        → Step s (record s { outstations = process ops h c s.outstations })
    passes :
        (r : ℕ) (m m' : MappingOutstation D) (ups : List (Update D))
        → is_running r s.running ≡ true
        → get_elem? s.outstations r ≡ some m
        → pass_thru_data_changes ops m ≡ some (m', ups)
        → Step s (record s { outstations = set s.outstations r m' })

  -- The states that the program comes to, from the start of its threads on.
  pub data Reachable (ms : List (MappingOutstation D)) : System D → Type 0 where
    launched : Reachable ms (record { outstations = ms; running = [] })
    next : {s s' : System D} → Reachable ms s → Step s s' → Reachable ms s'
