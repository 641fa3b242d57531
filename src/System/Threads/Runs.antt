-- ===== src/System/Threads/Runs.antt =====
-- No round of a mapping outstation's loop fails, in any state that the program comes to.
use ics_trafficgen.Base.{
  ℕ, zero, suc, ◌+◌, ◌≤◌, ◌<◌, ◌==◌, Returns, Returns-then, arith, String, List, [], ◌∷◌, Option,
  none, some, Bool, true, false, length, get_elem?, set, map, All, ◌≡◌, refl, sym, ap, ◌∙◌, subst,
  inl, inr, Succeeds, Succeeds-then, Succeeds-imp,
}
use ics_trafficgen.Points.{Doubles}
use ics_trafficgen.Node.{Node}
use ics_trafficgen.Mapping.{MappingOutstation}
use ics_trafficgen.Mapping.Pass.{pass_thru_data_changes_lem}
use ics_trafficgen.Mapping.Ready.{Swept-IsReady}
use ics_trafficgen.Mapping.Inject.{LuaScript, inject_data_changes}
use ics_trafficgen.Mapping.Inject.Sources.{StaysReady, inject_data_changes-StaysReady}
use ics_trafficgen.Mapping.Loop.{Loop, loop_round}
use ics_trafficgen.Mapping.Loop.Soundness.{loop_round-IsSound, IsSound, LoadsFine, load_files-fine}
use ics_trafficgen.Mapping.Inject.Safe.{Answers}
use ics_trafficgen.UserInput.{no_input, write_all, switch_scripts, load_files}
use ics_trafficgen.UserInput.Cache.{write_all_lem}
use ics_trafficgen.UserInput.Switching.Returning.{switch_scripts-Seen}
use ics_trafficgen.Config.DataSpecs.Sizes.{Covers}
use ics_trafficgen.Station.Database.Total.{IsIndex}
use ics_trafficgen.App.{mapping_station}
use ics_trafficgen.System.{is_running}
use ics_trafficgen.System.Configured.{ArePlaced, mapping_station-IsLaid}
use ics_trafficgen.System.Safety.{get_elem?-set, All-get}
use ics_trafficgen.System.Threads.{
  Thread, Program, loop_of, thread_of, next_round, Step, begins, receives, goes_round, types,
  Reachable, launched, next,
}
use ics_trafficgen.System.Threads.Sound.{
  IsFit, IsUpToDate, IsSoundProgram, begins_sound, receives_sound, types_sound,
}

Succeeds-Returns : {A : Type 0} (P : A → Type 0) (o : Option A) → Succeeds P o → Returns P o
Succeeds-Returns P none s = tt
Succeeds-Returns P (some a) s = s

result : {A : Type 0} (o : Option A) (P : A → Type 0) → Succeeds P o → (a : A) × (o ≡ some a)
result none P s = absurd s
result (some a) P s = (a, refl)

module _ {A : Type 0} where
  get_elem?-map :
      {B : Type 0} (f : A → B) (xs : List A) (q : ℕ) (b : B)
      → get_elem? (map f xs) q ≡ some b
      → (a : A) × (get_elem? xs q ≡ some a) × (f a ≡ b)
  get_elem?-map f [] q b e = cc
  get_elem?-map f (x ∷ xs) zero b e = (x, refl, cc)
  get_elem?-map f (x ∷ xs) (suc q) b e = get_elem?-map f xs q b e

apart : (q r : ℕ) → q ≡ r → (r == q) ≡ false → ⊥
apart q r same other = ground arith

module _ {D F : Type 0} (ops : Doubles D) (lua : LuaScript D)
    (load_file : String → lua.State → lua.State) (Fine : lua.State → Type 0)
    (answers : Answers lua Fine) (loads : LoadsFine Fine load_file) (nodes : List (Node F)) where
  -- What a round leaves.
  abbrev IsFitNext : ℕ → Bool → List String → Loop lua → Type 0
  IsFitNext q exists xs l =
      IsFit nodes true q l.station exists
      × IsUpToDate xs exists l.scripts
      × (exists ≡ true → Fine l.state)

  -- A round of a fit outstation with at most ten inputs still to see.
  round-Succeeds :
      (exists : Bool) (q : ℕ) (xs : List String) (l : Loop lua)
      → IsFit nodes true q l.station exists
      → IsUpToDate xs exists l.scripts
      → (exists ≡ true → Fine l.state)
      → (exists ≡ true → length xs ≤ l.scripts.local_lua_flag + 10)
      → Succeeds
          (IsFitNext q exists xs)
          (loop_round ops lua load_file exists (write_all xs no_input) l)
  round-Succeeds true q xs l fit u fine near =
      Succeeds-imp (IsSound Fine true xs) (IsFitNext q true xs) _
        (λ l' s. ((s.0.0, s.0.1), s.1, λ e. s.0.2))
        (loop_round-IsSound ops lua load_file Fine answers loads true xs l
          ((fit.0, fit.1, fine refl), u) (near refl))
  round-Succeeds false q xs l ready u fine near =
      unfold loop_round in
      let (m, e, swept) = pass_thru_data_changes_lem ops l.station ready.keys ready.fits in
      rw e (Swept-IsReady l.station m swept ready, tt, λ e. cc)

  -- What a round leaves, if it returns, however many inputs there were to see.
  round-Returns :
      (exists : Bool) (q : ℕ) (xs : List String) (l : Loop lua)
      → IsFit nodes true q l.station exists
      → IsUpToDate xs exists l.scripts
      → (exists ≡ true → Fine l.state)
      → Returns
          (IsFitNext q exists xs)
          (loop_round ops lua load_file exists (write_all xs no_input) l)
  round-Returns false q xs l fit u fine =
      Succeeds-Returns (IsFitNext q false xs) _ (round-Succeeds false q xs l fit u fine (λ e. cc))
  round-Returns true q xs l (ready, room) u fine =
      let counted = (write_all_lem xs).counted in
      let seen = u.seen in
      unfold loop_round in
      Returns-then
        (λ r.
          (r.0.current_lua_file_index < length r.0.lua_file_names)
          × (r.0.local_lua_flag ≡ (write_all xs no_input).current_count))
        (IsFitNext q true xs) (switch_scripts (write_all xs no_input) l.scripts) _
        (switch_scripts-Seen (write_all xs no_input) l.scripts u.named (omega arith))
        (λ r h.
          let all = h.1 in
          Succeeds-Returns (IsFitNext q true xs) _ (
            Succeeds-then (StaysReady lua Fine) (IsFitNext q true xs)
              (inject_data_changes lua l.station (load_files load_file r.1 l.state)) _
              (inject_data_changes-StaysReady lua Fine answers l.station _ ready room
                (load_files-fine Fine load_file r.1 l.state loads (fine refl)))
              (λ i stays.
                ((stays.0, stays.1), record { named = h.0; seen = omega arith }, λ e. stays.2))))

  goes_round_sound :
      (s : Program lua) (r : ℕ) (m : MappingOutstation D) (t : Thread lua) (l : Loop lua)
      → IsSoundProgram nodes Fine s
      → is_running r s.running ≡ true
      → get_elem? s.outstations r ≡ some m
      → get_elem? s.threads r ≡ some t
      → loop_round ops lua load_file t.exists (write_all s.inputs no_input) (loop_of m t) ≡ some l
      → IsSoundProgram nodes Fine (record s {
        outstations = set s.outstations r l.station;
        threads = set s.threads r (thread_of t.exists l);
      })
  goes_round_sound s r m t l sound up found thread run =
      let after : IsFitNext r t.exists s.inputs l =
        subst (Returns (IsFitNext r t.exists s.inputs)) run (
          round-Returns t.exists r s.inputs (loop_of m t)
            (subst (λ b. IsFit nodes b r m t.exists) up (sound.fit r m t found thread))
            (sound.up_to_date r t thread) (sound.fine r t thread)) in
      record {
        fit = λ q a t' e f. elim (get_elem?-set s.threads r q (thread_of t.exists l) t' f) [
          | inl (same, new) ↦ elim (get_elem?-set s.outstations r q l.station a e) [
            | inl (same', station) ↦
                let is_up : is_running q s.running ≡ true =
                  ap (λ k. is_running k s.running) same ∙ up in
                let fit : IsFit nodes true q l.station t.exists =
                  subst (λ k. IsFit nodes true k l.station t.exists) (sym same) after.0 in
                subst (λ b. IsFit nodes b q a t'.exists) (sym is_up)
                  (subst (λ x. IsFit nodes true q a x.exists) new
                    (subst (λ x. IsFit nodes true q x t.exists) station fit))
            | inr (other, old) ↦ absurd (apart q r same other)
          ]
          | inr (other, old) ↦ elim (get_elem?-set s.outstations r q l.station a e) [
            | inl (same, station) ↦ absurd (apart q r same other)
            | inr (other', old') ↦ sound.fit q a t' old' old
          ]
        ];
        up_to_date = λ q t' f. elim (get_elem?-set s.threads r q (thread_of t.exists l) t' f) [
          | inl (same, new) ↦ subst (λ x. IsUpToDate s.inputs x.exists x.scripts) new after.1
          | inr (other, old) ↦ sound.up_to_date q t' old
        ];
        fine = λ q t' f. elim (get_elem?-set s.threads r q (thread_of t.exists l) t' f) [
          | inl (same, new) ↦ subst (λ x. x.exists ≡ true → Fine x.state) new after.2
          | inr (other, old) ↦ sound.fine q t' old
        ];
      }

module _ {D F : Type 0} (ops : Doubles D) (lua : LuaScript D)
    (load_file : String → lua.State → lua.State) (Fine : lua.State → Type 0)
    (answers : Answers lua Fine) (loads : LoadsFine Fine load_file) (positive : F → Bool)
    (nodes : List (Node F)) (covers : All Covers nodes)
    (indexes : All (λ n. All (λ dp. IsIndex dp.index) n.data_points) nodes)
    (placed : All (λ n. ArePlaced n.data_sources) nodes) where
  Step-sound :
      {s s' : Program lua}
      → IsSoundProgram nodes Fine s
      → Step ops lua load_file positive nodes s s'
      → IsSoundProgram nodes Fine s'
  Step-sound {s = s} sound (begins r n m db db' down node found fresh run) =
      begins_sound ops positive nodes covers indexes Fine s sound r n m db db' down node found fresh
        run
  Step-sound {s = s} sound (receives h c) =
      receives_sound ops positive nodes covers indexes Fine s sound h c
  Step-sound {s = s} sound (goes_round r m t l up found thread run) =
      goes_round_sound ops lua load_file Fine answers loads nodes s r m t l sound up found thread
        run
  Step-sound {s = s} sound (types line) =
      types_sound ops positive nodes covers indexes Fine s sound line

  launched_sound :
      (ts : List (Thread lua))
      → All (λ t. IsUpToDate [] t.exists t.scripts) ts
      → All (λ t. t.exists ≡ true → Fine t.state) ts
      → IsSoundProgram nodes Fine (record {
        outstations = map (mapping_station {D = D}) nodes;
        threads = ts;
        running = [];
        inputs = [];
      })
  launched_sound ts u w = record {
    fit = λ q m t e f.
        let (n, found, same) = get_elem?-map mapping_station nodes q m e in
        let laid =
          mapping_station-IsLaid D n (All-get Covers nodes q n covers found)
            (All-get (λ n. ArePlaced n.data_sources) nodes q n placed found) in
        subst (λ x. IsFit nodes false q x t.exists) same
          (n, found, laid, unfold mapping_station in refl);
    up_to_date = λ q t f. All-get (λ t. IsUpToDate [] t.exists t.scripts) ts q t u f;
    fine = λ q t f. All-get (λ t. t.exists ≡ true → Fine t.state) ts q t w f;
  }

  pub Reachable-sound :
      {ts : List (Thread lua)} {s : Program lua}
      → All (λ t. IsUpToDate [] t.exists t.scripts) ts
      → All (λ t. t.exists ≡ true → Fine t.state) ts
      → Reachable ops lua load_file positive nodes ts s
      → IsSoundProgram nodes Fine s
  Reachable-sound {ts} u w launched = launched_sound ts u w
  Reachable-sound u w (next r step) = Step-sound (Reachable-sound u w r) step

  -- In every state that the program reaches, a round returns, and is a step.
  pub Reachable-runs :
      {ts : List (Thread lua)} {s : Program lua} (r : ℕ) (m : MappingOutstation D) (t : Thread lua)
      → All (λ t. IsUpToDate [] t.exists t.scripts) ts
      → All (λ t. t.exists ≡ true → Fine t.state) ts
      → Reachable ops lua load_file positive nodes ts s
      → is_running r s.running ≡ true
      → get_elem? s.outstations r ≡ some m
      → get_elem? s.threads r ≡ some t
      → (t.exists ≡ true → length s.inputs ≤ t.scripts.local_lua_flag + 10)
      → (l : Loop lua) × (next_round ops lua load_file positive nodes s m t ≡ some l)
        × Step ops lua load_file positive nodes s (record s {
          outstations = set s.outstations r l.station;
          threads = set s.threads r (thread_of t.exists l);
        })
  Reachable-runs {s = s} r m t u w reached up found thread near =
      let sound = Reachable-sound u w reached in
      let succeeds =
        round-Succeeds ops lua load_file Fine answers loads nodes t.exists r s.inputs (loop_of m t)
          (subst (λ b. IsFit nodes b r m t.exists) up (sound.fit r m t found thread))
          (sound.up_to_date r t thread) (sound.fine r t thread) near in
      let (l, run) = result (next_round ops lua load_file positive nodes s m t) _ succeeds in
      (l, run, goes_round r m t l up found thread run)
