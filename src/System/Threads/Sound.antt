-- ===== src/System/Threads/Sound.antt =====
-- What holds of every mapping outstation and its thread in every state that the program comes to.
use ics_trafficgen.Base.{
  ℕ, String, List, [], ◌∷◌, ◌++◌, some, Bool, true, false, ◌==◌, countb, length-append, get_elem?,
  set, All, ◌≡◌, refl, sym, ap, ◌∙◌, subst, inl, inr, arith, lookup,
}
use ics_trafficgen.Points.{Doubles}
use ics_trafficgen.Node.{Node}
use ics_trafficgen.Mapping.{MappingOutstation}
use ics_trafficgen.Mapping.Ready.{IsReady, start-IsReady}
use ics_trafficgen.Mapping.Inject.{LuaScript}
use ics_trafficgen.Mapping.Inject.Safe.{AllIn}
use ics_trafficgen.Mapping.Inject.Total.{HasRoom}
use ics_trafficgen.Mapping.Loop.Soundness.{IsOnTime}
use ics_trafficgen.Soe.{
  Collection, MappingSoeHandler, binaries, analogs, counters, process_at, process,
}
use ics_trafficgen.Soe.Arrays.{receive-SameShape}
use ics_trafficgen.Soe.Delivery.{process_at-IsReady}
use ics_trafficgen.Soe.Destinations.{process_lem}
use ics_trafficgen.UserInput.{Scripts}
use ics_trafficgen.Config.DataSpecs.Sizes.{Covers}
use ics_trafficgen.Station.Database.{Database, configure_database}
use ics_trafficgen.Station.Database.Total.{IsIndex}
use ics_trafficgen.System.{is_running}
use ics_trafficgen.System.Safety.{IsLaid, get_elem?-set, repeated-keeps, process_at-IsLaid, All-get}
use ics_trafficgen.System.Scripted.{begun, begun-IsReady, begun-HasRoom}
use ics_trafficgen.System.Threads.{Thread, Program}

-- A thread with a script has an index that names a script, and has not looked further than the input.
abbrev pub IsUpToDate : List String → Bool → Scripts → Type 0
IsUpToDate xs true s = IsOnTime xs s
IsUpToDate xs false s = Unit

later_input :
    (xs : List String) (x : String) (exists : Bool) (c : Scripts)
    → IsUpToDate xs exists c
    → IsUpToDate (xs ++ x ∷ []) exists c
later_input xs x false c u = tt
later_input xs x true c u = record {
  named = u.named;
  seen = omega (arith, u.seen, length-append xs (x ∷ []));
}

module _ {D F : Type 0} (nodes : List (Node F)) where
  -- Before its loop begins, an outstation is laid out as its node says; from then on its arrays are
  -- ready, for its script too if that exists.
  abbrev pub IsFit : Bool → ℕ → MappingOutstation D → Bool → Type 0
  IsFit false q m exists =
      (n : Node F) × (get_elem? nodes q ≡ some n) × IsLaid m × (m.db_size ≡ n.db_size)
  IsFit true q m true = IsReady m × HasRoom m
  IsFit true q m false = IsReady m

  pub record IsSoundProgram {lua : LuaScript D} (Fine : lua.State → Type 0) (s : Program lua)
      : Type 0 where
    pub fit :
        (q : ℕ) (m : MappingOutstation D) (t : Thread lua)
        → get_elem? s.outstations q ≡ some m
        → get_elem? s.threads q ≡ some t
        → IsFit (is_running q s.running) q m t.exists
    pub up_to_date :
        (q : ℕ) (t : Thread lua)
        → get_elem? s.threads q ≡ some t
        → IsUpToDate s.inputs t.exists t.scripts
    pub fine :
        (q : ℕ) (t : Thread lua) → get_elem? s.threads q ≡ some t → t.exists ≡ true → Fine t.state

module _ {D F : Type 0} (ops : Doubles D) (nodes : List (Node F)) where
  process_at-HasRoom :
      (src : String) (c : Collection D) (m : MappingOutstation D)
      → HasRoom m
      → HasRoom (process_at ops src c m)
  unfolding process_at
  process_at-HasRoom src (binaries es) m (a, b, k) = (
    a,
    subst (AllIn (lookup "Binary Input" m.dp_type_index_map))
        (sym (receive-SameShape ops ops.of_bool src es m.binary).out_size) b,
    k,
  )
  process_at-HasRoom src (analogs es) m (a, b, k) = (
    subst (AllIn (lookup "Analog Input" m.dp_type_index_map))
        (sym (receive-SameShape ops (λ v. v) src es m.analog).out_size) a,
    b,
    k,
  )
  process_at-HasRoom src (counters es) m (a, b, k) = (
    a,
    b,
    subst (AllIn (lookup "Counter" m.dp_type_index_map))
        (sym (receive-SameShape ops ops.of_uint32 src es m.counter).out_size) k,
  )

  process_at-db_size :
      (src : String) (c : Collection D) (m : MappingOutstation D)
      → (process_at ops src c m).db_size ≡ m.db_size
  unfolding process_at
  process_at-db_size src (binaries es) m = refl
  process_at-db_size src (analogs es) m = refl
  process_at-db_size src (counters es) m = refl

  pub process_at-IsFit :
      (up : Bool) (q : ℕ) (exists : Bool) (src : String) (c : Collection D)
      (m : MappingOutstation D)
      → IsFit nodes up q m exists
      → IsFit nodes up q (process_at ops src c m) exists
  process_at-IsFit false q exists src c m (n, found, laid, sizes) =
      (n, found, process_at-IsLaid ops src c m laid, process_at-db_size src c m ∙ sizes)
  process_at-IsFit true q true src c m (ready, room) =
      (process_at-IsReady ops src c m ready, process_at-HasRoom src c m room)
  process_at-IsFit true q false src c m ready = process_at-IsReady ops src c m ready

module _ {D F : Type 0} (ops : Doubles D) (positive : F → Bool) (nodes : List (Node F))
    (covers : All Covers nodes)
    (indexes : All (λ n. All (λ dp. IsIndex dp.index) n.data_points) nodes) where
  -- An outstation whose loop begins has its arrays.
  begun-IsFit :
      (q : ℕ) (n : Node F) (m : MappingOutstation D) (db db' : Database F) (exists : Bool)
      → get_elem? nodes q ≡ some n
      → IsFit nodes false q m exists
      → db.dp_type_index_map ≡ []
      → configure_database positive n.data_points db ≡ some db'
      → IsFit nodes true q (begun ops m db') exists
  begun-IsFit q n m db db' true found (n', found', laid, sizes) fresh run =
      let same : n' ≡ n = cc in
      (
        begun-IsReady ops m db' (start-IsReady ops m laid.keys laid.configured),
        begun-HasRoom ops positive n m db db' (All-get Covers nodes q n covers found)
            (All-get _ nodes q n indexes found) (sizes ∙ ap (λ k. k.db_size) same) fresh run,
      )
  begun-IsFit q n m db db' false found (n', found', laid, sizes) fresh run =
      begun-IsReady ops m db' (start-IsReady ops m laid.keys laid.configured)

  module _ {lua : LuaScript D} (Fine : lua.State → Type 0) (s : Program lua)
      (sound : IsSoundProgram nodes Fine s) where
    pub begins_sound :
        (r : ℕ) (n : Node F) (m : MappingOutstation D) (db db' : Database F)
        → is_running r s.running ≡ false
        → get_elem? nodes r ≡ some n
        → get_elem? s.outstations r ≡ some m
        → db.dp_type_index_map ≡ []
        → configure_database positive n.data_points db ≡ some db'
        → IsSoundProgram nodes Fine (record s {
          outstations = set s.outstations r (begun ops m db');
          running = r ∷ s.running;
        })
    begins_sound r n m db db' down node found fresh run = record {
      fit = λ q a t e f. elim (get_elem?-set s.outstations r q (begun ops m db') a e) [
        | inl (same, new) ↦
            let laid : IsFit nodes false q m t.exists =
              subst (λ b. IsFit nodes b q m t.exists) (ap (λ k. is_running k s.running) same ∙ down)
                (sound.fit q m t (ap (get_elem? s.outstations) same ∙ found) f) in
            let up : is_running q (r ∷ s.running) ≡ true = ground arith in
            subst (λ b. IsFit nodes b q a t.exists) (sym up)
              (subst (λ x. IsFit nodes true q x t.exists) new
                (begun-IsFit q n m db db' t.exists (ap (get_elem? nodes) same ∙ node) laid fresh
                  run))
        | inr (other, old) ↦
            let rest : is_running q s.running ≡ is_running q (r ∷ s.running) = ground arith in
            subst (λ b. IsFit nodes b q a t.exists) rest (sound.fit q a t old f)
      ];
      up_to_date = sound.up_to_date;
      fine = sound.fine;
    }

    pub receives_sound :
        (h : MappingSoeHandler) (c : Collection D)
        → IsSoundProgram nodes Fine (record s { outstations = process ops h c s.outstations })
    receives_sound h c = record {
      fit = λ q a t e f.
          repeated-keeps (λ m. IsFit nodes (is_running q s.running) q m t.exists)
            (process_at ops h.src_name c) (countb (λ r. r == q) h.destination_list)
            (get_elem? s.outstations q) a
            (process_at-IsFit ops nodes (is_running q s.running) q t.exists h.src_name c)
            (λ m found. sound.fit q m t found f) (sym (process_lem ops h c s.outstations q) ∙ e);
      up_to_date = sound.up_to_date;
      fine = sound.fine;
    }

    pub types_sound :
        (line : String) → IsSoundProgram nodes Fine (record s { inputs = s.inputs ++ line ∷ [] })
    types_sound line = record {
      fit = sound.fit;
      up_to_date = λ q t f. later_input s.inputs line t.exists t.scripts (sound.up_to_date q t f);
      fine = sound.fine;
    }
