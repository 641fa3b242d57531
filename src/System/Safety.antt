-- ===== src/System/Safety.antt =====
-- In every state that the program comes to, the next pass of a running outstation is safe and exact.
use ics_trafficgen.Base.{
  String, All, arith, ℕ, zero, suc, List, [], ◌∷◌, Option, none, some, Bool, true, false, ◌==◌,
  countb, get_elem?, set, ◌≡◌, refl, sym, ap, ◌∙◌, subst, ◌⊎◌, inl, inr,
}
use ics_trafficgen.Points.{Doubles}
use ics_trafficgen.Mapping.{MappingOutstation, Update}
use ics_trafficgen.Mapping.Arrays.{start}
use ics_trafficgen.Mapping.Passing.{pass_thru_data_changes}
use ics_trafficgen.Mapping.Emission.{report, DistinctKeys}
use ics_trafficgen.Mapping.Pass.{pass_thru_data_changes_lem}
use ics_trafficgen.Mapping.Ready.{IsReady, start-IsReady}
use ics_trafficgen.Mapping.Start.{AreConfigured}
use ics_trafficgen.Soe.{Collection, binaries, analogs, counters, process_at}
use ics_trafficgen.Soe.Destinations.{repeated, process_lem}
use ics_trafficgen.Soe.Delivery.{process_at-IsReady, pass-IsReady}
use ics_trafficgen.System.{
  System, Step, starts, receives, passes, Reachable, launched, next, is_running,
}

module _ {A : Type 0} where
  pub get_elem?-set :
      (xs : List A) (r q : ℕ) (x a : A)
      → get_elem? (set xs r x) q ≡ some a
      → ((q ≡ r) × (x ≡ a)) ⊎ (((r == q) ≡ false) × (get_elem? xs q ≡ some a))
  get_elem?-set [] r q x a e = cc
  get_elem?-set (y ∷ xs) zero zero x a e = inl (refl, cc)
  get_elem?-set (y ∷ xs) zero (suc q) x a e = inr (ground arith, e)
  get_elem?-set (y ∷ xs) (suc r) zero x a e = inr (ground arith, e)
  get_elem?-set (y ∷ xs) (suc r) (suc q) x a e = elim (get_elem?-set xs r q x a e) [
    | inl (p, h) ↦ inl (ap suc p, h)
    | inr (p, h) ↦ inr (ground arith, h)
  ]

  -- What each application keeps, all of them keep.
  pub repeated-keeps :
      (P : A → Type 0) (f : A → A) (n : ℕ) (o : Option A) (a : A)
      → ((b : A) → P b → P (f b))
      → ((b : A) → o ≡ some b → P b)
      → repeated f n o ≡ some a
      → P a
  repeated-keeps P f n none a k h e = cc
  repeated-keeps P f zero (some b) a k h e = h a e
  repeated-keeps P f (suc n) (some b) a k h e =
      repeated-keeps P f n (some (f b)) a k
        (λ c same. let eq : f b ≡ c = cc in subst P eq (k b (h b refl))) e

module _ {A : Type 0} where
  pub All-get :
      (P : A → Type 0) (xs : List A) (i : ℕ) (a : A) → All P xs → get_elem? xs i ≡ some a → P a
  All-get P [] i a h e = cc
  All-get P (x ∷ xs) zero a h e = let same : x ≡ a = cc in subst P same h.0
  All-get P (x ∷ xs) (suc i) a h e = All-get P xs i a h.1 e

-- The arrays that the outstation's configuration calls for hold its points.
pub record IsLaid {D : Type 0} (m : MappingOutstation D) : Type 0 where
  pub keys : DistinctKeys m.data_sources
  pub configured : AreConfigured m.db_size m.data_sources

module _ {D : Type 0} where
  -- What holds of an outstation, before its arrays are set up and after.
  abbrev IsSound : Bool → MappingOutstation D → Type 0
  IsSound false m = IsLaid m
  IsSound true m = IsReady m

  abbrev AllSound : System D → Type 0
  AllSound s =
      (q : ℕ) (m : MappingOutstation D)
      → get_elem? s.outstations q ≡ some m
      → IsSound (is_running q s.running) m

module _ {D : Type 0} (ops : Doubles D) where
  pub process_at-IsLaid :
      (src : String) (c : Collection D) (m : MappingOutstation D)
      → IsLaid m
      → IsLaid (process_at ops src c m)
  unfolding process_at
  process_at-IsLaid src (binaries es) m l = record { keys = l.keys; configured = l.configured }
  process_at-IsLaid src (analogs es) m l = record { keys = l.keys; configured = l.configured }
  process_at-IsLaid src (counters es) m l = record { keys = l.keys; configured = l.configured }

  process_at-IsSound :
      (up : Bool) (src : String) (c : Collection D) (m : MappingOutstation D)
      → IsSound up m
      → IsSound up (process_at ops src c m)
  process_at-IsSound false src c m l = process_at-IsLaid src c m l
  process_at-IsSound true src c m r = process_at-IsReady ops src c m r

  starts-AllSound :
      (s : System D) (r : ℕ) (m : MappingOutstation D)
      → is_running r s.running ≡ false
      → get_elem? s.outstations r ≡ some m
      → AllSound s
      → AllSound
          (record { outstations = set s.outstations r (start ops m); running = r ∷ s.running })
  starts-AllSound s r m down found sound q a e =
      elim (get_elem?-set s.outstations r q (start ops m) a e) [
        | inl (same, new) ↦
            let laid : IsLaid m = subst (λ b. IsSound b m) down (sound r m found) in
            let up : is_running q (r ∷ s.running) ≡ true = ground arith in
            subst (IsSound (is_running q (r ∷ s.running))) new (
              subst (λ b. IsSound b (start ops m)) (sym up)
                (start-IsReady ops m laid.keys laid.configured))
        | inr (other, old) ↦
            let rest : is_running q s.running ≡ is_running q (r ∷ s.running) = ground arith in
            subst (λ b. IsSound b a) rest (sound q a old)
      ]

  passes-AllSound :
      (s : System D) (r : ℕ) (m m' : MappingOutstation D) (ups : List (Update D))
      → is_running r s.running ≡ true
      → get_elem? s.outstations r ≡ some m
      → pass_thru_data_changes ops m ≡ some (m', ups)
      → AllSound s
      → AllSound (record s { outstations = set s.outstations r m' })
  passes-AllSound s r m m' ups up found run sound q a e =
      elim (get_elem?-set s.outstations r q m' a e) [
        | inl (same, new) ↦
            let ready : IsReady m = subst (λ b. IsSound b m) up (sound r m found) in
            let is_up : is_running q s.running ≡ true =
              subst (λ k. is_running k s.running ≡ true) (sym same) up in
            subst (IsSound (is_running q s.running)) new
              (subst (λ b. IsSound b m') (sym is_up) (pass-IsReady ops m m' ups run ready))
        | inr (other, old) ↦ sound q a old
      ]

  Step-AllSound : {s s' : System D} → AllSound s → Step ops s s' → AllSound s'
  Step-AllSound {s = s} sound (starts r m down found) = starts-AllSound s r m down found sound
  Step-AllSound {s = s} sound (receives h c) = λ q a e.
      repeated-keeps (IsSound (is_running q s.running)) (process_at ops h.src_name c)
        (countb (λ r. r == q) h.destination_list) (get_elem? s.outstations q) a
        (process_at-IsSound (is_running q s.running) h.src_name c) (sound q)
        (sym (process_lem ops h c s.outstations q) ∙ e)
  Step-AllSound {s = s} sound (passes r m m' ups up found run) =
      passes-AllSound s r m m' ups up found run sound

  Reachable-AllSound :
      {ms : List (MappingOutstation D)} {s : System D}
      → All IsLaid ms
      → Reachable ops ms s
      → AllSound s
  Reachable-AllSound {ms} laid launched = λ q m e. All-get IsLaid ms q m laid e
  Reachable-AllSound laid (next r step) = Step-AllSound (Reachable-AllSound laid r) step

  -- Let the data sources of each mapping outstation have different names, and let each of its
  -- mapped points lie within the sizes of its arrays. Then in every state that the program reaches,
  -- by whatever order of starts, callbacks and passes, the next pass of an outstation whose arrays
  -- are set up stays within the arrays, and hands over exactly what the flagged sources hold.
  pub Reachable-is_safe :
      (ms : List (MappingOutstation D)) (s : System D) (r : ℕ) (m : MappingOutstation D)
      → All IsLaid ms
      → Reachable ops ms s
      → is_running r s.running ≡ true
      → get_elem? s.outstations r ≡ some m
      → (m' : MappingOutstation D) × (pass_thru_data_changes ops m
          ≡ some (m', report ops m m.data_sources))
        × Step ops s (record s { outstations = set s.outstations r m' })
  Reachable-is_safe ms s r m laid run up found =
      let ready = subst (λ b. IsSound b m) up (Reachable-AllSound laid run r m found) in
      let (m', e, swept) = pass_thru_data_changes_lem ops m ready.keys ready.fits in
      (m', e, passes r m m' (report ops m m.data_sources) up found e)
