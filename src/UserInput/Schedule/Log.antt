-- ===== src/UserInput/Schedule/Log.antt =====
-- The cache of the last inputs does what a log of all inputs would, for a station that keeps up.
use ics_trafficgen.Base.{
  ℕ, ◌+◌, ◌≤◌, ◌<◌, String, List, [], ◌∷◌, ◌++◌, Option, none, some, Bool, ltb, length, get_elem?,
  if◌then◌else◌, ◌>>=◌, ◌≡◌, refl, sym, ap, ◌∙◌, subst, arith, str_eq, length-append, Bool-cases,
  inl, inr, Returns, Returns-always,
}
use ics_trafficgen.UserInput.{
  ThreadSafeUserInput, Scripts, no_input, unconditional_writer, get_next_lua_file, load_next,
  read_input_str, switch_round,
}
use ics_trafficgen.UserInput.Cache.{Remembers, writer-Remembers}
use ics_trafficgen.UserInput.Switching.{read_next}
use ics_trafficgen.UserInput.Schedule.{Event, writes, looks, Station, look, run_events, KeepsUp}

-- A round of a station that reads its next input from a log of all of them.
abbrev pub log_round : List String → Station → Option Station
log_round xs (s, loaded) =
    let s₁ = record s { local_lua_flag = s.local_lua_flag + 1 } in
    if str_eq s.lua_key_switch "" then some (s₁, loaded) else (do
      pressed ← get_elem? xs s.local_lua_flag
      if str_eq pressed s.lua_key_switch then load_next s₁ loaded else some (s₁, loaded))

abbrev pub log_look : List String → Station → Option Station
log_look xs (s, loaded) =
    if ltb s.local_lua_flag (length xs) then log_round xs (s, loaded) else some (s, loaded)

-- The same events, on a log.
abbrev pub run_log : List Event → List String → Station → Option Station
run_log [] xs s = some s
run_log (writes x ∷ es) xs s = run_log es (xs ++ x ∷ []) s
run_log (looks ∷ es) xs s = do s' ← log_look xs s; run_log es xs s'

switch_round_log :
    (xs : List String) (u : ThreadSafeUserInput) (s : Scripts) (loaded : List String)
    → Remembers xs u
    → length xs ≤ s.local_lua_flag + 10
    → switch_round u (s, loaded) ≡ log_round xs (s, loaded)
unfolding switch_round read_input_str
switch_round_log xs u s loaded r l =
    let s₁ = record s { local_lua_flag = s.local_lua_flag + 1 } in
    ap
      (λ o.
        if str_eq s.lua_key_switch ""
        then some (s₁, loaded)
        else (o >>= λ pressed.
            if str_eq pressed s.lua_key_switch then load_next s₁ loaded else some (s₁, loaded)))
      (read_next xs u s.local_lua_flag r l)

-- The station has seen `k` inputs.
abbrev HasSeen : ℕ → Station → Type 0
HasSeen k (s, loaded) = s.local_lua_flag ≡ k

load_next-HasSeen :
    (s : Scripts) (loaded : List String) → Returns (HasSeen s.local_lua_flag) (load_next s loaded)
unfolding load_next get_next_lua_file
load_next-HasSeen s loaded =
    Returns-always (HasSeen s.local_lua_flag) (get_next_lua_file s).1 _ (λ f. refl)

log_round-HasSeen :
    (xs : List String) (s : Scripts) (loaded : List String)
    → Returns (HasSeen (s.local_lua_flag + 1)) (log_round xs (s, loaded))
log_round-HasSeen xs s loaded =
    let s₁ : Scripts = record s { local_lua_flag = s.local_lua_flag + 1 } in
    let P : Option Station → Type 0 = Returns (HasSeen (s.local_lua_flag + 1)) in
    let read : String → Bool → Option Station =
      λ p b. if b then load_next s₁ loaded else some (s₁, loaded) in
    elim (Bool-cases (str_eq s.lua_key_switch "")) [
      | inl unset ↦
          subst
            (λ b. P (
              if b
              then some (s₁, loaded)
              else (get_elem? xs s.local_lua_flag >>= λ p. read p (str_eq p s.lua_key_switch))))
            (sym unset) refl
      | inr keyed ↦
          subst
            (λ b. P (
              if b
              then some (s₁, loaded)
              else (get_elem? xs s.local_lua_flag >>= λ p. read p (str_eq p s.lua_key_switch))))
            (sym keyed)
            (Returns-always (HasSeen (s.local_lua_flag + 1)) (get_elem? xs s.local_lua_flag) _ (λ p.
              elim (Bool-cases (str_eq p s.lua_key_switch)) [
                | inl hit ↦ subst (λ b. P (read p b)) (sym hit) (load_next-HasSeen s₁ loaded)
                | inr miss ↦ subst (λ b. P (read p b)) (sym miss) refl
              ]))
    ]

-- Steps of two machines that agree agree on the whole.
bind-same :
    {A B : Type 0} (P : A → Type 0) (m : Option A) (f g : A → Option B)
    → Returns P m
    → ((a : A) → P a → f a ≡ g a)
    → (m >>= f) ≡ (m >>= g)
bind-same P none f g r h = refl
bind-same P (some a) f g r h = h a r

bind_assoc :
    {A B C : Type 0} (m : Option A) (f : A → Option B) (g : B → Option C)
    → ((m >>= f) >>= g) ≡ (m >>= λ a. f a >>= g)
bind_assoc none f g = refl
bind_assoc (some a) f g = refl

-- What the station has come to, without the cache.
abbrev pub station_of : Option (ThreadSafeUserInput × Station) → Option Station
station_of o = o >>= λ r. some r.1

run_events-log :
    (es : List Event) (xs : List String) (u : ThreadSafeUserInput) (s : Scripts)
    (loaded : List String)
    → Remembers xs u
    → length xs ≤ s.local_lua_flag + 10
    → KeepsUp (length xs) s.local_lua_flag es
    → station_of (run_events es u (s, loaded)) ≡ run_log es xs (s, loaded)
unfolding run_events look
run_events-log [] xs u s loaded r l k = refl
run_events-log (writes x ∷ es) xs u s loaded r l k =
    let more : length xs + 1 ≡ length (xs ++ x ∷ []) = sym (length-append xs (x ∷ [])) in
    run_events-log es (xs ++ x ∷ []) (unconditional_writer x u) s loaded (writer-Remembers xs u r x)
      (omega (arith, more, k.0)) (subst (λ n. KeepsUp n s.local_lua_flag es) more k.1)
run_events-log (looks ∷ es) xs u s loaded r l k =
    let n = length xs in
    let flag = s.local_lua_flag in
    let onward : Option Station → Option Station =
      λ m. station_of (m >>= λ s'. run_events es u s') in
    let looked : Bool → Option Station =
      λ b. if b then switch_round u (s, loaded) else some (s, loaded) in
    let logged : Bool → Option Station =
      λ b. if b then log_round xs (s, loaded) else some (s, loaded) in
    let test : ltb flag u.current_count ≡ ltb flag n = ap (λ c. ltb flag c) r.counted in
    elim (Bool-cases (ltb flag n)) [
      | inl behind ↦
          let lt : flag < n = ground arith in
          let k₁ : KeepsUp n (flag + 1) es =
            subst (λ b. KeepsUp n (if b then flag + 1 else flag) es) behind k in
          ap (λ b. onward (looked b)) (test ∙ behind)
          ∙ ap onward (switch_round_log xs u s loaded r l)
          ∙ bind_assoc (log_round xs (s, loaded)) (λ s'. run_events es u s') (λ q. some q.1)
          ∙ bind-same (HasSeen (flag + 1)) (log_round xs (s, loaded)) _ (run_log es xs)
              (log_round-HasSeen xs s loaded)
              (λ q seen.
                run_events-log es xs u q.0 q.1 r (omega (arith, seen))
                  (subst (λ f. KeepsUp n f es) (sym seen) k₁))
          ∙ ap (λ b. logged b >>= run_log es xs) (sym behind)
      | inr current ↦
          let k₁ : KeepsUp n flag es =
            subst (λ b. KeepsUp n (if b then flag + 1 else flag) es) current k in
          ap (λ b. onward (looked b)) (test ∙ current)
          ∙ run_events-log es xs u s loaded r l k₁
          ∙ ap (λ b. logged b >>= run_log es xs) (sym current)
    ]

-- Let a station have seen no input, and let it have at most ten inputs still to see after each
-- write of the user. Then, for any order of writes and rounds, it comes from the cache to what it would
-- come to from a log that keeps all inputs: the same scripts loaded, or the same failure.
pub run_events-refines :
    (es : List Event) (s : Scripts)
    → s.local_lua_flag ≡ 0
    → KeepsUp 0 0 es
    → station_of (run_events es no_input (s, [])) ≡ run_log es [] (s, [])
run_events-refines es s none_seen up =
    run_events-log es [] no_input s []
      (record { counted = refl; keys = tt; size = refl; kept = λ k. ground arith }) (omega arith)
      (subst (λ f. KeepsUp 0 f es) (sym none_seen) up)
