-- ===== src/UserInput/Schedule.antt =====
-- The user's writes and the rounds of one station's loop, in any order: `unconditionalWriter` and
-- `readInputStr` hold the mutex, and the count that a round has tested can only have grown since.
pub mod Progress
pub mod Log
use native.Mathlib.Nat.{mod-add-mod, mod-eq_of_lt}
use ics_trafficgen.Base.{
  ℕ, zero, suc, ◌+◌, ◌-◌, ◌%◌, ◌≤◌, ◌<◌, String, List, [], ◌∷◌, ◌++◌, Option, none, some, Bool,
  true, false, ltb, length, get_elem?, replicate, if◌then◌else◌, ◌>>=◌, ◌≡◌, refl, sym, ap, ap₂,
  ◌∙◌, subst, arith, str_eq, length-append, append_assoc, append-nil, get_elem?_of_lt, Bool-cases,
  inl, inr,
}
use ics_trafficgen.UserInput.{ThreadSafeUserInput, Scripts, unconditional_writer, switch_round}
use ics_trafficgen.UserInput.Cache.{Remembers, writer-Remembers}
use ics_trafficgen.UserInput.Switching.{presses, switch_round_lem, stopped}

pub data Event : Type 0 where
  writes : String → Event
  looks : Event

-- What the station has come to: its scripts, and those it has loaded.
abbrev pub Station : Type 0
Station = Scripts × List String

-- `if (luaSwitchObj.readCount() > localLuaFlag)`, and then a round
unfoldable pub look : ThreadSafeUserInput → Station → Option Station
look u (s, loaded) =
    if ltb s.local_lua_flag u.current_count then switch_round u (s, loaded) else some (s, loaded)

unfoldable pub run_events :
    List Event → ThreadSafeUserInput → Station → Option (ThreadSafeUserInput × Station)
run_events [] u s = some (u, s)
run_events (writes x ∷ es) u s = run_events es (unconditional_writer x u) s
run_events (looks ∷ es) u s = do s' ← look u s; run_events es u s'

-- The inputs that are written.
abbrev pub written : List Event → List String
written [] = []
written (writes x ∷ es) = x ∷ written es
written (looks ∷ es) = written es

-- Of `n` inputs the station has seen `f`. After no write has it more than ten still to see.
abbrev pub KeepsUp : ℕ → ℕ → List Event → Type 0
KeepsUp n f [] = Unit
KeepsUp n f (writes x ∷ es) = (n + 1 ≤ f + 10) × KeepsUp (n + 1) f es
KeepsUp n f (looks ∷ es) = KeepsUp n (if ltb f n then f + 1 else f) es

-- The number of inputs that the station sees.
abbrev pub seen : ℕ → ℕ → List Event → ℕ
seen n f [] = 0
seen n f (writes x ∷ es) = seen (n + 1) f es
seen n f (looks ∷ es) =
    let rest = seen n (if ltb f n then f + 1 else f) es in if ltb f n then 1 + rest else rest

get_elem?-append_left :
    {A : Type 0} (xs ys : List A) (i : ℕ) → i < length xs → get_elem? (xs ++ ys) i ≡ get_elem? xs i
get_elem?-append_left [] ys i h = elim h [ ]
get_elem?-append_left (x ∷ xs) ys zero h = refl
get_elem?-append_left (x ∷ xs) ys (suc i) h = get_elem?-append_left xs ys i (omega arith)

presses-one :
    (key : String) (xs ys : List String) (from : ℕ)
    → from < length xs
    → presses key (xs ++ ys) from 1 ≡ presses key xs from 1
presses-one key xs ys from h = rw (get_elem?-append_left xs ys from h) refl

-- What holds of the station and the cache after events: the station has seen `k` more of all the
-- inputs, and each press of its key among them has moved the index on.
pub record Caught (all : List String) (s : Scripts) (k : ℕ)
    (o : Option (ThreadSafeUserInput × Station)) : Type 0 where
  pub input : ThreadSafeUserInput
  pub loaded : List String
  pub run :
      o
      ≡ some (
        input,
        (
          record s {
            current_lua_file_index =
                (s.current_lua_file_index + presses s.lua_key_switch all s.local_lua_flag k)
                % length s.lua_file_names;
            local_lua_flag = s.local_lua_flag + k;
          },
          loaded,
        ),
      )
  pub remembers : Remembers all input

abbrev pub ended :
    ThreadSafeUserInput → Scripts → List String → ℕ → ℕ → Option (ThreadSafeUserInput × Station)
ended u s loaded i j =
    some (u, (record s { current_lua_file_index = i; local_lua_flag = j }, loaded))

-- Of one more input seen.
Caught-suc :
    (xs more : List String) (s : Scripts) (k : ℕ) (o : Option (ThreadSafeUserInput × Station))
    → s.local_lua_flag < length xs
    → Caught
        (xs ++ more)
        (record s {
          current_lua_file_index =
              (s.current_lua_file_index + presses s.lua_key_switch xs s.local_lua_flag 1)
              % length s.lua_file_names;
          local_lua_flag = s.local_lua_flag + 1;
        })
        k
        o
    → Caught (xs ++ more) s (1 + k) o
Caught-suc xs more s k o h c =
    let key = s.lua_key_switch in
    let from = s.local_lua_flag in
    let all = xs ++ more in
    let later = presses key all (from + 1) k in
    let first : presses key xs from 1 ≡ presses key all from 1 =
      sym (presses-one key xs more from h) in
    let next : suc k ≡ 1 + k = omega arith in
    record {
      input = c.input;
      loaded = c.loaded;
      run =
          c.run
          ∙ ap₂ (ended c.input s c.loaded)
              (mod-add-mod (s.current_lua_file_index + presses key xs from 1)
                  (length s.lua_file_names) later
                ∙ ap (λ x. x % length s.lua_file_names) (omega (arith, first))
                ∙ ap
                    (λ j.
                      (s.current_lua_file_index + presses key all from j) % length s.lua_file_names)
                    next)
              (omega arith);
      remembers = c.remembers;
    }

pub run_events_lem :
    (es : List Event) (xs : List String) (u : ThreadSafeUserInput) (s : Scripts)
    (loaded : List String)
    → Remembers xs u
    → s.current_lua_file_index < length s.lua_file_names
    → s.local_lua_flag ≤ length xs
    → length xs ≤ s.local_lua_flag + 10
    → KeepsUp (length xs) s.local_lua_flag es
    → Caught
        (xs ++ written es)
        s
        (seen (length xs) s.local_lua_flag es)
        (run_events es u (s, loaded))
unfolding run_events look
run_events_lem [] xs u s loaded r i f l k = record {
  input = u;
  loaded = loaded;
  run = ap₂ (ended u s loaded) (sym (ground (arith, mod-eq_of_lt i))) (omega arith);
  remembers = rw append-nil r;
}
run_events_lem (writes x ∷ es) xs u s loaded r i f l k =
    let more : length xs + 1 ≡ length (xs ++ x ∷ []) = sym (length-append xs (x ∷ [])) in
    let c =
      run_events_lem es (xs ++ x ∷ []) (unconditional_writer x u) s loaded
        (writer-Remembers xs u r x) i (omega (arith, more)) (omega (arith, more, k.0))
        (subst (λ n. KeepsUp n s.local_lua_flag es) more k.1) in
    let o = run_events es (unconditional_writer x u) (s, loaded) in
    subst (λ n. Caught (xs ++ x ∷ written es) s (seen n s.local_lua_flag es) o) (sym more)
      (subst (λ all. Caught all s (seen (length (xs ++ x ∷ [])) s.local_lua_flag es) o)
        (append_assoc xs (x ∷ []) (written es)) c)
run_events_lem (looks ∷ es) xs u s loaded r i f l k =
    let all = xs ++ written es in
    let n = length xs in
    let flag = s.local_lua_flag in
    let rest : Bool → ℕ = λ b. seen n (if b then flag + 1 else flag) es in
    let counted : Bool → ℕ = λ b. if b then 1 + rest b else rest b in
    let onward : Option Station → Option (ThreadSafeUserInput × Station) =
      λ m. m >>= λ s'. run_events es u s' in
    let looked : Bool → Option Station =
      λ b. if b then switch_round u (s, loaded) else some (s, loaded) in
    let test : ltb flag u.current_count ≡ ltb flag n = ap (λ c. ltb flag c) r.counted in
    let Goal : Bool → Type 0 =
      λ b. Caught all s (counted b) (onward (looked (ltb flag u.current_count))) in
    elim (Bool-cases (ltb flag n)) [
      | inl behind ↦
          let lt : flag < n = ground arith in
          let (loaded₁, e) = switch_round_lem xs u s loaded r i lt l in
          let s₁ : Scripts = record s {
            current_lua_file_index =
                (s.current_lua_file_index + presses s.lua_key_switch xs flag 1)
                % length s.lua_file_names;
            local_lua_flag = flag + 1;
          } in
          let named : s₁.current_lua_file_index < length s.lua_file_names = omega arith in
          let ends : onward (looked (ltb flag u.current_count)) ≡ run_events es u (s₁, loaded₁) =
            ap (λ b. onward (looked b)) (test ∙ behind) ∙ ap onward e in
          let c =
            run_events_lem es xs u s₁ loaded₁ r named (omega arith) (omega arith)
              (subst (λ b. KeepsUp n (if b then flag + 1 else flag) es) behind k) in
          subst Goal (sym behind) (
            subst (Caught all s (counted true)) (sym ends)
              (Caught-suc xs (written es) s (rest true) _ lt c))
      | inr current ↦
          let ends : onward (looked (ltb flag u.current_count)) ≡ run_events es u (s, loaded) =
            ap (λ b. onward (looked b)) (test ∙ current) in
          let c =
            run_events_lem es xs u s loaded r i f l
              (subst (λ b. KeepsUp n (if b then flag + 1 else flag) es) current k) in
          subst Goal (sym current) (subst (Caught all s (counted false)) (sym ends) c)
    ]
