-- ===== src/UserInput/Switching/Returning.antt =====
-- Where the change of scripts returns, however far behind the station was, it has seen all inputs and
-- has an index that names a script.
use ics_trafficgen.Base.{
  ℕ, zero, suc, ◌+◌, ◌-◌, ◌≤◌, ◌<◌, String, List, [], ◌∷◌, ◌++◌, Option, none, some, Bool, true,
  false, length, get_elem?, lt_of_get_elem?, ltb, str_eq, ◌>>=◌, if◌then◌else◌, ◌≡◌, refl, subst,
  arith, Returns, Returns-then, Returns-always,
}
use ics_trafficgen.UserInput.{
  ThreadSafeUserInput, Scripts, last_index, get_next_lua_file, load_next, switch_round,
  switch_rounds, switch_scripts, read_input_str,
}

-- The index names a script, and `n` inputs have been seen.
abbrev HasSeen : ℕ → Scripts → Type 0
HasSeen n s = (s.current_lua_file_index < length s.lua_file_names) × (s.local_lua_flag ≡ n)

abbrev Seen : ℕ → Scripts × List String → Type 0
Seen n r = HasSeen n r.0

Returns-if :
    {A : Type 0} (P : A → Type 0) (b : Bool) (x y : Option A)
    → Returns P x
    → Returns P y
    → Returns P (if b then x else y)
Returns-if P true x y h k = h
Returns-if P false x y h k = k

load_next-Seen :
    (s : Scripts) (loaded : List String) → Returns (Seen s.local_lua_flag) (load_next s loaded)
unfolding load_next get_next_lua_file
load_next-Seen s loaded =
    let i =
      if ltb s.current_lua_file_index (last_index (length s.lua_file_names))
      then s.current_lua_file_index + 1
      else 0 in
    found (get_elem? s.lua_file_names i) refl
  where
    found :
        (o : Option String)
        → get_elem? s.lua_file_names (
            if ltb s.current_lua_file_index (last_index (length s.lua_file_names))
            then s.current_lua_file_index + 1
            else 0)
          ≡ o
        → Returns
            (Seen s.local_lua_flag)
            (o >>= λ f. some ((get_next_lua_file s).0, loaded ++ f ∷ []))
    found none e = tt
    found (some f) e = (lt_of_get_elem? s.lua_file_names _ e, refl)

switch_round-Seen :
    (u : ThreadSafeUserInput) (s : Scripts) (loaded : List String)
    → s.current_lua_file_index < length s.lua_file_names
    → Returns (Seen (s.local_lua_flag + 1)) (switch_round u (s, loaded))
unfolding switch_round
switch_round-Seen u s loaded named =
    Returns-if (Seen (s.local_lua_flag + 1)) (str_eq s.lua_key_switch "") _ _ (named, refl)
      (Returns-always (Seen (s.local_lua_flag + 1)) (read_input_str (s.local_lua_flag + 1) u) _
        (λ pressed.
          Returns-if (Seen (s.local_lua_flag + 1)) (str_eq pressed s.lua_key_switch) _ _
            (load_next-Seen (record s { local_lua_flag = s.local_lua_flag + 1 }) loaded)
            (named, refl)))

switch_rounds-Seen :
    (n : ℕ) (u : ThreadSafeUserInput) (s : Scripts) (loaded : List String)
    → s.current_lua_file_index < length s.lua_file_names
    → Returns (Seen (s.local_lua_flag + n)) (switch_rounds n u (s, loaded))
unfolding switch_rounds
switch_rounds-Seen zero u s loaded named = (named, omega arith)
switch_rounds-Seen (suc n) u s loaded named =
    Returns-then (Seen (s.local_lua_flag + 1)) (Seen (s.local_lua_flag + suc n))
      (switch_round u (s, loaded)) _ (switch_round-Seen u s loaded named)
      (λ r h.
        let e : r.0.local_lua_flag + n ≡ s.local_lua_flag + suc n = let k = h.1 in omega arith in
        subst (λ k. Returns (Seen k) (switch_rounds n u r)) e (switch_rounds-Seen n u r.0 r.1 h.0))

pub switch_scripts-Seen :
    (u : ThreadSafeUserInput) (s : Scripts)
    → s.current_lua_file_index < length s.lua_file_names
    → s.local_lua_flag ≤ u.current_count
    → Returns
        (λ r.
          (r.0.current_lua_file_index < length r.0.lua_file_names)
          × (r.0.local_lua_flag ≡ u.current_count))
        (switch_scripts u s)
unfolding switch_scripts
switch_scripts-Seen u s named seen =
    let e : s.local_lua_flag + (u.current_count - s.local_lua_flag) ≡ u.current_count =
      omega arith in
    subst (λ k. Returns (Seen k) (switch_rounds (u.current_count - s.local_lua_flag) u (s, []))) e
      (switch_rounds-Seen (u.current_count - s.local_lua_flag) u s [] named)
