-- ===== src/UserInput/Switching.antt =====
-- The scripts that a station goes through as the user presses its key.
pub mod Returning
use native.Mathlib.Nat.{mod-add-mod, mod-eq_of_lt, mod_self}
use ics_trafficgen.Base.{
  ℕ, zero, suc, ◌+◌, ◌-◌, ◌%◌, ◌≤◌, ◌<◌, String, List, [], ◌∷◌, ◌++◌, Option, none, some, false,
  ltb, length, get_elem?, if◌then◌else◌, ◌≡◌, sym, ap, ap₂, ◌∙◌, subst, arith, str_eq,
  get_elem?_of_lt, Bool-cases, inl, inr, dec_lt,
}
use ics_trafficgen.UserInput.{
  ThreadSafeUserInput, Scripts, read_input_str, get_next_lua_file, load_next, switch_round,
  switch_rounds, switch_scripts, last_index, write_all, no_input,
}
use ics_trafficgen.UserInput.Keys.{lookup}
use ics_trafficgen.UserInput.Cache.{Remembers, remembered, write_all_lem}

-- How often the key is pressed among the `n` inputs after the first `from` ones. No input counts
-- for a station without a key.
abbrev pub presses : String → List String → ℕ → ℕ → ℕ
presses key xs from zero = 0
presses key xs from (suc n) =
    (if str_eq key ""
      then 0
      else elim (get_elem? xs from) [ none ↦ 0 | some p ↦ if str_eq p key then 1 else 0 ])
    + presses key xs (from + 1) n

next_index :
    (i n : ℕ)
    → i < n
    → ((if ltb i (last_index n) then i + 1 else 0) ≡ (i + 1) % n) × ((i + 1) % n < n)
next_index i zero h = elim h [ ]
next_index i (suc n) h = elim (dec_lt i n) [
  | yes inside ↦ (ground (arith, mod-eq_of_lt {n = i + 1} {m = suc n}), omega arith)
  | no last ↦
      let e : i + 1 ≡ suc n = omega arith in (rw (e, mod_self (suc n)) (ground arith), omega arith)
]

-- If the index of a station names one of its scripts, then the next one is one more, modulo the
-- number of scripts, and names a script too.
pub get_next_lua_file_lem :
    (s : Scripts)
    → s.current_lua_file_index < length s.lua_file_names
    → ((get_next_lua_file s).0 ≡ record s {
      current_lua_file_index = (s.current_lua_file_index + 1) % length s.lua_file_names;
    })
      × (file : String) × ((get_next_lua_file s).1 ≡ some file)
unfolding get_next_lua_file
get_next_lua_file_lem s h =
    let n = next_index s.current_lua_file_index (length s.lua_file_names) h in
    let (file, e) = get_elem?_of_lt s.lua_file_names _ n.1 in
    (ap (λ i. record s { current_lua_file_index = i }) n.0, file, rw n.0 e)

-- None of the last ten inputs is missing from the cache.
pub read_next :
    (xs : List String) (u : ThreadSafeUserInput) (k : ℕ)
    → Remembers xs u
    → length xs ≤ k + 10
    → lookup (k + 1) u.key_presses ≡ get_elem? xs k
read_next xs u k r h =
    let e : suc k ≡ k + 1 = omega arith in
    r.kept (k + 1) ∙ subst (λ j. remembered xs j ≡ get_elem? xs k) e held
  where
    held : remembered xs (suc k) ≡ get_elem? xs k
    held = ground arith

-- The others are, but for the first.
read_missed :
    (xs : List String) (u : ThreadSafeUserInput) (k : ℕ)
    → Remembers xs u
    → 0 < k
    → k + 10 < length xs
    → lookup (k + 1) u.key_presses ≡ none
read_missed xs u k r p h =
    let e : suc k ≡ k + 1 = omega arith in
    r.kept (k + 1) ∙ subst (λ j. remembered xs j ≡ none) e gone
  where
    gone : remembered xs (suc k) ≡ none
    gone = ground arith

pub switch_round_lem :
    (xs : List String) (u : ThreadSafeUserInput) (s : Scripts) (loaded : List String)
    → Remembers xs u
    → s.current_lua_file_index < length s.lua_file_names
    → s.local_lua_flag < length xs
    → length xs ≤ s.local_lua_flag + 10
    → (loaded' : List String) × (switch_round u (s, loaded)
        ≡ some (
          record s {
            current_lua_file_index =
                (s.current_lua_file_index + presses s.lua_key_switch xs s.local_lua_flag 1)
                % length s.lua_file_names;
            local_lua_flag = s.local_lua_flag + 1;
          },
          loaded',
        ))
unfolding switch_round load_next read_input_str
switch_round_lem xs u s loaded r h k l =
    let (p, e) = get_elem?_of_lt xs s.local_lua_flag k in
    let read = read_next xs u s.local_lua_flag r l ∙ e in
    let s₁ = record s { local_lua_flag = s.local_lua_flag + 1 } in
    let goes_on : List String → ℕ → Option (Scripts × List String) =
      λ l i. some (record s₁ { current_lua_file_index = i }, l) in
    let stay = mod-eq_of_lt h in
    let (next, file, named) = get_next_lua_file_lem s₁ h in
    elim (Bool-cases (str_eq s.lua_key_switch "")) [
      | inl unset ↦ (loaded, rw unset (ap (goes_on loaded) (ground (arith, stay))))
      | inr keyed ↦ elim (Bool-cases (str_eq p s.lua_key_switch)) [
        | inl hit ↦ (
          loaded ++ file ∷ [],
          rw (keyed, read, hit, e)
              (rw (next, named) (ap (goes_on (loaded ++ file ∷ [])) (ground arith))),
        )
        | inr miss ↦
            (loaded, rw (keyed, read, miss, e) (ap (goes_on loaded) (ground (arith, stay))))
      ]
    ]

abbrev pub stopped : Scripts → List String → ℕ → ℕ → Option (Scripts × List String)
stopped s loaded i j = some (record s { current_lua_file_index = i; local_lua_flag = j }, loaded)

switch_rounds_lem :
    (n : ℕ) (xs : List String) (u : ThreadSafeUserInput) (s : Scripts) (loaded : List String)
    → Remembers xs u
    → s.current_lua_file_index < length s.lua_file_names
    → s.local_lua_flag + n ≤ length xs
    → length xs ≤ s.local_lua_flag + 10
    → (loaded' : List String) × (switch_rounds n u (s, loaded)
        ≡ some (
          record s {
            current_lua_file_index =
                (s.current_lua_file_index + presses s.lua_key_switch xs s.local_lua_flag n)
                % length s.lua_file_names;
            local_lua_flag = s.local_lua_flag + n;
          },
          loaded',
        ))
unfolding switch_rounds
switch_rounds_lem zero xs u s loaded r h k l =
    (loaded, ap₂ (stopped s loaded) (sym (ground (arith, mod-eq_of_lt h))) (omega arith))
switch_rounds_lem (suc n) xs u s loaded r h k l =
    let (loaded₁, e) = switch_round_lem xs u s loaded r h (omega arith) l in
    let s₁ : Scripts = record s {
      current_lua_file_index =
          (s.current_lua_file_index + presses s.lua_key_switch xs s.local_lua_flag 1)
          % length s.lua_file_names;
      local_lua_flag = s.local_lua_flag + 1;
    } in
    let (loaded₂, e₂) =
      switch_rounds_lem n xs u s₁ loaded₁ r (omega arith) (omega arith) (omega arith) in
    (
      loaded₂,
      rw (e, e₂)
          (ap₂ (stopped s loaded₂)
            (mod-add-mod (s.current_lua_file_index + presses s.lua_key_switch xs s.local_lua_flag 1)
                (length s.lua_file_names) (presses s.lua_key_switch xs (s.local_lua_flag + 1) n)
              ∙ ap (λ x. x % length s.lua_file_names) (omega arith))
            (omega arith)),
    )

-- Let a station have scripts, an index that names one, and at most ten of the user's inputs still
-- to see. Then the loop ends, with all inputs seen; each press of the station's key among them has
-- moved the index to the next script, and round to the first after the last.
pub switch_scripts_lem :
    (xs : List String) (s : Scripts)
    → s.current_lua_file_index < length s.lua_file_names
    → s.local_lua_flag ≤ length xs
    → length xs ≤ s.local_lua_flag + 10
    → (loaded : List String) × (switch_scripts (write_all xs no_input) s
        ≡ some (
          record s {
            current_lua_file_index =
                (s.current_lua_file_index
                  + presses s.lua_key_switch xs s.local_lua_flag (length xs - s.local_lua_flag))
                % length s.lua_file_names;
            local_lua_flag = length xs;
          },
          loaded,
        ))
unfolding switch_scripts
switch_scripts_lem xs s h k l =
    let r = write_all_lem xs in
    let n = length xs - s.local_lua_flag in
    let (loaded, e) = switch_rounds_lem n xs (write_all xs no_input) s [] r h (omega arith) l in
    let all : s.local_lua_flag + n ≡ length xs = omega arith in
    (
      loaded,
      ap (λ c. switch_rounds (c - s.local_lua_flag) (write_all xs no_input) (s, [])) r.counted
          ∙ e
          ∙ ap (stopped s loaded _) all,
    )

-- A station with a key that has fallen more than ten inputs behind, past the first, finds that
-- the next input is gone, and the loop fails on it.
pub switch_scripts-behind :
    (xs : List String) (s : Scripts)
    → str_eq s.lua_key_switch "" ≡ false
    → 0 < s.local_lua_flag
    → s.local_lua_flag + 10 < length xs
    → switch_scripts (write_all xs no_input) s ≡ none
unfolding switch_scripts switch_rounds switch_round read_input_str
switch_scripts-behind xs s keyed some_seen behind =
    let r = write_all_lem xs in
    let n = length xs - s.local_lua_flag in
    let more : n ≡ suc (n - 1) = omega arith in
    let gone = read_missed xs (write_all xs no_input) s.local_lua_flag r some_seen behind in
    rw (r.counted, more, keyed, gone)
