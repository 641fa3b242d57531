-- ===== src/UserInput/Schedule/Progress.antt =====
-- A station that keeps looking catches up with the user.
use ics_trafficgen.Base.{
  ℕ, zero, suc, ◌+◌, ◌%◌, ◌≤◌, ◌<◌, String, List, [], ◌∷◌, ◌++◌, some, ltb, length, replicate,
  if◌then◌else◌, ◌≡◌, refl, sym, ap, ap₂, ◌∙◌, subst, arith, Bool-cases, inl, inr,
}
use ics_trafficgen.UserInput.{ThreadSafeUserInput, Scripts, no_input}
use ics_trafficgen.UserInput.Switching.{presses}
use ics_trafficgen.UserInput.Schedule.{
  Event, writes, looks, run_events, written, KeepsUp, seen, run_events_lem, ended,
}

KeepsUp-looks : (k n f : ℕ) → KeepsUp n f (replicate k looks)
KeepsUp-looks zero n f = tt
KeepsUp-looks (suc k) n f = KeepsUp-looks k n _

KeepsUp-append_looks :
    (k n f : ℕ) (es : List Event) → KeepsUp n f es → KeepsUp n f (es ++ replicate k looks)
KeepsUp-append_looks k n f [] h = KeepsUp-looks k n f
KeepsUp-append_looks k n f (writes x ∷ es) h = (h.0, KeepsUp-append_looks k (n + 1) f es h.1)
KeepsUp-append_looks k n f (looks ∷ es) h = KeepsUp-append_looks k n _ es h

written-append_looks : (k : ℕ) (es : List Event) → written (es ++ replicate k looks) ≡ written es
written-append_looks zero [] = refl
written-append_looks (suc k) [] = written-append_looks k []
written-append_looks k (writes x ∷ es) = ap (λ xs. x ∷ xs) (written-append_looks k es)
written-append_looks k (looks ∷ es) = written-append_looks k es

-- As many looks as there are inputs left see them all.
seen-looks : (k n f : ℕ) → f ≤ n → n ≤ f + k → f + seen n f (replicate k looks) ≡ n
seen-looks zero n f h l = omega arith
seen-looks (suc k) n f h l = elim (Bool-cases (ltb f n)) [
  | inl behind ↦
      let lt : f < n = ground arith in
      rw behind (omega (arith, seen-looks k n (f + 1) (omega arith) (omega arith)))
  | inr current ↦ let ge : n ≤ f = ground arith in rw current (seen-looks k n f h (omega arith))
]

seen-append_looks :
    (n f : ℕ) (es : List Event)
    → f ≤ n
    → n ≤ f + 10
    → KeepsUp n f es
    → f + seen n f (es ++ replicate 10 looks) ≡ n + length (written es)
seen-append_looks n f [] h l k = omega (arith, seen-looks 10 n f h l)
seen-append_looks n f (writes x ∷ es) h l k =
    omega (arith, seen-append_looks (n + 1) f es (omega arith) k.0 k.1)
seen-append_looks n f (looks ∷ es) h l k = elim (Bool-cases (ltb f n)) [
  | inl behind ↦
      let lt : f < n = ground arith in
      let k₁ : KeepsUp n (f + 1) es = subst (λ b. KeepsUp n (if b then f + 1 else f) es) behind k in
      rw behind (omega (arith, seen-append_looks n (f + 1) es (omega arith) (omega arith) k₁))
  | inr current ↦
      let k₁ : KeepsUp n f es = subst (λ b. KeepsUp n (if b then f + 1 else f) es) current k in
      rw current (seen-append_looks n f es h l k₁)
]

-- Let a station have scripts and an index that names one, and have seen no input. If after each
-- write of the user it has at most ten inputs still to see, then no round of its loop fails, and
-- ten further rounds without a write bring it to the last input: each press of its key among
-- all that was written has moved the index to the next script, and round to the first after the last.
pub run_events-catches_up :
    (es : List Event) (s : Scripts)
    → s.current_lua_file_index < length s.lua_file_names
    → s.local_lua_flag ≡ 0
    → KeepsUp 0 0 es
    → (u : ThreadSafeUserInput) × (loaded : List String) × (run_events
          (es ++ replicate 10 looks)
          no_input
          (s, [])
        ≡ some (
          u,
          (
            record s {
              current_lua_file_index =
                  (s.current_lua_file_index
                    + presses s.lua_key_switch (written es) 0 (length (written es)))
                  % length s.lua_file_names;
              local_lua_flag = length (written es);
            },
            loaded,
          ),
        ))
run_events-catches_up es s named none_seen up =
    let all = es ++ replicate 10 looks in
    let begun : Scripts = record s { local_lua_flag = 0 } in
    let same : begun ≡ s = ap (λ j. record s { local_lua_flag = j }) (sym none_seen) in
    let c =
      run_events_lem all [] no_input begun []
        (record { counted = refl; keys = tt; size = refl; kept = λ k. ground arith }) named
        (omega arith) (omega arith) (KeepsUp-append_looks 10 0 0 es up) in
    let count : seen 0 0 all ≡ length (written es) =
      omega (arith, seen-append_looks 0 0 es (omega arith) (omega arith) up) in
    (
      c.input,
      c.loaded,
      ap (λ t. run_events all no_input (t, [])) (sym same)
          ∙ c.run
          ∙ ap₂ (ended c.input s c.loaded)
              (ap (λ i. i % length s.lua_file_names)
                (ap₂ (λ xs k. s.current_lua_file_index + presses s.lua_key_switch xs 0 k)
                  (written-append_looks 10 es) count))
              (omega (arith, count)),
    )
