-- ===== src/UserInput/Cache.antt =====
-- Which inputs the cache of `ThreadSafeUserInput` still holds.
use ics_trafficgen.Base.{
  ℕ, zero, suc, ◌+◌, ◌-◌, ◌≤◌, ◌<◌, String, List, [], ◌∷◌, ◌++◌, Option, none, some, ◌&&◌, ◌||◌,
  ltb, leb, ◌==◌, length, get_elem?, if◌then◌else◌, ◌≡◌, refl, sym, ◌∙◌, subst, arith, dec_lt,
  length-append, append_assoc, append-nil, get_elem?_of_lt, get_elem?_of_ge,
}
use Prim.Native.Nat.{min}
use ics_trafficgen.UserInput.{ThreadSafeUserInput, no_input, unconditional_writer, write_all}
use ics_trafficgen.UserInput.Keys.{
  lookup, has_key, erase, Unique, lookup-erase, erase_missing, erase-Unique, length-erase,
  has_key_of_lookup,
}

-- The input of number `k`, counted from 1, if it is the first or one of the last ten.
abbrev pub remembered : List String → ℕ → Option String
remembered xs zero = none
remembered xs (suc j) = if j == 0 || ltb (length xs) (suc j + 10) then get_elem? xs j else none

pub record Remembers (xs : List String) (u : ThreadSafeUserInput) : Type 0 where
  pub counted : u.current_count ≡ length xs
  pub keys : Unique u.key_presses
  pub size : length u.key_presses ≡ min (length xs) 11
  pub kept : (k : ℕ) → lookup k u.key_presses ≡ remembered xs k

get_elem?-snoc :
    (xs : List String) (s : String) (j : ℕ)
    → get_elem? (xs ++ s ∷ []) j ≡ (if j == length xs then some s else get_elem? xs j)
get_elem?-snoc [] s zero = refl
get_elem?-snoc [] s (suc j) = ground arith
get_elem?-snoc (x ∷ xs) s zero = ground arith
get_elem?-snoc (x ∷ xs) s (suc j) = get_elem?-snoc xs s j ∙ ground arith

-- What the writer's `erase` leaves: a full cache drops the input ten before the new one.
abbrev after_erase : List String → ℕ → Option String
after_erase xs k = if ltb 10 (length xs) && (k == length xs + 1 - 10) then none else remembered xs k

remembered-snoc :
    (xs : List String) (s : String) (k : ℕ)
    → remembered (xs ++ s ∷ []) k ≡ (if k == length xs + 1 then some s else after_erase xs k)
remembered-snoc xs s zero = ground arith
remembered-snoc xs s (suc j) =
    ground (arith, get_elem?-snoc xs s j, length-append xs (s ∷ []), get_elem?_of_ge xs j)

module _ (xs : List String) (u : ThreadSafeUserInput) (r : Remembers xs u) where
  -- the entries that are left before the new one is put in
  abbrev trimmed : List (ℕ × String)
  trimmed =
      if ltb 10 (length u.key_presses)
        && leb 10 (u.current_count + 1)
        && has_key (u.current_count + 1 - 10) u.key_presses
      then erase (u.current_count + 1 - 10) u.key_presses
      else u.key_presses

  oldest : 10 < length xs → (s : String) × (lookup (length xs + 1 - 10) u.key_presses ≡ some s)
  oldest h =
      let (s, e) = get_elem?_of_lt xs (length xs - 10) (omega arith) in
      (s, r.kept (length xs + 1 - 10) ∙ found s e)
    where
      found :
          (s : String)
          → get_elem? xs (length xs - 10) ≡ some s
          → remembered xs (length xs + 1 - 10) ≡ some s
      found s e =
          let k : length xs + 1 - 10 ≡ suc (length xs - 10) = omega arith in rw k (ground arith)

  trimmed_lem :
      (10 < length xs → trimmed ≡ erase (length xs + 1 - 10) u.key_presses)
      × (length xs ≤ 10 → trimmed ≡ u.key_presses)
  trimmed_lem = (
    (λ h.
        let (s, e) = oldest h in
        let k = has_key_of_lookup (length xs + 1 - 10) u.key_presses s e in
        let c = r.counted in let z = r.size in rw c (ground arith)),
    λ h. let z = r.size in ground arith,
  )

  -- The entries left: all but the oldest of a full cache.
  trimmed-Unique : Unique trimmed
  trimmed-Unique = elim (dec_lt 10 (length xs)) [
    | yes full ↦ rw (trimmed_lem.0 full) (erase-Unique _ u.key_presses r.keys)
    | no room ↦ rw (trimmed_lem.1 (omega arith)) r.keys
  ]

  trimmed-size : length trimmed ≡ min (length xs) 10
  trimmed-size = elim (dec_lt 10 (length xs)) [
    | yes full ↦
        let (s, e) = oldest full in
        rw (trimmed_lem.0 full)
          (omega (arith, length-erase (length xs + 1 - 10) u.key_presses r.keys e, r.size))
    | no room ↦ rw (trimmed_lem.1 (omega arith)) (omega (arith, r.size))
  ]

  trimmed-kept : (k : ℕ) → lookup k trimmed ≡ after_erase xs k
  trimmed-kept k = elim (dec_lt 10 (length xs)) [
    | yes full ↦
        rw (trimmed_lem.0 full, lookup-erase (length xs + 1 - 10) k u.key_presses, r.kept k)
          (ground arith)
    | no room ↦ rw (trimmed_lem.1 (omega arith), r.kept k) (ground arith)
  ]

  fresh : lookup (u.current_count + 1) trimmed ≡ none
  fresh =
      trimmed-kept (u.current_count + 1)
      ∙ subst (λ n. after_erase xs (n + 1) ≡ none) (sym r.counted) unseen
    where
      unseen : after_erase xs (length xs + 1) ≡ none
      unseen =
          let k : length xs + 1 ≡ suc (length xs) = omega arith in
          rw k (ground (arith, get_elem?_of_ge xs (length xs)))

  pub writer-Remembers : (s : String) → Remembers (xs ++ s ∷ []) (unconditional_writer s u)
  unfolding unconditional_writer
  writer-Remembers s =
      let gone : erase (u.current_count + 1) trimmed ≡ trimmed = erase_missing _ trimmed fresh in
      record {
        counted = omega (arith, length-append xs (s ∷ []), r.counted);
        keys = rw gone (fresh, trimmed-Unique);
        size = rw gone (omega (arith, length-append xs (s ∷ []), trimmed-size));
        kept =
            λ k. rw gone (rw (remembered-snoc xs s k) (ground (arith, trimmed-kept k, r.counted)));
      }

write_all-Remembers :
    (ss xs : List String) (u : ThreadSafeUserInput)
    → Remembers xs u
    → Remembers (xs ++ ss) (write_all ss u)
unfolding write_all
write_all-Remembers [] xs u r = rw append-nil r
write_all-Remembers (s ∷ ss) xs u r =
    rw (← append_assoc xs (s ∷ []) ss)
      (write_all-Remembers ss (xs ++ s ∷ []) _ (writer-Remembers xs u r s))

-- After any inputs from the start, the cache holds the first input and the last ten, so at most
-- eleven, under their numbers; reading any other number finds nothing. The count is that of the
-- inputs.
pub write_all_lem : (ss : List String) → Remembers ss (write_all ss no_input)
write_all_lem ss =
    write_all-Remembers ss [] no_input
      (record { counted = refl; keys = tt; size = refl; kept = λ k. ground arith })
