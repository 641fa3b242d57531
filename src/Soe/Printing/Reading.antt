-- ===== src/Soe/Printing/Reading.antt =====
-- The console's text, read back: each measurement of a printed batch has its line, and the line has
-- the measurement's index as its first number.
use ics_trafficgen.Base.{
  ℕ, List, [], ◌∷◌, ◌++◌, Bool, true, false, ◌==◌, if◌then◌else◌, ◌≡◌, refl, sym, ap, ◌∙◌, subst,
  arith, map, All, All-append, codes, append-nil, length,
}
use ics_trafficgen.Decimal.{
  is_digit, print, scan, NoDigit, scan-print, digits-digit, digits-cons, print-avoids,
}
use ics_trafficgen.StringUtilities.{split, joined, Avoids, split-lines}
use ics_trafficgen.Soe.{Indexed}
use ics_trafficgen.Soe.Printing.{
  Texts, Flagged, Printed, TimeAndInterval, CommandEvent, SecurityStat, print_all, print_flagged,
  bool_to_string, sep, bracketed, octet_string_line, time_and_interval_line, command_event_line,
  security_stat_line, dnp_time_line, process_printed, double_bit_binaries, frozen_counters,
  binary_output_statuses, analog_output_statuses, octet_strings, time_and_intervals,
  binary_command_events, analog_command_events, security_stats, dnp_times,
}

-- The number at the first digit of a line.
pub first_number : List ℕ → ℕ
first_number [] = 0
first_number (c ∷ cs) =
    let further = first_number cs in if is_digit c then (scan 0 (c ∷ cs)).0 else further

pub Avoids-print : (n : ℕ) → Avoids b'\n' (print n)
Avoids-print n = print-avoids b'\n' n refl

first_number-print : (n : ℕ) (rest : List ℕ) → NoDigit rest → first_number (print n ++ rest) ≡ n
unfolding first_number print
first_number-print n rest h =
    let (c, cs, e) = digits-cons n n in
    let d : is_digit c ≡ true =
      (subst (All (λ c. is_digit c ≡ true)) e (digits-digit n n (omega arith))).0 in
    let s : scan 0 (c ∷ (cs ++ rest)) ≡ (n, rest) =
      subst (λ l. scan 0 (l ++ rest) ≡ (n, rest)) e (scan-print n rest h) in
    rw (e, d) (ap (λ p. p.0) s)

first_number-skip :
    (l rest : List ℕ)
    → All (λ c. is_digit c ≡ false) l
    → first_number (l ++ rest) ≡ first_number rest
unfolding first_number
first_number-skip [] rest h = refl
first_number-skip (c ∷ l) rest h = rw h.0 (first_number-skip l rest h.1)

-- A line without an end of line in it, with `key` as its first number.
abbrev LineOf : ℕ → List ℕ → Type 0
LineOf key l = (first_number l ≡ key) × Avoids b'\n' l

LineOf-bracketed : (i : ℕ) (rest : List ℕ) → Avoids b'\n' rest → LineOf i (bracketed i rest)
LineOf-bracketed i rest h = (
  first_number-skip (b'[' ∷ []) (print i ++ b']' ∷ rest) (refl, tt)
      ∙ first_number-print i (b']' ∷ rest) refl,
  (refl, All-append (λ c. (c == b'\n') ≡ false) (print i) (b']' ∷ rest) (Avoids-print i) (refl, h)),
)

LineOf-after :
    (name l : List ℕ) (key : ℕ)
    → All (λ c. is_digit c ≡ false) name
    → Avoids b'\n' name
    → LineOf key l
    → LineOf key (name ++ l)
LineOf-after name l key d a h =
    (first_number-skip name l d ∙ h.0, All-append (λ c. (c == b'\n') ≡ false) name l a h.1)

module _ {A : Type 0} (line : A → List ℕ) (key : A → ℕ)
    (lines : (a : A) → LineOf (key a) (line a)) where
  joined_lines : (xs : List A) → print_all line xs ≡ joined b'\n' (map line xs) []
  unfolding print_all
  joined_lines [] = refl
  joined_lines (x ∷ xs) = ap (λ l. line x ++ b'\n' ∷ l) (joined_lines xs)

  keys_of_lines : (xs : List A) → map first_number (map line xs) ≡ map key xs
  keys_of_lines [] = refl
  keys_of_lines (x ∷ xs) = rw (lines x).0 (ap (◌∷◌ (key x)) (keys_of_lines xs))

  avoid : (xs : List A) → All (Avoids b'\n') (map line xs)
  avoid [] = tt
  avoid (x ∷ xs) = ((lines x).1, avoid xs)

  read_print_all : (xs : List A) → map first_number (split b'\n' (print_all line xs)) ≡ map key xs
  read_print_all xs =
      ap (λ t. map first_number (split b'\n' t)) (joined_lines xs)
      ∙ ap (map first_number) (split-lines b'\n' (map line xs) (avoid xs))
      ∙ keys_of_lines xs

-- Texts without an end of line, one after the other.
both : (a b : List ℕ) → Avoids b'\n' a → Avoids b'\n' b → Avoids b'\n' (a ++ b)
both a b h k = All-append (λ c. (c == b'\n') ≡ false) a b h k

Avoids-sep : Avoids b'\n' sep
Avoids-sep = ground arith

after_sep : (a : List ℕ) → Avoids b'\n' a → Avoids b'\n' (sep ++ a)
after_sep a h = both sep a Avoids-sep h

pub Avoids-bool_to_string : (b : Bool) → Avoids b'\n' (bool_to_string b)
Avoids-bool_to_string true = ground arith
Avoids-bool_to_string false = ground arith

flagged_line :
    {V : Type 0} (show : V → List ℕ)
    → ((v : V) → Avoids b'\n' (show v))
    → (f : Flagged V) → LineOf f.meas.index (print_flagged show f)
flagged_line show h f = LineOf-bracketed f.meas.index _ (
    after_sep _ (
      both (show f.meas.value) _ (h f.meas.value) (
        after_sep _ (
          both (print f.flags) _ (Avoids-print f.flags) (after_sep _ (Avoids-print f.meas.time))))))

-- The texts that opendnp3 and the streams give are on one line.
pub record IsOneLine {D : Type 0} (tx : Texts D) : Type 0 where
  pub doubles : (d : D) → Avoids b'\n' (tx.of_double d)
  pub double_bits : (b : tx.DoubleBit) → Avoids b'\n' (tx.double_bit_to_string b)
  pub units : (u : tx.IntervalUnits) → Avoids b'\n' (tx.interval_units_to_string u)
  pub statuses : (s : tx.CommandStatus) → Avoids b'\n' (tx.command_status_to_string s)

module _ {D : Type 0} (tx : Texts D) where
  -- The index of each measurement; of a DNPTime, which has none, the time.
  abbrev pub keys_of : Printed tx → List ℕ
  keys_of (double_bit_binaries ms) = map (λ f. f.meas.index) ms
  keys_of (frozen_counters ms) = map (λ f. f.meas.index) ms
  keys_of (binary_output_statuses ms) = map (λ f. f.meas.index) ms
  keys_of (analog_output_statuses ms) = map (λ f. f.meas.index) ms
  keys_of (octet_strings ms) = map (λ m. m.index) ms
  keys_of (time_and_intervals ms) = map (λ m. m.index) ms
  keys_of (binary_command_events ms) = map (λ m. m.index) ms
  keys_of (analog_command_events ms) = map (λ m. m.index) ms
  keys_of (security_stats ms) = map (λ m. m.index) ms
  keys_of (dnp_times ts) = map (λ t. t) ts

module _ {D : Type 0} (tx : Texts D) (one : IsOneLine tx) where
  event_line :
      {V : Type 0} (name : List ℕ) (show : V → List ℕ)
      → All (λ c. is_digit c ≡ false) name
      → Avoids b'\n' name
      → ((v : V) → Avoids b'\n' (show v))
      → (m : Indexed (CommandEvent V tx.CommandStatus))
      → LineOf m.index (command_event_line tx name show m)
  event_line name show d a h m = LineOf-after name _ m.index d a (
      LineOf-bracketed m.index _ (
        after_sep _ (
          both (print m.time) _ (Avoids-print m.time) (
            after_sep _ (
              both (show m.value.value) _ (h m.value.value)
                (after_sep _ (one.statuses m.value.status)))))))

  time_line :
      (m : Indexed (TimeAndInterval tx.IntervalUnits))
      → LineOf m.index (time_and_interval_line tx m)
  time_line m = LineOf-after (codes "TimeAndInterval: ") _ m.index (ground arith) (ground arith) (
      LineOf-bracketed m.index _ (
        after_sep _ (
          both (print m.time) _ (Avoids-print m.time) (
            after_sep _ (
              both (print m.value.interval) _ (Avoids-print m.value.interval)
                (after_sep _ (one.units m.value.units)))))))

  octet_line : (m : Indexed (List ℕ)) → LineOf m.index (octet_string_line tx m)
  octet_line m = LineOf-after (codes "OctetString  ") _ m.index (ground arith) (ground arith) (
      LineOf-bracketed m.index _
        (both (codes " : Size : ") _ (ground arith) (Avoids-print (length m.value))))

  security_line : (m : Indexed SecurityStat) → LineOf m.index (security_stat_line tx m)
  security_line m = LineOf-after (codes "SecurityStat: ") _ m.index (ground arith) (ground arith) (
      LineOf-bracketed m.index _ (
        after_sep _ (
          both (print m.time) _ (Avoids-print m.time) (
            after_sep _ (
              both (print m.value.count) _ (Avoids-print m.value.count) (
                after_sep _ (
                  both (print m.value.quality) _ (Avoids-print m.value.quality)
                    (after_sep _ (Avoids-print m.value.assoc_id)))))))))

  dnp_line : (t : ℕ) → LineOf t (dnp_time_line tx t)
  dnp_line t =
      LineOf-after (codes "DNPTime: ") (print t) t (ground arith) (ground arith)
        (ap first_number (sym (append-nil (print t))) ∙ first_number-print t [] tt, Avoids-print t)

  -- Let the texts of doubles and of opendnp3's enumerators stay on one line. Then a batch of any type
  -- that `Process` prints gives a line for each measurement, in their order, and the first number in
  -- the line is the index of the measurement, or of a DNPTime the time.
  pub process_printed_lem :
      (b : Printed tx) → map first_number (split b'\n' (process_printed tx b)) ≡ keys_of tx b
  unfolding process_printed
  process_printed_lem (double_bit_binaries ms) =
      read_print_all _ _ (flagged_line (tx.double_bit_to_string) one.double_bits) ms
  process_printed_lem (frozen_counters ms) = read_print_all _ _ (flagged_line print Avoids-print) ms
  process_printed_lem (binary_output_statuses ms) =
      read_print_all _ _ (flagged_line bool_to_string Avoids-bool_to_string) ms
  process_printed_lem (analog_output_statuses ms) =
      read_print_all _ _ (flagged_line (tx.of_double) one.doubles) ms
  process_printed_lem (octet_strings ms) = read_print_all _ _ octet_line ms
  process_printed_lem (time_and_intervals ms) = read_print_all _ _ time_line ms
  process_printed_lem (binary_command_events ms) =
      read_print_all _ _
        (event_line (codes "BinaryCommandEvent: ") bool_to_string (ground arith) (ground arith)
          Avoids-bool_to_string)
        ms
  process_printed_lem (analog_command_events ms) =
      read_print_all _ _
        (event_line (codes "AnalogCommandEvent: ") (tx.of_double) (ground arith) (ground arith)
          one.doubles)
        ms
  process_printed_lem (security_stats ms) = read_print_all _ _ security_line ms
  process_printed_lem (dnp_times ts) = read_print_all _ _ dnp_line ts
