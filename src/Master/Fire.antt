-- ===== src/Master/Fire.antt =====
-- What FireOffMasterCommand sends, for any list of commands.
use ics_trafficgen.Base.{
  String, List, [], ◌∷◌, ◌++◌, Option, none, some, Bool, true, false, str_eq, if◌then◌else◌, ◌>>=◌,
  any, ◌||◌, ◌≡◌, refl, ap, ◌∙◌, sym, subst, append_assoc, append-nil, eq_iff,
}
use ics_trafficgen.Points.{Doubles}
use ics_trafficgen.Master.{
  CmdStruct, Header, Sent, select_and_operate, direct_operate, Batch, headers, scan_sent, fire_one,
  fire_all, no_commands, finish, fire_off_master_command,
}

or-true : (b : Bool) → (b || true) ≡ true
or-true true = refl
or-true false = refl

or-false : (b : Bool) → (b || false) ≡ b
or-false true = refl
or-false false = refl

or_assoc : (a b c : Bool) → ((a || b) || c) ≡ (a || (b || c))
or_assoc true b c = refl
or_assoc false b c = refl

module _ {D : Type 0} (doubles : Doubles D) where
  abbrev pub has_type : String → CmdStruct D → Bool
  has_type t c = str_eq c.f_type t

  -- The headers of the commands of one type, in the order of the commands.
  abbrev pub headers_of : String → List (CmdStruct D) → List (Header D)
  headers_of t [] = []
  headers_of t (c ∷ cs) = (if has_type t c then headers doubles c else []) ++ headers_of t cs

  -- The scans of the commands, in their order; none if the number of one is too large.
  abbrev pub scans_of : List (CmdStruct D) → Option (List (Sent D))
  scans_of [] = some []
  scans_of (c ∷ cs) = do
    first ← (if has_type "Scan" c then scan_sent doubles c else some [])
    rest ← scans_of cs
    some (first ++ rest)

  -- A batch with what one command adds to it.
  abbrev added : Bool → Bool → List (Header D) → Batch D → List (Sent D) → Batch D
  added is_sbo is_do hs b calls = record {
    sbo_commands = b.sbo_commands ++ (if is_sbo then hs else []);
    do_commands = b.do_commands ++ (if is_do then hs else []);
    sbo_func_codes = b.sbo_func_codes || is_sbo;
    do_func_codes = b.do_func_codes || is_do;
    sent = b.sent ++ calls;
  }

  -- At most one of the three holds.
  record Exclusive (s d n : Bool) : Type 0 where
    not_both : s ≡ true → d ≡ false
    no_scan : s ≡ true → n ≡ false
    not_do_scan : d ≡ true → n ≡ false

  chain_lem :
      (s d n : Bool) (hs : List (Header D)) (m : Option (List (Sent D))) (b : Batch D)
      → Exclusive s d n
      → (if s
          then some (record b { sbo_func_codes = true; sbo_commands = b.sbo_commands ++ hs })
          else if d
          then some (record b { do_func_codes = true; do_commands = b.do_commands ++ hs })
          else if n
          then (m >>= λ calls. some (record b { sent = b.sent ++ calls }))
          else some b)
        ≡ ((if n then m else some []) >>= λ calls. some (added s d hs b calls))
  chain_lem true true n hs m b x = let e = x.not_both refl in cc
  chain_lem true false true hs m b x = let e = x.no_scan refl in cc
  chain_lem true false false hs m b x =
      rw
        (
          append-nil b.do_commands,
          append-nil b.sent,
          or-true b.sbo_func_codes,
          or-false b.do_func_codes,
        )
        refl
  chain_lem false true true hs m b x = let e = x.not_do_scan refl in cc
  chain_lem false true false hs m b x =
      rw
        (
          append-nil b.sbo_commands,
          append-nil b.sent,
          or-true b.do_func_codes,
          or-false b.sbo_func_codes,
        )
        refl
  chain_lem false false true hs m b x =
      rw
        (
          append-nil b.sbo_commands,
          append-nil b.do_commands,
          or-false b.do_func_codes,
          or-false b.sbo_func_codes,
        )
        refl
  chain_lem false false false hs m b x =
      rw
        (
          append-nil b.sbo_commands,
          append-nil b.do_commands,
          append-nil b.sent,
          or-false b.do_func_codes,
          or-false b.sbo_func_codes,
        )
        refl

  types-Exclusive : (t : String) → Exclusive (str_eq t "SBO") (str_eq t "DO") (str_eq t "Scan")
  types-Exclusive t =
      let a : str_eq "SBO" "DO" ≡ false = refl in
      let b : str_eq "SBO" "Scan" ≡ false = refl in
      let c : str_eq "DO" "Scan" ≡ false = refl in
      record {
        not_both = λ e. subst (λ u. str_eq u "DO" ≡ false) (sym ((eq_iff t "SBO").0 e)) a;
        no_scan = λ e. subst (λ u. str_eq u "Scan" ≡ false) (sym ((eq_iff t "SBO").0 e)) b;
        not_do_scan = λ e. subst (λ u. str_eq u "Scan" ≡ false) (sym ((eq_iff t "DO").0 e)) c;
      }

  abbrev own_scans : CmdStruct D → Option (List (Sent D))
  own_scans c = if has_type "Scan" c then scan_sent doubles c else some []

  abbrev after_one : CmdStruct D → Batch D → List (Sent D) → Batch D
  after_one c b calls = added (has_type "SBO" c) (has_type "DO" c) (headers doubles c) b calls

  fire_one_lem :
      (c : CmdStruct D) (b : Batch D)
      → fire_one doubles c b ≡ (own_scans c >>= λ calls. some (after_one c b calls))
  unfolding fire_one
  fire_one_lem c b =
      chain_lem (has_type "SBO" c) (has_type "DO" c) (has_type "Scan" c) (headers doubles c)
        (scan_sent doubles c) b (types-Exclusive c.f_type)

  -- What the loop makes of a batch.
  abbrev after_all : List (CmdStruct D) → Batch D → List (Sent D) → Batch D
  after_all cs b calls = record {
    sbo_commands = b.sbo_commands ++ headers_of "SBO" cs;
    do_commands = b.do_commands ++ headers_of "DO" cs;
    sbo_func_codes = b.sbo_func_codes || any (has_type "SBO") cs;
    do_func_codes = b.do_func_codes || any (has_type "DO") cs;
    sent = b.sent ++ calls;
  }

  join_lem :
      (first rest : Option (List (Sent D))) (c : CmdStruct D) (cs : List (CmdStruct D))
      (b : Batch D)
      → (first >>= λ k. rest >>= λ calls. some (after_all cs (after_one c b k) calls)) ≡ (
          (first >>= λ k. rest >>= λ calls. some (k ++ calls)) >>= λ calls.
          some (after_all (c ∷ cs) b calls))
  join_lem none rest c cs b = refl
  join_lem (some k) none c cs b = refl
  join_lem (some k) (some calls) c cs b =
      rw
        (
          append_assoc b.sbo_commands,
          append_assoc b.do_commands,
          append_assoc b.sent,
          or_assoc b.sbo_func_codes,
          or_assoc b.do_func_codes,
        )
        refl

  bind_assoc :
      {A B C : Type 0} (m : Option A) (f : A → Option B) (g : B → Option C)
      → ((m >>= f) >>= g) ≡ (m >>= λ a. f a >>= g)
  bind_assoc none f g = refl
  bind_assoc (some a) f g = refl

  fire_all_lem :
      (cs : List (CmdStruct D)) (b : Batch D)
      → fire_all doubles cs b ≡ (scans_of cs >>= λ calls. some (after_all cs b calls))
  unfolding fire_all
  fire_all_lem [] b =
      rw
        (
          append-nil b.sbo_commands,
          append-nil b.do_commands,
          append-nil b.sent,
          or-false b.do_func_codes,
          or-false b.sbo_func_codes,
        )
        refl
  fire_all_lem (c ∷ cs) b =
      ap (λ m. m >>= fire_all doubles cs) (fire_one_lem c b)
      ∙ bind_assoc (own_scans c) (λ k. some (after_one c b k)) (fire_all doubles cs)
      ∙ ap (λ f. own_scans c >>= f) (λ i k. fire_all_lem cs (after_one c b k) i)
      ∙ join_lem (own_scans c) (scans_of cs) c cs b

  -- The calls that the command types ask for: first the scans, then one select-and-operate with the
  -- headers of all "SBO" commands if there is one, then one direct-operate with those of all "DO"
  -- commands if there is one.
  abbrev pub requested : List (CmdStruct D) → List (Sent D) → List (Sent D)
  requested cs scans =
      scans
      ++ ((if any (has_type "SBO") cs then select_and_operate (headers_of "SBO" cs) ∷ [] else [])
          ++ (if any (has_type "DO") cs then direct_operate (headers_of "DO" cs) ∷ [] else []))

  -- Firing off commands sends the scans of the "Scan" commands in their order, then, if there is an
  -- "SBO" command, one select-and-operate with the headers of all of them in their order, and then
  -- the same as a direct-operate for "DO". It fails exactly where the group number in
  -- the name of a "Scan" command is above the largest `int`.
  pub fire_off_master_command_lem :
      (cs : List (CmdStruct D))
      → fire_off_master_command doubles cs ≡ (scans_of cs >>= λ scans. some (requested cs scans))
  unfolding fire_off_master_command finish
  fire_off_master_command_lem cs =
      rw (fire_all_lem cs (no_commands doubles), bind_assoc (scans_of cs)) refl
