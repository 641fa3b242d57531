-- ===== src/Master/Script/Reading.antt =====
-- The commands that a table stands for, and the calls that they ask for.
use ics_trafficgen.Base.{
  String, List, [], ◌∷◌, none, some, true, false, ℤ, pos, negsuc, index_of, int_eq, ◌||◌, ◌==◌,
  if◌then◌else◌, ◌>>=◌, ◌≡◌, refl, ap, ◌∙◌, All, arith, Bool-cases, inl, inr,
}
use ics_trafficgen.Points.{Doubles}
use ics_trafficgen.Master.{CmdStruct, fire_off_master_command}
use ics_trafficgen.Master.Fire.{scans_of, requested, fire_off_master_command_lem}
use ics_trafficgen.Master.Script.{
  LuaValue, TableOrOther, set_field, read_fields, new_command, read_table, lua_invoke_script,
}

module _ {D : Type 0} where
  -- The value of the last entry with the key, or else `v`.
  abbrev pub last_at : {A : Type 0} → (LuaValue D → A → A) → ℤ → List (ℤ × LuaValue D) → A → A
  last_at f k [] a = a
  last_at f k ((j, v) ∷ es) a = last_at f k es (if int_eq (index_of j) k then f v a else a)

  abbrev pub string_or : LuaValue D → String → String
  string_or v s = elim v.as_string [ none ↦ s | some r ↦ r ]

  -- The command that the entries with the keys 1 to 4 make of `c`: type, name, index and value.
  abbrev pub command_of : List (ℤ × LuaValue D) → CmdStruct D → CmdStruct D
  command_of es c = record {
    f_name = last_at string_or (pos 1) es c.f_name;
    f_type = last_at string_or (pos 0) es c.f_type;
    index = last_at (λ v z. v.as_int) (pos 2) es c.index;
    value = last_at (λ v d. v.as_number) (pos 3) es c.value;
  }

  -- The value is a string, or a number, which Lua converts to one, if the key is 1 or 2.
  abbrev pub HasText : ℤ × LuaValue D → Type 0
  HasText (k, v) =
      (int_eq (index_of k) (pos 0) || int_eq (index_of k) (pos 1)) ≡ true
      → (s : String) × (v.as_string ≡ some s)

  abbrev field_set : ℤ → LuaValue D → CmdStruct D → CmdStruct D
  field_set i v c = record {
    f_name = if int_eq i (pos 1) then string_or v c.f_name else c.f_name;
    f_type = if int_eq i (pos 0) then string_or v c.f_type else c.f_type;
    index = if int_eq i (pos 2) then v.as_int else c.index;
    value = if int_eq i (pos 3) then v.as_number else c.value;
  }

  set_field_lem :
      (i : ℤ) (v : LuaValue D) (c : CmdStruct D)
      → ((int_eq i (pos 0) || int_eq i (pos 1)) ≡ true → (s : String) × (v.as_string ≡ some s))
      → set_field i v c ≡ some (field_set i v c)
  unfolding set_field
  set_field_lem (negsuc n) v c h = refl
  set_field_lem (pos n) v c h = elim (Bool-cases (n == 0)) [
    | inl zeroth ↦
        let (s, e) = h (rw zeroth refl) in
        let n1 : (n == 1) ≡ false = ground arith in
        let n2 : (n == 2) ≡ false = ground arith in
        let n3 : (n == 3) ≡ false = ground arith in rw (zeroth, n1, n2, n3, e) refl
    | inr other ↦ elim (Bool-cases (n == 1)) [
      | inl first ↦
          let (s, e) = h (rw (other, first) refl) in
          let n2 : (n == 2) ≡ false = ground arith in
          let n3 : (n == 3) ≡ false = ground arith in rw (other, first, n2, n3, e) refl
      | inr past ↦ elim (Bool-cases (n == 2)) [
        | inl second ↦ let n3 : (n == 3) ≡ false = ground arith in rw (other, past, second, n3) refl
        | inr beyond ↦ elim (Bool-cases (n == 3)) [
          | inl third ↦ rw (other, past, beyond, third) refl
          | inr none_of_them ↦ rw (other, past, beyond, none_of_them) refl
        ]
      ]
    ]
  ]

  read_fields_lem :
      (es : List (ℤ × LuaValue D)) (c : CmdStruct D)
      → All HasText es
      → read_fields es c ≡ some (command_of es c)
  unfolding read_fields
  read_fields_lem [] c h = refl
  read_fields_lem ((k, v) ∷ es) c h =
      ap (λ o. o >>= λ c'. read_fields es c') (set_field_lem (index_of k) v c h.0)
      ∙ read_fields_lem es (field_set (index_of k) v c) h.1

  -- All entries with the keys 1 and 2 of the tables are strings, or numbers.
  abbrev pub HasTexts : List (TableOrOther D) → Type 0
  HasTexts [] = Unit
  HasTexts (none ∷ vs) = HasTexts vs
  HasTexts (some es ∷ vs) = All HasText es × HasTexts vs

  -- The commands that the tables among the values stand for.
  abbrev pub commands_of : Doubles D → List (TableOrOther D) → List (CmdStruct D)
  commands_of doubles [] = []
  commands_of doubles (none ∷ vs) = commands_of doubles vs
  commands_of doubles (some es ∷ vs) = command_of es (new_command doubles) ∷ commands_of doubles vs

  read_table_lem :
      (doubles : Doubles D) (vs : List (TableOrOther D))
      → HasTexts vs
      → read_table doubles vs ≡ some (commands_of doubles vs)
  unfolding read_table
  read_table_lem doubles [] h = refl
  read_table_lem doubles (none ∷ vs) h = read_table_lem doubles vs h
  read_table_lem doubles (some es ∷ vs) h =
      rw (read_fields_lem es (new_command doubles) h.0, read_table_lem doubles vs h.1) refl

  -- Let the first two fields of each table in `data` be strings. Then each table is a command, with
  -- its type, name, index and value from the entries with the keys 1 to 4, in whatever order they
  -- come, and with the fields of a new command where there is none. The master sends the scans of the
  -- "Scan" commands, then the "SBO" commands as one select-and-operate, then the "DO" commands as one
  -- direct-operate. It fails exactly where the number of a scan's group is above the largest `int`.
  pub lua_invoke_script_lem :
      (doubles : Doubles D) (vs : List (TableOrOther D))
      → HasTexts vs
      → lua_invoke_script doubles vs ≡ (
          scans_of doubles (commands_of doubles vs) >>= λ scans.
          some (requested doubles (commands_of doubles vs) scans))
  unfolding lua_invoke_script
  lua_invoke_script_lem doubles [] h = refl
  lua_invoke_script_lem doubles (v ∷ vs) h =
      ap (λ o. o >>= λ cs. fire_off_master_command doubles cs) (read_table_lem doubles (v ∷ vs) h)
      ∙ fire_off_master_command_lem doubles (commands_of doubles (v ∷ vs))
