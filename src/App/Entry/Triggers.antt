-- ===== src/App/Entry/Triggers.antt =====
-- The triggers that `main` collects are the keys of the nodes.
use ics_trafficgen.Base.{
  String, List, [], ◌∷◌, ◌++◌, Bool, true, false, not, ◌&&◌, ◌||◌, any, str_eq, eq_iff,
  if◌then◌else◌, ◌≡◌, refl, ap, ◌∙◌, sym, subst, arith, Bool-cases, inl, inr,
}
use ics_trafficgen.Node.{Node}
use ics_trafficgen.App.{
  App, no_stations, add_trigger, launch_master, launch_outstation, launch, launch_all, connect_all,
}

-- The line is the key of a node that has one.
abbrev pub is_key : {F : Type 0} → List (Node F) → String → Bool
is_key ns l = any (λ n. not (str_eq n.lua_key_switch "") && str_eq l n.lua_key_switch) ns

any-append : (p : String → Bool) (xs ys : List String) → any p (xs ++ ys) ≡ (any p xs || any p ys)
any-append p [] ys = refl
any-append p (x ∷ xs) ys = elim (Bool-cases (p x)) [
  | inl t ↦ rw t refl
  | inr f ↦ rw f (any-append p xs ys)
]

or_true : (b : Bool) → (b || true) ≡ true
or_true true = refl
or_true false = refl

or_false : (b : Bool) → (b || false) ≡ b
or_false true = refl
or_false false = refl

or_assoc : (a b c : Bool) → ((a || b) || c) ≡ (a || (b || c))
or_assoc true b c = refl
or_assoc false b c = refl

-- A trigger that is there already adds nothing.
add_trigger_lem :
    (k l : String) (ks : List String)
    → any (str_eq l) (add_trigger k ks) ≡ (any (str_eq l) ks || str_eq l k)
add_trigger_lem k l ks = elim (Bool-cases (any (str_eq k) ks)) [
  | inl there ↦ elim (Bool-cases (str_eq l k)) [
    | inl same ↦
        let e : l ≡ k = (eq_iff l k).0 same in
        rw (there, same)
          (subst (λ s. any (str_eq s) ks ≡ true) (sym e) there ∙ sym (or_true (any (str_eq l) ks)))
    | inr other ↦ rw (there, other) (sym (or_false (any (str_eq l) ks)))
  ]
  | inr new ↦
      rw new (
        any-append (str_eq l) ks (k ∷ [])
        ∙ ap (λ b. any (str_eq l) ks || b) (or_false (str_eq l k)))
]

module _ {F D : Type 0} where
  launch_role-triggers :
      (n : Node F) (a : App F D)
      → (if str_eq n.role "Master"
          then launch_master n a
          else if str_eq n.role "Outstation"
          then launch_outstation n a
          else a).lua_triggers
        ≡ a.lua_triggers
  unfolding launch_master launch_outstation
  launch_role-triggers n a = ground arith

  launch-triggers :
      (n : Node F) (a : App F D) (l : String)
      → any (str_eq l) (launch n a).lua_triggers ≡ (
          any (str_eq l) a.lua_triggers
          || (not (str_eq n.lua_key_switch "") && str_eq l n.lua_key_switch))
  unfolding launch
  launch-triggers n a l = elim (Bool-cases (str_eq n.lua_key_switch "")) [
    | inl unset ↦ rw unset (
        ap (any (str_eq l)) (launch_role-triggers n a)
        ∙ sym (or_false (any (str_eq l) a.lua_triggers)))
    | inr keyed ↦
        let k = add_trigger n.lua_key_switch a.lua_triggers in
        rw keyed (
          ap (any (str_eq l)) (launch_role-triggers n (record a { lua_triggers = k }))
          ∙ add_trigger_lem n.lua_key_switch l a.lua_triggers)
  ]

  launch_all-triggers :
      (ns : List (Node F)) (a : App F D) (l : String)
      → any (str_eq l) (launch_all ns a).lua_triggers
        ≡ (any (str_eq l) a.lua_triggers || is_key ns l)
  unfolding launch_all
  launch_all-triggers [] a l = sym (or_false _)
  launch_all-triggers (n ∷ ns) a l =
      launch_all-triggers ns (launch n a) l
      ∙ ap (λ b. b || is_key ns l) (launch-triggers n a l)
      ∙ or_assoc (any (str_eq l) a.lua_triggers) _ _

-- A line is a trigger exactly if it is the key of a node.
pub is_trigger :
    {F : Type 0} (D : Type 0) (ns : List (Node F)) (l : String)
    → any (str_eq l) (connect_all {D = D} (launch_all ns no_stations)).lua_triggers ≡ is_key ns l
unfolding connect_all
is_trigger D ns l = launch_all-triggers {D = D} ns no_stations l
