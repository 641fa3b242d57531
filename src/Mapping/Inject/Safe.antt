-- ===== src/Mapping/Inject/Safe.antt =====
-- What the loops of `injectDataChanges` do to one channel, and the answers of the script that they
-- accept.
use ics_trafficgen.Base.{
  ℕ, String, List, [], ◌∷◌, Option, none, some, Bool, true, false, ℤ, int_eq, int_eq_iff, index_of,
  any, insert, str_eq, read_at, to_u16, ◌>>=◌, if◌then◌else◌, ◌≡◌, refl, sym, subst, ◌∙◌, All, Has,
  All-Has, InRange, length, length-put, Bool-cases, inl, inr, ◌||◌, Succeeds, Succeeds-then,
  Succeeds-imp, read_at_of_InRange, write_at_of_InRange,
}
use ics_trafficgen.Points.{MappedDataPoint, Dnp3Point}
use ics_trafficgen.Mapping.{Channel, Update, copy_point, source_values}
use ics_trafficgen.Mapping.Safety.{Fits}
use ics_trafficgen.Mapping.Ready.{SameShape, SameShape-refl}
use ics_trafficgen.Mapping.Inject.{LuaScript, accept, applied_of, copy_points, load}

-- The index is one of those that are configured.
abbrev pub IsKnown : Option (List ℤ) → ℤ → Type 0
IsKnown none z = ⊥
IsKnown (some is) z = Has z is

-- The configured indexes lie within `n`.
abbrev pub AllIn : Option (List ℤ) → ℕ → Type 0
AllIn none n = Unit
AllIn (some is) n = All (λ z. InRange z n) is

-- From every state with `Fine`, each function of the script returns and leaves a table, in a state
-- with `Fine` again.
pub record Answers {D : Type 0} (lua : LuaScript D) (Fine : lua.State → Type 0) : Type 0 where
  pub analog :
      (vs : List D) (s : lua.State) → Fine s → Succeeds (λ r. Fine r.0) (lua.modify_analog vs s)
  pub binary :
      (vs : List ℤ) (s : lua.State) → Fine s → Succeeds (λ r. Fine r.0) (lua.modify_binary vs s)
  pub counter :
      (vs : List ℤ) (s : lua.State) → Fine s → Succeeds (λ r. Fine r.0) (lua.modify_counter vs s)

any-Has : (z : ℤ) (is : List ℤ) → any (int_eq z) is ≡ true → Has z is
any-Has z [] h = cc
any-Has z (i ∷ is) h = elim (Bool-cases (int_eq z i)) [
  | inl same ↦ inl (sym ((int_eq_iff z i).0 same))
  | inr other ↦ inr (any-Has z is (subst (λ b. (b || any (int_eq z) is) ≡ true) other h))
]

module _ {D V : Type 0} (P : Update D → Type 0) (mk : V → ℕ → ℕ → Update D) where
  accept-Succeeds :
      (is : Option (List ℤ)) (out : List (Dnp3Point D)) (es : List (ℤ × V))
      → AllIn is (length out)
      → ((v : V) (ts : ℕ) (z : ℤ) → IsKnown is z → P (mk v ts (to_u16 z)))
      → Succeeds (All P) (accept mk is out es)
  unfolding accept
  accept-Succeeds none out es r p = tt
  accept-Succeeds (some is) out [] r p = tt
  accept-Succeeds (some is) out ((k, v) ∷ es) r p =
      let z = index_of k in
      let rest = accept mk (some is) out es in
      let good = accept-Succeeds (some is) out es r p in
      let taken : Option (List (Update D)) =
        read_at out z >>= λ q. rest >>= λ us. some (mk v q.timestamp (to_u16 z) ∷ us) in
      let Goal : Bool → Type 0 = λ b. Succeeds (All P) (if b then taken else rest) in
      elim (Bool-cases (any (int_eq z) is)) [
        | inl known ↦
            let has = any-Has z is known in
            let (q, e) =
              read_at_of_InRange out z (All-Has (λ z. InRange z (length out)) z is r has) in
            subst Goal (sym known) (
              Succeeds-then (λ q. Unit) (All P) (read_at out z) _
                (subst (Succeeds (λ q. Unit)) (sym e) tt)
                (λ q u. Succeeds-then (All P) (All P) rest _ good (λ us g. (p v _ z has, g))))
        | inr unknown ↦ subst Goal (sym unknown) good
      ]

  pub applied_of-Succeeds :
      (is : Option (List ℤ)) (out : List (Dnp3Point D)) (es : List (ℤ × V))
      → AllIn is (length out)
      → ((v : V) (ts : ℕ) (z : ℤ) → IsKnown is z → P (mk v ts (to_u16 z)))
      → Succeeds (All (All P)) (applied_of mk is out es)
  unfolding applied_of
  applied_of-Succeeds is out [] r p = tt
  applied_of-Succeeds is out (e ∷ es) r p =
      Succeeds-then (All P) (All (All P)) (accept mk is out (e ∷ es)) _
        (accept-Succeeds is out (e ∷ es) r p) (λ us g. (g, tt))

module _ {D : Type 0} where
  pub SameShape-trans : (a b c : Channel D) → SameShape a b → SameShape b c → SameShape a c
  SameShape-trans a b c s t = record {
    out_size = t.out_size ∙ s.out_size;
    in_size = λ k. t.in_size k ∙ s.in_size k;
  }

  module _ (t src : String) where
    copied-Succeeds :
        (dp : MappedDataPoint) (ch : Channel D)
        → Fits t (length ch.out) (length (source_values src ch)) dp
        → Succeeds (SameShape ch) (if str_eq dp.point_type t then copy_point src dp ch else some ch)
    unfolding copy_point
    copied-Succeeds dp ch f =
        let Goal : Bool → Type 0 =
          λ b. Succeeds (SameShape ch) (if b then copy_point src dp ch else some ch) in
        elim (Bool-cases (str_eq dp.point_type t)) [
          | inl same ↦
              let (p, e) = read_at_of_InRange (source_values src ch) dp.input_index (f same).1 in
              subst Goal (sym same) (
                Succeeds-then (λ p. Unit) (SameShape ch)
                  (read_at (source_values src ch) dp.input_index) _
                  (subst (Succeeds (λ p. Unit)) (sym e) tt)
                  (λ p u.
                    Succeeds-then (λ o. length o ≡ length ch.out) (SameShape ch) _ _
                      (subst (Succeeds (λ o. length o ≡ length ch.out))
                        (sym (write_at_of_InRange ch.out dp.index p (f same).0))
                        (length-put ch.out dp.index p))
                      (λ o l. record { out_size = l; in_size = λ k. refl })))
          | inr other ↦ subst Goal (sym other) (SameShape-refl ch)
        ]

    copy_points-Succeeds :
        (dps : List MappedDataPoint) (ch : Channel D)
        → All (Fits t (length ch.out) (length (source_values src ch))) dps
        → Succeeds (SameShape ch) (copy_points t src dps ch)
    unfolding copy_points
    copy_points-Succeeds [] ch f = SameShape-refl ch
    copy_points-Succeeds (dp ∷ dps) ch f =
        Succeeds-then (SameShape ch) (SameShape ch) _ _ (copied-Succeeds dp ch f.0) (λ ch' s.
          Succeeds-imp (SameShape ch') (SameShape ch) (copy_points t src dps ch')
            (λ c. SameShape-trans ch ch' c s)
            (copy_points-Succeeds dps ch' (rw (s.out_size, s.in_size src) f.1)))

    pub load-Succeeds :
        (dps : List MappedDataPoint) (ch : Channel D)
        → All (Fits t (length ch.out) (length (source_values src ch))) dps
        → Succeeds (SameShape ch) (load t src dps ch)
    unfolding load
    load-Succeeds dps ch f =
        Succeeds-imp _ (SameShape ch) (copy_points t src dps _)
          (λ c s. record { out_size = s.out_size; in_size = λ k. s.in_size k })
          (copy_points-Succeeds dps (record ch { flag = insert src false ch.flag }) f)
