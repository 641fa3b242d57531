-- ===== src/Base/Maps/Sorted.antt =====
-- Maps whose keys ascend, as those of a `std::map` do.
use Prim.Native.String.{String}
use mathlib.Core.Path.{◌≡◌, sym, subst}
use mathlib.Core.Logic.{inl, inr}
use mathlib.Core.Bool.{Bool, true}
use mathlib.Core.List.{[], ◌∷◌}
use text.Mathlib.Text.{◌==◌ as str_eq}
use text.Mathlib.TextEquality.{eq_iff}
use ics_trafficgen.Base.Tests.{if◌then◌else◌, Bool-cases}
use ics_trafficgen.Base.Order.{less, less_trans, less_total}
use ics_trafficgen.Base.Maps.{Map, insert}

module _ {ℓ} {V : Type ℓ} where
  -- The key is less than all keys of the map.
  abbrev pub Above : String → Map V → Type 0
  Above k [] = Unit
  Above k ((j, v) ∷ m) = (less k j ≡ true) × Above k m

  abbrev pub IsSorted : Map V → Type 0
  IsSorted [] = Unit
  IsSorted ((k, v) ∷ m) = Above k m × IsSorted m

  Above-trans : (k j : String) (m : Map V) → less k j ≡ true → Above j m → Above k m
  Above-trans k j [] h a = tt
  Above-trans k j ((i, v) ∷ m) h a = (less_trans k j i h a.0, Above-trans k j m h a.1)

  insert-Above :
      (j k : String) (v : V) (m : Map V) → less j k ≡ true → Above j m → Above j (insert k v m)
  insert-Above j k v [] h a = (h, tt)
  insert-Above j k v ((i, w) ∷ m) h a = elim (Bool-cases (str_eq i k)) [
    | inl same ↦ rw same (h, a.1)
    | inr other ↦ elim (Bool-cases (less k i)) [
      | inl before ↦ rw (other, before) (h, a)
      | inr after ↦ rw (other, after) (a.0, insert-Above j k v m h a.1)
    ]
  ]

  pub insert-IsSorted : (k : String) (v : V) (m : Map V) → IsSorted m → IsSorted (insert k v m)
  insert-IsSorted k v [] s = (tt, tt)
  insert-IsSorted k v ((i, w) ∷ m) s =
      let later : Bool → Map V = λ b. if b then (k, v) ∷ (i, w) ∷ m else (i, w) ∷ insert k v m in
      let Goal : Bool → Type 0 = λ b. IsSorted (if b then (k, v) ∷ m else later (less k i)) in
      elim (Bool-cases (str_eq i k)) [
        | inl same ↦ subst Goal (sym same) (subst (λ x. Above x m) ((eq_iff i k).0 same) s.0, s.1)
        | inr other ↦ subst Goal (sym other) (elim (Bool-cases (less k i)) [
          | inl before ↦
              subst (λ b. IsSorted (later b)) (sym before)
                ((before, Above-trans k i m before s.0), s)
          | inr after ↦
              subst (λ b. IsSorted (later b)) (sym after)
                (insert-Above i k v m (less_total i k other after) s.0, insert-IsSorted k v m s.1)
        ])
      ]
