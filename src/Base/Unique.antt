-- ===== src/Base/Unique.antt =====
-- Lists without a repetition.
use mathlib.Core.Path.{sym}
use mathlib.Core.Logic.{◌≢◌}
use mathlib.Core.List.{List, [], ◌∷◌, ◌++◌}
use ics_trafficgen.Base.Lists.{All, All-append_left, All-append}

module _ {A : Type 0} where
  -- `a` is not in the list.
  abbrev pub Lacks : A → List A → Type 0
  Lacks a = All (λ y. y ≢ a)

  abbrev pub Distinct : List A → Type 0
  Distinct [] = Unit
  Distinct (x ∷ xs) = Lacks x xs × Distinct xs

  pub Distinct-snoc : (xs : List A) (a : A) → Distinct xs → Lacks a xs → Distinct (xs ++ a ∷ [])
  Distinct-snoc [] a d l = (tt, tt)
  Distinct-snoc (x ∷ xs) a d l =
      (All-append (λ y. y ≢ x) xs (a ∷ []) d.0 (λ e. l.0 (sym e), tt), Distinct-snoc xs a d.1 l.1)

  pub Distinct-append_left : (xs ys : List A) → Distinct (xs ++ ys) → Distinct xs
  Distinct-append_left [] ys d = tt
  Distinct-append_left (x ∷ xs) ys d =
      (All-append_left (λ y. y ≢ x) xs ys d.0, Distinct-append_left xs ys d.1)
