-- ===== src/Base/Order.antt =====
-- The order of texts, by which a `std::map` keeps its keys.
use Prim.Native.Nat.{ℕ, compare as compare_ℕ, Ordering}
use Prim.Native.Char.{code}
use Prim.Native.String.{String, compare, then}
use Prim.Native.String.compare
use mathlib.Core.Path.{◌≡◌, sym, ap, ◌∙◌}
use mathlib.Core.Bool.{Bool, true, false}
use native.Mathlib.Omega.{arith}
use text.Mathlib.Text.{is_lt, is_eq, ◌==◌ as str_eq}

abbrev pub less : String → String → Bool
less s t = is_lt (compare s t)

then_trans :
    (x y z : ℕ) (p q r : Ordering)
    → (is_lt p ≡ true → is_lt q ≡ true → is_lt r ≡ true)
    → is_lt (then (compare_ℕ x y) p) ≡ true
    → is_lt (then (compare_ℕ y z) q) ≡ true
    → is_lt (then (compare_ℕ x z) r) ≡ true
then_trans x y z p q r k s t = ground arith

then_total :
    (x y : ℕ) (p q : Ordering)
    → (is_eq p ≡ false → is_lt q ≡ false → is_lt p ≡ true)
    → is_eq (then (compare_ℕ x y) p) ≡ false
    → is_lt (then (compare_ℕ y x) q) ≡ false
    → is_lt (then (compare_ℕ x y) p) ≡ true
then_total x y p q k s t = ground arith

pub less_trans : (s t u : String) → less s t ≡ true → less t u ≡ true → less s u ≡ true
less_trans s String.[] String.[] h k = h
less_trans String.[] (String.◌∷◌ d t) String.[] h k = cc (k, compare.cons-nil d t)
less_trans (String.◌∷◌ c s) (String.◌∷◌ d t) String.[] h k = cc (k, compare.cons-nil d t)
less_trans String.[] String.[] (String.◌∷◌ e u) h k = k
less_trans String.[] (String.◌∷◌ d t) (String.◌∷◌ e u) h k = ap is_lt (compare.nil-cons e u)
less_trans (String.◌∷◌ c s) String.[] (String.◌∷◌ e u) h k = cc (h, compare.cons-nil c s)
less_trans (String.◌∷◌ c s) (String.◌∷◌ d t) (String.◌∷◌ e u) h k =
    ap is_lt (compare.cons-cons c e s u)
    ∙ then_trans (code c) (code d) (code e) (compare s t) (compare t u) (compare s u)
        (less_trans s t u) (sym (ap is_lt (compare.cons-cons c d s t)) ∙ h)
        (sym (ap is_lt (compare.cons-cons d e t u)) ∙ k)

-- Of two different texts, one is less.
pub less_total : (s t : String) → str_eq s t ≡ false → less t s ≡ false → less s t ≡ true
less_total String.[] String.[] h k = cc
less_total String.[] (String.◌∷◌ d t) h k = ap is_lt (compare.nil-cons d t)
less_total (String.◌∷◌ c s) String.[] h k = cc (k, compare.nil-cons c s)
less_total (String.◌∷◌ c s) (String.◌∷◌ d t) h k =
    ap is_lt (compare.cons-cons c d s t)
    ∙ then_total (code c) (code d) (compare s t) (compare t s) (less_total s t)
        (sym (ap is_eq (compare.cons-cons c d s t)) ∙ h)
        (sym (ap is_lt (compare.cons-cons d c t s)) ∙ k)

ordering_ne : (o : Ordering) → is_lt o ≡ true → is_eq o ≡ false
ordering_ne o h = ground arith

pub less-ne : (s t : String) → less s t ≡ true → str_eq s t ≡ false
less-ne s t h = ordering_ne (compare s t) h
