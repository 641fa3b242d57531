-- ===== src/Base/Fallible.antt =====
-- Steps that may fail: `none` is an access that C++ leaves undefined, or an exception.
use mathlib.Core.Path.{◌≡◌, refl}
use mathlib.Core.Option.{Option, none, some}

infixl 5 ◌>>=◌
abbrev pub ◌>>=◌ {ℓ κ} : {A : Type ℓ} {B : Type κ} → Option A → (A → Option B) → Option B
some a >>= f = f a
none >>= f = none

-- Inversion of a successful bind.
pub >>=-eq-some {ℓ κ} :
    {A : Type ℓ} {B : Type κ} (m : Option A) (f : A → Option B) {b : B}
    → (m >>= f) ≡ some b
    → (a : A) × (m ≡ some a) × (f a ≡ some b)
>>=-eq-some (some a) f h = (a, refl, h)
>>=-eq-some none f h = cc

-- What a fallible computation returns satisfies `P`.
abbrev pub Returns : {A : Type 0} → (A → Type 0) → Option A → Type 0
Returns P none = Unit
Returns P (some a) = P a

pub Returns-then :
    {A B : Type 0} (P : A → Type 0) (Q : B → Type 0) (m : Option A) (f : A → Option B)
    → Returns P m
    → ((a : A) → P a → Returns Q (f a))
    → Returns Q (m >>= f)
Returns-then P Q none f r h = tt
Returns-then P Q (some a) f r h = h a r

pub Returns-always :
    {A B : Type 0} (Q : B → Type 0) (m : Option A) (f : A → Option B)
    → ((a : A) → Returns Q (f a))
    → Returns Q (m >>= f)
Returns-always Q none f h = tt
Returns-always Q (some a) f h = h a

pub Returns-any : {A : Type 0} (o : Option A) → Returns (λ a. Unit) o
Returns-any none = tt
Returns-any (some a) = tt

pub Returns-imp :
    {A : Type 0} (P Q : A → Type 0) (m : Option A)
    → ((a : A) → P a → Q a)
    → Returns P m
    → Returns Q m
Returns-imp P Q none h r = tt
Returns-imp P Q (some a) h r = h a r

-- A fallible computation returns, and what it returns satisfies `P`.
abbrev pub Succeeds : {A : Type 0} → (A → Type 0) → Option A → Type 0
Succeeds P none = ⊥
Succeeds P (some a) = P a

pub Succeeds-then :
    {A B : Type 0} (P : A → Type 0) (Q : B → Type 0) (m : Option A) (f : A → Option B)
    → Succeeds P m
    → ((a : A) → P a → Succeeds Q (f a))
    → Succeeds Q (m >>= f)
Succeeds-then P Q none f r h = absurd r
Succeeds-then P Q (some a) f r h = h a r

pub Succeeds-imp :
    {A : Type 0} (P Q : A → Type 0) (m : Option A)
    → ((a : A) → P a → Q a)
    → Succeeds P m
    → Succeeds Q m
Succeeds-imp P Q none h s = absurd s
Succeeds-imp P Q (some a) h s = h a s

-- A computation that returns has what holds of its result.
pub Succeeds-run :
    {A : Type 0} (P Q : A → Type 0) (m : Option A)
    → Succeeds P m
    → ((a : A) → m ≡ some a → P a → Q a)
    → Succeeds Q m
Succeeds-run P Q none s h = absurd s
Succeeds-run P Q (some a) s h = h a refl s
