-- ===== src/Base/Options.antt =====
-- Chains of options, and what it means that one was passed.
use mathlib.Core.Path.{◌≡◌, refl, ap}
use mathlib.Core.Bool.{Bool, true, false}
use mathlib.Core.Option.{Option, none, some}
use packet_radio_rs.Base.Tests.{if◌then◌else◌}

infixl 5 ◌>>=◌
abbrev pub ◌>>=◌ : {A B : Type 0} → Option A → (A → Option B) → Option B
none >>= f = none
some a >>= f = f a

pub some_inj : {A : Type 0} (a b : A) → some a ≡ some b → a ≡ b
some_inj {A} a b e = ap (λ (o : Option A). elim o [ none ↦ a | some x ↦ x ]) e

-- A guard that returns nothing was passed.
pub guard_passed :
    {A : Type 0} (c : Bool) (x : Option A) (a : A)
    → (if c then none else x) ≡ some a
    → (c ≡ false) × (x ≡ some a)
guard_passed true x a h = absurd (cc)
guard_passed false x a h = (refl, h)

-- A test that returns nothing where it fails was passed.
pub test_passed :
    {A : Type 0} (c : Bool) (x : Option A) (a : A)
    → (if c then x else none) ≡ some a
    → (c ≡ true) × (x ≡ some a)
test_passed true x a h = (refl, h)
test_passed false x a h = absurd (cc)

-- A step of a chain succeeded.
pub bind_passed :
    {A B : Type 0} (o : Option A) (f : A → Option B) (b : B)
    → (o >>= f) ≡ some b
    → (a : A) × (o ≡ some a) × (f a ≡ some b)
bind_passed none f b h = absurd (cc)
bind_passed (some a) f b h = (a, refl, h)

-- A case on an option gave a result.
pub case_passed :
    {A B : Type 0} (o : Option A) (f : A → Option B) (b : B)
    → (elim o as (λ o. Option B) [ none ↦ none | some a ↦ f a ]) ≡ some b
    → (a : A) × (o ≡ some a) × (f a ≡ some b)
case_passed none f b h = absurd (cc)
case_passed (some a) f b h = (a, refl, h)
