-- ===== src/Prelude/Checked.antt =====
-- A chain of checks: refused with a message, or passed with what the next check uses.
use Prim.Native.String.{String}
use mathlib.Core.Path.{◌≡◌, refl}
use mathlib.Core.Logic.{◌⊎◌, inl, inr}
use mathlib.Core.Bool.{Bool, true, false}
use rdws_us.Prelude.Tests.{if◌then◌else◌}

pub data Checked {ℓ} (A : Type ℓ) : Type ℓ where
  refused : String → Checked A
  passed : A → Checked A

infixl 5 ◌>>=◌
abbrev pub ◌>>=◌ {ℓ κ} : {A : Type ℓ} {B : Type κ} → Checked A → (A → Checked B) → Checked B
refused m >>= f = refused m
passed a >>= f = f a

infixl 5 ◌>>◌
abbrev pub ◌>>◌ {ℓ κ} : {A : Type ℓ} {B : Type κ} → Checked A → Checked B → Checked B
m >> k = m >>= (λ _. k)

abbrev pub require : Bool → String → Checked {0} Unit
require test m = if test then passed tt else refused m

pub >>=-eq-passed {ℓ κ} :
    {A : Type ℓ} {B : Type κ} (m : Checked A) (f : A → Checked B) {b : B}
    → (m >>= f) ≡ passed b
    → (a : A) × (m ≡ passed a) × (f a ≡ passed b)
>>=-eq-passed (passed a) f h = (a, refl, h)
>>=-eq-passed (refused m) f h = cc

pub require-eq-passed :
    (test : Bool) (m : String) (u : Unit) → require test m ≡ passed u → test ≡ true
require-eq-passed true m u h = refl
require-eq-passed false m u h = cc

pub passed-injective {ℓ} : {A : Type ℓ} (a b : A) → passed a ≡ passed b → a ≡ b
passed-injective a b h = cc

pub Checked-cases {ℓ} :
    {A : Type ℓ} (c : Checked A) → ((m : String) × (c ≡ refused m)) ⊎ ((a : A) × (c ≡ passed a))
Checked-cases (refused m) = inl (m, refl)
Checked-cases (passed a) = inr (a, refl)
