-- ===== src/Prelude/Monad.antt =====
-- Undefined behaviour as `none`: a null or out-of-range pointer that is read or written.
use Prim.Native.Nat.{ℕ}
use mathlib.Core.Option.{Option, none, some}
use mathlib.Core.Bool.{Bool, true, false}
use mathlib.Core.Path.{◌≡◌, refl, subst}
use toy_softswitch.Prelude.Tests.{◌==◌, if◌then◌else◌}

infixl 5 ◌>>=◌ ◌>>◌
abbrev pub ◌>>=◌ {ℓ κ} : {A : Type ℓ} {B : Type κ} → Option A → (A → Option B) → Option B
none >>= f = none
some a >>= f = f a

abbrev pub ◌>>◌ {κ} : {B : Type κ} → Option (Unit {0}) → Option B → Option B
m >> k = m >>= λ _. k

-- The program stops where an assertion fails.
abbrev pub assert : Bool → Option (Unit {0})
assert true = some tt
assert false = none

-- A function changed at one index: an array after a write.
abbrev pub update {ℓ} : {A : Type ℓ} → (ℕ → A) → ℕ → A → ℕ → A
update f i a j = if i == j then a else f j

-- A run that is defined, with a property of its result.
abbrev pub Yields {ℓ} : {A : Type ℓ} → Option A → (A → Type 0) → Type 0
Yields none P = ⊥
Yields (some a) P = P a

pub Yields_mono {ℓ} :
    {A : Type ℓ} {P Q : A → Type 0} (r : Option A) → Yields r P → ((a : A) → P a → Q a) → Yields r Q
Yields_mono none y weaken = y
Yields_mono (some a) y weaken = weaken a y

pub Yields_bind {ℓ κ} :
    {A : Type ℓ} {B : Type κ} {P : A → Type 0} (r : Option A) (f : A → Option B) (Q : B → Type 0)
    → Yields r P
    → ((a : A) → P a → Yields (f a) Q)
    → Yields (r >>= f) Q
Yields_bind none f Q y next = y
Yields_bind (some a) f Q y next = next a y

pub Yields_at {ℓ} :
    {A : Type ℓ} (P : A → Type 0) (r : Option A) (a : A) → Yields r P → r ≡ some a → P a
Yields_at P r a y e = subst (λ o. Yields o P) e y

pub Yields_some {ℓ} :
    {A : Type ℓ} (P : A → Type 0) (r : Option A) → Yields r P → (a : A) × (r ≡ some a) × P a
Yields_some P none y = absurd y
Yields_some P (some a) y = (a, refl, y)
