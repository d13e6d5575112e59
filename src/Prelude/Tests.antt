-- ===== src/Prelude/Tests.antt =====
-- Boolean tests on the native numbers, the conditional, and writes to a function.
use Prim.Native.Nat.{ℕ, zero, suc, ◌<◌, compare, Ordering}
use mathlib.Core.Path.{◌≡◌, refl}
use mathlib.Core.Logic.{◌≢◌, ◌⊎◌, inl, inr}
use mathlib.Core.Bool.{Bool, true, false, not, ◌&&◌}
use mathlib.Core.Option.{Option, none, some}
use native.Mathlib.Omega.{arith}

abbrev pub ltb : ℕ → ℕ → Bool
ltb a b = elim (compare a b) [ Ordering.lt ↦ true | _ ↦ false ]

abbrev pub leb : ℕ → ℕ → Bool
leb a b = elim (compare a b) [ Ordering.gt ↦ false | _ ↦ true ]

infix 50 ◌==◌
abbrev pub ◌==◌ : ℕ → ℕ → Bool
a == b = elim (compare a b) [ Ordering.eq ↦ true | _ ↦ false ]

infix 1 if◌then◌else◌
abbrev pub if◌then◌else◌ {ℓ} : {A : Type ℓ} → Bool → A → A → A
if true then x else y = x
if false then x else y = y

pub lt→ltb : (a b : ℕ) → a < b → ltb a b ≡ true
lt→ltb a b h = ground arith

pub eq→== : (a b : ℕ) → a ≡ b → (a == b) ≡ true
eq→== a b h = ground arith

pub ==→eq : (a b : ℕ) → (a == b) ≡ true → a ≡ b
==→eq a b h = ground arith

pub ==_refl : (a : ℕ) → (a == a) ≡ true
==_refl a = ground arith

pub ne→== : (a b : ℕ) → a ≢ b → (a == b) ≡ false
ne→== a b h = ground arith

-- A split on a computed value that keeps the equation.
pub Bool-cases : (b : Bool) → (b ≡ true) ⊎ (b ≡ false)
Bool-cases true = inl refl
Bool-cases false = inr refl

pub Option-cases {ℓ} : {A : Type ℓ} (o : Option A) → (o ≡ none) ⊎ ((a : A) × (o ≡ some a))
Option-cases none = inl refl
Option-cases (some a) = inr (a, refl)

-- `f` with the value at `i` replaced: a write to memory or to a table of objects.
abbrev pub update {ℓ} : {Cell : Type ℓ} (table : ℕ → Cell) (at : ℕ) (new : Cell) → ℕ → Cell
update table at new i = if i == at then new else table i

pub update_here {ℓ} :
    {Cell : Type ℓ} (table : ℕ → Cell) (at : ℕ) (new : Cell) → update table at new at ≡ new
update_here table at new = rw (==_refl at) refl

pub update_away {ℓ} :
    {Cell : Type ℓ} (table : ℕ → Cell) (at : ℕ) (new : Cell) (i : ℕ)
    → i ≢ at
    → update table at new i ≡ table i
update_away table at new i away = rw (ne→== i at away) refl

-- Both branches of a conditional are shown to be one value.
pub if_either {ℓ} :
    {A : Type ℓ} {x y z : A} (b : Bool)
    → (b ≡ true → x ≡ z)
    → (b ≡ false → y ≡ z)
    → (if b then x else y) ≡ z
if_either true left right = left refl
if_either false left right = right refl

-- Whether two tests agree.
abbrev pub same : Bool → Bool → Bool
same true b = b
same false b = not b

pub same→eq : (a b : Bool) → same a b ≡ true → a ≡ b
same→eq a b h = ground arith

-- Whether a test passes at every number below the first argument.
unfoldable pub all_below : ℕ → (ℕ → Bool) → Bool
all_below zero test = true
all_below (suc bound) test = test bound && all_below bound test

pub all_below_of :
    (bound : ℕ) (test : ℕ → Bool)
    → ((i : ℕ) → i < bound → test i ≡ true)
    → all_below bound test ≡ true
unfolding all_below
all_below_of zero test each = refl
all_below_of (suc bound) test each =
    ground (arith, each bound (omega arith), all_below_of bound test (λ i lt. each i (omega arith)))

-- A table that passed says what it says of each of its rows.
pub all_below_sound :
    (bound : ℕ) (test : ℕ → Bool) (i : ℕ) → all_below bound test ≡ true → i < bound → test i ≡ true
unfolding all_below
all_below_sound zero test i passed below = absurd (omega arith)
all_below_sound (suc bound) test i passed below = ground (arith, all_below_sound bound test i)
