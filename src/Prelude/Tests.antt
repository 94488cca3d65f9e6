-- ===== src/Prelude/Tests.antt =====
-- Boolean tests on the native numbers, and the conditional.
use Prim.Native.Nat.{ℕ, zero, suc, ◌≤◌, ◌<◌, compare, Ordering}
use mathlib.Core.Path.{◌≡◌, refl}
use mathlib.Core.Logic.{◌↔◌, ◌⊎◌, inl, inr}
use mathlib.Core.Bool.{Bool, true, false}
use mathlib.Core.Option.{Option, none, some}
use native.Mathlib.Omega.{arith}

-- These compute to `compare`, which `ground` and `grind` read with no lemma listed.
abbrev pub ltb : ℕ → ℕ → Bool
ltb a b = elim (compare a b) [ Ordering.lt ↦ true | _ ↦ false ]

abbrev pub leb : ℕ → ℕ → Bool
leb a b = elim (compare a b) [ Ordering.gt ↦ false | _ ↦ true ]

infix 50 ◌==◌
abbrev pub ◌==◌ : ℕ → ℕ → Bool
a == b = elim (compare a b) [ Ordering.eq ↦ true | _ ↦ false ]

infix 1 if◌then◌else◌
abbrev pub if◌then◌else◌ {ℓ} : {A : Type ℓ} → Bool → A → A → A
if true then x else y = x
if false then x else y = y

-- `omega` reads a test through such lemmas.
pub ltb→lt : (a b : ℕ) → ltb a b ≡ true → a < b
ltb→lt a b h = ground arith

pub lt→ltb : (a b : ℕ) → a < b → ltb a b ≡ true
lt→ltb a b h = ground arith

pub leb→le : (a b : ℕ) → leb a b ≡ true → a ≤ b
leb→le a b h = ground arith

pub ==_iff : (a b : ℕ) → ((a == b) ≡ true) ↔ (a ≡ b)
==_iff a b = ground arith

pub ruleset tests = (arith, ltb→lt, lt→ltb, leb→le)

-- To split on a computed value and keep the equation.
pub Bool-cases : (b : Bool) → (b ≡ true) ⊎ (b ≡ false)
Bool-cases true = inl refl
Bool-cases false = inr refl

pub Option-cases {ℓ} : {A : Type ℓ} (o : Option A) → (o ≡ none) ⊎ ((a : A) × (o ≡ some a))
Option-cases none = inl refl
Option-cases (some a) = inr (a, refl)

-- A table: the test holds at every number under a limit. It stands in for laws of the bit
-- operations, which the tactics do not read.
unfoldable pub table : ℕ → (ℕ → Bool) → Bool
table zero test = true
table (suc limit) test = if test limit then table limit test else false

pub table-entry :
    (limit : ℕ) (test : ℕ → Bool) (i : ℕ) → table limit test ≡ true → i < limit → test i ≡ true
unfolding table
table-entry zero test i checked under = elim under [ ]
table-entry (suc limit) test i checked under = ground (arith, table-entry limit test i)

-- A property of the value that a partial function returns, if it does.
pub data OnSome {ℓ κ} {A : Type ℓ} (P : A → Type κ) : Option A → Type (ℓ ⊔ κ) where
  nothing : OnSome P none
  just : {a : A} → P a → OnSome P (some a)

pub OnSome-some {ℓ κ} : {A : Type ℓ} {P : A → Type κ} {a : A} → OnSome P (some a) → P a
OnSome-some (just p) = p

pub OnSome-mono {ℓ κ} :
    {A : Type ℓ} {P Q : A → Type κ} {o : Option A} → ((a : A) → P a → Q a) → OnSome P o → OnSome Q o
OnSome-mono f nothing = nothing
OnSome-mono f (just p) = just (f _ p)

abbrev pub same : Bool → Bool → Bool
same true b = b
same false true = false
same false false = true

pub eq_of_same : (a b : Bool) → same a b ≡ true → a ≡ b
eq_of_same a b h = ground arith
