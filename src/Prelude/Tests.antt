-- ===== src/Prelude/Tests.antt =====
-- Boolean tests on the native numbers and on texts, the conditional, and case lemmas.
use Prim.Native.Nat.{ℕ, compare, Ordering}
use Prim.Native.String.{String}
use mathlib.Core.Path.{◌≡◌, refl}
use mathlib.Core.Logic.{◌↔◌, ◌⊎◌, inl, inr}
use mathlib.Core.Bool.{Bool, true, false, false≢true}
use mathlib.Core.Option.{Option, none, some}
use text.Mathlib.Text.{◌==◌ as str_eq}
use text.Mathlib.TextEquality.{eq_iff}

abbrev pub ltb : ℕ → ℕ → Bool
ltb a b = elim (compare a b) [ Ordering.lt ↦ true | _ ↦ false ]

abbrev pub leb : ℕ → ℕ → Bool
leb a b = elim (compare a b) [ Ordering.gt ↦ false | _ ↦ true ]

infix 50 ◌==◌
abbrev pub ◌==◌ : ℕ → ℕ → Bool
a == b = elim (compare a b) [ Ordering.eq ↦ true | _ ↦ false ]

infix 1 if◌then◌else◌
abbrev pub if◌then◌else◌ {ℓ} : {A : Type ℓ} → Bool → A → A → A
if true then x else y = x
if false then x else y = y

pub Bool-cases : (b : Bool) → (b ≡ true) ⊎ (b ≡ false)
Bool-cases true = inl refl
Bool-cases false = inr refl

pub Option-cases {ℓ} : {A : Type ℓ} (o : Option A) → (o ≡ none) ⊎ ((a : A) × (o ≡ some a))
Option-cases none = inl refl
Option-cases (some a) = inr (a, refl)

decide_by : {P : Type 0} (b : Bool) → (b ≡ true) ↔ P → Dec P
decide_by true h = yes (h.0 refl)
decide_by false h = no (λ p. false≢true (h.1 p))

-- `===` on texts, as a decision.
unfoldable pub str_discrete : Discrete String
unfolding decide_by
str_discrete a b = decide_by (str_eq a b) (eq_iff a b)

-- The same as a Boolean test, and the truth of a text that may be missing: `null` and "" are false.
infix 50 ◌===◌
abbrev pub ◌===◌ : String → String → Bool
a === b = elim (str_discrete a b) [ yes _ ↦ true | no _ ↦ false ]

abbrev pub is_truthy : Option String → Bool
is_truthy none = false
is_truthy (some s) = elim (str_discrete s "") [ yes _ ↦ false | no _ ↦ true ]

abbrev pub is_none {ℓ} : {A : Type ℓ} → Option A → Bool
is_none none = true
is_none (some a) = false

-- `value === text` for a value that may be missing.
abbrev pub is_text : Option String → String → Bool
is_text none b = false
is_text (some a) b = a === b
