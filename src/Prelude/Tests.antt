-- ===== src/Prelude/Tests.antt =====
-- Boolean tests: orders of numbers, and `==` of every type that the program compares.
use Prim.Native.Nat.{ℕ, ◌≤◌, ◌<◌, compare, Ordering}
use Prim.Native.String.{String}
use mathlib.Core.Path.{◌≡◌, refl, sym, ◌∙◌}
use mathlib.Core.Logic.{◌↔◌, ◌≢◌, ◌⊎◌, inl, inr}
use mathlib.Core.Bool.{Bool, true, false, not, ◌&&◌, ◌||◌, false≢true}
use mathlib.Core.Option.{Option, none, some}
use native.Mathlib.Omega.{arith}
use text.Mathlib.Text.{◌==◌ as string_beq}
use text.Mathlib.TextEquality.{eq_iff}

abbrev pub ltb : ℕ → ℕ → Bool
ltb a b = elim (compare a b) [ Ordering.lt ↦ true | _ ↦ false ]

abbrev pub leb : ℕ → ℕ → Bool
leb a b = elim (compare a b) [ Ordering.gt ↦ false | _ ↦ true ]

abbrev pub nat_beq : ℕ → ℕ → Bool
nat_beq a b = elim (compare a b) [ Ordering.eq ↦ true | _ ↦ false ]

infix 1 if◌then◌else◌
abbrev pub if◌then◌else◌ {ℓ} : {A : Type ℓ} → Bool → A → A → A
if true then x else y = x
if false then x else y = y

pub ltb→lt : (a b : ℕ) → ltb a b ≡ true → a < b
ltb→lt a b h = ground arith

pub lt→ltb : (a b : ℕ) → a < b → ltb a b ≡ true
lt→ltb a b h = ground arith

pub leb→le : (a b : ℕ) → leb a b ≡ true → a ≤ b
leb→le a b h = ground arith

-- To split on a computed value and keep the equation.
pub Bool-cases : (b : Bool) → (b ≡ true) ⊎ (b ≡ false)
Bool-cases true = inl refl
Bool-cases false = inr refl

pub Option-cases {ℓ} :
    {T : Type ℓ} (found : Option T) → (found ≡ none) ⊎ ((x : T) × (found ≡ some x))
Option-cases (some x) = inr (x, refl)
Option-cases none = inl refl

-- A type whose values Python's `==` compares.
pub record Comparable {ℓ} (T : Type ℓ) : Type ℓ where
  pub same : (x y : T) → Bool
  pub same_iff : (x y : T) → (same x y ≡ true) ↔ (x ≡ y)

infix 50 ◌==◌
abbrev pub ◌==◌ {ℓ} : {T : Type ℓ} ⦃c : Comparable T⦄ → T → T → Bool
◌==◌ ⦃c⦄ x y = c.same x y

pub nat_beq_iff : (a b : ℕ) → (nat_beq a b ≡ true) ↔ (a ≡ b)
nat_beq_iff a b = (λ h. ground arith, λ h. ground arith)

instance abbrev pub nat_eq : Comparable ℕ
nat_eq = record { same = nat_beq; same_iff = nat_beq_iff }

instance abbrev pub string_eq : Comparable String
string_eq = record { same = string_beq; same_iff = eq_iff }

module _ {ℓ} {A B : Type ℓ} ⦃e : Comparable A⦄ ⦃f : Comparable B⦄ where
  abbrev pub pair_beq : A × B → A × B → Bool
  pair_beq (a, b) (c, d) = e.same a c && f.same b d

  pub pair_beq_iff : (p q : A × B) → (pair_beq p q ≡ true) ↔ (p ≡ q)
  pair_beq_iff (a, b) (c, d) = (
    λ h. ground (arith, (e.same_iff a c).0, (f.same_iff b d).0),
    λ h. ground (arith, (e.same_iff a c).1, (f.same_iff b d).1),
  )

  instance abbrev pub pair_eq : Comparable (A × B)
  pair_eq = record { same = pair_beq; same_iff = pair_beq_iff }

pub beq_refl {ℓ} : {A : Type ℓ} ⦃e : Comparable A⦄ (a : A) → (a == a) ≡ true
beq_refl ⦃e⦄ a = (e.same_iff a a).1 refl

pub beq_eq {ℓ} : {A : Type ℓ} ⦃e : Comparable A⦄ (a b : A) → (a == b) ≡ true → a ≡ b
beq_eq ⦃e⦄ a b = (e.same_iff a b).0

pub beq_ne {ℓ} : {A : Type ℓ} ⦃e : Comparable A⦄ (a b : A) → (a == b) ≡ false → a ≢ b
beq_ne ⦃e⦄ a b h same = false≢true (sym h ∙ (e.same_iff a b).1 same)

pub eq_of_some {ℓ} : {A : Type ℓ} {a b : A} → some a ≡ some b → a ≡ b
eq_of_some e = ground arith

-- A Boolean test of a compound, from the tests of its parts.
module _ {ℓ κ} {P : Type ℓ} {Q : Type κ} where
  pub or_iff : (a b : Bool) → ((a ≡ true) ↔ P) → ((b ≡ true) ↔ Q) → ((a || b) ≡ true) ↔ (P ⊎ Q)
  or_iff true b f g = (λ h. inl (f.0 refl), λ x. refl)
  or_iff false b f g =
      (λ h. inr (g.0 h), λ x. elim x [ inl p ↦ elim (false≢true (f.1 p)) [ ] | inr q ↦ g.1 q ])

  pub and_iff : (a b : Bool) → ((a ≡ true) ↔ P) → ((b ≡ true) ↔ Q) → ((a && b) ≡ true) ↔ (P × Q)
  and_iff true b f g = (λ h. (f.0 refl, g.0 h), λ x. g.1 x.1)
  and_iff false b f g = (λ h. elim (false≢true h) [ ], λ x. f.1 x.0)

pub not_iff {ℓ} : {P : Type ℓ} (a : Bool) → ((a ≡ true) ↔ P) → (not a ≡ true) ↔ (P → ⊥)
not_iff true f = (λ h. elim (false≢true h) [ ], λ n. elim (n (f.0 refl)) [ ])
not_iff false f = (λ h p. false≢true (f.1 p), λ n. refl)
