-- ===== src/Prelude/Equality.antt =====
-- One Boolean equality, `==`, for every type of the program that Go compares.
use Prim.Native.Nat.{ℕ, compare, Ordering}
use Prim.Native.String.{String}
use mathlib.Core.Path.{◌≡◌, refl}
use mathlib.Core.Logic.{◌↔◌, ◌≢◌}
use mathlib.Core.Bool.{Bool, true, false}
use native.Mathlib.Omega.{arith}
use text.Mathlib.Text.{◌==◌ as str_eq}
use text.Mathlib.TextEquality.{eq_iff}

-- What `==` answers on a type, and that it answers true exactly on equal values.
pub record GoEq {ℓ} (T : Type ℓ) : Type ℓ where
  pub test : T → T → Bool
  pub agrees : (x y : T) → (test x y ≡ true) ↔ (x ≡ y)

infix 50 ◌==◌
abbrev pub ◌==◌ {ℓ} : {T : Type ℓ} ⦃same : GoEq T⦄ → T → T → Bool
◌==◌ ⦃same⦄ = same.test

abbrev pub nat_beq : ℕ → ℕ → Bool
nat_beq a b = elim (compare a b) [ Ordering.eq ↦ true | _ ↦ false ]

pub nat_beq_iff : (a b : ℕ) → (nat_beq a b ≡ true) ↔ (a ≡ b)
nat_beq_iff a b = ground arith

instance abbrev pub nat_eq : GoEq ℕ
nat_eq = record { test = nat_beq; agrees = nat_beq_iff }

instance abbrev pub string_eq : GoEq String
string_eq = record { test = str_eq; agrees = eq_iff }

module _ {ℓ} {A : Type ℓ} ⦃e : GoEq A⦄ where
  pub eq_of_beq : {a b : A} → (a == b) ≡ true → a ≡ b
  eq_of_beq {a} {b} h = (e.agrees a b).0 h

  pub beq_refl : (a : A) → (a == a) ≡ true
  beq_refl a = (e.agrees a a).1 refl

  pub ne_of_beq : {a b : A} → (a == b) ≡ false → a ≢ b
  ne_of_beq {a} {b} h p = cc ((e.agrees a b).1 p, h)

  pub beq_of_ne : {a b : A} → a ≢ b → (a == b) ≡ false
  beq_of_ne {a} {b} h = go (a == b) (e.agrees a b).0
    where
      go : (t : Bool) → (t ≡ true → a ≡ b) → t ≡ false
      go true k = absurd (h (k refl))
      go false k = refl
