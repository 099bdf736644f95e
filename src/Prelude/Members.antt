-- ===== src/Prelude/Members.antt =====
-- Membership by Boolean tests.
use mathlib.Core.Path.{◌≡◌, sym}
use mathlib.Core.Logic.{inl, inr}
use mathlib.Core.Bool.{true, false}
use mathlib.Core.List.{List, [], ◌∷◌, Memᴰ}
use konflux_ci.Prelude.Tests.{Bool-cases}
use konflux_ci.Prelude.Equality.{GoEq, ◌==◌, eq_of_beq, beq_refl}
use konflux_ci.Prelude.Lists.{any}

module _ {ℓ} {A : Type ℓ} ⦃e : GoEq A⦄ where
  pub mem_of_any : (a : A) (xs : List A) → any (λ k. k == a) xs ≡ true → Memᴰ a xs
  mem_of_any a [] h = cc
  mem_of_any a (x ∷ xs) h = elim (Bool-cases (x == a)) [
    | inl p ↦ Memᴰ.head (sym (eq_of_beq p))
    | inr p ↦ Memᴰ.tail (mem_of_any a xs (rw p at h))
  ]

  pub any_of_mem : {a : A} {xs : List A} → Memᴰ a xs → any (λ k. k == a) xs ≡ true
  any_of_mem {a} (Memᴰ.head {x = x} p) = rw (← p) (rw (beq_refl a))
  any_of_mem {a} (Memᴰ.tail {x = x} m) = elim (Bool-cases (x == a)) [
    | inl p ↦ rw p
    | inr p ↦ rw p (any_of_mem m)
  ]

  pub not_mem_of_any : (a : A) (xs : List A) → any (λ k. k == a) xs ≡ false → ¬ Memᴰ a xs
  not_mem_of_any a xs h m = cc (any_of_mem m)
