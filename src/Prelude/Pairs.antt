-- ===== src/Prelude/Pairs.antt =====
-- A relation that holds of two lists, place by place.
use Prim.Native.Nat.{ℕ, zero, suc}
use mathlib.Core.Path.{◌≡◌, subst}
use mathlib.Core.Option.{some}
use mathlib.Core.List.{List, [], ◌∷◌}
use konflux_ci.Prelude.Lists.{get_elem?, set}

abbrev pub All₂ : {A B : Type 0} → (A → B → Type 0) → List A → List B → Type 0
All₂ R [] [] = Unit
All₂ R (a ∷ xs) (b ∷ ys) = R a b × All₂ R xs ys
All₂ R [] (b ∷ ys) = ⊥
All₂ R (a ∷ xs) [] = ⊥

module _ {A B : Type 0} (R S : A → B → Type 0) where
  pub All₂-map :
      (xs : List A) (ys : List B) → ((a : A) (b : B) → R a b → S a b) → All₂ R xs ys → All₂ S xs ys
  All₂-map [] [] h all = tt
  All₂-map (a ∷ xs) (b ∷ ys) h all = (h a b all.0, All₂-map xs ys h all.1)
  All₂-map [] (b ∷ ys) h all = all
  All₂-map (a ∷ xs) [] h all = all

  -- One place of the second list changes, and the rest is carried along.
  pub All₂-set :
      (xs : List A) (ys : List B) (i : ℕ) {b : B} (b' : B)
      → ((a : A) (c : B) → R a c → S a c)
      → ((a : A) → R a b → S a b')
      → get_elem? ys i ≡ some b
      → All₂ R xs ys
      → All₂ S xs (set ys i b')
  All₂-set [] [] i b' keep here e all = tt
  All₂-set (a ∷ xs) (c ∷ ys) zero {b} b' keep here e all =
      let p : c ≡ b = cc in (here a (subst (R a) p all.0), All₂-map xs ys keep all.1)
  All₂-set (a ∷ xs) (c ∷ ys) (suc i) b' keep here e all =
      (keep a c all.0, All₂-set xs ys i b' keep here e all.1)
  All₂-set [] (c ∷ ys) i b' keep here e all = absurd all
  All₂-set (a ∷ xs) [] i b' keep here e all = absurd all
