-- ===== src/Prelude/Maps.antt =====
-- A Go map with text keys, as an association list in which a key stands once.
use Prim.Native.String.{String}
use mathlib.Core.Path.{◌≡◌, refl, ap, ◌∙◌}
use mathlib.Core.Bool.{false}
use mathlib.Core.Option.{Option, none, some}
use mathlib.Core.List.{List, [], ◌∷◌}
use native.Mathlib.Omega.{arith}
use text.Mathlib.TextEquality.{eq_iff}
use konflux_ci.Prelude.Tests.{if◌then◌else◌}
use konflux_ci.Prelude.Equality.{◌==◌, string_eq, beq_refl}

abbrev pub Dict {ℓ} : Type ℓ → Type ℓ
Dict V = List (String × V)

module _ {ℓ} {V : Type ℓ} where
  unfoldable pub lookup : String → Dict V → Option V
  lookup k [] = none
  lookup k ((j, v) ∷ m) = if j == k then some v else lookup k m

  unfoldable pub insert : String → V → Dict V → Dict V
  insert k v [] = (k, v) ∷ []
  insert k v ((j, w) ∷ m) = let rest = insert k v m in if j == k then (k, v) ∷ m else (j, w) ∷ rest

  -- delete(m, k)
  unfoldable pub remove : String → Dict V → Dict V
  remove k [] = []
  remove k ((j, w) ∷ m) = let rest = remove k m in if j == k then rest else (j, w) ∷ rest

  pub lookup-insert :
      (written asked : String) (v : V) (m : Dict V)
      → (lookup asked (insert written v m) ≡ (if written == asked then some v else lookup asked m))
  unfolding lookup insert
  lookup-insert written asked v [] = refl
  lookup-insert written asked v (entry ∷ m) = ground (
    arith,
    lookup-insert written asked v m,
    eq_iff written asked,
    eq_iff entry.0 written,
    eq_iff entry.0 asked,
  )

  pub lookup-insert_same : (k : String) (v : V) (m : Dict V) → lookup k (insert k v m) ≡ some v
  lookup-insert_same k v m =
      lookup-insert k k v m ∙ ap (λ t. if t then some v else lookup k m) (beq_refl k)

  pub lookup-remove :
      (k j : String) (m : Dict V) → lookup j (remove k m) ≡ (if k == j then none else lookup j m)
  unfolding lookup remove
  lookup-remove k j [] = ground arith
  lookup-remove k j ((i, w) ∷ m) =
      ground (arith, eq_iff k j, eq_iff i k, eq_iff i j, lookup-remove k j m)

abbrev pub or_empty : Option String → String
or_empty none = ""
or_empty (some v) = v

-- m[k] on a map of texts, which is the empty text for a missing key
abbrev pub at : String → Dict String → String
at k m = or_empty (lookup k m)

pub at-insert_same : (k v : String) (m : Dict String) → at k (insert k v m) ≡ v
at-insert_same k v m =
    ap or_empty (lookup-insert k k v m)
    ∙ ap (λ t. or_empty (if t then some v else lookup k m)) (beq_refl k)

pub at-insert_other :
    (k j v : String) (m : Dict String) → (k == j) ≡ false → at j (insert k v m) ≡ at j m
at-insert_other k j v m h =
    ap or_empty (lookup-insert k j v m) ∙ ap (λ t. or_empty (if t then some v else lookup j m)) h

pub at-remove_same : (k : String) (m : Dict String) → at k (remove k m) ≡ ""
at-remove_same k m =
    ap or_empty (lookup-remove k k m)
    ∙ ap (λ t. or_empty (if t then none else lookup k m)) (beq_refl k)

pub at-remove_other :
    (k j : String) (m : Dict String) → (k == j) ≡ false → at j (remove k m) ≡ at j m
at-remove_other k j m h =
    ap or_empty (lookup-remove k j m) ∙ ap (λ t. or_empty (if t then none else lookup j m)) h
