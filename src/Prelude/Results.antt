-- ===== src/Prelude/Results.antt =====
-- Errors as values. A Go `error` keeps the class that the callers test for (`IsNotFound`,
-- `IsAlreadyExists`, `IsNoMatchError`), which wrapping by `%w` preserves, and its text.
use Prim.Native.String.{String}
use mathlib.Core.Bool.{Bool, true, false}
use mathlib.Core.Path.{◌≡◌, refl}
use mathlib.Core.Logic.{◌⊎◌, inl, inr}
use konflux_ci.Prelude.Text.{◌&◌}

pub data ErrorKind : Type 0 where
  not_found already_exists no_match other : ErrorKind

abbrev pub is_not_found : ErrorKind → Bool
is_not_found ErrorKind.not_found = true
is_not_found _ = false

abbrev pub is_no_match : ErrorKind → Bool
is_no_match ErrorKind.no_match = true
is_no_match _ = false

pub record Error : Type 0 where
  pub kind : ErrorKind
  pub message : String

-- fmt.Errorf(text)
abbrev pub errorf : String → Error
errorf text = record { kind = other; message = text }

-- fmt.Errorf(prefix + "%w", e)
abbrev pub wrap : String → Error → Error
wrap prefix e = record { kind = e.kind; message = prefix & e.message }

pub data Result {ℓ} (A : Type ℓ) : Type ℓ where
  ok : A → Result A
  err : Error → Result A

pub Result-cases {ℓ} :
    {A : Type ℓ} (r : Result A) → ((a : A) × (r ≡ ok a)) ⊎ ((e : Error) × (r ≡ err e))
Result-cases (ok a) = inl (a, refl)
Result-cases (err e) = inr (e, refl)
