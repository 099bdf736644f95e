-- ===== src/Prelude/Text.antt =====
-- Text: Go's `+` on strings, `strconv.Itoa`, `strings.Join` and `strings.ReplaceAll` of "/" by ".".
use Prim.Native.Nat.{ℕ, zero, suc, ◌/◌, ◌%◌}
use Prim.Native.Char.{code}
use Prim.Native.String.{String}
use mathlib.Core.Path.{◌≡◌, refl}
use mathlib.Core.List.{List, [], ◌∷◌}
use konflux_ci.Prelude.Tests.{ltb, if◌then◌else◌}
use konflux_ci.Prelude.Equality.{◌==◌, nat_eq}
pub use text.Mathlib.Text.{starts_with}

infixr 65 ◌&◌
abbrev pub ◌&◌ : String → String → String
s & t = Prim.Native.String.◌++◌ s t

-- strings.ReplaceAll(s, "/", ".")
unfoldable pub dots_for_slashes : String → String
dots_for_slashes String.[] = ""
dots_for_slashes (String.◌∷◌ c s) =
    (if code c == b'/' then "." else String.◌∷◌ c "") & dots_for_slashes s

-- strings.Join(parts, sep)
unfoldable pub join : String → List String → String
join sep [] = ""
join sep (x ∷ []) = x
join sep (x ∷ y ∷ rest) = x & sep & join sep (y ∷ rest)

digit : ℕ → String
digit n =
    if n == 0
    then "0"
    else if n == 1
    then "1"
    else if n == 2
    then "2"
    else if n == 3
    then "3"
    else if n == 4
    then "4"
    else if n == 5
    then "5"
    else if n == 6
    then "6"
    else if n == 7
    then "7"
    else if n == 8
    then "8"
    else "9"

-- One digit for each unit of fuel: a number has no more digits than its successor.
itoa_fuel : ℕ → ℕ → String
itoa_fuel zero n = ""
itoa_fuel (suc f) n =
    let front = itoa_fuel f (n / 10) in if ltb n 10 then digit n else front & digit (n % 10)

-- The decimal text of a number, as `%d` prints it.
unfoldable pub itoa : ℕ → String
unfolding itoa_fuel digit
itoa n = itoa_fuel (suc n) n

itoa_test : itoa 1203 ≡ "1203"
unfolding itoa
itoa_test = refl

dots_test : dots_for_slashes "a/b/c" ≡ "a.b.c"
unfolding dots_for_slashes
dots_test = refl

join_test : join "; " ("a" ∷ "b" ∷ []) ≡ "a; b"
unfolding join
join_test = refl
