-- ===== src/Overrides/Cuts.antt =====
-- Where operator/pkg/overrides/overrides.go cuts a text: strings.Index, strings.LastIndex and
-- strings.TrimSpace, over the characters of a text.
use text.Mathlib.TextLemmas.{nil-append, cons-append}
use text.Mathlib.TextEquality.{Char-path}
use konflux_ci.Prelude.{
  String, Char, code, Bool, true, false, ◌&&◌, ◌||◌, [], ◌∷◌, ◌≡◌, refl, sym, ap, ◌∙◌, Option, none,
  some, ◌&◌, ◌==◌, nat_eq, string_eq, eq_of_beq, beq_refl, any, leb, if◌then◌else◌, arith, inl, inr,
  Bool-cases, Option-cases,
}

-- The text of one character.
abbrev pub chr : Char → String
chr c = String.◌∷◌ c ""

unfoldable pub has_char : Char → String → Bool
has_char b String.[] = false
has_char b (String.◌∷◌ c s) = code c == code b || has_char b s

abbrev longer : Char → Option (String × String) → Option (String × String)
longer c none = none
longer c (some (x, y)) = some (String.◌∷◌ c x, y)

-- The texts before and after the first, or the last, place of a character.
unfoldable pub cut_first : Char → String → Option (String × String)
cut_first b String.[] = none
cut_first b (String.◌∷◌ c s) =
    let rest = cut_first b s in if code c == code b then some ("", s) else longer c rest

unfoldable pub cut_last : Char → String → Option (String × String)
cut_last b String.[] = none
cut_last b (String.◌∷◌ c s) = elim (cut_last b s) [
  | some (x, y) ↦ some (String.◌∷◌ c x, y)
  | none ↦ if code c == code b then some ("", s) else none
]

-- unicode.IsSpace
unfoldable pub is_space : Char → Bool
is_space c =
    any (λ n. n == code c)
      (9 ∷ 10 ∷ 11 ∷ 12 ∷ 13 ∷ 32 ∷ 0x85 ∷ 0xa0 ∷ 0x1680 ∷ 0x2028 ∷ 0x2029 ∷ 0x202f ∷ 0x205f
        ∷ 0x3000 ∷ [])
    || (leb 0x2000 (code c) && leb (code c) 0x200a)

unfoldable pub trim_left : String → String
trim_left String.[] = ""
trim_left (String.◌∷◌ c s) = let rest = trim_left s in if is_space c then rest else String.◌∷◌ c s

unfoldable pub trim_right : String → String
trim_right String.[] = ""
trim_right (String.◌∷◌ c s) =
    let rest = trim_right s in if rest == "" && is_space c then "" else String.◌∷◌ c rest

unfoldable pub trim_space : String → String
unfolding trim_left trim_right
trim_space s = trim_left (trim_right s)

-- strings.HasSuffix
unfoldable pub ends_with : String → String → Bool
ends_with String.[] t = t == ""
ends_with (String.◌∷◌ c s) t = let rest = ends_with s t in String.◌∷◌ c s == t || rest

pub chr-append : (c : Char) (s : String) → chr c & s ≡ String.◌∷◌ c s
chr-append c s = cons-append c "" s ∙ ap (λ t. String.◌∷◌ c t) (nil-append s)

here : (b : Char) (y : String) → "" & chr b & y ≡ String.◌∷◌ b y
here b y = nil-append (chr b & y) ∙ chr-append b y

there : (c b : Char) (x y : String) → String.◌∷◌ c x & chr b & y ≡ String.◌∷◌ c (x & chr b & y)
there c b x y = cons-append c x (chr b & y)

abbrev cut_into : String → String → Option (String × String)
cut_into x y = some (x, y)

-- Two cuts that are the same.
same_cut : (u v x y : String) → cut_into u v ≡ cut_into x y → (x ≡ u) × (y ≡ v)
same_cut u v x y h = (ground (arith, h), ground (arith, h))

-- A cut at the first character, and one further on.
cut_here :
    (b c : Char) (s x y : String)
    → (code c == code b) ≡ true
    → cut_into "" s ≡ cut_into x y
    → String.◌∷◌ c s ≡ x & chr b & y
cut_here b c s x y e h =
    let (p, q) = same_cut "" s x y h in
    rw (p, q) (ap (λ d. String.◌∷◌ d s) (Char-path c b (eq_of_beq e)) ∙ sym (here b s))

cut_there :
    (b c : Char) (s u v x y : String)
    → s ≡ u & chr b & v
    → cut_into (String.◌∷◌ c u) v ≡ cut_into x y
    → String.◌∷◌ c s ≡ x & chr b & y
cut_there b c s u v x y e h =
    let (p, q) = same_cut (String.◌∷◌ c u) v x y h in
    rw (p, q) (ap (λ t. String.◌∷◌ c t) e ∙ sym (there c b u v))

-- A cut loses nothing but the character.
pub cut_first-some : (b : Char) (s x y : String) → cut_first b s ≡ some (x, y) → s ≡ x & chr b & y
unfolding cut_first
cut_first-some b String.[] x y h = cc
cut_first-some b (String.◌∷◌ c s) x y h = elim (Bool-cases (code c == code b)) [
  | inl e ↦ cut_here b c s x y e (rw (e, cut_first) at h)
  | inr n ↦ elim (Option-cases (cut_first b s)) [
    | inl p ↦ absurd (ground (arith, n, p, h))
    | inr ((u, v), p) ↦
        cut_there b c s u v x y (cut_first-some b s u v p) (rw (n, p, cut_first) at h)
  ]
]

pub uncut_last : (b : Char) (s : String) → cut_last b s ≡ none → has_char b s ≡ false
unfolding cut_last has_char
uncut_last b String.[] h = refl
uncut_last b (String.◌∷◌ c s) h = ground (arith, uncut_last b s, h)

pub cut_last-some :
    (b : Char) (s x y : String)
    → cut_last b s ≡ some (x, y)
    → (s ≡ x & chr b & y) × (has_char b y ≡ false)
unfolding cut_last has_char
cut_last-some b String.[] x y h = cc
cut_last-some b (String.◌∷◌ c s) x y h = elim (Option-cases (cut_last b s)) [
  | inr ((u, v), p) ↦
      let h' : cut_into (String.◌∷◌ c u) v ≡ cut_into x y = rw (p, cut_last) at h in
      let (e, without) = cut_last-some b s u v p in
      (cut_there b c s u v x y e h', rw ((same_cut _ v x y h').1) without)
  | inl p ↦ elim (Bool-cases (code c == code b)) [
    | inr n ↦ absurd (ground (arith, n, p, h))
    | inl e ↦
        let h' : cut_into "" s ≡ cut_into x y = rw (p, cut_last, e) at h in
        (cut_here b c s x y e h', rw ((same_cut "" s x y h').1) (uncut_last b s p))
  ]
]

pub has_char-append : (b : Char) (x y : String) → has_char b (x & y) ≡ has_char b x || has_char b y
unfolding has_char
has_char-append b String.[] y = rw (nil-append y) refl
has_char-append b (String.◌∷◌ c x) y =
    rw (cons-append c x y) (ground (arith, has_char-append b x y))

-- A text without the character is not cut.
pub cut_first-none : (b : Char) (s : String) → has_char b s ≡ false → cut_first b s ≡ none
unfolding cut_first has_char
cut_first-none b String.[] h = refl
cut_first-none b (String.◌∷◌ c s) h = ground (arith, cut_first-none b s)

pub cut_last-none : (b : Char) (s : String) → has_char b s ≡ false → cut_last b s ≡ none
unfolding cut_last has_char
cut_last-none b String.[] h = refl
cut_last-none b (String.◌∷◌ c s) h = ground (arith, cut_last-none b s)

-- The first place, when the text before it has none, and the last one, when the text after it has none.
pub cut_first-append :
    (b : Char) (x y : String) → has_char b x ≡ false → cut_first b (x & chr b & y) ≡ some (x, y)
unfolding cut_first has_char
cut_first-append b String.[] y h = rw (here b y) (rw (beq_refl (code b)) refl)
cut_first-append b (String.◌∷◌ c x) y h =
    rw (there c b x y) (ground (arith, cut_first-append b x y, h))

pub cut_last-append :
    (b : Char) (x y : String) → has_char b y ≡ false → cut_last b (x & chr b & y) ≡ some (x, y)
unfolding cut_last has_char
cut_last-append b String.[] y h =
    rw (here b y) (ground (arith, cut_last-none b y h, beq_refl (code b)))
cut_last-append b (String.◌∷◌ c x) y h =
    rw (there c b x y) (ground (arith, cut_last-append b x y h))

pub uncut_first : (b : Char) (s : String) → cut_first b s ≡ none → has_char b s ≡ false
unfolding cut_first has_char
uncut_first b String.[] h = refl
uncut_first b (String.◌∷◌ c s) h = elim (Bool-cases (code c == code b)) [
  | inl e ↦ absurd (ground (arith, e, h))
  | inr n ↦ elim (Option-cases (cut_first b s)) [
    | inl p ↦ rw (n) (uncut_first b s p)
    | inr ((u, v), p) ↦ absurd (ground (arith, n, p, h))
  ]
]

-- What stands before the first place has no further one.
pub cut_first-before :
    (b : Char) (s x y : String) → cut_first b s ≡ some (x, y) → has_char b x ≡ false
unfolding cut_first has_char
cut_first-before b String.[] x y h = cc
cut_first-before b (String.◌∷◌ c s) x y h = elim (Bool-cases (code c == code b)) [
  | inl e ↦ rw ((same_cut "" s x y (rw (e, cut_first) at h)).0) refl
  | inr n ↦ elim (Option-cases (cut_first b s)) [
    | inl p ↦ absurd (ground (arith, n, p, h))
    | inr ((u, v), p) ↦
        rw ((same_cut (String.◌∷◌ c u) v x y (rw (n, p, cut_first) at h)).0)
          (rw (n) (cut_first-before b s u v p))
  ]
]
