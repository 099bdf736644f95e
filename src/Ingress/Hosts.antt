-- ===== src/Ingress/Hosts.antt =====
-- net/url's Hostname and Port, which operator/pkg/ingress/ingress.go takes from the endpoint.
use text.Mathlib.TextLemmas.{nil-append, cons-append}
use konflux_ci.Prelude.{
  String, Char, code, Bool, true, false, ◌&&◌, ◌≡◌, refl, sym, ap, subst, Option, none, some, ◌==◌,
  nat_eq, string_eq, beq_refl, leb, if◌then◌else◌, ◌&◌, arith, inl, inr, Option-cases, Bool-cases,
}
use konflux_ci.Overrides.Cuts.{
  cut_last, cut_last-none, cut_last-some, ends_with, has_char, chr, chr-append,
}

-- url.URL, of which the endpoints have the scheme and the host.
pub record Url : Type 0 where
  pub scheme : String
  pub host : String

-- https://host
abbrev pub https : String → Url
https host = record { scheme = "https"; host = host }

unfoldable pub all_digits : String → Bool
all_digits String.[] = true
all_digits (String.◌∷◌ c s) = leb b'0' (code c) && leb (code c) b'9' && all_digits s

unfoldable pub drop_first : String → String
drop_first String.[] = ""
drop_first (String.◌∷◌ c s) = s

unfoldable pub drop_last : String → String
drop_last String.[] = ""
drop_last (String.◌∷◌ c s) = let rest = drop_last s in if s == "" then "" else String.◌∷◌ c rest

-- strings.HasPrefix for a prefix of one character.
unfoldable pub first_is : Char → String → Bool
first_is b String.[] = false
first_is b (String.◌∷◌ c s) = code c == code b

abbrev pub without_brackets : String → String
without_brackets s = if first_is "[" s && ends_with s "]" then drop_last (drop_first s) else s

-- At the last colon, where only digits follow it.
abbrev pub split_at_colon : String → Option (String × String) → String × String
split_at_colon s none = (s, "")
split_at_colon s (some (x, y)) = if all_digits y then (x, y) else (s, "")

unfoldable pub split_host_port : String → String × String
split_host_port s = let (x, y) = split_at_colon s (cut_last ":" s) in (without_brackets x, y)

unfoldable pub hostname : Url → String
hostname u = (split_host_port u.host).0

unfoldable pub port : Url → String
port u = (split_host_port u.host).1

-- A text without a colon and an opening bracket, as the labels and domains of DNS are.
abbrev pub IsPlain : String → Type 0
IsPlain s = (has_char ":" s ≡ false) × (has_char "[" s ≡ false)

first_is-absent : (b : Char) (s : String) → has_char b s ≡ false → first_is b s ≡ false
unfolding first_is has_char
first_is-absent b String.[] h = refl
first_is-absent b (String.◌∷◌ c s) h = ground (arith, h)

ends_with-chr : (b : Char) (x : String) → ends_with (x & chr b & "") (chr b) ≡ true
unfolding ends_with
ends_with-chr b String.[] =
    rw (nil-append (chr b & ""), chr-append b "") (rw (beq_refl (chr b)) refl)
ends_with-chr b (String.◌∷◌ c x) =
    rw (cons-append c x (chr b & "")) (ground (arith, ends_with-chr b x))

unbracketed : (s : String) → has_char "[" s ≡ false → without_brackets s ≡ s
unbracketed s h = rw (first_is-absent "[" s h) refl

pub split_host_port-plain : (s : String) → IsPlain s → split_host_port s ≡ (s, "")
unfolding split_host_port
split_host_port-plain s (colon, bracket) =
    rw (cut_last-none ":" s colon) (ap (λ x. (x, "")) (unbracketed s bracket))

-- A host without a port that does not end in a colon and has no brackets is its own hostname.
pub split_host_port-portless :
    (s : String)
    → has_char "[" s ≡ false
    → ends_with s ":" ≡ false
    → (split_host_port s).1 ≡ ""
    → split_host_port s ≡ (s, "")
unfolding split_host_port
split_host_port-portless s bracket colon h = elim (Option-cases (cut_last ":" s)) [
  | inl p ↦ rw p (ap (λ x. (x, "")) (unbracketed s bracket))
  | inr ((x, y), p) ↦ elim (Bool-cases (all_digits y)) [
    | inr n ↦ rw (p, n) (ap (λ x. (x, "")) (unbracketed s bracket))
    | inl d ↦
        let empty : y ≡ "" = rw (p, d, split_host_port) at h in
        let ends : ends_with s ":" ≡ true =
          subst (λ t. ends_with t ":" ≡ true) (sym (cut_last-some ":" s x y p).0)
            (rw (empty) (ends_with-chr ":" x)) in
        absurd (ground (arith, ends, colon))
  ]
]
