-- ===== src/Segment.antt =====
-- operator/pkg/segment/segment.go: where the Segment write key comes from. The Secret is read by
-- the function `get`; ExtractURLHostAndPath, which is a parse of net/url, is left out.
mod Tests
use konflux_ci.Prelude.{
  is_not_found, String, Bool, true, false, not, ◌≡◌, refl, ◌&&◌, Option, none, some, Dict, lookup,
  Error, ErrorKind, Result, ok, err, errorf, wrap, ◌&◌, ◌==◌, string_eq, if◌then◌else◌, arith,
  Result-cases, Option-cases, inl, inr,
}

-- corev1.SecretKeySelector
pub record SecretKeySelector : Type 0 where
  pub name : String
  pub key : String
  pub optional : Option Bool

unfoldable pub resolve_write_key : String → String → String × String
resolve_write_key cr_key secret_key =
    if not (cr_key == "")
    then (cr_key, "cr")
    else if not (secret_key == "")
    then (secret_key, "secret")
    else ("", "")

abbrev pub is_optional : SecretKeySelector → Bool
is_optional ref = elim ref.optional [ none ↦ false | some b ↦ b ]

module _ (get : String → String → Result (Dict String)) where
  abbrev pub read_key : String → SecretKeySelector → Result (Dict String) → Result String
  read_key namespace ref (err e) =
      if is_not_found e.kind && is_optional ref
      then ok ""
      else err (
          wrap
            ("failed to get Secret " & namespace & "/" & ref.name
              & " referenced by segmentKeySecretRef: ")
            e)
  read_key namespace ref (ok contents) = elim (lookup ref.key contents) [
    | some value ↦ ok value
    | none ↦
        if is_optional ref
        then ok ""
        else err (
            errorf (
              "key \"" & ref.key & "\" not found in Secret " & namespace & "/" & ref.name
              & " referenced by segmentKeySecretRef"))
  ]

  unfoldable pub resolve_write_key_secret_ref : String → Option SecretKeySelector → Result String
  resolve_write_key_secret_ref namespace none = ok ""
  resolve_write_key_secret_ref namespace (some ref) =
      read_key namespace ref (get namespace ref.name)

  -- The Secret is there and has the key.
  abbrev pub Holds : String → SecretKeySelector → String → Type 0
  Holds namespace ref value =
      (contents : Dict String) × (get namespace ref.name ≡ ok contents)
      × (lookup ref.key contents ≡ some value)

  -- A reference that is not optional resolves only to what the Secret holds under the key; an
  -- inline key, where there is one, is what is used whatever the reference resolves to.
  pub resolved_value :
      (namespace cr_key : String) (ref : SecretKeySelector) (value : String)
      → is_optional ref ≡ false
      → resolve_write_key_secret_ref namespace (some ref) ≡ ok value
      → Holds namespace ref value
        × ((resolve_write_key cr_key value).0 ≡ (if cr_key == "" then value else cr_key))
  unfolding resolve_write_key_secret_ref resolve_write_key
  resolved_value namespace cr_key ref value o h = elim (Result-cases (get namespace ref.name)) [
    | inr (e, p) ↦ absurd (ground (arith, p, o, h))
    | inl (contents, p) ↦ elim (Option-cases (lookup ref.key contents)) [
      | inl q ↦ absurd (ground (arith, p, q, o, h))
      | inr (v, q) ↦
          ((contents, p, ground (arith, p, q, h)), ground (arith, string_eq.agrees value ""))
    ]
  ]
