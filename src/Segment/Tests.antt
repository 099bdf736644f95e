-- ===== src/Segment/Tests.antt =====
-- The theorem on the write key at a Secret with one key.
use konflux_ci.Prelude.{
  String, [], ◌∷◌, ◌≡◌, refl, none, Dict, lookup, Result, ok, ◌==◌, string_eq, if◌then◌else◌,
}
use konflux_ci.Segment.{
  SecretKeySelector, resolve_write_key, resolve_write_key_secret_ref, Holds, resolved_value,
}

abbrev one_key : String → String → Result (Dict String)
one_key namespace name = ok (("key", "abc") ∷ [])

abbrev no_key : String
no_key = ""

abbrev required_ref : SecretKeySelector
required_ref = record { name = "segment"; key = "key"; optional = none }

resolved_value_example :
    Holds one_key "bridge" required_ref "abc"
    × ((resolve_write_key no_key "abc").0 ≡ (if no_key == "" then "abc" else no_key))
unfolding resolve_write_key_secret_ref lookup
resolved_value_example = resolved_value one_key "bridge" no_key required_ref "abc" refl refl
