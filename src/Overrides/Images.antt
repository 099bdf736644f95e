-- ===== src/Overrides/Images.antt =====
-- operator/pkg/overrides/overrides.go: image references, and the overrides of the images of a
-- kustomization.
use konflux_ci.Prelude.{
  String, Bool, true, false, ◌&&◌, ◌||◌, not, List, [], ◌∷◌, Option, none, some, Dict, lookup,
  insert, remove, ◌==◌, string_eq, starts_with, any, is_some, ◌&◌, if◌then◌else◌,
}
use konflux_ci.Overrides.Cuts.{has_char, cut_first, cut_last, trim_space, ends_with}

pub record ImageOverride : Type 0 where
  pub orig : String
  pub replacement : String

-- The three results of parseImageReference.
pub record ImageReference : Type 0 where
  pub name : String
  pub tag : String
  pub digest : String

unfoldable pub is_oci_image_digest : String → Bool
is_oci_image_digest s =
    any (λ prefix. starts_with s prefix) ("sha256:" ∷ "sha512:" ∷ "sha384:" ∷ [])

abbrev pub bare : String → ImageReference
bare s = record { name = s; tag = "latest"; digest = "" }

-- The last ":" stands behind the last "/" where no "/" follows it.
abbrev pub parse_tagged : String → Option (String × String) → ImageReference
parse_tagged s none = bare s
parse_tagged s (some (name, tag)) =
    if has_char "/" tag then bare s else record { name = name; tag = tag; digest = "" }

abbrev pub parse_at : String → Option (String × String) → ImageReference
parse_at s none = parse_tagged s (cut_last ":" s)
parse_at s (some (name, rest)) =
    if is_oci_image_digest rest
    then record { name = name; tag = ""; digest = rest }
    else record { name = name; tag = rest; digest = "" }

abbrev pub parse_trimmed : String → ImageReference
parse_trimmed s = parse_at s (cut_first "@" s)

unfoldable pub parse_image_reference : String → ImageReference
parse_image_reference s = parse_trimmed (trim_space s)

unfoldable pub split_image_reference : String → String × String
unfolding parse_image_reference
split_image_reference s =
    let r = parse_image_reference s in if r.digest == "" then (r.name, r.tag) else (r.name, "")

-- strings.ToLower is a parameter.
unfoldable pub image_ref_matches_org_repo : (String → String) → String → String → Bool
unfolding parse_image_reference
image_ref_matches_org_repo to_lower image_ref org_repo =
    let wanted = to_lower (trim_space org_repo) in
    if wanted == "" || not (has_char "/" wanted)
    then false
    else ends_with (to_lower (parse_image_reference (trim_space image_ref)).name) ("/" & wanted)

-- A value of a YAML map: a text, or something else.
pub data Value : Type 0 where
  text : String → Value
  not_text : Value

abbrev text_at : String → Dict Value → Option String
text_at k image = elim (lookup k image) [
  | none ↦ none
  | some v ↦ elim v [ text s ↦ some s | not_text ↦ none ]
]

unfoldable pub image_name_from_map : Dict Value → String
image_name_from_map image = elim (text_at "name" image) [
  | some s ↦ s
  | none ↦ elim (text_at "newName" image) [ some s ↦ s | none ↦ "" ]
]

-- The images of a kustomization: `none` where an entry is no map.
abbrev pub Images : Type 0
Images = List (Option (Dict Value))

-- What an override makes of an entry, where the name is the override's.
unfoldable pub override_image : ImageOverride → Dict Value → Dict Value
unfolding parse_image_reference
override_image ov image =
    let r = parse_image_reference ov.replacement in
    let named = insert "newName" (text r.name) image in
    if r.digest == ""
    then remove "digest" (insert "newTag" (text r.tag) named)
    else remove "newTag" (insert "digest" (text r.digest) named)

-- One override over all the entries; the flag says whether one of them was changed.
unfoldable pub apply_image_override : ImageOverride → Images → Images × Bool
unfolding override_image image_name_from_map
apply_image_override ov [] = ([], false)
apply_image_override ov (none ∷ rest) =
    let (images, changed) = apply_image_override ov rest in (none ∷ images, changed)
apply_image_override ov (some image ∷ rest) =
    let (images, changed) = apply_image_override ov rest in
    if image_name_from_map image == ov.orig
    then (some (override_image ov image) ∷ images, true)
    else (some image ∷ images, changed)

unfoldable pub apply_image_overrides : List ImageOverride → Images → Images × Bool
unfolding apply_image_override
apply_image_overrides [] images = (images, false)
apply_image_overrides (ov ∷ ovs) images =
    let (changed_images, first) = apply_image_override ov images in
    let (all_images, others) = apply_image_overrides ovs (apply_image_override ov images).0 in
    (all_images, first || others)

abbrev has_digest : Images → Bool
has_digest images =
    any (λ i. elim i [ none ↦ false | some image ↦ is_some (lookup "digest" image) ]) images

-- The rewritten images of a kustomization, or nothing where the file stays as it is.
unfoldable pub override_kustomization_images : List ImageOverride → Images → Option Images
unfolding apply_image_overrides
override_kustomization_images overrides images =
    let (rewritten, changed) = apply_image_overrides overrides images in
    if has_digest images && changed then some rewritten else none
