-- ===== src/Overrides/Tests.antt =====
-- The theorems on overrides (operator/pkg/overrides/overrides.go) at small inputs, and runs of its parsers.
use konflux_ci.Prelude.{
  true, [], ◌∷◌, ◌≡◌, ◌↔◌, refl, some, none, ok, err, Memᴰ, All, ◌&◌, lookup, insert, remove,
}
use konflux_ci.Tracking.Tests.{refused}
use konflux_ci.Customization.Keyed.{HasDistinctKeys}
use konflux_ci.Overrides.Cuts.{
  has_char, cut_first, cut_last, is_space, trim_left, trim_right, trim_space, ends_with,
}
use konflux_ci.Overrides.Images.{
  ImageReference, is_oci_image_digest, parse_image_reference, split_image_reference,
  image_ref_matches_org_repo, image_name_from_map, override_image, apply_image_override,
  apply_image_overrides, override_kustomization_images, text, Images,
}
use konflux_ci.Overrides.References.{
  IsWritten, image_text, tagged, parse_image_reference-IsWritten, parse_image_reference-image_text,
}
use konflux_ci.Overrides.Repos.{
  Std, GitRule, cut_prefix, trim_suffix, split_at, normalize_org_repo, github_url_parts,
  first_matching_rule, Files, rewritten, rewrite_resource,
}
use konflux_ci.Overrides.Validate.{
  ComponentOverride, contains, is_alphanumeric, ends_segment, is_safe_path_segment,
  validate_path_segment, validate_git_rule, validate_image, validate_git_rules, validate_images,
  validate_component, validate_from, validate_overrides,
}
use konflux_ci.Overrides.Accepted.{
  IsAccepted, IsLocalFailure, key_of, validate_overrides-IsAccepted,
  rewrite_resource-IsLocalFailure,
}

abbrev tagged_reference : ImageReference
tagged_reference = record { name = "quay.io:443/org/app"; tag = "v1.2"; digest = "" }

tag_test : parse_image_reference " quay.io:443/org/app:v1.2" ≡ tagged_reference
unfolding parse_image_reference trim_space trim_left trim_right is_space cut_first cut_last has_char
tag_test = refl

port_test :
    parse_image_reference "quay.io:443/org/app"
    ≡ record { name = "quay.io:443/org/app"; tag = "latest"; digest = "" }
unfolding parse_image_reference trim_space trim_left trim_right is_space cut_first cut_last has_char
port_test = refl

digest_test : split_image_reference "quay.io/org/app@sha256:00ff" ≡ ("quay.io/org/app", "")
unfolding split_image_reference parse_image_reference trim_space trim_left trim_right is_space
    cut_first cut_last has_char is_oci_image_digest
digest_test = refl

abbrev kustomization_images : Images
kustomization_images = some (("name", text "app") ∷ ("digest", text "sha256:00ff") ∷ []) ∷ none ∷ []

images_test :
    override_kustomization_images
      (record { orig = "app"; replacement = "quay.io/org/app:v2" } ∷ [])
      kustomization_images
    ≡ some (
        some
          (("name", text "app") ∷ ("newName", text "quay.io/org/app") ∷ ("newTag", text "v2") ∷ [])
        ∷ none
        ∷ [])
unfolding override_kustomization_images apply_image_overrides apply_image_override override_image
    image_name_from_map parse_image_reference trim_space trim_left trim_right is_space cut_first
    cut_last has_char lookup insert remove is_oci_image_digest
images_test = refl

-- Letters are left as they are.
abbrev plain_std : Std
plain_std = record { to_lower = λ s. s; quote = λ s. "\"" & s & "\"" }

match_test :
    image_ref_matches_org_repo
      (λ s. s)
      "quay.io/konflux-ci/segment-bridge:v1"
      "konflux-ci/segment-bridge"
    ≡ true
unfolding image_ref_matches_org_repo parse_image_reference trim_space trim_left trim_right is_space
    cut_first cut_last has_char ends_with
match_test = refl

-- A ".git" is taken off before a "/", not behind one.
normalize_test :
    normalize_org_repo plain_std "https://github.com/org/repo.git" "sourceRepo" ≡ ok "org/repo"
unfolding normalize_org_repo trim_suffix cut_prefix split_at trim_space trim_left trim_right
    is_space
normalize_test = refl

git_slash_test : normalize_org_repo plain_std "org/repo.git/" "sourceRepo" ≡ ok "org/repo.git"
unfolding normalize_org_repo trim_suffix cut_prefix split_at trim_space trim_left trim_right
    is_space
git_slash_test = refl

url_test :
    github_url_parts plain_std "https://github.com/org/repo/config/default?ref=abc"
    ≡ some ("org/repo", "/config/default")
unfolding github_url_parts cut_prefix cut_first has_char
url_test = refl

abbrev local_rule : GitRule
local_rule = record { source_repo = "org/repo"; remote = none; local_path = "/src/repo" }

abbrev remote_rule : GitRule
remote_rule = record {
  source_repo = "org/other";
  remote = some (record { repo = "fork/other"; ref = "main" });
  local_path = "";
}

abbrev component : ComponentOverride
component = record {
  name = "build-service";
  git = remote_rule ∷ local_rule ∷ [];
  images = record { orig = "app"; replacement = "quay.io/org/app:v2" } ∷ [];
}

abbrev no_files : Files plain_std
no_files = record { local_resource = λ path suffix. err refused }

remote_test :
    rewrite_resource plain_std no_files component.git "https://github.com/org/other/config?ref=1"
    ≡ ok "https://github.com/fork/other/config?ref=main"
unfolding rewrite_resource github_url_parts first_matching_rule rewritten normalize_org_repo
    trim_suffix cut_prefix split_at trim_space trim_left trim_right is_space cut_first has_char
remote_test = refl

validate_test : validate_overrides plain_std (component ∷ []) ≡ ok tt
unfolding validate_overrides validate_from validate_component validate_path_segment
    validate_git_rules validate_git_rule validate_images validate_image contains
    is_safe_path_segment ends_segment is_alphanumeric parse_image_reference normalize_org_repo
    trim_suffix cut_prefix split_at trim_space trim_left trim_right is_space cut_first cut_last
    has_char
validate_test = refl

local_test :
    rewrite_resource plain_std no_files component.git "https://github.com/org/repo/config?ref=1"
    ≡ err refused
unfolding rewrite_resource github_url_parts first_matching_rule rewritten normalize_org_repo
    trim_suffix cut_prefix split_at trim_space trim_left trim_right is_space cut_first has_char
local_test = refl

trimmed_test : trim_space (image_text tagged_reference) ≡ image_text tagged_reference
unfolding trim_space trim_left trim_right is_space
trimmed_test = refl

abbrev digested_reference : ImageReference
digested_reference = record { name = "quay.io/org/app"; tag = ""; digest = "sha256:00ff" }

parse_image_reference-IsWritten_example :
    (parse_image_reference " quay.io/org/app@sha256:00ff" ≡ digested_reference)
    ↔ IsWritten (trim_space " quay.io/org/app@sha256:00ff") digested_reference
parse_image_reference-IsWritten_example =
    parse_image_reference-IsWritten " quay.io/org/app@sha256:00ff" digested_reference

parse_image_reference-image_text_example :
    parse_image_reference (image_text tagged_reference) ≡ tagged_reference
unfolding has_char
parse_image_reference-image_text_example =
    parse_image_reference-image_text tagged_reference refl trimmed_test (tagged refl refl refl refl)

validate_overrides-IsAccepted_example :
    All (IsAccepted plain_std) (component ∷ []) × HasDistinctKeys key_of (component ∷ [])
validate_overrides-IsAccepted_example =
    validate_overrides-IsAccepted plain_std (component ∷ []) validate_test

rewrite_resource-IsLocalFailure_example : IsLocalFailure plain_std no_files component.git refused
rewrite_resource-IsLocalFailure_example =
    rewrite_resource-IsLocalFailure plain_std no_files (component ∷ []) component
      "https://github.com/org/repo/config?ref=1" refused validate_test (Memᴰ.head refl) local_test
