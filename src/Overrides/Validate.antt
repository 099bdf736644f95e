-- ===== src/Overrides/Validate.antt =====
-- operator/pkg/overrides/overrides.go: validateOverrides and validatePathSegment.
use konflux_ci.Prelude.{
  ℕ, String, code, Char, Bool, true, false, ◌&&◌, ◌||◌, not, List, [], ◌∷◌, ◌+◌, none, some, Result,
  ok, err, errorf, wrap, ◌==◌, string_eq, nat_eq, any, leb, starts_with, itoa, ◌&◌, if◌then◌else◌,
}
use konflux_ci.Overrides.Cuts.{has_char, trim_space}
use konflux_ci.Overrides.Images.{ImageOverride, parse_image_reference}
use konflux_ci.Overrides.Repos.{Std, RemoteGit, GitRule, is_blank, normalize_org_repo}

pub record ComponentOverride : Type 0 where
  pub name : String
  pub git : List GitRule
  pub images : List ImageOverride

-- strings.Contains
unfoldable pub contains : String → String → Bool
contains String.[] t = t == ""
contains (String.◌∷◌ c s) t = let rest = contains s t in starts_with (String.◌∷◌ c s) t || rest

abbrev between : ℕ → ℕ → ℕ → Bool
between low high n = leb low n && leb n high

unfoldable pub is_alphanumeric : Char → Bool
is_alphanumeric c =
    between b'a' b'z' (code c) || between b'A' b'Z' (code c) || between b'0' b'9' (code c)

abbrev is_segment_char : Char → Bool
is_segment_char c = is_alphanumeric c || code c == b'.' || code c == b'_' || code c == b'-'

-- The pattern ^[a-zA-Z0-9]([a-zA-Z0-9._-]*[a-zA-Z0-9])?$
unfoldable pub ends_segment : String → Bool
ends_segment String.[] = true
ends_segment (String.◌∷◌ c String.[]) = is_alphanumeric c
ends_segment (String.◌∷◌ c (String.◌∷◌ d s)) = is_segment_char c && ends_segment (String.◌∷◌ d s)

unfoldable pub is_safe_path_segment : String → Bool
unfolding ends_segment
is_safe_path_segment String.[] = false
is_safe_path_segment (String.◌∷◌ c s) = is_alphanumeric c && ends_segment s

unfoldable pub validate_path_segment : String → Result (Unit {0})
unfolding contains is_safe_path_segment
validate_path_segment name =
    if has_char "/" name || has_char "\\" name
    then err (errorf "must not contain path separators")
    else if name == "." || name == ".." || contains name ".."
    then err (errorf "must not contain path traversal sequences")
    else if not (is_safe_path_segment name)
    then err (errorf "must match [a-zA-Z0-9][a-zA-Z0-9._-]*[a-zA-Z0-9]")
    else ok tt

module _ (std : Std) where
  -- "entry %d (%s) git[%d]: "
  abbrev at_place : ℕ → String → String → ℕ → String
  at_place i name list j = "entry " & itoa i & " (" & name & ") " & list & "[" & itoa j & "]: "

  abbrev in_context : String → Result String → Result (Unit {0})
  in_context prefix (ok _) = ok tt
  in_context prefix (err e) = err (wrap prefix e)

  abbrev validate_remote : String → RemoteGit → Result (Unit {0})
  validate_remote place remote =
      if is_blank remote.repo || is_blank remote.ref
      then err (errorf (place & "remote.repo and remote.ref are required"))
      else in_context place (normalize_org_repo std remote.repo "remote.repo")

  abbrev validate_target : String → GitRule → Result (Unit {0})
  validate_target place g = elim g.remote [
    | none ↦
        if is_blank g.local_path
        then err (errorf (place & "exactly one of remote/localPath is required"))
        else ok tt
    | some remote ↦
        if is_blank g.local_path
        then validate_remote place remote
        else err (errorf (place & "exactly one of remote/localPath is required"))
  ]

  -- The body of the loop over the git rules.
  unfoldable pub validate_git_rule : String → GitRule → Result (Unit {0})
  unfolding normalize_org_repo
  validate_git_rule place g =
      if is_blank g.source_repo
      then err (errorf (place & "sourceRepo is required"))
      else elim (normalize_org_repo std g.source_repo "sourceRepo") [
        | err e ↦ err (wrap place e)
        | ok _ ↦ validate_target place g
      ]

  -- The body of the loop over the images.
  unfoldable pub validate_image : String → ImageOverride → Result (Unit {0})
  unfolding parse_image_reference
  validate_image place img =
      if is_blank img.orig || is_blank img.replacement
      then err (errorf (place & "orig/replacement are required"))
      else if is_blank (parse_image_reference img.replacement).name
      then err (errorf (place & "replacement must be a valid image reference (non-empty name)"))
      else ok tt

  unfoldable pub validate_git_rules : ℕ → String → ℕ → List GitRule → Result (Unit {0})
  unfolding validate_git_rule
  validate_git_rules i name j [] = ok tt
  validate_git_rules i name j (g ∷ gs) =
      let rest = validate_git_rules i name (j + 1) gs in
      elim (validate_git_rule (at_place i name "git" j) g) [ err e ↦ err e | ok _ ↦ rest ]

  unfoldable pub validate_images : ℕ → String → ℕ → List ImageOverride → Result (Unit {0})
  unfolding validate_image
  validate_images i name j [] = ok tt
  validate_images i name j (img ∷ imgs) =
      let rest = validate_images i name (j + 1) imgs in
      elim (validate_image (at_place i name "images" j) img) [ err e ↦ err e | ok _ ↦ rest ]

  abbrev is_nil : {A : Type 0} → List A → Bool
  is_nil [] = true
  is_nil (_ ∷ _) = false

  abbrev pub validate_lists : ℕ → ComponentOverride → Result (Unit {0})
  validate_lists i c =
      if is_nil c.git && is_nil c.images
      then err (
          errorf
            ("entry " & itoa i & " (" & c.name & "): at least one of git/images must be non-empty"))
      else elim (validate_git_rules i c.name 0 c.git) [
        | err e ↦ err e
        | ok _ ↦ validate_images i c.name 0 c.images
      ]

  -- The body of the loop over the components, with the names that were seen.
  unfoldable pub validate_component : ℕ → List String → ComponentOverride → Result (Unit {0})
  unfolding validate_path_segment validate_git_rules validate_images
  validate_component i seen c =
      let key = trim_space c.name in
      if key == ""
      then err (errorf ("entry " & itoa i & ": name is required"))
      else elim (validate_path_segment key) [
        | err e ↦
            err (wrap ("entry " & itoa i & ": invalid component name " & std.quote key & ": ") e)
        | ok _ ↦
            if any (λ k. k == key) seen
            then err (errorf ("entry " & itoa i & ": duplicate component name " & std.quote key))
            else validate_lists i c
      ]

  unfoldable pub validate_from : ℕ → List String → List ComponentOverride → Result (Unit {0})
  unfolding validate_component
  validate_from i seen [] = ok tt
  validate_from i seen (c ∷ cs) =
      let rest = validate_from (i + 1) (trim_space c.name ∷ seen) cs in
      elim (validate_component i seen c) [ err e ↦ err e | ok _ ↦ rest ]

  unfoldable pub validate_overrides : List ComponentOverride → Result (Unit {0})
  unfolding validate_from
  validate_overrides [] = err (errorf "need non-empty override list")
  validate_overrides (c ∷ cs) = validate_from 0 [] (c ∷ cs)
