-- ===== src/Overrides/Repos.antt =====
-- operator/pkg/overrides/overrides.go: repositories on GitHub, and the git rules of a component.
-- strings.ToLower and the %q of fmt are the record Std; what a local path stands for is asked of Files.
use konflux_ci.Prelude.{
  String, Char, code, Bool, false, ◌||◌, not, List, [], ◌∷◌, Option, none, some, Result, ok, err,
  errorf, ◌==◌, string_eq, nat_eq, starts_with, ◌&◌, if◌then◌else◌,
}
use konflux_ci.Overrides.Cuts.{has_char, cut_first, trim_space}

pub record Std : Type 0 where
  pub to_lower : String → String
  pub quote : String → String

pub record RemoteGit : Type 0 where
  pub repo : String
  pub ref : String

pub record GitRule : Type 0 where
  pub source_repo : String
  pub remote : Option RemoteGit
  pub local_path : String

-- strings.CutPrefix, strings.TrimPrefix, strings.TrimSuffix and strings.Split at a character.
unfoldable pub cut_prefix : String → String → Option String
cut_prefix String.[] s = some s
cut_prefix (String.◌∷◌ c p) String.[] = none
cut_prefix (String.◌∷◌ c p) (String.◌∷◌ d s) =
    let rest = cut_prefix p s in if code c == code d then rest else none

abbrev pub trim_prefix : String → String → String
trim_prefix p s = elim (cut_prefix p s) [ none ↦ s | some t ↦ t ]

unfoldable pub trim_suffix : String → String → String
trim_suffix suffix String.[] = ""
trim_suffix suffix (String.◌∷◌ c s) =
    let rest = trim_suffix suffix s in if String.◌∷◌ c s == suffix then "" else String.◌∷◌ c rest

unfoldable pub split_at : Char → String → List String
split_at b String.[] = "" ∷ []
split_at b (String.◌∷◌ c s) = elim (split_at b s) [
  | [] ↦ []
  | w ∷ ws ↦ if code c == code b then "" ∷ w ∷ ws else String.◌∷◌ c w ∷ ws
]

abbrev pub github : String
github = "https://github.com/"

-- Exactly two parts, of which none is empty.
abbrev pub org_and_repo : List String → Option (String × String)
org_and_repo (org ∷ repo ∷ []) = if org == "" || repo == "" then none else some (org, repo)
org_and_repo _ = none

abbrev pub is_blank : String → Bool
is_blank s = trim_space s == ""

module _ (std : Std) where
  unfoldable pub normalize_org_repo : String → String → Result String
  normalize_org_repo input field =
      let r = trim_space (trim_suffix "/" (trim_suffix ".git" input)) in
      elim (org_and_repo (split_at "/" (trim_prefix github r))) [
        | none ↦ err (errorf (field & " must be org/repo or https://github.com/org/repo"))
        | some (org, repo) ↦ ok (std.to_lower (org & "/" & repo))
      ]

  -- The end of the pattern: a path without "?", and "?ref=" with no "&" if there is a "?".
  abbrev pub url_suffix : String → Option String
  url_suffix s = elim (cut_first "?" s) [
    | none ↦ if s == "" then none else some ("/" & s)
    | some (path, query) ↦ elim (cut_prefix "ref=" query) [
      | none ↦ none
      | some ref ↦ if path == "" || has_char "&" ref then none else some ("/" & path)
    ]
  ]

  abbrev pub url_parts : String → String → String → Option (String × String)
  url_parts org repo rest = if org == "" || repo == "" then none else elim (url_suffix rest) [
    | none ↦ none
    | some suffix ↦ some (std.to_lower (org & "/" & repo), suffix)
  ]

  -- The pattern ^https://github\.com/([^/]+/[^/]+)(/[^?]+)(\?ref=[^&]*)?$
  unfoldable pub github_url_parts : String → Option (String × String)
  github_url_parts url = elim (cut_prefix github url) [
    | none ↦ none
    | some path ↦ elim (cut_first "/" path) [
      | none ↦ none
      | some (org, path') ↦ elim (cut_first "/" path') [
        | none ↦ none
        | some (repo, rest) ↦ url_parts org repo rest
      ]
    ]
  ]

  -- A rule with a source that cannot be read is passed over.
  abbrev pub is_rule_for : String → GitRule → Bool
  is_rule_for org_repo r = elim (normalize_org_repo r.source_repo "sourceRepo") [
    | err e ↦ false
    | ok norm ↦ norm == org_repo
  ]

  unfoldable pub first_matching_rule : String → List GitRule → Option GitRule
  first_matching_rule org_repo [] = none
  first_matching_rule org_repo (r ∷ rs) =
      let rest = first_matching_rule org_repo rs in if is_rule_for org_repo r then some r else rest

  -- The directory of a local path and a suffix, as a resource of the kustomization, from
  -- path/filepath and os.Stat.
  pub record Files : Type 0 where
    pub local_resource : String → String → Result String

  -- The new text of a resource under the rule that matches it.
  unfoldable pub rewritten : Files → GitRule → String → Result String
  unfolding normalize_org_repo
  rewritten files rule suffix = elim rule.remote [
    | some remote ↦ elim (normalize_org_repo remote.repo "remote.repo") [
      | err e ↦ err e
      | ok repo ↦ ok (github & repo & suffix & "?ref=" & remote.ref)
    ]
    | none ↦
        if is_blank rule.local_path
        then err (errorf ("rule must set remote or localPath for sourceRepo=" & rule.source_repo))
        else files.local_resource rule.local_path (trim_prefix "/" suffix)
  ]

  -- The body of the loop over the resources, which are texts here; a resource that no rule matches
  -- stays as it is.
  unfoldable pub rewrite_resource : Files → List GitRule → String → Result String
  unfolding github_url_parts first_matching_rule rewritten
  rewrite_resource files rules resource =
      if not (starts_with resource github) then ok resource else elim (github_url_parts resource) [
        | none ↦ ok resource
        | some (org_repo, suffix) ↦ elim (first_matching_rule org_repo rules) [
          | none ↦ ok resource
          | some rule ↦ rewritten files rule suffix
        ]
      ]
