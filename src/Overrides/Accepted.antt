-- ===== src/Overrides/Accepted.antt =====
-- What validateOverrides of operator/pkg/overrides/overrides.go accepts, and what can then still fail
-- when the resources of a kustomization are rewritten.
use konflux_ci.Prelude.{
  ℕ, String, true, false, not, List, [], ◌∷◌, ◌+◌, ◌≡◌, refl, none, some, Error, Result, ok, err,
  ◌==◌, string_eq, any, all, Memᴰ, All, All-mem, arith, inl, inr, Bool-cases, Option-cases,
  Result-cases,
}
use konflux_ci.Customization.Keyed.{HasDistinctKeys}
use konflux_ci.Overrides.Cuts.{has_char, trim_space}
use konflux_ci.Overrides.Images.{ImageOverride, parse_image_reference}
use konflux_ci.Overrides.Repos.{
  Std, RemoteGit, GitRule, is_blank, normalize_org_repo, is_rule_for, first_matching_rule,
  github_url_parts, Files, rewritten, rewrite_resource, trim_prefix,
}
use konflux_ci.Overrides.Validate.{
  ComponentOverride, contains, is_safe_path_segment, validate_path_segment, validate_git_rule,
  validate_image, validate_git_rules, validate_images, validate_lists, validate_component,
  validate_from, validate_overrides,
}

-- One directory name, which no path separator and no ".." can turn into another place.
pub record IsConfined (name : String) : Type 0 where
  pub not_empty : (name == "") ≡ false
  pub no_slash : has_char "/" name ≡ false
  pub no_backslash : has_char "\\" name ≡ false
  pub no_parent : contains name ".." ≡ false
  pub safe : is_safe_path_segment name ≡ true

-- An image that is there, with a replacement that has a name.
pub record IsUsableImage (img : ImageOverride) : Type 0 where
  pub orig : is_blank img.orig ≡ false
  pub name : is_blank (parse_image_reference img.replacement).name ≡ false

abbrev pub key_of : ComponentOverride → String
key_of c = trim_space c.name

confined :
    (name : String) → (name == "") ≡ false → validate_path_segment name ≡ ok tt → IsConfined name
unfolding validate_path_segment
confined name n v = record {
  not_empty = n;
  no_slash = ground (arith, v);
  no_backslash = ground (arith, v);
  no_parent = ground (arith, v);
  safe = ground (arith, v);
}

-- Two checks in turn that both pass.
both_pass :
    (r rest : Result (Unit {0}))
    → (elim r [ err e ↦ err e | ok _ ↦ rest ]) ≡ ok tt
    → (r ≡ ok tt) × (rest ≡ ok tt)
both_pass (ok u) rest v = (refl, v)
both_pass (err e) rest v = cc

module _ (std : Std) where
  -- A rule that replaces its source either by a repository that can be read, or by a local path.
  pub data IsUsable (g : GitRule) : Type 0 where
    to_remote :
        (remote : RemoteGit) (repo : String)
        → g.remote ≡ some remote
        → normalize_org_repo std remote.repo "remote.repo" ≡ ok repo
        → IsUsable g
    to_local : g.remote ≡ none → is_blank g.local_path ≡ false → IsUsable g

  pub record IsAccepted (c : ComponentOverride) : Type 0 where
    pub confined_name : IsConfined (key_of c)
    pub git : All IsUsable c.git
    pub images : All IsUsableImage c.images

  usable : (place : String) (g : GitRule) → validate_git_rule std place g ≡ ok tt → IsUsable g
  unfolding validate_git_rule
  usable place g v = elim (Result-cases (normalize_org_repo std g.source_repo "sourceRepo")) [
    | inr (e, p) ↦ absurd (ground (arith, p, v))
    | inl (src, p) ↦ elim (Option-cases g.remote) [
      | inl none_there ↦ to_local none_there (ground (arith, p, none_there, v))
      | inr (remote, there) ↦
          elim (Result-cases (normalize_org_repo std remote.repo "remote.repo")) [
            | inl (repo, q) ↦ to_remote remote repo there q
            | inr (e, q) ↦ absurd (ground (arith, p, there, q, v))
          ]
    ]
  ]

  usable_image :
      (place : String) (img : ImageOverride)
      → validate_image std place img ≡ ok tt
      → IsUsableImage img
  unfolding validate_image
  usable_image place img v = record { orig = ground (arith, v); name = ground (arith, v) }

  git_checked :
      (i : ℕ) (name : String) (j : ℕ) (gs : List GitRule)
      → validate_git_rules std i name j gs ≡ ok tt
      → All IsUsable gs
  unfolding validate_git_rules
  git_checked i name j [] v = tt
  git_checked i name j (g ∷ gs) v =
      let (first, rest) = both_pass _ _ v in (usable _ g first, git_checked i name (j + 1) gs rest)

  images_checked :
      (i : ℕ) (name : String) (j : ℕ) (imgs : List ImageOverride)
      → validate_images std i name j imgs ≡ ok tt
      → All IsUsableImage imgs
  unfolding validate_images
  images_checked i name j [] v = tt
  images_checked i name j (img ∷ imgs) v =
      let (first, rest) = both_pass _ _ v in
      (usable_image _ img first, images_checked i name (j + 1) imgs rest)

  listed :
      (i : ℕ) (c : ComponentOverride)
      → validate_lists std i c ≡ ok tt
      → (elim (validate_git_rules std i c.name 0 c.git) [
        | err e ↦ err e
        | ok _ ↦ validate_images std i c.name 0 c.images
      ])
        ≡ ok tt
  listed i c v = ground (arith, v)

  accepted :
      (i : ℕ) (seen : List String) (c : ComponentOverride)
      → validate_component std i seen c ≡ ok tt
      → IsAccepted c × (any (λ k. k == key_of c) seen ≡ false)
  unfolding validate_component
  accepted i seen c v = elim (Result-cases (validate_path_segment (key_of c))) [
    | inr (e, p) ↦ absurd (ground (arith, p, v))
    | inl (u, p) ↦
        let lists : validate_lists std i c ≡ ok tt = ground (arith, p, v) in
        let (git, images) = both_pass _ _ (listed i c lists) in
        (
          record {
            confined_name = confined (key_of c) (ground (arith, v)) p;
            git = git_checked i c.name 0 c.git git;
            images = images_checked i c.name 0 c.images images;
          },
          ground (arith, p, v),
        )
  ]

  -- The names are new.
  abbrev AreNew : List String → List ComponentOverride → Type 0
  AreNew seen cs = All (λ c. any (λ k. k == key_of c) seen ≡ false) cs

  split_new :
      (key : String) (seen : List String) (cs : List ComponentOverride)
      → AreNew (key ∷ seen) cs
      → (all (λ c. not (key_of c == key)) cs ≡ true) × AreNew seen cs
  split_new key seen [] n = (refl, tt)
  split_new key seen (c ∷ cs) (n, ns) =
      let (fresh, rest) = split_new key seen cs ns in
      (
        ground (arith, n, fresh, string_eq.agrees key (key_of c), string_eq.agrees (key_of c) key),
        (ground (arith, n), rest),
      )

  checked_from :
      (i : ℕ) (seen : List String) (cs : List ComponentOverride)
      → validate_from std i seen cs ≡ ok tt
      → All IsAccepted cs × HasDistinctKeys key_of cs × AreNew seen cs
  unfolding validate_from
  checked_from i seen [] v = (tt, tt, tt)
  checked_from i seen (c ∷ cs) v =
      let (first, rest) = both_pass _ _ v in
      let (here, new) = accepted i seen c first in
      let (there, distinct, news) = checked_from (i + 1) (key_of c ∷ seen) cs rest in
      let (fresh, older) = split_new (key_of c) seen cs news in
      ((here, there), (fresh, distinct), (new, older))

  -- If validateOverrides accepts a list of overrides, then no two components have the same trimmed
  -- name, and for each component: its trimmed name is one directory name, without "/", "\", and "..",
  -- each of its git rules goes either to a repository that can be read or to a local path, and
  -- each of its images has an original, and a replacement with a name.
  pub validate_overrides-IsAccepted :
      (cs : List ComponentOverride)
      → validate_overrides std cs ≡ ok tt
      → All IsAccepted cs × HasDistinctKeys key_of cs
  unfolding validate_overrides
  validate_overrides-IsAccepted [] v = cc
  validate_overrides-IsAccepted (c ∷ cs) v =
      let (all_accepted, distinct, new) = checked_from 0 [] (c ∷ cs) v in (all_accepted, distinct)

  module _ (files : Files std) where
    -- The failure is that of a local path of one of the rules.
    pub record IsLocalFailure (rules : List GitRule) (e : Error) : Type 0 where
      pub rule : GitRule
      pub suffix : String
      pub listed_rule : Memᴰ rule rules
      pub is_local : rule.remote ≡ none
      pub failure : files.local_resource rule.local_path suffix ≡ err e

    matching-mem :
        (org_repo : String) (rules : List GitRule) (rule : GitRule)
        → first_matching_rule std org_repo rules ≡ some rule
        → Memᴰ rule rules
    unfolding first_matching_rule
    matching-mem org_repo [] rule m = cc
    matching-mem org_repo (r ∷ rs) rule m = elim (Bool-cases (is_rule_for std org_repo r)) [
      | inl t ↦ Memᴰ.head (ground (arith, t, m))
      | inr f ↦ Memᴰ.tail (matching-mem org_repo rs rule (rw (f, first_matching_rule) at m))
    ]

    rewritten-IsLocalFailure :
        (rules : List GitRule) (rule : GitRule) (suffix : String) (e : Error)
        → Memᴰ rule rules
        → IsUsable rule
        → rewritten std files rule suffix ≡ err e
        → IsLocalFailure rules e
    unfolding rewritten
    rewritten-IsLocalFailure rules rule suffix e m (to_remote remote repo there q) r =
        absurd (ground (arith, there, q, r))
    rewritten-IsLocalFailure rules rule suffix e m (to_local none_there there) r = record {
      rule = rule;
      suffix = trim_prefix "/" suffix;
      listed_rule = m;
      is_local = none_there;
      failure = ground (arith, none_there, there, r);
    }

    -- For a component of a list that validateOverrides accepts, rewriting a resource fails only
    -- where the local path of one of the component's rules fails: a rule is never without a target, and a
    -- remote repository never without a readable name.
    pub rewrite_resource-IsLocalFailure :
        (cs : List ComponentOverride) (c : ComponentOverride) (resource : String) (e : Error)
        → validate_overrides std cs ≡ ok tt
        → Memᴰ c cs
        → rewrite_resource std files c.git resource ≡ err e
        → IsLocalFailure c.git e
    unfolding rewrite_resource
    rewrite_resource-IsLocalFailure cs c resource e v m r =
        let good = (All-mem IsAccepted (validate_overrides-IsAccepted cs v).0 m).git in
        elim (Option-cases (github_url_parts std resource)) [
          | inl p ↦ absurd (ground (arith, p, r))
          | inr ((org_repo, suffix), p) ↦
              elim (Option-cases (first_matching_rule std org_repo c.git)) [
                | inl q ↦ absurd (ground (arith, p, q, r))
                | inr (rule, q) ↦
                    let listed_rule = matching-mem org_repo c.git rule q in
                    rewritten-IsLocalFailure c.git rule suffix e listed_rule
                      (All-mem IsUsable good listed_rule) (ground (arith, p, q, r))
              ]
        ]
