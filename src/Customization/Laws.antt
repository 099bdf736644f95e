-- ===== src/Customization/Laws.antt =====
-- What applying an overlay (operator/pkg/customization/pod.go) makes of the containers of a pod.
use mathlib.Core.List.{append-nil}
use konflux_ci.Prelude.{
  String, List, [], ◌∷◌, ◌++◌, ◌≡◌, refl, sym, ap, ◌∙◌, subst, Option, none, some, Dict, lookup,
  Error, ok, err, string_eq, arith, inl, inr, Option-cases, Result-cases, All, All₂,
}
use konflux_ci.Customization.Keyed.{
  or_else, find_key, find_last_key, with_key, HasDistinctKeys, replace_or_append_all,
  find_key-replace_or_append_all, with_key-replace_or_append_all,
  replace_or_append_all-HasDistinctKeys,
}
use konflux_ci.Customization.Container.{EnvVar, name_of, Container}
use konflux_ci.Customization.Overlay.{PodSpec, or_no_list}
use konflux_ci.Customization.Merge.{
  Codec, strategic_merge, arg_key, merge_env_by_name, replace_args, merge_overlay, merge_container,
  merge_container_list,
}

-- What the code relies on: a strategic merge leaves a field of the base as it is when the overlay leaves
-- it out.
pub record IsContainerMerge {J : Type 0} (codec : Codec J Container) : Type 0 where
  pub keeps :
      (base overlay merged : Container)
      → overlay.name ≡ base.name
      → overlay.args ≡ []
      → overlay.env ≡ []
      → strategic_merge codec base overlay ≡ ok merged
      → (merged.name ≡ base.name) × (merged.args ≡ base.args) × (merged.env ≡ base.env)

abbrev container_name : Container → String
container_name c = c.name

-- Containers that a strategic merge tells apart: it merges lists by key, containers and variables by name.
abbrev pub AreMergeable : List Container → Type 0
AreMergeable cs = HasDistinctKeys container_name cs × All (λ c. HasDistinctKeys name_of c.env) cs

abbrev pub IsMergeable : PodSpec → Type 0
IsMergeable t = AreMergeable t.containers × AreMergeable t.init_containers

-- The parts of a container that the overlay of a pod is about are the same.
pub record IsSameContainer (c m : Container) : Type 0 where
  pub same_name : m.name ≡ c.name
  pub same_args : m.args ≡ c.args
  pub same_env : m.env ≡ c.env

-- What the code relies on: where no two containers of a list, and no two variables of a container, have
-- the same name, merging the pod's own containers into it leaves them, in their places.
pub record IsPodMerge {J : Type 0} (codec : Codec J PodSpec) : Type 0 where
  pub keeps :
      (base overlay merged : PodSpec)
      → IsMergeable base
      → overlay.containers ≡ base.containers
      → overlay.init_containers ≡ base.init_containers
      → strategic_merge codec base overlay ≡ ok merged
      → All₂ IsSameContainer base.containers merged.containers
        × All₂ IsSameContainer base.init_containers merged.init_containers

abbrev pub env_of : Option Container → List EnvVar
env_of none = []
env_of (some o) = o.env

abbrev pub args_of : Option Container → List String
args_of none = []
args_of (some o) = o.args

module _ (overlays : Dict Container) (replacements : Dict (List String)) where
  abbrev pub replacements_of : String → List String
  replacements_of name = or_no_list (lookup name replacements)

  -- A container and what becomes of it.
  pub record Customized (c c' : Container) : Type 0 where
    pub same_name : c'.name ≡ c.name
    pub env :
        (n : String)
        → find_key name_of n c'.env
          ≡ or_else
              (find_last_key name_of n (env_of (lookup c.name overlays)))
              (find_key name_of n c.env)
    pub distinct : HasDistinctKeys name_of c.env → HasDistinctKeys name_of c'.env
    pub replaced :
        (k arg : String)
        → find_last_key arg_key k (replacements_of c.name) ≡ some arg
        → find_key arg_key k c'.args ≡ some arg
    pub kept :
        (k : String)
        → find_last_key arg_key k (replacements_of c.name) ≡ none
        → with_key arg_key k c'.args
          ≡ with_key arg_key k (c.args ++ args_of (lookup c.name overlays))

  -- From what a merge left as it was.
  same-Customized : (c m c' : Container) → IsSameContainer c m → Customized m c' → Customized c c'
  same-Customized c m c' s d = record {
    same_name = d.same_name ∙ s.same_name;
    env = rw (← s.same_name, ← s.same_env) d.env;
    distinct = rw (← s.same_env) d.distinct;
    replaced = rw (← s.same_name) d.replaced;
    kept = rw (← s.same_name, ← s.same_args) d.kept;
  }

  pub same-AllCustomized :
      (cs ms ds : List Container)
      → All₂ IsSameContainer cs ms
      → All₂ Customized ms ds
      → All₂ Customized cs ds
  same-AllCustomized [] [] [] s d = tt
  same-AllCustomized (c ∷ cs) (m ∷ ms) (e ∷ ds) s d =
      (same-Customized c m e s.0 d.0, same-AllCustomized cs ms ds s.1 d.1)
  same-AllCustomized [] (m ∷ ms) ds s d = absurd s
  same-AllCustomized (c ∷ cs) [] ds s d = absurd s
  same-AllCustomized [] [] (e ∷ ds) s d = absurd d
  same-AllCustomized (c ∷ cs) (m ∷ ms) [] s d = absurd d

  module _ {J : Type 0} (codec : Codec J Container) (pod_codec : Codec J PodSpec)
      (law : IsContainerMerge codec) where
    -- After the overlay, before the replacements.
    record Merged (c m : Container) : Type 0 where
      same_name : m.name ≡ c.name
      env : m.env ≡ replace_or_append_all name_of c.env (env_of (lookup c.name overlays))
      args : m.args ≡ c.args ++ args_of (lookup c.name overlays)

    ok-injective : (a b : Container) → ok a ≡ ok b → a ≡ b
    ok-injective a b e = ground (arith, e)

    err-not_ok : (e : Error) (a : Container) → ¬ (err e ≡ ok a)
    err-not_ok e a = λ h. cc

    merge_overlay-Merged :
        (c m : Container) → merge_overlay codec pod_codec overlays c ≡ ok m → Merged c m
    unfolding merge_overlay merge_env_by_name replace_or_append_all
    merge_overlay-Merged c m r = elim (Option-cases (lookup c.name overlays)) [
      | inl p ↦
          let same : c ≡ m = ok-injective c m (rw (p, merge_overlay) at r) in
          subst (Merged c) same (record {
            same_name = refl;
            env = rw (p) refl;
            args = rw (p) (sym (append-nil c.args));
          })
      | inr (o, p) ↦
          let sent = record o { name = c.name; args = []; env = [] } in
          elim (Result-cases (strategic_merge codec c sent)) [
            | inr (e, q) ↦ absurd (err-not_ok e m (rw (p, merge_overlay, q) at r))
            | inl (x, q) ↦
                let k = law.keeps c sent x refl refl refl q in
                subst (Merged c) (ok-injective _ m (rw (p, merge_overlay, q) at r)) (record {
                  same_name = k.0;
                  env = rw (p) (ap (λ e. replace_or_append_all name_of e o.env) k.2);
                  args = rw (p) (ap (λ a. a ++ o.args) k.1);
                })
          ]
    ]

    replaced-Customized :
        (c m : Container)
        → Merged c m
        → Customized c
            (record m { args = replace_args m.args (or_no_list (lookup m.name replacements)) })
    unfolding replace_args
    replaced-Customized c m d = record {
      same_name = d.same_name;
      env = λ n. rw (d.env) (find_key-replace_or_append_all name_of n _ _);
      distinct = λ h.
          rw (d.env)
            (replace_or_append_all-HasDistinctKeys name_of _ (env_of (lookup c.name overlays)) h);
      replaced = λ k arg h. rw (d.same_name) (
          find_key-replace_or_append_all arg_key k _ _
          ∙ ap (λ o. or_else o (find_key arg_key k m.args)) h);
      kept = λ k h. rw (d.same_name, d.args) (with_key-replace_or_append_all arg_key k _ _ h);
    }

    merge_container-Customized :
        (c m : Container)
        → merge_container codec pod_codec overlays replacements c ≡ ok m
        → Customized c m
    unfolding merge_container
    merge_container-Customized c m r =
        elim (Result-cases (merge_overlay codec pod_codec overlays c)) [
          | inr (e, p) ↦ absurd (err-not_ok e m (rw (p, merge_container) at r))
          | inl (x, p) ↦
              subst (Customized c) (ok-injective _ m (rw (p, merge_container) at r))
                (replaced-Customized c x (merge_overlay-Merged c x p))
        ]

    pub merge_container_list-Customized :
        (cs : List Container)
        → (merge_container_list codec pod_codec overlays replacements cs).0 ≡ ok tt
        → All₂ Customized cs (merge_container_list codec pod_codec overlays replacements cs).1
    unfolding merge_container_list
    merge_container_list-Customized [] r = tt
    merge_container_list-Customized (c ∷ cs) r =
        elim (Result-cases (merge_container codec pod_codec overlays replacements c)) [
          | inr (e, p) ↦ absurd (ground (arith, p, r))
          | inl (m, p) ↦
              rw (p, merge_container_list)
                (
                  merge_container-Customized c m p,
                  merge_container_list-Customized cs (rw (p, merge_container_list) at r),
                )
        ]
