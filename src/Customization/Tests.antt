-- ===== src/Customization/Tests.antt =====
-- The theorems on overlays (operator/pkg/customization) at a small pod, with a strategic merge that
-- reads an empty field of the overlay as left out.
use konflux_ci.Prelude.{
  List, [], ◌∷◌, ◌≡◌, refl, subst, All₂, some, none, ok, err, errorf, Error, Result, lookup, insert,
  Memᴰ, arith, ◌==◌, string_eq, if◌then◌else◌,
}
use konflux_ci.Customization.Keyed.{find_key, replace_or_append, replace_or_append_all}
use konflux_ci.Customization.Container.{
  env_var, Container, DeploymentContext, empty_container, new_container_overlay, apply_options,
  with_args, with_env, with_env_override,
}
use konflux_ci.Customization.Overlay.{
  PodSpec, empty_pod_spec, PodOverlay, new_pod_overlay, apply_pod_options, with_container_opts,
  with_arg_replace, with_leader_election,
}
use konflux_ci.Customization.Merge.{
  Codec, strategic_merge, arg_key, merge_env_by_name, replace_args, merge_overlay, merge_container,
  merge_container_list, apply_config_map_volume_updates, apply_secret_volume_updates,
  apply_to_pod_template_spec, validate_cron_job_container, apply_cron_job_container_spec,
}
use konflux_ci.Customization.Laws.{IsContainerMerge, IsPodMerge, IsMergeable, IsSameContainer}
use konflux_ci.Customization.Pods.{
  IsCustomizedPod, apply_to_pod_template_spec-IsCustomizedPod, leader_elected,
}

data Json : Type 0 where
  container_json : Container → Json
  pod_json : PodSpec → Json

abbrev malformed : Error
malformed = errorf "malformed"

abbrev patched_container : Json → Json → Result Json
patched_container (container_json base) (container_json overlay) = ok (
    container_json
      (record base { image = if overlay.image == "" then base.image else overlay.image }))
patched_container _ _ = err malformed

abbrev patched_pod : Json → Json → Result Json
patched_pod (pod_json base) (pod_json overlay) =
    ok (pod_json (record base { tolerations = overlay.tolerations }))
patched_pod _ _ = err malformed

abbrev container_codec : Codec Json Container
container_codec = record {
  marshal = λ c. ok (container_json c);
  strategic_merge_patch = λ base overlay schema. patched_container base overlay;
  unmarshal = λ j. elim j [ container_json c ↦ ok c | pod_json p ↦ err malformed ];
}

abbrev pod_codec : Codec Json PodSpec
pod_codec = record {
  marshal = λ p. ok (pod_json p);
  strategic_merge_patch = λ base overlay schema. patched_pod base overlay;
  unmarshal = λ j. elim j [ container_json c ↦ err malformed | pod_json p ↦ ok p ];
}

container_codec-IsContainerMerge : IsContainerMerge container_codec
unfolding strategic_merge
container_codec-IsContainerMerge = record {
  keeps = λ base overlay merged n a e r. (ground (arith, r), ground (arith, r), ground (arith, r));
}

same_containers : (cs ms : List Container) → cs ≡ ms → All₂ IsSameContainer cs ms
same_containers cs ms e = subst (All₂ IsSameContainer cs) e (unchanged cs)
  where
    unchanged : (xs : List Container) → All₂ IsSameContainer xs xs
    unchanged [] = tt
    unchanged (x ∷ xs) =
        (record { same_name = refl; same_args = refl; same_env = refl }, unchanged xs)

pod_codec-IsPodMerge : IsPodMerge pod_codec
unfolding strategic_merge
pod_codec-IsPodMerge = record {
  keeps = λ base overlay merged d c i r. (
    same_containers base.containers merged.containers (ground (arith, r)),
    same_containers base.init_containers merged.init_containers (ground (arith, r)),
  );
}

abbrev manager : Container
manager = record empty_container {
  name = "manager";
  args = "--leader-elect=false" ∷ "--v=2" ∷ [];
  env = env_var "A" "1" ∷ env_var "B" "2" ∷ [];
}

abbrev pod : PodSpec
pod = record empty_pod_spec { containers = manager ∷ [] }

pod-IsMergeable : IsMergeable pod
pod-IsMergeable = (((refl, tt), ((refl, (refl, tt)), tt)), (tt, tt))

abbrev context : DeploymentContext
context = record { replicas = 2 }

abbrev base_overlay : PodOverlay
base_overlay = new_pod_overlay (
    with_container_opts "manager" context
      (with_args ("--v=4" ∷ []) ∷ with_env (env_var "A" "3" ∷ []) ∷ with_env_override "C" "4" ∷ [])
    ∷ [])

abbrev overlay : PodOverlay
overlay = with_leader_election "manager" 2 base_overlay

-- One flag is replaced, one is added; one variable is overridden, one is new.
abbrev customised_manager : Container
customised_manager = record manager {
  args = "--leader-elect=true" ∷ "--v=2" ∷ "--v=4" ∷ [];
  env = env_var "A" "3" ∷ env_var "B" "2" ∷ env_var "C" "4" ∷ [];
}

abbrev customised_pod : PodSpec
customised_pod = record pod { containers = customised_manager ∷ [] }

pod_test :
    apply_to_pod_template_spec container_codec pod_codec (some overlay) (some pod)
    ≡ (ok tt, some customised_pod)
unfolding apply_to_pod_template_spec strategic_merge merge_container_list merge_container
    merge_overlay merge_env_by_name replace_args replace_or_append_all replace_or_append arg_key
    new_pod_overlay apply_pod_options with_container_opts new_container_overlay apply_options
    with_args with_env with_env_override with_leader_election with_arg_replace lookup insert
    apply_config_map_volume_updates apply_secret_volume_updates
pod_test = refl

missing_container_test :
    apply_cron_job_container_spec container_codec pod_codec "nightly" "other"
      (some (record { resources = none; env = [] }))
      pod
    ≡ (
      err (
          errorf
            "container \"other\" not found in CronJob nightly: customizations cannot be applied"),
      pod,
    )
unfolding apply_cron_job_container_spec validate_cron_job_container
missing_container_test = refl

apply_to_pod_template_spec-IsCustomizedPod_example : IsCustomizedPod overlay pod customised_pod
apply_to_pod_template_spec-IsCustomizedPod_example =
    apply_to_pod_template_spec-IsCustomizedPod container_codec pod_codec
      container_codec-IsContainerMerge pod_codec-IsPodMerge overlay pod customised_pod
      pod-IsMergeable pod_test

leader_elected_example :
    find_key arg_key "--leader-elect" customised_manager.args ≡ some "--leader-elect=true"
leader_elected_example =
    leader_elected container_codec pod_codec container_codec-IsContainerMerge pod_codec-IsPodMerge
      "manager" 2 base_overlay pod customised_pod customised_manager refl pod-IsMergeable pod_test
      (Memᴰ.head refl) refl
