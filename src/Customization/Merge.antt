-- ===== src/Customization/Merge.antt =====
-- operator/pkg/customization/pod.go, from ApplyToPodTemplateSpec down, with
-- operator/pkg/customization/merge.go: an overlay is applied in place, so what was written before an error
-- comes back beside it. The strategic merge itself and the JSON codec are Kubernetes' own.
-- mergeContainerList also writes the base's name into the overlay, which it then reads nowhere else.
use konflux_ci.Prelude.{
  String, Bool, true, false, List, [], ◌∷◌, ◌++◌, Option, none, some, Dict, lookup, Result, ok, err,
  errorf, ◌==◌, string_eq, nat_eq, any, ◌&◌, code, if◌then◌else◌, ◌||◌, is_some,
}
use konflux_ci.Prelude.Exec.{Exec}
use konflux_ci.Customization.Keyed.{replace_or_append_all}
use konflux_ci.Customization.Container.{
  EnvVar, name_of, Container, ContainerSpec, from_container_spec,
}
use konflux_ci.Customization.Overlay.{
  Volume, PodSpec, PodOverlay, or_no_map, or_no_list, with_container_builder, build_pod_overlay,
}

-- json.Marshal, strategicpatch.StrategicMergePatch with the schema of the value, json.Unmarshal; J is
-- the type of the JSON texts.
pub record Codec (J T : Type 0) : Type 0 where
  pub marshal : T → Result J
  pub strategic_merge_patch : J → J → T → Result J
  pub unmarshal : J → Result T

-- The value that the base is set to; on an error the base stays as it was.
unfoldable pub strategic_merge : {J T : Type 0} → Codec J T → T → T → Result T
strategic_merge codec base overlay = elim (codec.marshal base) [
  | err e ↦ err e
  | ok base_json ↦ elim (codec.marshal overlay) [
    | err e ↦ err e
    | ok overlay_json ↦ elim (codec.strategic_merge_patch base_json overlay_json base) [
      | err e ↦ err e
      | ok merged ↦ codec.unmarshal merged
    ]
  ]
]

-- The text before the first "=".
unfoldable pub arg_key : String → String
arg_key String.[] = ""
arg_key (String.◌∷◌ c s) = let rest = arg_key s in if code c == b'=' then "" else String.◌∷◌ c rest

unfoldable pub merge_env_by_name : List EnvVar → List EnvVar → List EnvVar
unfolding replace_or_append_all
merge_env_by_name base overlay = replace_or_append_all name_of base overlay

-- The loop over the replacements of a container's args.
unfoldable pub replace_args : List String → List String → List String
unfolding replace_or_append_all arg_key
replace_args args replacements = replace_or_append_all arg_key args replacements

unfoldable pub apply_config_map_volume_updates : Dict String → List Volume → List Volume
apply_config_map_volume_updates updates [] = []
apply_config_map_volume_updates updates (v ∷ vs) =
    (elim v.config_map [
      | none ↦ v
      | some old ↦ elim (lookup v.name updates) [
        | none ↦ v
        | some name ↦ record v { config_map = some name }
      ]
    ])
    ∷ apply_config_map_volume_updates updates vs

unfoldable pub apply_secret_volume_updates : Dict String → List Volume → List Volume
apply_secret_volume_updates updates [] = []
apply_secret_volume_updates updates (v ∷ vs) =
    (elim v.secret [
      | none ↦ v
      | some old ↦ elim (lookup v.name updates) [
        | none ↦ v
        | some name ↦ record v { secret = some name }
      ]
    ])
    ∷ apply_secret_volume_updates updates vs

module _ {J : Type 0} (container_codec : Codec J Container) (pod_codec : Codec J PodSpec) where
  -- The overlay of a container, if there is one; its args and env are added to the base's.
  unfoldable pub merge_overlay : Dict Container → Container → Result Container
  unfolding strategic_merge merge_env_by_name
  merge_overlay overlays base = elim (lookup base.name overlays) [
    | none ↦ ok base
    | some overlay ↦
        elim (strategic_merge container_codec base
          (record overlay { name = base.name; args = []; env = [] })) [
            | err e ↦ err e
            | ok merged ↦ ok (record merged {
              args = merged.args ++ overlay.args;
              env = merge_env_by_name merged.env overlay.env;
            })
          ]
  ]

  -- The body of the loop of mergeContainerList.
  unfoldable pub merge_container :
      Dict Container → Dict (List String) → Container → Result Container
  unfolding merge_overlay replace_args
  merge_container overlays replacements base = elim (merge_overlay overlays base) [
    | err e ↦ err e
    | ok merged ↦ ok (record merged {
      args = replace_args merged.args (or_no_list (lookup merged.name replacements));
    })
  ]

  unfoldable pub merge_container_list :
      Dict Container → Dict (List String) → List Container → Result (Unit {0}) × List Container
  unfolding merge_container
  merge_container_list overlays replacements [] = (ok tt, [])
  merge_container_list overlays replacements (c ∷ cs) =
      let (r, rest) = merge_container_list overlays replacements cs in
      elim (merge_container overlays replacements c) [
        | err e ↦ (err e, c ∷ cs)
        | ok merged ↦ (r, merged ∷ rest)
      ]

  abbrev pub has_replacements : Dict (List String) → Bool
  has_replacements [] = false
  has_replacements (_ ∷ _) = true

  -- The containers and then the init containers; an error in the first ends it.
  abbrev pub merge_both : PodOverlay → Exec PodSpec (Unit {0})
  merge_both p t =
      let overlays = or_no_map p.container_overlays in
      let (r, cs) = merge_container_list overlays p.arg_replacements t.containers in
      let (r', inits) = merge_container_list overlays p.arg_replacements t.init_containers in
      elim r [
        | err e ↦ (err e, record t { containers = cs })
        | ok _ ↦ (r', record t { containers = cs; init_containers = inits })
      ]

  abbrev pub update_volumes : PodOverlay → PodSpec → PodSpec
  update_volumes p t = record t {
    volumes =
        apply_secret_volume_updates p.secret_volume_updates
          (apply_config_map_volume_updates p.config_map_volume_updates t.volumes);
  }

  abbrev pub after_merge : PodOverlay → Result (Unit {0}) × PodSpec → Result (Unit {0}) × PodSpec
  after_merge p (err e, t) = (err e, t)
  after_merge p (ok _, t) = (ok tt, update_volumes p t)

  abbrev pub customise : PodOverlay → Exec PodSpec (Unit {0})
  customise p t = after_merge p (
      if is_some p.container_overlays || has_replacements p.arg_replacements
      then merge_both p t
      else (ok tt, t))

  -- ApplyToPodTemplateSpec; `none` is a nil pointer.
  unfoldable pub apply_to_pod_template_spec : Option PodOverlay → Exec (Option PodSpec) (Unit {0})
  unfolding strategic_merge merge_container_list
  apply_to_pod_template_spec none t = (ok tt, t)
  apply_to_pod_template_spec (some p) none = (ok tt, none)
  apply_to_pod_template_spec (some p) (some t) =
      elim (strategic_merge pod_codec t
        (record p.pod_spec { containers = t.containers; init_containers = t.init_containers })) [
          | err e ↦ (err e, some t)
          | ok merged ↦ let (r, t') = customise p merged in (r, some t')
        ]

  -- ApplyToDeployment, ApplyToStatefulSet, ApplyToDaemonSet and ApplyToCronJob differ only in where
  -- the template stands.
  abbrev pub has_container : String → List Container → Bool
  has_container name cs = any (λ (c : Container). c.name == name) cs

  unfoldable pub validate_cron_job_container : String → PodSpec → String → Result (Unit {0})
  validate_cron_job_container cron_job t name =
      if has_container name t.containers
      then ok tt
      else err (
          errorf (
            "container \"" & name & "\" not found in CronJob " & cron_job
            & ": customizations cannot be applied"))

  unfoldable pub apply_cron_job_container_spec :
      String → String → Option ContainerSpec → Exec PodSpec (Unit {0})
  unfolding validate_cron_job_container apply_to_pod_template_spec build_pod_overlay
      with_container_builder from_container_spec
  apply_cron_job_container_spec cron_job name none t = (ok tt, t)
  apply_cron_job_container_spec cron_job name (some spec) t =
      elim (validate_cron_job_container cron_job t name) [
        | err e ↦ (err e, t)
        | ok _ ↦
            let overlay =
              build_pod_overlay (record { replicas = 0 })
                (with_container_builder name (from_container_spec (some spec) ∷ []) ∷ []) in
            let (r, t') = apply_to_pod_template_spec (some overlay) (some t) in
            (r, elim t' [ none ↦ t | some changed ↦ changed ])
      ]
