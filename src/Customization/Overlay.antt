-- ===== src/Customization/Overlay.antt =====
-- operator/pkg/customization/pod.go: PodOverlay and the options that build one.
use konflux_ci.Prelude.{
  ℕ, String, List, [], ◌∷◌, ◌++◌, Option, none, some, Dict, lookup, insert, leb, if◌then◌else◌,
}
use konflux_ci.Customization.Container.{
  Container, DeploymentContext, ContainerOption, new_container_overlay,
}

-- corev1.Volume: the names of the ConfigMap and of the Secret that it refers to, and all else.
pub record Volume : Type 0 where
  pub name : String
  pub config_map : Option String
  pub secret : Option String
  pub rest : String

-- The fields of corev1.PodSpec that the overlays write; those that are only passed on are texts.
pub record PodSpec : Type 0 where
  pub containers : List Container
  pub init_containers : List Container
  pub volumes : List Volume
  pub tolerations : List String
  pub node_selector : Dict String
  pub affinity : Option String
  pub service_account_name : String
  pub security_context : Option String
  pub priority_class_name : String
  pub topology_spread_constraints : List String

abbrev pub empty_pod_spec : PodSpec
empty_pod_spec = record {
  containers = [];
  init_containers = [];
  volumes = [];
  tolerations = [];
  node_selector = [];
  affinity = none;
  service_account_name = "";
  security_context = none;
  priority_class_name = "";
  topology_spread_constraints = [];
}

-- A nil map is `none` only where the code tells it from an empty one.
pub record PodOverlay : Type 0 where
  pub pod_spec : PodSpec
  pub container_overlays : Option (Dict Container)
  pub config_map_volume_updates : Dict String
  pub secret_volume_updates : Dict String
  pub arg_replacements : Dict (List String)

abbrev pub PodOverlayOption : Type 0
PodOverlayOption = PodOverlay → PodOverlay

unfoldable pub apply_pod_options : List PodOverlayOption → PodOverlay → PodOverlay
apply_pod_options [] p = p
apply_pod_options (opt ∷ opts) p = apply_pod_options opts (opt p)

abbrev pub empty_overlay : PodOverlay
empty_overlay = record {
  pod_spec = empty_pod_spec;
  container_overlays = some [];
  config_map_volume_updates = [];
  secret_volume_updates = [];
  arg_replacements = [];
}

unfoldable pub new_pod_overlay : List PodOverlayOption → PodOverlay
unfolding apply_pod_options
new_pod_overlay opts = apply_pod_options opts empty_overlay

abbrev pub or_no_map {ℓ} : {V : Type ℓ} → Option (Dict V) → Dict V
or_no_map none = []
or_no_map (some m) = m

abbrev pub or_no_list {ℓ} : {V : Type ℓ} → Option (List V) → List V
or_no_list none = []
or_no_list (some vs) = vs

unfoldable pub with_container : String → Option Container → PodOverlayOption
with_container name none p = p
with_container name (some overlay) p = record p {
  container_overlays = some (insert name overlay (or_no_map p.container_overlays));
}

unfoldable pub with_container_opts :
    String → DeploymentContext → List ContainerOption → PodOverlayOption
with_container_opts name ctx opts p = record p {
  container_overlays =
      some (insert name (new_container_overlay ctx opts) (or_no_map p.container_overlays));
}

abbrev pub ContainerBuilder : Type 0
ContainerBuilder = DeploymentContext → PodOverlayOption

unfoldable pub with_container_builder : String → List ContainerOption → ContainerBuilder
unfolding with_container_opts
with_container_builder name opts ctx = with_container_opts name ctx opts

unfoldable pub build_all : DeploymentContext → List ContainerBuilder → List PodOverlayOption
build_all ctx [] = []
build_all ctx (build ∷ builders) = build ctx ∷ build_all ctx builders

unfoldable pub build_pod_overlay : DeploymentContext → List ContainerBuilder → PodOverlay
unfolding new_pod_overlay build_all
build_pod_overlay ctx builders = new_pod_overlay (build_all ctx builders)

unfoldable pub with_tolerations : List String → PodOverlayOption
with_tolerations ts p = record p {
  pod_spec = record p.pod_spec { tolerations = p.pod_spec.tolerations ++ ts };
}

unfoldable pub with_node_selector : Dict String → PodOverlayOption
with_node_selector selector p = record p {
  pod_spec = record p.pod_spec { node_selector = selector };
}

unfoldable pub with_affinity : Option String → PodOverlayOption
with_affinity affinity p = record p { pod_spec = record p.pod_spec { affinity = affinity } }

unfoldable pub with_volumes : List Volume → PodOverlayOption
with_volumes vs p = record p { pod_spec = record p.pod_spec { volumes = p.pod_spec.volumes ++ vs } }

unfoldable pub with_config_map_volume_update : String → String → PodOverlayOption
with_config_map_volume_update volume name p = record p {
  config_map_volume_updates = insert volume name p.config_map_volume_updates;
}

unfoldable pub with_secret_volume_update : String → String → PodOverlayOption
with_secret_volume_update volume name p = record p {
  secret_volume_updates = insert volume name p.secret_volume_updates;
}

unfoldable pub with_arg_replace : String → List String → PodOverlayOption
with_arg_replace container args p = record p {
  arg_replacements =
      insert container (or_no_list (lookup container p.arg_replacements) ++ args)
        p.arg_replacements;
}

unfoldable pub with_leader_election : String → ℕ → PodOverlayOption
unfolding with_arg_replace
with_leader_election container replicas p =
    if leb replicas 1 then p else with_arg_replace container ("--leader-elect=true" ∷ []) p

unfoldable pub with_service_account_name : String → PodOverlayOption
with_service_account_name name p = record p {
  pod_spec = record p.pod_spec { service_account_name = name };
}

unfoldable pub with_pod_security_context : Option String → PodOverlayOption
with_pod_security_context sc p = record p { pod_spec = record p.pod_spec { security_context = sc } }

unfoldable pub with_priority_class_name : String → PodOverlayOption
with_priority_class_name name p = record p {
  pod_spec = record p.pod_spec { priority_class_name = name };
}

unfoldable pub with_topology_spread_constraints : List String → PodOverlayOption
with_topology_spread_constraints cs p = record p {
  pod_spec = record p.pod_spec {
    topology_spread_constraints = p.pod_spec.topology_spread_constraints ++ cs;
  };
}
