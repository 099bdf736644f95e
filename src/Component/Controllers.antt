-- ===== src/Component/Controllers.antt =====
-- The plain component controllers: operator/internal/controller/applicationapi, rbac, cli,
-- certmanager and enterprisecontract.
use konflux_ci.Prelude.{ℕ, Bool, true, List, [], ◌∷◌, Option, none, some, ◌==◌, ◌&&◌, if◌then◌else◌}
use konflux_ci.Prelude.Exec.{Exec}
use konflux_ci.Cluster.{Gvk, gvk_eq, Object, Api}
use konflux_ci.Tracking.Defs.{ClusterScopedAllowList, Session}
use konflux_ci.Component.Defs.{World, Controller, apply_step}
use konflux_ci.Component.Manifests.{apply_all_manifests, none_skipped}

abbrev pub ec_policy_gvk : Gvk
ec_policy_gvk = record {
  group = "appstudio.redhat.com";
  version = "v1alpha1";
  kind = "EnterpriseContractPolicy";
}

abbrev pub cluster_issuer_gvk : Gvk
cluster_issuer_gvk = record { group = "cert-manager.io"; version = "v1"; kind = "ClusterIssuer" }

abbrev pub certificate_gvk : Gvk
certificate_gvk = record { group = "cert-manager.io"; version = "v1"; kind = "Certificate" }

unfoldable pub cert_manager_cleanup_gvks : List Gvk
cert_manager_cleanup_gvks = cluster_issuer_gvk ∷ certificate_gvk ∷ []

unfoldable pub cert_manager_allow_list : ClusterScopedAllowList
cert_manager_allow_list = some (
    (
      cluster_issuer_gvk,
      "konflux-bootstrap-issuer" ∷ "konflux-issuer" ∷ "self-signed-cluster-issuer" ∷ "ca-issuer"
          ∷ [],
    )
    ∷ [])

-- The spec of KonfluxCertManager: one pointer to a Boolean.
unfoldable pub should_create_cluster_issuer : Option Bool → Bool
should_create_cluster_issuer none = true
should_create_cluster_issuer (some b) = b

-- The objects that applyManifests of the enterprise contract leaves out.
unfoldable pub is_skipped_policy : Bool → Object → Bool
is_skipped_policy skip_policies o = skip_policies && o.gvk == ec_policy_gvk

module _ (api : Api) (world : World) where
  abbrev pub application_api_manifests : Exec Session ℕ
  application_api_manifests =
      apply_all_manifests api (world.get_for_component "application-api")
        "failed to get parsed manifests for ApplicationAPI: " "application-api" none_skipped

  unfoldable pub application_api : Controller
  application_api = record {
    component = "application-api";
    field_manager = "konflux-applicationapi-controller";
    steps = apply_step application_api_manifests ∷ [];
    cleanup_gvks = [];
    allow_list = none;
  }

  abbrev pub rbac_manifests : Exec Session ℕ
  rbac_manifests =
      apply_all_manifests api (world.get_for_component "rbac") "failed to get manifests for RBAC: "
        "rbac" none_skipped

  unfoldable pub rbac : Controller
  rbac = record {
    component = "rbac";
    field_manager = "konflux-rbac-controller";
    steps = apply_step rbac_manifests ∷ [];
    cleanup_gvks = [];
    allow_list = none;
  }

  abbrev pub cli_manifests : Exec Session ℕ
  cli_manifests =
      apply_all_manifests api (world.get_for_component "cli") "failed to get manifests for CLI: "
        "cli" none_skipped

  unfoldable pub cli : Controller
  cli = record {
    component = "cli";
    field_manager = "konflux-cli-controller";
    steps = apply_step cli_manifests ∷ [];
    cleanup_gvks = [];
    allow_list = none;
  }

  abbrev pub cert_manager_manifests : Exec Session ℕ
  cert_manager_manifests =
      apply_all_manifests api (world.get_for_component "cert-manager")
        "failed to get parsed manifests for CertManager: " "cert-manager" none_skipped

  unfoldable pub cert_manager : Option Bool → Controller
  cert_manager create_cluster_issuer = record {
    component = "cert-manager";
    field_manager = "konflux-cert-manager-controller";
    steps =
        if should_create_cluster_issuer create_cluster_issuer
        then apply_step cert_manager_manifests ∷ []
        else [];
    cleanup_gvks = cert_manager_cleanup_gvks;
    allow_list = cert_manager_allow_list;
  }

  abbrev pub enterprise_contract_manifests : Bool → Exec Session ℕ
  enterprise_contract_manifests skip_policies =
      apply_all_manifests api (world.get_for_component "enterprise-contract")
        "failed to get parsed manifests for EnterpriseContract: " "enterprise-contract"
        (is_skipped_policy skip_policies)

  unfoldable pub enterprise_contract : Bool → Controller
  enterprise_contract skip_policies = record {
    component = "enterprise-contract";
    field_manager = "konflux-enterprisecontract-controller";
    steps = apply_step (enterprise_contract_manifests skip_policies) ∷ [];
    cleanup_gvks = ec_policy_gvk ∷ [];
    allow_list = none;
  }
