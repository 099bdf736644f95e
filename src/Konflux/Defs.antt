-- ===== src/Konflux/Defs.antt =====
-- operator/internal/controller/konflux/konflux_controller.go: Reconcile of the Konflux resource, with
-- operator/internal/condition/reconcile_error.go and the enablement flags of
-- operator/api/v1alpha1/konflux_types.go. The specs of the sub-resources are not modelled: an
-- object that is applied is its kind and its name.
use konflux_ci.Prelude.{
  ℕ, String, Bool, true, false, List, [], ◌∷◌, Option, none, some, Error, Result, ◌&◌, string_eq,
  if◌then◌else◌,
}
use konflux_ci.Cluster.{Gvk, Object, History}
use konflux_ci.Tracking.Defs.{
  ClusterScopedAllowList, OwnershipConfig, Session, new_client_with_ownership,
}
use konflux_ci.Tracking.Cleanup.{Job}
use konflux_ci.Condition.Defs.{Accessor, DependencyOverride, SubCrStatus}

-- The `Enabled` pointers of the optional parts, below the pointers to the parts.
pub record KonfluxSpec : Type 0 where
  pub image_controller : Option (Option Bool)
  pub internal_registry : Option (Option Bool)
  pub default_tenant : Option (Option Bool)
  pub telemetry : Option (Option Bool)

abbrev pub enabled_or : Bool → Option (Option Bool) → Bool
enabled_or default none = default
enabled_or default (some none) = default
enabled_or default (some (some b)) = b

unfoldable pub is_image_controller_enabled : KonfluxSpec → Bool
is_image_controller_enabled k = enabled_or false k.image_controller

unfoldable pub is_internal_registry_enabled : KonfluxSpec → Bool
is_internal_registry_enabled k = enabled_or false k.internal_registry

unfoldable pub is_default_tenant_enabled : KonfluxSpec → Bool
is_default_tenant_enabled k = enabled_or true k.default_tenant

unfoldable pub is_telemetry_enabled : KonfluxSpec → Bool
is_telemetry_enabled k = enabled_or false k.telemetry

-- A sub-resource: its kind, the name of its one object, the prefix of its conditions.
pub record SubCr : Type 0 where
  pub kind : String
  pub name : String
  pub prefix : String

abbrev pub sub_cr : String → String → SubCr
sub_cr kind prefix = record { kind = kind; name = "konflux-" & prefix; prefix = prefix }

abbrev pub when : Bool → SubCr → List SubCr → List SubCr
when enabled c rest = if enabled then c ∷ rest else rest

-- The sub-resources in the order in which Reconcile applies them.
unfoldable pub apply_order : KonfluxSpec → List SubCr
apply_order spec =
    sub_cr "KonfluxApplicationAPI" "application-api"
    ∷ sub_cr "KonfluxBuildService" "build-service"
    ∷ sub_cr "KonfluxIntegrationService" "integration-service"
    ∷ sub_cr "KonfluxReleaseService" "release-service"
    ∷ sub_cr "KonfluxUI" "ui"
    ∷ sub_cr "KonfluxRBAC" "rbac"
    ∷ sub_cr "KonfluxInfo" "info"
    ∷ sub_cr "KonfluxNamespaceLister" "namespace-lister"
    ∷ sub_cr "KonfluxEnterpriseContract" "enterprise-contract"
    ∷ when (is_image_controller_enabled spec) (sub_cr "KonfluxImageController" "image-controller") (
        sub_cr "KonfluxCertManager" "cert-manager"
        ∷ when (is_internal_registry_enabled spec)
            (sub_cr "KonfluxInternalRegistry" "internal-registry")
            (when (is_default_tenant_enabled spec) (sub_cr "KonfluxDefaultTenant" "default-tenant")
              (when (is_telemetry_enabled spec) (sub_cr "KonfluxSegmentBridge" "segment-bridge")
                (sub_cr "KonfluxCLI" "cli" ∷ []))))

-- The sub-resources in the order in which Reconcile copies their status.
unfoldable pub status_order : KonfluxSpec → List SubCr
status_order spec =
    sub_cr "KonfluxBuildService" "build-service"
    ∷ sub_cr "KonfluxIntegrationService" "integration-service"
    ∷ sub_cr "KonfluxReleaseService" "release-service"
    ∷ sub_cr "KonfluxUI" "ui"
    ∷ sub_cr "KonfluxRBAC" "rbac"
    ∷ sub_cr "KonfluxInfo" "info"
    ∷ sub_cr "KonfluxNamespaceLister" "namespace-lister"
    ∷ sub_cr "KonfluxEnterpriseContract" "enterprise-contract"
    ∷ sub_cr "KonfluxApplicationAPI" "application-api"
    ∷ sub_cr "KonfluxCLI" "cli"
    ∷ when (is_image_controller_enabled spec) (sub_cr "KonfluxImageController" "image-controller") (
        sub_cr "KonfluxCertManager" "cert-manager"
        ∷ when (is_internal_registry_enabled spec)
            (sub_cr "KonfluxInternalRegistry" "internal-registry")
            (when (is_default_tenant_enabled spec) (sub_cr "KonfluxDefaultTenant" "default-tenant")
              (when (is_telemetry_enabled spec) (sub_cr "KonfluxSegmentBridge" "segment-bridge")
                [])))

abbrev pub sub_cr_gvk : String → Gvk
sub_cr_gvk kind = record { group = "konflux.konflux-ci.dev"; version = "v1alpha1"; kind = kind }

-- The object that is applied for a sub-resource.
unfoldable pub sub_cr_object : SubCr → Object
sub_cr_object c = record {
  gvk = sub_cr_gvk c.kind;
  namespace = "";
  name = c.name;
  uid = "";
  is_typed_crd = false;
  labels = [];
  controller = none;
}

unfoldable pub konflux_cleanup_gvks : List Gvk
konflux_cleanup_gvks =
    sub_cr_gvk "KonfluxImageController"
    ∷ sub_cr_gvk "KonfluxInternalRegistry"
    ∷ sub_cr_gvk "KonfluxDefaultTenant"
    ∷ sub_cr_gvk "KonfluxSegmentBridge"
    ∷ []

unfoldable pub konflux_allow_list : ClusterScopedAllowList
konflux_allow_list = some (
    (sub_cr_gvk "KonfluxImageController", "konflux-image-controller" ∷ [])
    ∷ (sub_cr_gvk "KonfluxInternalRegistry", "konflux-internal-registry" ∷ [])
    ∷ (sub_cr_gvk "KonfluxDefaultTenant", "konflux-default-tenant" ∷ [])
    ∷ (sub_cr_gvk "KonfluxSegmentBridge", "konflux-segment-bridge" ∷ [])
    ∷ [])

abbrev pub owner_label : String
owner_label = "konflux.konflux-ci.dev/owner"

abbrev pub component_label : String
component_label = "konflux.konflux-ci.dev/component"

abbrev pub cert_manager_available : String
cert_manager_available = "CertManagerAvailable"

-- The Konflux resource: as an owner, its spec, its conditions, and the URL in its status.
pub record Konflux : Type 0 where
  pub object : Object
  pub spec : KonfluxSpec
  pub status : Accessor
  pub ui_url : String

-- What Reconcile asks besides the tracking client, after the requests sent so far; the URL is that
-- of the ingress in the status of KonfluxUI.
pub record Platform : Type 0 where
  pub get_sub_cr : History → SubCr → Result Accessor
  pub ui_ingress_url : History → Option String
  pub has_cert_manager : History → Result Bool
  pub update_status : History → Accessor → Option Error

-- The end of a reconcile: the requests sent through the tracking client, the resource in memory, what
-- was handed to Status().Update, in order, and the wait until the next reconcile, in seconds.
pub record Outcome : Type 0 where
  pub history : History
  pub konflux : Konflux
  pub written : List Konflux
  pub result : Result ℕ

-- The sub-resources whose status was copied, and the operation that failed.
pub record Collected : Type 0 where
  pub konflux : Konflux
  pub statuses : List SubCrStatus
  pub failed : Option (Error × String)

abbrev pub job_of : Konflux → Session → Job
job_of k s = record {
  client = s.client;
  label_key = owner_label;
  label_value = k.object.name;
  allow_list = konflux_allow_list;
}

abbrev pub konflux_ownership : Konflux → OwnershipConfig
konflux_ownership k = record {
  owner = k.object;
  owner_label_key = owner_label;
  component_label_key = component_label;
  component = "konflux";
  field_manager = "konflux-controller";
}

abbrev pub start_session : Konflux → History → Session
start_session k h = record { client = new_client_with_ownership (konflux_ownership k); history = h }

abbrev pub cert_manager_override : List DependencyOverride
cert_manager_override =
    record {
      condition_type = cert_manager_available;
      reason = "CertManagerNotInstalled";
      message =
          "cert-manager CRDs are not installed. Some components require cert-manager to function properly.";
    }
    ∷ []
