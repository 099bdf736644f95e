-- ===== src/Component/Tests.antt =====
-- The theorems on the component controllers at a small cluster: the enterprise contract, whose policies
-- were applied once and are now skipped.
use konflux_ci.Prelude.{
  ℕ, String, true, false, List, [], ◌∷◌, ◌≡◌, refl, some, none, ok, err, Memᴰ, All, ◌==◌, string_eq,
  if◌then◌else◌, ◌⊎◌, ap, all, wrap, ◌&◌, arith,
}
use konflux_ci.Cluster.{Gvk, Object, list_request, delete_request, Api}
use konflux_ci.Tracking.Defs.{
  key_of, new_client_with_ownership, apply_owned, apply_object, set_ownership, set_labels,
  is_custom_resource_definition, track, tracked_gvk, is_tracked, is_allowed, allowed_names,
}
use konflux_ci.Tracking.Cleanup.{cleanup_orphans, run_schedule, turn, worker_step, cleanup_item}
use konflux_ci.Tracking.Cleanup.Complete.{IsFinished}
use konflux_ci.Tracking.Apply.{KeepsIdentity}
use konflux_ci.Tracking.Tests.{small_api, refused}
use konflux_ci.Condition.Defs.{Deployment, is_deployment_ready, update_component_statuses}
use konflux_ci.Condition.Laws.{ReadyIs}
use konflux_ci.Condition.Deployments.{names_not_ready}
use konflux_ci.Condition.Tests.{list_api, list_api-IsStatusApi, two_deployments}
use konflux_ci.Component.Defs.{
  Resource, World, Controller, Outcome, owner_label, handle_with_reason, run_steps,
  reconcile_resource,
}
use konflux_ci.Component.Manifests.{apply_each, apply_all_manifests}
use konflux_ci.Component.Controllers.{
  ec_policy_gvk, is_skipped_policy, enterprise_contract, cert_manager, cert_manager_cleanup_gvks,
  cert_manager_allow_list, should_create_cluster_issuer, cluster_issuer_gvk, certificate_gvk,
}
use konflux_ci.Component.DefaultTenant.{Registry}
use konflux_ci.Component.Parts.{enterprise_contract_part}
use konflux_ci.Component.Deletes.{MayDelete, reconcile_resource_deletes}
use konflux_ci.Component.Ready.{
  swept_state, Explained, reconcile_resource_ready, reconcile_resource_failed,
}
use konflux_ci.Component.Sweeps.{Cleaned, reconcile_resource-Cleaned}

abbrev object_of : Gvk → String → Object
object_of gvk name = record {
  gvk = gvk;
  namespace = "";
  name = name;
  uid = "u1";
  is_typed_crd = false;
  labels = [];
  controller = some "u1";
}

abbrev policy : Object
policy = object_of ec_policy_gvk "default"

abbrev config_map : Object
config_map = object_of (record { group = ""; version = "v1"; kind = "ConfigMap" }) "ec-defaults"

abbrev issuer : String → Object
issuer name = object_of cluster_issuer_gvk name

-- The cluster still has a policy, and two issuers, of which one has a name that is not allowed.
abbrev component_api : Api
component_api = record small_api {
  patch = λ h o m. ok o;
  list = λ h g k v.
      if g.kind == "EnterpriseContractPolicyList"
      then ok (policy ∷ [])
      else if g.kind == "ClusterIssuerList"
      then ok (issuer "ca-issuer" ∷ issuer "mine" ∷ [])
      else ok [];
}

component_api-KeepsIdentity : KeepsIdentity component_api
component_api-KeepsIdentity = record {
  patched = λ h o m o' e. ap (key_of component_api) (ground (arith, e));
  referenced = λ owner o o' e. ground (arith, e);
  kinds_of_type = λ o labels controller. refl;
}

abbrev component_world : World
component_world = record {
  get_for_component = λ c. ok (config_map ∷ policy ∷ []);
  owned_deployments = λ h o. ok two_deployments;
  update_status = λ h a. none;
}

abbrev failing_world : World
failing_world = record component_world { get_for_component = λ c. err refused }

abbrev empty_registry : Registry
empty_registry = record { get_registry = λ h n. err refused; get_secret = λ h n m. err refused }

abbrev resource : Resource
resource = record {
  object =
      object_of
        (record {
          group = "konflux.konflux-ci.dev";
          version = "v1alpha1";
          kind = "KonfluxEnterpriseContract";
        })
        "konflux-enterprise-contract";
  status = record { name = "konflux-enterprise-contract"; generation = 3; conditions = [] };
}

abbrev turns : List ℕ
turns = 0 ∷ 0 ∷ 0 ∷ []

abbrev skipping : World → Controller
skipping world = enterprise_contract component_api world true

abbrev skipped : World → Outcome
skipped world =
    reconcile_resource component_api list_api world 10 (skipping world) resource [] turns

skipped_result : (skipped component_world).result ≡ ok 0
unfolding reconcile_resource run_steps enterprise_contract apply_all_manifests apply_each
    is_skipped_policy apply_owned apply_object set_ownership set_labels
    is_custom_resource_definition new_client_with_ownership cleanup_orphans run_schedule turn
    worker_step cleanup_item is_allowed allowed_names is_tracked track tracked_gvk
    handle_with_reason update_component_statuses
skipped_result = refl

failing_result :
    (skipped failing_world).result
    ≡ err (wrap "failed to get parsed manifests for EnterpriseContract: " refused)
unfolding reconcile_resource run_steps enterprise_contract apply_all_manifests handle_with_reason
failing_result = refl

policy_deleted : Memᴰ (delete_request ec_policy_gvk policy) (skipped component_world).history
unfolding reconcile_resource run_steps enterprise_contract apply_all_manifests apply_each
    is_skipped_policy apply_owned apply_object set_ownership set_labels
    is_custom_resource_definition new_client_with_ownership cleanup_orphans run_schedule turn
    worker_step cleanup_item is_allowed allowed_names is_tracked track tracked_gvk
    handle_with_reason update_component_statuses
policy_deleted = Memᴰ.head refl

goroutine-IsFinished :
    All IsFinished
      (swept_state component_api list_api list_api-IsStatusApi component_world 10
        (skipping component_world)
        resource
        []
        turns).workers
unfolding reconcile_resource run_steps enterprise_contract apply_all_manifests apply_each
    is_skipped_policy apply_owned apply_object set_ownership set_labels
    is_custom_resource_definition new_client_with_ownership cleanup_orphans run_schedule turn
    worker_step cleanup_item is_allowed allowed_names is_tracked track tracked_gvk
goroutine-IsFinished = (tt, tt)

-- Without createClusterIssuer nothing is applied, and of the two issuers the allowed one is deleted.
issuers_test :
    (reconcile_resource component_api list_api component_world 10
      (cert_manager component_api component_world (some false))
      resource
      []
      (0 ∷ 0 ∷ 0 ∷ 0 ∷ 1 ∷ 1 ∷ [])).history
    ≡ list_request
        (record certificate_gvk { kind = "CertificateList" })
        owner_label
        "konflux-enterprise-contract"
      ∷ delete_request cluster_issuer_gvk (issuer "ca-issuer")
      ∷ list_request
          (record cluster_issuer_gvk { kind = "ClusterIssuerList" })
          owner_label
          "konflux-enterprise-contract"
      ∷ []
unfolding reconcile_resource run_steps cert_manager should_create_cluster_issuer
    cert_manager_cleanup_gvks cert_manager_allow_list new_client_with_ownership cleanup_orphans
    run_schedule turn worker_step cleanup_item is_allowed allowed_names is_tracked
    handle_with_reason update_component_statuses
issuers_test = refl

reconcile_resource_deletes_example :
    Memᴰ (delete_request ec_policy_gvk policy) []
    ⊎ MayDelete component_api list_api component_world 10 empty_registry component_api-KeepsIdentity
        (enterprise_contract_part true)
        resource
        ec_policy_gvk
        policy
reconcile_resource_deletes_example =
    reconcile_resource_deletes component_api list_api component_world 10 empty_registry
      component_api-KeepsIdentity (enterprise_contract_part true) resource [] turns ec_policy_gvk
      policy policy_deleted

reconcile_resource-Cleaned_example :
    All
      (Cleaned component_api list_api list_api-IsStatusApi component_world 10 empty_registry
        component_api-KeepsIdentity
        (enterprise_contract_part true)
        resource
        []
        (skipped component_world).history)
      (skipping component_world).cleanup_gvks
reconcile_resource-Cleaned_example =
    reconcile_resource-Cleaned component_api list_api list_api-IsStatusApi component_world 10
      empty_registry component_api-KeepsIdentity (enterprise_contract_part true) resource [] turns
      skipped_result goroutine-IsFinished

reconcile_resource_ready_example :
    (ds : List Deployment) × (component_world.owned_deployments
        (skipped component_world).history
        resource.object
      ≡ ok ds)
    × ReadyIs list_api list_api-IsStatusApi
        (skipped component_world).status
        3
        (all is_deployment_ready ds)
        ("Deployments not ready: [" & names_not_ready list_api list_api-IsStatusApi 10 ds & "]")
reconcile_resource_ready_example =
    reconcile_resource_ready component_api list_api list_api-IsStatusApi component_world 10
      (skipping component_world) resource [] turns skipped_result

reconcile_resource_failed_example :
    Explained component_api list_api list_api-IsStatusApi failing_world 10
      (skipping failing_world)
      resource
      []
      turns
      (wrap "failed to get parsed manifests for EnterpriseContract: " refused)
      (skipped failing_world)
reconcile_resource_failed_example =
    reconcile_resource_failed component_api list_api list_api-IsStatusApi failing_world 10
      (skipping failing_world) resource [] turns
      (wrap "failed to get parsed manifests for EnterpriseContract: " refused) failing_result
