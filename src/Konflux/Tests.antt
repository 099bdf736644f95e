-- ===== src/Konflux/Tests.antt =====
-- The theorems on the reconcile of the Konflux resource at a small cluster: the image controller was
-- enabled once and no longer is.
use konflux_ci.Prelude.{
  ℕ, String, true, false, not, List, [], ◌∷◌, ◌≡◌, refl, none, some, ok, err, Memᴰ, All, ◌==◌,
  string_eq, if◌then◌else◌, ◌⊎◌, all, ◌&&◌, ap, arith,
}
use konflux_ci.Cluster.{Object, delete_request, Api}
use konflux_ci.Tracking.Defs.{
  key_of, Session, new_client_with_ownership, apply_owned, apply_object, set_ownership, set_labels,
  is_custom_resource_definition, track, tracked_gvk, is_tracked, is_allowed, allowed_names,
}
use konflux_ci.Tracking.Cleanup.{cleanup_orphans, run_schedule, turn, worker_step, cleanup_item}
use konflux_ci.Tracking.Cleanup.Complete.{IsFinished}
use konflux_ci.Tracking.Apply.{KeepsIdentity}
use konflux_ci.Tracking.Tests.{small_api, refused}
use konflux_ci.Condition.Defs.{condition_true, new_condition, Accessor, type_ready}
use konflux_ci.Condition.Tests.{list_api, list_api-IsStatusApi}
use konflux_ci.Konflux.Defs.{
  is_image_controller_enabled, is_internal_registry_enabled, is_default_tenant_enabled,
  is_telemetry_enabled, apply_order, status_order, sub_cr_object, konflux_cleanup_gvks,
  konflux_allow_list, Konflux, Platform, sub_cr_gvk, start_session,
}
use konflux_ci.Konflux.Reconcile.{
  handle, apply_sub_crs, collect, check_cert_manager_availability, swept_by, reconcile_konflux,
}
use konflux_ci.Konflux.Ready.{
  ReadyStatus, status_of, cert_manager_missing, is_ready, Explained, reconcile_konflux_ready,
  reconcile_konflux_failed,
}
use konflux_ci.Konflux.Deletes.{MayDelete, reconcile_konflux_deletes}
use konflux_ci.Konflux.Sweeps.{
  IsSwitchedOff, image_controller_off, Cleaned, reconcile_konflux-Cleaned,
}

abbrev plain_object : String → String → Object
plain_object kind name = record {
  gvk = sub_cr_gvk kind;
  namespace = "";
  name = name;
  uid = "u1";
  is_typed_crd = false;
  labels = [];
  controller = some "u1";
}

abbrev leftover : Object
leftover = plain_object "KonfluxImageController" "konflux-image-controller"

abbrev konflux_api : Api
konflux_api = record small_api {
  patch = λ h o m. ok o;
  list = λ h g k v. if g.kind == "KonfluxImageControllerList" then ok (leftover ∷ []) else ok [];
}

konflux_api-KeepsIdentity : KeepsIdentity konflux_api
konflux_api-KeepsIdentity = record {
  patched = λ h o m o' e. ap (key_of konflux_api) (ground (arith, e));
  referenced = λ owner o o' e. ground (arith, e);
  kinds_of_type = λ o labels controller. refl;
}

abbrev ready_accessor : Accessor
ready_accessor = record {
  name = "konflux-ui";
  generation = 1;
  conditions = new_condition type_ready condition_true "AllComponentsReady" "" ∷ [];
}

abbrev konflux_resource : Konflux
konflux_resource = record {
  object = plain_object "Konflux" "konflux";
  spec = record {
    image_controller = none;
    internal_registry = none;
    default_tenant = some (some false);
    telemetry = none;
  };
  status = record { name = "konflux"; generation = 4; conditions = [] };
  ui_url = "";
}

abbrev calm_platform : Platform
calm_platform = record {
  get_sub_cr = λ h c. ok ready_accessor;
  ui_ingress_url = λ h. none;
  has_cert_manager = λ h. ok true;
  update_status = λ h a. none;
}

abbrev failing_platform : Platform
failing_platform = record calm_platform { get_sub_cr = λ h c. err refused }

abbrev turns : List ℕ
turns = 0 ∷ 0 ∷ 0 ∷ 1 ∷ 1 ∷ 2 ∷ 2 ∷ 3 ∷ 3 ∷ []

calm_result :
    (reconcile_konflux konflux_api list_api calm_platform 10 konflux_resource [] turns).result
    ≡ ok 0
unfolding reconcile_konflux apply_sub_crs apply_order status_order collect
    is_image_controller_enabled is_internal_registry_enabled is_default_tenant_enabled
    is_telemetry_enabled sub_cr_object apply_owned apply_object set_ownership set_labels
    is_custom_resource_definition new_client_with_ownership cleanup_orphans run_schedule turn
    worker_step cleanup_item konflux_cleanup_gvks konflux_allow_list is_allowed allowed_names
    is_tracked track tracked_gvk check_cert_manager_availability handle
calm_result = refl

failing_result :
    (reconcile_konflux konflux_api list_api failing_platform 10 konflux_resource [] turns).result
    ≡ err refused
unfolding reconcile_konflux apply_sub_crs apply_order status_order collect
    is_image_controller_enabled is_internal_registry_enabled is_default_tenant_enabled
    is_telemetry_enabled sub_cr_object apply_owned apply_object set_ownership set_labels
    is_custom_resource_definition new_client_with_ownership cleanup_orphans run_schedule turn
    worker_step cleanup_item konflux_cleanup_gvks konflux_allow_list is_allowed allowed_names
    is_tracked track tracked_gvk check_cert_manager_availability handle
failing_result = refl

leftover_deleted :
    Memᴰ
      (delete_request (sub_cr_gvk "KonfluxImageController") leftover)
      (reconcile_konflux konflux_api list_api calm_platform 10 konflux_resource [] turns).history
unfolding reconcile_konflux apply_sub_crs apply_order status_order collect
    is_image_controller_enabled is_internal_registry_enabled is_default_tenant_enabled
    is_telemetry_enabled sub_cr_object apply_owned apply_object set_ownership set_labels
    is_custom_resource_definition new_client_with_ownership cleanup_orphans run_schedule turn
    worker_step cleanup_item konflux_cleanup_gvks konflux_allow_list is_allowed allowed_names
    is_tracked track tracked_gvk check_cert_manager_availability handle
leftover_deleted = Memᴰ.tail (Memᴰ.tail (Memᴰ.tail (Memᴰ.head refl)))

abbrev applied_session : Session
applied_session =
    (apply_sub_crs konflux_api list_api calm_platform 10 (apply_order konflux_resource.spec)
      (start_session konflux_resource [])).1

goroutines-IsFinished :
    All IsFinished
      (swept_by konflux_api list_api calm_platform 10 konflux_resource applied_session
        turns).workers
unfolding reconcile_konflux apply_sub_crs apply_order status_order collect
    is_image_controller_enabled is_internal_registry_enabled is_default_tenant_enabled
    is_telemetry_enabled sub_cr_object apply_owned apply_object set_ownership set_labels
    is_custom_resource_definition new_client_with_ownership cleanup_orphans run_schedule turn
    worker_step cleanup_item konflux_cleanup_gvks konflux_allow_list is_allowed allowed_names
    is_tracked track tracked_gvk check_cert_manager_availability handle
goroutines-IsFinished = (tt, (tt, (tt, (tt, tt))))

reconcile_konflux_ready_example :
    let o = reconcile_konflux konflux_api list_api calm_platform 10 konflux_resource [] turns in
    ReadyStatus konflux_api list_api list_api-IsStatusApi calm_platform 10 o.konflux.status (
      status_of (
        not (cert_manager_missing (calm_platform.has_cert_manager o.history))
        && all
            (is_ready konflux_api list_api list_api-IsStatusApi calm_platform 10 o.history)
            (status_order konflux_resource.spec)))
reconcile_konflux_ready_example =
    reconcile_konflux_ready konflux_api list_api list_api-IsStatusApi calm_platform 10
      konflux_resource [] turns 0 calm_result

reconcile_konflux_failed_example :
    Explained konflux_api list_api list_api-IsStatusApi failing_platform 10 refused
      (reconcile_konflux konflux_api list_api failing_platform 10 konflux_resource [] turns)
reconcile_konflux_failed_example =
    reconcile_konflux_failed konflux_api list_api list_api-IsStatusApi failing_platform 10
      konflux_resource [] turns refused failing_result

reconcile_konflux_deletes_example :
    Memᴰ (delete_request (sub_cr_gvk "KonfluxImageController") leftover) []
    ⊎ MayDelete konflux_api konflux_api-KeepsIdentity list_api calm_platform 10 konflux_resource
        (sub_cr_gvk "KonfluxImageController")
        leftover
reconcile_konflux_deletes_example =
    reconcile_konflux_deletes konflux_api konflux_api-KeepsIdentity list_api calm_platform 10
      konflux_resource [] turns (sub_cr_gvk "KonfluxImageController") leftover leftover_deleted

image_controller-IsSwitchedOff :
    IsSwitchedOff konflux_resource.spec "KonfluxImageController" "konflux-image-controller"
image_controller-IsSwitchedOff = image_controller_off (λ e. ground (arith, e))

reconcile_konflux-Cleaned_example :
    Cleaned konflux_api konflux_api-KeepsIdentity list_api calm_platform 10 konflux_resource []
      (reconcile_konflux konflux_api list_api calm_platform 10 konflux_resource [] turns).history
      "KonfluxImageController"
      "konflux-image-controller"
reconcile_konflux-Cleaned_example =
    reconcile_konflux-Cleaned konflux_api konflux_api-KeepsIdentity list_api calm_platform 10
      konflux_resource [] turns 0 "KonfluxImageController" "konflux-image-controller"
      image_controller-IsSwitchedOff calm_result goroutines-IsFinished
