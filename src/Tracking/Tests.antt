-- ===== src/Tracking/Tests.antt =====
-- The theorems on operator/pkg/tracking/tracking.go at a small cluster.
use konflux_ci.Prelude.{
  String, false, [], ◌∷◌, ◌≡◌, refl, ap, none, some, ok, err, Error, errorf, Memᴰ, ◌==◌, string_eq,
  if◌then◌else◌, All, inl, inr, ◌⊎◌, ◌≢◌, arith, Bool-cases,
}
use konflux_ci.Cluster.{Gvk, Object, Request, delete_request, Api}
use konflux_ci.Tracking.Defs.{
  OwnershipConfig, new_client_with_ownership, Session, apply_owned, key_of, is_tracked, track,
  tracked_gvk, set_ownership, set_labels, is_custom_resource_definition, apply_object, is_allowed,
}
use konflux_ci.Tracking.Cleanup.{
  Job, cleanup_orphans, run_schedule, turn, worker_step, cleanup_item, item_key,
}
use konflux_ci.Tracking.Apply.{KeepsIdentity, Applied, apply_owned_lem, applied_survives}
use konflux_ci.Tracking.Cleanup.Safety.{Sends, cleanup_orphans_safe}
use konflux_ci.Tracking.Cleanup.Complete.{Swept, cleanup_orphans_complete}

abbrev role_gvk : Gvk
role_gvk = record { group = "rbac.authorization.k8s.io"; version = "v1"; kind = "Role" }

abbrev role_named : String → Object
role_named name = record {
  gvk = role_gvk;
  namespace = "konflux-ui";
  name = name;
  uid = "";
  is_typed_crd = false;
  labels = [];
  controller = some "u1";
}

abbrev owner_object : Object
owner_object = record (role_named "konflux-ui") { uid = "u1" }

abbrev pub ui_config : OwnershipConfig
ui_config = record {
  owner = owner_object;
  owner_label_key = "owner";
  component_label_key = "component";
  component = "ui";
  field_manager = "manager";
}

abbrev pub refused : Error
refused = errorf "forbidden"

-- The cluster holds the Roles "kept" and "old"; whoever has the owner's UID as controller is the owner's.
abbrev pub small_api : Api
small_api = record {
  patch = λ h o m. if o.name == "bad" then err refused else ok o;
  create = λ h o. ok o;
  update = λ h o. ok o;
  create_or_update = λ h o mutate. mutate o;
  list = λ h g k v.
      if g.kind == "RoleList" then ok (role_named "kept" ∷ role_named "old" ∷ []) else ok [];
  delete = λ h g o. none;
  object_kinds = λ o. ok [];
  set_controller_reference = λ owner o. ok (record o { controller = some owner.uid });
  is_controlled_by = λ o owner. elim o.controller [ none ↦ false | some u ↦ u == owner.uid ];
  gvk_text = λ g. g.kind;
}

pub small_api-KeepsIdentity : KeepsIdentity small_api
small_api-KeepsIdentity = record {
  patched = λ h o m o' e. elim (Bool-cases (o.name == "bad")) [
    | inl bad ↦ absurd (ground (arith, bad, e))
    | inr good ↦ ap (key_of small_api) (ground (arith, good, e))
  ];
  referenced = λ owner o o' e. ground (arith, e);
  kinds_of_type = λ o labels controller. refl;
}

abbrev pub session0 : Session
session0 = record { client = new_client_with_ownership ui_config; history = [] }

abbrev session1 : Session
session1 = (apply_owned small_api (role_named "kept") session0).1

abbrev cleanup_job : Job
cleanup_job = record {
  client = session1.client;
  label_key = "owner";
  label_value = "konflux-ui";
  allow_list = none;
}

-- Cleanup after the apply of "kept" deletes "old" alone.
cleanup_test :
    (cleanup_orphans small_api cleanup_job (role_gvk ∷ []) [] (0 ∷ 0 ∷ 0 ∷ 0 ∷ [])).history
    ≡ delete_request role_gvk (role_named "old")
      ∷ Request.list_request (record role_gvk { kind = "RoleList" }) "owner" "konflux-ui"
      ∷ []
unfolding cleanup_orphans run_schedule turn worker_step cleanup_item is_tracked is_allowed
    apply_owned apply_object set_ownership set_labels is_custom_resource_definition track
    tracked_gvk new_client_with_ownership
cleanup_test = refl

apply_owned_lem_example : Applied small_api ui_config (role_named "kept") session0 session1
unfolding apply_owned apply_object set_ownership set_labels is_custom_resource_definition
    new_client_with_ownership
apply_owned_lem_example =
    apply_owned_lem small_api small_api-KeepsIdentity ui_config (role_named "kept") session0
      session1 refl refl

applied_survives_example :
    Memᴰ (delete_request role_gvk (role_named "old")) []
    ⊎ (item_key role_gvk (role_named "old") ≢ key_of small_api (role_named "kept"))
unfolding cleanup_orphans run_schedule turn worker_step cleanup_item is_tracked is_allowed
    apply_owned apply_object set_ownership set_labels is_custom_resource_definition track
    tracked_gvk new_client_with_ownership
applied_survives_example =
    applied_survives small_api small_api-KeepsIdentity ui_config (role_named "kept") session0
      session1 refl refl cleanup_job (λ k m. m) (role_gvk ∷ []) [] (0 ∷ 0 ∷ 0 ∷ 0 ∷ []) role_gvk
      (role_named "old") (Memᴰ.head refl)

cleanup_orphans_safe_example :
    Sends small_api cleanup_job
      (role_gvk ∷ [])
      []
      (cleanup_orphans small_api cleanup_job (role_gvk ∷ []) [] (0 ∷ 0 ∷ [])).history
cleanup_orphans_safe_example =
    cleanup_orphans_safe small_api cleanup_job (role_gvk ∷ []) [] (0 ∷ 0 ∷ [])

cleanup_orphans_complete_example :
    All
      (Swept small_api cleanup_job
        (cleanup_orphans small_api cleanup_job (role_gvk ∷ []) [] (0 ∷ 0 ∷ 0 ∷ 0 ∷ [])).history)
      (role_gvk ∷ [])
unfolding cleanup_orphans run_schedule turn worker_step cleanup_item is_tracked is_allowed
    apply_owned apply_object set_ownership set_labels is_custom_resource_definition track
    tracked_gvk new_client_with_ownership
cleanup_orphans_complete_example =
    cleanup_orphans_complete small_api cleanup_job (role_gvk ∷ []) [] (0 ∷ 0 ∷ 0 ∷ 0 ∷ []) (tt, tt)
      refl
