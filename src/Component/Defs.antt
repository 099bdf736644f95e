-- ===== src/Component/Defs.antt =====
-- What the component controllers of operator/internal/controller share: each Reconcile is a list of
-- steps that apply objects, then the orphan cleanup, the statuses of the owned deployments and the
-- status update, with operator/internal/condition/reconcile_error.go for what fails. The five plain
-- controllers differ in the values of a `Controller`.
use konflux_ci.Prelude.{
  is_not_found, ℕ, String, List, [], ◌∷◌, Option, none, some, Error, Result, ok, err, wrap, ◌&◌,
  ◌==◌, nat_eq, if◌then◌else◌,
}
use konflux_ci.Prelude.Exec.{Exec}
use konflux_ci.Cluster.{Gvk, Object, History, Api}
use konflux_ci.Tracking.Defs.{
  ClusterScopedAllowList, OwnershipConfig, Session, new_client_with_ownership,
}
use konflux_ci.Tracking.Cleanup.{Job, State, cleanup_orphans}
use konflux_ci.Condition.Defs.{
  Deployment, Accessor, StatusApi, type_ready, set_failed_condition, update_component_statuses,
}

-- The custom resource of a part: as an owner, and its conditions.
pub record Resource : Type 0 where
  pub object : Object
  pub status : Accessor

-- What a controller asks besides the tracking client: the embedded manifests, the deployments that
-- the resource owns, and the status update.
pub record World : Type 0 where
  pub get_for_component : String → Result (List Object)
  pub owned_deployments : History → Object → Result (List Deployment)
  pub update_status : History → Accessor → Option Error

-- The end of a reconcile: the requests sent through the tracking client, the conditions in memory, what
-- was handed to Status().Update, in order, and the wait until the next reconcile in seconds, 0 for none.
pub record Outcome : Type 0 where
  pub history : History
  pub status : Accessor
  pub written : List Accessor
  pub result : Result ℕ

-- A step of Reconcile before the cleanup, with what is reported when it fails. It answers with a
-- wait; a wait above 0 ends the reconcile.
pub record Step : Type 0 where
  pub run : Exec Session ℕ
  pub reason : String
  pub operation : String

-- HandleApplyError is the report of a failed apply.
abbrev pub apply_step : Exec Session ℕ → Step
apply_step run = record { run = run; reason = "ApplyFailed"; operation = "apply manifests" }

pub record Controller : Type 0 where
  pub component : String
  pub field_manager : String
  pub steps : List Step
  pub cleanup_gvks : List Gvk
  pub allow_list : ClusterScopedAllowList

-- How the steps end.
pub data Progress : Type 0 where
  failed : Error → Step → Progress
  waiting : ℕ → Progress
  through : Progress

abbrev pub owner_label : String
owner_label = "konflux.konflux-ci.dev/owner"

abbrev pub component_label : String
component_label = "konflux.konflux-ci.dev/component"

abbrev pub ownership_of : Controller → Resource → OwnershipConfig
ownership_of c cr = record {
  owner = cr.object;
  owner_label_key = owner_label;
  component_label_key = component_label;
  component = c.component;
  field_manager = c.field_manager;
}

abbrev pub start_of : Controller → Resource → History → Session
start_of c cr h = record { client = new_client_with_ownership (ownership_of c cr); history = h }

abbrev pub job_of : Controller → Resource → Session → Job
job_of c cr s = record {
  client = s.client;
  label_key = owner_label;
  label_value = cr.object.name;
  allow_list = c.allow_list;
}

unfoldable pub run_steps : List Step → Session → Progress × Session
run_steps [] s = (through, s)
run_steps (x ∷ xs) s =
    let (r, s') = x.run s in
    let rest = run_steps xs (x.run s).1 in
    elim r [ err e ↦ (failed e x, s') | ok wait ↦ if wait == 0 then rest else (waiting wait, s') ]

module _ (api : Api) (status_api : StatusApi) (world : World) (now : ℕ) where
  abbrev failed_status : Resource → Error → String → String → Accessor
  failed_status cr e reason operation =
      set_failed_condition status_api now cr.status type_ready reason (wrap (operation & ": ") e)

  -- HandleWithReason of ReconcileErrorHandler: the failed condition is set and the status is updated;
  -- that the update fails is only logged, so that its answer is not looked at.
  unfoldable pub handle_with_reason : Resource → History → Error → String → String → Outcome
  handle_with_reason cr h e reason operation = record {
    history = h;
    status = failed_status cr e reason operation;
    written = failed_status cr e reason operation ∷ [];
    result = err e;
  }

  abbrev pub update_status : History → Accessor → Outcome
  update_status h status = record {
    history = h;
    status = status;
    written = status ∷ [];
    result = elim (world.update_status h status) [ none ↦ ok 0 | some e ↦ err e ];
  }

  -- The status update, when the conditions of the deployments could be set.
  abbrev pub reported : Resource → History → Result Accessor → Outcome
  reported cr h (err e) = handle_with_reason cr h e "StatusUpdateFailed" "update component statuses"
  reported cr h (ok status) = update_status h status

  -- From the end of the cleanup on, with its error.
  abbrev pub once_cleaned : Resource → History → Option Error → Outcome
  once_cleaned cr h (some e) =
      handle_with_reason cr h e "CleanupFailed" "cleanup orphaned resources"
  once_cleaned cr h none =
      reported cr h
        (update_component_statuses status_api now (world.owned_deployments h cr.object) cr.status)

  abbrev pub swept_by : Controller → Resource → Session → List ℕ → State
  swept_by c cr s schedule = cleanup_orphans api (job_of c cr s) c.cleanup_gvks s.history schedule

  abbrev pub after_steps : Controller → Resource → List ℕ → Progress → Session → Outcome
  after_steps c cr schedule (failed e x) s = handle_with_reason cr s.history e x.reason x.operation
  after_steps c cr schedule (waiting wait) s = record {
    history = s.history;
    status = cr.status;
    written = [];
    result = ok wait;
  }
  after_steps c cr schedule through s =
      let swept = swept_by c cr s schedule in once_cleaned cr swept.history swept.first_error

  -- Reconcile, from the resource that was read.
  unfoldable pub reconcile_resource : Controller → Resource → History → List ℕ → Outcome
  reconcile_resource c cr h schedule =
      let (progress, s) = run_steps c.steps (start_of c cr h) in
      after_steps c cr schedule progress s

  -- Reconcile, from the answer to its Get call; no resource means that there is nothing to do.
  unfoldable pub reconcile_component :
      Controller → Result Resource → History → List ℕ → Option Outcome × Result ℕ
  unfolding reconcile_resource
  reconcile_component c (ok cr) h schedule =
      let o = reconcile_resource c cr h schedule in (some o, o.result)
  reconcile_component c (err e) h schedule = (none, if is_not_found e.kind then ok 0 else err e)
