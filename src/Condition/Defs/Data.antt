-- ===== src/Condition/Defs/Data.antt =====
-- operator/internal/condition/condition.go: the data, and the operations that set no condition.
use konflux_ci.Prelude.{
  ℕ, String, Bool, true, false, List, [], ◌∷◌, ◌++◌, ◌≡◌, ◌&&◌, not, Option, GoEq, ◌==◌, string_eq,
  nat_eq, ◌&◌, itoa, dots_for_slashes, starts_with, any, keep_if, length, ltb, if◌then◌else◌, ◌↔◌,
  arith,
}

pub data ConditionStatus : Type 0 where
  condition_true condition_false condition_unknown : ConditionStatus

abbrev pub status_beq : ConditionStatus → ConditionStatus → Bool
status_beq condition_true condition_true = true
status_beq condition_false condition_false = true
status_beq condition_unknown condition_unknown = true
status_beq _ _ = false

pub status_beq_iff : (a b : ConditionStatus) → (status_beq a b ≡ true) ↔ (a ≡ b)
status_beq_iff a b = ground arith

instance abbrev pub status_eq : GoEq ConditionStatus
status_eq = record { test = status_beq; agrees = status_beq_iff }

-- metav1.Condition
pub record Condition : Type 0 where
  pub type : String
  pub status : ConditionStatus
  pub reason : String
  pub message : String
  pub observed_generation : ℕ
  pub last_transition_time : ℕ

-- A condition as the operator writes it, with the fields that it leaves unset.
abbrev pub new_condition : String → ConditionStatus → String → String → Condition
new_condition type status reason message = record {
  type = type;
  status = status;
  reason = reason;
  message = message;
  observed_generation = 0;
  last_transition_time = 0;
}

-- ConditionAccessor: a custom resource with conditions in its status.
pub record Accessor : Type 0 where
  pub name : String
  pub generation : ℕ
  pub conditions : List Condition

pub record StatusApi : Type 0 where
  pub set_status_condition : ℕ → List Condition → Condition → List Condition
  pub find_status_condition : List Condition → String → Option Condition

abbrev pub type_ready : String
type_ready = "Ready"

-- appsv1.DeploymentCondition
pub data DeploymentConditionType : Type 0 where
  progressing replica_failure other_type : DeploymentConditionType

pub record DeploymentCondition : Type 0 where
  pub type : DeploymentConditionType
  pub status : ConditionStatus
  pub reason : String
  pub message : String

-- The fields of appsv1.Deployment that are read; replica counts are never negative.
pub record Deployment : Type 0 where
  pub namespace : String
  pub name : String
  pub replicas : ℕ
  pub ready_replicas : ℕ
  pub updated_replicas : ℕ
  pub conditions : List DeploymentCondition

unfoldable pub is_deployment_ready : Deployment → Bool
is_deployment_ready d =
    d.ready_replicas == d.replicas && (ltb 0 d.replicas && d.updated_replicas == d.replicas)

-- The condition type of a deployment, "namespace/name".
unfoldable pub deployment_type : Deployment → String
deployment_type d = d.namespace & "/" & d.name

abbrev pub is_progressing : DeploymentConditionType → Bool
is_progressing progressing = true
is_progressing _ = false

abbrev pub is_replica_failure : DeploymentConditionType → Bool
is_replica_failure replica_failure = true
is_replica_failure _ = false

-- One round of the loop over the deployment's own conditions.
abbrev pub explain : String → DeploymentCondition → String
explain message c =
    let m =
      if is_progressing c.type && c.status == condition_false
      then message & " - " & c.reason & ": " & c.message
      else message in
    if is_replica_failure c.type && c.status == condition_true
    then m & " - ReplicaFailure: " & c.message
    else m

unfoldable pub explain_all : String → List DeploymentCondition → String
explain_all message [] = message
explain_all message (c ∷ cs) = explain_all (explain message c) cs

unfoldable pub deployment_condition : Deployment → Condition
unfolding deployment_type explain_all
deployment_condition d =
    if is_deployment_ready d
    then new_condition (deployment_type d) condition_true "DeploymentReady"
        ("Deployment has " & itoa d.ready_replicas & "/" & itoa d.replicas & " replicas ready")
    else new_condition (deployment_type d) condition_false "DeploymentNotReady" (
        explain_all
          ("Ready: "
            & itoa d.ready_replicas
            & "/"
            & itoa d.replicas
            & ", Updated: "
            & itoa d.updated_replicas
            & "/"
            & itoa d.replicas)
          d.conditions)

pub record DeploymentStatusSummary : Type 0 where
  pub all_ready : Bool
  pub total_count : ℕ
  pub not_ready_names : List String
  pub seen_condition_types : List String

pub record DependencyOverride : Type 0 where
  pub condition_type : String
  pub reason : String
  pub message : String

pub record SubCrStatus : Type 0 where
  pub name : String
  pub ready : Bool

unfoldable pub cleanup_stale_conditions : Accessor → (Condition → Bool) → Accessor
cleanup_stale_conditions obj should_keep = record obj {
  conditions = keep_if should_keep obj.conditions;
}

-- AggregateReadiness: are all ready, and the reasons why not.
unfoldable pub aggregate_readiness : List SubCrStatus → Bool × List String
aggregate_readiness [] = (true, [])
aggregate_readiness (s ∷ rest) =
    let (ready, reasons) = aggregate_readiness rest in
    if s.ready then (ready, reasons) else (false, (s.name & " is not ready") ∷ reasons)

-- The type under which a sub-CR's condition stands in the parent.
unfoldable pub prefixed_type : String → String → String
prefixed_type prefix type = prefix & "." & dots_for_slashes type

-- The parent keeps a condition if it is not of the sub-CR, or was copied just now.
unfoldable pub is_current : String → List String → Condition → Bool
is_current prefix updated c =
    not (starts_with c.type (prefix & ".") && not (any (λ t. t == c.type) updated))

-- The summary before the loop.
abbrev pub new_summary : List Deployment → DeploymentStatusSummary
new_summary ds = record {
  all_ready = true;
  total_count = length ds;
  not_ready_names = [];
  seen_condition_types = [];
}

-- What one deployment adds to the summary.
unfoldable pub add_to_summary : DeploymentStatusSummary → Deployment → DeploymentStatusSummary
add_to_summary s d =
    let seen = record s {
      seen_condition_types = (deployment_condition d).type ∷ s.seen_condition_types;
    } in
    if is_deployment_ready d
    then seen
    else record seen { all_ready = false; not_ready_names = s.not_ready_names ++ d.name ∷ [] }
