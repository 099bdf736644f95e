-- ===== src/Condition/Tests.antt =====
-- The theorems on operator/internal/condition/condition.go at a small resource.
use konflux_ci.Prelude.{
  ℕ, String, true, false, List, [], ◌∷◌, ◌++◌, ◌≡◌, ◌≢◌, refl, ap, ◌∙◌, Option, none, some, ok,
  ◌==◌, string_eq, if◌then◌else◌, Memᴰ, All, inl, inr, ◌⊎◌, arith, Bool-cases, ◌&◌, map, all, join,
  beq_refl, ne_of_beq, itoa, dots_for_slashes,
}
use konflux_ci.Condition.Defs.{
  Condition, condition_true, condition_false, new_condition, Accessor, StatusApi, type_ready,
  Deployment, deployment_type, is_deployment_ready, DependencyOverride, set_condition,
  update_component_statuses, set_aggregated_ready_condition, copy_sub_cr_status, copy_conditions,
  prefixed_type, is_condition_true, override_ready_if_dependency_false, is_current,
  set_overall_ready_condition, set_deployment_conditions, set_each_deployment, add_to_summary,
  cleanup_stale_conditions, deployment_condition, explain_all,
}
use konflux_ci.Condition.Laws.{IsStatusApi, stamped, ReadyIs}
use konflux_ci.Condition.Deployments.{
  names_not_ready, Reports, update_component_statuses_ready, update_component_statuses_each,
  update_component_statuses_only,
}
use konflux_ci.Condition.SubResources.{
  reasons_of, Copied, first_false, set_aggregated_ready_condition_lem, copy_sub_cr_status_no_stale,
  copy_sub_cr_status_other, copy_sub_cr_status_copies, override_ready_if_dependency_false_lem,
  Overridden,
}

unfoldable pub find_first : List Condition → String → Option Condition
find_first [] t = none
find_first (c ∷ cs) t = if c.type == t then some c else find_first cs t

unfoldable pub set_first : ℕ → List Condition → Condition → List Condition
set_first now [] c = stamped now none c ∷ []
set_first now (o ∷ cs) c =
    let rest = set_first now cs c in
    if o.type == c.type then stamped now (some o) c ∷ cs else o ∷ rest

abbrev pub list_api : StatusApi
list_api = record { set_status_condition = set_first; find_status_condition = find_first }

set_first-absent :
    (now : ℕ) (cs : List Condition) (c : Condition)
    → find_first cs c.type ≡ none
    → set_first now cs c ≡ cs ++ stamped now none c ∷ []
unfolding find_first set_first
set_first-absent now [] c h = refl
set_first-absent now (o ∷ cs) c h = elim (Bool-cases (o.type == c.type)) [
  | inl e ↦ absurd (ground (arith, e, h))
  | inr e ↦ rw (e) (ap (λ xs. o ∷ xs) (set_first-absent now cs c (ground (arith, e, h))))
]

set_first-present :
    (now : ℕ) (before : List Condition) (old : Condition) (after : List Condition) (c : Condition)
    → find_first before c.type ≡ none
    → old.type ≡ c.type
    → set_first now (before ++ old ∷ after) c ≡ before ++ stamped now (some old) c ∷ after
unfolding find_first set_first
set_first-present now [] old after c h e =
    let same : (old.type == c.type) ≡ true = ap (λ t. t == c.type) e ∙ beq_refl c.type in
    rw (same) refl
set_first-present now (b ∷ before) old after c h e = elim (Bool-cases (b.type == c.type)) [
  | inl p ↦ absurd (ground (arith, p, h))
  | inr p ↦
      rw (p) (ap (λ xs. b ∷ xs) (set_first-present now before old after c (ground (arith, p, h)) e))
]

pub list_api-IsStatusApi : IsStatusApi list_api
unfolding find_first
list_api-IsStatusApi = record {
  find_nil = λ t. refl;
  find_cons = λ c cs t. refl;
  set_absent = set_first-absent;
  set_present = set_first-present;
}

abbrev pub ready_deployment : Deployment
ready_deployment = record {
  namespace = "ui";
  name = "proxy";
  replicas = 2;
  ready_replicas = 2;
  updated_replicas = 2;
  conditions = [];
}

abbrev waiting_deployment : Deployment
waiting_deployment = record ready_deployment { name = "dex"; ready_replicas = 1 }

abbrev pub two_deployments : List Deployment
two_deployments = ready_deployment ∷ waiting_deployment ∷ []

abbrev old_ready : Condition
old_ready = record (new_condition type_ready condition_true "AllComponentsReady" "") {
  last_transition_time = 3;
}

abbrev resource : Accessor
resource = record {
  name = "konflux-ui";
  generation = 7;
  conditions = old_ready ∷ new_condition "ui/gone" condition_true "DeploymentReady" "" ∷ [];
}

abbrev parent_resource : Accessor
parent_resource = record {
  name = "konflux";
  generation = 9;
  conditions = old_ready ∷ new_condition "ui.old" condition_true "DeploymentReady" "" ∷ [];
}

abbrev ui_failing : List DependencyOverride
ui_failing =
    record { condition_type = "ui.Ready"; reason = "UiFailed"; message = "ui is down" } ∷ []

-- A deployment that is not ready makes the resource not ready, and the condition of the deployment
-- that is gone goes.
statuses_test :
    update_component_statuses list_api 10 (ok two_deployments) resource
    ≡ ok (record resource {
      conditions =
          record old_ready {
            status = condition_false;
            reason = "ComponentsNotReady";
            message = "Deployments not ready: [dex]";
            observed_generation = 7;
            last_transition_time = 10;
          }
          ∷ record (new_condition "ui/proxy" condition_true "DeploymentReady"
              "Deployment has 2/2 replicas ready") {
                observed_generation = 7;
                last_transition_time = 10;
              }
          ∷ record (new_condition "ui/dex" condition_false "DeploymentNotReady"
              "Ready: 1/2, Updated: 2/2") { observed_generation = 7; last_transition_time = 10 }
          ∷ [];
    })
unfolding find_first set_first update_component_statuses set_overall_ready_condition
    set_deployment_conditions set_each_deployment add_to_summary is_deployment_ready set_condition
    cleanup_stale_conditions deployment_condition deployment_type explain_all join itoa
statuses_test = refl

update_component_statuses_ready_example :
    (cr' : Accessor) × (update_component_statuses list_api 10 (ok two_deployments) resource
      ≡ ok cr')
    × ReadyIs list_api list_api-IsStatusApi cr' 7 (all is_deployment_ready two_deployments) (
        "Deployments not ready: ["
        & names_not_ready list_api list_api-IsStatusApi 10 two_deployments
        & "]")
update_component_statuses_ready_example =
    update_component_statuses_ready list_api list_api-IsStatusApi 10 two_deployments resource

update_component_statuses_each_example :
    (cr' : Accessor) × (update_component_statuses list_api 10 (ok two_deployments) resource
      ≡ ok cr')
    × Reports list_api list_api-IsStatusApi 10 resource cr' ready_deployment
unfolding deployment_type
update_component_statuses_each_example =
    update_component_statuses_each list_api list_api-IsStatusApi 10 two_deployments resource
      ready_deployment ((ne_of_beq {a = "ui/dex"} {b = "ui/proxy"} refl, tt), (tt, tt))
      (Memᴰ.head refl)

update_component_statuses_only_example :
    (cr' : Accessor) × (update_component_statuses list_api 10 (ok two_deployments) resource
      ≡ ok cr')
    × All
        (λ c. (c.type ≡ type_ready) ⊎ Memᴰ c.type (map deployment_type two_deployments))
        cr'.conditions
update_component_statuses_only_example =
    update_component_statuses_only list_api list_api-IsStatusApi 10 two_deployments resource

set_aggregated_ready_condition_lem_example :
    ReadyIs list_api list_api-IsStatusApi
      (set_aggregated_ready_condition list_api 10 parent_resource
        (record { name = "ui"; ready = false } ∷ []))
      9
      false
      (join "; " (reasons_of (record { name = "ui"; ready = false } ∷ [])))
set_aggregated_ready_condition_lem_example =
    set_aggregated_ready_condition_lem list_api list_api-IsStatusApi 10 parent_resource
      (record { name = "ui"; ready = false } ∷ [])

abbrev copied_first : Condition
copied_first = record old_ready {
  type = "ui.Ready";
  observed_generation = 9;
  last_transition_time = 10;
}

copy_sub_cr_status_no_stale_example :
    (x : Condition) × Memᴰ x resource.conditions × (prefixed_type "ui" x.type ≡ copied_first.type)
unfolding copy_sub_cr_status copy_conditions set_condition set_first prefixed_type dots_for_slashes
    is_current
copy_sub_cr_status_no_stale_example =
    copy_sub_cr_status_no_stale list_api list_api-IsStatusApi 10 parent_resource resource "ui"
      copied_first (Memᴰ.tail (Memᴰ.head refl)) refl

copy_sub_cr_status_other_example :
    find_first (copy_sub_cr_status list_api 10 parent_resource resource "ui").0.conditions "Ready"
    ≡ find_first parent_resource.conditions "Ready"
copy_sub_cr_status_other_example =
    copy_sub_cr_status_other list_api list_api-IsStatusApi 10 parent_resource resource "ui" "Ready"
      refl

copy_sub_cr_status_copies_example :
    All
      (Copied list_api list_api-IsStatusApi 10 "ui" 9
        (copy_sub_cr_status list_api 10 parent_resource resource "ui").0.conditions)
      resource.conditions
    × ((copy_sub_cr_status list_api 10 parent_resource resource "ui").1.ready
        ≡ is_condition_true list_api 10 resource type_ready)
unfolding prefixed_type dots_for_slashes
copy_sub_cr_status_copies_example =
    copy_sub_cr_status_copies list_api list_api-IsStatusApi 10 parent_resource resource "ui"
      ((ne_of_beq {a = "ui.ui.gone"} {b = "ui.Ready"} refl, tt), (tt, tt))

abbrev failing_parent : Accessor
failing_parent = record parent_resource {
  conditions = old_ready ∷ new_condition "ui.Ready" condition_false "Down" "" ∷ [];
}

override_ready_if_dependency_false_lem_example :
    ((first_false list_api list_api-IsStatusApi 10 failing_parent.conditions ui_failing ≡ none)
      × (override_ready_if_dependency_false list_api 10 failing_parent ui_failing ≡ failing_parent))
    ⊎ ((d : DependencyOverride) × (first_false list_api list_api-IsStatusApi 10
            failing_parent.conditions ui_failing
          ≡ some d)
        × Overridden list_api list_api-IsStatusApi 10
            (override_ready_if_dependency_false list_api 10 failing_parent ui_failing)
            9
            d
        × ((t : String)
            → type_ready ≢ t
            → find_first
                (override_ready_if_dependency_false list_api 10 failing_parent
                  ui_failing).conditions
                t
              ≡ find_first failing_parent.conditions t))
override_ready_if_dependency_false_lem_example =
    override_ready_if_dependency_false_lem list_api list_api-IsStatusApi 10 failing_parent
      ui_failing
