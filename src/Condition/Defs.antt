-- ===== src/Condition/Defs.antt =====
-- operator/internal/condition/condition.go and constants.go.
-- `apimeta.SetStatusCondition` and `apimeta.FindStatusCondition` are a library's: the record
-- `StatusApi`. Each operation runs at one instant `now`.
pub mod Data
use konflux_ci.Prelude.{
  ℕ, String, Bool, true, false, List, [], ◌∷◌, ◌++◌, ◌≡◌, ◌&&◌, not, Option, none, some, Error,
  Result, ok, err, wrap, GoEq, ◌==◌, string_eq, nat_eq, ◌&◌, itoa, join, dots_for_slashes,
  starts_with, any, keep_if, length, ltb, if◌then◌else◌, ◌↔◌, arith,
}
unfoldable pub use Data.*

module _ (api : StatusApi) (now : ℕ) where
  open api use {set_status_condition, find_status_condition}

  unfoldable pub set_condition : Accessor → Condition → Accessor
  set_condition obj c = record obj {
    conditions =
        set_status_condition now obj.conditions (record c { observed_generation = obj.generation });
  }

  unfoldable pub set_failed_condition : Accessor → String → String → Error → Accessor
  unfolding set_condition
  set_failed_condition obj type reason e =
      set_condition obj (new_condition type condition_false reason e.message)

  -- The loop of SetDeploymentConditions.
  unfoldable pub set_each_deployment :
      Accessor → DeploymentStatusSummary → List Deployment → Accessor × DeploymentStatusSummary
  set_each_deployment obj s [] = (obj, s)
  set_each_deployment obj s (d ∷ ds) =
      set_each_deployment (set_condition obj (deployment_condition d)) (add_to_summary s d) ds

  unfoldable pub set_deployment_conditions :
      Accessor → List Deployment → Accessor × DeploymentStatusSummary
  unfolding set_each_deployment
  set_deployment_conditions obj ds = set_each_deployment obj (new_summary ds) ds

  unfoldable pub set_overall_ready_condition : Accessor → DeploymentStatusSummary → Accessor
  set_overall_ready_condition obj s =
      if s.all_ready
      then set_condition obj (
          new_condition type_ready condition_true "AllComponentsReady" (
            if s.total_count == 0
            then "Component ready (no deployments to track)"
            else "All " & itoa s.total_count & " deployments are ready"))
      else set_condition obj (
          new_condition type_ready condition_false "ComponentsNotReady"
            ("Deployments not ready: [" & join " " s.not_ready_names & "]"))

  unfoldable pub is_condition_true : Accessor → String → Bool
  is_condition_true obj type = elim (find_status_condition obj.conditions type) [
    | none ↦ false
    | some c ↦ c.status == condition_true
  ]

  unfoldable pub set_aggregated_ready_condition : Accessor → List SubCrStatus → Accessor
  set_aggregated_ready_condition obj statuses =
      let (ready, reasons) = aggregate_readiness statuses in
      if ready
      then set_condition obj (
          new_condition type_ready condition_true "AllComponentsReady"
            ("All " & itoa (length statuses) & " components are ready"))
      else set_condition obj
          (new_condition type_ready condition_false "ComponentsNotReady" (join "; " reasons))

  -- One round of the first loop of CopySubCRStatus. The condition is handed over with the sub-CR's
  -- observed generation, which `set_condition` replaces.
  abbrev pub copy_condition : String → Accessor → Condition → Accessor
  copy_condition prefix parent c = set_condition parent (record {
    type = prefixed_type prefix c.type;
    status = c.status;
    reason = c.reason;
    message = c.message;
    observed_generation = c.observed_generation;
    last_transition_time = 0;
  })

  -- The first loop of CopySubCRStatus, with the types that it has written.
  unfoldable pub copy_conditions :
      String → Accessor → List String → List Condition → Accessor × List String
  copy_conditions prefix parent updated [] = (parent, updated)
  copy_conditions prefix parent updated (c ∷ cs) =
      copy_conditions prefix (copy_condition prefix parent c)
        (prefixed_type prefix c.type ∷ updated) cs

  unfoldable pub copy_sub_cr_status : Accessor → Accessor → String → Accessor × SubCrStatus
  unfolding is_condition_true
  copy_sub_cr_status parent sub prefix =
      let (copied, updated) = copy_conditions prefix parent [] sub.conditions in
      (
        record copied { conditions = keep_if (is_current prefix updated) copied.conditions },
        record { name = prefix; ready = is_condition_true sub type_ready },
      )

  -- UpdateComponentStatuses, from the answer to its List call.
  unfoldable pub update_component_statuses : Result (List Deployment) → Accessor → Result Accessor
  update_component_statuses (err e) cr = err (wrap "failed to list owned deployments: " e)
  update_component_statuses (ok ds) cr =
      let (cr', summary) = set_deployment_conditions cr ds in
      let kept = cleanup_stale_conditions cr' (λ c.
        if c.type == type_ready
        then true
        else any (λ t. t == c.type) summary.seen_condition_types) in
      ok (set_overall_ready_condition kept summary)

  -- The dependency's condition is there, and False.
  abbrev pub is_explicitly_false : Option Condition → Bool
  is_explicitly_false none = false
  is_explicitly_false (some c) = c.status == condition_false

  unfoldable pub override_ready_if_dependency_false : Accessor → List DependencyOverride → Accessor
  override_ready_if_dependency_false obj [] = obj
  override_ready_if_dependency_false obj (d ∷ ds) =
      let rest = override_ready_if_dependency_false obj ds in
      if is_explicitly_false (find_status_condition obj.conditions d.condition_type)
      then set_condition obj (new_condition type_ready condition_false d.reason d.message)
      else rest
