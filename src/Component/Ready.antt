-- ===== src/Component/Ready.antt =====
-- What the reconcile of a component controller (operator/internal/controller) reports.
use konflux_ci.Prelude.{
  ℕ, String, List, [], ◌∷◌, ◌≡◌, ◌≢◌, refl, ap, ◌∙◌, subst, sym, Option, none, some, Error, Result,
  ok, err, arith, inl, inr, ◌⊎◌, Bool-cases, Result-cases, all, ◌==◌, nat_eq, ◌&◌,
}
use konflux_ci.Cluster.{History, Api}
use konflux_ci.Tracking.Defs.{Session}
use konflux_ci.Tracking.Cleanup.{State}
use konflux_ci.Condition.Defs.{
  Condition, condition_false, new_condition, Accessor, StatusApi, type_ready, Deployment,
  is_deployment_ready, set_failed_condition, update_component_statuses,
}
use konflux_ci.Condition.Laws.{IsStatusApi, set_condition_lem, ReadyIs}
use konflux_ci.Condition.Deployments.{names_not_ready, update_component_statuses_ready}
use konflux_ci.Component.Deletes.{reported-history}
use konflux_ci.Component.Defs.{
  Resource, World, Outcome, Step, Controller, Progress, failed, waiting, through, start_of,
  run_steps, handle_with_reason, reported, once_cleaned, swept_by, after_steps, reconcile_resource,
}

-- A wait that ends the steps is above 0.
run_steps-waits : (xs : List Step) (s : Session) (n : ℕ) → (run_steps xs s).0 ≡ waiting n → n ≢ 0
unfolding run_steps
run_steps-waits [] s n r = cc
run_steps-waits (x ∷ xs) s n r = elim (Result-cases (x.run s).0) [
  | inr (e, p) ↦ absurd (ground (arith, p, r))
  | inl (wait, p) ↦ elim (Bool-cases (wait == 0)) [
    | inl z ↦ run_steps-waits xs (x.run s).1 n (rw (p, z, run_steps) at r)
    | inr z ↦ λ n0. absurd (ground (arith, p, z, n0, (rw (p, z, run_steps) at r)))
  ]
]

module _ (api : Api) (status_api : StatusApi) (law : IsStatusApi status_api) (world : World)
    (now : ℕ) (c : Controller) (cr : Resource) (h : History) (schedule : List ℕ) where
  abbrev steps_done : Progress × Session
  steps_done = run_steps c.steps (start_of c cr h)

  abbrev pub swept_state : State
  swept_state = swept_by api status_api world now c cr steps_done.1 schedule

  -- A reconcile that went all the way.
  pub record IsComplete : Type 0 where
    pub stepped : steps_done.0 ≡ through
    pub cleaned : swept_state.first_error ≡ none
    pub outcome :
        reconcile_resource api status_api world now c cr h schedule
        ≡ reported api status_api world now cr swept_state.history (
            update_component_statuses status_api now
              (world.owned_deployments swept_state.history cr.object)
              cr.status)

  after-through :
      (e : Option Error) (f : History)
      → (once_cleaned api status_api world now cr f e).result ≡ ok 0
      → e ≡ none
  unfolding handle_with_reason
  after-through none f r = refl
  after-through (some e) f r = cc

  ends-through :
      (progress : Progress)
      → steps_done.0 ≡ progress
      → (after_steps api status_api world now c cr schedule progress steps_done.1).result ≡ ok 0
      → (progress ≡ through) × (swept_state.first_error ≡ none)
  unfolding handle_with_reason
  ends-through (failed e x) p r = cc
  ends-through (waiting n) p r =
      absurd (run_steps-waits c.steps (start_of c cr h) n p (ground (arith, r)))
  ends-through through p r = (refl, after-through _ swept_state.history r)

  -- A reconcile that ends without an error and without a wait went all the way.
  pub reconcile_resource-IsComplete :
      (reconcile_resource api status_api world now c cr h schedule).result ≡ ok 0 → IsComplete
  unfolding reconcile_resource
  reconcile_resource-IsComplete r =
      let (p, q) = ends-through steps_done.0 refl r in
      record {
        stepped = p;
        cleaned = q;
        outcome =
            ap (λ x. after_steps api status_api world now c cr schedule x steps_done.1) p
            ∙ ap (λ e. once_cleaned api status_api world now cr swept_state.history e) q;
      }

  reported-ready :
      (f : History) (answer : Result (List Deployment))
      → let o =
          reported api status_api world now cr f
            (update_component_statuses status_api now answer cr.status) in
        o.result ≡ ok 0
        → (ds : List Deployment) × (answer ≡ ok ds)
          × ReadyIs status_api law o.status cr.status.generation
              (all is_deployment_ready ds)
              ("Deployments not ready: [" & names_not_ready status_api law now ds & "]")
  unfolding handle_with_reason update_component_statuses
  reported-ready f (err e) r = cc
  reported-ready f (ok ds) r =
      let (cr', q, ready) = update_component_statuses_ready status_api law now ds cr.status in
      (
        ds,
        refl,
        subst
            (λ a.
              ReadyIs status_api law (reported api status_api world now cr f a).status
                cr.status.generation (all is_deployment_ready ds)
                ("Deployments not ready: [" & names_not_ready status_api law now ds & "]"))
            (sym q) ready,
      )

  -- If a reconcile of a component ends without an error and without a wait, then the deployments
  -- that its resource owns were listed, and Ready is found in the conditions: True, with the
  -- resource's generation, exactly if each of these deployments is ready, and otherwise False with a message
  -- that names the deployments that are not ready.
  pub reconcile_resource_ready :
      (reconcile_resource api status_api world now c cr h schedule).result ≡ ok 0
      → let o = reconcile_resource api status_api world now c cr h schedule in
        (ds : List Deployment) × (world.owned_deployments o.history cr.object ≡ ok ds)
        × ReadyIs status_api law o.status cr.status.generation
            (all is_deployment_ready ds)
            ("Deployments not ready: [" & names_not_ready status_api law now ds & "]")
  unfolding handle_with_reason
  reconcile_resource_ready r =
      let complete = reconcile_resource-IsComplete r in
      let f = swept_state.history in
      let shown =
        reported-ready f (world.owned_deployments f cr.object)
          (subst (λ (o : Outcome). o.result ≡ ok 0) complete.outcome r) in
      rw (complete.outcome) (rw (reported-history api status_api world now cr f _) shown)

  -- Ready is False, with a text that ends in the error's.
  pub record ReportsFailure (status : Accessor) (e : Error) : Type 0 where
    pub condition : Condition
    pub operation : String
    pub found : status_api.find_status_condition status.conditions type_ready ≡ some condition
    pub is_false : condition.status ≡ condition_false
    pub text : condition.message ≡ (operation & ": ") & e.message

  handle_with_reason-ReportsFailure :
      (f : History) (e : Error) (reason operation : String)
      → ReportsFailure
          (handle_with_reason api status_api world now cr f e reason operation).status
          e
  unfolding handle_with_reason set_failed_condition
  handle_with_reason-ReportsFailure f e reason operation = record {
    condition = _;
    operation = operation;
    found =
        (set_condition_lem status_api law now cr.status
          (new_condition type_ready condition_false reason ((operation & ": ") & e.message))).0;
    is_false = refl;
    text = refl;
  }

  -- How a reconcile that failed with this error may stand.
  abbrev pub Explained : Error → Outcome → Type 0
  Explained e o =
      (o.written ≡ o.status ∷ [])
      × (ReportsFailure o.status e ⊎ (world.update_status o.history o.status ≡ some e))

  handled-Explained :
      (f : History) (x : Error) (reason operation : String) (e : Error)
      → (handle_with_reason api status_api world now cr f x reason operation).result ≡ err e
      → Explained e (handle_with_reason api status_api world now cr f x reason operation)
  handled-Explained f x reason operation e r =
      let same : x ≡ e = unfold handle_with_reason in ground (arith, r) in
      (
        unfold handle_with_reason in refl,
        inl (
            subst
              (λ y.
                ReportsFailure
                  (handle_with_reason api status_api world now cr f x reason operation).status y)
              same (handle_with_reason-ReportsFailure f x reason operation)),
      )

  reported-Explained :
      (f : History) (answer : Result Accessor) (e : Error)
      → (reported api status_api world now cr f answer).result ≡ err e
      → Explained e (reported api status_api world now cr f answer)
  reported-Explained f (err x) e r = handled-Explained f x _ _ e r
  reported-Explained f (ok status) e r = (refl, inr (ground (arith, r)))

  once_cleaned-Explained :
      (f : History) (x : Option Error) (e : Error)
      → (once_cleaned api status_api world now cr f x).result ≡ err e
      → Explained e (once_cleaned api status_api world now cr f x)
  once_cleaned-Explained f (some x) e r = handled-Explained f x _ _ e r
  once_cleaned-Explained f none e r = reported-Explained f _ e r

  ends-Explained :
      (progress : Progress) (s : Session) (e : Error)
      → (after_steps api status_api world now c cr schedule progress s).result ≡ err e
      → Explained e (after_steps api status_api world now c cr schedule progress s)
  ends-Explained (failed x step) s e r = handled-Explained s.history x _ _ e r
  ends-Explained (waiting n) s e r = cc
  ends-Explained through s e r = once_cleaned-Explained _ _ e r

  -- If a reconcile of a component returns an error, then exactly one status update was asked for, with the
  -- status as it then stands, and in it Ready is False with a text that ends in the error's, or the error
  -- is that of this update.
  pub reconcile_resource_failed :
      (e : Error)
      → (reconcile_resource api status_api world now c cr h schedule).result ≡ err e
      → Explained e (reconcile_resource api status_api world now c cr h schedule)
  unfolding reconcile_resource
  reconcile_resource_failed e r = ends-Explained steps_done.0 steps_done.1 e r
