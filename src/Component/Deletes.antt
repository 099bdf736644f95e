-- ===== src/Component/Deletes.antt =====
-- What the reconcile of a component controller (operator/internal/controller) deletes.
use konflux_ci.Prelude.{
  ℕ, true, false, List, ◌≡◌, ◌≢◌, refl, sym, subst, Option, Result, none, some, Error, ok, err,
  Memᴰ, inl, inr, ◌⊎◌,
}
use konflux_ci.Cluster.{Gvk, Object, delete_request, History, Api}
use konflux_ci.Tracking.Defs.{Session, key_of, new_client_with_ownership}
use konflux_ci.Tracking.Cleanup.{item_key}
use konflux_ci.Tracking.Cleanup.Safety.{Allows, cleanup_orphans_safe}
use konflux_ci.Tracking.Growth.{Grows}
use konflux_ci.Tracking.Apply.{KeepsIdentity, Sends-mem}
use konflux_ci.Condition.Defs.{Accessor, StatusApi}
use konflux_ci.Component.Defs.{
  Resource, World, Controller, Progress, failed, waiting, through, ownership_of, start_of, job_of,
  run_steps, handle_with_reason, reported, once_cleaned, swept_by, after_steps, reconcile_resource,
}
use konflux_ci.Component.DefaultTenant.{Registry}
use konflux_ci.Component.Steps.{run_steps-IsQuiet}
use konflux_ci.Component.Parts.{
  Part, skip_of, controller_of, controller_of-AreQuiet, controller_of-tracked,
}

module _ (api : Api) (status_api : StatusApi) (world : World) (now : ℕ) where
  pub reported-history :
      (cr : Resource) (h : History) (answer : Result Accessor)
      → (reported api status_api world now cr h answer).history ≡ h
  unfolding handle_with_reason
  reported-history cr h (ok a) = refl
  reported-history cr h (err e) = refl

  pub once_cleaned-history :
      (cr : Resource) (h : History) (e : Option Error)
      → (once_cleaned api status_api world now cr h e).history ≡ h
  unfolding handle_with_reason
  once_cleaned-history cr h none = reported-history cr h _
  once_cleaned-history cr h (some e) = refl

  module _ (registry : Registry) (law : KeepsIdentity api) (p : Part) (cr : Resource) where
    abbrev pub controller : Controller
    controller = controller_of api world registry p

    -- The session after the steps.
    abbrev pub stepped : History → Session
    stepped h = (run_steps controller.steps (start_of controller cr h)).1

    -- The objects that a reconcile may delete: of one of the part's kinds for cleanup, controlled
    -- by the part's resource, with an allowed name, and none of those that the part's manifests hold and
    -- its spec does not leave out.
    pub record MayDelete (g : Gvk) (item : Object) : Type 0 where
      pub of_kind : Memᴰ g controller.cleanup_gvks
      pub ours : api.is_controlled_by item cr.object ≡ true
      pub allowed : Allows controller.allow_list g item
      pub not_wanted :
          (os : List Object) (o : Object)
          → world.get_for_component controller.component ≡ ok os
          → Memᴰ o os
          → skip_of p o ≡ false
          → item_key g item ≢ key_of api o

    pub steps-Grows : (h : History) → Grows (start_of controller cr h) (stepped h)
    unfolding new_client_with_ownership
    steps-Grows h =
        run_steps-IsQuiet (ownership_of controller cr) controller.steps
          (controller_of-AreQuiet api world registry law (ownership_of controller cr) p) _ refl

    cleaned :
        (h : History) (schedule : List ℕ) (g : Gvk) (item : Object)
        → (run_steps controller.steps (start_of controller cr h)).0 ≡ through
        → Memᴰ
            (delete_request g item)
            (swept_by api status_api world now controller cr (stepped h) schedule).history
        → Memᴰ (delete_request g item) h ⊎ MayDelete g item
    unfolding new_client_with_ownership
    cleaned h schedule g item done m =
        let s = stepped h in
        let job = job_of controller cr s in
        elim (Sends-mem api job controller.cleanup_gvks _
          (cleanup_orphans_safe api job controller.cleanup_gvks s.history schedule) m) [
            | inl before ↦ inl ((steps-Grows h).deletes g item before)
            | inr j ↦ inr (record {
              of_kind = j.0;
              ours = j.2.owned (ownership_of controller cr) (steps-Grows h).ownership;
              allowed = j.2.allowed;
              not_wanted = λ os o a n f same. j.2.untracked (
                  subst (λ key. Memᴰ key s.client.tracked) (sym same)
                    (controller_of-tracked api world registry law (ownership_of controller cr) p _
                      os refl a done o n f));
            })
          ]

    ends :
        (h : History) (schedule : List ℕ) (g : Gvk) (item : Object) (progress : Progress)
        → (run_steps controller.steps (start_of controller cr h)).0 ≡ progress
        → Memᴰ
            (delete_request g item)
            (after_steps api status_api world now controller cr schedule progress
              (stepped h)).history
        → Memᴰ (delete_request g item) h ⊎ MayDelete g item
    unfolding handle_with_reason
    ends h schedule g item (failed e x) r m = inl ((steps-Grows h).deletes g item m)
    ends h schedule g item (waiting n) r m = inl ((steps-Grows h).deletes g item m)
    ends h schedule g item through r m =
        cleaned h schedule g item r
          (subst (λ l. Memᴰ (delete_request g item) l) (once_cleaned-history cr _ _) m)

    -- Whatever the server answers and however the goroutines are interleaved, each object that a
    -- reconcile of a part deletes is of one of the part's kinds for cleanup, is controlled by the
    -- part's resource, has an allowed name where its kind is restricted, and is not an embedded
    -- object that the part's spec asks for.
    pub reconcile_resource_deletes :
        (h : History) (schedule : List ℕ) (g : Gvk) (item : Object)
        → Memᴰ
            (delete_request g item)
            (reconcile_resource api status_api world now controller cr h schedule).history
        → Memᴰ (delete_request g item) h ⊎ MayDelete g item
    unfolding reconcile_resource
    reconcile_resource_deletes h schedule g item m = ends h schedule g item _ refl m
