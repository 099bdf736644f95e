-- ===== src/Component/Sweeps.antt =====
-- What the reconcile of a component controller (operator/internal/controller) has deleted when it
-- ends well: everything of its own that its spec no longer asks for.
use konflux_ci.Prelude.{
  ℕ, Bool, true, false, List, ◌≡◌, refl, subst, some, Result, String, Error, ErrorKind, ok, err,
  Memᴰ, All, All-map, arith, inl, inr, Bool-cases, Result-cases,
}
use konflux_ci.Cluster.{Gvk, Object, Api, History}
use konflux_ci.Tracking.Defs.{ResourceKey, OwnershipConfig, key_of, new_client_with_ownership}
use konflux_ci.Tracking.Apply.{KeepsIdentity}
use konflux_ci.Tracking.Growth.{apply_owned-only}
use konflux_ci.Tracking.Cleanup.{Job, list_kind, item_key}
use konflux_ci.Tracking.Cleanup.Safety.{Allows}
use konflux_ci.Tracking.Cleanup.Complete.{
  IsFinished, Gone, Swept, missing, swept, cleanup_orphans_complete,
}
use konflux_ci.Condition.Defs.{StatusApi}
use konflux_ci.Condition.Laws.{IsStatusApi}
use konflux_ci.Component.Defs.{
  Resource, World, Controller, owner_label, ownership_of, start_of, job_of, reconcile_resource,
}
use konflux_ci.Component.Manifests.{apply_all_manifests}
use konflux_ci.Component.Controllers.{
  should_create_cluster_issuer, application_api, rbac, cli, cert_manager, enterprise_contract,
}
use konflux_ci.Component.DefaultTenant.{
  Registry, registry_name, tenant_secret, sync_internal_registry_credentials_secret, default_tenant,
}
use konflux_ci.Component.Parts.{
  Part, application_api_part, rbac_part, cli_part, default_tenant_part, cert_manager_part,
  enterprise_contract_part, skip_of, controller_of, controller_of-AreQuiet,
}
use konflux_ci.Component.Tracked.{
  TracksOnly, TrackOnly, run_steps-TracksOnly, apply_all_manifests-TracksOnly,
}
use konflux_ci.Component.Deletes.{stepped, steps-Grows, reported-history}
use konflux_ci.Component.Ready.{swept_state, reconcile_resource-IsComplete}

module _ (api : Api) (world : World) (registry : Registry) (p : Part) where
  abbrev component : Controller
  component = controller_of api world registry p

  -- What the spec of a part asks for: the embedded objects that it does not leave out, and for the
  -- default tenant the copied Secret.
  pub data Wanted (k : ResourceKey) : Type 0 where
    embedded :
        (os : List Object) (o : Object)
        → world.get_for_component component.component ≡ ok os
        → Memᴰ o os
        → skip_of p o ≡ false
        → k ≡ key_of api o
        → Wanted k
    copied : p ≡ default_tenant_part → k ≡ key_of api tenant_secret → Wanted k

module _ (api : Api) (world : World) (registry : Registry) (law : KeepsIdentity api)
    (cfg : OwnershipConfig) where
  sync-TracksOnly :
      TracksOnly cfg
        (Wanted api world registry default_tenant_part)
        (λ s. (sync_internal_registry_credentials_secret api world registry s).1)
  unfolding sync_internal_registry_credentials_secret
  sync-TracksOnly s o k m = elim (Result-cases (registry.get_registry s.history registry_name)) [
    | inr (e, q) ↦ inl (rw (q, sync_internal_registry_credentials_secret) at m)
    | inl (u, q) ↦
        elim (Result-cases
          (registry.get_secret s.history "kind-registry" "internal-registry-client-auth")) [
            | inr (e, r) ↦ inl (rw (q, sync_internal_registry_credentials_secret, r) at m)
            | inl (v, r) ↦
                elim (apply_owned-only api law cfg tenant_secret s o k
                  (rw (q, sync_internal_registry_credentials_secret, r) at m)) [
                    | inl before ↦ inl before
                    | inr e ↦ inr (copied refl e)
                  ]
          ]
  ]

  abbrev manifests :
      (p : Part) (answer : Result (List Object)) (text name : String) (skip : Object → Bool)
      → ((os : List Object) (o : Object)
          → answer ≡ ok os
          → Memᴰ o os
          → skip o ≡ false
          → Wanted api world registry p (key_of api o))
      → TracksOnly cfg
          (Wanted api world registry p)
          (λ s. (apply_all_manifests api answer text name skip s).1)
  manifests p answer text name skip =
      apply_all_manifests-TracksOnly cfg (Wanted api world registry p) api law answer text name skip

  controller_of-TrackOnly :
      (p : Part)
      → TrackOnly cfg (Wanted api world registry p) (controller_of api world registry p).steps
  unfolding application_api rbac cli default_tenant cert_manager enterprise_contract
  controller_of-TrackOnly application_api_part =
      (manifests application_api_part _ _ _ _ λ _ _ a m n. embedded _ _ a m n refl, tt)
  controller_of-TrackOnly rbac_part =
      (manifests rbac_part _ _ _ _ λ _ _ a m n. embedded _ _ a m n refl, tt)
  controller_of-TrackOnly cli_part =
      (manifests cli_part _ _ _ _ λ _ _ a m n. embedded _ _ a m n refl, tt)
  controller_of-TrackOnly default_tenant_part = (
    manifests default_tenant_part _ _ _ _ λ _ _ a m n. embedded _ _ a m n refl,
    (sync-TracksOnly, tt),
  )
  controller_of-TrackOnly (cert_manager_part create) =
      elim (Bool-cases (should_create_cluster_issuer create)) [
        | inr f ↦ rw (f) tt
        | inl t ↦ rw (t) (
          manifests (cert_manager_part create) _ _ _ _
              λ _ _ a m n. embedded _ _ a m (ground (arith, t)) refl,
          tt,
        )
      ]
  controller_of-TrackOnly (enterprise_contract_part skip_policies) = (
    manifests (enterprise_contract_part skip_policies) _ _ _ _ λ _ _ a m n. embedded _ _ a m n refl,
    tt,
  )

module _ (api : Api) (status_api : StatusApi) (status_law : IsStatusApi status_api) (world : World)
    (now : ℕ) (registry : Registry) (law : KeepsIdentity api) (p : Part) (cr : Resource) where
  abbrev controller : Controller
  controller = controller_of api world registry p

  abbrev pub job_after : History → Job
  job_after h = job_of controller cr (stepped api status_api world now registry law p cr h)

  -- A kind has been dealt with: it is not installed, or in the answer of a List call for the owner
  -- label, every object that the resource controls, whose name is allowed, and that the spec does
  -- not ask for, is gone.
  pub data Cleaned (h f : History) (g : Gvk) : Type 0 where
    not_installed :
        (k : History) (e : Error)
        → api.list k (list_kind g) owner_label cr.object.name ≡ err e
        → e.kind ≡ ErrorKind.no_match
        → Cleaned h f g
    all_gone :
        (k : History) (items : List Object)
        → api.list k (list_kind g) owner_label cr.object.name ≡ ok items
        → ((item : Object)
            → Memᴰ item items
            → api.is_controlled_by item cr.object ≡ true
            → Allows controller.allow_list g item
            → ¬ Wanted api world registry p (item_key g item)
            → Gone api (job_after h) f g item)
        → Cleaned h f g

  tracked-Wanted :
      (h : History) (k : ResourceKey)
      → Memᴰ k (job_after h).client.tracked
      → Wanted api world registry p k
  unfolding new_client_with_ownership
  tracked-Wanted h k m =
      let cfg = ownership_of controller cr in
      elim (run_steps-TracksOnly cfg (Wanted api world registry p) controller.steps
        (controller_of-AreQuiet api world registry law cfg p)
        (controller_of-TrackOnly api world registry law cfg p) (start_of controller cr h) refl k
        m) [ inl n ↦ elim n [ ] | inr w ↦ w ]

  same_owner :
      (h : History) (cfg : OwnershipConfig)
      → (job_after h).client.ownership ≡ some cfg
      → (item : Object) → api.is_controlled_by item cr.object ≡ true
      → api.is_controlled_by item cfg.owner ≡ true
  unfolding new_client_with_ownership
  same_owner h cfg o item ours =
      let grown = (steps-Grows api status_api world now registry law p cr h).ownership in
      let same : ownership_of controller cr ≡ cfg = ground (arith, o, grown) in
      subst (λ (c : OwnershipConfig). api.is_controlled_by item c.owner ≡ true) same ours

  Swept-Cleaned : (h f : History) (g : Gvk) → Swept api (job_after h) f g → Cleaned h f g
  unfolding new_client_with_ownership
  Swept-Cleaned h f g (missing k e a n) = not_installed k e a n
  Swept-Cleaned h f g (swept k items a gone) = all_gone k items a λ item m ours allowed unwanted.
      gone item m (record {
        untracked = λ t. unwanted (tracked-Wanted h (item_key g item) t);
        owned = λ cfg o. same_owner h cfg o item ours;
        allowed = allowed;
      })

  -- If the reconcile of a part ends without an error and without a wait, all the goroutines of its
  -- cleanup having returned, then for each of the part's kinds for cleanup either the kind is not
  -- installed, or every listed object that the part's resource controls, with an allowed name where its
  -- kind is restricted, is gone unless the part's spec asks for it.
  pub reconcile_resource-Cleaned :
      (h : History) (schedule : List ℕ)
      → (reconcile_resource api status_api world now controller cr h schedule).result ≡ ok 0
      → All IsFinished
          (swept_state api status_api status_law world now controller cr h schedule).workers
      → All
          (Cleaned h (reconcile_resource api status_api world now controller cr h schedule).history)
          controller.cleanup_gvks
  reconcile_resource-Cleaned h schedule r finished =
      let complete =
        reconcile_resource-IsComplete api status_api status_law world now controller cr h schedule
          r in
      let s = stepped api status_api world now registry law p cr h in
      rw (complete.outcome) (
        rw (reported-history api status_api world now cr _ _) (
          All-map controller.cleanup_gvks (Swept-Cleaned h _) (
            cleanup_orphans_complete api (job_after h) controller.cleanup_gvks s.history schedule
              finished complete.cleaned)))
