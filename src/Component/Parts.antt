-- ===== src/Component/Parts.antt =====
-- The parts of Konflux with their controllers of operator/internal/controller, taken together.
use konflux_ci.Prelude.{
  Bool, false, not, List, ◌∷◌, ◌≡◌, refl, ◌∙◌, subst, sym, Option, some, Result, ok, err, Memᴰ,
  arith, nat_eq, Result-cases, Bool-cases, inl, inr,
}
use konflux_ci.Prelude.{String}
use konflux_ci.Cluster.{Object, Api}
use konflux_ci.Tracking.Defs.{OwnershipConfig, Session, key_of}
use konflux_ci.Tracking.Apply.{KeepsIdentity}
use konflux_ci.Tracking.Growth.{Grows-refl, apply_owned-Grows}
use konflux_ci.Component.Defs.{World, Step, apply_step, Controller, run_steps, through}
use konflux_ci.Component.Manifests.{apply_each, apply_all_manifests}
use konflux_ci.Component.Controllers.{
  should_create_cluster_issuer, is_skipped_policy, application_api, rbac, cli, cert_manager,
  enterprise_contract,
}
use konflux_ci.Component.DefaultTenant.{
  Registry, registry_name, tenant_secret, sync_internal_registry_credentials_secret, default_tenant,
}
use konflux_ci.Component.Steps.{
  IsQuiet, AreQuiet, run_steps-IsQuiet, apply_each-tracked, apply_all_manifests-IsQuiet,
}

-- A part, with the field of its spec that decides what is applied.
pub data Part : Type 0 where
  application_api_part rbac_part cli_part default_tenant_part : Part
  cert_manager_part : Option Bool → Part
  enterprise_contract_part : Bool → Part

-- The embedded objects that the part's controller does not apply.
abbrev pub skip_of : Part → Object → Bool
skip_of (cert_manager_part create) o = not (should_create_cluster_issuer create)
skip_of (enterprise_contract_part skip_policies) o = is_skipped_policy skip_policies o
skip_of _ o = false

module _ (api : Api) (world : World) (registry : Registry) where
  abbrev pub controller_of : Part → Controller
  controller_of application_api_part = application_api api world
  controller_of rbac_part = rbac api world
  controller_of cli_part = cli api world
  controller_of default_tenant_part = default_tenant api world registry
  controller_of (cert_manager_part create) = cert_manager api world create
  controller_of (enterprise_contract_part skip_policies) =
      enterprise_contract api world skip_policies

  module _ (law : KeepsIdentity api) (cfg : OwnershipConfig) where
    sync-IsQuiet :
        IsQuiet cfg (λ s. (sync_internal_registry_credentials_secret api world registry s).1)
    unfolding sync_internal_registry_credentials_secret
    sync-IsQuiet s o = elim (Result-cases (registry.get_registry s.history registry_name)) [
      | inr (e, p) ↦ rw (p, sync_internal_registry_credentials_secret) (Grows-refl s)
      | inl (u, p) ↦
          elim (Result-cases
            (registry.get_secret s.history "kind-registry" "internal-registry-client-auth")) [
              | inr (e, q) ↦ rw (p, sync_internal_registry_credentials_secret, q) (Grows-refl s)
              | inl (v, q) ↦
                  rw (p, sync_internal_registry_credentials_secret, q)
                    (apply_owned-Grows api law cfg tenant_secret s o)
            ]
    ]

    -- No step of a part's controller deletes anything.
    pub controller_of-AreQuiet : (p : Part) → AreQuiet cfg (controller_of p).steps
    unfolding application_api rbac cli default_tenant cert_manager enterprise_contract
    controller_of-AreQuiet application_api_part =
        (apply_all_manifests-IsQuiet api law cfg _ _ _ _, tt)
    controller_of-AreQuiet rbac_part = (apply_all_manifests-IsQuiet api law cfg _ _ _ _, tt)
    controller_of-AreQuiet cli_part = (apply_all_manifests-IsQuiet api law cfg _ _ _ _, tt)
    controller_of-AreQuiet default_tenant_part =
        (apply_all_manifests-IsQuiet api law cfg _ _ _ _, (sync-IsQuiet, tt))
    controller_of-AreQuiet (cert_manager_part create) =
        elim (Bool-cases (should_create_cluster_issuer create)) [
          | inl t ↦ rw (t) (apply_all_manifests-IsQuiet api law cfg _ _ _ _, tt)
          | inr f ↦ rw (f) tt
        ]
    controller_of-AreQuiet (enterprise_contract_part skip_policies) =
        (apply_all_manifests-IsQuiet api law cfg _ _ _ _, tt)

    -- The first step applies the manifests: when all steps went through, what it did not skip is
    -- tracked.
    first-tracked :
        (answer : Result (List Object)) (missing component : String) (skip : Object → Bool)
        (xs : List Step) (s : Session) (os : List Object)
        → AreQuiet cfg xs
        → s.client.ownership ≡ some cfg
        → answer ≡ ok os
        → let all_steps = apply_step (apply_all_manifests api answer missing component skip) ∷ xs in
          (run_steps all_steps s).0 ≡ through
          → (o : Object) → Memᴰ o os
          → skip o ≡ false
          → Memᴰ (key_of api o) (run_steps all_steps s).1.client.tracked
    unfolding run_steps apply_all_manifests
    first-tracked (err e) missing component skip xs s os q w a done o m f = cc
    first-tracked (ok ps) missing component skip xs s os q w a done o m f =
        let each = apply_each api component skip ps s in
        elim (Result-cases each.0) [
          | inr (e, r) ↦ absurd (ground (arith, r, done))
          | inl (u, r) ↦
              let same : ps ≡ os = ground (arith, a) in
              let grown =
                apply_all_manifests-IsQuiet api law cfg (ok ps) missing component skip s w in
              rw (r, run_steps, apply_all_manifests)
                ((run_steps-IsQuiet cfg xs q each.1 (grown.ownership ∙ w)).tracked _ (
                  apply_each-tracked api law cfg component skip ps s w r o
                    (subst (λ l. Memᴰ o l) (sym same) m) f))
        ]

    -- When all steps of a part's controller went through, each embedded object that it does not
    -- skip is tracked.
    pub controller_of-tracked :
        (p : Part) (s : Session) (os : List Object)
        → s.client.ownership ≡ some cfg
        → world.get_for_component (controller_of p).component ≡ ok os
        → (run_steps (controller_of p).steps s).0 ≡ through
        → (o : Object) → Memᴰ o os
        → skip_of p o ≡ false
        → Memᴰ (key_of api o) (run_steps (controller_of p).steps s).1.client.tracked
    unfolding application_api rbac cli default_tenant cert_manager enterprise_contract
    controller_of-tracked application_api_part s os w a d o m f =
        first-tracked _ _ _ _ _ s os tt w a d o m f
    controller_of-tracked rbac_part s os w a d o m f = first-tracked _ _ _ _ _ s os tt w a d o m f
    controller_of-tracked cli_part s os w a d o m f = first-tracked _ _ _ _ _ s os tt w a d o m f
    controller_of-tracked default_tenant_part s os w a d o m f =
        first-tracked _ _ _ _ _ s os (sync-IsQuiet, tt) w a d o m f
    controller_of-tracked (cert_manager_part create) s os w a d o m f =
        elim (Bool-cases (should_create_cluster_issuer create)) [
          | inr n ↦ absurd (ground (arith, n, f))
          | inl t ↦ rw (t) (first-tracked _ _ _ _ _ s os tt w a (rw (t) at d) o m refl)
        ]
    controller_of-tracked (enterprise_contract_part skip_policies) s os w a d o m f =
        first-tracked _ _ _ _ _ s os tt w a d o m f
