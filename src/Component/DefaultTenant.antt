-- ===== src/Component/DefaultTenant.antt =====
-- operator/internal/controller/defaulttenant/konfluxdefaulttenant_controller.go: the default tenant, whose
-- namespace gets a copy of the internal registry's credentials. What a Secret holds is not modelled:
-- the copy is its kind, its namespace and its name.
use konflux_ci.Prelude.{
  is_not_found, ℕ, String, false, [], ◌∷◌, Result, ok, err, none, wrap, ◌&◌, if◌then◌else◌,
}
use konflux_ci.Prelude.Exec.{Exec}
use konflux_ci.Cluster.{Gvk, Object, History, Api}
use konflux_ci.Tracking.Defs.{Session, apply_owned}
use konflux_ci.Component.Defs.{World, Controller, apply_step}
use konflux_ci.Component.Manifests.{apply_all_manifests, none_skipped}

-- The two Get calls: of the KonfluxInternalRegistry, and of the Secret with its credentials.
pub record Registry : Type 0 where
  pub get_registry : History → String → Result (Unit {0})
  pub get_secret : History → String → String → Result (Unit {0})

abbrev pub secret_gvk : Gvk
secret_gvk = record { group = ""; version = "v1"; kind = "Secret" }

-- The Secret that is applied in the tenant's namespace.
unfoldable pub tenant_secret : Object
tenant_secret = record {
  gvk = secret_gvk;
  namespace = "default-tenant";
  name = "regcred-internal-registry";
  uid = "";
  is_typed_crd = false;
  labels = [];
  controller = none;
}

abbrev pub registry_name : String
registry_name = "konflux-internal-registry"

module _ (api : Api) (world : World) (registry : Registry) where
  abbrev pub copy_secret : Exec Session ℕ
  copy_secret s =
      let (r, s') = apply_owned api tenant_secret s in
      (
        elim r [
          | ok _ ↦ ok 0
          | err e ↦ err (wrap "sync target secret default-tenant/regcred-internal-registry: " e)
        ],
        s',
      )

  abbrev pub sync_from_source : Result (Unit {0}) → Exec Session ℕ
  sync_from_source (ok _) s = copy_secret s
  sync_from_source (err e) s = (
    if is_not_found e.kind
        then ok 10
        else err (wrap "get source secret kind-registry/internal-registry-client-auth: " e),
    s,
  )

  -- The answer is the wait in seconds, 0 for none.
  unfoldable pub sync_internal_registry_credentials_secret : Exec Session ℕ
  sync_internal_registry_credentials_secret s =
      elim (registry.get_registry s.history registry_name) [
        | ok _ ↦
            sync_from_source
              (registry.get_secret s.history "kind-registry" "internal-registry-client-auth") s
        | err e ↦ (
          if is_not_found e.kind
              then ok 0
              else err (wrap ("get internal registry \"" & registry_name & "\": ") e),
          s,
        )
      ]

  abbrev pub default_tenant_manifests : Exec Session ℕ
  default_tenant_manifests =
      apply_all_manifests api (world.get_for_component "default-tenant")
        "failed to get parsed manifests for DefaultTenant: " "default-tenant" none_skipped

  unfoldable pub default_tenant : Controller
  default_tenant = record {
    component = "default-tenant";
    field_manager = "konflux-defaulttenant-controller";
    steps =
        apply_step default_tenant_manifests
        ∷ apply_step sync_internal_registry_credentials_secret
        ∷ [];
    cleanup_gvks = secret_gvk ∷ [];
    allow_list = none;
  }
