-- ===== src/Scrape/Resources.antt =====
-- operator/pkg/kubernetes/component_metrics.go: which objects belong to the scraping of a component's
-- metrics. strings.HasPrefix and HasSuffix are those of Overrides.Cuts and the library.
use konflux_ci.Prelude.{
  String, Bool, true, false, not, ◌&&◌, ◌||◌, List, [], ◌∷◌, ◌≡◌, Option, none, some, ◌==◌,
  string_eq, if◌then◌else◌, any, starts_with, arith,
}
use konflux_ci.Cluster.{Gvk, is_empty}
use konflux_ci.Overrides.Cuts.{ends_with}

-- The Go type of an object, with what is read of a Secret: its type and the annotation that names a
-- service account.
pub data GoType : Type 0 where
  cluster_role cluster_role_binding service_account other_type : GoType
  secret unstructured : String → String → GoType

pub record MetricsObject : Type 0 where
  pub gvk : Gvk
  pub name : String
  pub go_type : GoType

abbrev gvk_of : String → String → String → Gvk
gvk_of group version kind = record { group = group; version = version; kind = kind }

abbrev rbac_group : String
rbac_group = "rbac.authorization.k8s.io"

abbrev pub service_monitor_gvk : Gvk
service_monitor_gvk = gvk_of "monitoring.coreos.com" "v1" "ServiceMonitor"

abbrev pub metrics_cleanup_gvks : List Gvk
metrics_cleanup_gvks =
    service_monitor_gvk
    ∷ gvk_of "" "v1" "Secret"
    ∷ gvk_of "" "v1" "ServiceAccount"
    ∷ gvk_of rbac_group "v1" "ClusterRole"
    ∷ gvk_of rbac_group "v1" "ClusterRoleBinding"
    ∷ []

abbrev gvk_of_type : GoType → Gvk → Gvk
gvk_of_type cluster_role g = gvk_of rbac_group "v1" "ClusterRole"
gvk_of_type cluster_role_binding g = gvk_of rbac_group "v1" "ClusterRoleBinding"
gvk_of_type service_account g = gvk_of "" "v1" "ServiceAccount"
gvk_of_type (secret type account) g = gvk_of "" "v1" "Secret"
gvk_of_type (unstructured type account) g = g
gvk_of_type other_type g = g

unfoldable pub object_gvk : MetricsObject → Gvk
object_gvk o = if not (is_empty o.gvk) then o.gvk else gvk_of_type o.go_type o.gvk

unfoldable pub is_component_metrics_service_monitor : Option MetricsObject → Bool
is_component_metrics_service_monitor none = false
is_component_metrics_service_monitor (some o) =
    (object_gvk o).group == service_monitor_gvk.group
    && (object_gvk o).kind == service_monitor_gvk.kind

abbrev pub suffix : String
suffix = "-metrics-reader"

unfoldable pub is_metrics_reader_service_account_name : String → Bool
is_metrics_reader_service_account_name name = name == "metrics-reader" || ends_with name suffix

-- A Secret whose name is not that of the token.
abbrev is_reader_secret : GoType → Bool
is_reader_secret (secret type account) =
    type == "kubernetes.io/service-account-token" && is_metrics_reader_service_account_name account
is_reader_secret (unstructured type account) =
    type == "kubernetes.io/service-account-token" && is_metrics_reader_service_account_name account
is_reader_secret _ = false

abbrev of_rbac : String → String → Bool
of_rbac kind name =
    if kind == "ClusterRole"
    then ends_with name suffix
    else if kind == "ClusterRoleBinding"
    then starts_with name "prometheus-" && ends_with name suffix
    else false

abbrev of_core : String → String → GoType → Bool
of_core kind name type =
    if kind == "ServiceAccount"
    then is_metrics_reader_service_account_name name
    else if kind == "Secret"
    then name == "prometheus-scrape-token" || is_reader_secret type
    else false

unfoldable pub is_component_metrics_scrape_resource : Option MetricsObject → Bool
is_component_metrics_scrape_resource none = false
is_component_metrics_scrape_resource (some o) =
    let g = object_gvk o in
    if g.group == service_monitor_gvk.group
    then g.kind == service_monitor_gvk.kind
    else if g.group == rbac_group
    then of_rbac g.kind o.name
    else if g.group == ""
    then of_core g.kind o.name o.go_type
    else false

-- One of the kinds that the orphan cleanup of an operand looks through.
abbrev pub IsSwept : Gvk → Type 0
IsSwept g = any (λ k. k.group == g.group && k.kind == g.kind) metrics_cleanup_gvks ≡ true

-- Whatever belongs to the scraping of metrics, and so may be skipped by an apply, is of a kind that the orphan
-- cleanup looks through; and the ServiceMonitor that is applied later belongs to it.
pub metrics_resources_lem :
    (o : MetricsObject)
    → (is_component_metrics_scrape_resource (some o) ≡ true → IsSwept (object_gvk o))
      × (is_component_metrics_service_monitor (some o) ≡ true
          → is_component_metrics_scrape_resource (some o) ≡ true)
unfolding is_component_metrics_scrape_resource is_component_metrics_service_monitor
metrics_resources_lem o = (
  λ h. ground (
    arith,
    h,
    string_eq.agrees (object_gvk o).group "monitoring.coreos.com",
    string_eq.agrees (object_gvk o).group "",
    string_eq.agrees (object_gvk o).group rbac_group,
    string_eq.agrees (object_gvk o).kind "ServiceMonitor",
    string_eq.agrees (object_gvk o).kind "Secret",
    string_eq.agrees (object_gvk o).kind "ServiceAccount",
    string_eq.agrees (object_gvk o).kind "ClusterRole",
    string_eq.agrees (object_gvk o).kind "ClusterRoleBinding",
  ),
  λ h. ground (arith, h),
)
