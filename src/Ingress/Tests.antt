-- ===== src/Ingress/Tests.antt =====
-- The endpoint and its Ingress on a small OpenShift cluster (operator/pkg/ingress).
use konflux_ci.Prelude.{
  String, Bool, true, false, [], ◌∷◌, ◌≡◌, refl, subst, Option, none, some, Result, ok, err, ◌⊎◌,
  ◌↔◌, arith,
}
use konflux_ci.Overrides.Cuts.{cut_last, ends_with, has_char}
use konflux_ci.Tracking.Defs.{
  Session, key_of, new_client_with_ownership, apply_owned, apply_object, set_ownership, set_labels,
  is_custom_resource_definition, track,
}
use konflux_ci.Tracking.Tests.{small_api, small_api-KeepsIdentity, ui_config, session0}
use konflux_ci.ClusterInfo.{
  DiscoveryClient, Info, open_shift, detect_with_client, detect_open_shift, is_open_shift,
  has_cert_manager, has_all_resources, has_all_resources-AreInstalled, AreInstalled,
  get_openshift_version, version_from,
}
use konflux_ci.Ingress.Hosts.{
  Url, https, hostname, port, split_host_port, first_is, all_digits, drop_first, drop_last,
}
use konflux_ci.Ingress.Defs.{
  IngressSpec, get_ingress, on_open_shift, effectively_enabled, get_openshift_ingress_domain,
  err_fqdn_port_with_managed_ingress, localhost, resolve_endpoint, determine_endpoint_url,
  build_for_ui, build_ingress,
}
use konflux_ci.Ingress.Endpoint.{IsEndpoint, determine_endpoint_url-IsEndpoint}
use konflux_ci.Ingress.Managed.{
  ui_namespace, managed_ingress, ingress_object, reconcile_ingress, Tracks, reconcile_ingress_lem,
}
use konflux_ci.Ingress.Agreement.{FollowsSchema, Serves, managed_hosts_agree}

abbrev discovery : DiscoveryClient
discovery = record { resources_for = λ gv. ok ("ClusterVersion" ∷ "Certificate" ∷ "Issuer" ∷ []) }

abbrev cluster : Info
cluster = record { client = discovery; platform = open_shift }

detect_test : detect_with_client discovery ≡ ok cluster
unfolding detect_with_client detect_open_shift
detect_test = refl

cert_manager_test : has_cert_manager cluster ≡ ok false
unfolding has_cert_manager has_all_resources
cert_manager_test = refl

version_test :
    get_openshift_version (
      ok (
        record { state = "Partial"; version = "4.20.1" }
        ∷ record { state = "Completed"; version = "4.19.2" }
        ∷ []))
    ≡ ("4.19.2", none)
unfolding get_openshift_version version_from
version_test = refl

abbrev spec_of : String → String → Option Bool → IngressSpec
spec_of fqdn label enabled = record {
  enabled = enabled;
  ingress_class_name = none;
  fqdn = fqdn;
  hostname = label;
  annotations = ("team", "a") ∷ [];
  tls_secret_name = "ui-tls";
}

abbrev domain_answer : Result (Result (Option String))
domain_answer = ok (ok (some "apps.example.com"))

abbrev endpoint_for : IngressSpec → Option Info → Result Url
endpoint_for spec info = determine_endpoint_url (some spec) ui_namespace info domain_answer

port_test : port (https "ui.example.com:8443") ≡ "8443"
unfolding port split_host_port cut_last all_digits
port_test = refl

hostname_test : hostname (https "[::1]:80") ≡ "::1"
unfolding hostname split_host_port cut_last first_is all_digits drop_first drop_last ends_with
hostname_test = refl

rejected_test :
    endpoint_for (spec_of "ui.example.com:8443" "" none) (some cluster)
    ≡ err err_fqdn_port_with_managed_ingress
unfolding determine_endpoint_url resolve_endpoint get_ingress is_open_shift port split_host_port
    cut_last all_digits get_openshift_ingress_domain
rejected_test = refl

off_open_shift_test : endpoint_for (spec_of "" "ui" (some true)) none ≡ ok localhost
unfolding determine_endpoint_url resolve_endpoint get_ingress get_openshift_ingress_domain
off_open_shift_test = refl

abbrev endpoint : Url
endpoint = https "ui.apps.example.com"

endpoint_test : endpoint_for (spec_of "" "ui" none) (some cluster) ≡ ok endpoint
unfolding determine_endpoint_url resolve_endpoint get_ingress is_open_shift
    get_openshift_ingress_domain
endpoint_test = refl

determine_endpoint_url-IsEndpoint_example :
    (endpoint_for (spec_of "" "ui" none) (some cluster) ≡ ok endpoint)
    ↔ IsEndpoint
        (get_ingress (some (spec_of "" "ui" none)))
        (on_open_shift (some cluster))
        ui_namespace
        (get_openshift_ingress_domain domain_answer)
        (ok endpoint)
determine_endpoint_url-IsEndpoint_example =
    determine_endpoint_url-IsEndpoint (some (spec_of "" "ui" none)) ui_namespace (some cluster)
      domain_answer (ok endpoint)

abbrev ui_spec : IngressSpec
ui_spec = spec_of "" "ui" none

ui_spec-FollowsSchema : FollowsSchema (get_ingress (some ui_spec))
unfolding get_ingress has_char ends_with
ui_spec-FollowsSchema = record { no_bracket = refl; no_last_colon = refl; label = (refl, refl) }

abbrev DomainIsPlain : Type 0
DomainIsPlain =
    (d : String)
    → get_openshift_ingress_domain domain_answer ≡ ok d
    → (has_char ":" d ≡ false) × (has_char "[" d ≡ false)

example_domain-DomainIsPlain : DomainIsPlain
unfolding get_openshift_ingress_domain has_char
example_domain-DomainIsPlain d h =
    let e : "apps.example.com" ≡ d = ground (arith, h) in
    subst (λ t. (has_char ":" t ≡ false) × (has_char "[" t ≡ false)) e (refl, refl)

managed_hosts_agree_example :
    (port endpoint ≡ "")
    × Serves
        (get_ingress (some ui_spec))
        (managed_ingress (some ui_spec) endpoint)
        "ui.apps.example.com"
unfolding is_open_shift get_ingress
managed_hosts_agree_example =
    managed_hosts_agree (some ui_spec) (some cluster) domain_answer endpoint ui_spec-FollowsSchema
      example_domain-DomainIsPlain refl refl endpoint_test

abbrev session_after : Session
session_after = (reconcile_ingress small_api (some ui_spec) (some cluster) endpoint session0).1

reconcile_ingress_lem_example :
    ((effectively_enabled (get_ingress (some ui_spec)) (on_open_shift (some cluster)) ≡ true)
      × Tracks small_api
          (on_open_shift (some cluster))
          (key_of small_api (ingress_object (managed_ingress (some ui_spec) endpoint)))
          session0.client.tracked
          session_after.client.tracked)
    ⊎ ((effectively_enabled (get_ingress (some ui_spec)) (on_open_shift (some cluster)) ≡ false)
        × (session_after ≡ session0))
unfolding reconcile_ingress is_open_shift get_ingress build_for_ui build_ingress
    new_client_with_ownership apply_owned apply_object set_ownership set_labels
    is_custom_resource_definition track
reconcile_ingress_lem_example =
    reconcile_ingress_lem small_api small_api-KeepsIdentity ui_config (some ui_spec) (some cluster)
      endpoint session0 session_after refl refl

has_all_resources-AreInstalled_example :
    (has_all_resources cluster "cert-manager.io/v1" ("Certificate" ∷ "Issuer" ∷ []) ≡ ok true)
    ↔ AreInstalled cluster "cert-manager.io/v1" ("Certificate" ∷ "Issuer" ∷ [])
has_all_resources-AreInstalled_example =
    has_all_resources-AreInstalled cluster "cert-manager.io/v1" ("Certificate" ∷ "Issuer" ∷ [])
