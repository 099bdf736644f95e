-- ===== src/Ingress/Defs.antt =====
-- operator/pkg/ingress/ingress.go, with the preferences of operator/api/v1alpha1/konfluxui_types.go that it
-- reads. The Get call for the cluster's Ingress configuration is a parameter: its answer.
use konflux_ci.Prelude.{
  String, Bool, true, false, not, ◌&&◌, List, [], ◌∷◌, Option, none, some, Error, Result, ok, err,
  errorf, wrap, ◌&◌, ◌==◌, string_eq, if◌then◌else◌, Dict, insert,
}
use konflux_ci.ClusterInfo.{Info, is_open_shift}
use konflux_ci.Ingress.Hosts.{Url, https, port}

pub record IngressSpec : Type 0 where
  pub enabled : Option Bool
  pub ingress_class_name : Option String
  pub fqdn : String
  pub hostname : String
  pub annotations : Dict String
  pub tls_secret_name : String

-- ptr.Deref
abbrev pub deref {ℓ} : {A : Type ℓ} → Option A → A → A
deref none a = a
deref (some b) a = b

abbrev empty_spec : IngressSpec
empty_spec = record {
  enabled = none;
  ingress_class_name = none;
  fqdn = "";
  hostname = "";
  annotations = [];
  tls_secret_name = "";
}

unfoldable pub get_ingress : Option IngressSpec → IngressSpec
get_ingress spec = deref spec empty_spec

-- clusterInfo != nil && clusterInfo.IsOpenShift()
abbrev pub on_open_shift : Option Info → Bool
on_open_shift none = false
on_open_shift (some i) = is_open_shift i

abbrev pub effectively_enabled : IngressSpec → Bool → Bool
effectively_enabled spec open_shift = deref spec.enabled open_shift

-- A rule of an Ingress has one path here, which leads to a port of a service.
pub record IngressRule : Type 0 where
  pub host : String
  pub path : String
  pub path_type : String
  pub service_name : String
  pub service_port : String

pub record IngressTls : Type 0 where
  pub hosts : List String
  pub secret_name : String

pub record Ingress : Type 0 where
  pub name : String
  pub namespace : String
  pub annotations : Dict String
  pub ingress_class_name : Option String
  pub rules : List IngressRule
  pub tls : List IngressTls

pub record IngressConfig : Type 0 where
  pub name : String
  pub namespace : String
  pub hostname : String
  pub service_name : String
  pub service_port : String
  pub path : String
  pub ingress_class_name : Option String
  pub annotations : Dict String
  pub tls_secret_name : String

unfoldable pub merge_annotations : Dict String → Dict String → Dict String
merge_annotations base [] = base
merge_annotations base ((k, v) ∷ rest) = merge_annotations (insert k v base) rest

abbrev pub destination_ca : String
destination_ca = "route.openshift.io/destination-ca-certificate-secret"

abbrev pub termination : String
termination = "route.openshift.io/termination"

abbrev pub required_annotations : Dict String
required_annotations = (destination_ca, "ui-ca") ∷ (termination, "reencrypt") ∷ []

-- Build
unfoldable pub build_ingress : IngressConfig → Ingress
build_ingress cfg = record {
  name = cfg.name;
  namespace = cfg.namespace;
  annotations = merge_annotations required_annotations cfg.annotations;
  ingress_class_name = cfg.ingress_class_name;
  rules =
      record {
        host = cfg.hostname;
        path = cfg.path;
        path_type = "Prefix";
        service_name = cfg.service_name;
        service_port = cfg.service_port;
      }
      ∷ [];
  tls =
      if cfg.tls_secret_name == ""
      then []
      else record { hosts = cfg.hostname ∷ []; secret_name = cfg.tls_secret_name } ∷ [];
}

unfoldable pub build_for_ui : Option IngressSpec → String → String → Ingress
build_for_ui ui namespace host =
    let spec = get_ingress ui in
    build_ingress (record {
      name = "konflux-ui";
      namespace = namespace;
      hostname = host;
      service_name = "proxy";
      service_port = "web-tls";
      path = "/";
      ingress_class_name = spec.ingress_class_name;
      annotations = spec.annotations;
      tls_secret_name = spec.tls_secret_name;
    })

abbrev not_found_domain : Error
not_found_domain = errorf "domain not found in OpenShift Ingress config"

-- The text at spec.domain, if it stands there.
abbrev domain_at : Result (Option String) → Result String
domain_at (err e) = err (wrap "failed to extract domain from Ingress config: " e)
domain_at (ok none) = err not_found_domain
domain_at (ok (some domain)) = if domain == "" then err not_found_domain else ok domain

-- From the answer of the Get call, whose object is read at spec.domain.
unfoldable pub get_openshift_ingress_domain : Result (Result (Option String)) → Result String
get_openshift_ingress_domain (err e) = err (wrap "failed to get OpenShift Ingress config: " e)
get_openshift_ingress_domain (ok field) = domain_at field

abbrev pub err_fqdn_port_with_managed_ingress : Error
err_fqdn_port_with_managed_ingress =
    errorf
      "ingress.fqdn must not include a port when ingress is enabled; remove :port or set ingress.enabled=false"

-- The endpoint below the cluster's domain.
abbrev pub below : String → Result String → Result Url
below name (err e) = err (wrap "failed to get OpenShift ingress domain: " e)
below name (ok domain) = ok (https (name & "." & domain))

abbrev pub localhost : Url
localhost = https "localhost:9443"

-- Without an FQDN and a hostname that counts.
abbrev default_endpoint : Bool → Bool → String → Result String → Result Url
default_endpoint false open_shift namespace domain = ok localhost
default_endpoint true true namespace domain = below ("konflux-ui-" & namespace) domain
default_endpoint true false namespace domain = ok localhost

abbrev fqdn_endpoint : IngressSpec → Bool → Result Url
fqdn_endpoint spec enabled =
    if not (port (https spec.fqdn) == "") && enabled
    then err err_fqdn_port_with_managed_ingress
    else ok (https spec.fqdn)

-- From the spec, whether the platform is OpenShift, the namespace and the domain of the cluster.
unfoldable pub resolve_endpoint : IngressSpec → Bool → String → Result String → Result Url
resolve_endpoint spec open_shift namespace domain =
    let enabled = effectively_enabled spec open_shift in
    if not (spec.fqdn == "")
    then fqdn_endpoint spec enabled
    else if not (spec.hostname == "") && open_shift
    then below spec.hostname domain
    else default_endpoint enabled open_shift namespace domain

-- DetermineEndpointURL, from the answer of the Get call that it may make.
unfoldable pub determine_endpoint_url :
    Option IngressSpec → String → Option Info → Result (Result (Option String)) → Result Url
determine_endpoint_url ui namespace info answer =
    resolve_endpoint (get_ingress ui) (on_open_shift info) namespace
      (get_openshift_ingress_domain answer)
