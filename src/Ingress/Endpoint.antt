-- ===== src/Ingress/Endpoint.antt =====
-- operator/pkg/ingress/ingress.go: DetermineEndpointURL follows the resolution order of its documentation.
use konflux_ci.Prelude.{
  String, Bool, true, false, ◌≡◌, ◌≢◌, sym, ◌↔◌, Option, Result, ok, err, ◌&◌, ◌==◌, string_eq,
  eq_of_beq, ne_of_beq, beq_of_ne, subst, arith, inl, inr, ◌⊎◌, Bool-cases,
}
use konflux_ci.ClusterInfo.{Info}
use konflux_ci.Ingress.Hosts.{Url, https, port}
use konflux_ci.Ingress.Defs.{
  IngressSpec, get_ingress, on_open_shift, effectively_enabled, get_openshift_ingress_domain, below,
  localhost, err_fqdn_port_with_managed_ingress, resolve_endpoint, determine_endpoint_url,
}

-- The documented order, for a spec, the platform and the domain of the cluster: an FQDN is the host, with a
-- port only where no Ingress is managed; a hostname counts on OpenShift alone; without either the
-- managed Ingress has a name of its own on OpenShift, and all else is localhost.
pub data IsEndpoint (spec : IngressSpec) (open_shift : Bool) (namespace : String)
    (domain : Result String) : Result Url → Type 0 where
  fqdn_rejected :
      spec.fqdn ≢ ""
      → port (https spec.fqdn) ≢ ""
      → effectively_enabled spec open_shift ≡ true
      → IsEndpoint spec open_shift namespace domain (err err_fqdn_port_with_managed_ingress)
  fqdn_used :
      spec.fqdn ≢ ""
      → (port (https spec.fqdn) ≡ "") ⊎ (effectively_enabled spec open_shift ≡ false)
      → IsEndpoint spec open_shift namespace domain (ok (https spec.fqdn))
  hostname_used :
      spec.fqdn ≡ ""
      → spec.hostname ≢ ""
      → open_shift ≡ true
      → IsEndpoint spec open_shift namespace domain (below spec.hostname domain)
  managed_name :
      spec.fqdn ≡ ""
      → spec.hostname ≡ ""
      → open_shift ≡ true
      → effectively_enabled spec open_shift ≡ true
      → IsEndpoint spec open_shift namespace domain (below ("konflux-ui-" & namespace) domain)
  not_on_open_shift :
      spec.fqdn ≡ ""
      → open_shift ≡ false
      → IsEndpoint spec open_shift namespace domain (ok localhost)
  not_managed :
      spec.fqdn ≡ ""
      → spec.hostname ≡ ""
      → effectively_enabled spec open_shift ≡ false
      → IsEndpoint spec open_shift namespace domain (ok localhost)

module _ (spec : IngressSpec) (open_shift : Bool) (namespace : String)
    (domain : Result String) where
  abbrev Documented : Result Url → Type 0
  Documented = IsEndpoint spec open_shift namespace domain

  abbrev resolved : Result Url
  resolved = resolve_endpoint spec open_shift namespace domain

  local_by_default : spec.fqdn ≡ "" → open_shift ≡ false → ok localhost ≡ resolved
  unfolding resolve_endpoint
  local_by_default f o = elim (Bool-cases (effectively_enabled spec open_shift)) [
    | inl e ↦ elim (Bool-cases (spec.hostname == "")) [
      | inl h ↦ rw (f, h, e, o)
      | inr h ↦ rw (f, h, e, o)
    ]
    | inr e ↦ elim (Bool-cases (spec.hostname == "")) [
      | inl h ↦ rw (f, h, e)
      | inr h ↦ rw (f, h, e, o)
    ]
  ]

  is_resolved : (r : Result Url) → Documented r → r ≡ resolved
  unfolding resolve_endpoint
  is_resolved r (fqdn_rejected f p e) = rw (beq_of_ne f, beq_of_ne p, e)
  is_resolved r (fqdn_used f (inl p)) = rw (beq_of_ne f, p)
  is_resolved r (fqdn_used f (inr e)) = ground (arith, beq_of_ne f)
  is_resolved r (hostname_used f h o) = rw (f, beq_of_ne h, o)
  is_resolved r (managed_name f h o e) = rw (f, h, e, o)
  is_resolved r (not_on_open_shift f o) = local_by_default f o
  is_resolved r (not_managed f h e) = rw (f, h, e)

  abbrev Decided : Type 0
  Decided = (r : Result Url) × Documented r

  with_fqdn : spec.fqdn ≢ "" → Decided
  with_fqdn f = elim (Bool-cases (effectively_enabled spec open_shift)) [
    | inr e ↦ (_, fqdn_used f (inr e))
    | inl e ↦ elim (Bool-cases (port (https spec.fqdn) == "")) [
      | inl p ↦ (_, fqdn_used f (inl (eq_of_beq p)))
      | inr p ↦ (_, fqdn_rejected f (ne_of_beq p) e)
    ]
  ]

  without_either : spec.fqdn ≡ "" → spec.hostname ≡ "" → open_shift ≡ true → Decided
  without_either f h o = elim (Bool-cases (effectively_enabled spec open_shift)) [
    | inl e ↦ (_, managed_name f h o e)
    | inr e ↦ (_, not_managed f h e)
  ]

  without_fqdn : spec.fqdn ≡ "" → Decided
  without_fqdn f = elim (Bool-cases open_shift) [
    | inr o ↦ (_, not_on_open_shift f o)
    | inl o ↦ elim (Bool-cases (spec.hostname == "")) [
      | inr h ↦ (_, hostname_used f (ne_of_beq h) o)
      | inl h ↦ without_either f (eq_of_beq h) o
    ]
  ]

  -- One of the documented cases holds.
  some_case : Decided
  some_case = elim (Bool-cases (spec.fqdn == "")) [
    | inl f ↦ without_fqdn (eq_of_beq f)
    | inr f ↦ with_fqdn (ne_of_beq f)
  ]

  resolved-Documented : Documented resolved
  resolved-Documented = let (r, d) = some_case in subst Documented (is_resolved r d) d

-- DetermineEndpointURL answers r exactly if the documented order gives r, from the platform that was
-- detected and the domain that the cluster's Ingress configuration holds.
pub determine_endpoint_url-IsEndpoint :
    (ui : Option IngressSpec) (namespace : String) (info : Option Info)
    (answer : Result (Result (Option String))) (r : Result Url)
    → (determine_endpoint_url ui namespace info answer ≡ r)
      ↔ IsEndpoint
          (get_ingress ui)
          (on_open_shift info)
          namespace
          (get_openshift_ingress_domain answer)
          r
unfolding determine_endpoint_url
determine_endpoint_url-IsEndpoint ui namespace info answer r = (
  λ e. subst (IsEndpoint _ _ _ _) e (resolved-Documented _ _ _ _),
  λ d. sym (is_resolved _ _ _ _ r d),
)
