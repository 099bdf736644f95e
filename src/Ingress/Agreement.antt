-- ===== src/Ingress/Agreement.antt =====
-- operator/pkg/ingress/ingress.go and operator/internal/controller/ui/konfluxui_controller.go: the Ingress
-- that is managed on OpenShift answers for the host that the endpoint, and with it every redirect, names.
use konflux_ci.Prelude.{
  String, true, false, [], ◌∷◌, map, ◌≡◌, refl, sym, ap, subst, ◌∙◌, Option, none, Result, ok, err,
  ◌&◌, string_eq, beq_of_ne, ◌≢◌, Dict, lookup, insert, lookup-insert, arith, inl, inr,
}
use konflux_ci.Overrides.Cuts.{has_char, ends_with, has_char-append}
use konflux_ci.ClusterInfo.{Info}
use konflux_ci.Ingress.Hosts.{
  Url, https, hostname, port, split_host_port, IsPlain, split_host_port-plain,
  split_host_port-portless,
}
use konflux_ci.Ingress.Defs.{
  IngressSpec, Ingress, get_ingress, on_open_shift, effectively_enabled,
  get_openshift_ingress_domain, below, build_ingress, build_for_ui, merge_annotations,
  required_annotations, determine_endpoint_url,
}
use konflux_ci.Ingress.Endpoint.{
  IsEndpoint, fqdn_rejected, fqdn_used, hostname_used, managed_name, not_on_open_shift, not_managed,
  determine_endpoint_url-IsEndpoint,
}
use konflux_ci.Ingress.Managed.{ui_namespace, managed_ingress}

-- What the patterns of the resource's schema ask of its texts.
pub record FollowsSchema (spec : IngressSpec) : Type 0 where
  pub no_bracket : has_char "[" spec.fqdn ≡ false
  pub no_last_colon : ends_with spec.fqdn ":" ≡ false
  pub label : IsPlain spec.hostname

-- An Ingress for a host, as a spec asks for it: its one rule is for the host; it has TLS, for that host and
-- with the Secret that the spec names, exactly if the spec names one; and an annotation that the
-- user does not give is the one that the operator requires.
pub record Serves (spec : IngressSpec) (i : Ingress) (host : String) : Type 0 where
  pub rules : map (λ r. r.host) i.rules ≡ host ∷ []
  pub no_tls : spec.tls_secret_name ≡ "" → i.tls ≡ []
  pub tls :
      spec.tls_secret_name ≢ ""
      → i.tls ≡ record { hosts = host ∷ []; secret_name = spec.tls_secret_name } ∷ []
  pub annotations :
      (k : String)
      → lookup k spec.annotations ≡ none
      → lookup k i.annotations ≡ lookup k required_annotations

lookup-merge_annotations :
    (k : String) (base user : Dict String)
    → lookup k user ≡ none
    → lookup k (merge_annotations base user) ≡ lookup k base
unfolding merge_annotations lookup
lookup-merge_annotations k base [] h = refl
lookup-merge_annotations k base ((j, v) ∷ rest) h =
    ground (arith, lookup-merge_annotations k (insert j v base) rest, lookup-insert j k v base, h)

build_for_ui-Serves :
    (ui : Option IngressSpec) (namespace host : String)
    → Serves (get_ingress ui) (build_for_ui ui namespace host) host
unfolding build_for_ui build_ingress
build_for_ui-Serves ui namespace host = record {
  rules = refl;
  no_tls = λ e. rw e;
  tls = λ n. rw (beq_of_ne n);
  annotations = λ k h. lookup-merge_annotations k required_annotations _ h;
}

-- A host that is its own hostname.
abbrev IsPortless : Url → Type 0
IsPortless u = split_host_port u.host ≡ (u.host, "")

append-IsPlain : (x y : String) → IsPlain x → IsPlain y → IsPlain (x & y)
append-IsPlain x y (a, b) (c, d) =
    (has_char-append ":" x y ∙ ground (arith, a, c), has_char-append "[" x y ∙ ground (arith, b, d))

below-IsPortless :
    (name : String) (domain : Result String) (u : Url)
    → IsPlain name
    → ((d : String) → domain ≡ ok d → IsPlain d)
    → below name domain ≡ ok u
    → IsPortless u
below-IsPortless name (err e) u n d h = absurd (ground (arith, h))
below-IsPortless name (ok domain) u n d h =
    let e : https (name & "." & domain) ≡ u = ground (arith, h) in
    subst IsPortless e (
      split_host_port-plain _ (
        append-IsPlain name _ n (
          append-IsPlain "." domain (unfold has_char in refl, unfold has_char in refl)
            (d domain refl))))

endpoint-IsPortless :
    (spec : IngressSpec) (namespace : String) (domain : Result String) (u : Url)
    → FollowsSchema spec
    → IsPlain namespace
    → ((d : String) → domain ≡ ok d → IsPlain d)
    → effectively_enabled spec true ≡ true
    → (r : Result Url) → IsEndpoint spec true namespace domain r
    → r ≡ ok u
    → IsPortless u
unfolding port
endpoint-IsPortless spec namespace domain u f n d e r (fqdn_rejected _ _ _) h =
    absurd (ground (arith, h))
endpoint-IsPortless spec namespace domain u f n d e r (fqdn_used _ (inl p)) h =
    let q : https spec.fqdn ≡ u = ground (arith, h) in
    subst IsPortless q (split_host_port-portless spec.fqdn f.no_bracket f.no_last_colon p)
endpoint-IsPortless spec namespace domain u f n d e r (fqdn_used _ (inr x)) h = absurd (cc (e, x))
endpoint-IsPortless spec namespace domain u f n d e r (hostname_used _ _ _) h =
    below-IsPortless spec.hostname domain u f.label d h
endpoint-IsPortless spec namespace domain u f n d e r (managed_name _ _ _ _) h =
    below-IsPortless ("konflux-ui-" & namespace) domain u
      (append-IsPlain "konflux-ui-" namespace (unfold has_char in refl, unfold has_char in refl) n)
      d h
endpoint-IsPortless spec namespace domain u f n d e r (not_on_open_shift _ x) h =
    absurd (ground (arith, x))
endpoint-IsPortless spec namespace domain u f n d e r (not_managed _ _ x) h = absurd (cc (e, x))

-- On OpenShift, where the ingress is effectively enabled, the texts of its spec follow the schema and the
-- cluster's domain is without a colon and a bracket: if DetermineEndpointURL answers an endpoint, then
-- the endpoint has no port, the managed Ingress has one rule, for exactly its host, it has TLS, for that
-- host and with the spec's Secret, exactly if the spec names a Secret, and each required annotation stands
-- unless the user gives one.
pub managed_hosts_agree :
    (ui : Option IngressSpec) (info : Option Info) (answer : Result (Result (Option String)))
    (u : Url)
    → FollowsSchema (get_ingress ui)
    → ((d : String) → get_openshift_ingress_domain answer ≡ ok d → IsPlain d)
    → on_open_shift info ≡ true
    → effectively_enabled (get_ingress ui) (on_open_shift info) ≡ true
    → determine_endpoint_url ui ui_namespace info answer ≡ ok u
    → (port u ≡ "") × Serves (get_ingress ui) (managed_ingress ui u) u.host
unfolding port hostname
managed_hosts_agree ui info answer u f plain o e h =
    let p : IsPortless u =
      endpoint-IsPortless (get_ingress ui) ui_namespace (get_openshift_ingress_domain answer) u f
        (unfold has_char in refl, unfold has_char in refl) plain (rw (o) at e) (ok u)
        (subst
          (λ b.
            IsEndpoint (get_ingress ui) b ui_namespace (get_openshift_ingress_domain answer) (ok u))
          o ((determine_endpoint_url-IsEndpoint ui ui_namespace info answer (ok u)).0 h))
        refl in
    (
      ap (λ x. x.1) p,
      subst (λ x. Serves (get_ingress ui) (build_for_ui ui ui_namespace x) u.host)
          (sym (ap (λ x. x.0) p)) (build_for_ui-Serves ui ui_namespace u.host),
    )
