-- ===== src/Ingress/Managed.antt =====
-- operator/internal/controller/ui/konfluxui_controller.go: reconcileIngress, which manages the Ingress for
-- the endpoint, and on OpenShift a ConsoleLink, through the tracking client. Of what it applies,
-- the objects carry the metadata.
use konflux_ci.Prelude.{
  String, Bool, true, false, not, List, [], ◌≡◌, refl, ap, subst, ◌∙◌, Option, none, some, Result,
  ok, err, wrap, string_eq, if◌then◌else◌, Memᴰ, arith, inl, inr, ◌⊎◌, Bool-cases, Result-cases,
}
use konflux_ci.Prelude.Exec.{Exec}
use konflux_ci.Cluster.{Gvk, Object, Api}
use konflux_ci.Tracking.Defs.{ResourceKey, OwnershipConfig, Session, key_of, apply_owned}
use konflux_ci.Tracking.Apply.{KeepsIdentity, Applied, apply_owned_lem}
use konflux_ci.ClusterInfo.{Info}
use konflux_ci.Ingress.Hosts.{Url, hostname}
use konflux_ci.Ingress.Defs.{
  IngressSpec, Ingress, get_ingress, on_open_shift, effectively_enabled, build_for_ui,
}

abbrev pub ui_namespace : String
ui_namespace = "konflux-ui"

abbrev fresh_object : Gvk → String → String → Object
fresh_object gvk namespace name = record {
  gvk = gvk;
  namespace = namespace;
  name = name;
  uid = "";
  is_typed_crd = false;
  labels = [];
  controller = none;
}

abbrev pub ingress_object : Ingress → Object
ingress_object i =
    fresh_object (record { group = "networking.k8s.io"; version = "v1"; kind = "Ingress" })
      i.namespace i.name

-- consolelink.Build
abbrev pub console_link : Object
console_link =
    fresh_object (record { group = "console.openshift.io"; version = "v1"; kind = "ConsoleLink" })
      "" "konflux"

-- The Ingress that is applied for an endpoint.
abbrev pub managed_ingress : Option IngressSpec → Url → Ingress
managed_ingress ui endpoint = build_for_ui ui ui_namespace (hostname endpoint)

module _ (api : Api) where
  abbrev apply_wrapped : String → Object → Exec Session (Unit {0})
  apply_wrapped prefix obj s =
      let (r, s') = apply_owned api obj s in
      (elim r [ ok _ ↦ ok tt | err e ↦ err (wrap prefix e) ], s')

  -- After the Ingress.
  abbrev link_on_open_shift : Bool → Result (Unit {0}) → Exec Session (Unit {0})
  link_on_open_shift open_shift (err e) s = (err e, s)
  link_on_open_shift false (ok _) s = (ok tt, s)
  link_on_open_shift true (ok _) s = apply_wrapped "failed to apply ConsoleLink: " console_link s

  unfoldable pub reconcile_ingress :
      Option IngressSpec → Option Info → Url → Exec Session (Unit {0})
  reconcile_ingress ui info endpoint s =
      let open_shift = on_open_shift info in
      let (r, s') =
        apply_wrapped "failed to apply ingress: " (ingress_object (managed_ingress ui endpoint))
          s in
      let both = link_on_open_shift open_shift r s' in
      if not (effectively_enabled (get_ingress ui) open_shift) then (ok tt, s) else both

  -- The keys that a reconcile of the ingress may track.
  abbrev pub IsManaged : Bool → ResourceKey → ResourceKey → Type 0
  IsManaged open_shift ingress k =
      (k ≡ ingress) ⊎ ((open_shift ≡ true) × (k ≡ key_of api console_link))

  -- The tracked keys after the reconcile, and those before it.
  abbrev pub Tracks : Bool → ResourceKey → List ResourceKey → List ResourceKey → Type 0
  Tracks open_shift ingress before now =
      Memᴰ ingress now
      × (open_shift ≡ true → Memᴰ (key_of api console_link) now)
      × ((k : ResourceKey) → Memᴰ k now → Memᴰ k before ⊎ IsManaged open_shift ingress k)

  module _ (law : KeepsIdentity api) (cfg : OwnershipConfig) where
    wrapped-Applied :
        (prefix : String) (obj : Object) (s : Session)
        → s.client.ownership ≡ some cfg
        → (apply_wrapped prefix obj s).0 ≡ ok tt
        → Applied api cfg obj s (apply_wrapped prefix obj s).1
    wrapped-Applied prefix obj s o h = elim (Result-cases (apply_owned api obj s).0) [
      | inr (e, p) ↦ absurd (ground (arith, p, h))
      | inl (u, p) ↦
          apply_owned_lem api law cfg obj s _ o (ap (λ x. (x, (apply_owned api obj s).1)) p)
    ]

    link_on_open_shift-Tracks :
        (open_shift : Bool) (obj : Object) (s s' t : Session)
        → s.client.ownership ≡ some cfg
        → Applied api cfg obj s s'
        → link_on_open_shift open_shift (ok tt) s' ≡ (ok tt, t)
        → Tracks open_shift (key_of api obj) s.client.tracked t.client.tracked
    link_on_open_shift-Tracks false obj s s' t o a h =
        let e : s' ≡ t = ground (arith, h) in
        subst (λ (x : Session). Tracks false (key_of api obj) s.client.tracked x.client.tracked) e
          (
            a.now_tracked,
            λ p. cc,
            λ k m. elim (a.only k m) [ inl before ↦ inl before | inr q ↦ inr (inl q) ],
          )
    link_on_open_shift-Tracks true obj s s' t o a h =
        let e : (apply_wrapped "failed to apply ConsoleLink: " console_link s').1 ≡ t =
          ap (λ x. x.1) h in
        let b =
          wrapped-Applied "failed to apply ConsoleLink: " console_link s' (a.same_ownership ∙ o)
            (ap (λ x. x.0) h) in
        subst (λ (x : Session). Tracks true (key_of api obj) s.client.tracked x.client.tracked) e
          (
            b.still_tracked _ a.now_tracked,
            λ p. b.now_tracked,
            λ k m. elim (b.only k m) [
              | inr q ↦ inr (inr (refl, q))
              | inl one ↦ elim (a.only k one) [ inl before ↦ inl before | inr q ↦ inr (inl q) ]
            ],
          )

    -- If reconcileIngress succeeds on a client with ownership and the ingress is effectively enabled, then
    -- the Ingress for the endpoint is tracked, on OpenShift the ConsoleLink is too, and every other tracked
    -- key was tracked before; if the ingress is not effectively enabled, the session is as it was.
    pub reconcile_ingress_lem :
        (ui : Option IngressSpec) (info : Option Info) (endpoint : Url) (s t : Session)
        → s.client.ownership ≡ some cfg
        → reconcile_ingress ui info endpoint s ≡ (ok tt, t)
        → ((effectively_enabled (get_ingress ui) (on_open_shift info) ≡ true)
            × Tracks
                (on_open_shift info)
                (key_of api (ingress_object (managed_ingress ui endpoint)))
                s.client.tracked
                t.client.tracked)
          ⊎ ((effectively_enabled (get_ingress ui) (on_open_shift info) ≡ false) × (t ≡ s))
    unfolding reconcile_ingress
    reconcile_ingress_lem ui info endpoint s t o h =
        let obj = ingress_object (managed_ingress ui endpoint) in
        elim (Bool-cases (effectively_enabled (get_ingress ui) (on_open_shift info))) [
          | inr n ↦ inr (n, ground (arith, h, n))
          | inl e ↦ elim (Result-cases (apply_wrapped "failed to apply ingress: " obj s).0) [
            | inr (x, p) ↦
                let q : err x ≡ ok tt = ap (λ y. y.0) (rw (e, p, reconcile_ingress) at h) in
                absurd (ground (arith, q))
            | inl (u, p) ↦ inl (
              e,
              link_on_open_shift-Tracks (on_open_shift info) obj s _ t o
                  (wrapped-Applied "failed to apply ingress: " obj s o p)
                  (rw (e, p, reconcile_ingress) at h),
            )
          ]
        ]
