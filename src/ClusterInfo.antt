-- ===== src/ClusterInfo.antt =====
-- operator/pkg/clusterinfo/clusterinfo.go: the platform and what the cluster has installed. The discovery
-- client and the Get calls are not part of the repository: their answers are parameters.
use konflux_ci.Prelude.{
  String, Bool, true, false, List, [], ◌∷◌, ◌≡◌, refl, ap, ◌↔◌, Option, none, some, Error, Result,
  ok, err, errorf, wrap, is_not_found, ◌&◌, ◌==◌, string_eq, if◌then◌else◌, any, all, All, Memᴰ,
  mem_of_any, any_of_mem, arith, inl, inr, Result-cases, ℕ, suc, itoa,
}

-- ServerResourcesForGroupVersion: the kinds of a group version.
pub record DiscoveryClient : Type 0 where
  pub resources_for : String → Result (List String)

pub data Platform : Type 0 where
  open_shift default_platform : Platform

pub record Info : Type 0 where
  pub client : DiscoveryClient
  pub platform : Platform

abbrev platform_is_open_shift : Platform → Bool
platform_is_open_shift Platform.open_shift = true
platform_is_open_shift Platform.default_platform = false

unfoldable pub is_open_shift : Info → Bool
is_open_shift i = platform_is_open_shift i.platform

abbrev has_cluster_version : Result (List String) → Result Bool
has_cluster_version (ok kinds) = ok (any (λ k. k == "ClusterVersion") kinds)
has_cluster_version (err e) =
    if is_not_found e.kind
    then ok false
    else err (wrap "failed to check for OpenShift API group: " e)

unfoldable pub detect_open_shift : DiscoveryClient → Result Bool
detect_open_shift d = has_cluster_version (d.resources_for "config.openshift.io/v1")

abbrev detected : DiscoveryClient → Result Bool → Result Info
detected d (err e) = err (wrap "failed to detect platform: " e)
detected d (ok found) =
    ok (record { client = d; platform = if found then open_shift else default_platform })

unfoldable pub detect_with_client : DiscoveryClient → Result Info
detect_with_client d = detected d (detect_open_shift d)

-- The loop over the required kinds, which stops at the first that is missing.
abbrev kinds_installed : String → List String → Result (List String) → Result Bool
kinds_installed gv kinds (ok available) = ok (all (λ k. any (λ a. a == k) available) kinds)
kinds_installed gv kinds (err e) =
    if is_not_found e.kind
    then ok false
    else err (wrap ("failed to check " & gv & " resources: ") e)

unfoldable pub has_all_resources : Info → String → List String → Result Bool
has_all_resources i gv kinds = kinds_installed gv kinds (i.client.resources_for gv)

unfoldable pub has_resource : Info → String → String → Result Bool
has_resource i gv kind = has_all_resources i gv (kind ∷ [])

unfoldable pub has_tekton : Info → Result Bool
has_tekton i = has_resource i "tekton.dev/v1" "Pipeline"

unfoldable pub has_cert_manager : Info → Result Bool
has_cert_manager i =
    has_all_resources i "cert-manager.io/v1" ("Certificate" ∷ "Issuer" ∷ "ClusterIssuer" ∷ [])

-- An entry of the history of a ClusterVersion, the newest first.
pub record UpdateEntry : Type 0 where
  pub state : String
  pub version : String

abbrev unknown_version : String
unknown_version = "unknown"

-- The version, and beside it the error if there is one.
unfoldable pub version_from : ℕ → List UpdateEntry → String × Option Error
version_from i [] =
    (unknown_version, some (errorf "ClusterVersion has no completed version in status history"))
version_from i (x ∷ xs) =
    let rest = version_from (suc i) xs in
    if x.state == "Completed"
    then if x.version == ""
      then (
        unknown_version,
        some (errorf ("history[" & itoa i & "] has state=Completed but empty version field")),
      )
      else (x.version, none)
    else rest

abbrev version_of_answer : Result (List UpdateEntry) → String × Option Error
version_of_answer (err e) = (unknown_version, some e)
version_of_answer (ok entries) = version_from 0 entries

-- From the answer of the Get call for the ClusterVersion "version".
unfoldable pub get_openshift_version : Result (List UpdateEntry) → String × Option Error
get_openshift_version answer = version_of_answer answer

every_kind :
    (available kinds : List String)
    → all (λ k. any (λ a. a == k) available) kinds ≡ true
    → All (λ k. Memᴰ k available) kinds
every_kind available [] h = tt
every_kind available (k ∷ ks) h =
    (mem_of_any k available (ground (arith, h)), every_kind available ks (ground (arith, h)))

no_kind_missing :
    (available kinds : List String)
    → All (λ k. Memᴰ k available) kinds
    → all (λ k. any (λ a. a == k) available) kinds ≡ true
no_kind_missing available [] h = refl
no_kind_missing available (k ∷ ks) (m, ms) = rw (any_of_mem m) (no_kind_missing available ks ms)

-- The kinds of a group version were listed, and all the required ones are among them.
abbrev pub AreInstalled : Info → String → List String → Type 0
AreInstalled i gv kinds =
    (available : List String) × (i.client.resources_for gv ≡ ok available)
    × All (λ k. Memᴰ k available) kinds

-- HasAllResources answers true exactly if the kinds of the group version were listed and all the
-- required ones are among them.
pub has_all_resources-AreInstalled :
    (i : Info) (gv : String) (kinds : List String)
    → (has_all_resources i gv kinds ≡ ok true) ↔ AreInstalled i gv kinds
unfolding has_all_resources
has_all_resources-AreInstalled i gv kinds = elim (Result-cases (i.client.resources_for gv)) [
  | inr (e, p) ↦ (
    λ h. absurd (ground (arith, p, h)),
    λ (available, q, all_there). absurd (ground (arith, p, q)),
  )
  | inl (found, p) ↦ (
    λ h. (found, p, every_kind found kinds (ground (arith, rw p at h))),
    λ (available, q, all_there). rw q (ap ok (no_kind_missing available kinds all_there)),
  )
]
