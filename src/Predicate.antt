-- ===== src/Predicate.antt =====
-- operator/internal/predicate/predicate.go: which update events wake a reconcile, and that no change of
-- readiness is missed. Equality of owner references (apiequality.Semantic.DeepEqual) and of maps
-- (maps.Equal) is a library's: the parameter `Equalities`.
mod Tests
use konflux_ci.Prelude.{
  ℕ, String, Bool, true, false, not, ◌≡◌, ◌↔◌, refl, Option, none, some, Dict, List, ◌==◌,
  string_eq, nat_eq, if◌then◌else◌, arith, ltb, ◌||◌, ◌&&◌,
}
use konflux_ci.Condition.Defs.{Deployment, is_deployment_ready}

-- The metadata that the predicates read.
pub record Metadata : Type 0 where
  pub generation : ℕ
  pub owner_references : List String
  pub labels : Dict String
  pub annotations : Dict String

pub record Equalities : Type 0 where
  pub same_references : List String → List String → Bool
  pub same_map : Dict String → Dict String → Bool

pub record IngressStatus : Type 0 where
  pub enabled : Bool
  pub hostname : String
  pub url : String

-- A watched object: its metadata, and what is read of a Deployment or a KonfluxUI if it is one.
pub record DeploymentCounts : Type 0 where
  pub ready_replicas : ℕ
  pub available_replicas : ℕ
  pub unavailable_replicas : ℕ
  pub updated_replicas : ℕ
  pub replicas : ℕ

pub data Watched : Type 0 where
  deployment : Metadata → DeploymentCounts → Watched
  konflux_ui : Metadata → Option IngressStatus → Watched
  other_object : Metadata → Watched

abbrev pub metadata : Watched → Metadata
metadata (deployment m d) = m
metadata (konflux_ui m i) = m
metadata (other_object m) = m

-- Boolean equality of Booleans
abbrev pub differ : Bool → Bool → Bool
differ true b = not b
differ false b = b

-- IsDeploymentReady, from the counts of the status
abbrev pub counts_of : Deployment → ℕ → ℕ → DeploymentCounts
counts_of d available unavailable = record {
  ready_replicas = d.ready_replicas;
  available_replicas = available;
  unavailable_replicas = unavailable;
  updated_replicas = d.updated_replicas;
  replicas = d.replicas;
}

module _ (eq : Equalities) where
  unfoldable pub generation_or_metadata_changed : Metadata → Metadata → Bool
  generation_or_metadata_changed old new =
      if not (old.generation == new.generation)
      then true
      else if not (eq.same_references old.owner_references new.owner_references)
      then true
      else if not (eq.same_map old.labels new.labels)
      then true
      else not (eq.same_map old.annotations new.annotations)

  -- The UpdateFunc of IgnoreStatusUpdatesPredicate; `none` is a missing object.
  unfoldable pub ignore_status_updates : Option Watched → Option Watched → Bool
  ignore_status_updates (some old) (some new) =
      generation_or_metadata_changed (metadata old) (metadata new)
  ignore_status_updates (some old) none = true
  ignore_status_updates none new = true

  abbrev pub counts_changed : DeploymentCounts → DeploymentCounts → Bool
  counts_changed old new =
      not (old.ready_replicas == new.ready_replicas)
      || (not (old.available_replicas == new.available_replicas)
          || (not (old.unavailable_replicas == new.unavailable_replicas)
              || (not (old.updated_replicas == new.updated_replicas)
                  || not (old.replicas == new.replicas))))

  abbrev pub status_changed : Watched → Watched → Bool
  status_changed (deployment m old) (deployment m' new) = counts_changed old new
  status_changed (deployment m old) (konflux_ui m' new) = true
  status_changed (deployment m old) (other_object m') = true
  status_changed (konflux_ui m old) new = true
  status_changed (other_object m) new = true

  -- The UpdateFunc of DeploymentReadinessPredicate
  unfoldable pub deployment_readiness : Option Watched → Option Watched → Bool
  deployment_readiness (some old) (some new) =
      if generation_or_metadata_changed (metadata old) (metadata new)
      then true
      else status_changed old new
  deployment_readiness (some old) none = true
  deployment_readiness none new = true

  abbrev pub ingress_differs : Option IngressStatus → Option IngressStatus → Bool
  ingress_differs none none = false
  ingress_differs none (some new) = true
  ingress_differs (some old) none = true
  ingress_differs (some old) (some new) =
      differ old.enabled new.enabled
      || (not (old.hostname == new.hostname) || not (old.url == new.url))

  abbrev pub ingress_changed : Watched → Watched → Bool
  ingress_changed (konflux_ui m old) (konflux_ui m' new) = ingress_differs old new
  ingress_changed (konflux_ui m old) (deployment m' new) = true
  ingress_changed (konflux_ui m old) (other_object m') = true
  ingress_changed (deployment m old) new = true
  ingress_changed (other_object m) new = true

  -- The UpdateFunc of KonfluxUIIngressStatusChangedPredicate
  unfoldable pub ingress_status_changed : Option Watched → Option Watched → Bool
  ingress_status_changed (some old) (some new) =
      if generation_or_metadata_changed (metadata old) (metadata new)
      then true
      else ingress_changed old new
  ingress_status_changed (some old) none = true
  ingress_status_changed none new = true

  -- An update of a Deployment that DeploymentReadinessPredicate drops has the same generation, and
  -- leaves IsDeploymentReady and the count of ready replicas as they were.
  pub deployment_readiness_dropped :
      (m m' : Metadata) (d d' : Deployment) (available unavailable available' unavailable' : ℕ)
      → deployment_readiness
          (some (deployment m (counts_of d available unavailable)))
          (some (deployment m' (counts_of d' available' unavailable')))
        ≡ false
      → (m.generation ≡ m'.generation)
        × (is_deployment_ready d ≡ is_deployment_ready d')
        × (d.ready_replicas ≡ d'.ready_replicas)
  unfolding deployment_readiness generation_or_metadata_changed is_deployment_ready
  deployment_readiness_dropped m m' d d' a u a' u' h = ground arith

  -- The metadata are the same, as the source compares them.
  abbrev pub AreUnchanged : Metadata → Metadata → Type 0
  AreUnchanged old new =
      (old.generation ≡ new.generation)
      × (eq.same_references old.owner_references new.owner_references ≡ true)
      × (eq.same_map old.labels new.labels ≡ true)
      × (eq.same_map old.annotations new.annotations ≡ true)

  generation_or_metadata_changed_lem :
      (m m' : Metadata) → (generation_or_metadata_changed m m' ≡ false) ↔ AreUnchanged m m'
  unfolding generation_or_metadata_changed
  generation_or_metadata_changed_lem m m' = (
    λ h. (ground (arith, h), ground (arith, h), ground (arith, h), ground (arith, h)),
    λ (g, r, l, a). ground (arith, g, r, l, a),
  )

  counts_changed_lem : (d d' : DeploymentCounts) → (counts_changed d d' ≡ false) ↔ (d ≡ d')
  counts_changed_lem d d' = (λ h. ground (arith, h), λ e. ground (arith, e))

  ingress_differs_lem : (i i' : Option IngressStatus) → (ingress_differs i i' ≡ false) ↔ (i ≡ i')
  ingress_differs_lem none none = (λ h. refl, λ e. refl)
  ingress_differs_lem none (some new) =
      (λ h. absurd (ground (arith, h)), λ e. absurd (ground (arith, e)))
  ingress_differs_lem (some old) none =
      (λ h. absurd (ground (arith, h)), λ e. absurd (ground (arith, e)))
  ingress_differs_lem (some old) (some new) = (
    λ h.
        ground
          (arith, h, string_eq.agrees old.hostname new.hostname, string_eq.agrees old.url new.url),
    λ e.
        ground
          (arith, e, string_eq.agrees old.hostname new.hostname, string_eq.agrees old.url new.url),
  )

  -- A filter that first looks at the metadata.
  both_unchanged :
      {A : Type 0} (m m' : Metadata) (changed : Bool) (a b : A)
      → (changed ≡ false) ↔ (a ≡ b)
      → ((if generation_or_metadata_changed m m' then true else changed) ≡ false)
        ↔ (AreUnchanged m m' × (a ≡ b))
  both_unchanged m m' changed a b same = (
    λ h. (
      (generation_or_metadata_changed_lem m m').0 (ground (arith, h)),
      same.0 (ground (arith, h)),
    ),
    λ (u, e).
        let f = (generation_or_metadata_changed_lem m m').1 u in
        let g = same.1 e in ground (arith, f, g),
  )

  -- IgnoreStatusUpdatesPredicate drops an update exactly if the metadata are unchanged: the generation, and
  -- the owner references, labels and annotations as the source compares them.
  -- DeploymentReadinessPredicate drops an update of a Deployment exactly if these and its five counts of
  -- replicas are unchanged, and KonfluxUIIngressStatusChangedPredicate one of a KonfluxUI exactly
  -- if these and the ingress in its status are.
  pub dropped_updates_lem :
      (old new : Watched) (m m' : Metadata) (d d' : DeploymentCounts) (i i' : Option IngressStatus)
      → ((ignore_status_updates (some old) (some new) ≡ false)
          ↔ AreUnchanged (metadata old) (metadata new))
        × ((deployment_readiness (some (deployment m d)) (some (deployment m' d')) ≡ false)
            ↔ (AreUnchanged m m' × (d ≡ d')))
        × ((ingress_status_changed (some (konflux_ui m i)) (some (konflux_ui m' i')) ≡ false)
            ↔ (AreUnchanged m m' × (i ≡ i')))
  unfolding ignore_status_updates deployment_readiness ingress_status_changed
  dropped_updates_lem old new m m' d d' i i' = (
    generation_or_metadata_changed_lem (metadata old) (metadata new),
    both_unchanged m m' (counts_changed d d') d d' (counts_changed_lem d d'),
    both_unchanged m m' (ingress_differs i i') i i' (ingress_differs_lem i i'),
  )

  -- An update of a KonfluxUI that KonfluxUIIngressStatusChangedPredicate drops leaves the ingress
  -- in its status as it was.
  pub ingress_status_dropped :
      (m m' : Metadata) (i i' : Option IngressStatus)
      → ingress_status_changed (some (konflux_ui m i)) (some (konflux_ui m' i')) ≡ false
      → i ≡ i'
  unfolding ingress_status_changed generation_or_metadata_changed
  ingress_status_dropped m m' none none h = refl
  ingress_status_dropped m m' none (some new) h = absurd (ground arith)
  ingress_status_dropped m m' (some old) none h = absurd (ground arith)
  ingress_status_dropped m m' (some old) (some new) h =
      ground (arith, string_eq.agrees old.hostname new.hostname, string_eq.agrees old.url new.url)
