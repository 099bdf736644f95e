-- ===== src/Predicate/Tests.antt =====
-- The theorems on the event filters at small events.
use konflux_ci.Prelude.{true, false, [], ◌≡◌, ◌↔◌, refl, some, none, Option}
use konflux_ci.Predicate.{
  Metadata, Equalities, IngressStatus, DeploymentCounts, deployment, konflux_ui, other_object,
  AreUnchanged, generation_or_metadata_changed, ignore_status_updates, deployment_readiness,
  ingress_status_changed, dropped_updates_lem,
}

abbrev all_same : Equalities
all_same = record { same_references = λ a b. true; same_map = λ a b. true }

abbrev first_metadata : Metadata
first_metadata = record { generation = 3; owner_references = []; labels = []; annotations = [] }

abbrev next_metadata : Metadata
next_metadata = record first_metadata { generation = 4 }

abbrev counts : DeploymentCounts
counts = record {
  ready_replicas = 2;
  available_replicas = 2;
  unavailable_replicas = 0;
  updated_replicas = 2;
  replicas = 2;
}

abbrev fewer_counts : DeploymentCounts
fewer_counts = record counts { ready_replicas = 1 }

counts_test :
    deployment_readiness all_same
      (some (deployment first_metadata counts))
      (some (deployment first_metadata fewer_counts))
    ≡ true
unfolding deployment_readiness generation_or_metadata_changed
counts_test = refl

abbrev no_ingress : Option IngressStatus
no_ingress = none

dropped_updates_lem_example :
    ((ignore_status_updates all_same
          (some (other_object first_metadata))
          (some (other_object next_metadata))
        ≡ false)
      ↔ AreUnchanged all_same first_metadata next_metadata)
    × ((deployment_readiness all_same
            (some (deployment first_metadata counts))
            (some (deployment first_metadata fewer_counts))
          ≡ false)
        ↔ (AreUnchanged all_same first_metadata first_metadata × (counts ≡ fewer_counts)))
    × ((ingress_status_changed all_same
            (some (konflux_ui first_metadata no_ingress))
            (some (konflux_ui first_metadata no_ingress))
          ≡ false)
        ↔ (AreUnchanged all_same first_metadata first_metadata × (no_ingress ≡ no_ingress)))
dropped_updates_lem_example =
    dropped_updates_lem all_same (other_object first_metadata) (other_object next_metadata)
      first_metadata first_metadata counts fewer_counts no_ingress no_ingress
