-- ===== src/Watches/Tests.antt =====
-- The map functions at a store with one component.
use konflux_ci.Prelude.{String, false, [], ◌∷◌, List, ◌≡◌, refl, none, some, errorf, ok, lookup}
use konflux_ci.Cluster.{Object}
use konflux_ci.Tracking.Defs.{is_custom_resource_definition}
use konflux_ci.Watches.{
  ObjectStore, get_for_component, get_crd_names_for_component, map_konflux_singleton_to_request,
  map_crd_to_request, Enqueues, map_crd_to_request-Enqueues,
}

abbrev object_of : String → String → String → Object
object_of group kind name = record {
  gvk = record { group = group; version = "v1"; kind = kind };
  namespace = "";
  name = name;
  uid = "";
  is_typed_crd = false;
  labels = [];
  controller = none;
}

abbrev crd : Object
crd =
    object_of "apiextensions.k8s.io" "CustomResourceDefinition" "applications.appstudio.redhat.com"

abbrev role : Object
role = object_of "rbac.authorization.k8s.io" "ClusterRole" "application-viewer"

abbrev store : ObjectStore
store = ("application-api", role ∷ crd ∷ []) ∷ ("cli", role ∷ []) ∷ []

crd_test :
    (map_crd_to_request store "application-api" "konflux-application-api").0 crd
    ≡ "konflux-application-api" ∷ []
unfolding map_crd_to_request get_crd_names_for_component lookup is_custom_resource_definition
crd_test = refl

other_test : (map_crd_to_request store "application-api" "konflux-application-api").0 role ≡ []
unfolding map_crd_to_request get_crd_names_for_component lookup is_custom_resource_definition
other_test = refl

no_crd_test :
    (map_crd_to_request store "cli" "konflux-cli").1
    ≡ some (errorf "no CRD names for component cli")
unfolding map_crd_to_request get_crd_names_for_component lookup is_custom_resource_definition
no_crd_test = refl

singleton_test : map_konflux_singleton_to_request "konflux" "konflux-cli" role ≡ []
unfolding map_konflux_singleton_to_request
singleton_test = refl

map_crd_to_request-Enqueues_example :
    (objects : List Object) × (get_for_component store "application-api" ≡ ok objects)
    × Enqueues
        (map_crd_to_request store "application-api" "konflux-application-api").0
        "konflux-application-api"
        objects
unfolding map_crd_to_request get_crd_names_for_component lookup is_custom_resource_definition
map_crd_to_request-Enqueues_example =
    map_crd_to_request-Enqueues store "application-api" "konflux-application-api" refl
