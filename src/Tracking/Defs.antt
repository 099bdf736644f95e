-- ===== src/Tracking/Defs.antt =====
-- operator/pkg/tracking/tracking.go: the client that remembers what a reconcile applied.
use konflux_ci.Prelude.{
  String, Bool, true, false, List, [], ◌∷◌, ◌≡◌, ◌↔◌, ◌&&◌, not, Option, none, some, arith, insert,
  ErrorKind, Result, ok, err, errorf, wrap, GoEq, ◌==◌, string_eq, ◌&◌, any, if◌then◌else◌,
}
use konflux_ci.Prelude.Exec.{Exec}
use konflux_ci.Cluster.{
  Gvk, gvk_eq, is_empty, Object, Request, patch_request, create_request, update_request,
  create_or_update_request, History, Api,
}

pub record ResourceKey : Type 0 where
  pub gvk : Gvk
  pub namespace : String
  pub name : String

abbrev pub key_beq : ResourceKey → ResourceKey → Bool
key_beq a b = a.gvk == b.gvk && (a.namespace == b.namespace && a.name == b.name)

pub key_beq_iff : (a b : ResourceKey) → (key_beq a b ≡ true) ↔ (a ≡ b)
key_beq_iff a b = ground (
  arith,
  gvk_eq.agrees a.gvk b.gvk,
  string_eq.agrees a.namespace b.namespace,
  string_eq.agrees a.name b.name,
)

instance abbrev pub key_eq : GoEq ResourceKey
key_eq = record { test = key_beq; agrees = key_beq_iff }

-- A map from kinds to sets of names; `none` is the nil map.
abbrev pub ClusterScopedAllowList : Type 0
ClusterScopedAllowList = Option (List (Gvk × List String))

unfoldable pub allowed_names : Gvk → List (Gvk × List String) → Option (List String)
allowed_names g [] = none
allowed_names g ((k, names) ∷ rest) = if k == g then some names else allowed_names g rest

unfoldable pub is_allowed : ClusterScopedAllowList → Gvk → String → String → Bool
is_allowed none g namespace name = true
is_allowed (some a) g namespace name =
    if not (namespace == "")
    then true
    else elim (allowed_names g a) [ none ↦ true | some names ↦ any (λ n. n == name) names ]

-- ResourceKey.String
unfoldable pub key_text : ResourceKey → String
key_text k =
    if k.namespace == ""
    then k.gvk.kind & "/" & k.name
    else k.gvk.kind & "/" & k.namespace & "/" & k.name

pub record OwnershipConfig : Type 0 where
  pub owner : Object
  pub owner_label_key : String
  pub component_label_key : String
  pub component : String
  pub field_manager : String

pub record Client : Type 0 where
  pub ownership : Option OwnershipConfig
  pub tracked : List ResourceKey

unfoldable pub new_client : Client
new_client = record { ownership = none; tracked = [] }

unfoldable pub new_client_with_ownership : OwnershipConfig → Client
new_client_with_ownership cfg = record { ownership = some cfg; tracked = [] }

-- What a reconcile carries along: its tracking client, and the requests it has sent.
pub record Session : Type 0 where
  pub client : Client
  pub history : History

abbrev pub send : Request → Session → Session
send r s = record s { history = r ∷ s.history }

-- IsTracked
unfoldable pub is_tracked : Client → ResourceKey → Bool
is_tracked c key = any (λ k. k == key) c.tracked

-- operator/pkg/kubernetes/crd.go: IsCustomResourceDefinition
unfoldable pub is_custom_resource_definition : Object → Bool
is_custom_resource_definition obj =
    if not (is_empty obj.gvk)
    then obj.gvk.group == "apiextensions.k8s.io" && obj.gvk.kind == "CustomResourceDefinition"
    else obj.is_typed_crd

-- The labels that SetOwnership writes.
unfoldable pub set_labels : OwnershipConfig → Object → Object
set_labels cfg obj = record obj {
  labels =
      insert cfg.component_label_key cfg.component
        (insert cfg.owner_label_key cfg.owner.name obj.labels);
}

module _ (api : Api) where
  -- The kind under which `track` files an object.
  unfoldable pub tracked_gvk : Object → Gvk
  tracked_gvk obj =
      if is_empty obj.gvk
      then elim (api.object_kinds obj) [ ok (g ∷ _) ↦ g | _ ↦ obj.gvk ]
      else obj.gvk

  abbrev pub key_of : Object → ResourceKey
  key_of obj = record { gvk = tracked_gvk obj; namespace = obj.namespace; name = obj.name }

  unfoldable pub track : Object → Client → Client
  unfolding is_tracked
  track obj c =
      if is_tracked c (key_of obj) then c else record c { tracked = key_of obj ∷ c.tracked }

  abbrev pub track_in : Object → Session → Session
  track_in obj s = record s { client = track obj s.client }

  -- SetOwnership; the object comes back as the call leaves it.
  unfoldable pub set_ownership : Client → Object → Result Object
  unfolding set_labels
  set_ownership c obj = elim c.ownership [
    | none ↦ err (
        errorf
          "SetOwnership called but client was not created with ownership config; use NewClientWithOwnership")
    | some cfg ↦
        let labelled = set_labels cfg obj in
        if is_custom_resource_definition labelled
        then ok labelled
        else elim (api.set_controller_reference cfg.owner labelled) [
          | ok owned ↦ ok owned
          | err e ↦ err (wrap "failed to set controller reference: " e)
        ]
  ]

  unfoldable pub apply_object : Object → String → Exec Session (Unit {0})
  apply_object obj manager s = elim (api.patch s.history obj manager) [
    | err e ↦ (err e, send (patch_request obj manager) s)
    | ok obj' ↦ (ok tt, track_in obj' (send (patch_request obj manager) s))
  ]

  -- `SetOwnership` has returned an error where there is no ownership config, so the field manager
  -- is read only where there is one.
  abbrev pub field_manager : Client → String
  field_manager c = elim c.ownership [ none ↦ "" | some cfg ↦ cfg.field_manager ]

  unfoldable pub apply_owned : Object → Exec Session (Unit {0})
  apply_owned obj s = elim (set_ownership s.client obj) [
    | err e ↦ (err e, s)
    | ok owned ↦ apply_object owned (field_manager s.client) s
  ]

  -- Patch, with the patch's own options
  unfoldable pub patch_tracked : Object → String → Exec Session (Unit {0})
  patch_tracked obj options s = elim (api.patch s.history obj options) [
    | err e ↦ (err e, send (patch_request obj options) s)
    | ok obj' ↦ (ok tt, track_in obj' (send (patch_request obj options) s))
  ]

  abbrev pub is_already_exists : ErrorKind → Bool
  is_already_exists ErrorKind.already_exists = true
  is_already_exists _ = false

  -- Create: an object that exists already is tracked too, and the error is returned.
  unfoldable pub create_tracked : Object → Exec Session (Unit {0})
  create_tracked obj s = elim (api.create s.history obj) [
    | ok obj' ↦ (ok tt, track_in obj' (send (create_request obj) s))
    | err e ↦ (
      err e,
      if is_already_exists e.kind
          then track_in obj (send (create_request obj) s)
          else send (create_request obj) s,
    )
  ]

  unfoldable pub update_tracked : Object → Exec Session (Unit {0})
  update_tracked obj s = elim (api.update s.history obj) [
    | err e ↦ (err e, send (update_request obj) s)
    | ok obj' ↦ (ok tt, track_in obj' (send (update_request obj) s))
  ]

  unfoldable pub create_or_update : Object → (Object → Result Object) → Exec Session (Unit {0})
  create_or_update obj mutate s = elim (api.create_or_update s.history obj mutate) [
    | err e ↦ (err e, send (create_or_update_request obj) s)
    | ok obj' ↦ (ok tt, track_in obj' (send (create_or_update_request obj) s))
  ]
