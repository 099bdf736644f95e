-- ===== src/Cluster.antt =====
-- The Kubernetes objects and the API server, as the operator sees them.
-- The server, the scheme and controller-runtime's helpers are not part of the repository: they are
-- the record `Api` of answers, each of which may depend on all the requests sent before it.
use konflux_ci.Prelude.{
  String, Bool, true, List, ◌≡◌, ◌↔◌, ◌&&◌, Option, arith, Dict, Error, Result, GoEq, ◌==◌,
  string_eq,
}

-- schema.GroupVersionKind
pub record Gvk : Type 0 where
  pub group : String
  pub version : String
  pub kind : String

abbrev pub gvk_beq : Gvk → Gvk → Bool
gvk_beq a b = a.group == b.group && (a.version == b.version && a.kind == b.kind)

pub gvk_beq_iff : (a b : Gvk) → (gvk_beq a b ≡ true) ↔ (a ≡ b)
gvk_beq_iff a b = ground (
  arith,
  string_eq.agrees a.group b.group,
  string_eq.agrees a.version b.version,
  string_eq.agrees a.kind b.kind,
)

instance abbrev pub gvk_eq : GoEq Gvk
gvk_eq = record { test = gvk_beq; agrees = gvk_beq_iff }

-- gvk.Empty()
abbrev pub is_empty : Gvk → Bool
is_empty g = g.group == "" && (g.version == "" && g.kind == "")

-- The metadata of a client.Object that the operator reads or writes. `is_typed_crd` says that the
-- object is the Go type CustomResourceDefinition; `controller` is the UID in its controller reference.
pub record Object : Type 0 where
  pub gvk : Gvk
  pub namespace : String
  pub name : String
  pub uid : String
  pub is_typed_crd : Bool
  pub labels : Dict String
  pub controller : Option String

-- What the operator sends to the API server.
pub data Request : Type 0 where
  patch_request : Object → String → Request
  create_request : Object → Request
  update_request : Object → Request
  create_or_update_request : Object → Request
  list_request : Gvk → String → String → Request
  delete_request : Gvk → Object → Request

-- The requests sent so far, the last one first.
abbrev pub History : Type 0
History = List Request

-- The answers of what the operator calls. `patch`, `create` and `update` answer with the object
-- as the call leaves it in memory.
pub record Api : Type 0 where
  pub patch : History → Object → String → Result Object
  pub create : History → Object → Result Object
  pub update : History → Object → Result Object
  -- controllerutil.CreateOrUpdate(ctx, client, obj, mutate)
  pub create_or_update : History → Object → (Object → Result Object) → Result Object
  pub list : History → Gvk → String → String → Result (List Object)
  pub delete : History → Gvk → Object → Option Error
  -- Scheme().ObjectKinds
  pub object_kinds : Object → Result (List Gvk)
  -- controllerutil.SetControllerReference(owner, obj, scheme)
  pub set_controller_reference : Object → Object → Result Object
  -- metav1.IsControlledBy(obj, owner)
  pub is_controlled_by : Object → Object → Bool
  -- GroupVersionKind.String
  pub gvk_text : Gvk → String
