-- ===== src/Watches.antt =====
-- operator/internal/controller/handler/handler.go: which requests an event on a watched object is mapped to,
-- with the object store of operator/pkg/manifests/manifests.go that it asks for the CRDs of a
-- component. The embedded files that fill the store are not modelled. A request is a name, since the
-- resources have no namespace.
mod Tests
use konflux_ci.Prelude.{
  String, true, List, [], ◌∷◌, ◌≡◌, refl, sym, ap, ◌∙◌, ◌↔◌, ◌⊎◌, inl, inr, Option, none, some,
  Error, Result, ok, err, errorf, ◌&◌, ◌==◌, string_eq, eq_of_beq, beq_refl, subst, if◌then◌else◌,
  any, map, keep_if, Dict, lookup, Memᴰ, mem_of_any, any_of_mem, Bool-cases, Result-cases,
  Option-cases, arith,
}
use konflux_ci.Cluster.{Object}
use konflux_ci.Tracking.Defs.{is_custom_resource_definition}

-- The objects of each component.
abbrev pub ObjectStore : Type 0
ObjectStore = Dict (List Object)

abbrev known : String → Option (List Object) → Result (List Object)
known component none = err (errorf ("unknown component: " & component))
known component (some objects) = ok objects

-- GetForComponent: the copies are as deep as the objects, so that nobody shares them.
unfoldable pub get_for_component : ObjectStore → String → Result (List Object)
get_for_component store component = known component (lookup component store)

abbrev crd_names : Result (List Object) → Result (List String)
crd_names (err e) = err e
crd_names (ok objects) = ok (map (λ o. o.name) (keep_if is_custom_resource_definition objects))

unfoldable pub get_crd_names_for_component : ObjectStore → String → Result (List String)
get_crd_names_for_component store component = crd_names (known component (lookup component store))

unfoldable pub map_konflux_singleton_to_request : String → String → Object → List String
map_konflux_singleton_to_request singleton sub_cr o =
    if o.name == singleton then sub_cr ∷ [] else []

-- The map function, and the error beside it, which ends the set-up of the controller.
abbrev pub MapFunc : Type 0
MapFunc = Object → List String

abbrev on_managed : List String → String → MapFunc
on_managed names cr o = if any (λ n. n == o.name) names then cr ∷ [] else []

abbrev map_names : String → String → Result (List String) → MapFunc × Option Error
map_names component cr (err e) = (λ o. [], some e)
map_names component cr (ok []) =
    (λ o. [], some (errorf ("no CRD names for component " & component)))
map_names component cr (ok (n ∷ names)) = (on_managed (n ∷ names) cr, none)

unfoldable pub map_crd_to_request : ObjectStore → String → String → MapFunc × Option Error
map_crd_to_request store component cr =
    map_names component cr (get_crd_names_for_component store component)

-- A CRD of the objects has the name.
abbrev pub HasCrdNamed : List Object → String → Type 0
HasCrdNamed objects name =
    (x : Object) × Memᴰ x objects × (is_custom_resource_definition x ≡ true) × (x.name ≡ name)

abbrev names_of : List Object → List String
names_of objects = map (λ o. o.name) (keep_if is_custom_resource_definition objects)

further :
    (x : Object) (xs : List Object) (name : String)
    → HasCrdNamed xs name
    → HasCrdNamed (x ∷ xs) name
further x xs name (y, m, c, n) = (y, Memᴰ.tail m, c, n)

named :
    (objects : List Object) (name : String)
    → any (λ n. n == name) (names_of objects) ≡ true
    → HasCrdNamed objects name
named [] name h = cc
named (x ∷ xs) name h = elim (Bool-cases (is_custom_resource_definition x)) [
  | inr n ↦ further x xs name (named xs name (rw (n) at h))
  | inl c ↦ elim (Bool-cases (x.name == name)) [
    | inl e ↦ (x, Memᴰ.head refl, c, eq_of_beq e)
    | inr e ↦ further x xs name (named xs name (rw (c, e) at h))
  ]
]

has_name :
    (name : String) (x : Object) (objects : List Object)
    → Memᴰ x objects
    → is_custom_resource_definition x ≡ true
    → x.name ≡ name
    → any (λ n. n == name) (names_of objects) ≡ true
has_name name x _ (Memᴰ.head {x = y} {xs = ys} e) c n =
    let c' : is_custom_resource_definition y ≡ true =
      subst (λ z. is_custom_resource_definition z ≡ true) e c in
    let n' : y.name ≡ name = subst (λ (z : Object). z.name ≡ name) e n in
    rw c' (rw (n', beq_refl name))
has_name name x _ (Memᴰ.tail {x = y} {xs = ys} m) c n =
    elim (Bool-cases (is_custom_resource_definition y)) [
      | inr k ↦ rw k (has_name name x ys m c n)
      | inl k ↦ elim (Bool-cases (y.name == name)) [
        | inl e ↦ rw (k, e)
        | inr e ↦ rw (k, e) (has_name name x ys m c n)
      ]
    ]

-- What a map function answers: the resource's name if a CRD has the object's name, and else nothing.
abbrev pub Enqueues : MapFunc → String → List Object → Type 0
Enqueues f cr objects =
    (o : Object) → ((f o ≡ cr ∷ []) ↔ HasCrdNamed objects o.name) × ((f o ≡ cr ∷ []) ⊎ (f o ≡ []))

on_managed-Enqueues :
    (objects : List Object) (cr : String) → Enqueues (on_managed (names_of objects) cr) cr objects
on_managed-Enqueues objects cr o = elim (Bool-cases (any (λ n. n == o.name) (names_of objects))) [
  | inl a ↦ ((λ h. named objects o.name a, λ p. rw a), inl (rw a))
  | inr a ↦ (
    (
      λ h. absurd (let q : [] ≡ cr ∷ [] = rw (a) at h in cc q),
      λ (x, m, c, n). absurd (cc (has_name o.name x objects m c n, a)),
    ),
    inr (rw a),
  )
]

mapped :
    (component cr : String) (objects : List Object) (names : List String)
    → names ≡ names_of objects
    → (map_names component cr (ok names)).1 ≡ none
    → Enqueues (map_names component cr (ok names)).0 cr objects
mapped component cr objects [] e h = cc
mapped component cr objects (n ∷ names) e h =
    subst (λ ns. Enqueues (on_managed ns cr) cr objects) (sym e) (on_managed-Enqueues objects cr)

-- If MapCRDToRequest answers without an error, then the component is in the store, and an event on an object
-- enqueues the component's resource alone if a CRD of the component has the object's name, and
-- nothing if none has.
pub map_crd_to_request-Enqueues :
    (store : ObjectStore) (component cr : String)
    → (map_crd_to_request store component cr).1 ≡ none
    → (objects : List Object) × (get_for_component store component ≡ ok objects)
      × Enqueues (map_crd_to_request store component cr).0 cr objects
unfolding map_crd_to_request get_crd_names_for_component get_for_component
map_crd_to_request-Enqueues store component cr h = elim (Option-cases (lookup component store)) [
  | inl e ↦
      let q : some (errorf ("unknown component: " & component)) ≡ none =
        rw (e, map_crd_to_request, get_crd_names_for_component) at h in
      absurd (cc q)
  | inr (objects, e) ↦ (
    objects,
    rw e,
    rw e (
        mapped component cr objects (names_of objects) refl
          (rw (e, map_crd_to_request, get_crd_names_for_component) at h)),
  )
]
