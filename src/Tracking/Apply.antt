-- ===== src/Tracking/Apply.antt =====
-- operator/pkg/tracking/tracking.go: what ApplyOwned leaves behind, and what it protects.
use konflux_ci.Prelude.{
  ℕ, String, true, false, List, ◌∷◌, ◌≡◌, ◌≢◌, refl, sym, ap, subst, ◌∙◌, Option, some, ok, err,
  Error, Result-cases, string_eq, Memᴰ, Dict, lookup, lookup-insert, arith, inl, inr, ◌⊎◌,
  Bool-cases, if◌then◌else◌, mem_of_any, beq_refl, beq_of_ne,
}
use konflux_ci.Cluster.{Gvk, Object, Request, patch_request, delete_request, History, Api}
use konflux_ci.Tracking.Defs.{
  ResourceKey, OwnershipConfig, Client, Session, is_tracked, is_custom_resource_definition,
  tracked_gvk, key_of, key_eq, track, field_manager, set_labels, set_ownership, apply_object,
  apply_owned,
}
use konflux_ci.Tracking.Cleanup.{Job, item_key, cleanup_orphans}
use konflux_ci.Tracking.Cleanup.Safety.{Sends, nothing, request, Justified, cleanup_orphans_safe}

labels-owner :
    (cfg : OwnershipConfig) (obj : Object)
    → cfg.owner_label_key ≢ cfg.component_label_key
    → lookup cfg.owner_label_key (set_labels cfg obj).labels ≡ some cfg.owner.name
unfolding set_labels
labels-owner cfg obj ne = simp (lookup-insert, beq_refl) (rw (beq_of_ne (λ e. ne (sym e))))

labels-component :
    (cfg : OwnershipConfig) (obj : Object)
    → lookup cfg.component_label_key (set_labels cfg obj).labels ≡ some cfg.component
unfolding set_labels
labels-component cfg obj = simp (lookup-insert, beq_refl)

module _ (api : Api) where
  -- What the operator relies on: a successful Patch leaves the object's identity in place,
  -- SetControllerReference changes the controller reference alone, and the scheme reads the Go type.
  pub record KeepsIdentity : Type 0 where
    pub patched :
        (h : History) (o : Object) (manager : String) (o' : Object)
        → api.patch h o manager ≡ ok o'
        → key_of api o' ≡ key_of api o
    pub referenced :
        (owner o o' : Object)
        → api.set_controller_reference owner o ≡ ok o'
        → o' ≡ record o { controller = some owner.uid }
    pub kinds_of_type :
        (o : Object) (labels : Dict String) (controller : Option String)
        → api.object_kinds (record o { labels = labels; controller = controller })
          ≡ api.object_kinds o

  -- The object that ApplyOwned sends: labelled, and owned unless it is a CRD.
  pub record IsOwned (cfg : OwnershipConfig) (obj owned : Object) : Type 0 where
    pub key : key_of api owned ≡ key_of api obj
    pub owner_label :
        cfg.owner_label_key ≢ cfg.component_label_key
        → lookup cfg.owner_label_key owned.labels ≡ some cfg.owner.name
    pub component_label : lookup cfg.component_label_key owned.labels ≡ some cfg.component
    pub crd : is_custom_resource_definition obj ≡ true → owned.controller ≡ obj.controller
    pub controlled :
        is_custom_resource_definition obj ≡ false → owned.controller ≡ some cfg.owner.uid

  abbrev controller_after : OwnershipConfig → Object → Option String
  controller_after cfg obj =
      if is_custom_resource_definition obj then obj.controller else some cfg.owner.uid

  -- What SetOwnership makes of an object when it succeeds.
  set_ownership-ok :
      (law : KeepsIdentity) (c : Client) (cfg : OwnershipConfig) (obj owned : Object)
      → c.ownership ≡ some cfg
      → set_ownership api c obj ≡ ok owned
      → owned ≡ record (set_labels cfg obj) { controller = controller_after cfg obj }
  unfolding set_ownership set_labels is_custom_resource_definition
  set_ownership-ok law c cfg obj owned o h =
      ground (arith, law.referenced cfg.owner (set_labels cfg obj) owned)

  key-labelled :
      (law : KeepsIdentity) (o : Object) (labels : Dict String) (controller : Option String)
      → key_of api (record o { labels = labels; controller = controller }) ≡ key_of api o
  unfolding tracked_gvk
  key-labelled law o labels controller = rw law.kinds_of_type

  set_ownership-IsOwned :
      (law : KeepsIdentity) (c : Client) (cfg : OwnershipConfig) (obj owned : Object)
      → c.ownership ≡ some cfg
      → set_ownership api c obj ≡ ok owned
      → IsOwned cfg obj owned
  set_ownership-IsOwned law c cfg obj owned o h =
      let e = set_ownership-ok law c cfg obj owned o h in
      record {
        key = ap (key_of api) e ∙ (unfold set_labels in key-labelled law obj _ _);
        owner_label = λ ne.
            ap (λ (x : Object). lookup cfg.owner_label_key x.labels) e ∙ labels-owner cfg obj ne;
        component_label =
            ap (λ (x : Object). lookup cfg.component_label_key x.labels) e
            ∙ labels-component cfg obj;
        crd = λ p. ap (λ (x : Object). x.controller) e ∙ (rw p);
        controlled = λ p. ap (λ (x : Object). x.controller) e ∙ (rw p);
      }

  track-mem : (o : Object) (c : Client) → Memᴰ (key_of api o) (track api o c).tracked
  unfolding track
  track-mem o c = elim (Bool-cases (is_tracked c (key_of api o))) [
    | inl p ↦ rw p (mem_of_any _ _ (unfold is_tracked in p))
    | inr p ↦ rw p (Memᴰ.head refl)
  ]

  track-keeps :
      (o : Object) (c : Client) (k : ResourceKey)
      → Memᴰ k c.tracked
      → Memᴰ k (track api o c).tracked
  unfolding track
  track-keeps o c k m = elim (Bool-cases (is_tracked c (key_of api o))) [
    | inl p ↦ rw p m
    | inr p ↦ rw p (Memᴰ.tail m)
  ]

  not_before :
      (o : Object) (c : Client) (k : ResourceKey)
      → Memᴰ k (key_of api o ∷ c.tracked)
      → Memᴰ k c.tracked ⊎ (k ≡ key_of api o)
  not_before o c k (Memᴰ.head e) = inr e
  not_before o c k (Memᴰ.tail m) = inl m

  track-only :
      (o : Object) (c : Client) (k : ResourceKey)
      → Memᴰ k (track api o c).tracked
      → Memᴰ k c.tracked ⊎ (k ≡ key_of api o)
  unfolding track
  track-only o c k m = elim (Bool-cases (is_tracked c (key_of api o))) [
    | inl p ↦ inl (rw p at m)
    | inr p ↦ not_before o c k (rw p at m)
  ]

  ownership-track : (o : Object) (c : Client) → (track api o c).ownership ≡ c.ownership
  unfolding track
  ownership-track o c = ground arith

  -- What a successful ApplyOwned has done.
  pub record Applied (cfg : OwnershipConfig) (obj : Object) (s s' : Session) : Type 0 where
    pub owned : Object
    pub is_owned : IsOwned cfg obj owned
    pub sent : s'.history ≡ patch_request owned cfg.field_manager ∷ s.history
    pub now_tracked : Memᴰ (key_of api obj) s'.client.tracked
    pub still_tracked : (k : ResourceKey) → Memᴰ k s.client.tracked → Memᴰ k s'.client.tracked
    pub only :
        (k : ResourceKey)
        → Memᴰ k s'.client.tracked
        → Memᴰ k s.client.tracked ⊎ (k ≡ key_of api obj)
    pub same_ownership : s'.client.ownership ≡ s.client.ownership

  abbrev after_patch : Object → Object → String → Session → Session
  after_patch sent obj' manager s = record {
    client = track api obj' s.client;
    history = patch_request sent manager ∷ s.history;
  }

  -- A successful ApplyOwned went through both calls.
  apply_owned-ok :
      (obj : Object) (s s' : Session)
      → apply_owned api obj s ≡ (ok tt, s')
      → (owned : Object) × (obj' : Object) × (set_ownership api s.client obj ≡ ok owned)
        × (api.patch s.history owned (field_manager api s.client) ≡ ok obj')
        × (s' ≡ after_patch owned obj' (field_manager api s.client) s)
  unfolding apply_owned apply_object
  apply_owned-ok obj s s' h = elim (Result-cases (set_ownership api s.client obj)) [
    | inr (e, p) ↦ absurd (ground arith)
    | inl (owned, p) ↦
        elim (Result-cases (api.patch s.history owned (field_manager api s.client))) [
          | inr (e, q) ↦ absurd (ground arith)
          | inl (obj', q) ↦ (owned, obj', p, q, ground arith)
        ]
  ]

  after_patch-Applied :
      (law : KeepsIdentity) (cfg : OwnershipConfig) (obj owned obj' : Object) (s : Session)
      → s.client.ownership ≡ some cfg
      → set_ownership api s.client obj ≡ ok owned
      → api.patch s.history owned cfg.field_manager ≡ ok obj'
      → Applied cfg obj s (after_patch owned obj' cfg.field_manager s)
  after_patch-Applied law cfg obj owned obj' s o p q =
      let is_owned = set_ownership-IsOwned law s.client cfg obj owned o p in
      record {
        owned = owned;
        is_owned = is_owned;
        sent = refl;
        now_tracked =
            subst (λ k. Memᴰ k (track api obj' s.client).tracked)
              (law.patched _ _ _ _ q ∙ is_owned.key) (track-mem obj' s.client);
        still_tracked = track-keeps obj' s.client;
        only = λ k m. elim (track-only obj' s.client k m) [
          | inl before ↦ inl before
          | inr e ↦ inr (e ∙ law.patched _ _ _ _ q ∙ is_owned.key)
        ];
        same_ownership = ownership-track obj' s.client;
      }

  -- ApplyOwned, where it succeeds on a client with ownership: it has sent one Patch request, by the
  -- configured field manager, for the object with the component label, the owner label if the two
  -- label keys differ and, unless it is a CRD, the owner as its controller; the object's key is
  -- tracked, what was tracked before still is, nothing else is, and the ownership is unchanged.
  pub apply_owned_lem :
      (law : KeepsIdentity) (cfg : OwnershipConfig) (obj : Object) (s s' : Session)
      → s.client.ownership ≡ some cfg
      → apply_owned api obj s ≡ (ok tt, s')
      → Applied cfg obj s s'
  apply_owned_lem law cfg obj s s' o h =
      let (owned, obj', p, q, e) = apply_owned-ok obj s s' h in
      let m : field_manager api s.client ≡ cfg.field_manager = rw o in
      subst (Applied cfg obj s) (sym (rw m at e))
        (after_patch-Applied law cfg obj owned obj' s o p (rw m at q))

  -- ApplyOwned, where it fails: nothing more is tracked, and at most one request, a Patch, was sent.
  pub apply_owned_failed :
      (obj : Object) (s s' : Session) (e : Error)
      → apply_owned api obj s ≡ (err e, s')
      → (s'.client ≡ s.client)
        × ((s'.history ≡ s.history)
            ⊎ ((owned : Object) × (s'.history
                  ≡ patch_request owned (field_manager api s.client) ∷ s.history)))
  unfolding apply_owned apply_object
  apply_owned_failed obj s s' e h = elim (Result-cases (set_ownership api s.client obj)) [
    | inr (x, p) ↦ (ground arith, inl (ground arith))
    | inl (owned, p) ↦
        elim (Result-cases (api.patch s.history owned (field_manager api s.client))) [
          | inr (x, q) ↦ (ground arith, inr (owned, ground arith))
          | inl (obj', q) ↦ absurd (ground arith)
        ]
  ]

  pub Sends-mem :
      (job : Job) (gvks : List Gvk) {h k : History} (r : Request)
      → Sends api job gvks h k
      → Memᴰ r k
      → Memᴰ r h ⊎ Justified api job gvks r
  Sends-mem job gvks r nothing m = inl m
  Sends-mem job gvks r (request q j s) (Memᴰ.head e) =
      inr (subst (Justified api job gvks) (sym e) j)
  Sends-mem job gvks r (request q j s) (Memᴰ.tail m) = Sends-mem job gvks r s m

  -- An object that ApplyOwned applied is safe from the cleanup of the same client: whatever is
  -- tracked in between, whatever the interleaving and the server's answers, cleanup sends no
  -- Delete call for its kind, namespace and name.
  pub applied_survives :
      (law : KeepsIdentity) (cfg : OwnershipConfig) (obj : Object) (s s' : Session)
      → s.client.ownership ≡ some cfg
      → apply_owned api obj s ≡ (ok tt, s')
      → (job : Job) → ((k : ResourceKey) → Memᴰ k s'.client.tracked → Memᴰ k job.client.tracked)
      → (gvks : List Gvk) (h : History) (schedule : List ℕ) (g : Gvk) (item : Object)
      → Memᴰ (delete_request g item) (cleanup_orphans api job gvks h schedule).history
      → Memᴰ (delete_request g item) h ⊎ (item_key g item ≢ key_of api obj)
  applied_survives law cfg obj s s' o e job kept gvks h schedule g item m =
      elim (Sends-mem job gvks _ (cleanup_orphans_safe api job gvks h schedule) m) [
        | inl before ↦ inl before
        | inr j ↦ inr λ p. j.2.untracked (
            subst (λ k. Memᴰ k job.client.tracked) (sym p)
              (kept _ (apply_owned_lem law cfg obj s s' o e).now_tracked))
      ]
