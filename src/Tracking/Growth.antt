-- ===== src/Tracking/Growth.antt =====
-- What the operations of the tracking client do to a session, so that a reconcile can be followed
-- from its first apply to its cleanup (operator/pkg/tracking/tracking.go).
use konflux_ci.Prelude.{
  String, ◌∷◌, ◌≡◌, refl, sym, ap, subst, ◌∙◌, some, Error, err, Memᴰ, inl, inr, ◌⊎◌, Result-cases,
}
use konflux_ci.Cluster.{Gvk, Object, patch_request, delete_request, History, Api}
use konflux_ci.Tracking.Defs.{ResourceKey, OwnershipConfig, Client, Session, key_of, apply_owned}
use konflux_ci.Tracking.Apply.{KeepsIdentity, Applied, apply_owned_lem, apply_owned_failed}

-- What applying does to a session: nothing is deleted, and what was tracked stays tracked.
pub record Grows (s s' : Session) : Type 0 where
  pub deletes :
      (g : Gvk) (item : Object)
      → Memᴰ (delete_request g item) s'.history
      → Memᴰ (delete_request g item) s.history
  pub tracked : (key : ResourceKey) → Memᴰ key s.client.tracked → Memᴰ key s'.client.tracked
  pub ownership : s'.client.ownership ≡ s.client.ownership

pub Grows-refl : (s : Session) → Grows s s
Grows-refl s = record { deletes = λ g item m. m; tracked = λ key m. m; ownership = refl }

pub Grows-trans : {s t u : Session} → Grows s t → Grows t u → Grows s u
Grows-trans a b = record {
  deletes = λ g item m. a.deletes g item (b.deletes g item m);
  tracked = λ key m. b.tracked key (a.tracked key m);
  ownership = b.ownership ∙ a.ownership;
}

not_patch :
    (g : Gvk) (item owned : Object) (manager : String) (h : History)
    → Memᴰ (delete_request g item) (patch_request owned manager ∷ h)
    → Memᴰ (delete_request g item) h
not_patch g item owned manager h (Memᴰ.head e) = cc
not_patch g item owned manager h (Memᴰ.tail m) = m

module _ (api : Api) (law : KeepsIdentity api) where
  Applied-Grows :
      (cfg : OwnershipConfig) (obj : Object) (s s' : Session)
      → Applied api cfg obj s s'
      → Grows s s'
  Applied-Grows cfg obj s s' a = record {
    deletes = λ g item m. not_patch g item a.owned cfg.field_manager s.history (rw (a.sent) at m);
    tracked = a.still_tracked;
    ownership = a.same_ownership;
  }

  failed-Grows :
      (obj : Object) (s : Session) (e : Error)
      → (apply_owned api obj s).0 ≡ err e
      → Grows s (apply_owned api obj s).1
  failed-Grows obj s e r =
      let f =
        apply_owned_failed api obj s (apply_owned api obj s).1 e
          (ap (λ x. (x, (apply_owned api obj s).1)) r) in
      record {
        deletes = λ g item m. elim f.1 [
          | inl same ↦ rw (same) at m
          | inr (owned, sent) ↦ not_patch g item owned _ s.history (rw (sent) at m)
        ];
        tracked = λ key m. subst (λ (c : Client). Memᴰ key c.tracked) (sym f.0) m;
        ownership = ap (λ (c : Client). c.ownership) f.0;
      }

  pub apply_owned-Grows :
      (cfg : OwnershipConfig) (obj : Object) (s : Session)
      → s.client.ownership ≡ some cfg
      → Grows s (apply_owned api obj s).1
  apply_owned-Grows cfg obj s o = elim (Result-cases (apply_owned api obj s).0) [
    | inl (u, r) ↦
        Applied-Grows cfg obj s _
          (apply_owned_lem api law cfg obj s _ o (ap (λ x. (x, (apply_owned api obj s).1)) r))
    | inr (e, r) ↦ failed-Grows obj s e r
  ]

  -- ApplyOwned, whether it succeeds or not, tracks at most the object's own key.
  pub apply_owned-only :
      (cfg : OwnershipConfig) (obj : Object) (s : Session)
      → s.client.ownership ≡ some cfg
      → (k : ResourceKey) → Memᴰ k (apply_owned api obj s).1.client.tracked
      → Memᴰ k s.client.tracked ⊎ (k ≡ key_of api obj)
  apply_owned-only cfg obj s o k m = elim (Result-cases (apply_owned api obj s).0) [
    | inl (u, r) ↦
        (apply_owned_lem api law cfg obj s _ o (ap (λ x. (x, (apply_owned api obj s).1)) r)).only k
          m
    | inr (e, r) ↦
        let f =
          apply_owned_failed api obj s (apply_owned api obj s).1 e
            (ap (λ x. (x, (apply_owned api obj s).1)) r) in
        inl (subst (λ (c : Client). Memᴰ k c.tracked) f.0 m)
  ]
