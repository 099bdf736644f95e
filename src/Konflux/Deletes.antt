-- ===== src/Konflux/Deletes.antt =====
-- What a reconcile of the Konflux resource deletes.
use konflux_ci.Prelude.{
  ℕ, String, true, List, [], ◌∷◌, ◌≡◌, ◌≢◌, refl, sym, ap, subst, ◌∙◌, Option, none, some, Error,
  Memᴰ, arith, inl, inr, ◌⊎◌, Option-cases, Result-cases,
}
use konflux_ci.Cluster.{Gvk, Object, delete_request, History, Api}
use konflux_ci.Tracking.Defs.{
  OwnershipConfig, Session, key_of, apply_owned, new_client_with_ownership,
}
use konflux_ci.Tracking.Cleanup.{State, item_key}
use konflux_ci.Tracking.Cleanup.Safety.{cleanup_orphans_safe}
use konflux_ci.Tracking.Cleanup.Complete.{}
use konflux_ci.Tracking.Apply.{KeepsIdentity, apply_owned_lem, Sends-mem}
use konflux_ci.Tracking.Growth.{Grows, Grows-refl, Grows-trans, apply_owned-Grows}
use konflux_ci.Condition.Defs.{StatusApi}
use konflux_ci.Konflux.Defs.{
  SubCr, apply_order, status_order, sub_cr_object, start_session, konflux_ownership, Konflux,
  Platform, konflux_cleanup_gvks, job_of,
}
use konflux_ci.Konflux.Reconcile.{
  handle, apply_sub_crs, collect, with_statuses, after_cleanup, swept_by, reconcile_konflux,
}

module _ (api : Api) (law : KeepsIdentity api) (status_api : StatusApi) (platform : Platform)
    (now : ℕ) where
  abbrev pub apply_all : List SubCr → Session → Option (Error × String) × Session
  apply_all cs s = apply_sub_crs api status_api platform now cs s

  pub apply_all-Grows :
      (cfg : OwnershipConfig) (cs : List SubCr) (s : Session)
      → s.client.ownership ≡ some cfg
      → Grows s (apply_all cs s).1
  unfolding apply_sub_crs
  apply_all-Grows cfg [] s o = Grows-refl s
  apply_all-Grows cfg (c ∷ cs) s o =
      let first = apply_owned-Grows api law cfg (sub_cr_object c) s o in
      let s' = (apply_owned api (sub_cr_object c) s).1 in
      elim (Result-cases (apply_owned api (sub_cr_object c) s).0) [
        | inl (u, r) ↦
            rw (r, apply_sub_crs)
              (Grows-trans first (apply_all-Grows cfg cs s' (first.ownership ∙ o)))
        | inr (e, r) ↦ rw (r, apply_sub_crs) first
      ]

  -- When no apply failed, every sub-resource is tracked.
  apply_all-tracked :
      (cfg : OwnershipConfig) (cs : List SubCr) (s : Session)
      → s.client.ownership ≡ some cfg
      → (apply_all cs s).0 ≡ none
      → (c : SubCr) → Memᴰ c cs
      → Memᴰ (key_of api (sub_cr_object c)) (apply_all cs s).1.client.tracked
  unfolding apply_sub_crs
  apply_all-tracked cfg [] s o f c m = elim m [ ]
  apply_all-tracked cfg (x ∷ cs) s o f c m =
      let s' = (apply_owned api (sub_cr_object x) s).1 in
      let first = apply_owned-Grows api law cfg (sub_cr_object x) s o in
      elim (Result-cases (apply_owned api (sub_cr_object x) s).0) [
        | inr (e, r) ↦ absurd (ground (arith, r, f))
        | inl (u, r) ↦
            let a = apply_owned_lem api law cfg (sub_cr_object x) s s' o (ap (λ y. (y, s')) r) in
            rw (r, apply_sub_crs)
              (elim m [
                | Memᴰ.head e ↦
                    subst
                      (λ y. Memᴰ (key_of api (sub_cr_object y)) (apply_all cs s').1.client.tracked)
                      (sym e)
                      ((apply_all-Grows cfg cs s' (first.ownership ∙ o)).tracked _ a.now_tracked)
                | Memᴰ.tail n ↦
                    apply_all-tracked cfg cs s' (first.ownership ∙ o) (rw (r, apply_sub_crs) at f) c
                      n
              ])
      ]

  with_statuses-history :
      (h : History) (k : Konflux) (cs : List SubCr)
      → (with_statuses api status_api platform now h
          (collect api status_api platform now cs h k [])).history
        ≡ h
  unfolding handle
  with_statuses-history h k cs =
      elim (Option-cases (collect api status_api platform now cs h k []).failed) [
        | inl p ↦ rw (p) refl
        | inr (e, p) ↦ rw (p) refl
      ]

  pub after_cleanup-history :
      (k : Konflux) (swept : State)
      → (after_cleanup api status_api platform now k swept).history ≡ swept.history
  unfolding handle
  after_cleanup-history k swept = elim (Option-cases swept.first_error) [
    | inl p ↦
        ap
          (λ e.
            (after_cleanup api status_api platform now k
              (record swept { first_error = e })).history)
          p
        ∙ with_statuses-history swept.history k (status_order k.spec)
    | inr (e, p) ↦
        ap
          (λ x.
            (after_cleanup api status_api platform now k
              (record swept { first_error = x })).history)
          p
  ]

  -- The objects that a reconcile may delete: of one of the four optional kinds, controlled by
  -- the Konflux resource, and none of those that it has just applied.
  pub record MayDelete (k : Konflux) (g : Gvk) (item : Object) : Type 0 where
    pub optional : Memᴰ g konflux_cleanup_gvks
    pub ours : api.is_controlled_by item k.object ≡ true
    pub not_applied :
        (c : SubCr) → Memᴰ c (apply_order k.spec) → item_key g item ≢ key_of api (sub_cr_object c)

  -- Whatever the server answers and however the goroutines are interleaved, each object that a
  -- reconcile of the Konflux resource deletes is of an optional kind, is controlled by this very
  -- resource, and is not the object of a sub-resource that its spec enables.
  pub reconcile_konflux_deletes :
      (k : Konflux) (h : History) (schedule : List ℕ) (g : Gvk) (item : Object)
      → Memᴰ
          (delete_request g item)
          (reconcile_konflux api status_api platform now k h schedule).history
      → Memᴰ (delete_request g item) h ⊎ MayDelete k g item
  unfolding reconcile_konflux handle new_client_with_ownership
  reconcile_konflux_deletes k h schedule g item m =
      let start = start_session k h in
      let s = (apply_all (apply_order k.spec) start).1 in
      let cfg = konflux_ownership k in
      let grown = apply_all-Grows cfg (apply_order k.spec) start refl in
      elim (Option-cases (apply_all (apply_order k.spec) start).0) [
        | inr (e, p) ↦ inl (grown.deletes g item (rw (p) at m))
        | inl p ↦
            let swept = swept_by api status_api platform now k s schedule in
            let m' : Memᴰ (delete_request g item) swept.history =
              subst (λ x. Memᴰ (delete_request g item) x) (after_cleanup-history k swept)
                (rw (p) at m) in
            elim (Sends-mem api (job_of k s) konflux_cleanup_gvks _
              (cleanup_orphans_safe api (job_of k s) konflux_cleanup_gvks s.history schedule) m') [
                | inl before ↦ inl (grown.deletes g item before)
                | inr j ↦ inr (record {
                  optional = j.0;
                  ours = j.2.owned cfg grown.ownership;
                  not_applied = λ c n same. j.2.untracked (
                      subst (λ key. Memᴰ key s.client.tracked) (sym same)
                        (apply_all-tracked cfg (apply_order k.spec) start refl p c n));
                })
              ]
      ]
