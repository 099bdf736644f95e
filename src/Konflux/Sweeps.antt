-- ===== src/Konflux/Sweeps.antt =====
-- What a reconcile of the Konflux resource has deleted when it ends well: the optional parts that the
-- spec switches off.
use konflux_ci.Prelude.{
  ℕ, String, Bool, true, false, List, [], ◌∷◌, ◌≡◌, ◌≢◌, refl, sym, ap, subst, ◌∙◌, Option, none,
  some, Error, ErrorKind, ok, err, Memᴰ, All, All-mem, any, ◌==◌, string_eq, arith, inl, inr, ◌⊎◌,
  Option-cases, Result-cases,
}
use konflux_ci.Cluster.{Gvk, Object, History, Api}
use konflux_ci.Tracking.Defs.{
  ResourceKey, OwnershipConfig, Session, key_of, tracked_gvk, allowed_names, apply_owned,
  new_client_with_ownership,
}
use konflux_ci.Tracking.Cleanup.{State, item_key, list_kind}
use konflux_ci.Tracking.Cleanup.Safety.{Allows}
use konflux_ci.Tracking.Cleanup.Complete.{
  IsFinished, Gone, Swept, missing, swept, cleanup_orphans_complete,
}
use konflux_ci.Tracking.Apply.{KeepsIdentity}
use konflux_ci.Tracking.Growth.{apply_owned-Grows, apply_owned-only}
use konflux_ci.Condition.Defs.{StatusApi}
use konflux_ci.Konflux.Defs.{
  KonfluxSpec, SubCr, enabled_or, is_image_controller_enabled, is_internal_registry_enabled,
  is_default_tenant_enabled, is_telemetry_enabled, apply_order, sub_cr_gvk, sub_cr_object,
  owner_label, start_session, konflux_ownership, konflux_allow_list, Konflux, Platform,
  konflux_cleanup_gvks, job_of,
}
use konflux_ci.Konflux.Reconcile.{handle, apply_sub_crs, after_cleanup, swept_by, reconcile_konflux}
use konflux_ci.Konflux.Deletes.{apply_all, apply_all-Grows, after_cleanup-history}

-- The kind and the one name of an optional part that a spec switches off: the default tenant is on unless
-- the spec says no, the others are off unless it says yes.
pub data IsSwitchedOff (spec : KonfluxSpec) : String → String → Type 0 where
  image_controller_off :
      spec.image_controller ≢ some (some true)
      → IsSwitchedOff spec "KonfluxImageController" "konflux-image-controller"
  internal_registry_off :
      spec.internal_registry ≢ some (some true)
      → IsSwitchedOff spec "KonfluxInternalRegistry" "konflux-internal-registry"
  default_tenant_off :
      spec.default_tenant ≡ some (some false)
      → IsSwitchedOff spec "KonfluxDefaultTenant" "konflux-default-tenant"
  telemetry_off :
      spec.telemetry ≢ some (some true)
      → IsSwitchedOff spec "KonfluxSegmentBridge" "konflux-segment-bridge"

abbrev applies : String → KonfluxSpec → Bool
applies kind spec = any (λ c. c.kind == kind) (apply_order spec)

off_by_default : (o : Option (Option Bool)) → o ≢ some (some true) → enabled_or false o ≡ false
off_by_default none h = refl
off_by_default (some none) h = refl
off_by_default (some (some false)) h = refl
off_by_default (some (some true)) h = absurd (h refl)

-- A part that is switched off is not among those that are applied.
not_applied :
    (spec : KonfluxSpec) (kind name : String)
    → IsSwitchedOff spec kind name
    → applies kind spec ≡ false
unfolding apply_order is_image_controller_enabled is_internal_registry_enabled
    is_default_tenant_enabled is_telemetry_enabled
not_applied spec kind name (image_controller_off h) =
    let e = off_by_default spec.image_controller h in ground (arith, e)
not_applied spec kind name (internal_registry_off h) =
    let e = off_by_default spec.internal_registry h in ground (arith, e)
not_applied spec kind name (default_tenant_off h) =
    let e : enabled_or true spec.default_tenant ≡ false = rw h in ground (arith, e)
not_applied spec kind name (telemetry_off h) =
    let e = off_by_default spec.telemetry h in ground (arith, e)

-- Its kind is swept, and its name is the allowed one.
swept_kind :
    (spec : KonfluxSpec) (kind name : String)
    → IsSwitchedOff spec kind name
    → Memᴰ (sub_cr_gvk kind) konflux_cleanup_gvks
unfolding konflux_cleanup_gvks
swept_kind spec kind name (image_controller_off h) = Memᴰ.head refl
swept_kind spec kind name (internal_registry_off h) = Memᴰ.tail (Memᴰ.head refl)
swept_kind spec kind name (default_tenant_off h) = Memᴰ.tail (Memᴰ.tail (Memᴰ.head refl))
swept_kind spec kind name (telemetry_off h) = Memᴰ.tail (Memᴰ.tail (Memᴰ.tail (Memᴰ.head refl)))

one_name :
    (g : Gvk) (a : List (Gvk × List String)) (name : String)
    → allowed_names g a ≡ some (name ∷ [])
    → (item : Object) → item.name ≡ name
    → Allows (some a) g item
one_name g a name given item e b names p q n =
    let same : a ≡ b = ground (arith, p) in
    let these : name ∷ [] ≡ names = ground (arith, given, q, ap (λ x. allowed_names g x) same) in
    subst (λ ns. Memᴰ item.name ns) these (Memᴰ.head e)

allowed :
    (spec : KonfluxSpec) (kind name : String)
    → IsSwitchedOff spec kind name
    → (item : Object) → item.name ≡ name
    → Allows konflux_allow_list (sub_cr_gvk kind) item
unfolding konflux_allow_list allowed_names
allowed spec kind name (image_controller_off h) item e = one_name _ _ name refl item e
allowed spec kind name (internal_registry_off h) item e = one_name _ _ name refl item e
allowed spec kind name (default_tenant_off h) item e = one_name _ _ name refl item e
allowed spec kind name (telemetry_off h) item e = one_name _ _ name refl item e

not_any :
    (kind : String) (cs : List SubCr) (c : SubCr)
    → any (λ x. x.kind == kind) cs ≡ false
    → Memᴰ c cs
    → (c.kind == kind) ≡ false
not_any kind [] c h m = elim m [ ]
not_any kind (x ∷ cs) c h (Memᴰ.head e) =
    let f : (x.kind == kind) ≡ false = ground (arith, h) in
    subst (λ (y : SubCr). (y.kind == kind) ≡ false) (sym e) f
not_any kind (x ∷ cs) c h (Memᴰ.tail m) = not_any kind cs c (ground (arith, h)) m

module _ (api : Api) (law : KeepsIdentity api) (status_api : StatusApi) (platform : Platform)
    (now : ℕ) where
  -- Nothing but the sub-resources of the list is tracked by their applies.
  apply_all-only :
      (cfg : OwnershipConfig) (cs : List SubCr) (s : Session)
      → s.client.ownership ≡ some cfg
      → (k : ResourceKey) → Memᴰ k (apply_all api law status_api platform now cs s).1.client.tracked
      → Memᴰ k s.client.tracked ⊎ ((c : SubCr) × Memᴰ c cs × (k ≡ key_of api (sub_cr_object c)))
  unfolding apply_sub_crs
  apply_all-only cfg [] s o k m = inl m
  apply_all-only cfg (x ∷ cs) s o k m =
      let s' = (apply_owned api (sub_cr_object x) s).1 in
      let own : Memᴰ k s'.client.tracked
          → Memᴰ k s.client.tracked
            ⊎ ((c : SubCr) × Memᴰ c (x ∷ cs) × (k ≡ key_of api (sub_cr_object c))) =
        λ n. elim (apply_owned-only api law cfg (sub_cr_object x) s o k n) [
          | inl before ↦ inl before
          | inr e ↦ inr (x, Memᴰ.head refl, e)
        ] in
      elim (Result-cases (apply_owned api (sub_cr_object x) s).0) [
        | inr (e, r) ↦ own (rw (r, apply_sub_crs) at m)
        | inl (u, r) ↦
            elim (apply_all-only cfg cs s'
              ((apply_owned-Grows api law cfg (sub_cr_object x) s o).ownership ∙ o) k
              (rw (r, apply_sub_crs) at m)) [
                | inl before ↦ own before
                | inr (c, n, e) ↦ inr (c, Memᴰ.tail n, e)
              ]
      ]

  abbrev pub applied_session : Konflux → History → Session
  applied_session k h =
      (apply_all api law status_api platform now (apply_order k.spec) (start_session k h)).1

  -- An object of a part that is switched off is not tracked.
  untracked :
      (k : Konflux) (h : History) (kind name : String)
      → IsSwitchedOff k.spec kind name
      → (item : Object)
      → ¬ Memᴰ (item_key (sub_cr_gvk kind) item) (applied_session k h).client.tracked
  unfolding new_client_with_ownership sub_cr_object tracked_gvk
  untracked k h kind name off item m =
      elim (apply_all-only (konflux_ownership k) (apply_order k.spec) (start_session k h) refl _
        m) [
          | inl n ↦ elim n [ ]
          | inr (c, n, e) ↦
              let same : kind ≡ c.kind = ap (λ (x : ResourceKey). x.gvk.kind) e in
              let differ =
                not_any kind (apply_order k.spec) c (not_applied k.spec kind name off) n in
              absurd (ground (arith, differ, string_eq.agrees c.kind kind, same))
        ]

  -- An optional part has been dealt with: its kind is not installed, or in the answer of a List call for
  -- the owner label, every object of this name that the Konflux resource controls is gone.
  pub data Cleaned (k : Konflux) (h f : History) (kind name : String) : Type 0 where
    not_installed :
        (l : History) (e : Error)
        → api.list l (list_kind (sub_cr_gvk kind)) owner_label k.object.name ≡ err e
        → e.kind ≡ ErrorKind.no_match
        → Cleaned k h f kind name
    all_gone :
        (l : History) (items : List Object)
        → api.list l (list_kind (sub_cr_gvk kind)) owner_label k.object.name ≡ ok items
        → ((item : Object)
            → Memᴰ item items
            → api.is_controlled_by item k.object ≡ true
            → item.name ≡ name
            → Gone api (job_of k (applied_session k h)) f (sub_cr_gvk kind) item)
        → Cleaned k h f kind name

  after_cleanup-ok :
      (k : Konflux) (state : State) (wait : ℕ)
      → (after_cleanup api status_api platform now k state).result ≡ ok wait
      → state.first_error ≡ none
  unfolding handle
  after_cleanup-ok k state wait r = elim (Option-cases state.first_error) [
    | inl p ↦ p
    | inr (e, p) ↦ absurd (ground (arith, p, r))
  ]

  Swept-Cleaned :
      (k : Konflux) (h f : History) (kind name : String)
      → IsSwitchedOff k.spec kind name
      → Swept api (job_of k (applied_session k h)) f (sub_cr_gvk kind)
      → Cleaned k h f kind name
  unfolding new_client_with_ownership
  Swept-Cleaned k h f kind name off (missing l e a n) = not_installed l e a n
  Swept-Cleaned k h f kind name off (swept l items a gone) = all_gone l items a λ item m ours named.
      gone item m (record {
        untracked = untracked k h kind name off item;
        owned = λ cfg o.
            let grown =
              (apply_all-Grows api law status_api platform now (konflux_ownership k)
                (apply_order k.spec) (start_session k h) refl).ownership in
            let same : konflux_ownership k ≡ cfg = ground (arith, o, grown) in
            subst (λ (c : OwnershipConfig). api.is_controlled_by item c.owner ≡ true) same ours;
        allowed = allowed k.spec kind name off item named;
      })

  -- If a reconcile of the Konflux resource returns without an error, all the goroutines of its
  -- cleanup having returned, then for each optional part that the spec switches off (the default tenant by
  -- a no, the image controller, the internal registry and the telemetry by not saying yes) either the
  -- kind of the part is not installed, or every listed object of that kind that the resource controls and
  -- that has the name of the part is gone.
  pub reconcile_konflux-Cleaned :
      (k : Konflux) (h : History) (schedule : List ℕ) (wait : ℕ) (kind name : String)
      → IsSwitchedOff k.spec kind name
      → (reconcile_konflux api status_api platform now k h schedule).result ≡ ok wait
      → All IsFinished
          (swept_by api status_api platform now k (applied_session k h) schedule).workers
      → Cleaned k h (reconcile_konflux api status_api platform now k h schedule).history kind name
  unfolding reconcile_konflux handle
  reconcile_konflux-Cleaned k h schedule wait kind name off r finished =
      let s = applied_session k h in
      let state = swept_by api status_api platform now k s schedule in
      elim (Option-cases
        (apply_all api law status_api platform now (apply_order k.spec) (start_session k h)).0) [
          | inr (e, p) ↦ absurd (ground (arith, p, r))
          | inl p ↦ rw (p) (
              subst (λ x. Cleaned k h x kind name)
                (sym (after_cleanup-history api law status_api platform now k state))
                (Swept-Cleaned k h state.history kind name off (
                  All-mem (Swept api (job_of k s) state.history)
                    (cleanup_orphans_complete api (job_of k s) konflux_cleanup_gvks s.history
                      schedule finished (after_cleanup-ok k state wait (rw (p) at r)))
                    (swept_kind k.spec kind name off))))
        ]
