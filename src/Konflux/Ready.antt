-- ===== src/Konflux/Ready.antt =====
-- What a reconcile of the Konflux resource reports: Ready, over the sub-resources and cert-manager.
use konflux_ci.Prelude.{
  ℕ, String, Bool, true, false, not, List, [], ◌∷◌, ◌++◌, ◌≡◌, ◌≢◌, refl, ap, subst, ◌∙◌, ◌&&◌,
  none, some, Error, Result, ok, err, ◌==◌, string_eq, if◌then◌else◌, all, arith, inl, inr, ◌⊎◌,
  Bool-cases, Option-cases, Result-cases, ne_of_beq, ◌&◌,
}
use konflux_ci.Cluster.{History, Api}
use konflux_ci.Tracking.Cleanup.{State}
use konflux_ci.Condition.Defs.{
  Condition, ConditionStatus, status_eq, condition_true, condition_false, condition_unknown,
  new_condition, Accessor, StatusApi, type_ready, SubCrStatus, set_condition, set_failed_condition,
  set_aggregated_ready_condition, copy_sub_cr_status, is_condition_true,
  override_ready_if_dependency_false, is_explicitly_false,
}
use konflux_ci.Condition.Laws.{IsStatusApi, set_condition_lem}
use konflux_ci.Condition.SubResources.{set_aggregated_ready_condition_lem}
use konflux_ci.Konflux.Defs.{
  SubCr, apply_order, status_order, start_session, cert_manager_available, Konflux, Platform,
  Outcome, Collected, cert_manager_override,
}
use konflux_ci.Konflux.Reconcile.{
  handle, apply_sub_crs, copied, collect, check_cert_manager_availability, with_statuses,
  after_cleanup, swept_by, reconcile_konflux,
}

all-snoc :
    (p : SubCrStatus → Bool) (xs : List SubCrStatus) (y : SubCrStatus)
    → all p (xs ++ y ∷ []) ≡ all p xs && p y
all-snoc p [] y = ground arith
all-snoc p (x ∷ xs) y = ground (arith, all-snoc p xs y)

-- cert-manager is known not to be installed; a failed check leaves that open.
abbrev pub cert_manager_missing : Result Bool → Bool
cert_manager_missing (ok b) = not b
cert_manager_missing (err e) = false

abbrev pub status_of : Bool → ConditionStatus
status_of ready = if ready then condition_true else condition_false

module _ (api : Api) (status_api : StatusApi) (law : IsStatusApi status_api) (platform : Platform)
    (now : ℕ) where
  open status_api use {find_status_condition as find}

  -- The sub-resource can be read, and its own Ready condition is True.
  abbrev pub is_ready : History → SubCr → Bool
  is_ready h c = elim (platform.get_sub_cr h c) [
    | ok sub ↦ is_condition_true status_api now sub type_ready
    | err e ↦ false
  ]

  abbrev collected : List SubCr → History → Konflux → List SubCrStatus → Collected
  collected cs h k sts = collect api status_api platform now cs h k sts

  all-collect :
      (cs : List SubCr) (h : History) (k : Konflux) (sts : List SubCrStatus)
      → (collected cs h k sts).failed ≡ none
      → all (λ s. s.ready) (collected cs h k sts).statuses
        ≡ all (λ s. s.ready) sts && all (is_ready h) cs
  unfolding collect copy_sub_cr_status
  all-collect [] h k sts f = ground arith
  all-collect (c ∷ cs) h k sts f = elim (Result-cases (platform.get_sub_cr h c)) [
    | inr (e, p) ↦ absurd (ground (arith, p, f))
    | inl (sub, p) ↦
        let status = (copy_sub_cr_status status_api now k.status sub c.prefix).1 in
        let rest =
          all-collect cs h (copied api status_api platform now c h k sub) (sts ++ status ∷ [])
            (rw (p, collect) at f) in
        rw (p, collect) (rest ∙ ground (arith, p, all-snoc (λ s. s.ready) sts status))
  ]

  -- Ready, in an accessor's conditions.
  pub record ReadyStatus (obj : Accessor) (status : ConditionStatus) : Type 0 where
    pub condition : Condition
    pub found : find obj.conditions type_ready ≡ some condition
    pub same : condition.status ≡ status

  abbrev placed_cert : Accessor → Condition → Accessor
  placed_cert obj c = set_condition status_api now obj c

  cert-not_ready : cert_manager_available ≢ type_ready
  cert-not_ready = ne_of_beq {a = cert_manager_available} {b = type_ready} refl

  -- A condition of cert-manager leaves Ready as it is.
  reported-ReadyStatus :
      (obj : Accessor) (status given : ConditionStatus) (reason message : String)
      → ReadyStatus obj status
      → ReadyStatus
          (placed_cert obj (new_condition cert_manager_available given reason message))
          status
  reported-ReadyStatus obj status given reason message r = record {
    condition = r.condition;
    found =
        (set_condition_lem status_api law now obj
            (new_condition cert_manager_available given reason message)).1
          type_ready cert-not_ready
        ∙ r.found;
    same = r.same;
  }

  -- The override, after a condition of cert-manager was set.
  override-reported :
      (obj : Accessor) (given : ConditionStatus) (reason message : String)
      → let reported =
          placed_cert obj (new_condition cert_manager_available given reason message) in
        is_explicitly_false status_api now (find reported.conditions cert_manager_available)
        ≡ (given == condition_false)
  override-reported obj given reason message =
      ap (λ c. is_explicitly_false status_api now c)
        (set_condition_lem status_api law now obj
          (new_condition cert_manager_available given reason message)).0

  overridden-ReadyStatus :
      (obj : Accessor) (given : ConditionStatus) (reason message : String) (ready : Bool)
      → ReadyStatus obj (status_of ready)
      → ReadyStatus
          (override_ready_if_dependency_false status_api now
            (placed_cert obj (new_condition cert_manager_available given reason message))
            cert_manager_override)
          (status_of (not (given == condition_false) && ready))
  unfolding override_ready_if_dependency_false
  overridden-ReadyStatus obj given reason message ready r =
      let reported = placed_cert obj (new_condition cert_manager_available given reason message) in
      let o = override-reported obj given reason message in
      elim (Bool-cases (given == condition_false)) [
        | inl e ↦
            rw (o ∙ e, e)
              (record {
                condition = _;
                found = (set_condition_lem status_api law now reported _).0;
                same = refl;
              })
        | inr e ↦ rw (o ∙ e, e) (reported-ReadyStatus obj (status_of ready) given reason message r)
      ]

  checked-ReadyStatus :
      (obj : Accessor) (ready : Bool) (answer : Result Bool)
      → ReadyStatus obj (status_of ready)
      → ReadyStatus
          (check_cert_manager_availability api status_api platform now answer obj).0
          (status_of (not (cert_manager_missing answer) && ready))
  unfolding check_cert_manager_availability
  checked-ReadyStatus obj ready (err e) r = overridden-ReadyStatus obj condition_unknown _ _ ready r
  checked-ReadyStatus obj ready (ok true) r = overridden-ReadyStatus obj condition_true _ _ ready r
  checked-ReadyStatus obj ready (ok false) r =
      overridden-ReadyStatus obj condition_false _ _ ready r

  with_statuses-ReadyStatus :
      (h : History) (c : Collected) (wait : ℕ)
      → (with_statuses api status_api platform now h c).result ≡ ok wait
      → (c.failed ≡ none)
        × ((with_statuses api status_api platform now h c).history ≡ h)
        × ReadyStatus (with_statuses api status_api platform now h c).konflux.status (
            status_of (
              not (cert_manager_missing (platform.has_cert_manager h))
              && all (λ s. s.ready) c.statuses))
  unfolding handle
  with_statuses-ReadyStatus h c wait r = elim (Option-cases c.failed) [
    | inr (e, p) ↦ absurd (ground (arith, p, r))
    | inl p ↦
        let a = set_aggregated_ready_condition_lem status_api law now c.konflux.status c.statuses in
        let ready : ReadyStatus
            (set_aggregated_ready_condition status_api now c.konflux.status c.statuses)
            (status_of (all (λ s. s.ready) c.statuses)) =
          record { condition = a.condition; found = a.found; same = a.status } in
        (
          p,
          rw (p) refl,
          rw (p) (
              checked-ReadyStatus
                (set_aggregated_ready_condition status_api now c.konflux.status c.statuses)
                (all (λ s. s.ready) c.statuses) (platform.has_cert_manager h) ready),
        )
  ]

  after_cleanup-ReadyStatus :
      (k : Konflux) (swept : State) (wait : ℕ)
      → (after_cleanup api status_api platform now k swept).result ≡ ok wait
      → (swept.first_error ≡ none)
        × ((after_cleanup api status_api platform now k swept).history ≡ swept.history)
        × ReadyStatus (after_cleanup api status_api platform now k swept).konflux.status (
            status_of (
              not (cert_manager_missing (platform.has_cert_manager swept.history))
              && all (is_ready swept.history) (status_order k.spec)))
  unfolding handle
  after_cleanup-ReadyStatus k swept wait r = elim (Option-cases swept.first_error) [
    | inr (e, p) ↦ absurd (ground (arith, p, r))
    | inl p ↦
        let w =
          with_statuses-ReadyStatus swept.history
            (collected (status_order k.spec) swept.history k []) wait (rw (p) at r) in
        (
          p,
          rw (p) w.1,
          rw (p) (
              subst
                (λ b.
                  ReadyStatus
                    (with_statuses api status_api platform now swept.history
                      (collected (status_order k.spec) swept.history k [])).konflux.status
                    (status_of
                      (not (cert_manager_missing (platform.has_cert_manager swept.history)) && b)))
                (all-collect (status_order k.spec) swept.history k [] w.0) w.2),
        )
  ]

  -- If a reconcile of the Konflux resource returns without an error, then its Ready condition is
  -- found, and it is True exactly if every sub-resource of the spec can be read and is itself Ready, and
  -- cert-manager is not known to be missing; otherwise it is False.
  pub reconcile_konflux_ready :
      (k : Konflux) (h : History) (schedule : List ℕ) (wait : ℕ)
      → (reconcile_konflux api status_api platform now k h schedule).result ≡ ok wait
      → let o = reconcile_konflux api status_api platform now k h schedule in
        ReadyStatus o.konflux.status (
          status_of (
            not (cert_manager_missing (platform.has_cert_manager o.history))
            && all (is_ready o.history) (status_order k.spec)))
  unfolding reconcile_konflux handle
  reconcile_konflux_ready k h schedule wait r =
      let applied =
        apply_sub_crs api status_api platform now (apply_order k.spec) (start_session k h) in
      elim (Option-cases applied.0) [
        | inr (e, p) ↦ absurd (ground (arith, p, r))
        | inl p ↦
            let w =
              after_cleanup-ReadyStatus k
                (swept_by api status_api platform now k applied.1 schedule) wait (rw (p) at r) in
            rw (p) (rw (w.1) w.2)
      ]

  handle-ReadyStatus :
      (k : Konflux) (h : History) (e : Error) (reason operation : String)
      → ReadyStatus
          (handle api status_api platform now k h e reason operation).konflux.status
          condition_false
  unfolding handle set_failed_condition
  handle-ReadyStatus k h e reason operation = record {
    condition = _;
    found =
        (set_condition_lem status_api law now k.status
          (new_condition type_ready condition_false reason ((operation & ": ") & e.message))).0;
    same = refl;
  }

  -- How a reconcile that failed with this error may stand.
  abbrev pub Explained : Error → Outcome → Type 0
  Explained e o =
      (o.written ≡ o.konflux ∷ [])
      × (ReadyStatus o.konflux.status condition_false
          ⊎ (platform.update_status o.history o.konflux.status ≡ some e))

  handle-Explained :
      (k : Konflux) (h : History) (x e : Error) (reason operation : String)
      → Explained e (handle api status_api platform now k h x reason operation)
  unfolding handle
  handle-Explained k h x e reason operation =
      (refl, inl (handle-ReadyStatus k h x reason operation))

  with_statuses-Explained :
      (h : History) (c : Collected) (e : Error)
      → (with_statuses api status_api platform now h c).result ≡ err e
      → Explained e (with_statuses api status_api platform now h c)
  with_statuses-Explained h c e r = elim (Option-cases c.failed) [
    | inr ((x, operation), p) ↦
        rw (p) (handle-Explained c.konflux h x e "SubCRStatusFailed" operation)
    | inl p ↦ rw (p) (refl, inr (ground (arith, p, r)))
  ]

  after_cleanup-Explained :
      (k : Konflux) (swept : State) (e : Error)
      → (after_cleanup api status_api platform now k swept).result ≡ err e
      → Explained e (after_cleanup api status_api platform now k swept)
  after_cleanup-Explained k swept e r = elim (Option-cases swept.first_error) [
    | inr (x, p) ↦
        rw (p) (handle-Explained k swept.history x e "CleanupFailed" "cleanup orphaned resources")
    | inl p ↦ rw (p) (
        with_statuses-Explained swept.history (collected (status_order k.spec) swept.history k []) e
          (rw (p) at r))
  ]

  -- If a reconcile of the Konflux resource returns an error, then exactly one status update was asked for,
  -- with the resource as it then stands, and in it Ready is False, or the error is that of this update.
  pub reconcile_konflux_failed :
      (k : Konflux) (h : History) (schedule : List ℕ) (e : Error)
      → (reconcile_konflux api status_api platform now k h schedule).result ≡ err e
      → Explained e (reconcile_konflux api status_api platform now k h schedule)
  unfolding reconcile_konflux
  reconcile_konflux_failed k h schedule e r =
      let applied =
        apply_sub_crs api status_api platform now (apply_order k.spec) (start_session k h) in
      elim (Option-cases applied.0) [
        | inr ((x, operation), p) ↦
            rw (p) (handle-Explained k applied.1.history x e "ApplyFailed" operation)
        | inl p ↦ rw (p) (
            after_cleanup-Explained k (swept_by api status_api platform now k applied.1 schedule) e
              (rw (p) at r))
      ]
