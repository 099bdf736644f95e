-- ===== src/Konflux/Reconcile.antt =====
-- operator/internal/controller/konflux/konflux_controller.go, Reconcile and
-- checkCertManagerAvailability, and operator/internal/condition/reconcile_error.go. The goroutines of
-- the orphan cleanup run under the given schedule.
use konflux_ci.Prelude.{
  is_not_found, ℕ, String, Bool, true, false, List, [], ◌∷◌, ◌++◌, Option, none, some, Error,
  Result, ok, err, wrap, ◌&◌, ◌==◌, string_eq, if◌then◌else◌,
}
use konflux_ci.Cluster.{History, Api}
use konflux_ci.Tracking.Defs.{Session, apply_owned}
use konflux_ci.Tracking.Cleanup.{State, cleanup_orphans}
use konflux_ci.Condition.Defs.{
  condition_true, condition_false, condition_unknown, new_condition, Accessor, StatusApi,
  type_ready, SubCrStatus, set_condition, set_failed_condition, set_aggregated_ready_condition,
  copy_sub_cr_status, override_ready_if_dependency_false,
}
use konflux_ci.Konflux.Defs.{
  SubCr, apply_order, status_order, sub_cr_object, konflux_cleanup_gvks, cert_manager_available,
  Konflux, Platform, Outcome, Collected, job_of, start_session, cert_manager_override,
}

module _ (api : Api) (status_api : StatusApi) (platform : Platform) (now : ℕ) where
  abbrev failed_konflux : Konflux → Error → String → String → Konflux
  failed_konflux k e reason operation = record k {
    status =
        set_failed_condition status_api now k.status type_ready reason (wrap (operation & ": ") e);
  }

  -- Handle of ReconcileErrorHandler: the failed condition is set and the status is updated; that the
  -- update fails is only logged, so that its answer is not looked at.
  unfoldable pub handle : Konflux → History → Error → String → String → Outcome
  handle k h e reason operation = record {
    history = h;
    konflux = failed_konflux k e reason operation;
    written = failed_konflux k e reason operation ∷ [];
    result = err e;
  }

  -- The applies in turn, up to the first that fails.
  unfoldable pub apply_sub_crs : List SubCr → Session → Option (Error × String) × Session
  apply_sub_crs [] s = (none, s)
  apply_sub_crs (c ∷ cs) s =
      let (r, s') = apply_owned api (sub_cr_object c) s in
      let rest = apply_sub_crs cs (apply_owned api (sub_cr_object c) s).1 in
      elim r [ ok _ ↦ rest | err e ↦ (some (e, "apply " & c.kind), s') ]

  -- Only the KonfluxUI has an ingress URL, which is copied beside its conditions.
  abbrev pub url_after : SubCr → History → String → String
  url_after c h url =
      if c.kind == "KonfluxUI"
      then elim (platform.ui_ingress_url h) [ none ↦ url | some u ↦ u ]
      else url

  abbrev pub copied : SubCr → History → Konflux → Accessor → Konflux
  copied c h k sub = record k {
    status = (copy_sub_cr_status status_api now k.status sub c.prefix).0;
    ui_url = url_after c h k.ui_url;
  }

  -- The statuses in turn, up to the first that cannot be read.
  unfoldable pub collect : List SubCr → History → Konflux → List SubCrStatus → Collected
  collect [] h k statuses = record { konflux = k; statuses = statuses; failed = none }
  collect (c ∷ cs) h k statuses = elim (platform.get_sub_cr h c) [
    | err e ↦ record {
      konflux = k;
      statuses = statuses;
      failed = some (e, "get " & c.kind & " status");
    }
    | ok sub ↦
        collect cs h (copied c h k sub)
          (statuses ++ (copy_sub_cr_status status_api now k.status sub c.prefix).1 ∷ [])
  ]

  -- The condition of checkCertManagerAvailability, and the wait in seconds.
  abbrev pub report_cert_manager : Result Bool → Accessor → Accessor × ℕ
  report_cert_manager (err e) obj = (
    set_condition status_api now obj (
        new_condition cert_manager_available condition_unknown "CertManagerInstallationCheckFailed"
          ("Failed to check cert-manager availability: " & e.message)),
    30,
  )
  report_cert_manager (ok false) obj = (
    set_condition status_api now obj (
        new_condition cert_manager_available condition_false "CertManagerNotInstalled" (
          "cert-manager CRDs are not installed. Several Konflux components require cert-manager to "
          & "create Certificate resources for TLS. Please install cert-manager before proceeding.")),
    60,
  )
  report_cert_manager (ok true) obj = (
    set_condition status_api now obj (
        new_condition cert_manager_available condition_true "CertManagerInstalled"
          "cert-manager CRDs are installed"),
    0,
  )

  unfoldable pub check_cert_manager_availability : Result Bool → Accessor → Accessor × ℕ
  check_cert_manager_availability answer obj =
      let (reported, wait) = report_cert_manager answer obj in
      (override_ready_if_dependency_false status_api now reported cert_manager_override, wait)

  -- From the statuses to the status update.
  abbrev pub with_statuses : History → Collected → Outcome
  with_statuses h c = elim c.failed [
    | some (e, operation) ↦ handle c.konflux h e "SubCRStatusFailed" operation
    | none ↦
        let aggregated =
          set_aggregated_ready_condition status_api now c.konflux.status c.statuses in
        let (status, wait) =
          check_cert_manager_availability (platform.has_cert_manager h) aggregated in
        record {
          history = h;
          konflux = record c.konflux { status = status };
          written = record c.konflux { status = status } ∷ [];
          result = elim (platform.update_status h status) [ none ↦ ok wait | some e ↦ err e ];
        }
  ]

  abbrev pub after_cleanup : Konflux → State → Outcome
  after_cleanup k swept = elim swept.first_error [
    | some e ↦ handle k swept.history e "CleanupFailed" "cleanup orphaned resources"
    | none ↦ with_statuses swept.history (collect (status_order k.spec) swept.history k [])
  ]

  abbrev pub swept_by : Konflux → Session → List ℕ → State
  swept_by k s schedule = cleanup_orphans api (job_of k s) konflux_cleanup_gvks s.history schedule

  abbrev pub after_apply : Konflux → List ℕ → Option (Error × String) → Session → Outcome
  after_apply k schedule (some (e, operation)) s = handle k s.history e "ApplyFailed" operation
  after_apply k schedule none s = after_cleanup k (swept_by k s schedule)

  -- Reconcile, from the resource that was read.
  unfoldable pub reconcile_konflux : Konflux → History → List ℕ → Outcome
  reconcile_konflux k h schedule =
      let (failed, s) = apply_sub_crs (apply_order k.spec) (start_session k h) in
      after_apply k schedule failed s

  -- Reconcile, from the answer to its Get call; no resource means that there is nothing to do.
  unfoldable pub reconcile : Result Konflux → History → List ℕ → Option Konflux × Result ℕ
  unfolding reconcile_konflux
  reconcile (ok k) h schedule = let o = reconcile_konflux k h schedule in (some o.konflux, o.result)
  reconcile (err e) h schedule = (none, if is_not_found e.kind then ok 0 else err e)
