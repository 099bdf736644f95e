-- ===== src/Scrape/Reconcile.antt =====
-- operator/pkg/kubernetes/metrics_tls.go and operator/internal/common/scrape_token.go: the whole of
-- ReconcilePrometheusScrapeToken. The client is taken to be set, as it is by every caller.
use konflux_ci.Prelude.{
  is_no_match, is_not_found, ℕ, ◌*◌, String, Bool, true, false, not, ◌∷◌, Option, none, some, Dict,
  at, ErrorKind, Error, errorf, wrap, Result, ok, err, ◌&◌, ◌==◌, string_eq, ltb, if◌then◌else◌,
  ◌||◌, ◌&&◌,
}
use konflux_ci.Prelude.Exec.{Exec, pure, fail, ◌>>=◌}
use konflux_ci.Scrape.Token.{second, Clock, Secret, NamespacedName, EnsureInput, EnsureResult}
use konflux_ci.Scrape.Ensure.{
  Reader, client_reader, uncached_reader, get_secret_call, get_service_monitor_call,
  apply_service_monitor_call, patch_service_monitor_call, Calls, Env,
  ensure_prometheus_scrape_token,
}
use konflux_ci.Scrape.Resync.{
  ResyncOptions, has_resync_annotation, settle_delay, resync_annotations,
  plan_service_monitor_resync,
}

abbrev pub metrics_tls_requeue : ℕ
metrics_tls_requeue = 15 * second

abbrev pub cert_missing : String
cert_missing = "metrics-server-cert-missing"

-- MetricsScrapeTLSResult; `renew_requested` is never set.
pub record MetricsTlsResult : Type 0 where
  pub ready : Bool
  pub ca_resource_version : String
  pub leaf_resource_version : String
  pub reason : String

-- ScrapeTokenReconcilerConfig, less the functions of `Env`; the Booleans say what is set.
pub record Config : Type 0 where
  pub has_token_creator : Bool
  pub scraper : NamespacedName
  pub operand_namespace : String
  pub service_monitor_name : String
  pub has_apply : Bool
  pub has_apply_service_monitor : Bool
  pub has_secret_reader : Bool

-- %q of a name, which has nothing to escape
abbrev pub quoted : String → String
quoted s = "\"" & s & "\""

abbrev pub is_absent : ErrorKind → Bool
is_absent ErrorKind.not_found = true
is_absent ErrorKind.no_match = true
is_absent _ = false

abbrev pub reader_of : Config → Reader
reader_of cfg = if cfg.has_secret_reader then uncached_reader else client_reader

abbrev pub tls_result : Bool → String → String → MetricsTlsResult
tls_result ready rv reason = record {
  ready = ready;
  ca_resource_version = rv;
  leaf_resource_version = rv;
  reason = reason;
}

abbrev pub ensure_input : Config → EnsureInput
ensure_input cfg = record {
  has_apply = cfg.has_apply;
  has_token_creator = cfg.has_token_creator;
  scraper = cfg.scraper;
  operand_namespace = cfg.operand_namespace;
  ttl = 0;
}

-- validateScrapeTokenReconcilerConfig
unfoldable pub validate_config : Config → Option Error
validate_config cfg =
    if not cfg.has_token_creator
    then some (errorf "token creator is required")
    else if cfg.operand_namespace == ""
    then some (errorf "operand namespace is required")
    else if cfg.scraper.namespace == "" || cfg.scraper.name == ""
    then some (errorf "scraper service account is required")
    else none

module _ (clock : Clock) (env : Env) where
  -- What EvaluateMetricsScrapeTLS makes of the Secret that it read.
  unfoldable pub tls_of_secret : Result Secret → Result MetricsTlsResult
  tls_of_secret (err e) =
      if is_not_found e.kind
      then ok (tls_result false "" cert_missing)
      else err (wrap "get metrics TLS secret: " e)
  tls_of_secret (ok s) =
      let rv = s.resource_version in
      let ca = at "ca.crt" s.contents in
      let leaf = at "tls.crt" s.contents in
      if ca == ""
      then ok (tls_result false rv "metrics-ca-empty")
      else if leaf == ""
      then ok (tls_result false rv "metrics-server-cert-empty")
      else elim (env.verify_cert leaf ca) [
        | some e ↦ ok (tls_result false rv "leaf-ca-mismatch")
        | none ↦ ok (tls_result true rv "")
      ]

  unfoldable pub evaluate_metrics_scrape_tls : Reader → String → Exec Calls MetricsTlsResult
  unfolding tls_of_secret
  evaluate_metrics_scrape_tls reader namespace log =
      if namespace == "" then fail (errorf "namespace is required") log else (
        tls_of_secret (env.get_secret log reader namespace "metrics-server-cert"),
        get_secret_call reader namespace "metrics-server-cert" ∷ log,
      )

  -- ResyncOperandServiceMonitor
  abbrev pub patched : String → Result (Unit {0}) → Result (Unit {0})
  patched where_ (ok u) = ok u
  patched where_ (err e) =
      if is_no_match e.kind then ok tt else err (wrap ("patch ServiceMonitor " & where_ & ": ") e)

  abbrev pub nudge : String → ResyncOptions → Result (Dict String) → Exec Calls (Unit {0})
  nudge where_ opts (err e) log =
      if is_absent e.kind
      then pure tt log
      else fail (wrap ("get ServiceMonitor " & where_ & ": ") e) log
  nudge where_ opts (ok a) log =
      if not opts.force && (not opts.mark_settle_pending && has_resync_annotation a)
      then pure tt log
      else let a' = resync_annotations clock opts (env.now log) (env.now_again log) a in
        (patched where_ (env.patch_service_monitor log a'), patch_service_monitor_call a' ∷ log)

  unfoldable pub resync_operand_service_monitor :
      String → String → ResyncOptions → Exec Calls (Unit {0})
  resync_operand_service_monitor namespace name opts log =
      if namespace == "" || name == ""
      then fail (errorf "serviceMonitor namespace and name are required") log
      else nudge (namespace & "/" & name) opts
          (env.get_service_monitor log client_reader namespace name)
          (get_service_monitor_call client_reader namespace name ∷ log)

  -- retainOperandServiceMonitorIfPresent
  abbrev pub applied : String → Exec Calls (Unit {0})
  applied prefix log = (
    elim (env.apply_service_monitor log) [ ok u ↦ ok u | err e ↦ err (wrap prefix e) ],
    apply_service_monitor_call ∷ log,
  )

  abbrev pub retain_probed : Config → Result (Dict String) → Exec Calls (Unit {0})
  retain_probed cfg (ok a) =
      applied ("retain ServiceMonitor " & quoted cfg.service_monitor_name & " during TLS wait: ")
  retain_probed cfg (err e) =
      if is_absent e.kind
      then pure tt
      else fail (
          wrap
            ("probe ServiceMonitor " & quoted cfg.service_monitor_name & " for TLS-wait retain: ")
            e)

  unfoldable pub retain_service_monitor_if_present : Config → Exec Calls (Unit {0})
  retain_service_monitor_if_present cfg log =
      if not cfg.has_apply_service_monitor || cfg.service_monitor_name == ""
      then pure tt log
      else retain_probed cfg
          (env.get_service_monitor log (reader_of cfg) cfg.operand_namespace
            cfg.service_monitor_name)
          (get_service_monitor_call (reader_of cfg) cfg.operand_namespace cfg.service_monitor_name
            ∷ log)

  -- DeferredSMApplyResult: the annotations before the apply, if the object was found.
  abbrev pub prior_of : Result (Dict String) → Option (Dict String)
  prior_of (ok a) = some a
  prior_of (err e) = none

  -- applyOrProbeOperandServiceMonitor; any failure of the probe is passed over.
  unfoldable pub apply_or_probe_service_monitor : Config → Exec Calls (Option (Dict String))
  apply_or_probe_service_monitor cfg log =
      let prior = prior_of (
        env.get_service_monitor log client_reader cfg.operand_namespace cfg.service_monitor_name) in
      let log' =
        get_service_monitor_call client_reader cfg.operand_namespace cfg.service_monitor_name
        ∷ log in
      if not cfg.has_apply_service_monitor
      then (ok prior, log')
      else (applied ("apply ServiceMonitor " & quoted cfg.service_monitor_name & ": ") >>= λ _.
            pure prior)
          log'

  -- The nudge that the plan asks for; the answer is the settle wait.
  abbrev pub wrapped_nudge : Config → Result (Unit {0}) → Result (Unit {0})
  wrapped_nudge cfg (ok u) = ok u
  wrapped_nudge cfg (err e) =
      err (wrap ("resync servicemonitor " & quoted cfg.service_monitor_name & ": ") e)

  abbrev pub resynced : Config → ResyncOptions → Exec Calls (Unit {0})
  resynced cfg opts log =
      if opts.force || opts.mark_settle_pending
      then (let (r, log') =
            resync_operand_service_monitor cfg.operand_namespace cfg.service_monitor_name opts
              log in
          (wrapped_nudge cfg r, log'))
      else (ok tt, log)

  abbrev pub requeue_after : EnsureResult → ℕ → ℕ
  requeue_after token wait =
      if token.token_updated then settle_delay else if ltb 0 wait then wait else token.requeue_after

  abbrev pub finish : Config → EnsureResult → MetricsTlsResult → Option (Dict String) → Exec Calls ℕ
  finish cfg token tls prior log =
      let (opts, wait) =
        plan_service_monitor_resync clock token tls.ca_resource_version prior (env.now log) in
      (resynced cfg opts >>= λ _. pure (requeue_after token wait)) log

  -- Waiting for the certificate: the ServiceMonitor is retained unless the Secret is absent.
  abbrev pub wait_for_tls : Config → MetricsTlsResult → Exec Calls ℕ
  wait_for_tls cfg tls =
      if tls.reason == cert_missing
      then pure metrics_tls_requeue
      else (retain_service_monitor_if_present cfg >>= λ _. pure metrics_tls_requeue)

  abbrev pub tls_evaluated : Config → Exec Calls MetricsTlsResult
  tls_evaluated cfg log =
      let (r, log') = evaluate_metrics_scrape_tls (reader_of cfg) cfg.operand_namespace log in
      (elim r [ ok t ↦ ok t | err e ↦ err (wrap "reconcile metrics scrape TLS: " e) ], log')

  abbrev pub monitored : Config → EnsureResult → MetricsTlsResult → Exec Calls ℕ
  monitored cfg token tls =
      if not tls.ready
      then wait_for_tls cfg tls
      else (apply_or_probe_service_monitor cfg >>= λ prior. finish cfg token tls prior)

  abbrev pub with_token : Config → EnsureResult → Exec Calls ℕ
  with_token cfg token =
      if cfg.service_monitor_name == ""
      then pure token.requeue_after
      else (tls_evaluated cfg >>= λ tls. monitored cfg token tls)

  -- ReconcilePrometheusScrapeToken: the wait until the next reconcile.
  unfoldable pub reconcile_prometheus_scrape_token : Config → Exec Calls ℕ
  reconcile_prometheus_scrape_token cfg log = elim (validate_config cfg) [
    | some e ↦ fail e log
    | none ↦
        (ensure_prometheus_scrape_token clock env (ensure_input cfg) >>= λ token.
        with_token cfg token)
          log
  ]
