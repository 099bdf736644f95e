-- ===== src/Scrape/Order.antt =====
-- When ReconcilePrometheusScrapeToken applies the ServiceMonitor.
use konflux_ci.Prelude.{
  ℕ, suc, ◌+◌, String, Bool, true, false, not, [], ◌∷◌, ◌≡◌, refl, ap, ◌∙◌, Option, none, Dict,
  Result, ok, err, ◌==◌, string_eq, if◌then◌else◌, ◌||◌, ◌&&◌, arith, inl, inr, Bool-cases,
  Result-cases,
}
use konflux_ci.Prelude.Exec.{Exec, pure, continue, ◌>>=◌}
use konflux_ci.Scrape.Token.{Clock, EnsureInput, EnsureResult}
use konflux_ci.Scrape.Ensure.{
  Call, apply_service_monitor_call, Calls, Env, ensure_prometheus_scrape_token,
}
use konflux_ci.Scrape.Resync.{plan_service_monitor_resync, ResyncOptions}
use konflux_ci.Scrape.Reconcile.{
  Config, metrics_tls_requeue, MetricsTlsResult, cert_missing, reader_of, ensure_input,
  validate_config, evaluate_metrics_scrape_tls, retain_service_monitor_if_present,
  apply_or_probe_service_monitor, resync_operand_service_monitor, reconcile_prometheus_scrape_token,
  with_token, finish, monitored, tls_evaluated,
}

abbrev is_apply : Call → Bool
is_apply apply_service_monitor_call = true
is_apply _ = false

-- How often the ServiceMonitor was applied.
unfoldable pub applies : Calls → ℕ
applies [] = 0
applies (c ∷ log) = let n = applies log in if is_apply c then suc n else n

-- A Boolean as a count.
abbrev pub once : Bool → ℕ
once true = 1
once false = 0

module _ (clock : Clock) (env : Env) where
  -- A continuation that applies nothing leaves the count as it is.
  bind-Adds :
      {A B : Type 0} (m : Exec Calls A) (f : A → Exec Calls B) (log : Calls)
      → ((a : A) (l : Calls) → applies (f a l).1 ≡ applies l)
      → applies ((m >>= f) log).1 ≡ applies (m log).1
  bind-Adds m f log h = elim (Result-cases (m log).0) [
    | inl (a, e) ↦ ap (λ r. applies (continue r f (m log).1).1) e ∙ h a (m log).1
    | inr (x, e) ↦ ap (λ r. applies (continue r f (m log).1).1) e
  ]

  ensure-Adds :
      (input : EnsureInput) (log : Calls)
      → applies (ensure_prometheus_scrape_token clock env input log).1 ≡ applies log
  unfolding applies ensure_prometheus_scrape_token
  ensure-Adds input log = ground arith

  resync-Adds :
      (ns name : String) (opts : ResyncOptions) (log : Calls)
      → applies (resync_operand_service_monitor clock env ns name opts log).1 ≡ applies log
  unfolding applies resync_operand_service_monitor
  resync-Adds ns name opts log = ground arith

  tls-Adds :
      (cfg : Config) (log : Calls) → applies (tls_evaluated clock env cfg log).1 ≡ applies log
  unfolding applies evaluate_metrics_scrape_tls
  tls-Adds cfg log = ground arith

  finish-Adds :
      (cfg : Config) (token : EnsureResult) (tls : MetricsTlsResult) (prior : Option (Dict String))
      (log : Calls)
      → applies (finish clock env cfg token tls prior log).1 ≡ applies log
  finish-Adds cfg token tls prior log =
      let opts =
        (plan_service_monitor_resync clock token tls.ca_resource_version prior (env.now log)).0 in
      ground (arith, resync-Adds cfg.operand_namespace cfg.service_monitor_name opts log)

  -- Does a read find the ServiceMonitor?
  abbrev found : Result (Dict String) → Bool
  found (ok a) = true
  found (err e) = false

  -- When the certificate is usable, every reconcile applies the ServiceMonitor; while it is not, only
  -- one that is there, and none while the Secret is absent.
  abbrev pub tls_allows : Config → Result MetricsTlsResult → Calls → Bool
  tls_allows cfg (err e) log = false
  tls_allows cfg (ok tls) log =
      tls.ready
      || (not (tls.reason == cert_missing)
          && found (
              env.get_service_monitor log (reader_of cfg) cfg.operand_namespace
                cfg.service_monitor_name))

  abbrev pub token_allows : Config → Result EnsureResult → Calls → Bool
  token_allows cfg (err e) log = false
  token_allows cfg (ok token) log =
      let (tls, log') =
        evaluate_metrics_scrape_tls clock env (reader_of cfg) cfg.operand_namespace log in
      not (cfg.service_monitor_name == "")
      && (cfg.has_apply_service_monitor && tls_allows cfg tls log')

  -- Whether a reconcile that starts after `log` is to apply the ServiceMonitor: from the
  -- configuration, the answer of EnsurePrometheusScrapeToken and the state of the certificate.
  abbrev pub should_apply : Config → Calls → Bool
  should_apply cfg log =
      let (token, log') = ensure_prometheus_scrape_token clock env (ensure_input cfg) log in
      token_allows cfg token log'

  retain-Adds :
      (cfg : Config) (log : Calls)
      → applies (retain_service_monitor_if_present clock env cfg log).1
        ≡ once (
            cfg.has_apply_service_monitor
            && (not (cfg.service_monitor_name == "")
                && found (
                    env.get_service_monitor log
                      (reader_of cfg)
                      cfg.operand_namespace
                      cfg.service_monitor_name)))
          + applies log
  unfolding applies retain_service_monitor_if_present
  retain-Adds cfg log = ground arith

  apply-Adds :
      (cfg : Config) (log : Calls)
      → applies (apply_or_probe_service_monitor clock env cfg log).1
        ≡ once cfg.has_apply_service_monitor + applies log
  unfolding applies apply_or_probe_service_monitor
  apply-Adds cfg log = ground arith

  monitored-Adds :
      (cfg : Config) (token : EnsureResult) (tls : MetricsTlsResult) (log : Calls)
      → (cfg.service_monitor_name == "") ≡ false
      → applies (monitored clock env cfg token tls log).1
        ≡ once (cfg.has_apply_service_monitor && tls_allows cfg (ok tls) log) + applies log
  monitored-Adds cfg token tls log h = elim (Bool-cases tls.ready) [
    | inl e ↦
        let b =
          bind-Adds (apply_or_probe_service_monitor clock env cfg)
            (λ prior. finish clock env cfg token tls prior) log
            (λ prior l. finish-Adds cfg token tls prior l) in
        ground (arith, e, b, apply-Adds cfg log)
    | inr e ↦
        let b =
          bind-Adds (retain_service_monitor_if_present clock env cfg)
            (λ _. pure metrics_tls_requeue) log (λ _ l. refl) in
        ground (arith, e, h, b, retain-Adds cfg log)
  ]

  with_token-Adds :
      (cfg : Config) (token : EnsureResult) (log : Calls)
      → applies (with_token clock env cfg token log).1
        ≡ once (token_allows cfg (ok token) log) + applies log
  with_token-Adds cfg token log = elim (Bool-cases (cfg.service_monitor_name == "")) [
    | inl e ↦ ground (arith, e)
    | inr h ↦
        elim (Result-cases
          (evaluate_metrics_scrape_tls clock env (reader_of cfg) cfg.operand_namespace log).0) [
            | inl (tls, e) ↦ ground (
              arith,
              h,
              e,
              tls-Adds cfg log,
              monitored-Adds cfg token tls
                  (evaluate_metrics_scrape_tls clock env (reader_of cfg) cfg.operand_namespace
                    log).1
                  h,
            )
            | inr (x, e) ↦ ground (arith, h, e, tls-Adds cfg log)
          ]
  ]

  -- A reconcile with a valid configuration applies the ServiceMonitor exactly once if the token
  -- was ensured, a ServiceMonitor with an apply function is configured, and the certificate verifies
  -- or, its Secret being there, the ServiceMonitor is already found; and otherwise never.
  pub reconcile_applies :
      (cfg : Config) (log : Calls)
      → validate_config cfg ≡ none
      → applies (reconcile_prometheus_scrape_token clock env cfg log).1
        ≡ once (should_apply cfg log) + applies log
  unfolding reconcile_prometheus_scrape_token
  reconcile_applies cfg log v =
      let (token, log') = ensure_prometheus_scrape_token clock env (ensure_input cfg) log in
      elim (Result-cases (ensure_prometheus_scrape_token clock env (ensure_input cfg) log).0) [
        | inl (t, e) ↦ ground (
          arith,
          v,
          e,
          ensure-Adds (ensure_input cfg) log,
          with_token-Adds cfg t (ensure_prometheus_scrape_token clock env (ensure_input cfg) log).1,
        )
        | inr (x, e) ↦ ground (arith, v, e, ensure-Adds (ensure_input cfg) log)
      ]
