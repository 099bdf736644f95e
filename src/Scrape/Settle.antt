-- ===== src/Scrape/Settle.antt =====
-- How planServiceMonitorResync and ResyncOperandServiceMonitor carry a nudge through to its settle
-- retry (operator/internal/common/scrape_token.go, operator/pkg/kubernetes/servicemonitor_resync.go).
use konflux_ci.Prelude.{
  ℕ, ◌+◌, ◌-◌, ◌*◌, ◌/◌, ◌≤◌, ◌<◌, String, true, false, ◌≡◌, refl, sym, subst, ap, ◌∙◌, Option,
  none, some, Dict, at, at-insert_same, at-insert_other, at-remove_same, at-remove_other, ◌==◌,
  string_eq, ltb, if◌then◌else◌, arith, inl, inr, Bool-cases, beq_refl, beq_of_ne,
}
use konflux_ci.Scrape.Token.{second, Clock, EnsureResult}
use konflux_ci.Scrape.Resync.{
  secret_rv_annotation, ca_rv_annotation, settle_annotation, settle_delay, ResyncOptions, no_resync,
  settle_pending, resync_secret_rv, resync_ca_rv, insert_nonempty, nudged, settle_remaining,
  resync_annotations, plan_service_monitor_resync,
}

-- RFC 3339 keeps whole seconds, and neither the empty text nor "pending" is a time.
pub record IsClock (clock : Clock) : Type 0 where
  pub parse-format : (t : ℕ) → clock.parse (clock.format t) ≡ some (t / second * second)
  pub parse_empty : clock.parse "" ≡ none
  pub parse_pending : clock.parse "pending" ≡ none

at-insert_nonempty_other :
    (k j v : String) (m : Dict String) → (k == j) ≡ false → at j (insert_nonempty k v m) ≡ at j m
at-insert_nonempty_other k j v m h = elim (Bool-cases (v == "")) [
  | inl e ↦ rw (e) refl
  | inr e ↦ rw (e) (at-insert_other k j v m h)
]

at-insert_nonempty_same :
    (k v : String) (m : Dict String) → (v == "") ≡ false → at k (insert_nonempty k v m) ≡ v
at-insert_nonempty_same k v m h = rw (h) (at-insert_same k v m)

module _ (clock : Clock) (law : IsClock clock) where
  open clock use {format, parse}

  -- A deadline that was marked, as it is read again.
  abbrev pub deadline : ℕ → ℕ
  deadline marked = (marked + settle_delay) / second * second

  format-nonempty : (t : ℕ) → (format t == "") ≡ false
  format-nonempty t =
      beq_of_ne {a = format t} {b = ""} (λ e. cc (ap parse e, law.parse-format t, law.parse_empty))

  format-not_pending : (t : ℕ) → (format t == "pending") ≡ false
  format-not_pending t =
      beq_of_ne {a = format t} {b = "pending"}
        (λ e. cc (ap parse e, law.parse-format t, law.parse_pending))

  nudged-ca :
      (opts : ResyncOptions) (now : ℕ) (a : Dict String)
      → (opts.ca_resource_version == "") ≡ false
      → at ca_rv_annotation (nudged clock opts now a) ≡ opts.ca_resource_version
  nudged-ca opts now a h = at-insert_nonempty_same ca_rv_annotation opts.ca_resource_version _ h

  nudged-secret :
      (opts : ResyncOptions) (now : ℕ) (a : Dict String)
      → (opts.secret_resource_version == "") ≡ false
      → at secret_rv_annotation (nudged clock opts now a) ≡ opts.secret_resource_version
  nudged-secret opts now a h =
      at-insert_nonempty_other ca_rv_annotation secret_rv_annotation opts.ca_resource_version _ refl
      ∙ at-insert_nonempty_same secret_rv_annotation opts.secret_resource_version _ h

  abbrev pub settle_retry : EnsureResult → String → ResyncOptions
  settle_retry token ca = record no_resync {
    force = true;
    secret_resource_version = token.resource_version;
    ca_resource_version = ca;
    reason = "settle-retry";
    clear_settle_pending = true;
  }

  -- What the plan makes of a ServiceMonitor whose settle deadline is marked.
  plan_pending :
      (token : EnsureResult) (ca : String) (a : Dict String) (marked now : ℕ)
      → token.token_updated ≡ false
      → at settle_annotation a ≡ format (marked + settle_delay)
      → plan_service_monitor_resync clock token ca (some a) now ≡ (
          if ltb now (deadline marked)
          then (no_resync, deadline marked - now)
          else (settle_retry token ca, 0))
  unfolding plan_service_monitor_resync settle_pending settle_remaining
  plan_pending token ca a marked now u e = ground (
    arith,
    u,
    e,
    format-nonempty (marked + settle_delay),
    format-not_pending (marked + settle_delay),
    law.parse-format (marked + settle_delay),
  )

  -- The annotations after the nudge of an updated token.
  marked-settle :
      (updated : EnsureResult) (ca : String) (prior : Option (Dict String)) (planned now marked : ℕ)
      (a : Dict String)
      → updated.token_updated ≡ true
      → at settle_annotation (
          resync_annotations clock
            (plan_service_monitor_resync clock updated ca prior planned).0
            now
            marked
            a)
        ≡ format (marked + settle_delay)
  unfolding plan_service_monitor_resync resync_annotations
  marked-settle updated ca prior planned now marked a u =
      rw (u, plan_service_monitor_resync)
        (at-insert_same settle_annotation (format (marked + settle_delay)) _)

  -- Once a token update has nudged the ServiceMonitor, a later reconcile whose token is
  -- not updated and whose clock is before the marked deadline sends no nudge, whatever the resource
  -- versions of the Secrets, and asks to be run again exactly at the deadline.
  pub settle_waits :
      (updated : EnsureResult) (ca : String) (prior : Option (Dict String)) (planned now marked : ℕ)
      (a : Dict String)
      → updated.token_updated ≡ true
      → (token : EnsureResult) (ca' : String) (later : ℕ) → token.token_updated ≡ false
      → later < deadline marked
      → let opts = (plan_service_monitor_resync clock updated ca prior planned).0 in
        plan_service_monitor_resync clock token ca'
          (some (resync_annotations clock opts now marked a))
          later
        ≡ (no_resync, deadline marked - later)
  settle_waits updated ca prior planned now marked a u token ca' later u' early =
      let before : ltb later (deadline marked) ≡ true = ground arith in
      plan_pending token ca' _ marked later u'
        (marked-settle updated ca prior planned now marked a u)
      ∙ rw (before) refl

  -- A plan whose nudge ends the protocol.
  abbrev pub EndsSettle :
      EnsureResult → String → ℕ → ℕ → ℕ → Dict String → ResyncOptions × ℕ → Type 0
  EndsSettle token ca now marked after a (retry, wait) =
      let a' = resync_annotations clock retry now marked a in
      (retry.force ≡ true)
      × (retry.reason ≡ "settle-retry")
      × (wait ≡ 0)
      × (settle_pending (some a') ≡ false)
      × (plan_service_monitor_resync clock token ca (some a') after ≡ (no_resync, 0))

  retried-settle :
      (token : EnsureResult) (ca : String) (now marked : ℕ) (a : Dict String)
      → at settle_annotation (resync_annotations clock (settle_retry token ca) now marked a) ≡ ""
  unfolding resync_annotations
  retried-settle token ca now marked a = at-remove_same settle_annotation _

  retried-ca :
      (token : EnsureResult) (ca : String) (now marked : ℕ) (a : Dict String)
      → (ca == "") ≡ false
      → at ca_rv_annotation (resync_annotations clock (settle_retry token ca) now marked a) ≡ ca
  unfolding resync_annotations
  retried-ca token ca now marked a h =
      at-remove_other settle_annotation ca_rv_annotation _ refl
      ∙ nudged-ca (settle_retry token ca) now a h

  retried-secret :
      (token : EnsureResult) (ca : String) (now marked : ℕ) (a : Dict String)
      → (token.resource_version == "") ≡ false
      → at secret_rv_annotation (resync_annotations clock (settle_retry token ca) now marked a)
        ≡ token.resource_version
  unfolding resync_annotations
  retried-secret token ca now marked a h =
      at-remove_other settle_annotation secret_rv_annotation _ refl
      ∙ nudged-secret (settle_retry token ca) now a h

  plan_settled :
      (token : EnsureResult) (ca : String) (a : Dict String) (after : ℕ)
      → token.token_updated ≡ false
      → at settle_annotation a ≡ ""
      → ((token.resource_version == "") ≡ false
          → at secret_rv_annotation a ≡ token.resource_version)
      → ((ca == "") ≡ false → at ca_rv_annotation a ≡ ca)
      → plan_service_monitor_resync clock token ca (some a) after ≡ (no_resync, 0)
  unfolding plan_service_monitor_resync settle_pending resync_secret_rv resync_ca_rv
  plan_settled token ca a after u e s c =
      let rv = token.resource_version in
      let clear : (at settle_annotation a == "") ≡ true = ap (λ t. t == "") e in
      elim (Bool-cases (rv == "")) [
        | inl p ↦ elim (Bool-cases (ca == "")) [
          | inl q ↦ ground (arith, u, clear, p, q)
          | inr q ↦
              let same : (ca == at ca_rv_annotation a) ≡ true =
                ap (λ t. ca == t) (c q) ∙ beq_refl ca in
              ground (arith, u, clear, p, q, same)
        ]
        | inr p ↦
            let kept : (rv == at secret_rv_annotation a) ≡ true =
              ap (λ t. rv == t) (s p) ∙ beq_refl rv in
            elim (Bool-cases (ca == "")) [
              | inl q ↦ ground (arith, u, clear, p, q, kept)
              | inr q ↦
                  let same : (ca == at ca_rv_annotation a) ≡ true =
                    ap (λ t. ca == t) (c q) ∙ beq_refl ca in
                  ground (arith, u, clear, p, q, kept, same)
            ]
      ]

  settle_retry-EndsSettle :
      (token : EnsureResult) (ca : String) (now marked after : ℕ) (a : Dict String)
      → token.token_updated ≡ false
      → EndsSettle token ca now marked after a (settle_retry token ca, 0)
  unfolding settle_pending
  settle_retry-EndsSettle token ca now marked after a u =
      let cleared = retried-settle token ca now marked a in
      (
        refl,
        refl,
        refl,
        rw (cleared) refl,
        plan_settled token ca _ after u cleared (retried-secret token ca now marked a)
            (retried-ca token ca now marked a),
      )

  -- Once a token update has nudged the ServiceMonitor, a reconcile at or after the marked deadline whose
  -- token is not updated forces the settle retry, at once, and what the retry writes ends the
  -- protocol: no settle is pending, and a reconcile with the same resource versions plans nothing more.
  pub settle_retries :
      (updated : EnsureResult) (ca : String) (prior : Option (Dict String)) (planned now marked : ℕ)
      (a : Dict String)
      → updated.token_updated ≡ true
      → (token : EnsureResult) (ca' : String) (later : ℕ) → token.token_updated ≡ false
      → deadline marked ≤ later
      → (now' marked' after : ℕ)
      → let opts = (plan_service_monitor_resync clock updated ca prior planned).0 in
        let marked_annotations = resync_annotations clock opts now marked a in
        EndsSettle token ca' now' marked' after marked_annotations
          (plan_service_monitor_resync clock token ca' (some marked_annotations) later)
  settle_retries updated ca prior planned now marked a u token ca' later u' late now' marked'
        after =
      let opts = (plan_service_monitor_resync clock updated ca prior planned).0 in
      let a1 = resync_annotations clock opts now marked a in
      let due : ltb later (deadline marked) ≡ false = ground arith in
      let plan : plan_service_monitor_resync clock token ca' (some a1) later
          ≡ (settle_retry token ca', 0) =
        plan_pending token ca' a1 marked later u'
          (marked-settle updated ca prior planned now marked a u)
        ∙ rw (due) refl in
      subst (EndsSettle token ca' now' marked' after a1) (sym plan)
        (settle_retry-EndsSettle token ca' now' marked' after a1 u')
