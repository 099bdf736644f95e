-- ===== src/Scrape/Resync.antt =====
-- operator/pkg/kubernetes/servicemonitor_resync.go, and planServiceMonitorResync of
-- operator/internal/common/scrape_token.go: nudging the ServiceMonitor by its annotations.
use konflux_ci.Prelude.{
  ℕ, ◌+◌, ◌-◌, ◌*◌, String, Bool, true, false, ◌&&◌, not, Option, none, some, Dict, at, insert,
  remove, ◌==◌, string_eq, ltb, if◌then◌else◌,
}
use konflux_ci.Scrape.Token.{second, Clock, EnsureResult}

abbrev pub resync_annotation : String
resync_annotation = "konflux.konflux-ci.dev/metrics-scrape-resync"

abbrev pub reason_annotation : String
reason_annotation = "konflux.konflux-ci.dev/metrics-scrape-resync-reason"

abbrev pub secret_rv_annotation : String
secret_rv_annotation = "konflux.konflux-ci.dev/metrics-scrape-resync-secret-rv"

abbrev pub ca_rv_annotation : String
ca_rv_annotation = "konflux.konflux-ci.dev/metrics-scrape-resync-ca-rv"

abbrev pub settle_annotation : String
settle_annotation = "konflux.konflux-ci.dev/metrics-scrape-resync-settle"

abbrev pub settle_delay : ℕ
settle_delay = 15 * second

-- ServiceMonitorResyncOptions
pub record ResyncOptions : Type 0 where
  pub force : Bool
  pub reason : String
  pub secret_resource_version : String
  pub ca_resource_version : String
  pub mark_settle_pending : Bool
  pub clear_settle_pending : Bool

abbrev pub no_resync : ResyncOptions
no_resync = record {
  force = false;
  reason = "";
  secret_resource_version = "";
  ca_resource_version = "";
  mark_settle_pending = false;
  clear_settle_pending = false;
}

-- A ServiceMonitor is read by its annotations alone; `none` is a nil object.
abbrev pub has_resync_annotation : Dict String → Bool
has_resync_annotation a = not (at resync_annotation a == "")

unfoldable pub settle_pending : Option (Dict String) → Bool
settle_pending none = false
settle_pending (some a) = not (at settle_annotation a == "")

unfoldable pub resync_secret_rv : Option (Dict String) → String
resync_secret_rv none = ""
resync_secret_rv (some a) = at secret_rv_annotation a

unfoldable pub resync_ca_rv : Option (Dict String) → String
resync_ca_rv none = ""
resync_ca_rv (some a) = at ca_rv_annotation a

-- `if value != "" { annotations[key] = value }`
abbrev pub insert_nonempty : String → String → Dict String → Dict String
insert_nonempty key value a = if value == "" then a else insert key value a

module _ (clock : Clock) where
  open clock use {format, parse}

  -- `deadline.Sub(now)` where the deadline lies ahead.
  abbrev pub until : ℕ → Option ℕ → ℕ
  until now none = 0
  until now (some deadline) = if ltb now deadline then deadline - now else 0

  unfoldable pub settle_remaining : Option (Dict String) → ℕ → ℕ
  unfolding settle_pending
  settle_remaining sm now = if not (settle_pending sm) then 0 else elim sm [
    | none ↦ 0
    | some a ↦
        let value = at settle_annotation a in
        if value == "" then 0 else if value == "pending" then 0 else until now (parse value)
  ]

  abbrev pub nudged : ResyncOptions → ℕ → Dict String → Dict String
  nudged opts now a = insert_nonempty ca_rv_annotation opts.ca_resource_version (
      insert_nonempty secret_rv_annotation opts.secret_resource_version
        (insert_nonempty reason_annotation opts.reason (insert resync_annotation (format now) a)))

  -- The annotations that ResyncOperandServiceMonitor writes; the clock shows `now` at its first
  -- reading and `marked` at the one for the settle deadline.
  unfoldable pub resync_annotations : ResyncOptions → ℕ → ℕ → Dict String → Dict String
  resync_annotations opts now marked a =
      let a1 = nudged opts now a in
      let a2 =
        if opts.mark_settle_pending
        then insert settle_annotation (format (marked + settle_delay)) a1
        else a1 in
      if opts.clear_settle_pending then remove settle_annotation a2 else a2

  -- planServiceMonitorResync, from the token's result, the CA's resource version, and the
  -- ServiceMonitor as it was before it was applied, `none` if there was none.
  unfoldable pub plan_service_monitor_resync :
      EnsureResult → String → Option (Dict String) → ℕ → ResyncOptions × ℕ
  plan_service_monitor_resync token ca_rv prior now =
      let secret_rv = token.resource_version in
      let forced = record no_resync {
        force = true;
        secret_resource_version = secret_rv;
        ca_resource_version = ca_rv;
      } in
      if token.token_updated
      then (
        record forced {
          reason = if token.secret_existed then "token-refreshed" else "token-minted";
          mark_settle_pending = true;
        },
        0,
      )
      else if settle_pending prior
      then (if ltb 0 (settle_remaining prior now)
          then (no_resync, settle_remaining prior now)
          else (record forced { reason = "settle-retry"; clear_settle_pending = true }, 0))
      else if not (secret_rv == "") && not (secret_rv == resync_secret_rv prior)
      then (record forced { reason = "secret-sync" }, 0)
      else if not (ca_rv == "") && not (ca_rv == resync_ca_rv prior)
      then (record forced { reason = "ca-sync" }, 0)
      else (no_resync, 0)
