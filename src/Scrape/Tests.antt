-- ===== src/Scrape/Tests.antt =====
-- The theorems on the scrape token at a clock that writes a time as a letter for each second.
use Prim.Native.Char.{code}
use konflux_ci.Prelude.{
  ℕ, zero, suc, ◌+◌, ◌-◌, ◌*◌, ◌/◌, ◌≤◌, ◌<◌, String, true, false, [], ◌∷◌, ◌≡◌, refl, ap, Option,
  none, some, ok, ◌==◌, string_eq, nat_eq, if◌then◌else◌, arith, lookup,
}
use konflux_ci.Scrape.Resources.{
  MetricsObject, cluster_role, is_component_metrics_scrape_resource, object_gvk,
}
use konflux_ci.Overrides.Cuts.{ends_with}
use konflux_ci.Scrape.Token.{
  second, minute, Clock, Secret, NamespacedName, EnsureInput, EnsureResult, secret_name,
  expires_at_annotation, scrape_token_expiry, scrape_token_needs_refresh,
  scrape_token_requeue_after, result_from_secret,
}
use konflux_ci.Scrape.Resync.{plan_service_monitor_resync, resync_annotations, no_resync}
use konflux_ci.Scrape.Ensure.{Env, ensure_prometheus_scrape_token}
use konflux_ci.Scrape.Reconcile.{Config, validate_config, reconcile_prometheus_scrape_token}
use konflux_ci.Scrape.Freshness.{refresh_in_time}
use konflux_ci.Scrape.Settle.{IsClock, deadline, EndsSettle, settle_waits, settle_retries}
use konflux_ci.Scrape.Minting.{mints, stale, is_found, ensure_mints}
use konflux_ci.Scrape.Order.{applies, once, should_apply, reconcile_applies}

unfoldable letters : ℕ → String
letters zero = ""
letters (suc n) = String.◌∷◌ "x" (letters n)

unfoldable count : String → ℕ
count String.[] = 0
count (String.◌∷◌ c s) = suc (count s)

count-letters : (n : ℕ) → count (letters n) ≡ n
unfolding count letters
count-letters zero = refl
count-letters (suc n) = ap suc (count-letters n)

unfoldable read_letters : String → Option ℕ
read_letters String.[] = none
read_letters (String.◌∷◌ c s) = if code c == b't' then some (count s * second) else none

abbrev letter_clock : Clock
letter_clock = record { format = λ t. String.◌∷◌ "t" (letters (t / second)); parse = read_letters }

letter_clock-IsClock : IsClock letter_clock
unfolding read_letters
letter_clock-IsClock = record {
  parse-format = λ t. ap (λ n. some (n * second)) (count-letters (t / second));
  parse_empty = refl;
  parse_pending = refl;
}

abbrev stored_secret : ℕ → Secret
stored_secret expires = record {
  api_version = "v1";
  kind = "Secret";
  namespace = "ui";
  name = secret_name;
  resource_version = "5";
  uid = "";
  generation = 0;
  creation_timestamp = 0;
  managed_fields = [];
  owner_references = [];
  annotations = (expires_at_annotation, letter_clock.format expires) ∷ [];
  contents = ("token", "abc") ∷ ("ca.crt", "ca") ∷ ("tls.crt", "leaf") ∷ [];
}

refresh_in_time_example :
    let s = stored_secret (900 * second) in
    let next =
      10 * second + scrape_token_requeue_after letter_clock (some s) (10 * second) (4 * minute) in
    (expires : ℕ) × (scrape_token_expiry letter_clock (some s) ≡ some expires)
    × (next < expires)
    × (scrape_token_needs_refresh letter_clock (some s) next (4 * minute) ≡ true)
    × (10 * second + minute ≤ next)
unfolding scrape_token_needs_refresh scrape_token_expiry read_letters letters count lookup
refresh_in_time_example =
    refresh_in_time letter_clock (stored_secret (900 * second)) (10 * second) (4 * minute)
      (ground arith) refl

abbrev minted_token : EnsureResult
minted_token = record {
  requeue_after = minute;
  token_updated = true;
  secret_existed = false;
  token = "abc";
  resource_version = "5";
}

abbrev kept_token : EnsureResult
kept_token = record minted_token { token_updated = false; secret_existed = true }

settle_waits_example :
    let opts = (plan_service_monitor_resync letter_clock minted_token "8" none second).0 in
    plan_service_monitor_resync letter_clock kept_token "9"
      (some (resync_annotations letter_clock opts second (2 * second) []))
      (4 * second)
    ≡ (no_resync, deadline letter_clock letter_clock-IsClock (2 * second) - 4 * second)
settle_waits_example =
    settle_waits letter_clock letter_clock-IsClock minted_token "8" none second second (2 * second)
      [] refl kept_token "9" (4 * second) refl (ground arith)

settle_retries_example :
    let opts = (plan_service_monitor_resync letter_clock minted_token "8" none second).0 in
    let marked_annotations = resync_annotations letter_clock opts second (2 * second) [] in
    EndsSettle letter_clock letter_clock-IsClock kept_token "9"
      (20 * second)
      (20 * second)
      (30 * second)
      marked_annotations
      (plan_service_monitor_resync letter_clock kept_token "9"
        (some marked_annotations)
        (19 * second))
settle_retries_example =
    settle_retries letter_clock letter_clock-IsClock minted_token "8" none second second
      (2 * second) [] refl kept_token "9" (19 * second) refl (ground arith) (20 * second)
      (20 * second) (30 * second)

-- Every Secret is there, and the ServiceMonitor too; the clock shows ten seconds.
abbrev quiet_env : Env
quiet_env = record {
  now = λ log. 10 * second;
  now_again = λ log. 10 * second;
  get_secret = λ log r namespace name. ok (stored_secret (900 * second));
  create_scraper_token = λ log sa ttl. ok ("new", 900 * second);
  apply = λ log s. ok s;
  get_service_monitor = λ log r namespace name. ok [];
  apply_service_monitor = λ log. ok tt;
  patch_service_monitor = λ log a. ok tt;
  verify_cert = λ leaf ca. none;
}

abbrev scraper_account : NamespacedName
scraper_account = record { namespace = "ui"; name = "scraper" }

abbrev quiet_input : EnsureInput
quiet_input = record {
  has_apply = true;
  has_token_creator = true;
  scraper = scraper_account;
  operand_namespace = "ui";
  ttl = 4 * minute;
}

abbrev quiet_config : Config
quiet_config = record {
  has_token_creator = true;
  scraper = scraper_account;
  operand_namespace = "ui";
  service_monitor_name = "proxy";
  has_apply = true;
  has_apply_service_monitor = true;
  has_secret_reader = false;
}

reconcile_applies_example :
    applies (reconcile_prometheus_scrape_token letter_clock quiet_env quiet_config []).1
    ≡ once (should_apply letter_clock quiet_env quiet_config []) + applies []
unfolding validate_config
reconcile_applies_example = reconcile_applies letter_clock quiet_env quiet_config [] refl

abbrev quiet_result : EnsureResult
quiet_result = record {
  requeue_after = 770 * second;
  token_updated = false;
  secret_existed = true;
  token = "abc";
  resource_version = "5";
}

ensure_mints_example :
    (mints (ensure_prometheus_scrape_token letter_clock quiet_env quiet_input []).1
      ≡ once (
          stale letter_clock quiet_env
            (ok (stored_secret (900 * second)))
            (10 * second)
            (4 * minute))
        + mints [])
    × (false
        ≡ stale letter_clock quiet_env
            (ok (stored_secret (900 * second)))
            (10 * second)
            (4 * minute))
    × (true ≡ is_found (ok (stored_secret (900 * second))))
    × ((quiet_result.token == "") ≡ false)
unfolding ensure_prometheus_scrape_token scrape_token_needs_refresh scrape_token_expiry
    scrape_token_requeue_after result_from_secret read_letters letters count lookup
ensure_mints_example = ensure_mints letter_clock quiet_env quiet_input [] quiet_result refl

abbrev reader_role : MetricsObject
reader_role = record {
  gvk = record { group = ""; version = ""; kind = "" };
  name = "build-service-metrics-reader";
  go_type = cluster_role;
}

reader_role_test : is_component_metrics_scrape_resource (some reader_role) ≡ true
unfolding is_component_metrics_scrape_resource object_gvk ends_with
reader_role_test = refl
