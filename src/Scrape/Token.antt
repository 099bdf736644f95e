-- ===== src/Scrape/Token.antt =====
-- operator/pkg/kubernetes/scrape_token.go: the Secret with the scrape token.
-- Times are nanoseconds since an epoch before any of them; durations are nanoseconds. RFC 3339 text
-- is written and read by the functions of `Clock`. What the code calls (the API server, the token
-- endpoint, the apply function) answers through `Env`, from the calls made before.
use konflux_ci.Prelude.{
  ℕ, ◌+◌, ◌-◌, ◌*◌, ◌/◌, String, Bool, true, List, [], ◌&&◌, Option, none, some, Dict, at, Result,
  ok, err, errorf, ◌==◌, string_eq, ◌&◌, ltb, leb, if◌then◌else◌,
}

abbrev pub second : ℕ
second = 1_000_000_000

abbrev pub minute : ℕ
minute = 60 * second

abbrev pub default_ttl : ℕ
default_ttl = 60 * minute

abbrev pub default_min_requeue : ℕ
default_min_requeue = minute

abbrev pub default_rotation_interval : ℕ
default_rotation_interval = 15 * minute

-- time.Duration(float64(ttl) * DefaultScrapeTokenRefreshRemaining), the remaining share being 0.5:
-- exact for a lifetime below 2 ^ 53 nanoseconds, which is more than a hundred days.
abbrev pub refresh_remaining : ℕ → ℕ
refresh_remaining ttl = ttl / 2

-- time.Time.Format and time.Parse at RFC 3339.
pub record Clock : Type 0 where
  pub format : ℕ → String
  pub parse : String → Option ℕ

abbrev pub expires_at_annotation : String
expires_at_annotation = "konflux.konflux-ci.dev/scrape-token-expires-at"

abbrev pub token_key : String
token_key = "token"

abbrev pub secret_name : String
secret_name = "prometheus-scrape-token"

-- The fields of corev1.Secret that are read or written; data values are texts.
pub record Secret : Type 0 where
  pub api_version : String
  pub kind : String
  pub namespace : String
  pub name : String
  pub resource_version : String
  pub uid : String
  pub generation : ℕ
  pub creation_timestamp : ℕ
  pub managed_fields : List String
  pub owner_references : List String
  pub annotations : Dict String
  pub contents : Dict String

pub record NamespacedName : Type 0 where
  pub namespace : String
  pub name : String

-- EnsureScrapeTokenResult
pub record EnsureResult : Type 0 where
  pub requeue_after : ℕ
  pub token_updated : Bool
  pub secret_existed : Bool
  pub token : String
  pub resource_version : String

-- EnsureScrapeTokenInput, less the functions of `Env`; `has_apply` and `has_token_creator` say that
-- those are set, and a lifetime of 0 stands for one that is not positive.
pub record EnsureInput : Type 0 where
  pub has_apply : Bool
  pub has_token_creator : Bool
  pub scraper : NamespacedName
  pub operand_namespace : String
  pub ttl : ℕ

-- ensureSecretTypeMeta
unfoldable pub ensure_secret_type_meta : Secret → Secret
ensure_secret_type_meta s =
    if s.api_version == "" && s.kind == ""
    then record s { api_version = "v1"; kind = "Secret" }
    else s

-- prepareSecretForApply
unfoldable pub prepare_secret_for_apply : Secret → Secret
unfolding ensure_secret_type_meta
prepare_secret_for_apply s = ensure_secret_type_meta (record s {
  resource_version = "";
  uid = "";
  generation = 0;
  creation_timestamp = 0;
  managed_fields = [];
  owner_references = [];
})

module _ (clock : Clock) where
  open clock use {format, parse}

  unfoldable pub scrape_token_expiry : Option Secret → Option ℕ
  scrape_token_expiry none = none
  scrape_token_expiry (some s) =
      let raw = at expires_at_annotation s.annotations in if raw == "" then none else parse raw

  -- `expiresAt.Sub(now)` is not positive exactly if `expires ≤ now`.
  unfoldable pub scrape_token_needs_refresh : Option Secret → ℕ → ℕ → Bool
  scrape_token_needs_refresh none now ttl = true
  scrape_token_needs_refresh (some s) now ttl =
      if at token_key s.contents == "" then true else elim (scrape_token_expiry (some s)) [
        | none ↦ true
        | some expires ↦
            if leb expires now then true else leb (expires - now) (refresh_remaining ttl)
      ]

  -- The wait until `expiresAt - share`, which may lie in the past: it is below the least wait
  -- exactly if `expires < now + least + share`.
  unfoldable pub scrape_token_requeue_after : Option Secret → ℕ → ℕ → ℕ
  scrape_token_requeue_after s now ttl = elim (scrape_token_expiry s) [
    | none ↦ default_min_requeue
    | some expires ↦
        if ltb expires (now + default_min_requeue + refresh_remaining ttl)
        then default_min_requeue
        else expires - refresh_remaining ttl - now
  ]

  -- scrapeTokenResultFromSecret
  unfoldable pub result_from_secret : Secret → Bool → Bool → ℕ → ℕ → Result EnsureResult
  result_from_secret s existed updated now ttl =
      if at token_key s.contents == ""
      then err (
          errorf (
            "scrape token secret " & s.namespace & "/" & secret_name & " has empty "
            & "\"token\" after ensure"))
      else ok (record {
        requeue_after = scrape_token_requeue_after (some s) now ttl;
        token_updated = updated;
        secret_existed = existed;
        token = at token_key s.contents;
        resource_version = s.resource_version;
      })
