-- ===== src/Scrape/Ensure.antt =====
-- operator/pkg/kubernetes/scrape_token.go, EnsurePrometheusScrapeToken: the Secret with the token is
-- kept, or minted and applied. What the code calls answers through `Env`, and each answer may depend
-- on all the calls made before.
use konflux_ci.Prelude.{
  is_not_found, ℕ, String, Bool, true, false, not, List, [], ◌∷◌, Option, some, Dict, Error, errorf,
  wrap, Result, ok, err, ◌&◌, ◌==◌, string_eq, nat_eq, if◌then◌else◌, ◌||◌,
}
use konflux_ci.Prelude.Exec.{Exec, fail, ◌>>=◌}
use konflux_ci.Scrape.Token.{
  Clock, Secret, NamespacedName, EnsureInput, EnsureResult, default_ttl, expires_at_annotation,
  token_key, secret_name, scrape_token_needs_refresh, prepare_secret_for_apply, result_from_secret,
}

-- Where an object is read: the manager's client, or the uncached reader.
pub data Reader : Type 0 where
  client_reader uncached_reader : Reader

pub data Call : Type 0 where
  get_secret_call : Reader → String → String → Call
  create_token_call : NamespacedName → ℕ → Call
  apply_secret_call : Secret → Call
  get_service_monitor_call : Reader → String → String → Call
  apply_service_monitor_call : Call
  patch_service_monitor_call : Dict String → Call

-- The calls made so far, the last one first.
abbrev pub Calls : Type 0
Calls = List Call

-- `apply` answers with the Secret as the call leaves it; a ServiceMonitor is its annotations.
pub record Env : Type 0 where
  pub now : Calls → ℕ
  -- a second reading of the clock with no call between
  pub now_again : Calls → ℕ
  pub get_secret : Calls → Reader → String → String → Result Secret
  pub create_scraper_token : Calls → NamespacedName → ℕ → Result (String × ℕ)
  pub apply : Calls → Secret → Result Secret
  pub get_service_monitor : Calls → Reader → String → String → Result (Dict String)
  pub apply_service_monitor : Calls → Result (Unit {0})
  pub patch_service_monitor : Calls → Dict String → Result (Unit {0})
  -- VerifyCertPEMSignedByCA, which asks crypto/x509
  pub verify_cert : String → String → Option Error

abbrev pub wrap_err : String → Result Secret → Result Secret
wrap_err prefix (ok s) = ok s
wrap_err prefix (err e) = err (wrap prefix e)

-- The Secret that is minted.
abbrev pub new_secret : Clock → String → String → ℕ → Secret
new_secret clock namespace token expires = record {
  api_version = "v1";
  kind = "Secret";
  namespace = namespace;
  name = secret_name;
  resource_version = "";
  uid = "";
  generation = 0;
  creation_timestamp = 0;
  managed_fields = [];
  owner_references = [];
  annotations = (expires_at_annotation, clock.format expires) ∷ [];
  contents = (token_key, token) ∷ [];
}

module _ (clock : Clock) (env : Env) where
  abbrev pub apply_secret : String → Secret → Exec Calls Secret
  apply_secret prefix s log = (wrap_err prefix (env.apply log s), apply_secret_call s ∷ log)

  abbrev pub created : EnsureInput → Result (String × ℕ) → Exec Calls Secret
  created input (ok (token, expires)) =
      apply_secret "apply scrape token secret: "
        (new_secret clock input.operand_namespace token expires)
  created input (err e) = fail (
      wrap ("create scraper token for " & input.scraper.namespace & "/" & input.scraper.name & ": ")
        e)

  -- CreateScraperToken and the apply of the Secret with the new token.
  abbrev pub mint : EnsureInput → ℕ → Exec Calls Secret
  mint input ttl log =
      created input (env.create_scraper_token log input.scraper ttl)
        (create_token_call input.scraper ttl ∷ log)

  abbrev pub answer : Secret → Bool → Bool → ℕ → ℕ → Exec Calls EnsureResult
  answer s existed updated now ttl log = (result_from_secret clock s existed updated now ttl, log)

  abbrev pub ensured : EnsureInput → ℕ → ℕ → Result Secret → Exec Calls EnsureResult
  ensured input now ttl (ok existing) =
      if scrape_token_needs_refresh clock (some existing) now ttl
      then (mint input ttl >>= λ s. answer s true true now ttl)
      else apply_secret "track scrape token secret: " (prepare_secret_for_apply existing) >>= λ _.
          answer existing true false now ttl
  ensured input now ttl (err e) =
      if is_not_found e.kind
      then (mint input ttl >>= λ s. answer s false true now ttl)
      else fail (wrap "get scrape token secret: " e)

  abbrev pub lifetime : ℕ → ℕ
  lifetime ttl = if ttl == 0 then default_ttl else ttl

  unfoldable pub ensure_prometheus_scrape_token : EnsureInput → Exec Calls EnsureResult
  ensure_prometheus_scrape_token input log =
      if not input.has_apply
      then fail (errorf "scrape token apply func is required") log
      else if not input.has_token_creator
      then fail (errorf "token creator is required") log
      else if input.operand_namespace == ""
      then fail (errorf "operand namespace is required") log
      else if input.scraper.namespace == "" || input.scraper.name == ""
      then fail (errorf "scraper service account is required") log
      else ensured input (env.now log) (lifetime input.ttl)
          (env.get_secret log client_reader input.operand_namespace secret_name)
          (get_secret_call client_reader input.operand_namespace secret_name ∷ log)
