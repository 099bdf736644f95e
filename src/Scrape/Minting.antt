-- ===== src/Scrape/Minting.antt =====
-- When EnsurePrometheusScrapeToken mints a token, and what it answers.
use konflux_ci.Prelude.{
  ℕ, suc, ◌+◌, Bool, true, false, [], ◌∷◌, ◌≡◌, some, Result, ok, err, ◌==◌, string_eq,
  if◌then◌else◌, arith,
}
use konflux_ci.Scrape.Token.{
  Clock, Secret, EnsureInput, EnsureResult, secret_name, scrape_token_needs_refresh,
  result_from_secret,
}
use konflux_ci.Scrape.Ensure.{
  Call, create_token_call, client_reader, Calls, Env, lifetime, ensure_prometheus_scrape_token,
}
use konflux_ci.Scrape.Order.{once}

abbrev is_create : Call → Bool
is_create (create_token_call sa ttl) = true
is_create _ = false

-- How many tokens were asked for.
unfoldable pub mints : Calls → ℕ
mints [] = 0
mints (c ∷ log) = let n = mints log in if is_create c then suc n else n

abbrev pub is_found : Result Secret → Bool
is_found (ok s) = true
is_found (err e) = false

module _ (clock : Clock) (env : Env) where
  -- The token that is stored does not do: there is none, or it is to be refreshed.
  abbrev pub stale : Result Secret → ℕ → ℕ → Bool
  stale (ok s) now ttl = scrape_token_needs_refresh clock (some s) now ttl
  stale (err e) now ttl = true

  -- If EnsurePrometheusScrapeToken answers at all, a token was asked for exactly once if the
  -- stored one is missing or to be refreshed, and not otherwise; the answer says so, it says
  -- whether the Secret was there, and its token is not empty.
  pub ensure_mints :
      (input : EnsureInput) (log : Calls) (r : EnsureResult)
      → (ensure_prometheus_scrape_token clock env input log).0 ≡ ok r
      → let stored = env.get_secret log client_reader input.operand_namespace secret_name in
        let must = stale stored (env.now log) (lifetime clock env input.ttl) in
        (mints (ensure_prometheus_scrape_token clock env input log).1 ≡ once must + mints log)
        × (r.token_updated ≡ must)
        × (r.secret_existed ≡ is_found stored)
        × ((r.token == "") ≡ false)
  unfolding ensure_prometheus_scrape_token mints result_from_secret
  ensure_mints input log r h = ground arith
