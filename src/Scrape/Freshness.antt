-- ===== src/Scrape/Freshness.antt =====
-- operator/pkg/kubernetes/scrape_token.go: when a token is refreshed, and that this is in time.
use konflux_ci.Prelude.{
  ℕ, ◌+◌, ◌-◌, ◌*◌, ◌≤◌, ◌<◌, true, false, ◌≡◌, some, at, ◌==◌, string_eq, ltb, if◌then◌else◌,
  arith, inl, inr, Option-cases, ◌↔◌,
}
use konflux_ci.Scrape.Token.{
  minute, default_min_requeue, refresh_remaining, Clock, token_key, Secret, scrape_token_expiry,
  scrape_token_needs_refresh, scrape_token_requeue_after,
}

module _ (clock : Clock) (s : Secret) where
  -- A Secret with a token whose expiry can be read needs no refresh exactly while more than
  -- the share of the lifetime is left.
  fresh_iff :
      (expires now ttl : ℕ)
      → (at token_key s.contents == "") ≡ false
      → scrape_token_expiry clock (some s) ≡ some expires
      → (scrape_token_needs_refresh clock (some s) now ttl ≡ false)
        ↔ (now + refresh_remaining ttl < expires)
  unfolding scrape_token_needs_refresh
  fresh_iff expires now ttl t e = ((λ h. ground arith), (λ h. ground arith))

  -- What freshness rests on.
  fresh_has_expiry :
      (now ttl : ℕ)
      → scrape_token_needs_refresh clock (some s) now ttl ≡ false
      → ((at token_key s.contents == "") ≡ false)
        × (expires : ℕ) × (scrape_token_expiry clock (some s) ≡ some expires)
  unfolding scrape_token_needs_refresh
  fresh_has_expiry now ttl h = elim (Option-cases (scrape_token_expiry clock (some s))) [
    | inl e ↦ absurd (ground arith)
    | inr (expires, e) ↦ (ground arith, expires, e)
  ]

  needs_refresh_after :
      (expires now ttl : ℕ)
      → (at token_key s.contents == "") ≡ false
      → scrape_token_expiry clock (some s) ≡ some expires
      → expires ≤ now + refresh_remaining ttl
      → scrape_token_needs_refresh clock (some s) now ttl ≡ true
  unfolding scrape_token_needs_refresh
  needs_refresh_after expires now ttl t e h = ground arith

  requeue_cases :
      (expires now ttl : ℕ)
      → scrape_token_expiry clock (some s) ≡ some expires
      → scrape_token_requeue_after clock (some s) now ttl ≡ (
          if ltb expires (now + default_min_requeue + refresh_remaining ttl)
          then default_min_requeue
          else expires - refresh_remaining ttl - now)
  unfolding scrape_token_requeue_after
  requeue_cases expires now ttl e = rw (e, scrape_token_requeue_after)

  -- A token found fresh is looked at again in time: with a lifetime of at least two minutes, at the
  -- moment that ScrapeTokenRequeueAfter names the token has not expired and then it does need a
  -- refresh; and that moment is at least a minute away.
  pub refresh_in_time :
      (now ttl : ℕ)
      → 2 * minute ≤ ttl
      → scrape_token_needs_refresh clock (some s) now ttl ≡ false
      → let next = now + scrape_token_requeue_after clock (some s) now ttl in
        (expires : ℕ) × (scrape_token_expiry clock (some s) ≡ some expires)
        × (next < expires)
        × (scrape_token_needs_refresh clock (some s) next ttl ≡ true)
        × (now + minute ≤ next)
  refresh_in_time now ttl long h =
      let (t, expires, e) = fresh_has_expiry now ttl h in
      let left = (fresh_iff expires now ttl t e).0 h in
      let r = requeue_cases expires now ttl e in
      (expires, e, ground arith, needs_refresh_after expires _ ttl t e (ground arith), ground arith)
