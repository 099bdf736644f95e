-- ===== src/Oauth2Proxy.antt =====
-- operator/pkg/oauth2proxy/config.go: the options of the oauth2-proxy container, and how KonfluxUI puts them
-- together in buildOAuth2ProxyOptions. JoinPath and String of net/url are a parameter.
use konflux_ci.Prelude.{
  String, Bool, true, false, List, [], ◌∷◌, ◌++◌, ◌≡◌, refl, Option, none, some, if◌then◌else◌,
}
use konflux_ci.ClusterInfo.{Info, is_open_shift}
use konflux_ci.Customization.Keyed.{HasDistinctKeys, HasDistinctKeys-of_test, find_key}
use konflux_ci.Customization.Container.{
  EnvVar, env_var, name_of, ContainerOption, DeploymentContext, with_env, with_volume_mounts,
  apply_options, new_container_overlay,
}
use konflux_ci.Ingress.Hosts.{Url, https}
use konflux_ci.Ingress.Defs.{deref}

-- The mount of a volume to a directory, read only; a mount is passed on as a text.
abbrev ca_bundle_mount : String
ca_bundle_mount = "ca-bundle:/etc/ssl/certs:ro"

abbrev dex_internal_url : Url
dex_internal_url = https "dex.konflux-ui.svc.cluster.local:9443"

unfoldable pub with_provider : ContainerOption
with_provider = with_env (
    env_var "OAUTH2_PROXY_PROVIDER" "oidc"
    ∷ env_var "OAUTH2_PROXY_PROVIDER_DISPLAY_NAME" "Dex OIDC"
    ∷ env_var "OAUTH2_PROXY_CLIENT_ID" "oauth2-proxy"
    ∷ env_var "OAUTH2_PROXY_HTTP_ADDRESS" "127.0.0.1:6000"
    ∷ env_var "OAUTH2_PROXY_SKIP_PROVIDER_BUTTON" "true"
    ∷ env_var "OAUTH2_PROXY_PROMPT" "login"
    ∷ [])

unfoldable pub with_cookie_config : ContainerOption
with_cookie_config = with_env (
    env_var "OAUTH2_PROXY_COOKIE_SECURE" "true"
    ∷ env_var "OAUTH2_PROXY_COOKIE_NAME" "__Host-konflux-ci-cookie"
    ∷ [])

unfoldable pub with_auth_settings : ContainerOption
with_auth_settings = with_env (
    env_var "OAUTH2_PROXY_EMAIL_DOMAINS" "*"
    ∷ env_var "OAUTH2_PROXY_SET_XAUTHREQUEST" "true"
    ∷ env_var "OAUTH2_PROXY_SKIP_JWT_BEARER_TOKENS" "true"
    ∷ env_var "OAUTH2_PROXY_SCOPE" "openid email profile groups"
    ∷ [])

unfoldable pub with_ca_bundle : ContainerOption
with_ca_bundle c ctx =
    with_env (env_var "OAUTH2_PROXY_PROVIDER_CA_FILES" "/etc/ssl/certs/ca-bundle.crt" ∷ [])
      (with_volume_mounts (ca_bundle_mount ∷ []) c ctx) ctx

unfoldable pub with_allow_unverified_email : ContainerOption
with_allow_unverified_email =
    with_env (env_var "OAUTH2_PROXY_INSECURE_OIDC_ALLOW_UNVERIFIED_EMAIL" "true" ∷ [])

unfoldable pub with_whitelist_domain : Url → ContainerOption
with_whitelist_domain endpoint =
    with_env (env_var "OAUTH2_PROXY_WHITELIST_DOMAINS" endpoint.host ∷ [])

-- Whether users log in with OpenShift, from the preference in the spec.
unfoldable pub is_open_shift_login_enabled : Option Bool → Option Info → Bool
is_open_shift_login_enabled preference none = false
is_open_shift_login_enabled preference (some i) =
    if is_open_shift i then deref preference true else false

module _ (join_path : Url → String → String) where
  unfoldable pub with_oidc_urls : Url → ContainerOption
  with_oidc_urls endpoint = with_env (
      env_var "OAUTH2_PROXY_REDIRECT_URL" (join_path endpoint "/oauth2/callback")
      ∷ env_var "OAUTH2_PROXY_OIDC_ISSUER_URL" (join_path endpoint "/idp/")
      ∷ env_var "OAUTH2_PROXY_LOGIN_URL" (join_path endpoint "/idp/auth")
      ∷ [])

  unfoldable pub with_internal_dex_urls : ContainerOption
  with_internal_dex_urls = with_env (
      env_var "OAUTH2_PROXY_SKIP_OIDC_DISCOVERY" "true"
      ∷ env_var "OAUTH2_PROXY_REDEEM_URL" (join_path dex_internal_url "/idp/token")
      ∷ env_var "OAUTH2_PROXY_OIDC_JWKS_URL" (join_path dex_internal_url "/idp/keys")
      ∷ [])

  unfoldable pub build_oauth2_proxy_options : Url → Bool → List ContainerOption
  build_oauth2_proxy_options endpoint open_shift_login =
      (with_provider
        ∷ with_oidc_urls endpoint
        ∷ with_internal_dex_urls
        ∷ with_cookie_config
        ∷ with_auth_settings
        ∷ with_ca_bundle
        ∷ with_whitelist_domain endpoint
        ∷ [])
      ++ (if open_shift_login then with_allow_unverified_email ∷ [] else [])

  abbrev pub proxy_env : Url → Bool → DeploymentContext → List EnvVar
  proxy_env endpoint login ctx =
      (new_container_overlay ctx (build_oauth2_proxy_options endpoint login)).env

  -- In the environment of the oauth2-proxy no variable is set twice, so that no option undoes another; it
  -- redirects to the endpoint and to its host alone, and takes an unverified email exactly if users log
  -- in with OpenShift.
  pub proxy_env_lem :
      (endpoint : Url) (login : Bool) (ctx : DeploymentContext)
      → HasDistinctKeys name_of (proxy_env endpoint login ctx)
        × (find_key name_of "OAUTH2_PROXY_REDIRECT_URL" (proxy_env endpoint login ctx)
            ≡ some (env_var "OAUTH2_PROXY_REDIRECT_URL" (join_path endpoint "/oauth2/callback")))
        × (find_key name_of "OAUTH2_PROXY_WHITELIST_DOMAINS" (proxy_env endpoint login ctx)
            ≡ some (env_var "OAUTH2_PROXY_WHITELIST_DOMAINS" endpoint.host))
        × (find_key name_of "OAUTH2_PROXY_INSECURE_OIDC_ALLOW_UNVERIFIED_EMAIL"
              (proxy_env endpoint login ctx)
            ≡ (if login
                then some (env_var "OAUTH2_PROXY_INSECURE_OIDC_ALLOW_UNVERIFIED_EMAIL" "true")
                else none))
  unfolding build_oauth2_proxy_options new_container_overlay apply_options with_provider
      with_oidc_urls with_internal_dex_urls with_cookie_config with_auth_settings with_ca_bundle
      with_whitelist_domain with_allow_unverified_email with_env with_volume_mounts find_key
  proxy_env_lem endpoint true ctx =
      (HasDistinctKeys-of_test name_of (proxy_env endpoint true ctx) refl, refl, refl, refl)
  proxy_env_lem endpoint false ctx =
      (HasDistinctKeys-of_test name_of (proxy_env endpoint false ctx) refl, refl, refl, refl)
