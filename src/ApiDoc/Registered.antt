-- ===== src/ApiDoc/Registered.antt =====
-- openapi.rs and main.rs: the description against the routes that `configure_api` registers.
use jwt_service_app.Base.{
  ◌≡◌, ◌⊎◌, refl, inl, inr, Bool, false, Bool-cases, ◌&&◌, some, List, [], ◌∷◌, ◌++◌, All, find,
}
use jwt_service_app.Base.Text.{Text, codes, text_eq}
use jwt_service_app.Auth.Config.{
  AuthLevel, open_level, proxy_secret, totp, metrics_token, AuthConfig, metrics_enabled,
}
use jwt_service_app.RateLimit.Limiter.{Strategy}
use jwt_service_app.Routes.{
  Endpoint, Layer, cors_layer, auth_layer, limit_layer, Resource, Api, configure_api, internal,
  verify_resource, metrics_resource, probe, plain_wraps,
}
use jwt_service_app.ApiDoc.{
  Operation, api_doc, create_token_path, verify_token_path, refresh_token_path, revoke_token_path,
  revoke_subject_tokens_path, metrics_path, livez_path, readyz_path,
}

-- The routes that are registered, each with all layers around it.
abbrev in_scope : List Layer → List Resource → List Resource
in_scope wraps [] = []
in_scope wraps (r ∷ routes) = record r { wraps = r.wraps ++ wraps } ∷ in_scope wraps routes

abbrev pub registered : Api → List Resource
registered api = api.resources ++ in_scope api.scope_wraps api.scope_routes

-- The scheme in which a level is described.
abbrev pub scheme_of : AuthLevel → List Text
scheme_of open_level = []
scheme_of proxy_secret = codes "proxy_secret" ∷ []
scheme_of totp = codes "totp" ∷ []
scheme_of metrics_token = codes "metrics_token" ∷ []

abbrev pub schemes_of : List Layer → List Text
schemes_of [] = []
schemes_of (auth_layer level ∷ layers) = scheme_of level ++ schemes_of layers
schemes_of (cors_layer policy ∷ layers) = schemes_of layers
schemes_of (limit_layer strategy ∷ layers) = schemes_of layers

abbrev pub same_route : Operation → Resource → Bool
same_route op r = text_eq op.path r.pattern && text_eq op.method r.method

-- A route other than the description itself has an operation with its path, its method and its
-- handler, which names the scheme of its layers; the one of the metrics names none.
abbrev pub IsDescribed : Resource → Type 0
IsDescribed r =
    (r.endpoint ≡ Endpoint.openapi_spec)
    ⊎ ((op : Operation) × (find (λ o. same_route o r) api_doc.paths ≡ some op)
        × (op.handler ≡ r.endpoint)
        × (((r.endpoint ≡ Endpoint.metrics) × (op.security ≡ []))
            ⊎ (op.security ≡ schemes_of r.wraps)))

-- An operation is registered with its handler, unless it is the one of the metrics, without a token.
abbrev pub IsRegistered : AuthConfig → Api → Operation → Type 0
IsRegistered auth api op =
    ((op.handler ≡ Endpoint.metrics) × (metrics_enabled auth ≡ false))
    ⊎ ((r : Resource) × (find (λ r'. same_route op r') (registered api) ≡ some r)
        × (r.endpoint ≡ op.handler))

module _ (auth : AuthConfig) (verify_limiter internal_limiter : Strategy)
    (cors_origins : List Text) where
  abbrev api : Api
  api = configure_api auth verify_limiter internal_limiter cors_origins

  abbrev tokens_and : List Resource → List Resource
  tokens_and rest =
      internal internal_limiter (codes "/tokens") (codes "POST") Endpoint.create_token
      ∷ verify_resource verify_limiter cors_origins
      ∷ internal internal_limiter (codes "/tokens/refresh") (codes "POST") Endpoint.refresh_token
      ∷ internal internal_limiter (codes "/tokens/{jti}") (codes "DELETE") Endpoint.revoke_token
      ∷ internal internal_limiter (codes "/subjects/{sub}/tokens") (codes "DELETE")
          Endpoint.revoke_subject_tokens
      ∷ rest

  tokens_and-IsDescribed :
      (rest : List Resource) → All IsDescribed rest → All IsDescribed (tokens_and rest)
  unfolding api_doc text_eq
  tokens_and-IsDescribed rest described = (
    inr (create_token_path, refl, refl, inr refl),
    (
      inr (verify_token_path, refl, refl, inr refl),
      (
        inr (refresh_token_path, refl, refl, inr refl),
        (
          inr (revoke_token_path, refl, refl, inr refl),
          (inr (revoke_subject_tokens_path, refl, refl, inr refl), described),
        ),
      ),
    ),
  )

  abbrev probes : List Resource
  probes = in_scope api.scope_wraps api.scope_routes

  probes-IsDescribed : All IsDescribed probes
  unfolding configure_api api_doc text_eq
  probes-IsDescribed = (
    inl refl,
    (inr (livez_path, refl, refl, inr refl), (inr (readyz_path, refl, refl, inr refl), tt)),
  )

  routes-IsDescribed : All IsDescribed (registered api)
  unfolding configure_api api_doc text_eq
  routes-IsDescribed = elim (Bool-cases (metrics_enabled auth)) [
    | inl on ↦ rw on (
        tokens_and-IsDescribed (metrics_resource ∷ probes)
          (inr (metrics_path, refl, refl, inl (refl, refl)), probes-IsDescribed))
    | inr off ↦ rw off (tokens_and-IsDescribed probes probes-IsDescribed)
  ]

  paths-IsRegistered : All (IsRegistered auth api) api_doc.paths
  unfolding configure_api api_doc text_eq
  paths-IsRegistered = elim (Bool-cases (metrics_enabled auth)) [
    | inl on ↦ rw on (
      inr (
        internal internal_limiter (codes "/tokens") (codes "POST") Endpoint.create_token,
        refl,
        refl,
      ),
      (
        inr (verify_resource verify_limiter cors_origins, refl, refl),
        (
          inr (
            internal internal_limiter (codes "/tokens/refresh") (codes "POST")
                Endpoint.refresh_token,
            refl,
            refl,
          ),
          (
            inr (
              internal internal_limiter (codes "/tokens/{jti}") (codes "DELETE")
                  Endpoint.revoke_token,
              refl,
              refl,
            ),
            (
              inr (
                internal internal_limiter (codes "/subjects/{sub}/tokens") (codes "DELETE")
                    Endpoint.revoke_subject_tokens,
                refl,
                refl,
              ),
              (
                inr (
                  record (probe (codes "/livez") Endpoint.livez) { wraps = plain_wraps open_level },
                  refl,
                  refl,
                ),
                (
                  inr (
                    record (probe (codes "/readyz") Endpoint.readyz) {
                      wraps = plain_wraps open_level;
                    },
                    refl,
                    refl,
                  ),
                  (inr (metrics_resource, refl, refl), tt),
                ),
              ),
            ),
          ),
        ),
      ),
    )
    | inr off ↦ rw off (
      inr (
        internal internal_limiter (codes "/tokens") (codes "POST") Endpoint.create_token,
        refl,
        refl,
      ),
      (
        inr (verify_resource verify_limiter cors_origins, refl, refl),
        (
          inr (
            internal internal_limiter (codes "/tokens/refresh") (codes "POST")
                Endpoint.refresh_token,
            refl,
            refl,
          ),
          (
            inr (
              internal internal_limiter (codes "/tokens/{jti}") (codes "DELETE")
                  Endpoint.revoke_token,
              refl,
              refl,
            ),
            (
              inr (
                internal internal_limiter (codes "/subjects/{sub}/tokens") (codes "DELETE")
                    Endpoint.revoke_subject_tokens,
                refl,
                refl,
              ),
              (
                inr (
                  record (probe (codes "/livez") Endpoint.livez) { wraps = plain_wraps open_level },
                  refl,
                  refl,
                ),
                (
                  inr (
                    record (probe (codes "/readyz") Endpoint.readyz) {
                      wraps = plain_wraps open_level;
                    },
                    refl,
                    refl,
                  ),
                  (inl (refl, refl), tt),
                ),
              ),
            ),
          ),
        ),
      ),
    )
  ]

  -- The description lists what `configure_api` registers, whatever the configuration is. Each route has
  -- an operation with its path, its method and its handler, but for the route of the description
  -- itself; the operation names the security scheme of the route's access level, but for the
  -- operation of the metrics, which names none. And each operation is a route with the operation's handler, but for the metrics
  -- where no token is set.
  pub configure_api-IsDescribed :
      All IsDescribed (registered api) × All (IsRegistered auth api) api_doc.paths
  configure_api-IsDescribed = (routes-IsDescribed, paths-IsRegistered)
