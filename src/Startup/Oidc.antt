-- ===== src/Startup/Oidc.antt =====
-- `NewAuthInterceptor` of internal/interceptor/auth.go, which the services sources, projects and jobs
-- have. The package oidc is a parameter: what `oidc.NewProvider` gives for an issuer.
use sihkaromicro.Prelude.{Bool, String, ◌<>◌}
use sihkaromicro.Runtime.Errors.{Result, ok, err}
use sihkaromicro.Sources.Interceptor.{Verifier}
use sihkaromicro.Startup.Config.{KeycloakCfg}

-- `oidc.Config` as far as the services set it.
pub record OidcConfig : Type 0 where
  pub client_id : String
  pub skip_client_id_check : Bool

-- A provider, by what its method `Verifier` answers.
abbrev pub Provider : Type 1
Provider = OidcConfig → Verifier

abbrev verifier_of : OidcConfig → Result Provider → Result Verifier
verifier_of cfg (ok provider) = ok (provider cfg)
verifier_of cfg (err e) = err e

unfoldable pub new_auth_interceptor :
    (String → Result Provider) → Bool → KeycloakCfg → Result Verifier
new_auth_interceptor new_provider skip cfg =
    verifier_of (record { client_id = cfg.client_id; skip_client_id_check = skip })
      (new_provider (cfg.url <> ("/realms/" <> cfg.realm)))
