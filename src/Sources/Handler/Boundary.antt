-- ===== src/Sources/Handler/Boundary.antt =====
-- The handlers behind the interceptors: whom a request acts for.
use sihkaromicro.Prelude.{
  ◌≡◌, ◌≢◌, ◌⊎◌, refl, inl, inr, String, some, List, ◌∷◌, arith, str_eq, eq_iff, Option-cases,
  Bool-cases, List-cases,
}
use sihkaromicro.Runtime.Errors.{status, Code, Result, ok, err, Outcome, Result-cases}
use sihkaromicro.Runtime.Context.{Context, Metadata, values_of}
use sihkaromicro.Runtime.Text.{trim_prefix}
use sihkaromicro.Sources.Interceptor.{
  Claims, Verifier, authorize, unary, must_user_id_from_ctx, with_user, recovered, recover, serve,
}

-- The context carries a token that the verifier accepts, for the user `user_id`.
pub record IsUser (v : Verifier) (ctx : Context) (user_id : String) : Type 0 where
  pub metadata : Metadata
  pub value : String
  pub values : List String
  pub token : v.Token
  pub claims : Claims
  pub incoming : ctx.incoming ≡ some metadata
  pub authorization : values_of "authorization" metadata ≡ value ∷ values
  pub verified : v.verify ctx (trim_prefix value "Bearer ") ≡ ok token
  pub claimed : v.claims token ≡ ok claims
  pub named : (user_id ≡ claims.sub) × (user_id ≢ "")

-- What the recovery makes of what a handler leaves.
abbrev pub reply : {W A : Type 0} → Outcome A × W → Result A × W
reply (o, w) = (recover o, w)

module _ (v : Verifier) (ctx : Context) where
  -- The handlers get the user in the context.
  abbrev pub as_user : String → Context
  as_user user_id = record ctx { user_id = some user_id }

  pub authorize-IsUser :
      (user_id : String) → IsUser v ctx user_id → authorize v ctx ≡ ok (as_user user_id)
  unfolding authorize
  authorize-IsUser user_id u =
      ground (arith, u.incoming, u.authorization, u.verified, u.claimed, u.named)

  -- Either there is a user, or the token is refused, or it has an empty subject.
  pub authorize_cases :
      ((user_id : String) × IsUser v ctx user_id)
      ⊎ (((m : String) × (authorize v ctx ≡ err (status Code.unauthenticated m)))
          ⊎ (authorize v ctx ≡ ok (as_user "")))
  unfolding authorize
  authorize_cases = elim (Option-cases ctx.incoming) [
    | inl missing ↦ inr (inl ("missing metadata", ground arith))
    | inr (md, incoming) ↦ elim (List-cases (values_of "authorization" md)) [
      | inl missing ↦ inr (inl ("missing authorization token", ground arith))
      | inr (value, values, found) ↦
          elim (Result-cases (v.verify ctx (trim_prefix value "Bearer "))) [
            | inr (e, refused) ↦ inr (inl ("invalid token", ground arith))
            | inl (token, verified) ↦ elim (Result-cases (v.claims token)) [
              | inr (e, refused) ↦ inr (inl ("invalid claims", ground arith))
              | inl (claims, claimed) ↦ elim (Bool-cases (str_eq claims.sub "")) [
                | inl empty ↦ inr (inr (ground (arith, eq_iff claims.sub "")))
                | inr named ↦ inl (
                  claims.sub,
                  record {
                    metadata = md;
                    value = value;
                    values = values;
                    token = token;
                    claims = claims;
                    incoming = incoming;
                    authorization = found;
                    verified = verified;
                    claimed = claimed;
                    named = (refl, ground (arith, eq_iff claims.sub ""));
                  },
                )
              ]
            ]
          ]
    ]
  ]

  module _ {W A : Type 0} (f : Context → String → W → Outcome A × W) (w : W) where
    pub serve-user :
        (user_id : String)
        → IsUser v ctx user_id
        → serve v (λ c. with_user (f c) c) ctx w ≡ reply (f (as_user user_id) user_id w)
    unfolding serve unary with_user must_user_id_from_ctx
    serve-user user_id u = ground (arith, authorize-IsUser user_id u, eq_iff user_id "")

    pub serve-stranger :
        ((user_id : String) → ¬ IsUser v ctx user_id)
        → (m : String) × (serve v (λ c. with_user (f c) c) ctx w
            ≡ (err (status Code.unauthenticated m), w))
    unfolding serve unary with_user must_user_id_from_ctx recovered
    serve-stranger h = elim authorize_cases [
      | inl (user_id, u) ↦ absurd (h user_id u)
      | inr (inl (m, refused)) ↦ (m, ground arith)
      | inr (inr nameless) ↦ ("user_id not found in context", ground arith)
    ]
