-- ===== src/Identity/Access/Refused.antt =====
-- What a client is answered whose bearer token is refused.
use api_template.Base.{
  String, Bool-cases, Option-cases, List-cases, ◌≡◌, refl, inl, inr, arith, ◌==◌,
}
use api_template.Kernel.Errors.{
  StatusCode, access_token_required, invalid_access_token, invalid_login_credentials, returned,
}
use api_template.Kernel.Texts.{is_empty}
use api_template.Http.Errors.{detail_text, Failure, format_app_exception}
use api_template.Http.Handler.{Host, Request, exception_handler}
use api_template.Identity.Session.{Env, World}
use api_template.Identity.Auth.{decode_payload}
use api_template.Identity.UserRepository.{rows_where, get_for_context}
use api_template.Identity.Access.{stopped, unauthorized, get_current_user_from_token}

-- The failure of a token that is refused.
abbrev Unauthorized : Failure (Unit {0}) → Type 0
Unauthorized f = (message : String) × (status : StatusCode) × (f ≡ unauthorized message status)

stopped-token :
    (env : Env) (token : String) (f : Failure (Unit {0})) (w w' : World)
    → get_current_user_from_token env token w ≡ (stopped f, w')
    → Unauthorized f
unfolding get_current_user_from_token get_for_context decode_payload rows_where
stopped-token env token f w w' h = elim (Bool-cases (is_empty token)) [
  | inl e ↦ ("Access token is not provided.", access_token_required, ground arith)
  | inr filled ↦ elim (Option-cases (env.jwt.decode (env.clock w.readings) token)) [
    | inl e ↦ ("Invalid access key", invalid_access_token, ground arith)
    | inr (payload, d) ↦ elim (List-cases (rows_where env (λ u. u.id == payload.user_id) w)) [
      | inl e ↦ ("Invalid login credentials.", invalid_login_credentials, ground arith)
      | inr (inl (row, e)) ↦ elim (Bool-cases row.is_active) [
        | inl on ↦ absurd (ground arith)
        | inr off ↦ ("Invalid login credentials.", invalid_login_credentials, ground arith)
      ]
      | inr (inr (x, y, t, e)) ↦ absurd (ground arith)
    ]
  ]
]

-- Where a bearer token is refused, the exception asks for the status 401, and the client is answered
-- the status 400, with the message of the exception.
pub refused-status :
    (env : Env) (token : String) (f : Failure (Unit {0})) (host : Host (Unit {0}))
    (request : Request) (w w' : World)
    → get_current_user_from_token env token w ≡ (stopped f, w')
    → (message : String) × (status : StatusCode) × (f ≡ unauthorized message status)
      × ((exception_handler host request f).1
          ≡ returned (record { status_code = 400; content = detail_text message }))
unfolding exception_handler format_app_exception
refused-status env token f host request w w' h =
    let (message, status, same) = stopped-token env token f w w' h in
    (message, status, same, rw same refl)
