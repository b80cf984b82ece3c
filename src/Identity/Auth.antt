-- ===== src/Identity/Auth.antt =====
-- application/identity/services/auth_service.py and infra/providers/jwt_provider.py: password login
-- and the rotation of refresh tokens, with the handlers of the two commands
-- (application/identity/handlers/auth_handlers.py).
pub mod Login
use api_template.Base.{
  ℕ, ◌+◌, String, Bool, true, false, not, ◌&&◌, ◌||◌, Option, none, some, List, [], ◌∷◌,
  if◌then◌else◌,
}
use api_template.Kernel.Errors.{
  text, validation_failed, invalid_login_credentials, invalid_refresh_token, invalid_token_type,
}
use api_template.Kernel.Result.{ok, err}
use api_template.Identity.Passwords.{verify_password}
use api_template.Identity.Tokens.{
  JwtType, access_token, refresh_token, is_refresh, JwtPayload, JwtToken,
}
use api_template.Identity.Session.{Env, Action, ◌>>=◌, pure, raise, read_clock, uuid7, within_uow}
use api_template.Identity.UserRepository.{
  UserAuth, UserOnContext, get_credentials_by_email, get_for_context,
}
use api_template.Identity.Confirmation.{Detail, ResultDetailed}

abbrev pub invalid_credentials : Detail
invalid_credentials = record {
  status = invalid_login_credentials;
  message = some (text "Invalid login credentials.");
  field = none;
  payload = tt;
}

abbrev pub invalid_refresh_detail : Detail
invalid_refresh_detail = record {
  status = invalid_refresh_token;
  message = some (text "Invalid access key");
  field = none;
  payload = tt;
}

abbrev pub invalid_type_detail : Detail
invalid_type_detail = record {
  status = invalid_token_type;
  message = some (text "Invalid token type");
  field = none;
  payload = tt;
}

-- What `payload_from_user` reads off a user: the id, and the attribute `last_login_time`, which is
-- None also where the user has no such attribute.
pub record Bearer : Type 0 where
  pub id : ℕ
  pub last_login_time : Option ℕ

abbrev pub of_auth : UserAuth → Bearer
of_auth user = record { id = user.id; last_login_time = user.last_login_time }

abbrev pub of_context : UserOnContext → Bearer
of_context user = record { id = user.id; last_login_time = none }

module _ (env : Env) where
  -- `get_payload`. `JwtPayload` is given every field, and None is no time: pydantic refuses it.
  unfoldable pub get_payload : ℕ → JwtType → ℕ → ℕ → Option ℕ → Action JwtPayload
  unfolding read_clock
  get_payload expire token_type user_id jti last_login_time = do
    iat ← read_clock env
    elim last_login_time [
      | none ↦ raise validation_failed
      | some last_login ↦ pure (record {
        token_type = token_type;
        exp = iat + expire;
        iat = iat;
        jti = jti;
        user_id = user_id;
        last_login_time = last_login;
      })
    ]

  unfoldable pub for_user : Bearer → Action JwtToken
  unfolding get_payload uuid7
  for_user user = do
    jti ← uuid7 env
    access ← get_payload env.jwt.access_token_lifetime access_token user.id jti user.last_login_time
    refresh ←
        get_payload env.jwt.refresh_token_lifetime refresh_token user.id jti user.last_login_time
    pure (record { access_token = env.jwt.encode access; refresh_token = env.jwt.encode refresh })

  -- `decode_payload`
  unfoldable pub decode_payload : String → Action (Option JwtPayload)
  unfolding read_clock
  decode_payload token = do now ← read_clock env; pure (env.jwt.decode now token)

  -- `login` once the address is known, and `refresh` once the token is.
  unfoldable pub login_user : String → UserAuth → Action (ResultDetailed JwtToken)
  unfolding for_user
  login_user password found =
      if not (verify_password env.bcrypt password found.password)
      then pure (err (invalid_credentials ∷ []))
      else if not found.is_active || not found.email_confirmed
      then pure (err (invalid_credentials ∷ []))
      else do token ← for_user (of_auth found); pure (ok token)

  unfoldable pub refresh_user : Option UserOnContext → Action (ResultDetailed JwtToken)
  unfolding for_user
  refresh_user none = pure (err (invalid_credentials ∷ []))
  refresh_user (some user) =
      if not user.is_active
      then pure (err (invalid_credentials ∷ []))
      else do token ← for_user (of_context user); pure (ok token)

  -- For an unknown address the service checks the password against "" and ignores the answer.
  unfoldable pub login : String → String → Action (ResultDetailed JwtToken)
  unfolding get_credentials_by_email login_user
  login email password = do
    found ← get_credentials_by_email env email
    elim found [
      | none ↦ pure (err (invalid_credentials ∷ []))
      | some user ↦ login_user password user
    ]

  unfoldable pub refresh : String → Action (ResultDetailed JwtToken)
  unfolding decode_payload get_for_context refresh_user
  refresh token = do
    decoded ← decode_payload token
    elim decoded [
      | none ↦ pure (err (invalid_refresh_detail ∷ []))
      | some payload ↦
          if not (is_refresh payload.token_type)
          then pure (err (invalid_type_detail ∷ []))
          else do user ← get_for_context env payload.user_id; refresh_user user
    ]

  -- `LoginCommandHandler` and `RefreshTokenCommandHandler`
  unfoldable pub handle_login : String → String → Action (ResultDetailed JwtToken)
  unfolding login
  handle_login email password = within_uow env (login email password)

  unfoldable pub handle_refresh : String → Action (ResultDetailed JwtToken)
  unfolding refresh
  handle_refresh token = within_uow env (refresh token)
