-- ===== src/Identity/Tokens.antt =====
-- The tokens of shared_kernel/constants/enums.py, and what is relied on in the PyJWT package.
use api_template.Base.{ℕ, String, Option, Bool, true, false}

-- `JwtType`
pub data JwtType : Type 0 where
  access_token refresh_token : JwtType

abbrev pub is_refresh : JwtType → Bool
is_refresh access_token = false
is_refresh refresh_token = true

-- `JwtPayload`, as the provider fills it: a field that is given must have its type, so
-- `last_login_time` is a time. `jti` is the number of the UUID.
pub record JwtPayload : Type 0 where
  pub token_type : JwtType
  pub exp : ℕ
  pub iat : ℕ
  pub jti : ℕ
  pub user_id : ℕ
  pub last_login_time : ℕ

-- `JwtToken`, and `JwtTokenDTO`
pub record JwtToken : Type 0 where
  pub access_token : String
  pub refresh_token : String

-- `jwt.encode` and `jwt.decode` with the configured key and algorithm, and the configured
-- lifetimes in seconds. At the epoch of the call, `decode` gives the payload of a token that was
-- signed with the key and has not expired, and nothing where it raises InvalidTokenError.
pub record Jwt : Type 0 where
  pub encode : JwtPayload → String
  pub decode : (now : ℕ) → String → Option JwtPayload
  pub access_token_lifetime : ℕ
  pub refresh_token_lifetime : ℕ
