-- ===== src/Identity/Auth/Login.antt =====
-- What `login` and `refresh` of auth_service.py accept and refuse.
use api_template.Base.{
  ◌≡◌, ◌≢◌, String, true, none, List, [], ◌∷◌, arith, str_eq, List-cases, inl, inr,
}
use api_template.Kernel.Errors.{returned, raised, validation_failed}
use api_template.Kernel.Result.{ok, err}
use api_template.Identity.Data.{UserRow}
use api_template.Identity.Passwords.{verify_password}
use api_template.Identity.Tokens.{JwtToken}
use api_template.Identity.Session.{Env, World}
use api_template.Identity.UserRepository.{rows_where, text_or_empty}
use api_template.Identity.Auth.{invalid_credentials, login, refresh}
use api_template.Identity.Confirmation.{Detail}

abbrev pub named : Env → String → World → List UserRow
named env email w = rows_where env (λ u. str_eq u.email email) w

-- What a login checks of the only row with its address.
pub record MayLogin (env : Env) (password : String) (row : UserRow) : Type 0 where
  pub knows : verify_password env.bcrypt password (text_or_empty row.password) ≡ true
  pub active : row.is_active ≡ true
  pub confirmed : row.email_confirmed ≡ true

module _ (env : Env) (email password : String) where
  -- A login that is refused says nothing but that the credentials are wrong, whether the address is
  -- unknown, the password wrong or the account not usable, and it changes nothing.
  pub login_refusals_alike :
      (ds : List Detail) (w w' : World)
      → login env email password w ≡ (returned (err ds), w')
      → (ds ≡ invalid_credentials ∷ []) × (w' ≡ w)
  unfolding login
  login_refusals_alike ds w w' h = ground arith

  -- A login that succeeds found one row with the address; its password verifies, it is active, and
  -- its address is confirmed.
  pub login-MayLogin :
      (token : JwtToken) (w w' : World)
      → login env email password w ≡ (returned (ok token), w')
      → (row : UserRow) × (named env email w ≡ row ∷ []) × MayLogin env password row
  unfolding login
  login-MayLogin token w w' h = elim (List-cases (named env email w)) [
    | inl e ↦ absurd (ground arith)
    | inr (inl (row, e)) ↦
        (row, e, record { knows = ground arith; active = ground arith; confirmed = ground arith })
    | inr (inr (x, y, t, e)) ↦ absurd (ground arith)
  ]

  -- An account that has never logged in cannot: where everything else is right, the token of a user
  -- without a last login is an exception.
  pub login_never_logged_in :
      (row : UserRow) (w : World)
      → named env email w ≡ row ∷ []
      → MayLogin env password row
      → row.last_login_time ≡ none
      → (login env email password w).0 ≡ raised validation_failed
  unfolding login
  login_never_logged_in row w one may never = ground (arith, may.knows, may.active, may.confirmed)

-- A refresh never gives a new pair of tokens.
pub refresh_never :
    (env : Env) (token : String) (pair : JwtToken) (w w' : World)
    → refresh env token w ≢ (returned (ok pair), w')
unfolding refresh
refresh_never env token pair w w' h = ground arith
