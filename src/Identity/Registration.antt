-- ===== src/Identity/Registration.antt =====
-- Self-service registration: application/identity/validators/user_validators.py,
-- UserRegistrationService of application/identity/services/registration_service.py, and the
-- handlers that register, confirm an address and send a code again
-- (application/identity/handlers/auth_handlers.py).
pub mod Register
pub mod Seeds
pub mod ConfirmEmail
use api_template.Base.{ℕ, String, true, false, ◌||◌, Option, none, some, [], ◌∷◌, if◌then◌else◌}
use api_template.Kernel.Errors.{text, invalid_otp, unique_constraint}
use api_template.Kernel.Result.{ok, err}
use api_template.Identity.Data.{UserRow, email_confirmation}
use api_template.Identity.Session.{
  Env, Action, ◌>>=◌, ◌>>◌, pure, rollback, flush, within_uow, publish_many,
}
use api_template.Identity.Users.{
  UserAggregate, UserCreateParams, pull_events, confirm_email, write, register, set_password,
  mark_registered,
}
use api_template.Identity.UserRepository.{add, find_by_email, exists_by_email}
use api_template.Identity.Confirmation.{Detail, ResultDetailed, issue, confirm}

-- `RegisterCommand`
pub record RegisterCommand : Type 0 where
  pub email : String
  pub password : String
  pub first_name : String
  pub last_name : String
  pub phone : Option String
  pub address : Option String

abbrev pub taken_detail : Detail
taken_detail = record {
  status = unique_constraint;
  message = some (text "This email address is already registered");
  field = some "email";
  payload = tt;
}

abbrev pub invalid_code_detail : Detail
invalid_code_detail = record {
  status = invalid_otp;
  message = some (text "Invalid confirmation code");
  field = some "otp";
  payload = tt;
}

abbrev pub neutral_sent : String
neutral_sent = "If the address is registered, a code has been sent to it"

abbrev pub params_of : RegisterCommand → UserCreateParams
params_of cmd = record {
  email = cmd.email;
  first_name = cmd.first_name;
  last_name = cmd.last_name;
  phone = cmd.phone;
  address = cmd.address;
  description = none;
  information = none;
  avatar_id = none;
}

module _ (env : Env) where
  -- `RegisterValidator`
  unfoldable pub validate_register : RegisterCommand → Action (ResultDetailed (Unit {0}))
  unfolding exists_by_email
  validate_register cmd = do
    taken ← exists_by_email env cmd.email
    if taken then pure (err (taken_detail ∷ [])) else pure (ok tt)

  -- `UserRegistrationService.register`, once a code was asked for, and once the row was flushed.
  unfoldable pub mark_issued :
      UserAggregate → ResultDetailed String → Action (ResultDetailed UserAggregate)
  unfolding mark_registered
  mark_issued user (err ds) = pure (err ds)
  mark_issued user (ok code) = do marked ← mark_registered env code user; pure (ok marked)

  unfoldable pub send_code : UserAggregate → Action (ResultDetailed UserAggregate)
  unfolding issue mark_issued
  send_code user = issue env user.row.id email_confirmation user.row.email >>= mark_issued user

  -- `UserRegistrationService.register`, from the insert, from the password, and whole.
  unfoldable pub store_user : UserAggregate → Action (ResultDetailed UserAggregate)
  unfolding add flush send_code
  store_user user = do add env user; flush env; send_code user

  unfoldable pub equip_user :
      RegisterCommand → UserAggregate → Action (ResultDetailed UserAggregate)
  unfolding set_password store_user
  equip_user cmd blank = do
    row ← set_password env cmd.password blank.row
    store_user (record blank { row = row })

  unfoldable pub register_user : RegisterCommand → Action (ResultDetailed UserAggregate)
  unfolding register equip_user
  register_user cmd = register env (params_of cmd) >>= equip_user cmd

  -- The handlers' end: an error rolls back, and an aggregate has its events published.
  unfoldable pub announce_user : ResultDetailed UserAggregate → Action (ResultDetailed (Unit {0}))
  unfolding rollback publish_many
  announce_user (err ds) = rollback >> pure (err ds)
  announce_user (ok user) = publish_many (pull_events user) >> pure (ok tt)

  -- `RegisterCommandHandler`, after the validation, and whole.
  unfoldable pub register_valid :
      RegisterCommand → ResultDetailed (Unit {0}) → Action (ResultDetailed (Unit {0}))
  unfolding register_user announce_user
  register_valid cmd (err ds) = pure (err ds)
  register_valid cmd (ok u) = within_uow env (register_user cmd >>= announce_user)

  unfoldable pub handle_register : RegisterCommand → Action (ResultDetailed (Unit {0}))
  unfolding validate_register register_valid
  handle_register cmd = validate_register cmd >>= register_valid cmd

  -- `ConfirmEmailCommandHandler`, once the code was looked at, for the user found, and whole.
  unfoldable pub activate_user : UserRow → ResultDetailed ℕ → Action (ResultDetailed (Unit {0}))
  unfolding rollback confirm_email
  activate_user row (err ds) = rollback >> pure (err ds)
  activate_user row (ok owner) = write (confirm_email row) >> pure (ok tt)

  unfoldable pub confirm_for : String → Option UserRow → Action (ResultDetailed (Unit {0}))
  unfolding confirm activate_user
  confirm_for otp none = pure (err (invalid_code_detail ∷ []))
  confirm_for otp (some row) = confirm env row.id otp email_confirmation >>= activate_user row

  unfoldable pub confirm_address : String → String → Action (ResultDetailed (Unit {0}))
  unfolding find_by_email confirm_for
  confirm_address email otp = find_by_email env email >>= confirm_for otp

  unfoldable pub handle_confirm_email : String → String → Action (ResultDetailed (Unit {0}))
  unfolding confirm_address
  handle_confirm_email email otp = within_uow env (confirm_address email otp)

  -- `ResendEmailConfirmationCommandHandler`, once the user has been found.
  unfoldable pub resend_user : UserRow → Action (ResultDetailed String)
  unfolding send_code announce_user
  resend_user row = if row.email_confirmed then pure (ok neutral_sent) else do
    sent ← send_code (record { row = row; events = [] })
    told ← announce_user sent
    elim told [ err ds ↦ pure (err ds) | ok u ↦ pure (ok neutral_sent) ]

  unfoldable pub resend : String → Action (ResultDetailed String)
  unfolding find_by_email resend_user
  resend email = do
    found ← find_by_email env email
    elim found [ none ↦ pure (ok neutral_sent) | some row ↦ resend_user row ]

  unfoldable pub handle_resend : String → Action (ResultDetailed String)
  unfolding resend
  handle_resend email = within_uow env (resend email)
