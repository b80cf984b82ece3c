-- ===== src/Identity/Reset.antt =====
-- The three steps of a password reset: ForgotPasswordService of
-- application/identity/services/registration_service.py and
-- application/identity/handlers/forgot_password_handlers.py.
pub mod Steps
use api_template.Base.{
  ℕ, String, Bool, true, false, ◌||◌, not, Option, none, some, [], ◌∷◌, ltb, is_some, if◌then◌else◌,
}
use api_template.Kernel.Result.{ok, err}
use api_template.Identity.Data.{
  UserRow, Event, forgot_password, user, forgot_password_step1, forgot_password_step2,
}
use api_template.Identity.Session.{
  Env, Action, ◌>>=◌, ◌>>◌, pure, rollback, within_uow, publish_many, read_clock, uuid7,
}
use api_template.Identity.Users.{full_name, set_password, write}
use api_template.Identity.UserRepository.{find_by_email}
use api_template.Identity.OtpRepository.{OtpDetailedDto, find_active_for_content, consume_by_id}
use api_template.Identity.Confirmation.{ResultDetailed, invalid_otp_detail, expired, issue}
use api_template.Identity.Registration.{neutral_sent}

-- `ForgotPasswordStep2ResponseDTO`, without the address of the picture
pub record Recovered : Type 0 where
  pub id : ℕ
  pub full_name : String
  pub email : String

module _ (env : Env) where
  -- `issue_reset_code`: the event that carries the code; none where the code is refused.
  unfoldable pub reset_code_event : UserRow → String → Action Event
  unfolding uuid7
  reset_code_event row code = do
    id ← uuid7 env
    pure (record {
      event_id = id;
      aggregate_id = row.id;
      order = 0;
      body = forgot_password_step1 row.email code;
    })

  -- `ForgotPasswordStep1CommandHandler`: by the code issued, by the user found, and whole.
  unfoldable pub mail_reset_code : UserRow → ResultDetailed String → Action (ResultDetailed String)
  unfolding rollback reset_code_event publish_many
  mail_reset_code row (err ds) = rollback >> pure (err ds)
  mail_reset_code row (ok code) = do
    event ← reset_code_event row code
    publish_many (event ∷ [])
    pure (ok neutral_sent)

  unfoldable pub step1_for : Option UserRow → Action (ResultDetailed String)
  unfolding issue mail_reset_code
  step1_for none = pure (ok neutral_sent)
  step1_for (some row) = issue env row.id forgot_password row.email >>= mail_reset_code row

  unfoldable pub step1 : String → Action (ResultDetailed String)
  unfolding find_by_email step1_for
  step1 email = find_by_email env email >>= step1_for

  unfoldable pub handle_step1 : String → Action (ResultDetailed String)
  unfolding step1
  handle_step1 email = within_uow env (step1 email)

  -- `ForgotPasswordStep2CommandHandler`: by the code found, by the user found, and whole.
  unfoldable pub check_code : UserRow → Option OtpDetailedDto → Action (ResultDetailed Recovered)
  unfolding read_clock
  check_code row none = pure (err (invalid_otp_detail ∷ []))
  check_code row (some otp) =
      if is_some otp.used_at then pure (err (invalid_otp_detail ∷ [])) else do
        now ← read_clock env
        if ltb otp.expires_at now
            then pure (err (expired ∷ []))
            else pure
                (ok (record { id = row.id; full_name = full_name env row; email = row.email }))

  unfoldable pub step2_for : String → Option UserRow → Action (ResultDetailed Recovered)
  unfolding find_active_for_content check_code
  step2_for otp none = pure (err (invalid_otp_detail ∷ []))
  step2_for otp (some row) =
      find_active_for_content env otp row.id forgot_password user >>= check_code row

  unfoldable pub step2 : String → String → Action (ResultDetailed Recovered)
  unfolding find_by_email step2_for
  step2 email otp = find_by_email env email >>= step2_for otp

  unfoldable pub handle_step2 : String → String → Action (ResultDetailed Recovered)
  unfolding step2
  handle_step2 email otp = within_uow env (step2 email otp)

  -- `announce_password_changed`
  unfoldable pub changed_event : UserRow → String → Action Event
  unfolding uuid7
  changed_event row new_password = do
    id ← uuid7 env
    pure (record {
      event_id = id;
      aggregate_id = row.id;
      order = 0;
      body = forgot_password_step2 row.email new_password (full_name env row);
    })

  -- `ForgotPasswordStep3CommandHandler`: once the password was set, once the claim was tried, by the code found, by the user
  -- found, and whole.
  unfoldable pub tell_changed : String → UserRow → Action (ResultDetailed String)
  unfolding changed_event publish_many
  tell_changed new_password changed = do
    write changed
    event ← changed_event changed new_password
    publish_many (event ∷ [])
    pure (ok "Password updated")

  unfoldable pub reset_password : UserRow → String → Bool → Action (ResultDetailed String)
  unfolding rollback set_password tell_changed
  reset_password row new_password false = rollback >> pure (err (invalid_otp_detail ∷ []))
  reset_password row new_password true =
      set_password env new_password row >>= tell_changed new_password

  unfoldable pub spend_code :
      UserRow → String → Option OtpDetailedDto → Action (ResultDetailed String)
  unfolding read_clock consume_by_id reset_password
  spend_code row new_password none = pure (err (invalid_otp_detail ∷ []))
  spend_code row new_password (some otp) = do
    now ← read_clock env
    if ltb otp.expires_at now then pure (err (expired ∷ [])) else do
      later ← read_clock env
      won ← consume_by_id env otp.id later
      reset_password row new_password won

  unfoldable pub step3_for : String → String → Option UserRow → Action (ResultDetailed String)
  unfolding find_active_for_content spend_code
  step3_for otp new_password none = pure (err (invalid_otp_detail ∷ []))
  step3_for otp new_password (some row) =
      find_active_for_content env otp row.id forgot_password user >>= spend_code row new_password

  unfoldable pub step3 : String → String → String → Action (ResultDetailed String)
  unfolding find_by_email step3_for
  step3 email otp new_password = find_by_email env email >>= step3_for otp new_password

  unfoldable pub handle_step3 : String → String → String → Action (ResultDetailed String)
  unfolding step3
  handle_step3 email otp new_password = within_uow env (step3 email otp new_password)
