-- ===== src/Identity/AccountTests.antt =====
-- Concrete requests of the accounts: logins, a registration, a confirmation, a password reset.
use api_template.Base.{◌≡◌, ◌≢◌, refl, String, true, none, some, [], ◌∷◌, ◌++◌, str_eq, arith}
use api_template.Base.{ℕ}
use api_template.Identity.Data.{Event, user_email_confirmed}
use api_template.Kernel.Errors.{returned}
use api_template.Kernel.Result.{ok}
use api_template.Sql.Memory.{memory}
use api_template.Identity.Data.{
  UserRow, OtpRow, email_confirmation, forgot_password, content_type_eq, kind_eq,
  otp_cooldown_minutes,
}
use api_template.Identity.Passwords.{
  hash_password, verify_password, to_bytes, is_bcrypt_hash, caught,
}
use api_template.Identity.Session.{World, write_user, emails_unique, within_uow}
use api_template.Identity.UserRepository.{rows_where}
use api_template.Identity.Confirmation.Confirm.{claimed}
use api_template.Identity.Confirmation.Issue.{issued_row, burnt}
use api_template.Identity.Auth.{login, refresh}
use api_template.Identity.Auth.Login.{named, MayLogin, login-MayLogin, refresh_never}
use api_template.Identity.Registration.{
  RegisterCommand, handle_register, handle_confirm_email, taken_detail,
}
use api_template.Identity.Registration.Register.{seeded, flushed, register_refused_keeps}
use api_template.Identity.Registration.Seeds.{welcome, register_seeds}
use api_template.Identity.Registration.ConfirmEmail.{let_in, confirm_email_lets_in}
use api_template.Identity.Reset.{step3}
use api_template.Identity.Reset.Steps.{told, step3_resets}
use api_template.Identity.Tests.{env, ada, world, waiting, quiet}

abbrev long_password : String
long_password = "a passphrase of more than seventy-two bytes, which bcrypt would silently cut off"

-- Ada once she has a password and a confirmed address.
abbrev ready : UserRow
ready = record ada { password = some "$2b$1"; email_confirmed = true }

-- The same, after an earlier login.
abbrev regular : UserRow
regular = record ready { last_login_time = some 5 }

abbrev members : UserRow → World
members u = record (world []) { db = record { users = u ∷ []; otps = [] } }

login-MayLogin_example :
    (row : UserRow) × (named env "ada@example.org" (members regular) ≡ row ∷ [])
    × MayLogin env "correct horse" row
unfolding login memory verify_password to_bytes is_bcrypt_hash caught
login-MayLogin_example =
    login-MayLogin env "ada@example.org" "correct horse"
      (record { access_token = "access"; refresh_token = "refresh" }) (members regular) _ refl

refresh_never_example : refresh env "refresh" (members regular) ≢ (
  returned (ok (record { access_token = "access"; refresh_token = "refresh" })),
  members regular,
)
refresh_never_example =
    refresh_never env "refresh" (record { access_token = "access"; refresh_token = "refresh" })
      (members regular) (members regular)

abbrev signup : String → RegisterCommand
signup email = record {
  email = email;
  password = "correct horse";
  first_name = "Eve";
  last_name = "M";
  phone = none;
  address = none;
}

register_refused_keeps_example :
    ((members ada).saved ≡ (members ada).saved) × ((members ada).published ≡ [])
unfolding handle_register memory
register_refused_keeps_example =
    register_refused_keeps env (signup "ada@example.org") (taken_detail ∷ []) (members ada)
      (members ada) refl

register_seeds_example :
    let cmd = signup "eve@example.org" in
    let row = seeded env cmd "$2b$1" quiet in
    let v = flushed env cmd "$2b$1" quiet in
    let (r, w') = handle_register env cmd quiet in
    (r ≡ returned (ok tt))
    × (w'.saved.users ≡ quiet.db.users ++ row ∷ [])
    × (w'.saved.otps
        ≡ burnt env row.id email_confirmation v
          ++ issued_row env row.id email_confirmation row.email v ∷ [])
    × (w'.published ≡ quiet.published ++ welcome env row v ∷ [])
unfolding rows_where memory hash_password to_bytes emails_unique content_type_eq kind_eq
    otp_cooldown_minutes
register_seeds_example =
    register_seeds env (signup "eve@example.org") "$2b$1" quiet refl refl refl refl refl refl

confirm_email_lets_in_example :
    (row : UserRow) × (rows_where env (λ u. str_eq u.email "ada@example.org") quiet ≡ row ∷ [])
    × ((handle_confirm_email env "ada@example.org" "111111" quiet).1.saved.users
        ≡ let_in row (ada ∷ []))
unfolding handle_confirm_email memory content_type_eq kind_eq emails_unique within_uow
confirm_email_lets_in_example =
    confirm_email_lets_in env "ada@example.org" "111111" quiet
      (handle_confirm_email env "ada@example.org" "111111" quiet).1 refl refl

-- A code for a password reset.
abbrev reset_code : OtpRow
reset_code = record (waiting 990_000_000) { kind = forgot_password }

abbrev resetting : World
resetting = world (reset_code ∷ [])

step3_resets_example :
    let changed = record ada { password = some "$2b$1" } in
    step3 env "ada@example.org" "111111" "correct horse" resetting ≡ (
      returned (ok "Password updated"),
      record resetting {
        db = record resetting.db { otps = claimed 5 1001 (reset_code ∷ []) };
        pending = write_user changed ∷ [];
        published = told env changed "correct horse" resetting ∷ [];
        readings = 2;
        draws = 1;
        uuids = 1;
      },
    )
unfolding rows_where memory hash_password to_bytes content_type_eq kind_eq
step3_resets_example =
    step3_resets env "ada@example.org" "111111" "correct horse" "$2b$1" ada reset_code resetting
      refl refl refl (omega arith) (omega arith) (tt, tt) refl

-- A late event and an early one.
abbrev notice : ℕ → ℕ → Event
notice id order = record {
  event_id = id;
  aggregate_id = 1;
  order = order;
  body = user_email_confirmed "ada@example.org";
}
