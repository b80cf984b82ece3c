-- ===== src/Identity/Tests.antt =====
-- Concrete requests: an owner whose old code is retired, issued a new one, and confirmed.
use api_template.Base.{ℕ, ◌+◌, ◌≡◌, refl, true, false, none, List, [], ◌∷◌, ◌++◌, filter, arith}
use api_template.Base.{Bool-cases, inl, inr, ap, some, String, str_eq, str_eq_refl, if◌then◌else◌}
use api_template.Identity.Passwords.{Bcrypt, is_bcrypt_hash}
use api_template.Identity.Tokens.{Jwt, JwtPayload, refresh_token, is_refresh}
use api_template.Base.{false}
use api_template.Identity.OtpRepository.{consume_by_id}
use api_template.Identity.Confirmation.Race.{consume_race}
use api_template.Kernel.Errors.{returned}
use api_template.Kernel.Result.{ok, err}
use api_template.Sql.{Has}
use api_template.Sql.Memory.{memory}
use api_template.Identity.Data.{
  OtpRow, UserRow, content_type_eq, kind_eq, otp_cooldown_minutes, email_confirmation, user,
  status_active,
}
use api_template.Identity.Session.{emails_unique, Env, World, add_user, Action, modify, within_uow}
use api_template.Identity.Session.UnitOfWork.{Ends, within_uow_atomic}
use api_template.Identity.OtpRepository.{coded, pending_for}
use api_template.Identity.Confirmation.{Detail, issue, confirm}
use api_template.Identity.Confirmation.Issue.{issued_row, issue_retires}
use api_template.Identity.Confirmation.Confirm.{Accepts, confirm-Accepts}
use api_template.Identity.Confirmation.Lifecycle.{confirm_once, issue_then_confirm}

-- A bcrypt that tells one password from all others.
abbrev pub toy_hash : String → String
toy_hash password = if str_eq password "correct horse" then "$2b$1" else "$2b$0"

pub toy_prefix : (password : String) → is_bcrypt_hash (toy_hash password) ≡ true
unfolding is_bcrypt_hash
toy_prefix password = elim (Bool-cases (str_eq password "correct horse")) [
  | inl e ↦ rw e refl
  | inr e ↦ rw e refl
]

abbrev pub toy_bcrypt : Bcrypt
toy_bcrypt = record {
  hashpw = λ password salt. toy_hash password;
  checkpw = λ password hashed. some (str_eq (toy_hash password) hashed);
  hashpw_prefix = λ password salt. toy_prefix password;
  checkpw_hashpw = λ password salt. ap some (str_eq_refl (toy_hash password));
}

abbrev pub refresh_payload : JwtPayload
refresh_payload = record {
  token_type = refresh_token;
  exp = 5000;
  iat = 900;
  jti = 3;
  user_id = 1;
  last_login_time = 0;
}

-- A signer that knows one refresh token.
abbrev pub toy_jwt : Jwt
toy_jwt = record {
  encode = λ p. if is_refresh p.token_type then "refresh" else "access";
  decode = λ now token. if str_eq token "refresh" then some refresh_payload else none;
  access_token_lifetime = 300;
  refresh_token_lifetime = 4000;
}

abbrev pub env : Env
env = record {
  users = memory;
  otps = memory;
  clock = λ n. 1000 + n;
  now = λ n. 1_000_000_000 + n;
  otp_code = λ n. "482913";
  salt = λ n. "salt";
  uuid = λ n. 70 + n;
  strip = λ s. s;
  bcrypt = toy_bcrypt;
  jwt = toy_jwt;
}

abbrev pub ada : UserRow
ada = record {
  id = 1;
  email = "ada@example.org";
  password = none;
  phone = none;
  first_name = "Ada";
  last_name = "L";
  address = none;
  description = none;
  information = none;
  avatar_id = none;
  is_active = true;
  is_superuser = false;
  email_confirmed = false;
  status = status_active;
  date_joined = 0;
  last_login_time = none;
}

-- A code of Ada's that was issued at `created_at`, and that nobody has used.
abbrev pub waiting : ℕ → OtpRow
waiting created_at = record {
  id = 5;
  otp = "111111";
  content_id = 1;
  content_type = user;
  kind = email_confirmation;
  used_at = none;
  expires_at = 1800;
  target_value = "ada@example.org";
  verified = false;
  created_at = created_at;
}

abbrev pub world : List OtpRow → World
world otps = record {
  db = record { users = ada ∷ []; otps = otps };
  saved = record { users = ada ∷ []; otps = otps };
  pending = [];
  published = [];
  db_now = 1_000_000_000;
  readings = 0;
  draws = 0;
  uuids = 0;
}

abbrev pub quiet : World
quiet = world (waiting 100_000_000 ∷ [])

abbrev hasty : World
hasty = world (waiting 990_000_000 ∷ [])

issue_retires_example :
    let (r, w') = within_uow env (issue env 1 email_confirmation "ada@example.org") quiet in
    (r ≡ returned (ok "482913"))
    × (filter (pending_for 1 user email_confirmation) w'.saved.otps
        ≡ issued_row env 1 email_confirmation "ada@example.org" quiet ∷ [])
    × (w'.db ≡ w'.saved)
unfolding content_type_eq kind_eq otp_cooldown_minutes emails_unique
issue_retires_example =
    issue_retires env 1 email_confirmation "ada@example.org" quiet refl refl refl

-- The world after Ada's waiting code has been confirmed.
abbrev confirmed : World
confirmed = (confirm env 1 "111111" email_confirmation quiet).1

confirm-Accepts_example :
    (row : OtpRow) × Has row quiet.db.otps
    × (coded "111111" 1 email_confirmation user row ≡ true)
    × (1 ≡ row.content_id)
    × Accepts env row quiet confirmed
unfolding confirm memory content_type_eq kind_eq
confirm-Accepts_example = confirm-Accepts env 1 "111111" 1 quiet confirmed refl

confirm_once_example :
    (d : Detail) × (confirm env 1 "111111" email_confirmation confirmed
      ≡ (returned (err (d ∷ [])), confirmed))
unfolding confirm memory content_type_eq kind_eq
confirm_once_example =
    confirm_once env 1 "111111" 1 quiet confirmed (tt, tt) (omega arith) refl "111111" confirmed
      refl

-- The request after the one that issued a code.
abbrev later : World
later = record (world []) {
  db = (within_uow env (issue env 1 email_confirmation "ada@example.org") quiet).1.saved;
  readings = 1;
}

issue_then_confirm_example : (confirm env 1 "482913" email_confirmation later).0 ≡ returned (ok 1)
unfolding content_type_eq kind_eq otp_cooldown_minutes emails_unique within_uow issue memory
issue_then_confirm_example =
    issue_then_confirm env 1 "ada@example.org" quiet later refl refl refl refl
      (((λ e. omega arith), tt), (tt, tt)) (omega arith) (omega arith)

abbrev add : UserRow → Action (Unit {0})
add u = modify λ w. record w { pending = w.pending ++ add_user u ∷ [] }

abbrev eve : UserRow
eve = record ada { id = 2; email = "eve@example.org" }

within_uow_atomic_example :
    let (r, w') = within_uow env (add eve) (world []) in
    (w'.db ≡ w'.saved) × (w'.pending ≡ []) × Ends env (add eve (world [])).1 w' r
within_uow_atomic_example = within_uow_atomic env (add eve) (world [])

consume_race_example :
    (consume_by_id env 5 1200 (consume_by_id env 5 1100 quiet).1).0 ≡ returned false
unfolding consume_by_id memory
consume_race_example =
    consume_race env 5 1100 1200 quiet (consume_by_id env 5 1100 quiet).1 (tt, tt) refl
