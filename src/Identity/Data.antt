-- ===== src/Identity/Data.antt =====
-- The rows of the two identity tables (data_access/orm/identity/models/user_orm_model.py), the
-- events of domain/identity/events.py, and the enums and constants of domain/identity/constants.
-- A UUID is a number, a point in time a number of microseconds, an epoch a number of seconds.
use api_template.Base.{ℕ, ◌≡◌, refl, String, Bool, true, false, Option}

-- `OtpKindEnum`
pub data OtpKind : Type 0 where
  email_confirmation forgot_password : OtpKind

-- `ContentTypeEnum`
pub data ContentType : Type 0 where
  user : ContentType

unfoldable pub kind_eq : OtpKind → OtpKind → Bool
kind_eq email_confirmation email_confirmation = true
kind_eq forgot_password forgot_password = true
kind_eq _ _ = false

pub kind_eq_refl : (kind : OtpKind) → kind_eq kind kind ≡ true
unfolding kind_eq
kind_eq_refl email_confirmation = refl
kind_eq_refl forgot_password = refl

unfoldable pub content_type_eq : ContentType → ContentType → Bool
content_type_eq user user = true

unfoldable pub otp_ttl_minutes : OtpKind → ℕ
otp_ttl_minutes email_confirmation = 15
otp_ttl_minutes forgot_password = 15

unfoldable pub otp_cooldown_minutes : OtpKind → ℕ
otp_cooldown_minutes email_confirmation = 1
otp_cooldown_minutes forgot_password = 1

-- `OtpOrmModel`; `otp` can be NULL in the table, but only rows with a code are ever made;
-- `used_at` and `expires_at` are epochs, `created_at` is a point in time.
pub record OtpRow : Type 0 where
  pub id : ℕ
  pub otp : String
  pub content_id : ℕ
  pub content_type : ContentType
  pub kind : OtpKind
  pub used_at : Option ℕ
  pub expires_at : ℕ
  pub target_value : String
  pub verified : Bool
  pub created_at : ℕ

-- `STATUS_ACTIVE` and `STATUS_INACTIVE`
abbrev pub status_active : ℕ
status_active = 1

abbrev pub status_inactive : ℕ
status_inactive = 0

-- `UserOrmModel`, of whose mixins only `status` is read by an operation of the model.
pub record UserRow : Type 0 where
  pub id : ℕ
  pub email : String
  pub password : Option String
  pub phone : Option String
  pub first_name : String
  pub last_name : String
  pub address : Option String
  pub description : Option String
  pub information : Option String
  pub avatar_id : Option ℕ
  pub is_active : Bool
  pub is_superuser : Bool
  pub email_confirmed : Bool
  pub status : ℕ
  pub date_joined : ℕ
  pub last_login_time : Option ℕ

-- What each event carries besides the fields of `DomainEvent`.
pub data EventBody : Type 0 where
  user_registered : (recipient otp_code full_name : String) → EventBody
  user_email_confirmed : (target_value : String) → EventBody
  forgot_password_step1 : (recipient otp_code : String) → EventBody
  forgot_password_step2 : (recipient new_password full_name : String) → EventBody

pub record Event : Type 0 where
  pub event_id : ℕ
  pub aggregate_id : ℕ
  pub order : ℕ
  pub body : EventBody
