-- ===== src/Identity/Confirmation.antt =====
-- application/identity/services/user_confirmation_service.py: issuing and confirming a code.
pub mod Issue
pub mod Confirm
pub mod Keys
pub mod Lifecycle
pub mod Race
use api_template.Base.{
  ℕ, ◌+◌, ◌*◌, String, false, ◌||◌, Option, none, some, List, [], ◌∷◌, ltb, is_some, if◌then◌else◌,
}
use api_template.Kernel.Errors.{
  AppExceptionDetail, text, formatted, invalid_otp, otp_already_verified, otp_expired,
  otp_resend_cooldown, runtime_error,
}
use api_template.Kernel.Result.{Result, ok, err}
use api_template.Identity.Data.{
  OtpKind, email_confirmation, forgot_password, user, otp_ttl_minutes, otp_cooldown_minutes,
  EventBody, user_email_confirmed,
}
use api_template.Identity.Session.{
  Env, Action, ◌>>=◌, ◌>>◌, pure, raise, publish, read_clock, draw_code, uuid7,
}
use api_template.Identity.OtpRepository.{
  OtpDetailedDto, create, find_active_for_content, consume_by_id, has_recent_issue,
  invalidate_pending,
}

-- `ResultDetailed`; the payload of these details is the empty dict.
abbrev pub Detail : Type 0
Detail = AppExceptionDetail (Unit {0})

abbrev pub ResultDetailed : Type 0 → Type 0
ResultDetailed A = Result A (List Detail)

abbrev pub invalid_otp_detail : Detail
invalid_otp_detail = record {
  status = invalid_otp;
  message = some (text "Invalid OTP provided");
  field = some "otp";
  payload = tt;
}

abbrev pub already_used : Detail
already_used = record {
  status = otp_already_verified;
  message = some (text "OTP has already been verified");
  field = some "otp";
  payload = tt;
}

abbrev pub expired : Detail
expired = record {
  status = otp_expired;
  message = some (text "OTP has expired");
  field = some "otp";
  payload = tt;
}

abbrev pub cooldown_detail : ℕ → Detail
cooldown_detail minutes = record {
  status = otp_resend_cooldown;
  message = some (formatted "A new code can be requested once every " minutes " min.");
  field = none;
  payload = tt;
}

-- `_EVENT_BY_KIND`: what is announced of the proven value.
unfoldable pub event_by_kind : OtpKind → Option (String → EventBody)
event_by_kind email_confirmation = some user_email_confirmed
event_by_kind forgot_password = none

module _ (env : Env) where
  -- `issue` after the cooldown has been checked.
  unfoldable pub issue_new : ℕ → OtpKind → String → Action (ResultDetailed String)
  unfolding read_clock draw_code invalidate_pending create otp_ttl_minutes
  issue_new content_id kind target_value = do
    now ← read_clock env
    invalidate_pending env content_id user kind now
    code ← draw_code env
    create env (record {
      otp = code;
      content_id = content_id;
      content_type = user;
      kind = kind;
      expires_at = now + otp_ttl_minutes kind * 60;
      target_value = target_value;
      verified = false;
    })
    pure (ok code)

  unfoldable pub issue : ℕ → OtpKind → String → Action (ResultDetailed String)
  unfolding has_recent_issue issue_new
  issue content_id kind target_value = do
    let cooldown = otp_cooldown_minutes kind
    recent ← has_recent_issue env content_id user kind cooldown
    if recent
        then pure (err (cooldown_detail cooldown ∷ []))
        else issue_new content_id kind target_value

  -- `confirm` once the row has been claimed.
  announce : OtpDetailedDto → (String → EventBody) → Action (ResultDetailed ℕ)
  unfolding publish uuid7
  announce found event_type = do
    id ← uuid7 env
    publish (record {
      event_id = id;
      aggregate_id = found.content_id;
      order = 0;
      body = event_type found.target_value;
    })
    pure (ok found.content_id)

  -- `confirm` once a row has been found.
  unfoldable pub confirm_found : OtpDetailedDto → (String → EventBody) → Action (ResultDetailed ℕ)
  unfolding read_clock consume_by_id announce
  confirm_found found event_type =
      if is_some found.used_at || found.verified then pure (err (already_used ∷ [])) else do
        now ← read_clock env
        if ltb found.expires_at now then pure (err (expired ∷ [])) else do
          later ← read_clock env
          won ← consume_by_id env found.id later
          if won then announce found event_type else pure (err (already_used ∷ []))

  -- `confirm` for a kind that the service announces.
  unfoldable pub confirm_kind :
      ℕ → String → OtpKind → (String → EventBody) → Action (ResultDetailed ℕ)
  unfolding find_active_for_content confirm_found
  confirm_kind content_id otp kind event_type = do
    found ← find_active_for_content env otp content_id kind user
    elim found [
      | none ↦ pure (err (invalid_otp_detail ∷ []))
      | some row ↦ confirm_found row event_type
    ]

  unfoldable pub confirm : ℕ → String → OtpKind → Action (ResultDetailed ℕ)
  unfolding event_by_kind confirm_kind
  confirm content_id otp kind = elim (event_by_kind kind) [
    | none ↦ raise runtime_error
    | some event_type ↦ confirm_kind content_id otp kind event_type
  ]
