-- ===== src/Identity/Reset/Steps.antt =====
-- What the steps of a password reset leave.
use api_template.Base.{
  ℕ, ◌+◌, ◌≤◌, ◌≡◌, ◌≢◌, refl, ◌∙◌, ap, String, str_eq, true, false, none, some, [], ◌∷◌, ◌++◌,
  arith, filter, length, sorted_by, ltb,
}
use api_template.Kernel.Errors.{returned}
use api_template.Kernel.Result.{ok, err}
use api_template.Identity.Data.{
  UserRow, OtpRow, Event, forgot_password, user, forgot_password_step2, otp_cooldown_minutes,
}
use api_template.Identity.Passwords.{hash_password}
use api_template.Identity.Session.{Env, World, write_user, publish_many}
use api_template.Identity.Session.Keeps.{bind_step}
use api_template.Identity.Users.{set_password, full_name}
use api_template.Identity.UserRepository.{rows_where, find_by_email}
use api_template.Identity.UserRepository.Find.{find_none, find_one}
use api_template.Identity.OtpRepository.{
  to_detailed, coded, claimable, find_active_for_content, consume_by_id,
}
use api_template.Identity.Confirmation.{cooldown_detail, issue}
use api_template.Identity.Confirmation.Issue.{recent_rows, issue_refused}
use api_template.Identity.Confirmation.Confirm.{claimed}
use api_template.Identity.Confirmation.Keys.{IdsUnique, claimable_once}
use api_template.Identity.Registration.{neutral_sent}
use api_template.Identity.Registration.Register.{set_password_lem}
use api_template.Identity.Reset.{
  step1, step1_for, mail_reset_code, step2, step3, step3_for, spend_code, tell_changed,
  reset_password,
}

module _ (env : Env) where
  -- Checking a code, whatever the answer, leaves the tables, the session and the bus as they were:
  -- the code stays good for the step after.
  pub step2_spends_nothing :
      (email otp : String) (w : World)
      → let w' = (step2 env email otp w).1 in
        (w'.db ≡ w.db) × (w'.pending ≡ w.pending) × (w'.published ≡ w.published)
  unfolding step2
  step2_spends_nothing email otp w = ground arith

  -- Within the cooldown of a first request, a second one for a registered address is refused by its
  -- own detail, while for any address that is not registered the neutral answer comes.
  pub step1_cooldown_tells :
      (email other : String) (row : UserRow) (w : World)
      → rows_where env (λ u. str_eq u.email email) w ≡ row ∷ []
      → rows_where env (λ u. str_eq u.email other) w ≡ []
      → recent_rows row.id forgot_password w ≢ []
      → ((step1 env email w).0
          ≡ returned (err (cooldown_detail (otp_cooldown_minutes forgot_password) ∷ [])))
        × (step1 env other w ≡ (returned (ok neutral_sent), w))
  unfolding step1 step1_for mail_reset_code
  step1_cooldown_tells email other row w known unknown recent = (
    ap (λ r. r.0)
        (bind_step (find_by_email env email) (step1_for env) (some row) w w
            (find_one env email row w known)
          ∙ bind_step (issue env row.id forgot_password row.email) (mail_reset_code env row) _ w w
              (issue_refused env row.id forgot_password row.email w recent)),
    bind_step (find_by_email env other) (step1_for env) none w w (find_none env other w unknown),
  )

  find_code :
      (otp : String) (content_id : ℕ) (code : OtpRow) (w : World)
      → env.otps.newest (λ r. r.created_at) (coded otp content_id forgot_password user) w.db.otps
        ≡ some code
      → find_active_for_content env otp content_id forgot_password user w
        ≡ (returned (some (to_detailed code)), w)
  unfolding find_active_for_content
  find_code otp content_id code w h = rw h refl

  consume_lem :
      (id_ now : ℕ) (v : World)
      → length (filter (claimable id_ now) v.db.otps) ≡ 1
      → consume_by_id env id_ now v
        ≡ (returned true, record v { db = record v.db { otps = claimed id_ now v.db.otps } })
  unfolding consume_by_id
  consume_lem id_ now v once = rw (env.otps.rowcount_lem, once, env.otps.update_lem) refl

  spend_lem :
      (row : UserRow) (new_password : String) (code : OtpRow) (w : World)
      → env.clock w.readings ≤ code.expires_at
      → length (filter (claimable code.id (env.clock (w.readings + 1))) w.db.otps) ≡ 1
      → spend_code env row new_password (some (to_detailed code)) w
        ≡ reset_password env row new_password true (record w {
          db = record w.db { otps = claimed code.id (env.clock (w.readings + 1)) w.db.otps };
          readings = w.readings + 1 + 1;
        })
  unfolding spend_code to_detailed
  spend_lem row new_password code w in_time once =
      let fresh : ltb code.expires_at (env.clock w.readings) ≡ false = ground arith in
      rw fresh (
        bind_step (consume_by_id env code.id (env.clock (w.readings + 1)))
          (reset_password env row new_password) true (record w { readings = w.readings + 1 + 1 }) _
          (consume_lem code.id (env.clock (w.readings + 1))
            (record w { readings = w.readings + 1 + 1 }) once))

  -- The event that tells of the new password.
  abbrev pub told : UserRow → String → World → Event
  told row new_password w = record {
    event_id = env.uuid w.uuids;
    aggregate_id = row.id;
    order = 0;
    body = forgot_password_step2 row.email new_password (full_name env row);
  }

  reset_lem :
      (row : UserRow) (new_password hashed : String) (w : World)
      → hash_password env.bcrypt new_password (env.salt w.draws) ≡ returned hashed
      → let changed : UserRow = record row { password = some hashed } in
        reset_password env row new_password true w ≡ (
          returned (ok "Password updated"),
          record w {
            pending = w.pending ++ write_user changed ∷ [];
            published = w.published ++ told changed new_password w ∷ [];
            draws = w.draws + 1;
            uuids = w.uuids + 1;
          },
        )
  unfolding reset_password publish_many sorted_by
  reset_lem row new_password hashed w hash =
      bind_step (set_password env new_password row) (tell_changed env new_password)
        (record row { password = some hashed }) w (record w { draws = w.draws + 1 })
        (set_password_lem env new_password hashed row w hash)

  -- The third step with the newest code of the only user with the address, unused and in time, and
  -- a password that can be hashed: the code is claimed, the user gets the hash of the new password
  -- at the next flush, the bus one event, and no other row is touched.
  pub step3_resets :
      (email otp new_password hashed : String) (row : UserRow) (code : OtpRow) (w : World)
      → rows_where env (λ u. str_eq u.email email) w ≡ row ∷ []
      → env.otps.newest (λ r. r.created_at) (coded otp row.id forgot_password user) w.db.otps
        ≡ some code
      → code.used_at ≡ none
      → env.clock w.readings ≤ code.expires_at
      → env.clock (w.readings + 1) ≤ code.expires_at
      → IdsUnique w.db.otps
      → hash_password env.bcrypt new_password (env.salt w.draws) ≡ returned hashed
      → let changed : UserRow = record row { password = some hashed } in
        step3 env email otp new_password w ≡ (
          returned (ok "Password updated"),
          record w {
            db = record w.db { otps = claimed code.id (env.clock (w.readings + 1)) w.db.otps };
            pending = w.pending ++ write_user changed ∷ [];
            published = w.published ++ told changed new_password w ∷ [];
            readings = w.readings + 1 + 1;
            draws = w.draws + 1;
            uuids = w.uuids + 1;
          },
        )
  unfolding step3 step3_for
  step3_resets email otp new_password hashed row code w known newest unused in_time later unique
        hash =
      let (_, listed, _) = env.otps.newest_match _ _ w.db.otps code newest in
      let mine : claimable code.id (env.clock (w.readings + 1)) code ≡ true = ground arith in
      let once = claimable_once w.db.otps code (env.clock (w.readings + 1)) unique listed mine in
      bind_step (find_by_email env email) (step3_for env otp new_password) (some row) w w
        (find_one env email row w known)
      ∙ bind_step (find_active_for_content env otp row.id forgot_password user)
          (spend_code env row new_password) (some (to_detailed code)) w w
          (find_code otp row.id code w newest)
      ∙ spend_lem row new_password code w in_time once
      ∙ reset_lem row new_password hashed
          (record w {
            db = record w.db { otps = claimed code.id (env.clock (w.readings + 1)) w.db.otps };
            readings = w.readings + 1 + 1;
          })
          hash
