-- ===== src/Identity/Registration/Seeds.antt =====
-- A registration that succeeds: the account, its code and its mail.
use api_template.Base.{
  ◌+◌, ◌≡◌, refl, ◌∙◌, String, str_eq, true, false, [], ◌∷◌, ◌++◌, arith, sorted_by,
}
use api_template.Kernel.Errors.{returned}
use api_template.Kernel.Result.{ok}
use api_template.Identity.Data.{UserRow, Event, email_confirmation, user_registered}
use api_template.Identity.Passwords.{hash_password}
use api_template.Identity.Session.{
  Env, World, emails_unique, apply_changes, within_uow, publish_many, ◌>>=◌, add_otp,
}
use api_template.Identity.Session.UnitOfWork.{within_uow_commits}
use api_template.Identity.Session.Keeps.{bind_step}
use api_template.Identity.Users.{UserAggregate, full_name, add_domain_event, mark_registered}
use api_template.Identity.UserRepository.{rows_where}
use api_template.Identity.Confirmation.{issue}
use api_template.Identity.Confirmation.Issue.{issued_row, recent_rows, burnt, issue_held}
use api_template.Identity.Registration.{
  RegisterCommand, mark_issued, send_code, announce_user, register_user, register_valid,
  validate_register, handle_register,
}
use api_template.Identity.Registration.Register.{seeded, flushed, register_user_held}

-- The event that carries the code.
abbrev pub welcome : Env → UserRow → World → Event
welcome env row w = record {
  event_id = env.uuid (w.uuids + 1);
  aggregate_id = row.id;
  order = 0;
  body = user_registered row.email (env.otp_code w.draws) (full_name env row);
}

-- The world once the code has been issued and the event made, before anything is announced.
abbrev pub sent : Env → UserRow → World → World
sent env row w = record w {
  db = record w.db { otps = burnt env row.id email_confirmation w };
  pending = w.pending ++ add_otp (issued_row env row.id email_confirmation row.email w) ∷ [];
  readings = w.readings + 1;
  draws = w.draws + 1;
  uuids = w.uuids + 1 + 1;
}

module _ (env : Env) where
  mark_issued_lem :
      (code : String) (user : UserAggregate) (v : World)
      → str_eq user.row.email "" ≡ false
      → mark_issued env user (ok code) v ≡ (
        returned (
            ok (
              add_domain_event
                (record {
                  event_id = env.uuid v.uuids;
                  aggregate_id = user.row.id;
                  order = 0;
                  body = user_registered user.row.email code (full_name env user.row);
                })
                user)),
        record v { uuids = v.uuids + 1 },
      )
  unfolding mark_issued mark_registered
  mark_issued_lem code user v named = ground arith

  pub send_code_lem :
      (user : UserAggregate) (w : World)
      → recent_rows user.row.id email_confirmation w ≡ []
      → str_eq user.row.email "" ≡ false
      → send_code env user w
        ≡ (returned (ok (add_domain_event (welcome env user.row w) user)), sent env user.row w)
  unfolding send_code
  send_code_lem user w cool named =
      bind_step (issue env user.row.id email_confirmation user.row.email) (mark_issued env user)
        (ok (env.otp_code w.draws)) w (record (sent env user.row w) { uuids = w.uuids + 1 })
        (issue_held env user.row.id email_confirmation user.row.email w cool)
      ∙ mark_issued_lem (env.otp_code w.draws) user
          (record (sent env user.row w) { uuids = w.uuids + 1 }) named

  validate_free :
      (cmd : RegisterCommand) (w : World)
      → rows_where env (λ u. str_eq u.email cmd.email) w ≡ []
      → validate_register env cmd w ≡ (returned (ok tt), w)
  unfolding validate_register
  validate_free cmd w free = ground arith

  -- A registration with a free address and a password that can be hashed commits an account that
  -- cannot be used yet, and one unused code for it, and gives the bus one event with that code.
  -- Nothing was pending, the addresses stay unique, and no code was sent to the new id.
  pub register_seeds :
      (cmd : RegisterCommand) (hashed : String) (w : World)
      → rows_where env (λ u. str_eq u.email cmd.email) w ≡ []
      → w.pending ≡ []
      → hash_password env.bcrypt cmd.password (env.salt w.draws) ≡ returned hashed
      → emails_unique (w.db.users ++ seeded env cmd hashed w ∷ []) ≡ true
      → str_eq cmd.email "" ≡ false
      → recent_rows (env.uuid w.uuids) email_confirmation (flushed env cmd hashed w) ≡ []
      → let row = seeded env cmd hashed w in
        let v = flushed env cmd hashed w in
        let (r, w') = handle_register env cmd w in
        (r ≡ returned (ok tt))
        × (w'.saved.users ≡ w.db.users ++ row ∷ [])
        × (w'.saved.otps
            ≡ burnt env row.id email_confirmation v
              ++ issued_row env row.id email_confirmation row.email v ∷ [])
        × (w'.published ≡ w.published ++ welcome env row v ∷ [])
  unfolding handle_register register_valid apply_changes announce_user publish_many sorted_by
  register_seeds cmd hashed w free settled hash unique named cool =
      let row : UserRow = seeded env cmd hashed w in
      let v : World = flushed env cmd hashed w in
      let valid =
        bind_step (validate_register env cmd) (register_valid env cmd) (ok tt) w w
          (validate_free cmd w free) in
      let body = bind_step (register_user env cmd) (announce_user env) _ w (sent env row v) (
        register_user_held env cmd hashed w settled hash unique
        ∙ send_code_lem (record { row = row; events = [] }) v cool named) in
      let done : World = record (sent env row v) {
        published = w.published ++ welcome env row v ∷ [];
      } in
      let whole : handle_register env cmd w
          ≡ within_uow env (register_user env cmd >>= announce_user env) w =
        valid in
      rw
        (
          whole,
          within_uow_commits env (register_user env cmd >>= announce_user env) w done (ok tt) body
              unique,
          env.otps.insert_lem,
        )
        (refl, refl, refl, refl)
