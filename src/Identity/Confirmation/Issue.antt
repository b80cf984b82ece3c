-- ===== src/Identity/Confirmation/Issue.antt =====
-- What `issue` of user_confirmation_service.py does to the table of codes.
use api_template.Base.{
  ℕ, ◌+◌, ◌*◌, ◌≡◌, ◌≢◌, refl, String, true, false, none, List, [], ◌∷◌, ◌++◌, map, filter,
  filter-append, arith, ◌&&◌, if◌then◌else◌,
}
use api_template.Kernel.Errors.{returned}
use api_template.Kernel.Result.{ok, err}
use api_template.Sql.Laws.{filter-map-nil}
use api_template.Identity.Data.{
  OtpKind, user, OtpRow, otp_ttl_minutes, otp_cooldown_minutes, kind_eq_refl, content_type_eq,
}
use api_template.Identity.Session.{Env, World, add_otp, emails_unique, apply_changes, within_uow}
use api_template.Identity.Session.UnitOfWork.{within_uow_commits}
use api_template.Identity.OtpRepository.{owned_by, issued_since, pending_for, burn}
use api_template.Identity.Confirmation.{cooldown_detail, issue}

-- The row that an issue at `w` adds.
abbrev pub issued_row : Env → ℕ → OtpKind → String → World → OtpRow
issued_row env content_id kind target_value w = record {
  id = env.uuid w.uuids;
  otp = env.otp_code w.draws;
  content_id = content_id;
  content_type = user;
  kind = kind;
  used_at = none;
  expires_at = env.clock w.readings + otp_ttl_minutes kind * 60;
  target_value = target_value;
  verified = false;
  created_at = w.db_now;
}

-- The rows for this owner and kind that the cooldown looks at.
abbrev pub recent_rows : ℕ → OtpKind → World → List OtpRow
recent_rows content_id kind w =
    filter
      (λ row.
        owned_by content_id user kind row && issued_since w.db_now (otp_cooldown_minutes kind) row)
      w.db.otps

abbrev pub burnt : Env → ℕ → OtpKind → World → List OtpRow
burnt env content_id kind w =
    map (λ r. if pending_for content_id user kind r then burn (env.clock w.readings) r else r)
      w.db.otps

module _ (env : Env) (content_id : ℕ) (kind : OtpKind) (target_value : String) (w : World) where
  -- What the session holds after the code has been issued, and before the commit.
  pub issue_held :
      recent_rows content_id kind w ≡ []
      → issue env content_id kind target_value w ≡ (
        returned (ok (env.otp_code w.draws)),
        record w {
          db = record w.db { otps = burnt env content_id kind w };
          pending = w.pending ++ add_otp (issued_row env content_id kind target_value w) ∷ [];
          readings = w.readings + 1;
          draws = w.draws + 1;
          uuids = w.uuids + 1;
        },
      )
  unfolding issue
  issue_held cool = rw (env.otps.select_lem, cool, env.otps.update_lem) refl

  -- While a code of this owner and kind is younger than the cooldown, `issue` refuses, and leaves
  -- everything as it was.
  pub issue_refused :
      recent_rows content_id kind w ≢ []
      → issue env content_id kind target_value w
        ≡ (returned (err (cooldown_detail (otp_cooldown_minutes kind) ∷ [])), w)
  unfolding issue
  issue_refused recent = rw env.otps.select_lem (ground arith)

  none_pending : filter (pending_for content_id user kind) (burnt env content_id kind w) ≡ []
  none_pending =
      filter-map-nil (pending_for content_id user kind) (pending_for content_id user kind)
        (burn (env.clock w.readings)) w.db.otps (λ x m. ground arith)

  -- What a committed issue leaves.
  pub issue_saved :
      recent_rows content_id kind w ≡ []
      → w.pending ≡ []
      → emails_unique w.db.users ≡ true
      → let (r, w') = within_uow env (issue env content_id kind target_value) w in
        (r ≡ returned (ok (env.otp_code w.draws)))
        × (w'.saved.otps
            ≡ burnt env content_id kind w ++ issued_row env content_id kind target_value w ∷ [])
        × (w'.db ≡ w'.saved)
  unfolding apply_changes
  issue_saved cool settled unique =
      let held : World = record w {
        db = record w.db { otps = burnt env content_id kind w };
        pending = add_otp (issued_row env content_id kind target_value w) ∷ [];
        readings = w.readings + 1;
        draws = w.draws + 1;
        uuids = w.uuids + 1;
      } in
      let e : issue env content_id kind target_value w
          ≡ (returned (ok (env.otp_code w.draws)), held) =
        rw (issue_held cool, settled) refl in
      rw
        (
          within_uow_commits env (issue env content_id kind target_value) w held _ e unique,
          env.otps.insert_lem,
        )
        (refl, refl, refl)

  -- Once an issue is committed, its code is the only one of this owner and kind that is not used.
  pub issue_retires :
      recent_rows content_id kind w ≡ []
      → w.pending ≡ []
      → emails_unique w.db.users ≡ true
      → let (r, w') = within_uow env (issue env content_id kind target_value) w in
        (r ≡ returned (ok (env.otp_code w.draws)))
        × (filter (pending_for content_id user kind) w'.saved.otps
            ≡ issued_row env content_id kind target_value w ∷ [])
        × (w'.db ≡ w'.saved)
  issue_retires cool settled unique =
      let (r, saved, same) = issue_saved cool settled unique in
      (
        r,
        rw (saved, filter-append, none_pending)
            (unfold content_type_eq in ground (arith, kind_eq_refl kind)),
        same,
      )
