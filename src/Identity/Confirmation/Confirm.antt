-- ===== src/Identity/Confirmation/Confirm.antt =====
-- What `confirm` of user_confirmation_service.py accepts, and what it does to the table of codes.
use api_template.Base.{
  ℕ, ◌+◌, ◌≤◌, ◌≡◌, refl, String, Bool, true, false, none, some, List, [], ◌∷◌, ◌++◌, map, filter,
  length, arith, is_some, if◌then◌else◌, Option-cases, inl, inr,
}
use api_template.Kernel.Errors.{returned}
use api_template.Kernel.Result.{ok, err}
use api_template.Sql.{Has}
use api_template.Sql.Laws.{Has-filter}
use api_template.Identity.Data.{email_confirmation, user, user_email_confirmed, OtpRow, Event}
use api_template.Identity.Session.{Env, World}
use api_template.Identity.OtpRepository.{to_detailed, coded, pending_for, claimable, claim}
use api_template.Identity.Confirmation.{
  Detail, invalid_otp_detail, already_used, confirm_found, confirm,
}

-- The table after a claim of the row `id_` at the epoch `now`.
abbrev pub claimed : ℕ → ℕ → List OtpRow → List OtpRow
claimed id_ now rows = map (λ r. if claimable id_ now r then claim now r else r) rows

-- The event that a confirmation of `row` announces.
abbrev pub confirmed_event : Env → World → OtpRow → Event
confirmed_event env w row = record {
  event_id = env.uuid w.uuids;
  aggregate_id = row.content_id;
  order = 0;
  body = user_email_confirmed row.target_value;
}

-- Why a confirmation of the row at `w` is allowed, and what it leaves.
pub record Accepts (env : Env) (row : OtpRow) (w w' : World) : Type 0 where
  pub unused : row.used_at ≡ none
  pub unverified : row.verified ≡ false
  pub in_time : env.clock w.readings ≤ row.expires_at
  pub won : length (filter (claimable row.id (env.clock (w.readings + 1))) w.db.otps) ≡ 1
  pub claims : w'.db.otps ≡ claimed row.id (env.clock (w.readings + 1)) w.db.otps
  pub announces : w'.published ≡ w.published ++ confirmed_event env w row ∷ []
  pub users_kept : w'.db.users ≡ w.db.users
  pub pending_kept : w'.pending ≡ w.pending

module _ (env : Env) where
  confirm_found-Accepts :
      (row : OtpRow) (c : ℕ) (w w' : World)
      → confirm_found env (to_detailed row) user_email_confirmed w ≡ (returned (ok c), w')
      → (c ≡ row.content_id) × Accepts env row w w'
  unfolding confirm_found to_detailed
  confirm_found-Accepts row c w w' h = (
    ground arith,
    record {
      unused = ground arith;
      unverified = ground arith;
      in_time = ground arith;
      won =
          ground (
            arith,
            env.otps.rowcount_lem (claimable row.id (env.clock (w.readings + 1))) w.db.otps,
          );
      claims = ground (
        arith,
        env.otps.update_lem (claimable row.id (env.clock (w.readings + 1)))
            (claim (env.clock (w.readings + 1))) w.db.otps,
      );
      announces = ground arith;
      users_kept = ground arith;
      pending_kept = ground arith;
    },
  )

  -- A confirmation that succeeds has found an unused, unverified and unexpired row with this code,
  -- owner and kind; it answers the owner, claims that row alone, and announces it once.
  pub confirm-Accepts :
      (content_id : ℕ) (otp : String) (c : ℕ) (w w' : World)
      → confirm env content_id otp email_confirmation w ≡ (returned (ok c), w')
      → (row : OtpRow) × Has row w.db.otps
        × (coded otp content_id email_confirmation user row ≡ true)
        × (c ≡ row.content_id)
        × Accepts env row w w'
  unfolding confirm
  confirm-Accepts content_id otp c w w' h =
      let test : OtpRow → Bool = coded otp content_id email_confirmation user in
      elim (Option-cases (env.otps.newest (λ row. row.created_at) test w.db.otps)) [
        | inl e ↦ cc (rw e at h)
        | inr (row, e) ↦
            let (passes, listed, _) =
              env.otps.newest_match (λ row. row.created_at) test w.db.otps row e in
            let (same, accepts) = confirm_found-Accepts row c w w' (rw e at h) in
            (row, listed, passes, same, accepts)
      ]

  confirm_found_used :
      (row : OtpRow) (w : World)
      → is_some row.used_at ≡ true
      → confirm_found env (to_detailed row) user_email_confirmed w
        ≡ (returned (err (already_used ∷ [])), w)
  unfolding confirm_found to_detailed
  confirm_found_used row w h = rw h refl

  -- An unused row that is in time, and that the claim matches alone, is confirmed.
  pub confirm_found_wins :
      (row : OtpRow) (w : World)
      → row.used_at ≡ none
      → row.verified ≡ false
      → env.clock w.readings ≤ row.expires_at
      → length (filter (claimable row.id (env.clock (w.readings + 1))) w.db.otps) ≡ 1
      → (confirm_found env (to_detailed row) user_email_confirmed w).0
        ≡ returned (ok row.content_id)
  unfolding confirm_found to_detailed
  confirm_found_wins row w unused unverified in_time once =
      ground
        (arith, env.otps.rowcount_lem (claimable row.id (env.clock (w.readings + 1))) w.db.otps)

  -- The row that the lookup finds decides a confirmation.
  pub confirm_by_row :
      (content_id : ℕ) (otp : String) (row : OtpRow) (w : World)
      → env.otps.newest (λ r. r.created_at) (coded otp content_id email_confirmation user) w.db.otps
        ≡ some row
      → confirm env content_id otp email_confirmation w
        ≡ confirm_found env (to_detailed row) user_email_confirmed w
  unfolding confirm
  confirm_by_row content_id otp row w e = rw e refl

  -- Where nothing is pending, every row of the owner is used.
  used :
      (content_id : ℕ) (otp : String) (row : OtpRow) (w : World)
      → filter (pending_for content_id user email_confirmation) w.db.otps ≡ []
      → Has row w.db.otps
      → coded otp content_id email_confirmation user row ≡ true
      → is_some row.used_at ≡ true
  used content_id otp row w h listed passes = elim (Option-cases row.used_at) [
    | inl e ↦
        let p : pending_for content_id user email_confirmation row ≡ true = ground arith in
        elim (rw h at
          (Has-filter (pending_for content_id user email_confirmation) w.db.otps row listed p)) [ ]
    | inr (t, e) ↦ rw e refl
  ]

  -- While no code of this owner and kind is unused, a confirmation is refused, whatever the code,
  -- and changes nothing.
  pub confirm_none_pending :
      (content_id : ℕ) (otp : String) (w : World)
      → filter (pending_for content_id user email_confirmation) w.db.otps ≡ []
      → (d : Detail) × (confirm env content_id otp email_confirmation w
          ≡ (returned (err (d ∷ [])), w))
  unfolding confirm
  confirm_none_pending content_id otp w h =
      let test : OtpRow → Bool = coded otp content_id email_confirmation user in
      elim (Option-cases (env.otps.newest (λ row. row.created_at) test w.db.otps)) [
        | inl e ↦ (invalid_otp_detail, rw e refl)
        | inr (row, e) ↦
            let (passes, listed, _) =
              env.otps.newest_match (λ row. row.created_at) test w.db.otps row e in
            (
              already_used,
              rw e (confirm_found_used row w (used content_id otp row w h listed passes)),
            )
      ]
