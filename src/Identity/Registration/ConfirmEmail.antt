-- ===== src/Identity/Registration/ConfirmEmail.antt =====
-- What the handler that confirms an address does to the account.
use api_template.Base.{
  ℕ, ◌≡◌, ◌≢◌, refl, ◌∙◌, ap, String, str_eq, str_eq_iff, true, false, none, some, List, [], ◌∷◌,
  ◌++◌, arith, filter, map, if◌then◌else◌, List-cases, ◌==◌, inl, inr,
}
use api_template.Kernel.Errors.{returned, text, formatted}
use api_template.Kernel.Result.{ok, err}
use api_template.Identity.Data.{UserRow, email_confirmation, user, status_active, status_inactive}
use api_template.Identity.Session.{Env, World, write_user, apply_changes}
use api_template.Identity.Session.Keeps.{bind_step, bind-returned, within_uow-returned}
use api_template.Identity.Users.{confirm_email}
use api_template.Identity.UserRepository.{rows_where, find_by_email, toggled}
use api_template.Identity.UserRepository.Find.{find_none, find_one, find_many}
use api_template.Identity.OtpRepository.{coded}
use api_template.Identity.Confirmation.{Detail, ResultDetailed, invalid_otp_detail, confirm}
use api_template.Identity.Confirmation.Confirm.{confirm-Accepts}
use api_template.Identity.Registration.{
  invalid_code_detail, activate_user, confirm_for, confirm_address, handle_confirm_email,
}

message_of : Detail → String
message_of d = elim d.message [ none ↦ "" | some m ↦ elim m [ text s ↦ s | formatted a n b ↦ a ] ]

module _ (env : Env) where
  confirm_unknown_code :
      (content_id : ℕ) (otp : String) (w : World)
      → filter (coded otp content_id email_confirmation user) w.db.otps ≡ []
      → confirm env content_id otp email_confirmation w
        ≡ (returned (err (invalid_otp_detail ∷ [])), w)
  unfolding confirm
  confirm_unknown_code content_id otp w h =
      rw
        (env.otps.newest_none (λ r. r.created_at) (coded otp content_id email_confirmation user)
          w.db.otps h)
        refl

  details_differ : invalid_code_detail ≢ invalid_otp_detail
  unfolding message_of
  details_differ e = absurd (
      let g =
        (str_eq_iff (message_of invalid_code_detail) (message_of invalid_otp_detail)).1
          (ap message_of e) in
      cc)

  -- Confirming with a code that does not exist answers one detail for an address that is not
  -- registered, and a different one for an address that is.
  pub confirm_email_tells :
      (email other otp : String) (row : UserRow) (w : World)
      → rows_where env (λ u. str_eq u.email other) w ≡ []
      → rows_where env (λ u. str_eq u.email email) w ≡ row ∷ []
      → filter (coded otp row.id email_confirmation user) w.db.otps ≡ []
      → ((confirm_address env other otp w).0 ≡ returned (err (invalid_code_detail ∷ [])))
        × ((confirm_address env email otp w).0 ≡ returned (err (invalid_otp_detail ∷ [])))
        × (invalid_code_detail ≢ invalid_otp_detail)
  unfolding confirm_address confirm_for activate_user
  confirm_email_tells email other otp row w unknown known no_code = (
    ap (λ r. r.0)
        (bind_step (find_by_email env other) (confirm_for env otp) none w w
          (find_none env other w unknown)),
    ap (λ r. r.0)
        (bind_step (find_by_email env email) (confirm_for env otp) (some row) w w
            (find_one env email row w known)
          ∙ bind_step (confirm env row.id otp email_confirmation) (activate_user env row) _ w w
              (confirm_unknown_code row.id otp w no_code)),
    details_differ,
  )

-- The users, with the account of `row` active and its address confirmed.
abbrev pub let_in : UserRow → List UserRow → List UserRow
let_in row users =
    map (λ u. if u.id == row.id then record row { email_confirmed = true; is_active = true } else u)
      users

module _ (env : Env) where
  activate_user_ok :
      (row : UserRow) (a : ResultDetailed ℕ) (v : World)
      → (activate_user env row a v).0 ≡ returned (ok tt)
      → (c : ℕ) × (a ≡ ok c)
        × (activate_user env row a v ≡ (
          returned (ok tt),
          record v { pending = v.pending ++ write_user (confirm_email row) ∷ [] },
        ))
  unfolding activate_user
  activate_user_ok row (err ds) v h =
      absurd (let g : returned (err ds) ≡ returned (ok tt) = h in cc)
  activate_user_ok row (ok c) v h = (c, refl, refl)

  no_user : (otp : String) (w : World) → (confirm_for env otp none w).0 ≢ returned (ok tt)
  unfolding confirm_for
  no_user otp w h = cc

  write_saved :
      (row : UserRow) (v : World) (users : List UserRow)
      → v.pending ≡ []
      → v.db.users ≡ users
      → (apply_changes env v.db (v.pending ++ write_user (confirm_email row) ∷ [])).users
        ≡ let_in row users
  unfolding apply_changes confirm_email
  write_saved row v users settled same = rw (settled, env.users.update_lem, same) refl

  confirm_for_ok :
      (otp : String) (row : UserRow) (w : World)
      → w.pending ≡ []
      → (confirm_for env otp (some row) w).0 ≡ returned (ok tt)
      → let v = (confirm_for env otp (some row) w).1 in
        (apply_changes env v.db v.pending).users ≡ let_in row w.db.users
  unfolding confirm_for apply_changes
  confirm_for_ok otp row w settled h =
      let (a, e, step) =
        bind-returned (confirm env row.id otp email_confirmation) (activate_user env row) (ok tt) w
          h in
      let (c, isok, left) =
        activate_user_ok row a (confirm env row.id otp email_confirmation w).1 (rw step at h) in
      let v : World = (confirm env row.id otp email_confirmation w).1 in
      let through : confirm env row.id otp email_confirmation w ≡ (returned (ok c), v) =
        ap (λ r. (r, v)) (e ∙ ap returned isok) in
      let (_, _, _, _, accepts) = confirm-Accepts env row.id otp c w v through in
      rw (step, left)
        (write_saved row v w.db.users (accepts.pending_kept ∙ settled) accepts.users_kept)

  -- Confirming an address that succeeds commits the account of the only row with that address as
  -- active and confirmed, and leaves every other account as it was.
  pub confirm_email_lets_in :
      (email otp : String) (w w' : World)
      → w.pending ≡ []
      → handle_confirm_email env email otp w ≡ (returned (ok tt), w')
      → (row : UserRow) × (rows_where env (λ u. str_eq u.email email) w ≡ row ∷ [])
        × (w'.saved.users ≡ let_in row w.db.users)
  unfolding handle_confirm_email confirm_address
  confirm_email_lets_in email otp w w' settled h =
      let (back, saved, _) =
        within_uow-returned env (confirm_address env email otp) (ok tt) w w' h in
      elim (List-cases (rows_where env (λ u. str_eq u.email email) w)) [
        | inl e ↦ absurd (
            let q =
              bind_step (find_by_email env email) (confirm_for env otp) none w w
                (find_none env email w e) in
            no_user otp w (rw q at back))
        | inr (inl (row, e)) ↦
            let q =
              bind_step (find_by_email env email) (confirm_for env otp) (some row) w w
                (find_one env email row w e) in
            (
              row,
              e,
              ap (λ d. d.users) saved ∙ rw q (confirm_for_ok otp row w settled (rw q at back)),
            )
        | inr (inr (x, y, t, e)) ↦
            let (a, found, _) =
              bind-returned (find_by_email env email) (confirm_for env otp) (ok tt) w back in
            absurd (find_many env email x y t a w e found)
      ]

-- An account that registered itself, confirmed its address and was then switched off has the status
-- of an active one.
pub confirm_then_toggle :
    (row : UserRow)
    → row.is_active ≡ false
    → row.status ≡ status_inactive
    → ((toggled (confirm_email row)).is_active ≡ false)
      × ((toggled (confirm_email row)).status ≡ status_active)
unfolding toggled confirm_email
confirm_then_toggle row inactive status = (refl, rw status (omega arith))
