-- ===== src/Identity/Account.antt =====
-- application/identity/handlers/user_account_handlers.py: an account is switched on or off, its
-- profile edited, its password changed. The id of the caller comes from the execution context, and
-- the parameters of the update have been checked before. The queries stand apart.
pub mod Status
use api_template.Base.{
  ℕ, String, Bool, true, false, not, Option, none, some, [], ◌∷◌, if◌then◌else◌,
}
use api_template.Kernel.Errors.{text, object_not_found, invalid_password, attribute_error}
use api_template.Kernel.Result.{ok, err}
use api_template.Identity.Data.{UserRow}
use api_template.Identity.Passwords.{verify_password}
use api_template.Identity.Session.{Env, Action, ◌>>=◌, ◌>>◌, pure, raise, rollback, within_uow}
use api_template.Identity.Users.{UserUpdateParams, update, set_password, write}
use api_template.Identity.UserRepository.{find_by_id, exists_user, toggle_status}
use api_template.Identity.Confirmation.{Detail, ResultDetailed}

abbrev pub not_found_detail : Detail
not_found_detail = record {
  status = object_not_found;
  message = some (text "User not found");
  field = none;
  payload = tt;
}

abbrev pub wrong_password_detail : Detail
wrong_password_detail = record {
  status = invalid_password;
  message = some (text "Current password is incorrect");
  field = some "old_password";
  payload = tt;
}

module _ (env : Env) where
  unfoldable pub toggle_existing : ℕ → Bool → Action (ResultDetailed (Unit {0}))
  unfolding toggle_status
  toggle_existing id_ false = pure (err (not_found_detail ∷ []))
  toggle_existing id_ true = toggle_status env id_ >> pure (ok tt)

  -- `UserToggleStatusCommandHandler`
  unfoldable pub handle_toggle : ℕ → Action (ResultDetailed (Unit {0}))
  unfolding exists_user toggle_existing
  handle_toggle id_ = within_uow env (exists_user env id_ >>= toggle_existing id_)

  unfoldable pub update_found :
      UserUpdateParams → Option UserRow → Action (ResultDetailed (Unit {0}))
  unfolding update
  update_found param none = pure (err (not_found_detail ∷ []))
  update_found param (some row) = write (update param row) >> pure (ok tt)

  -- `UserUpdateMeCommandHandler`
  unfoldable pub handle_update_me : ℕ → UserUpdateParams → Action (ResultDetailed (Unit {0}))
  unfolding find_by_id update_found
  handle_update_me user_id param = within_uow env (find_by_id env user_id >>= update_found param)

  unfoldable pub keep_password : UserRow → Action (ResultDetailed (Unit {0}))
  keep_password row = write row >> pure (ok tt)

  -- By the stored hash: None has no `decode`, which is an exception.
  unfoldable pub change_known :
      String → String → UserRow → Option String → Action (ResultDetailed (Unit {0}))
  unfolding rollback set_password keep_password
  change_known old new row none = raise attribute_error
  change_known old new row (some hashed) =
      if not (verify_password env.bcrypt old hashed)
      then rollback >> pure (err (wrong_password_detail ∷ []))
      else set_password env new row >>= keep_password

  unfoldable pub change_password_of :
      String → String → Option UserRow → Action (ResultDetailed (Unit {0}))
  unfolding change_known
  change_password_of old new none = pure (err (not_found_detail ∷ []))
  change_password_of old new (some row) = change_known old new row row.password

  -- `ChangePasswordCommandHandler`
  unfoldable pub handle_change_password : ℕ → String → String → Action (ResultDetailed (Unit {0}))
  unfolding find_by_id change_password_of
  handle_change_password user_id old new =
      within_uow env (find_by_id env user_id >>= change_password_of old new)
