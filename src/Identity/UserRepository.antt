-- ===== src/Identity/UserRepository.antt =====
-- data_access/orm/identity/repositories/user_orm_repository.py: the users of the database. The list
-- of users and the detail query stand apart. A query reads the tables as the transaction sees them;
-- what the session has not flushed is not in them.
pub mod Find
use api_template.Base.{
  ℕ, ◌-◌, ◌+◌, String, str_eq, text_append, Bool, true, false, not, Option, none, some, List, [],
  ◌∷◌, ◌++◌, ◌==◌,
}
use api_template.Kernel.Errors.{returned, raised, multiple_results_found}
use api_template.Identity.Data.{UserRow, status_active}
use api_template.Identity.Session.{Env, World, add_user, Action, ◌>>=◌, pure, modify}
use api_template.Identity.Users.{UserAggregate}

-- `UserOnContextDTO`
pub record UserOnContext : Type 0 where
  pub id : ℕ
  pub email : String
  pub first_name : String
  pub last_name : String
  pub is_active : Bool

-- `UserAuthDTO`
pub record UserAuth : Type 0 where
  pub id : ℕ
  pub email : String
  pub password : String
  pub is_active : Bool
  pub email_confirmed : Bool
  pub last_login_time : Option ℕ

-- `UserCredentialsDTO`
pub record UserCredentials : Type 0 where
  pub id : ℕ
  pub email : String
  pub full_name : String

-- `password or ""`
unfoldable pub text_or_empty : Option String → String
text_or_empty none = ""
text_or_empty (some s) = s

-- The SET clauses of `toggle_status` and `activate`; `abs` is of the difference of two integers.
unfoldable pub toggled : UserRow → UserRow
toggled row = record row {
  status = (row.status - status_active) + (status_active - row.status);
  is_active = not row.is_active;
}

unfoldable pub activated : UserRow → UserRow
activated row = record row { is_active = true; status = status_active; email_confirmed = true }

-- `scalar_one_or_none()`
unfoldable pub one_user : List UserRow → Action (Option UserRow)
one_user [] w = (returned none, w)
one_user (row ∷ []) w = (returned (some row), w)
one_user (row ∷ other ∷ rows) w = (raised multiple_results_found, w)

-- The test of `exists(...)`.
unfoldable pub found_any : List UserRow → Bool
found_any [] = false
found_any (row ∷ rows) = true

module _ (env : Env) where
  -- `_full_name`
  unfoldable pub full_name_of : Option String → Option String → String
  unfolding text_or_empty
  full_name_of first last =
      env.strip (text_append (text_or_empty first) (text_append " " (text_or_empty last)))

  -- The repository. `create` of it adds the aggregate's row to the session.
  unfoldable pub add : UserAggregate → Action (Unit {0})
  add u = modify λ w. record w { pending = w.pending ++ add_user u.row ∷ [] }

  unfoldable pub rows_where : (UserRow → Bool) → World → List UserRow
  rows_where test w = env.users.select test w.db.users

  -- `_get_by_id`, and so `get_aggregate_for_update`: the aggregate of a loaded row has no events.
  unfoldable pub find_by_id : ℕ → Action (Option UserRow)
  unfolding one_user rows_where
  find_by_id id_ w = one_user (rows_where (λ u. u.id == id_) w) w

  -- `get_aggregate_for_update_by_email`, and so `get_for_password_reset`
  unfoldable pub find_by_email : String → Action (Option UserRow)
  unfolding one_user rows_where
  find_by_email email w = one_user (rows_where (λ u. str_eq u.email email) w) w

  unfoldable pub get_for_context : ℕ → Action (Option UserOnContext)
  unfolding find_by_id
  get_for_context id_ = do
    found ← find_by_id id_
    elim found [
      | none ↦ pure none
      | some row ↦ pure (
          some (record {
            id = row.id;
            email = row.email;
            first_name = row.first_name;
            last_name = row.last_name;
            is_active = row.is_active;
          }))
    ]

  unfoldable pub exists_by_email : String → Action Bool
  unfolding found_any rows_where
  exists_by_email email w = (returned (found_any (rows_where (λ u. str_eq u.email email) w)), w)

  unfoldable pub get_credentials_by_email : String → Action (Option UserAuth)
  unfolding find_by_email text_or_empty
  get_credentials_by_email email = do
    found ← find_by_email email
    elim found [
      | none ↦ pure none
      | some row ↦ pure (
          some (record {
            id = row.id;
            email = row.email;
            password = text_or_empty row.password;
            is_active = row.is_active;
            email_confirmed = row.email_confirmed;
            last_login_time = row.last_login_time;
          }))
    ]

  unfoldable pub exists_user : ℕ → Action Bool
  unfolding found_any rows_where
  exists_user id_ w = (returned (found_any (rows_where (λ u. u.id == id_) w)), w)

  -- An UPDATE of the users, and whether it matched one row.
  unfoldable pub update_users : (UserRow → Bool) → (UserRow → UserRow) → Action Bool
  update_users test set w = (
    returned (env.users.rowcount test w.db.users == 1),
    record w { db = record w.db { users = env.users.update test set w.db.users } },
  )

  unfoldable pub toggle_status : ℕ → Action Bool
  unfolding update_users toggled
  toggle_status id_ = update_users (λ u. u.id == id_) toggled

  -- `activate`: RETURNING gives the rows after the update.
  unfoldable pub activate : ℕ → Action (Option UserCredentials)
  unfolding update_users activated one_user rows_where full_name_of
  activate user_id = do
    matched ← update_users (λ u. u.id == user_id) activated
    found ← λ w. one_user (rows_where (λ u. u.id == user_id) w) w
    elim found [
      | none ↦ pure none
      | some row ↦ pure (
          some (record {
            id = row.id;
            email = row.email;
            full_name = full_name_of (some row.first_name) (some row.last_name);
          }))
    ]

  unfoldable pub get_credentials_for_resend : ℕ → Action (Option UserCredentials)
  unfolding find_by_id full_name_of
  get_credentials_for_resend user_id = do
    found ← find_by_id user_id
    elim found [
      | none ↦ pure none
      | some row ↦ pure (
          some (record {
            id = row.id;
            email = row.email;
            full_name = full_name_of (some row.first_name) (some row.last_name);
          }))
    ]
