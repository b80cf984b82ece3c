-- ===== src/Identity/UserDetail.antt =====
-- user_orm_repository.py: `get_detailed`, and the two handlers that answer by it in
-- application/identity/handlers/user_account_handlers.py. The rows of the join with the avatars are a
-- parameter, as the database is.
use api_template.Base.{ℕ, String, Bool, Option, none, some, List, [], ◌∷◌, filter, ◌==◌, ◌≡◌, refl}
use api_template.Kernel.Errors.{multiple_results_found, Outcome, returned, raised}
use api_template.Kernel.Outcomes.{◌>>=◌}
use api_template.Kernel.Result.{ok, err}
use api_template.Identity.Data.{UserRow}
use api_template.Identity.Session.{Env}
use api_template.Identity.Users.{full_name}
use api_template.Identity.UserList.{avatar_url}
use api_template.Identity.Account.{not_found_detail}
use api_template.Identity.Confirmation.{ResultDetailed}

-- A user with the columns of the mixins, and the path of the avatar.
pub record JoinedUser : Type 0 where
  pub user : UserRow
  pub created_at : ℕ
  pub updated_at : ℕ
  pub avatar_path : Option String

-- `UserDetailedDTO`
pub record UserDetailed : Type 0 where
  pub id : ℕ
  pub email : String
  pub full_name : String
  pub status : ℕ
  pub created_at : ℕ
  pub updated_at : ℕ
  pub email_confirmed : Bool
  pub is_active : Bool
  pub first_name : String
  pub last_name : String
  pub phone : Option String
  pub address : Option String
  pub description : Option String
  pub information : Option String
  pub avatar_url : Option String
  pub last_login_time : Option ℕ

module _ (env : Env) (base_url : String) where
  unfoldable pub user_detailed : JoinedUser → UserDetailed
  unfolding full_name avatar_url
  user_detailed row = record {
    id = row.user.id;
    email = row.user.email;
    full_name = full_name env row.user;
    status = row.user.status;
    created_at = row.created_at;
    updated_at = row.updated_at;
    email_confirmed = row.user.email_confirmed;
    is_active = row.user.is_active;
    first_name = row.user.first_name;
    last_name = row.user.last_name;
    phone = row.user.phone;
    address = row.user.address;
    description = row.user.description;
    information = row.user.information;
    avatar_url = avatar_url base_url row.avatar_path;
    last_login_time = row.user.last_login_time;
  }

  abbrev pub detailed_of : List JoinedUser → Outcome (Option UserDetailed)
  unfolding user_detailed
  detailed_of [] = returned none
  detailed_of (row ∷ []) = returned (some (user_detailed row))
  detailed_of (row ∷ other ∷ rows) = raised multiple_results_found

  unfoldable pub get_detailed : List JoinedUser → ℕ → Outcome (Option UserDetailed)
  unfolding detailed_of
  get_detailed joined id_ = detailed_of (filter (λ row. row.user.id == id_) joined)

  abbrev pub answered_detailed : Option UserDetailed → ResultDetailed UserDetailed
  answered_detailed none = err (not_found_detail ∷ [])
  answered_detailed (some found) = ok found

  -- `UserDetailedQueryHandler` and `MeQueryHandler`, whose id comes from the token.
  unfoldable pub handle_detailed : List JoinedUser → ℕ → Outcome (ResultDetailed UserDetailed)
  unfolding get_detailed
  handle_detailed joined id_ = do
    found ← get_detailed joined id_
    returned (answered_detailed found)

  -- An id that no user has is answered by an error, whatever the other users.
  pub handle_detailed-none :
      (joined : List JoinedUser) (id_ : ℕ)
      → filter (λ row. row.user.id == id_) joined ≡ []
      → handle_detailed joined id_ ≡ returned (err (not_found_detail ∷ []))
  unfolding handle_detailed
  handle_detailed-none joined id_ h = rw h refl
