-- ===== src/Identity/UserRepository/Find.antt =====
-- What a query for one user by its address answers.
use api_template.Base.{◌≡◌, ◌≢◌, String, str_eq, none, some, Option, List, [], ◌∷◌, arith}
use api_template.Kernel.Errors.{returned}
use api_template.Identity.Data.{UserRow}
use api_template.Identity.Session.{Env, World}
use api_template.Identity.UserRepository.{rows_where, find_by_email}

module _ (env : Env) where
  pub find_none :
      (email : String) (w : World)
      → rows_where env (λ u. str_eq u.email email) w ≡ []
      → find_by_email env email w ≡ (returned none, w)
  unfolding find_by_email
  find_none email w h = ground arith

  pub find_one :
      (email : String) (row : UserRow) (w : World)
      → rows_where env (λ u. str_eq u.email email) w ≡ row ∷ []
      → find_by_email env email w ≡ (returned (some row), w)
  unfolding find_by_email
  find_one email row w h = ground arith

  pub find_many :
      (email : String) (x y : UserRow) (t : List UserRow) (a : Option UserRow) (w : World)
      → rows_where env (λ u. str_eq u.email email) w ≡ x ∷ y ∷ t
      → (find_by_email env email w).0 ≢ returned a
  unfolding find_by_email
  find_many email x y t a w e h = ground arith
