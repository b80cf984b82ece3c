-- ===== src/Identity/Users.antt =====
-- The user aggregate (domain/identity/aggregates/user_aggregate.py, with `full_name` of
-- entities/user_entity.py).
-- An aggregate wraps the row that the session has loaded or added: writing an attribute of it
-- changes the row, and the session sends the change at the next flush.
use api_template.Base.{
  ℕ, String, str_eq, text_append, Bool, true, false, Option, none, some, List, [], ◌∷◌, ◌++◌,
  if◌then◌else◌,
}
use api_template.Kernel.Errors.{returned, raised, runtime_error}
use api_template.Identity.Data.{UserRow, status_active, status_inactive, Event, user_registered}
use api_template.Identity.Passwords.{hash_password}
use api_template.Identity.Session.{
  Env, write_user, Action, ◌>>=◌, pure, raise, modify, read_now, draw_salt, uuid7,
}

-- `UserAggregate`: its source, and the events that it has collected.
pub record UserAggregate : Type 0 where
  pub row : UserRow
  pub events : List Event

-- `UserCreateParams`, with what its types admit
pub record UserCreateParams : Type 0 where
  pub email : String
  pub first_name : String
  pub last_name : String
  pub phone : Option String
  pub address : Option String
  pub description : Option String
  pub information : Option String
  pub avatar_id : Option ℕ

-- `UserUpdateParams`
pub record UserUpdateParams : Type 0 where
  pub first_name : String
  pub last_name : String
  pub phone : Option String
  pub address : Option String
  pub description : Option String
  pub information : Option String
  pub avatar_id : Option ℕ

-- `add_domain_event`, and `pull_events()` without a filter
abbrev pub add_domain_event : Event → UserAggregate → UserAggregate
add_domain_event event u = record u { events = u.events ++ event ∷ [] }

abbrev pub pull_events : UserAggregate → List Event
pull_events u = u.events

-- `confirm_email`, `update` and `change_email`, on the row
unfoldable pub confirm_email : UserRow → UserRow
confirm_email row = record row { email_confirmed = true; is_active = true }

unfoldable pub update : UserUpdateParams → UserRow → UserRow
update param row = record row {
  first_name = param.first_name;
  last_name = param.last_name;
  phone = param.phone;
  address = param.address;
  description = param.description;
  information = param.information;
  avatar_id = param.avatar_id;
}

unfoldable pub change_email : String → UserRow → UserRow
change_email email row =
    if str_eq email row.email then row else record row { email = email; email_confirmed = false }

-- `touch_login`, at a reading of the clock
unfoldable pub touch_login : ℕ → UserRow → UserRow
touch_login now row = record row { last_login_time = some now }

-- An attribute of a loaded row has been written.
abbrev pub write : UserRow → Action (Unit {0})
write row = modify λ w. record w { pending = w.pending ++ write_user row ∷ [] }

module _ (env : Env) where
  unfoldable pub full_name : UserRow → String
  full_name row = env.strip (text_append row.first_name (text_append " " row.last_name))

  -- `UserAggregate.register` and `create`; the source factory gives the row its id.
  unfoldable pub register : UserCreateParams → Action UserAggregate
  unfolding read_now uuid7
  register param = do
    now ← read_now env
    id ← uuid7 env
    pure (record {
      row = record {
        id = id;
        email = param.email;
        password = none;
        phone = param.phone;
        first_name = param.first_name;
        last_name = param.last_name;
        address = param.address;
        description = param.description;
        information = param.information;
        avatar_id = param.avatar_id;
        is_active = false;
        is_superuser = false;
        email_confirmed = false;
        status = status_inactive;
        date_joined = now;
        last_login_time = none;
      };
      events = [];
    })

  unfoldable pub create : UserCreateParams → Bool → Action UserAggregate
  unfolding read_now uuid7
  create param is_superuser = do
    now ← read_now env
    id ← uuid7 env
    pure (record {
      row = record {
        id = id;
        email = param.email;
        password = none;
        phone = param.phone;
        first_name = param.first_name;
        last_name = param.last_name;
        address = param.address;
        description = param.description;
        information = param.information;
        avatar_id = param.avatar_id;
        is_active = true;
        is_superuser = is_superuser;
        email_confirmed = true;
        status = status_active;
        date_joined = now;
        last_login_time = some now;
      };
      events = [];
    })

  -- `set_password`, with a fresh salt; a password that cannot be hashed is an exception.
  unfoldable pub set_password : String → UserRow → Action UserRow
  unfolding draw_salt
  set_password raw_password row = do
    salt ← draw_salt env
    elim (hash_password env.bcrypt raw_password salt) [
      | returned hashed ↦ pure (record row { password = some hashed })
      | raised e ↦ raise e
    ]

  unfoldable pub mark_registered : String → UserAggregate → Action UserAggregate
  unfolding uuid7
  mark_registered otp_code u = if str_eq u.row.email "" then raise runtime_error else do
    id ← uuid7 env
    pure (
        add_domain_event
          (record {
            event_id = id;
            aggregate_id = u.row.id;
            order = 0;
            body = user_registered u.row.email otp_code (full_name u.row);
          })
          u)
