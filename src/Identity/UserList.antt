-- ===== src/Identity/UserList.antt =====
-- user_orm_repository.py: `get_list`, with the compiler of its filters, and the handler of the query
-- in application/identity/handlers/user_account_handlers.py. What the SELECT reads of a user and the
-- avatar's row is a parameter, as the database is.
pub mod Shown
pub mod Asked
use Prim.Native.Char.{code}
use api_template.Base.{
  ℕ, String, text_append, Bool, true, false, Option, none, some, List, [], ◌∷◌, map, ◌==◌,
  if◌then◌else◌,
}
use api_template.Kernel.Errors.{Outcome, returned}
use api_template.Kernel.Outcomes.{◌>>=◌}
use api_template.Kernel.Texts.{is_empty}
use api_template.Filtering.Parser.{QueryField, parse_filters}
use api_template.Filtering.Compiler.Classes.{Container, Columns, Handler, CompilerClass}
use api_template.Filtering.Compiler.{compile}
use api_template.Orm.Ordering.{OrderingItem}
use api_template.Orm.Queries.{Statement, Database, plain_statement, apply_ordering}
use api_template.Identity.Session.{Env}
use api_template.Identity.UserRepository.{full_name_of}

-- The columns that the SELECT labels.
pub record ListedColumns : Type 0 where
  pub id : ℕ
  pub email : String
  pub first_name : Option String
  pub last_name : Option String
  pub phone : Option String
  pub status : ℕ
  pub created_at : ℕ
  pub avatar_path : Option String

-- `UserListDTO`
pub record UserListItem : Type 0 where
  pub id : ℕ
  pub email : String
  pub full_name : String
  pub status : ℕ
  pub created_at : ℕ
  pub first_name : Option String
  pub last_name : Option String
  pub phone : Option String
  pub avatar_url : Option String

pub record ListQueryResponse (A : Type 0) : Type 0 where
  pub count : ℕ
  pub rows : List A

-- `UserListQuery`: its filters are fields, and its ordering is parsed.
pub record UserListQuery : Type 0 where
  pub limit : ℕ
  pub offset : ℕ
  pub fields : List QueryField
  pub ordering : Option (List OrderingItem)

-- `path.lstrip("/")`
unfoldable pub lstrip_slash : String → String
lstrip_slash String.[] = String.[]
lstrip_slash (String.◌∷◌ c s) =
    let rest = lstrip_slash s in if code c == b'/' then rest else String.◌∷◌ c s

unfoldable pub make_full_url : (base_url : String) → String → String
unfolding lstrip_slash
make_full_url base_url path = text_append base_url (text_append "/" (lstrip_slash path))

unfoldable pub make_media_full_url : (base_url : String) → String → String
unfolding make_full_url
make_media_full_url base_url path =
    make_full_url base_url (text_append "media/" (lstrip_slash path))

-- `make_media_full_url(path) if path else None`
unfoldable pub avatar_url : (base_url : String) → Option String → Option String
unfolding make_media_full_url is_empty
avatar_url base_url none = none
avatar_url base_url (some path) =
    if is_empty path then none else some (make_media_full_url base_url path)

-- `compile_search__eq` of `UserFilterCompiler`; `or_` is SQLAlchemy's.
unfoldable pub compile_user_search :
    {Condition : Type 0}
    → Columns Condition
    → (or_ : List Condition → Condition) → Handler Condition (Unit {0})
compile_user_search sql or_ = record {
  name = "compile_search__eq";
  accepts_meta = false;
  call = λ c meta. returned (
      or_ (
        sql.ilike "first_name" "" c.value "%"
        ∷ sql.ilike "last_name" "" c.value "%"
        ∷ sql.ilike "email" "" c.value "%"
        ∷ []));
}

abbrev pub user_columns : List String
user_columns =
    "id" ∷ "created_at" ∷ "updated_at" ∷ "status" ∷ "email" ∷ "password" ∷ "phone" ∷ "first_name"
    ∷ "last_name" ∷ "address" ∷ "description" ∷ "information" ∷ "avatar_id" ∷ "is_active"
    ∷ "is_superuser" ∷ "email_confirmed" ∷ "date_joined" ∷ "last_login_time" ∷ []

-- `UserFilterCompiler` for the columns of UserOrmModel.
unfoldable pub user_filter_compiler :
    {Condition : Type 0}
    → Columns Condition
    → (or_ : List Condition → Condition) → CompilerClass Condition (Unit {0})
unfolding compile_user_search
user_filter_compiler sql or_ = record {
  scopes = [];
  scoped_fields = [];
  handlers = compile_user_search sql or_ ∷ [];
  columns = user_columns;
}

module _ (env : Env) (base_url : String) where
  unfoldable pub list_item : ListedColumns → UserListItem
  unfolding full_name_of avatar_url
  list_item row = record {
    id = row.id;
    email = row.email;
    full_name = full_name_of env row.first_name row.last_name;
    status = row.status;
    created_at = row.created_at;
    first_name = row.first_name;
    last_name = row.last_name;
    phone = row.phone;
    avatar_url = avatar_url base_url row.avatar_path;
  }

module _ {Condition Options Row : Type 0} (env : Env) (base_url : String) (sql : Columns Condition)
    (or_ : List Condition → Condition) (db : Database Condition Options Row)
    (read : Row → ListedColumns) where
  -- `_compile_filters`
  unfoldable pub compile_filters : List Container → Outcome (List Condition)
  unfolding compile user_filter_compiler
  compile_filters [] = returned []
  compile_filters (c ∷ cs) = compile sql (user_filter_compiler sql or_) none none (c ∷ cs)

  -- `get_list`: the statement of the count has the conditions only.
  unfoldable pub get_list :
      (limit offset : ℕ)
      → List Container
      → Option (List OrderingItem)
      → Outcome (ListQueryResponse UserListItem)
  unfolding compile_filters apply_ordering list_item
  get_list limit offset filters ordering = do
    conditions ← compile_filters filters
    stmt ← apply_ordering sql user_columns (plain_statement conditions) ordering
    returned (record {
      count = db.count (plain_statement conditions);
      rows =
          map (λ row. list_item env base_url (read row))
            (db.execute (record stmt { limit = some limit; offset = offset }));
    })

  -- `UserListQueryHandler.__call__`
  unfoldable pub list_users : UserListQuery → Outcome (ListQueryResponse UserListItem)
  unfolding get_list parse_filters
  list_users message =
      get_list message.limit message.offset (parse_filters message.fields) message.ordering
