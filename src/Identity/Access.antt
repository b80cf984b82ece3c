-- ===== src/Identity/Access.antt =====
-- Who a request is let in as: api/http/middlewares/deps_middleware.py and api/deps/context_deps.py,
-- with the API keys of application/identity/services/api_key_services.py and
-- data_access/orm/identity/repositories/api_key_orm_repository.py. The table of the keys is given
-- beside the World, and returned where it changes.
pub mod Bearer
pub mod Keys
pub mod Refused
use api_template.Base.{
  ℕ, String, Bool, true, false, not, ◌&&◌, ◌||◌, Option, none, some, List, [], ◌∷◌, ◌==◌, ◌≡◌,
  if◌then◌else◌,
}
use api_template.Kernel.Errors.{
  Exn, Outcome, returned, raised, StatusCode, access_token_required, invalid_access_token,
  invalid_login_credentials,
}
use api_template.Kernel.Texts.{strip, split_space, is_empty}
use api_template.Sql.{Table}
use api_template.Http.Errors.{AppException, Failure, app_exception, http_exception}
use api_template.Identity.Data.{UserRow}
use api_template.Identity.Session.{Env, World, uuid7}
use api_template.Identity.Auth.{decode_payload}
use api_template.Identity.UserRepository.{UserOnContext, rows_where, get_for_context}
use api_template.Identity.Tokens.{JwtPayload}

abbrev pub Bytes : Type 0
Bytes = List ℕ

unfoldable pub bytes_eq : Bytes → Bytes → Bool
bytes_eq [] [] = true
bytes_eq (a ∷ xs) (b ∷ ys) = a == b && bytes_eq xs ys
bytes_eq [] (b ∷ ys) = false
bytes_eq (a ∷ xs) [] = false

-- `ApiKeyStatusEnum`
pub data ApiKeyStatus : Type 0 where
  active inactive blocked : ApiKeyStatus

-- `ApiKeyOrmModel`
pub record ApiKeyRow : Type 0 where
  pub id : ℕ
  pub key : Bytes
  pub status : ApiKeyStatus
  pub last_used_at : Option ℕ
  pub owner_id : ℕ

-- HMAC-SHA256 under the secret of the service, the random bytes of each draw, and base64, whose
-- decoder gives nothing where it raises. Decoding gives back what was encoded.
pub record Crypto : Type 0 where
  pub sign : Bytes → Bytes
  pub generate : (draw length : ℕ) → Bytes
  pub b64encode : Bytes → String
  pub b64decode : String → Option Bytes
  pub b64decode-b64encode : (bytes : Bytes) → b64decode (b64encode bytes) ≡ some bytes

-- A key with its owner, which `joinedload` has loaded.
pub record ApiKeyObject : Type 0 where
  pub row : ApiKeyRow
  pub owner : Option UserRow

-- The user of a request: that of a bearer token, or the owner of an API key.
pub data Caller : Type 0 where
  by_token : UserOnContext → Caller
  by_key : UserRow → Caller

-- `ApiKeyListDTO`, whose key is the secret in base64.
pub record IssuedKey : Type 0 where
  pub id : ℕ
  pub key : String

-- `request.state`, as the middleware leaves it.
pub record RequestState : Type 0 where
  pub user : Option Caller
  pub api_key_obj : Option ApiKeyObject

pub record Headers : Type 0 where
  pub authorization : Option String
  pub api_key : Option String

-- How a step of letting a request in ends: it goes on, is stopped with an answer, or raises.
pub data Gate (A : Type 0) : Type 0 where
  let_in : A → Gate A
  stopped : Failure (Unit {0}) → Gate A
  crashed : Exn → Gate A

abbrev pub Access : Type 0 → Type 0
Access A = World → Gate A × World

infixl 5 ◌>>=◌
abbrev pub ◌>>=◌ : {A B : Type 0} → Access A → (A → Access B) → Access B
◌>>=◌ m f w =
    let (r, w') = m w in
    elim r [ let_in a ↦ f a w' | stopped x ↦ (stopped x, w') | crashed e ↦ (crashed e, w') ]

module _ {A : Type 0} where
  abbrev pub pass : A → Access A
  pass a w = (let_in a, w)

  abbrev pub stop : Failure (Unit {0}) → Access A
  stop failure w = (stopped failure, w)

  abbrev gate_of : Outcome A → Gate A
  gate_of (returned a) = let_in a
  gate_of (raised e) = crashed e

  -- A query or a reading of the clock, as a step.
  abbrev pub asking : (World → Outcome A × World) → Access A
  asking action w = let (r, w') = action w in (gate_of r, w')

-- `raise_exception` of `get_current_user_from_token`
abbrev pub unauthorized : (message : String) → StatusCode → Failure (Unit {0})
unauthorized message exception_status = app_exception (record {
  message = message;
  details = none;
  exception_status = some exception_status;
  status_code = some 401;
})

abbrev pub http_error : (status_code : ℕ) → (detail : String) → Failure (Unit {0})
http_error status_code detail =
    http_exception (record { status_code = status_code; detail = detail; extra = none })

-- The text of a header, empty where it was not sent: both are false.
abbrev pub header_text : Option String → String
header_text none = ""
header_text (some s) = s

-- `get_current_user_from_request`
unfoldable pub get_current_user_from_request :
    (required allow_api_key_access : Bool) → RequestState → Access (Option Caller)
get_current_user_from_request required allow state = elim state.api_key_obj [
  | some object ↦
      if not allow then stop (http_error 401 "Access token is not provided.") else pass state.user
  | none ↦ elim state.user [
    | none ↦ if required then stop (http_error 401 "Access token is not provided.") else pass none
    | some user ↦ pass (some user)
  ]
]

module _ (env : Env) where
  abbrev pub active_user : Option UserOnContext → Access UserOnContext
  active_user none = stop (unauthorized "Invalid login credentials." invalid_login_credentials)
  active_user (some user) =
      if not user.is_active
      then stop (unauthorized "Invalid login credentials." invalid_login_credentials)
      else pass user

  abbrev pub user_of_payload : Option JwtPayload → Access UserOnContext
  user_of_payload none = stop (unauthorized "Invalid access key" invalid_access_token)
  user_of_payload (some payload) = asking (get_for_context env payload.user_id) >>= active_user

  -- A payload carries an id: `JwtPayload` is only made with one.
  unfoldable pub get_current_user_from_token : String → Access UserOnContext
  unfolding is_empty decode_payload get_for_context
  get_current_user_from_token token =
      if is_empty token
      then stop (unauthorized "Access token is not provided." access_token_required)
      else (asking (decode_payload env token) >>= user_of_payload)

  abbrev pub bearer_user : List String → Access (Option Caller)
  bearer_user (scheme ∷ token ∷ []) =
      get_current_user_from_token token >>= λ user. pass (some (by_token user))
  bearer_user [] = pass none
  bearer_user (scheme ∷ []) = pass none
  bearer_user (scheme ∷ token ∷ more ∷ parts) = pass none

  module _ (keys : Table ApiKeyRow) (crypto : Crypto) where
    -- The first row that a query answers.
    abbrev pub first_row : List ApiKeyRow → Option ApiKeyRow
    first_row [] = none
    first_row (row ∷ rows) = some row

    abbrev pub first_user : List UserRow → Option UserRow
    first_user [] = none
    first_user (row ∷ rows) = some row

    abbrev pub with_owner : World → Option ApiKeyRow → Option ApiKeyObject
    with_owner w none = none
    with_owner w (some row) =
        some
          (record { row = row; owner = first_user (rows_where env (λ u. u.id == row.owner_id) w) })

    -- `get_with_owner` of the service and of the repository.
    unfoldable pub get_with_owner : List ApiKeyRow → Bytes → World → Option ApiKeyObject
    unfolding rows_where bytes_eq
    get_with_owner table api_key w =
        with_owner w (first_row (keys.select (λ r. bytes_eq r.key (crypto.sign api_key)) table))

    -- `create` of the service: the table with the new row, and what the client is given.
    unfoldable pub create_api_key :
        List ApiKeyRow → (owner_id draw : ℕ) → World → (List ApiKeyRow × IssuedKey) × World
    unfolding uuid7
    create_api_key table owner_id draw w =
        let secret = crypto.generate draw 64 in
        let row : ApiKeyRow = record {
          id = env.uuid w.uuids;
          key = crypto.sign secret;
          status = active;
          last_used_at = none;
          owner_id = owner_id;
        } in
        (
          (keys.insert row table, record { id = row.id; key = crypto.b64encode secret }),
          (uuid7 env w).1,
        )

    abbrev pub owner_of : Option ApiKeyObject → Option Caller
    owner_of none = none
    owner_of (some object) = elim object.owner [ none ↦ none | some row ↦ some (by_key row) ]

    abbrev key_state : List ApiKeyRow → Option Bytes → Access RequestState
    key_state table none w = (stopped (http_error 401 "Provided invalid api_key"), w)
    key_state table (some bytes) w =
        let object = get_with_owner table bytes w in
        (let_in (record { user = owner_of object; api_key_obj = object }), w)

    -- `AuthMiddleware.__call__`, up to the call of the application.
    unfoldable pub authenticate : List ApiKeyRow → Headers → Access RequestState
    unfolding is_empty strip split_space get_current_user_from_token get_with_owner
    authenticate table headers =
        let jwt = header_text headers.authorization in
        let api_key = header_text headers.api_key in
        if not (is_empty jwt) && not (is_empty api_key)
        then stop (http_error 400 "Provide either API key or bearer token, not both")
        else if not (is_empty jwt)
        then (bearer_user (split_space (strip jwt)) >>= λ user.
            pass (record { user = user; api_key_obj = none }))
        else if not (is_empty api_key)
        then key_state table (crypto.b64decode api_key)
        else pass (record { user = none; api_key_obj = none })

    -- What the handler of a route is given, behind the middleware.
    unfoldable pub admit :
        List ApiKeyRow → Headers → (required allow_api_key_access : Bool) → Access (Option Caller)
    unfolding authenticate get_current_user_from_request
    admit table headers required allow =
        authenticate table headers >>= get_current_user_from_request required allow
