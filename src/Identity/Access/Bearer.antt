-- ===== src/Identity/Access/Bearer.antt =====
-- Who is let in by a bearer token, where a user is required and no API key allowed.
use api_template.Base.{
  String, true, false, Bool-cases, Option, none, some, List, [], ◌∷◌, ◌≡◌, ◌≢◌, refl, inl, inr,
  arith, ◌==◌, List-cases, Option-cases, ap, ◌∙◌,
}
use api_template.Kernel.Texts.{strip, split_space, is_empty}
use api_template.Sql.{Table}
use api_template.Identity.Data.{UserRow}
use api_template.Identity.Tokens.{JwtPayload}
use api_template.Identity.Session.{Env, World}
use api_template.Identity.UserRepository.{UserOnContext, rows_where, get_for_context}
use api_template.Identity.Auth.{decode_payload}
use api_template.Identity.Access.{
  Bytes, ApiKeyRow, Crypto, Caller, by_token, RequestState, Headers, Gate, let_in, stopped, crashed,
  Access, ◌>>=◌, pass, header_text, get_current_user_from_token, bearer_user, get_with_owner,
  key_state, authenticate, get_current_user_from_request, admit,
}

bind-let_in :
    {A B : Type 0} (m : Access A) (f : A → Access B) (w w' : World) (b : B)
    → (m >>= f) w ≡ (let_in b, w')
    → (a : A) × (u : World) × (m w ≡ (let_in a, u)) × (f a u ≡ (let_in b, w'))
bind-let_in {A} {B} m f w w' b h = go (m w) refl h
  where
    go :
        (r : Gate A × World)
        → m w ≡ r
        → (elim (r.0) [
          | let_in a ↦ f a (r.1)
          | stopped x ↦ (stopped x, r.1)
          | crashed e ↦ (crashed e, r.1)
        ])
          ≡ (let_in b, w')
        → (a : A) × (u : World) × (m w ≡ (let_in a, u)) × (f a u ≡ (let_in b, w'))
    go (let_in a, u) e k = (a, u, e, k)
    go (stopped x, u) e k = absurd (let g : Gate.stopped x ≡ let_in b = ap (λ p. p.0) k in cc)
    go (crashed x, u) e k = absurd (let g : Gate.crashed x ≡ let_in b = ap (λ p. p.0) k in cc)

-- What a token and a user have to do with each other.
pub record Known (env : Env) (token : String) (user : UserOnContext) (w : World) : Type 0 where
  pub payload : JwtPayload
  pub row : UserRow
  pub decoded : env.jwt.decode (env.clock w.readings) token ≡ some payload
  pub only : rows_where env (λ u. u.id == payload.user_id) w ≡ row ∷ []
  pub same : user.id ≡ row.id
  pub active : row.is_active ≡ true
  pub filled : is_empty token ≡ false

module _ (env : Env) where
  from_token :
      (token : String) (user : UserOnContext) (w w' : World)
      → get_current_user_from_token env token w ≡ (let_in user, w')
      → Known env token user w
  unfolding get_current_user_from_token get_for_context decode_payload rows_where
  from_token token user w w' h = elim (Bool-cases (is_empty token)) [
    | inl e ↦ absurd (ground arith)
    | inr filled ↦ elim (Option-cases (env.jwt.decode (env.clock w.readings) token)) [
      | inl e ↦ absurd (ground arith)
      | inr (payload, d) ↦ elim (List-cases (rows_where env (λ u. u.id == payload.user_id) w)) [
        | inl e ↦ absurd (ground arith)
        | inr (inl (row, e)) ↦ record {
          payload = payload;
          row = row;
          decoded = d;
          only = e;
          same = ground arith;
          active = ground arith;
          filled = filled;
        }
        | inr (inr (x, y, t, e)) ↦ absurd (ground arith)
      ]
    ]
  ]

  -- A bearer token of the header of a request, whose user is this.
  abbrev pub Borne : List String → Caller → World → Type 0
  Borne parts caller w =
      (scheme : String) × (token : String) × (user : UserOnContext) × (parts ≡ scheme ∷ token ∷ [])
      × (caller ≡ by_token user)
      × Known env token user w

  bearer_user-Borne :
      (parts : List String) (caller : Caller) (w w' : World)
      → bearer_user env parts w ≡ (let_in (some caller), w')
      → Borne parts caller w
  bearer_user-Borne [] caller w w' h = absurd (ground arith)
  bearer_user-Borne (scheme ∷ []) caller w w' h = absurd (ground arith)
  bearer_user-Borne (scheme ∷ token ∷ []) caller w w' h =
      let (user, u, found, passed) =
        bind-let_in (get_current_user_from_token env token) (λ x. pass (some (by_token x))) w w'
          (some caller) h in
      (scheme, token, user, refl, ground arith, from_token token user w u found)
  bearer_user-Borne (scheme ∷ token ∷ more ∷ parts) caller w w' h = absurd (ground arith)

  required_user :
      (state : RequestState) (caller : Option Caller) (w w' : World)
      → get_current_user_from_request true false state w ≡ (let_in caller, w')
      → (x : Caller) × (state.user ≡ some x) × (caller ≡ some x) × (state.api_key_obj ≡ none)
  unfolding get_current_user_from_request
  required_user state caller w w' h = elim (Option-cases state.api_key_obj) [
    | inr (object, e) ↦ absurd (ground arith)
    | inl e ↦ elim (Option-cases state.user) [
      | inl n ↦ absurd (ground arith)
      | inr (x, s) ↦ (x, s, ground arith, e)
    ]
  ]

  module _ (keys : Table ApiKeyRow) (crypto : Crypto) (table : List ApiKeyRow) where
    key_state-marks :
        (bytes : Option Bytes) (state : RequestState) (x : Caller) (w w' : World)
        → key_state env keys crypto table bytes w ≡ (let_in state, w')
        → state.user ≡ some x
        → state.api_key_obj ≢ none
    key_state-marks none state x w w' h user gone = ground arith
    key_state-marks (some bytes) state x w w' h user gone =
        elim (Option-cases (get_with_owner env keys crypto table bytes w)) [
          | inl e ↦ ground arith
          | inr (object, e) ↦ ground arith
        ]

    authenticate-Borne :
        (headers : Headers) (state : RequestState) (x : Caller) (w w' : World)
        → authenticate env keys crypto table headers w ≡ (let_in state, w')
        → state.user ≡ some x
        → state.api_key_obj ≡ none
        → (is_empty (header_text headers.api_key) ≡ true)
          × Borne (split_space (strip (header_text headers.authorization))) x w
    unfolding authenticate
    authenticate-Borne headers state x w w' h user no_key =
        elim (Bool-cases (is_empty (header_text headers.authorization))) [
          | inl no_jwt ↦ elim (Bool-cases (is_empty (header_text headers.api_key))) [
            | inl none_sent ↦ absurd (ground arith)
            | inr sent ↦ absurd (
                let g : key_state env keys crypto table
                      (crypto.b64decode (header_text headers.api_key)) w
                    ≡ (let_in state, w') =
                  rw (no_jwt, sent) at h in
                key_state-marks (crypto.b64decode (header_text headers.api_key)) state x w w' g user
                  no_key)
          ]
          | inr jwt ↦ elim (Bool-cases (is_empty (header_text headers.api_key))) [
            | inr sent ↦ absurd (ground arith)
            | inl none_sent ↦
                let parts = split_space (strip (header_text headers.authorization)) in
                let g = rw (jwt, none_sent) at h in
                let (found, u, asked, passed) =
                  bind-let_in (bearer_user env parts)
                    (λ y. pass (record { user = y; api_key_obj = none })) w w' state g in
                let same : found ≡ some x = ground arith in
                (none_sent, bearer_user-Borne parts x w u (rw same at asked))
          ]
        ]

    -- Where a route requires a user and allows no API key, a request is let in only by a bearer
    -- token: a header of two parts whose second decodes, when the clock is read, to a payload with
    -- the id of the only user with it, who is active; no API key is sent with it, and that user is
    -- what the handler is given.
    pub admit-Known :
        (headers : Headers) (caller : Option Caller) (w w' : World)
        → admit env keys crypto table headers true false w ≡ (let_in caller, w')
        → (scheme : String) × (token : String) × (user : UserOnContext) × (split_space
              (strip (header_text headers.authorization))
            ≡ scheme ∷ token ∷ [])
          × (is_empty (header_text headers.api_key) ≡ true)
          × (caller ≡ some (by_token user))
          × Known env token user w
    unfolding admit
    admit-Known headers caller w w' h =
        let (state, u, entered, given) =
          bind-let_in (authenticate env keys crypto table headers)
            (get_current_user_from_request true false) w w' caller h in
        let (x, has, same, no_key) = required_user state caller u w' given in
        let (none_sent, (scheme, token, user, parts, is_user, known)) =
          authenticate-Borne headers state x w u entered has no_key in
        (scheme, token, user, parts, none_sent, same ∙ ap some is_user, known)

    -- A bearer token, sent without an API key, that decodes to a payload of the only user with its
    -- id, who is active, lets that user in, whatever the type of the token: a refresh token as well
    -- as an access token.
    pub admit-token :
        (headers : Headers) (scheme token : String) (payload : JwtPayload) (row : UserRow)
        (w : World)
        → is_empty (header_text headers.authorization) ≡ false
        → is_empty (header_text headers.api_key) ≡ true
        → split_space (strip (header_text headers.authorization)) ≡ scheme ∷ token ∷ []
        → is_empty token ≡ false
        → env.jwt.decode (env.clock w.readings) token ≡ some payload
        → rows_where env (λ u. u.id == payload.user_id) w ≡ row ∷ []
        → row.is_active ≡ true
        → (user : UserOnContext) × (user.id ≡ row.id)
          × ((admit env keys crypto table headers true false w).0 ≡ let_in (some (by_token user)))
    unfolding admit authenticate get_current_user_from_token get_for_context decode_payload
        rows_where get_current_user_from_request
    admit-token headers scheme token payload row w sent no_key parts filled decoded only active = (
      record {
        id = row.id;
        email = row.email;
        first_name = row.first_name;
        last_name = row.last_name;
        is_active = row.is_active;
      },
      refl,
      ground arith,
    )
