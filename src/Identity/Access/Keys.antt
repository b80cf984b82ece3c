-- ===== src/Identity/Access/Keys.antt =====
-- Who is let in by an API key.
use api_template.Base.{
  ℕ, String, Bool, true, false, none, some, List, [], ◌∷◌, ◌≡◌, refl, ap, ◌∙◌, arith, ◌==◌, filter,
  filter-append, not, if◌then◌else◌,
}
use api_template.Kernel.Texts.{is_empty}
use api_template.Sql.{Table}
use api_template.Identity.Data.{UserRow}
use api_template.Identity.Session.{Env, World}
use api_template.Identity.UserRepository.{rows_where}
use api_template.Identity.Access.{
  Bytes, bytes_eq, ApiKeyRow, active, RequestState, ApiKeyObject, Crypto, by_key, IssuedKey,
  Headers, let_in, stopped, crashed, Access, ◌>>=◌, get_with_owner, key_state, owner_of, pass,
  create_api_key, authenticate, get_current_user_from_request, admit,
}

pub bytes_eq_refl : (bs : Bytes) → bytes_eq bs bs ≡ true
unfolding bytes_eq
bytes_eq_refl [] = refl
bytes_eq_refl (b ∷ bs) = ground (arith, bytes_eq_refl bs)

bind-passed :
    {A B : Type 0} (m : Access A) (f : A → Access B) (w u : World) (a : A)
    → m w ≡ (let_in a, u)
    → (m >>= f) w ≡ f a u
bind-passed m f w u a h =
    ap
      (λ r. elim (r.0) [
        | let_in x ↦ f x (r.1)
        | stopped x ↦ (stopped x, r.1)
        | crashed e ↦ (crashed e, r.1)
      ])
      h

-- The headers of a request that sends only an API key.
abbrev pub with_key : String → Headers
with_key key = record { authorization = none; api_key = some key }

module _ (env : Env) (keys : Table ApiKeyRow) (crypto : Crypto) where
  authenticate-key :
      (table : List ApiKeyRow) (key : String) (bytes : Bytes) (row : ApiKeyRow) (owner : UserRow)
      (w : World)
      → let object : ApiKeyObject = record { row = row; owner = some owner } in
        is_empty key ≡ false
        → crypto.b64decode key ≡ some bytes
        → get_with_owner env keys crypto table bytes w ≡ some object
        → authenticate env keys crypto table (with_key key) w
          ≡ (let_in (record { user = some (by_key owner); api_key_obj = some object }), w)
  unfolding authenticate is_empty
  authenticate-key table key bytes row owner w given decoded found =
      let anonymous : RequestState = record { user = none; api_key_obj = none } in
      ap
        (λ b.
          (if not b then key_state env keys crypto table (crypto.b64decode key) else pass anonymous)
            w)
        given
      ∙ ap (λ o. key_state env keys crypto table o w) decoded
      ∙ ap (λ o. (let_in (record { user = owner_of env keys crypto o; api_key_obj = o }), w)) found

  -- A request with the text of an API key whose signature one row has is let in as the owner of
  -- that row by every route that allows API keys, whatever the status of the key, and whether or
  -- not the owner is active.
  pub admit-key :
      (table : List ApiKeyRow) (key : String) (bytes : Bytes) (row : ApiKeyRow) (owner : UserRow)
      (required : Bool) (w : World)
      → is_empty key ≡ false
      → crypto.b64decode key ≡ some bytes
      → keys.select (λ r. bytes_eq r.key (crypto.sign bytes)) table ≡ row ∷ []
      → rows_where env (λ u. u.id == row.owner_id) w ≡ owner ∷ []
      → admit env keys crypto table (with_key key) required true w
        ≡ (let_in (some (by_key owner)), w)
  unfolding admit get_with_owner get_current_user_from_request
  admit-key table key bytes row owner required w given decoded one owned =
      bind-passed (authenticate env keys crypto table (with_key key))
        (get_current_user_from_request required true) w w _
        (authenticate-key table key bytes row owner w given decoded (rw (one, owned) refl))

  -- What the creation of a key gives to its owner lets the owner in, from the table with the new
  -- row, where no other key has its signature.
  pub create_api_key-admit :
      (table : List ApiKeyRow) (draw : ℕ) (owner : UserRow) (required : Bool) (v w : World)
      → let made : List ApiKeyRow × IssuedKey =
          (create_api_key env keys crypto table owner.id draw v).0 in
        is_empty made.1.key ≡ false
        → filter (λ r. bytes_eq r.key (crypto.sign (crypto.generate draw 64))) table ≡ []
        → rows_where env (λ u. u.id == owner.id) w ≡ owner ∷ []
        → admit env keys crypto made.0 (with_key made.1.key) required true w
          ≡ (let_in (some (by_key owner)), w)
  unfolding create_api_key
  create_api_key-admit table draw owner required v w given fresh owned =
      let secret = crypto.generate draw 64 in
      let row : ApiKeyRow = record {
        id = env.uuid v.uuids;
        key = crypto.sign secret;
        status = active;
        last_used_at = none;
        owner_id = owner.id;
      } in
      admit-key (keys.insert row table) (crypto.b64encode secret) secret row owner required w given
        (crypto.b64decode-b64encode secret)
        (keys.select_lem (λ r. bytes_eq r.key (crypto.sign secret)) (keys.insert row table)
          ∙ ap (filter (λ r. bytes_eq r.key (crypto.sign secret))) (keys.insert_lem row table)
          ∙ filter-append (λ r. bytes_eq r.key (crypto.sign secret)) table (row ∷ [])
          ∙ rw (fresh, bytes_eq_refl (crypto.sign secret)) refl)
        owned
