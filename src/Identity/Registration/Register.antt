-- ===== src/Identity/Registration/Register.antt =====
-- What a registration leaves: the account and its code, both or neither.
use api_template.Base.{
  ◌+◌, ◌≡◌, refl, sym, ◌∙◌, ap, String, true, false, none, some, List, [], ◌∷◌, ◌++◌, arith,
}
use api_template.Kernel.Errors.{returned}
use api_template.Kernel.Result.{ok, err}
use api_template.Identity.Data.{UserRow, status_inactive}
use api_template.Identity.Passwords.{hash_password}
use api_template.Identity.Session.{
  Env, World, emails_unique, apply_changes, settle, flush, within_uow, add_user, ◌>>=◌, ◌>>◌,
  Action,
}
use api_template.Identity.Session.Keeps.{
  Keeps, bind-Keeps, flush-Keeps, bind-returned, within_uow-returned, bind_step,
}
use api_template.Identity.Users.{UserAggregate, register, set_password}
use api_template.Identity.UserRepository.{add}
use api_template.Identity.Confirmation.{Detail, ResultDetailed}
use api_template.Identity.Registration.{
  RegisterCommand, params_of, store_user, equip_user, register_user, announce_user, send_code,
  register_valid, validate_register, handle_register,
}

-- The row that a registration at `w` seeds, with the hash of its password.
abbrev pub seeded : Env → RegisterCommand → String → World → UserRow
seeded env cmd hashed w = record {
  id = env.uuid w.uuids;
  email = cmd.email;
  password = some hashed;
  phone = cmd.phone;
  first_name = cmd.first_name;
  last_name = cmd.last_name;
  address = cmd.address;
  description = none;
  information = none;
  avatar_id = none;
  is_active = false;
  is_superuser = false;
  email_confirmed = false;
  status = status_inactive;
  date_joined = env.now w.readings;
  last_login_time = none;
}

-- The world once that row has been inserted.
abbrev pub flushed : Env → RegisterCommand → String → World → World
flushed env cmd hashed w = record w {
  db = record w.db { users = w.db.users ++ seeded env cmd hashed w ∷ [] };
  pending = [];
  readings = w.readings + 1;
  draws = w.draws + 1;
  uuids = w.uuids + 1;
}

module _ (env : Env) where
  pub send_code-Keeps : (user : UserAggregate) (w : World) → Keeps (send_code env user) w
  unfolding send_code
  send_code-Keeps user w = ground arith

  set_password-Keeps :
      (password : String) (row : UserRow) (w : World) → Keeps (set_password env password row) w
  unfolding set_password
  set_password-Keeps password row w = ground arith

  pub set_password_lem :
      (password hashed : String) (row : UserRow) (v : World)
      → hash_password env.bcrypt password (env.salt v.draws) ≡ returned hashed
      → set_password env password row v
        ≡ (returned (record row { password = some hashed }), record v { draws = v.draws + 1 })
  unfolding set_password
  set_password_lem password hashed row v hash = ground arith

  store_user-Keeps : (user : UserAggregate) (w : World) → Keeps (store_user env user) w
  unfolding store_user
  store_user-Keeps user w =
      bind-Keeps (add env user) (λ _. flush env >> send_code env user) w (refl, refl)
        λ _ v.
          bind-Keeps (flush env) (λ _. send_code env user) v (flush-Keeps env v)
            (λ _ u. send_code-Keeps user u)

  register_user-Keeps : (cmd : RegisterCommand) (w : World) → Keeps (register_user env cmd) w
  unfolding register_user
  register_user-Keeps cmd w =
      bind-Keeps (register env (params_of cmd)) (equip_user env cmd) w (refl, refl)
        λ blank v.
          bind-Keeps (set_password env cmd.password blank.row)
            (λ row. store_user env (record blank { row = row })) v
            (set_password-Keeps cmd.password blank.row v)
            (λ row u. store_user-Keeps (record blank { row = row }) u)

  -- What an aggregate's end leaves where it answers an error.
  announce_user_refused :
      (res : ResultDetailed UserAggregate) (ds : List Detail) (v : World)
      → (announce_user env res v).0 ≡ returned (err ds)
      → let v' = (announce_user env res v).1 in
        (v'.db ≡ v'.saved) × (v'.pending ≡ []) × (v'.saved ≡ v.saved) × (v'.published ≡ v.published)
  unfolding announce_user
  announce_user_refused (err es) ds v h = (refl, refl, refl, refl)
  announce_user_refused (ok user) ds v h =
      absurd (let g : returned (ok tt) ≡ returned (err ds) = h in cc)

module _ (env : Env) (cmd : RegisterCommand) where
  -- What the body of the handler leaves where it answers an error.
  register_end :
      (ds : List Detail) (w : World)
      → ((register_user env cmd >>= announce_user env) w).0 ≡ returned (err ds)
      → let v = ((register_user env cmd >>= announce_user env) w).1 in
        (v.db ≡ v.saved) × (v.pending ≡ []) × (v.saved ≡ w.saved) × (v.published ≡ w.published)
  register_end ds w h =
      let (res, _, step) = bind-returned (register_user env cmd) (announce_user env) (err ds) w h in
      let kept = register_user-Keeps env cmd w in
      let (same, empty, saved, published) =
        announce_user_refused env res ds (register_user env cmd w).1 (rw step at h) in
      rw step (same, empty, saved ∙ kept.0, published ∙ kept.1)

  register_body_refused :
      (ds : List Detail) (w w' : World)
      → within_uow env (register_user env cmd >>= announce_user env) w ≡ (returned (err ds), w')
      → (w'.saved ≡ w.saved) × (w'.published ≡ w.published)
  unfolding apply_changes
  register_body_refused ds w w' h =
      let m : Action (ResultDetailed (Unit {0})) = register_user env cmd >>= announce_user env in
      let (back, saved, published) = within_uow-returned env m (err ds) w w' h in
      let (same, empty, s, p) = register_end ds w back in
      let nothing : w'.saved ≡ (m w).1.saved = saved ∙ rw empty same in (nothing ∙ s, published ∙ p)

  validate_same : (w : World) → (validate_register env cmd w).1 ≡ w
  unfolding validate_register
  validate_same w = ground arith

  register_valid_refused :
      (res : ResultDetailed (Unit {0})) (ds : List Detail) (w w' : World)
      → register_valid env cmd res w ≡ (returned (err ds), w')
      → (w'.saved ≡ w.saved) × (w'.published ≡ w.published)
  unfolding register_valid
  register_valid_refused (err es) ds w w' h = ground arith
  register_valid_refused (ok u) ds w w' h = register_body_refused ds w w' h

  -- A registration that is refused commits nothing and announces nothing.
  pub register_refused_keeps :
      (ds : List Detail) (w w' : World)
      → handle_register env cmd w ≡ (returned (err ds), w')
      → (w'.saved ≡ w.saved) × (w'.published ≡ w.published)
  unfolding handle_register
  register_refused_keeps ds w w' h =
      let (res, _, step) =
        bind-returned (validate_register env cmd) (register_valid env cmd) (err ds) w
          (ap (λ r. r.0) h) in
      register_valid_refused res ds w w' (rw (validate_same w) at (sym step ∙ h))

  flush_lem :
      (row : UserRow) (v : World)
      → v.pending ≡ add_user row ∷ []
      → emails_unique (v.db.users ++ row ∷ []) ≡ true
      → flush env v ≡ (
        returned tt,
        record v { db = record v.db { users = v.db.users ++ row ∷ [] }; pending = [] },
      )
  unfolding flush apply_changes settle
  flush_lem row v held unique = rw (held, env.users.insert_lem row v.db.users, unique) refl

  store_user_lem :
      (user : UserAggregate) (v : World)
      → v.pending ≡ []
      → emails_unique (v.db.users ++ user.row ∷ []) ≡ true
      → store_user env user v
        ≡ send_code env user
            (record v { db = record v.db { users = v.db.users ++ user.row ∷ [] }; pending = [] })
  unfolding store_user add
  store_user_lem user v settled unique =
      bind_step (flush env) (λ _. send_code env user) tt
        (record v { pending = v.pending ++ add_user user.row ∷ [] }) _
        (flush_lem user.row (record v { pending = v.pending ++ add_user user.row ∷ [] })
          (rw settled refl) unique)

  -- What the transaction holds once the account and its code are written.
  pub register_user_held :
      (hashed : String) (w : World)
      → w.pending ≡ []
      → hash_password env.bcrypt cmd.password (env.salt w.draws) ≡ returned hashed
      → emails_unique (w.db.users ++ seeded env cmd hashed w ∷ []) ≡ true
      → register_user env cmd w
        ≡ send_code env
            (record { row = seeded env cmd hashed w; events = [] })
            (flushed env cmd hashed w)
  unfolding register_user register equip_user
  register_user_held hashed w settled hash unique =
      let row : UserRow = seeded env cmd hashed w in
      bind_step (set_password env cmd.password (record row { password = none }))
        (λ r. store_user env (record { row = r; events = [] })) row _ _
        (set_password_lem env cmd.password hashed (record row { password = none })
          (record w { readings = w.readings + 1; uuids = w.uuids + 1 }) hash)
      ∙ store_user_lem (record { row = row; events = [] })
          (record w { readings = w.readings + 1; draws = w.draws + 1; uuids = w.uuids + 1 }) settled
          unique
