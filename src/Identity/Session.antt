-- ===== src/Identity/Session.antt =====
-- The request's database session and unit of work (data_access/orm/unit_of_work.py), with what a
-- request reads from outside: the clock, the code generator and fresh UUIDs.
-- The session is created with `autoflush=False`, so an object that was added, or a row that was
-- changed through the ORM, reaches the tables only by a flush or a commit.
pub mod UnitOfWork
pub mod Keeps
pub mod Publishing
use api_template.Base.{
  ℕ, ◌+◌, String, str_eq, Bool, true, false, not, ◌&&◌, List, [], ◌∷◌, ◌++◌, any, ◌==◌,
  if◌then◌else◌, sorted_by,
}
use api_template.Kernel.Errors.{Exn, Outcome, returned, raised, integrity_error}
use api_template.Sql.{Table}
use api_template.Identity.Passwords.{Bcrypt}
use api_template.Identity.Tokens.{Jwt}
use api_template.Identity.Data.{OtpRow, UserRow, Event}

pub record Db : Type 0 where
  pub users : List UserRow
  pub otps : List OtpRow

-- A change that the session holds until the next flush.
pub data Change : Type 0 where
  add_user : UserRow → Change
  add_otp : OtpRow → Change
  -- the changed attributes of a row that the session has loaded
  write_user : UserRow → Change

pub record Env : Type 0 where
  pub users : Table UserRow
  pub otps : Table OtpRow
  -- `int(clock.get_utc_epoch())`, at each reading in turn
  pub clock : ℕ → ℕ
  -- `clock.get_now()`, a point in time
  pub now : ℕ → ℕ
  pub otp_code : ℕ → String
  -- `bcrypt.gensalt()`
  pub salt : ℕ → String
  pub uuid : ℕ → ℕ
  -- Python's `str.strip`
  pub strip : String → String
  pub bcrypt : Bcrypt
  pub jwt : Jwt

pub record World : Type 0 where
  -- the tables as the transaction sees them, and as they were last committed
  pub db : Db
  pub saved : Db
  pub pending : List Change
  -- what the event bus has been given
  pub published : List Event
  -- PostgreSQL's `now()`: when the transaction began
  pub db_now : ℕ
  -- how often the clock was read, a code or a salt drawn, a UUID made
  pub readings : ℕ
  pub draws : ℕ
  pub uuids : ℕ

abbrev pub Action : Type 0 → Type 0
Action A = World → Outcome A × World

infixl 5 ◌>>=◌ ◌>>◌
abbrev pub ◌>>=◌ : {A B : Type 0} → Action A → (A → Action B) → Action B
◌>>=◌ m f w = let (r, w') = m w in elim r [ returned a ↦ f a w' | raised e ↦ (raised e, w') ]

abbrev pub ◌>>◌ : {A B : Type 0} → Action A → Action B → Action B
m >> k = m >>= λ _. k

module _ {A : Type 0} where
  abbrev pub pure : A → Action A
  pure a w = (returned a, w)

  abbrev pub raise : Exn → Action A
  raise e w = (raised e, w)

  abbrev pub gets : (World → A) → Action A
  gets f w = (returned (f w), w)

abbrev pub modify : (World → World) → Action (Unit {0})
modify f w = (returned tt, f w)

-- The UNIQUE constraint on `email`.
unfoldable pub emails_unique : List UserRow → Bool
emails_unique [] = true
emails_unique (u ∷ us) = not (any (λ v. str_eq v.email u.email) us) && emails_unique us

unfoldable pub rollback : Action (Unit {0})
rollback w = (returned tt, record w { db = w.saved; pending = [] })

-- `close` ends the transaction: what was not committed is gone.
unfoldable pub close : Action (Unit {0})
close w = (returned tt, record w { db = w.saved; pending = [] })

-- The flush, by whether the constraint allows its changes.
unfoldable pub settle : Bool → Db → Action (Unit {0})
settle true db w = (returned tt, record w { db = db; pending = [] })
settle false db w = (raised integrity_error, w)

-- The commit, by how its flush ended.
keep : Outcome (Unit {0}) × World → Outcome (Unit {0}) × World
keep (returned u, w) = (returned tt, record w { saved = w.db })
keep (raised e, w) = (raised e, w)

-- The end of a block whose body returned, by how the commit ended; `finally` closes the session.
leave : {A : Type 0} → A → Outcome (Unit {0}) × World → Outcome A × World
unfolding close
leave a (returned u, w) = (returned a, (close w).1)
leave a (raised e, w) = (raised e, (close w).1)

-- `bus.publish`: the handlers of the identity events only send mail and never raise, so what a
-- request sees of the bus is the events that it was given, in order.
unfoldable pub publish : Event → Action (Unit {0})
publish event w = (returned tt, record w { published = w.published ++ event ∷ [] })

-- `bus.publish_many`: in the order of their `order`, and stable.
unfoldable pub publish_many : List Event → Action (Unit {0})
publish_many events w =
    (returned tt, record w { published = w.published ++ sorted_by (λ e. e.order) events })

module _ (env : Env) where
  unfoldable pub apply_change : Db → Change → Db
  apply_change db (add_user u) = record db { users = env.users.insert u db.users }
  apply_change db (add_otp o) = record db { otps = env.otps.insert o db.otps }
  apply_change db (write_user u) = record db {
    users = env.users.update (λ v. v.id == u.id) (λ _. u) db.users;
  }

  unfoldable pub apply_changes : Db → List Change → Db
  unfolding apply_change
  apply_changes db [] = db
  apply_changes db (c ∷ cs) = apply_changes (apply_change db c) cs

  unfoldable pub flush : Action (Unit {0})
  unfolding apply_changes settle
  flush w = let db' = apply_changes w.db w.pending in settle (emails_unique db'.users) db' w

  unfoldable pub commit : Action (Unit {0})
  unfolding flush keep
  commit w = keep (flush w)

  -- `__aexit__`, by how the body ended.
  unfoldable pub aexit : {A : Type 0} → Outcome A → Action A
  unfolding commit rollback close leave
  aexit (returned a) w = leave a (commit w)
  aexit (raised e) w = (raised e, (close (rollback w).1).1)

  -- `async with self._uow:` around `body`; a `return` in the body leaves it normally.
  unfoldable pub within_uow : {A : Type 0} → Action A → Action A
  unfolding aexit
  within_uow body w = let (r, w') = body w in aexit r w'

  unfoldable pub read_clock : Action ℕ
  read_clock w = (returned (env.clock w.readings), record w { readings = w.readings + 1 })

  unfoldable pub read_now : Action ℕ
  read_now w = (returned (env.now w.readings), record w { readings = w.readings + 1 })

  unfoldable pub draw_salt : Action String
  draw_salt w = (returned (env.salt w.draws), record w { draws = w.draws + 1 })

  unfoldable pub draw_code : Action String
  draw_code w = (returned (env.otp_code w.draws), record w { draws = w.draws + 1 })

  unfoldable pub uuid7 : Action ℕ
  uuid7 w = (returned (env.uuid w.uuids), record w { uuids = w.uuids + 1 })
