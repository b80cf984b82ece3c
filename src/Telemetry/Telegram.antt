-- ===== src/Telemetry/Telegram.antt =====
-- modules/telemetry/writers/telegram.py: where an event is sent, and the sending, which waits for a
-- token of the global bucket and one of the destination's. What Telegram replies, what the clock
-- reads, and Python's `str.isdigit` and `int` are given. The text of a message is not modelled.
pub mod Limited
pub mod Starved
use Prim.Native.Char.{code}
use Prim.Native.String.{String}
use api_template.Base.{
  ℕ, ◌+◌, zero, suc, text_append, str_eq, Bool, true, false, not, ◌&&◌, ◌||◌, Option, none, some,
  List, ◌∷◌, ◌==◌, if◌then◌else◌,
}
use api_template.Kernel.Errors.{Outcome, returned, raised}
use api_template.Kernel.Outcomes.{◌>>=◌}
use api_template.Kernel.Dicts.{Dict, get_item, set_item}
use api_template.Kernel.Texts.{strip, split_comma, lstrip_dash, is_empty}
use api_template.Telemetry.Composer.{TelemetryEvent, kind_system}
use api_template.Telemetry.Bucket.{TokenBucket, new_bucket, Acquired, acquire}

-- `str.isdigit`, `int` of a text, and the text of a number; `Z` is Python's integers.
pub record Integers (Z : Type 0) : Type 0 where
  pub isdigit : String → Bool
  pub int_of : String → Outcome Z
  pub text_of : Z → String

pub record TelegramDestination (Z : Type 0) : Type 0 where
  pub chat_id : String
  pub thread_id : Option Z

-- `raw.rpartition(":")`, where there is a colon: what stands before the last one, and after it.
unfoldable pub rpartition_colon : String → Option (String × String)
rpartition_colon String.[] = none
rpartition_colon (String.◌∷◌ c s) =
    let rest = rpartition_colon s in
    elim rest [
      | some (before, after) ↦ some (String.◌∷◌ c before, after)
      | none ↦ if code c == b':' then some (String.[], s) else none
    ]

-- `pair.partition("=")`, where there is an equals sign.
unfoldable pub partition_equals : String → Option (String × String)
partition_equals String.[] = none
partition_equals (String.◌∷◌ c s) =
    let rest = partition_equals s in
    if code c == b'='
    then some (String.[], s)
    else elim rest [ none ↦ none | some (before, after) ↦ some (String.◌∷◌ c before, after) ]

module _ {Z : Type 0} (integers : Integers Z) where
  open integers use {isdigit, int_of, text_of}

  -- `key`
  unfoldable pub key : TelegramDestination Z → String
  key dest = elim dest.thread_id [
    | none ↦ dest.chat_id
    | some thread ↦ text_append dest.chat_id (text_append "#" (text_of thread))
  ]

  abbrev chat : String → TelegramDestination Z
  chat raw = record { chat_id = raw; thread_id = none }

  abbrev parse_parts : String → Option (String × String) → Outcome (TelegramDestination Z)
  parse_parts raw none = returned (chat raw)
  parse_parts raw (some (chat_id, thread)) =
      if not (is_empty chat_id) && isdigit (lstrip_dash (strip thread))
      then (do n ← int_of thread; returned (record { chat_id = chat_id; thread_id = some n }))
      else returned (chat raw)

  -- A text may pass the test of `isdigit` that `int` refuses, such as "--5".
  unfoldable pub parse_destination : String → Outcome (TelegramDestination Z)
  unfolding strip lstrip_dash is_empty rpartition_colon
  parse_destination raw = parse_parts (strip raw) (rpartition_colon (strip raw))

  abbrev add_route :
      String
      → Option (String × String)
      → Dict (TelegramDestination Z)
      → Outcome (Dict (TelegramDestination Z))
  add_route pair none routes = returned routes
  add_route pair (some (name, value)) routes =
      if not (is_empty (strip name)) && not (is_empty (strip value))
      then (do dest ← parse_destination value; returned (set_item (strip name) dest routes))
      else returned routes

  unfoldable pub parse_pairs :
      List String → Dict (TelegramDestination Z) → Outcome (Dict (TelegramDestination Z))
  unfolding parse_destination partition_equals set_item strip
  parse_pairs List.[] routes = returned routes
  parse_pairs (pair ∷ pairs) routes = do
    more ← add_route (strip pair) (partition_equals (strip pair)) routes
    parse_pairs pairs more

  unfoldable pub parse_destination_map : String → Outcome (Dict (TelegramDestination Z))
  unfolding parse_pairs split_comma
  parse_destination_map raw = parse_pairs (split_comma raw) List.[]

-- The destinations of a writer.
pub record Destinations (Z : Type 0) : Type 0 where
  pub default : TelegramDestination Z
  pub system : TelegramDestination Z
  pub service_routes : Dict (TelegramDestination Z)
  pub level_routes : Dict (TelegramDestination Z)

abbrev or_else : {A : Type 0} → Option A → A → A
or_else none a = a
or_else (some b) a = b

-- `_route`
unfoldable pub route : {Z : Type 0} → Destinations Z → TelemetryEvent → TelegramDestination Z
unfolding get_item
route ds event =
    if str_eq event.kind kind_system
    then ds.system
    else or_else (get_item event.service ds.service_routes)
        (or_else (get_item event.level ds.level_routes) ds.default)

-- The buckets of a writer: that of all messages, and one for each key of a destination.
pub record Limits : Type 0 where
  pub global : TokenBucket
  pub chats : Dict TokenBucket

-- Telegram's reply to a message, or nothing where the request failed.
pub data Reply : Type 0 where
  failed : Reply
  replied : (status_code : ℕ) → Reply

-- A round of `_send`: what the clock reads while it waits for each bucket, and the reply.
pub record Round : Type 0 where
  pub global_readings : List ℕ
  pub chat_created : ℕ
  pub chat_readings : List ℕ
  pub reply : Reply

-- How often a message was posted, whether `_send` has returned, and the buckets after it.
pub record Sent : Type 0 where
  pub posts : ℕ
  pub returns : Bool
  pub limits : Limits

-- Whether `_send` is called again, which `retries` counts.
unfoldable pub goes_on : (retries : ℕ) → Reply → Bool
goes_on zero reply = false
goes_on (suc retries) failed = false
goes_on (suc retries) (replied status) = status == 429

-- A second has so many ticks, a token so many parts, and `per_chat_rate` parts come with a tick.
module _ (second one per_chat_rate : ℕ) where
  -- `_bucket`
  unfoldable pub chat_bucket : String → (now : ℕ) → Dict TokenBucket → TokenBucket
  unfolding get_item new_bucket
  chat_bucket k now chats = or_else (get_item k chats) (new_bucket second per_chat_rate none now)

  unfoldable pub send : (retries : ℕ) → (k : String) → List Round → Limits → Sent
  unfolding acquire chat_bucket set_item goes_on
  send retries k List.[] limits = record { posts = 0; returns = false; limits = limits }
  send zero k (r ∷ rounds) limits =
      let g = acquire one r.global_readings limits.global in
      let c = acquire one r.chat_readings (chat_bucket k r.chat_created limits.chats) in
      if not g.returns
      then record { posts = 0; returns = false; limits = record limits { global = g.bucket } }
      else record {
        posts = if c.returns then 1 else 0;
        returns = c.returns;
        limits = record { global = g.bucket; chats = set_item k c.bucket limits.chats };
      }
  send (suc retries) k (r ∷ rounds) limits =
      let g = acquire one r.global_readings limits.global in
      let c = acquire one r.chat_readings (chat_bucket k r.chat_created limits.chats) in
      let next : Limits = record { global = g.bucket; chats = set_item k c.bucket limits.chats } in
      let again = send retries k rounds next in
      if not g.returns
      then record { posts = 0; returns = false; limits = record limits { global = g.bucket } }
      else if not c.returns
      then record { posts = 0; returns = false; limits = next }
      else if goes_on (suc retries) r.reply
      then record again { posts = 1 + again.posts }
      else record { posts = 1; returns = true; limits = next }

  -- A message: the key of its destination, and the rounds of its sending.
  pub record Message : Type 0 where
    pub key : String
    pub rounds : List Round

  -- `_handle_batch` over the events of the batches, one message after another.
  unfoldable pub deliver : List Message → Limits → Sent
  unfolding send
  deliver List.[] limits = record { posts = 0; returns = true; limits = limits }
  deliver (m ∷ ms) limits =
      let first = send 2 m.key m.rounds limits in
      let rest = deliver ms first.limits in
      if first.returns then record rest { posts = first.posts + rest.posts } else first
