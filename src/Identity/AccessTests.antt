-- ===== src/Identity/AccessTests.antt =====
-- Concrete requests with a bearer token or an API key.
use Prim.Native.Char.{code}
use api_template.Base.{
  ℕ, zero, suc, ◌+◌, ap, ◌∙◌, arith, String, true, false, Option, none, some, [], ◌∷◌, ◌≡◌, ◌==◌,
  refl, if◌then◌else◌,
}
use api_template.Kernel.Errors.{returned}
use api_template.Kernel.Texts.{strip, split_space, is_empty}
use api_template.Sql.{Table}
use api_template.Sql.Memory.{memory}
use api_template.Http.Handler.{Host, Request}
use api_template.Identity.UserRepository.{UserOnContext, rows_where, get_for_context}
use api_template.Identity.Auth.{decode_payload}
use api_template.Identity.Tests.{env, ada, quiet}
use api_template.Identity.Access.{
  Bytes, bytes_eq, ApiKeyRow, blocked, Crypto, by_token, by_key, Headers, let_in,
  get_current_user_from_token, create_api_key, authenticate, get_current_user_from_request, admit,
}
use api_template.Identity.Access.Bearer.{Known, admit-Known}
use api_template.Identity.Access.Keys.{with_key, admit-key, create_api_key-admit}

abbrev keys : Table ApiKeyRow
keys = memory

-- A text for bytes: each number as so many strokes, and a comma.
abbrev strokes : ℕ → String → String
strokes zero s = String.◌∷◌ "," s
strokes (suc n) s = String.◌∷◌ "a" (strokes n s)

abbrev written : Bytes → String
written [] = ""
written (b ∷ bs) = strokes b (written bs)

abbrev before_all : ℕ → Option Bytes → Option Bytes
before_all n none = none
before_all n (some bs) = some (n ∷ bs)

-- With so many strokes read.
unfoldable read : ℕ → String → Option Bytes
read n String.[] = some []
read n (String.◌∷◌ c s) =
    let next = read 0 s in
    let more = read (suc n) s in if code c == b',' then before_all n next else more

read-strokes : (m n : ℕ) (s : String) → read m (strokes n s) ≡ before_all (m + n) (read 0 s)
unfolding read
read-strokes m zero s = ap (λ k. before_all k (read 0 s)) (omega arith)
read-strokes m (suc n) s =
    read-strokes (suc m) n s ∙ ap (λ k. before_all k (read 0 s)) (omega arith)

read-written : (bs : Bytes) → read 0 (written bs) ≡ some bs
unfolding read
read-written [] = refl
read-written (b ∷ bs) =
    read-strokes 0 b (written bs)
    ∙ ap (λ k. before_all k (read 0 (written bs))) (omega arith)
    ∙ ap (before_all b) (read-written bs)

abbrev crypto : Crypto
crypto = record {
  sign = λ bytes. 7 ∷ bytes;
  generate = λ draw length. draw ∷ length ∷ [];
  b64encode = written;
  b64decode = read 0;
  b64decode-b64encode = read-written;
}

abbrev bearing : String → Headers
bearing header = record { authorization = some header; api_key = none }

abbrev ada_on_context : UserOnContext
ada_on_context = record {
  id = 1;
  email = "ada@example.org";
  first_name = "Ada";
  last_name = "L";
  is_active = true;
}

admit-Known_example :
    (scheme : String) × (token : String) × (user : UserOnContext) × (split_space
        (strip "Bearer refresh")
      ≡ scheme ∷ token ∷ [])
    × (true ≡ true)
    × (some (by_token ada_on_context) ≡ some (by_token user))
    × Known env token user quiet
unfolding admit authenticate get_current_user_from_token get_current_user_from_request
    decode_payload get_for_context rows_where memory strip split_space is_empty
admit-Known_example =
    admit-Known env keys crypto [] (bearing "Bearer refresh") (some (by_token ada_on_context)) quiet
      (record quiet { readings = 1 }) refl

-- A key that was blocked.
abbrev blocked_key : ApiKeyRow
blocked_key = record {
  id = 9;
  key = 7 ∷ 1 ∷ [];
  status = blocked;
  last_used_at = none;
  owner_id = 1;
}

admit-key_example :
    admit env keys crypto (blocked_key ∷ []) (with_key "a,") true true quiet
    ≡ (let_in (some (by_key ada)), quiet)
unfolding read rows_where memory bytes_eq is_empty
admit-key_example =
    admit-key env keys crypto (blocked_key ∷ []) "a," (1 ∷ []) blocked_key ada true quiet refl refl
      refl refl

create_api_key-admit_example :
    let made = (create_api_key env keys crypto [] ada.id 3 quiet).0 in
    admit env keys crypto made.0 (with_key made.1.key) true true quiet
    ≡ (let_in (some (by_key ada)), quiet)
unfolding create_api_key rows_where memory is_empty
create_api_key-admit_example =
    create_api_key-admit env keys crypto [] 3 ada true quiet quiet refl refl refl

abbrev host : Host (Unit {0})
host = record {
  current_service = "api";
  text_of = λ exc. returned "no";
  traceback_of = λ exc. returned "a stack";
  mask_text = λ s. returned s;
  sink = λ event. returned tt;
  should_debug = false;
}

abbrev request : Request
request = record { url = "https://api.example.org/api/v1/users/me"; method = "GET" }
