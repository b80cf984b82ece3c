-- ===== src/Telemetry/Masking.antt =====
-- modules/telemetry/logging/masking.py: secrets and binary payloads are taken out of a structured
-- payload before it is written. The two regular expressions are parameters, since the library that
-- matches them is not code of this repository.
pub mod Hides
use api_template.Base.{ℕ, ◌+◌, String, char_count, Bool, true, false, ◌||◌, ltb, if◌then◌else◌, suc}

-- A key is a text or something else; a leaf is a text, bytes, or a value that is neither.
pub data Key : Type 0 where
  named : String → Key
  unnamed : ℕ → Key

mutual
  pub data Value : Type 0 where
    dict : Entries → Value
    list : Items → Value
    text : String → Value
    bytes : Value
    plain : ℕ → Value

  pub data Entries : Type 0 where
    no_entry : Entries
    entry : Key → Value → Entries → Entries

  pub data Items : Type 0 where
    no_item : Items
    item : Value → Items → Items

abbrev pub redacted : String
redacted = "***"

abbrev pub omitted : String
omitted = "<omitted>"

abbrev pub max_str_len : ℕ
max_str_len = 4096

abbrev pub max_depth : ℕ
max_depth = 32

-- What `_SENSITIVE_KEY_RE.search` and `_DATA_URI_RE.match` find.
pub record Patterns : Type 0 where
  pub sensitive : String → Bool
  pub data_uri : String → Bool

module _ (patterns : Patterns) where
  unfoldable pub is_sensitive_key : Key → Bool
  is_sensitive_key (named key) = patterns.sensitive key
  is_sensitive_key (unnamed n) = false

  unfoldable pub looks_binary : Value → Bool
  looks_binary bytes = true
  looks_binary (text s) = patterns.data_uri s || ltb max_str_len (char_count s)
  looks_binary (dict es) = false
  looks_binary (list xs) = false
  looks_binary (plain n) = false

  -- `mask` at a depth, on a value, on the entries of a dict, and on the items of a list or a tuple.
  unfoldable mutual
    unfolding is_sensitive_key looks_binary

    pub mask : ℕ → Value → Value
    mask depth (dict es) =
        let masked = mask_entries (depth + 1) es in
        if ltb max_depth depth then dict es else dict masked
    mask depth (list xs) =
        let masked = mask_items (depth + 1) xs in
        if ltb max_depth depth then list xs else list masked
    mask depth (text s) =
        if ltb max_depth depth
        then text s
        else if looks_binary (text s)
        then text omitted
        else text s
    mask depth bytes = if ltb max_depth depth then bytes else text omitted
    mask depth (plain n) = plain n

    pub mask_entries : ℕ → Entries → Entries
    mask_entries depth no_entry = no_entry
    mask_entries depth (entry key value es) =
        let masked = mask depth value in
        let rest = mask_entries depth es in
        if is_sensitive_key key
        then entry key (text redacted) rest
        else if looks_binary value
        then entry key (text omitted) rest
        else entry key masked rest

    pub mask_items : ℕ → Items → Items
    mask_items depth no_item = no_item
    mask_items depth (item value xs) = item (mask depth value) (mask_items depth xs)
