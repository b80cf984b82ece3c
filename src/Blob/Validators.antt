-- ===== src/Blob/Validators.antt =====
-- application/blob/validators/blob_validators.py and constants: the size of an upload, and whether its
-- first bytes are what its extension claims. `str.lower` is a parameter.
use Prim.Native.Char.{code}
use api_template.Base.{
  ℕ, String, text_append, str_eq, Bool, true, false, ◌&&◌, Option, none, some, List, [], ◌∷◌, any,
  length, take, ◌==◌, ltb, if◌then◌else◌,
}
use api_template.Kernel.Errors.{
  StatusCode, file_size_limit_exceeded, unsupported_file_format, Message, AppExceptionDetail,
}
use api_template.Kernel.Result.{Result, ok, err}

abbrev pub Bytes : Type 0
Bytes = List ℕ

pub data BlobKind : Type 0 where
  raw image : BlobKind

abbrev pub max_blob_size_bytes : ℕ
max_blob_size_bytes = 15728640

abbrev pub max_image_size_bytes : ℕ
max_image_size_bytes = 10485760

abbrev pub Detail : Type 0
Detail = AppExceptionDetail (Unit {0})

unfoldable pub detail : StatusCode → String → Detail
detail status message = record {
  status = status;
  message = some (Message.text message);
  field = none;
  payload = tt;
}

-- What stands behind the last dot.
unfoldable pub after_dot : String → Option String
after_dot String.[] = none
after_dot (String.◌∷◌ c s) = elim (after_dot s) [
  | some t ↦ some t
  | none ↦ if code c == b'.' then some s else none
]

abbrev pub or_text : String → Option String → String
or_text default none = default
or_text default (some s) = s

abbrev pub lowered : (String → String) → Option String → Option String
lowered lower none = none
lowered lower (some s) = some (lower s)

unfoldable pub extension : (lower : String → String) → String → String
unfolding after_dot
extension lower filename = or_text "" (lowered lower (after_dot filename))

abbrev pub Signatures : Type 0
Signatures = List (String × List Bytes)

abbrev pub zip_signature : Bytes
zip_signature = 80 ∷ 75 ∷ 3 ∷ 4 ∷ []

abbrev pub allowed_file_signatures : Signatures
allowed_file_signatures =
    ("pdf", (37 ∷ 80 ∷ 68 ∷ 70 ∷ 45 ∷ []) ∷ [])
    ∷ ("zip", zip_signature ∷ (80 ∷ 75 ∷ 5 ∷ 6 ∷ []) ∷ (80 ∷ 75 ∷ 7 ∷ 8 ∷ []) ∷ [])
    ∷ (
      "rar",
      (82 ∷ 97 ∷ 114 ∷ 33 ∷ 26 ∷ 7 ∷ 0 ∷ []) ∷ (82 ∷ 97 ∷ 114 ∷ 33 ∷ 26 ∷ 7 ∷ 1 ∷ 0 ∷ []) ∷ [],
    )
    ∷ ("docx", zip_signature ∷ [])
    ∷ ("xlsx", zip_signature ∷ [])
    ∷ ("pptx", zip_signature ∷ [])
    ∷ ("csv", [])
    ∷ ("txt", [])
    ∷ []

abbrev pub allowed_image_signatures : Signatures
allowed_image_signatures =
    ("png", (137 ∷ 80 ∷ 78 ∷ 71 ∷ 13 ∷ 10 ∷ 26 ∷ 10 ∷ []) ∷ [])
    ∷ ("jpg", (255 ∷ 216 ∷ 255 ∷ []) ∷ [])
    ∷ ("jpeg", (255 ∷ 216 ∷ 255 ∷ []) ∷ [])
    ∷ ("gif", (71 ∷ 73 ∷ 70 ∷ 56 ∷ 55 ∷ 97 ∷ []) ∷ (71 ∷ 73 ∷ 70 ∷ 56 ∷ 57 ∷ 97 ∷ []) ∷ [])
    ∷ ("webp", (82 ∷ 73 ∷ 70 ∷ 70 ∷ []) ∷ [])
    ∷ []

unfoldable pub signatures_of : String → Signatures → Option (List Bytes)
signatures_of extension_text [] = none
signatures_of extension_text ((name, signatures) ∷ rest) =
    if str_eq extension_text name then some signatures else signatures_of extension_text rest

unfoldable pub same_bytes : Bytes → Bytes → Bool
same_bytes [] [] = true
same_bytes [] (b ∷ bs) = false
same_bytes (a ∷ as_left) [] = false
same_bytes (a ∷ as_left) (b ∷ bs) = a == b && same_bytes as_left bs

-- `bytes(content[: len(signature)]) == signature`
unfoldable pub begins_with : Bytes → Bytes → Bool
unfolding same_bytes
begins_with content signature = same_bytes (take (length signature) content) signature

abbrev pub mismatch_text : String → String
mismatch_text name = text_append "File content does not match the ." (text_append name " extension")

abbrev pub unsupported_text : String → String
unsupported_text name = text_append "Extension ." (text_append name " is not supported")

unfoldable pub match_signature : Bytes → String → List Bytes → Result (Unit {0}) (List Detail)
unfolding begins_with detail
match_signature content name [] = ok tt
match_signature content name (s ∷ signatures) =
    if any (begins_with content) (s ∷ signatures)
    then ok tt
    else err (detail unsupported_file_format (mismatch_text name) ∷ [])

unfoldable pub known_extension :
    Bytes → String → Option (List Bytes) → Result (Unit {0}) (List Detail)
unfolding match_signature detail
known_extension content name none =
    err (detail unsupported_file_format (unsupported_text name) ∷ [])
known_extension content name (some signatures) = match_signature content name signatures

abbrev pub allowed_for : BlobKind → Signatures
allowed_for image = allowed_image_signatures
allowed_for raw = allowed_file_signatures

abbrev pub max_size_for : BlobKind → ℕ
max_size_for image = max_image_size_bytes
max_size_for raw = max_blob_size_bytes

-- `_validate_signature`
unfoldable pub validate_signature :
    (lower : String → String)
    → BlobKind
    → Bytes
    → (filename : String) → Result (Unit {0}) (List Detail)
unfolding known_extension extension signatures_of
validate_signature lower kind content filename =
    known_extension content (extension lower filename)
      (signatures_of (extension lower filename) (allowed_for kind))

-- `BlobUploadValidator.__call__`
unfoldable pub validate_upload :
    (lower : String → String)
    → BlobKind
    → Bytes
    → (filename : String) → Result (Unit {0}) (List Detail)
unfolding validate_signature detail
validate_upload lower kind content filename =
    if ltb (max_size_for kind) (length content)
    then err (detail file_size_limit_exceeded "File size limit exceeded" ∷ [])
    else validate_signature lower kind content filename
