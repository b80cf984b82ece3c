-- ===== src/Blob/Storage.antt =====
-- infra/adapters/local_blob_storage.py: the files under the media root. A write or an unlink that the
-- system refuses raises, and leaves the files as they were. Pillow's resizing is a parameter.
use api_template.Base.{
  ℕ, zero, suc, ◌+◌, String, text_append, str_eq, starts_with, char_count, Bool, Option, none, some,
  List, [], ◌∷◌, if◌then◌else◌,
}
use api_template.Kernel.Errors.{os_error, Outcome, returned, raised}
use api_template.Kernel.Texts.{is_empty}
use api_template.Blob.Validators.{Bytes, BlobKind, raw, image, after_dot, or_text, lowered}

pub record BlobRow : Type 0 where
  pub id : ℕ
  pub name : String
  pub kind : BlobKind
  pub size : ℕ
  pub path : String
  pub medium_path : Option String
  pub thumbnail_path : Option String

pub record StoredBlob : Type 0 where
  pub path : String
  pub medium_path : Option String
  pub thumbnail_path : Option String

-- What the environment decides: the names drawn by uuid7, the images that Pillow makes of the bytes
-- (none where it fails), and which writes, unlinks, inserts and commits go through.
pub record Env : Type 0 where
  pub lower : String → String
  pub stem : ℕ → String
  pub row_id : ℕ → ℕ
  pub resized : (max_edge : ℕ) → Bytes → Option Bytes
  pub writable : String → Bool
  pub removable : String → Bool
  pub insertable : BlobRow → Bool
  pub commits : List BlobRow → Bool

-- The files under the media root, the rows as the transaction sees them and as they were last
-- committed, and how many names have been drawn.
pub record World : Type 0 where
  pub files : String → Option Bytes
  pub rows : List BlobRow
  pub committed : List BlobRow
  pub drawn : ℕ

abbrev pub put : String → Option Bytes → (String → Option Bytes) → String → Option Bytes
put path content files other = if str_eq path other then content else files other

-- `relative_dir / filename`, with `/` between them.
abbrev pub joined : String → String → String
joined directory filename = text_append directory (text_append "/" filename)

abbrev pub directory_of : BlobKind → String
directory_of raw = "files"
directory_of image = "images"

module _ (env : Env) where
  unfoldable pub write : (path : String) → Bytes → World → Outcome String × World
  write path content w =
      if env.writable path
      then (returned path, record w { files = put path (some content) w.files })
      else (raised os_error, w)

  abbrev pub written_or_none : (Outcome String × World) → World → Option String × World
  written_or_none (returned path, after) w = (some path, after)
  written_or_none (raised e, after) w = (none, after)

  abbrev pub keep_variant : (path : String) → Option Bytes → World → Option String × World
  keep_variant path none w = (none, w)
  keep_variant path (some smaller) w = written_or_none (write path smaller w) w

  -- One pass of the loop of `_make_image_variants`: whatever fails, the variant is None.
  unfoldable pub make_variant :
      (directory : String)
      → (max_edge : ℕ) → (stem : String) → Bytes
      → World
      → Option String × World
  unfolding write
  make_variant directory max_edge stem content w =
      keep_variant (joined (joined "images" directory) (text_append stem ".webp"))
        (env.resized max_edge content) w

  -- The variants of an image, once its bytes are written.
  unfoldable pub with_variants : (path stem : String) → Bytes → World → Outcome StoredBlob × World
  unfolding make_variant
  with_variants path stem content w =
      let medium = make_variant "medium" 1024 stem content w in
      let thumbnail = make_variant "thumbnail" 256 stem content medium.1 in
      (
        returned (record { path = path; medium_path = medium.0; thumbnail_path = thumbnail.0 }),
        thumbnail.1,
      )

  abbrev pub once_written :
      BlobKind → (stem : String) → Bytes → (Outcome String × World) → Outcome StoredBlob × World
  once_written kind stem content (raised e, w) = (raised e, w)
  once_written raw stem content (returned path, w) =
      (returned (record { path = path; medium_path = none; thumbnail_path = none }), w)
  once_written image stem content (returned path, w) = with_variants path stem content w

  unfoldable pub original_path : BlobKind → (stem name : String) → String
  unfolding after_dot
  original_path kind stem name =
      joined (directory_of kind)
        (text_append stem (text_append "." (or_text "bin" (lowered env.lower (after_dot name)))))

  -- `_store_sync`
  unfoldable pub store : BlobKind → Bytes → (name : String) → World → Outcome StoredBlob × World
  unfolding write with_variants original_path
  store kind content name w = once_written kind (env.stem w.drawn) content (
      write (original_path kind (env.stem w.drawn) name) content (record w { drawn = w.drawn + 1 }))

  -- `s[n:]`
  abbrev skip : ℕ → String → String
  skip zero s = s
  skip (suc n) String.[] = String.[]
  skip (suc n) (String.◌∷◌ c s) = skip n s

  unfoldable pub remove_prefix : String → String → String
  remove_prefix prefix s = if starts_with s prefix then skip (char_count prefix) s else s

  unfoldable pub strip_root : String → String
  unfolding remove_prefix
  strip_root path = remove_prefix "media/" (remove_prefix "/" path)

  abbrev removed : String → World → World
  removed path w = record w { files = put (strip_root path) none w.files }

  -- `_delete_sync`, which stops at the first file that cannot be removed.
  unfoldable pub delete_files : List String → World → Outcome (Unit {0}) × World
  unfolding strip_root is_empty
  delete_files [] w = (returned tt, w)
  delete_files (path ∷ paths) w =
      let skipped = delete_files paths w in
      let gone = delete_files paths (removed path w) in
      if is_empty path
      then skipped
      else if env.removable (strip_root path)
      then gone
      else (raised os_error, w)
