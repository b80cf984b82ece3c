-- ===== src/Blob/Orphans.antt =====
-- An upload whose commit fails leaves its files.
use api_template.Base.{
  String, true, false, Option, none, some, List, [], ◌∷◌, ◌++◌, ◌≡◌, ◌≢◌, refl, All, All-mono,
}
use api_template.Kernel.Errors.{integrity_error, returned, raised}
use api_template.Kernel.Result.{ok}
use api_template.Kernel.Texts.{is_empty}
use api_template.Blob.Validators.{validate_upload}
use api_template.Blob.Storage.{BlobRow, StoredBlob, Env, World, store}
use api_template.Blob.Files.{Present, Stored, store-Stored}
use api_template.Blob.Handlers.{
  BlobUploadCommand, optional_path, stored_paths, new_row, commit_rows, record_blob, upload,
}

-- A path that is given and not empty, and those of what was stored.
abbrev given_path : Option String → List String
given_path none = []
given_path (some String.[]) = []
given_path (some (String.◌∷◌ c s)) = String.◌∷◌ c s ∷ []

abbrev pub files_of : StoredBlob → List String
files_of s = given_path (some s.path) ++ given_path s.medium_path ++ given_path s.thumbnail_path

given_path-optional : (o : Option String) → optional_path o ≡ given_path o
unfolding is_empty
given_path-optional none = refl
given_path-optional (some String.[]) = refl
given_path-optional (some (String.◌∷◌ c s)) = refl

files_of-stored : (s : StoredBlob) → stored_paths s ≡ files_of s
unfolding stored_paths
files_of-stored s =
    rw
      (
        given_path-optional (some s.path),
        given_path-optional s.medium_path,
        given_path-optional s.thumbnail_path,
      )
      refl

-- None of the committed rows has the path.
abbrev pub Unowned : World → String → Type 0
Unowned w path =
    All
      (λ (row : BlobRow).
        (row.path ≢ path) × ((row.medium_path ≢ some path) × (row.thumbnail_path ≢ some path)))
      w.committed

module _ (env : Env) where
  -- An upload that is valid and stored under paths that no committed row has, and whose row is made
  -- but cannot be committed, raises and leaves every file that it has stored, and no committed row
  -- has their paths: the committed rows are those from before, and the transaction is back at them.
  pub upload_orphans :
      (cmd : BlobUploadCommand) (w after : World) (stored : StoredBlob)
      → All (Unowned w) (files_of stored)
      → validate_upload env.lower cmd.kind cmd.content cmd.name ≡ ok tt
      → store env cmd.kind cmd.content cmd.name w ≡ (returned stored, after)
      → env.insertable (new_row env cmd stored after) ≡ true
      → env.commits (after.rows ++ new_row env cmd stored after ∷ []) ≡ false
      → ((upload env cmd w).0 ≡ raised integrity_error)
        × All (Present (upload env cmd w).1) (files_of stored)
        × All (Unowned (upload env cmd w).1) (files_of stored)
        × ((upload env cmd w).1.committed ≡ w.committed)
        × ((upload env cmd w).1.rows ≡ w.committed)
  unfolding upload record_blob commit_rows
  upload_orphans cmd w after stored fresh valid kept insertable refused =
      let whatever = store-Stored env cmd.kind cmd.content cmd.name w in
      let there : Stored env w (returned stored, after) = rw kept at whatever in
      rw (valid, kept, insertable, refused)
        (
          refl,
          rw (← files_of-stored stored) (there.1),
          All-mono (Unowned w) (Unowned after) (files_of stored) (λ path free. rw (there.0.2) free)
              fresh,
          there.0.2,
          there.0.2,
        )
