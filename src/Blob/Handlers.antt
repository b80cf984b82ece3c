-- ===== src/Blob/Handlers.antt =====
-- application/blob/handlers/blob_handlers.py over data_access/orm/blob: upload and delete.
use api_template.Base.{
  ℕ, String, not, Option, none, some, List, [], ◌∷◌, ◌++◌, any, filter, length, ◌==◌, if◌then◌else◌,
}
use api_template.Kernel.Errors.{
  object_not_found, integrity_error, multiple_results_found, Outcome, returned, raised,
}
use api_template.Kernel.Result.{Result, ok, err}
use api_template.Kernel.Texts.{is_empty}
use api_template.Blob.Validators.{Bytes, BlobKind, Detail, detail, validate_upload}
use api_template.Blob.Storage.{BlobRow, StoredBlob, Env, World, store, delete_files}

pub record BlobUploadCommand : Type 0 where
  pub name : String
  pub kind : BlobKind
  pub content : Bytes

abbrev pub Answer : Type 0 → Type 0
Answer A = Outcome (Result A (List Detail)) × World

abbrev pub optional_path : Option String → List String
optional_path none = []
optional_path (some path) = if is_empty path then [] else path ∷ []

-- The paths that are given, of what was stored and of a row.
unfoldable pub stored_paths : StoredBlob → List String
unfolding is_empty
stored_paths s =
    optional_path (some s.path) ++ optional_path s.medium_path ++ optional_path s.thumbnail_path

unfoldable pub row_paths : BlobRow → List String
unfolding is_empty
row_paths r =
    optional_path (some r.path) ++ optional_path r.medium_path ++ optional_path r.thumbnail_path

module _ (env : Env) where
  unfoldable pub new_row : BlobUploadCommand → StoredBlob → World → BlobRow
  new_row cmd stored w = record {
    id = env.row_id w.drawn;
    name = cmd.name;
    kind = cmd.kind;
    size = length cmd.content;
    path = stored.path;
    medium_path = stored.medium_path;
    thumbnail_path = stored.thumbnail_path;
  }

  -- The end of the unit of work, without an exception and with one.
  unfoldable pub commit_rows : {A : Type 0} → Result A (List Detail) → World → Answer A
  commit_rows answer w =
      if env.commits w.rows
      then (returned answer, record w { committed = w.rows })
      else (raised integrity_error, record w { rows = w.committed })

  abbrev pub rolled_back : {A : Type 0} → (Outcome (Unit {0}) × World) → Answer A
  rolled_back (returned u, w) = (raised integrity_error, record w { rows = w.committed })
  rolled_back (raised e, w) = (raised e, record w { rows = w.committed })

  -- The row of the stored object; where it cannot be made, the files go.
  unfoldable pub record_blob : BlobUploadCommand → StoredBlob → World → Answer BlobRow
  unfolding new_row commit_rows delete_files stored_paths
  record_blob cmd stored w =
      if env.insertable (new_row cmd stored w)
      then commit_rows (ok (new_row cmd stored w))
          (record w { rows = w.rows ++ new_row cmd stored w ∷ [] })
      else rolled_back (delete_files env (stored_paths stored) w)

  abbrev pub recorded : BlobUploadCommand → (Outcome StoredBlob × World) → Answer BlobRow
  recorded cmd (raised e, w) = (raised e, w)
  recorded cmd (returned stored, w) = record_blob cmd stored w

  abbrev pub uploaded : BlobUploadCommand → Result (Unit {0}) (List Detail) → World → Answer BlobRow
  uploaded cmd (err details) w = (returned (err details), w)
  uploaded cmd (ok u) w = recorded cmd (store env cmd.kind cmd.content cmd.name w)

  -- `BlobUploadCommandHandler.__call__`
  unfoldable pub upload : BlobUploadCommand → World → Answer BlobRow
  unfolding validate_upload store record_blob
  upload cmd w = uploaded cmd (validate_upload env.lower cmd.kind cmd.content cmd.name) w

  -- `get_paths`: `one_or_none` of the rows with the id.
  unfoldable pub get_paths : List BlobRow → Outcome (List String)
  unfolding row_paths
  get_paths [] = returned []
  get_paths (r ∷ []) = returned (row_paths r)
  get_paths (r ∷ s ∷ rest) = raised multiple_results_found

  abbrev pub files_gone :
      Result (Unit {0}) (List Detail)
      → Outcome (Unit {0})
      → Outcome (Result (Unit {0}) (List Detail))
  files_gone answer (returned u) = returned answer
  files_gone answer (raised e) = raised e

  abbrev pub after_commit : List String → Answer (Unit {0}) → Answer (Unit {0})
  after_commit paths (raised e, w) = (raised e, w)
  after_commit paths (returned answer, w) =
      let gone = delete_files env paths w in (files_gone answer gone.0, gone.1)

  abbrev pub delete_found : ℕ → Outcome (List String) → World → Answer (Unit {0})
  delete_found id_ (raised e) w = (raised e, record w { rows = w.committed })
  delete_found id_ (returned paths) w =
      after_commit paths
        (commit_rows (ok tt) (record w { rows = filter (λ r. not (r.id == id_)) w.rows }))

  -- `BlobDeleteCommandHandler.__call__`
  unfoldable pub delete : ℕ → World → Answer (Unit {0})
  unfolding get_paths commit_rows delete_files detail
  delete id_ w =
      if any (λ r. r.id == id_) w.rows
      then delete_found id_ (get_paths (filter (λ r. r.id == id_) w.rows)) w
      else (returned (err (detail object_not_found "Blob not found" ∷ [])), w)
