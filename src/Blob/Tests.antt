-- ===== src/Blob/Tests.antt =====
-- The theorems on uploads at a concrete file, and runs of the code.
use api_template.Base.{
  String, str_eq, str_eq_iff, true, false, Option, none, some, [], ◌∷◌, ◌≡◌, ◌≢◌, refl, All,
}
use api_template.Kernel.Errors.{integrity_error, unsupported_file_format, returned, raised}
use api_template.Kernel.Result.{err}
use api_template.Blob.Validators.{Bytes, raw, image, validate_upload, detail}
use api_template.Blob.Storage.{BlobRow, StoredBlob, Env, World, store, strip_root}
use api_template.Blob.Files.{Present, Apart}
use api_template.Blob.Backed.{Settled, blobs-Settled}
use api_template.Blob.Orphans.{files_of, Unowned, upload_orphans}
use api_template.Blob.Handlers.{
  BlobUploadCommand, upload, delete, stored_paths, row_paths, get_paths,
}

abbrev env : Env
env = record {
  lower = λ s. s;
  stem = λ n. "01";
  row_id = λ n. n;
  resized = λ edge content. some content;
  writable = λ path. true;
  removable = λ path. true;
  insertable = λ row. true;
  commits = λ rows. true;
}

abbrev note : BlobUploadCommand
note = record { name = "note.txt"; kind = raw; content = 104 ∷ 105 ∷ [] }

abbrev fake_png : BlobUploadCommand
fake_png = record { name = "a.png"; kind = image; content = 77 ∷ 90 ∷ [] }

-- One row with its file.
abbrev old_row : BlobRow
old_row = record {
  id = 7;
  name = "old.txt";
  kind = raw;
  size = 1;
  path = "files/00.txt";
  medium_path = none;
  thumbnail_path = none;
}

abbrev old_files : String → Option Bytes
old_files path = elim (str_eq path "files/00.txt") [ true ↦ some (1 ∷ []) | false ↦ none ]

abbrev world : World
world = record { files = old_files; rows = old_row ∷ []; committed = old_row ∷ []; drawn = 0 }

abbrev note_stored : StoredBlob
note_stored = record { path = "files/01.txt"; medium_path = none; thumbnail_path = none }

stored_run : (store env raw (104 ∷ 105 ∷ []) "note.txt" world).0 ≡ returned note_stored
unfolding store
stored_run = refl

refused_run :
    validate_upload (λ s. s) image (77 ∷ 90 ∷ []) "a.png"
    ≡ err (detail unsupported_file_format "File content does not match the .png extension" ∷ [])
unfolding validate_upload
refused_run = refl

named_anew :
    (stored : StoredBlob)
    → (store env raw (104 ∷ 105 ∷ []) "note.txt" world).0 ≡ returned stored
    → All (λ r. Apart env (stored_paths stored) (row_paths r)) (old_row ∷ [])
unfolding store stored_paths row_paths strip_root
named_anew stored e = let same : note_stored ≡ stored = cc in rw (← same) (((refl, tt), tt), tt)

blobs-Settled_example : Settled (upload env note world).1 × Settled (delete env 7 world).1
unfolding row_paths get_paths
blobs-Settled_example =
    blobs-Settled env note 7 world (refl, ((refl, tt), tt)) named_anew (λ paths e. tt)

abbrev no_commit : Env
no_commit = record env { commits = λ rows. false }

abbrev after_note : World
after_note = (store no_commit raw (104 ∷ 105 ∷ []) "note.txt" world).1

other_path : (a b : String) → str_eq a b ≡ false → a ≢ b
other_path a b h e = absurd (let g : str_eq a b ≡ true = (str_eq_iff a b).1 e in cc)

none_other : (path : String) → none ≢ some path
none_other path e = absurd (cc)

upload_orphans_example :
    ((upload no_commit note world).0 ≡ raised integrity_error)
    × All (Present (upload no_commit note world).1) (files_of note_stored)
    × All (Unowned (upload no_commit note world).1) (files_of note_stored)
    × ((upload no_commit note world).1.committed ≡ world.committed)
    × ((upload no_commit note world).1.rows ≡ world.committed)
unfolding validate_upload store
upload_orphans_example =
    upload_orphans no_commit note world after_note note_stored
      (((other_path _ _ refl, (none_other _, none_other _)), tt), tt) refl refl refl refl
