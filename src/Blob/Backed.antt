-- ===== src/Blob/Backed.antt =====
-- Every committed row has its files, whatever fails in an upload or a delete.
use api_template.Base.{
  ℕ, String, Bool, not, List, [], ◌∷◌, ◌++◌, ◌≡◌, refl, sym, ◌∙◌, All, All-append, All-mono, any,
  filter, Bool-cases, inl, inr, ◌==◌,
}
use api_template.Kernel.Errors.{Outcome, returned, raised}
use api_template.Kernel.Result.{Result, ok, err}
use api_template.Blob.Validators.{Detail, validate_upload}
use api_template.Blob.Storage.{BlobRow, StoredBlob, Env, World, store, delete_files}
use api_template.Blob.Files.{
  Present, Backed, Grown, Stored, store-Stored, Apart, delete_files-keeps, delete_files-rows,
}
use api_template.Blob.Handlers.{
  BlobUploadCommand, Answer, stored_paths, row_paths, new_row, commit_rows, rolled_back,
  record_blob, recorded, uploaded, upload, get_paths, after_commit, delete_found, delete,
}

-- Nothing is pending, and every committed row has its files.
abbrev pub Settled : World → Type 0
Settled w = (w.rows ≡ w.committed) × Backed w

All-with :
    {A : Type 0} (P Q R : A → Type 0) (xs : List A)
    → ((x : A) → P x → Q x → R x)
    → All P xs
    → All Q xs
    → All R xs
All-with P Q R [] f p q = tt
All-with P Q R (x ∷ xs) f p q = (f x p.0 q.0, All-with P Q R xs f p.1 q.1)

-- The rows of a list have their files.
abbrev HaveFiles : World → List BlobRow → Type 0
HaveFiles w rows = All (λ r. All (Present w) (row_paths r)) rows

module _ (env : Env) where
  commit_rows-Settled :
      {A : Type 0} (answer : Result A (List Detail)) (w : World)
      → HaveFiles w w.rows
      → Backed w
      → Settled (commit_rows env answer w).1
  unfolding commit_rows
  commit_rows-Settled answer w h b = elim (Bool-cases (env.commits w.rows)) [
    | inl e ↦ rw e (refl, h)
    | inr e ↦ rw e (refl, b)
  ]

  rolled_back-Settled :
      (A : Type 0) (r : Outcome (Unit {0}) × World)
      → Backed r.1
      → Settled (rolled_back env {A = A} r).1
  rolled_back-Settled A (returned u, w) h = (refl, h)
  rolled_back-Settled A (raised e, w) h = (refl, h)

  -- The rows whose files are not among those that go have theirs after it.
  removal_spares :
      (gone : List String) (rows : List BlobRow) (w : World)
      → All (λ r. Apart env gone (row_paths r)) rows
      → HaveFiles w rows
      → HaveFiles (delete_files env gone w).1 rows
  removal_spares gone rows w a h =
      All-with (λ r. Apart env gone (row_paths r)) (λ r. All (Present w) (row_paths r)) _ rows
        (λ r p q. (delete_files-keeps env gone (row_paths r) w p q).0) a h

  removal_keeps :
      (gone : List String) (rows : List BlobRow) (w : World)
      → All (λ r. Apart env gone (row_paths r)) rows
      → HaveFiles w rows
      → w.committed ≡ rows
      → Backed (delete_files env gone w).1
  removal_keeps gone rows w a h e =
      rw ((delete_files-rows env gone w).1 ∙ e) (removal_spares gone rows w a h)

  -- Where files were added alone, the rows still have theirs.
  Settled-after : (w after : World) → Settled w → Grown w after → Settled after
  Settled-after w after h g = (
    g.1 ∙ h.0 ∙ sym (g.2),
    rw (g.2) (
        All-mono (λ r. All (Present w) (row_paths r)) (λ r. All (Present after) (row_paths r))
          w.committed (λ r p. All-mono (Present w) (Present after) (row_paths r) (λ q k. g.0 q k) p)
          h.1),
  )

  record_blob-Settled :
      (cmd : BlobUploadCommand) (stored : StoredBlob) (w : World)
      → Settled w
      → All (Present w) (stored_paths stored)
      → All (λ r. Apart env (stored_paths stored) (row_paths r)) w.committed
      → Settled (record_blob env cmd stored w).1
  unfolding record_blob new_row row_paths stored_paths
  record_blob-Settled cmd stored w h there apart =
      elim (Bool-cases (env.insertable (new_row env cmd stored w))) [
        | inl e ↦
            let row = new_row env cmd stored w in
            let before : HaveFiles w w.rows = rw h.0 h.1 in
            rw e (
              commit_rows-Settled (ok row) (record w { rows = w.rows ++ row ∷ [] })
                (All-append (λ r. All (Present w) (row_paths r)) w.rows (row ∷ []) before
                  (there, tt))
                h.1)
        | inr e ↦ rw e (
            rolled_back-Settled BlobRow (delete_files env (stored_paths stored) w)
              (removal_keeps (stored_paths stored) w.committed w apart h.1 refl))
      ]

  recorded-Settled :
      (cmd : BlobUploadCommand) (r : Outcome StoredBlob × World) (w : World)
      → Settled w
      → Stored env w r
      → ((stored : StoredBlob)
          → r.0 ≡ returned stored
          → All (λ x. Apart env (stored_paths stored) (row_paths x)) w.committed)
      → Settled (recorded env cmd r).1
  recorded-Settled cmd (raised e, after) w h g apart = Settled-after w after h g
  recorded-Settled cmd (returned stored, after) w h g apart =
      record_blob-Settled cmd stored after (Settled-after w after h g.0) g.1
        (rw (g.0.2) (apart stored refl))

  uploaded-Settled :
      (cmd : BlobUploadCommand) (valid : Result (Unit {0}) (List Detail)) (w : World)
      → Settled w
      → ((stored : StoredBlob)
          → (store env cmd.kind cmd.content cmd.name w).0 ≡ returned stored
          → All (λ x. Apart env (stored_paths stored) (row_paths x)) w.committed)
      → Settled (uploaded env cmd valid w).1
  uploaded-Settled cmd (err details) w h apart = h
  uploaded-Settled cmd (ok u) w h apart =
      recorded-Settled cmd (store env cmd.kind cmd.content cmd.name w) w h
        (store-Stored env cmd.kind cmd.content cmd.name w) apart

  after_commit-Settled :
      (paths : List String) (answer : Answer (Unit {0}))
      → Settled answer.1
      → All (λ r. Apart env paths (row_paths r)) answer.1.committed
      → Settled (after_commit env paths answer).1
  after_commit-Settled paths (raised e, w) h apart = h
  after_commit-Settled paths (returned answer, w) h apart =
      let same = delete_files-rows env paths w in
      (same.0 ∙ h.0 ∙ sym (same.1), removal_keeps paths w.committed w apart h.1 refl)

  filter-All :
      {A : Type 0} (P : A → Type 0) (p : A → Bool) (xs : List A) → All P xs → All P (filter p xs)
  filter-All P p [] h = tt
  filter-All P p (x ∷ xs) h = elim (Bool-cases (p x)) [
    | inl e ↦ rw e (h.0, filter-All P p xs h.1)
    | inr e ↦ rw e (filter-All P p xs h.1)
  ]

  delete_found-Settled :
      (id_ : ℕ) (found : Outcome (List String)) (w : World)
      → Settled w
      → ((paths : List String)
          → found ≡ returned paths
          → All (λ r. Apart env paths (row_paths r)) (filter (λ r. not (r.id == id_)) w.rows))
      → Settled (delete_found env id_ found w).1
  unfolding commit_rows
  delete_found-Settled id_ (raised e) w h apart = (refl, h.1)
  delete_found-Settled id_ (returned paths) w h apart =
      let left = filter (λ (r : BlobRow). not (r.id == id_)) w.rows in
      let before : HaveFiles w w.rows = rw h.0 h.1 in
      let kept : HaveFiles w left =
        filter-All (λ r. All (Present w) (row_paths r)) (λ r. not (r.id == id_)) w.rows before in
      elim (Bool-cases (env.commits (filter (λ r. not (r.id == id_)) w.rows))) [
        | inl e ↦ rw e (
            after_commit-Settled paths
              (returned (ok tt), record w { rows = left; committed = left }) (refl, kept)
              (apart paths refl))
        | inr e ↦ rw e (refl, h.1)
      ]

  -- Where nothing is pending and every committed row has its files, it is so after an upload and
  -- after a delete, whatever the validator answers and whichever write, unlink, insert or commit
  -- fails; provided that what the upload stores has names of its own, and that no other row has a
  -- file of the row that is deleted.
  pub blobs-Settled :
      (cmd : BlobUploadCommand) (id_ : ℕ) (w : World)
      → Settled w
      → ((stored : StoredBlob)
          → (store env cmd.kind cmd.content cmd.name w).0 ≡ returned stored
          → All (λ r. Apart env (stored_paths stored) (row_paths r)) w.committed)
      → ((paths : List String)
          → get_paths env (filter (λ r. r.id == id_) w.rows) ≡ returned paths
          → All (λ r. Apart env paths (row_paths r)) (filter (λ r. not (r.id == id_)) w.rows))
      → Settled (upload env cmd w).1 × Settled (delete env id_ w).1
  unfolding upload delete
  blobs-Settled cmd id_ w h own unshared = (
    uploaded-Settled cmd (validate_upload env.lower cmd.kind cmd.content cmd.name) w h own,
    elim (Bool-cases (any (λ r. r.id == id_) w.rows)) [
      | inl e ↦
          rw e (
            delete_found-Settled id_ (get_paths env (filter (λ r. r.id == id_) w.rows)) w h
              unshared)
      | inr e ↦ rw e h
    ],
  )
