-- ===== src/Blob/Files.antt =====
-- The files after a write, a store and a removal.
use api_template.Base.{
  ℕ, ◌+◌, String, str_eq, str_eq_refl, true, false, Option, none, some, is_some, List, [], ◌∷◌,
  ◌++◌, ◌≡◌, refl, ◌∙◌, All, All-append, All-mono, Bool-cases, inl, inr,
}
use api_template.Kernel.Errors.{Outcome, returned, raised}
use api_template.Kernel.Texts.{is_empty}
use api_template.Blob.Validators.{Bytes, BlobKind, raw, image}
use api_template.Blob.Storage.{
  StoredBlob, Env, World, put, write, written_or_none, keep_variant, make_variant, with_variants,
  once_written, original_path, store, strip_root, delete_files,
}
use api_template.Blob.Handlers.{optional_path, stored_paths, row_paths}

abbrev pub Present : World → String → Type 0
Present w path = is_some (w.files path) ≡ true

-- The files of every committed row are there.
abbrev pub Backed : World → Type 0
Backed w = All (λ r. All (Present w) (row_paths r)) w.committed

-- No file is gone, and the rows are as they were.
abbrev pub Grown : World → World → Type 0
Grown w after =
    ((path : String) → Present w path → Present after path)
    × (after.rows ≡ w.rows)
    × (after.committed ≡ w.committed)

Grown-trans : (u v w : World) → Grown u v → Grown v w → Grown u w
Grown-trans u v w g h = (λ path p. h.0 path (g.0 path p), h.1 ∙ g.1, h.2 ∙ g.2)

module _ (env : Env) where
  -- A file that was written is there.
  abbrev Written : World → (Outcome String × World) → Type 0
  Written w (returned path, after) = Grown w after × Present after path
  Written w (raised e, after) = Grown w after

  write-Written :
      (path : String) (content : Bytes) (w : World) → Written w (write env path content w)
  unfolding write
  write-Written path content w = elim (Bool-cases (env.writable path)) [
    | inl through ↦ rw through (
      (
        λ other h. elim (Bool-cases (str_eq path other)) [
          | inl same ↦ rw same refl
          | inr apart ↦ rw apart h
        ],
        refl,
        refl,
      ),
      rw (str_eq_refl path) refl,
    )
    | inr refused ↦ rw refused (λ other h. h, refl, refl)
  ]

  abbrev Kept : World → (Option String × World) → Type 0
  Kept w r = Grown w r.1 × All (Present r.1) (optional_path r.0)

  optional-Present :
      (w : World) (path : String) → Present w path → All (Present w) (optional_path (some path))
  optional-Present w path h = elim (Bool-cases (is_empty path)) [
    | inl e ↦ rw e tt
    | inr e ↦ rw e (h, tt)
  ]

  keeps_variant :
      (w : World) (r : Outcome String × World) → Written w r → Kept w (written_or_none env r w)
  keeps_variant w (returned path, after) h = (h.0, optional-Present after path h.1)
  keeps_variant w (raised e, after) h = (h, tt)

  keep_variant-Kept :
      (path : String) (smaller : Option Bytes) (w : World)
      → Kept w (keep_variant env path smaller w)
  keep_variant-Kept path none w = ((λ other h. h, refl, refl), tt)
  keep_variant-Kept path (some smaller) w =
      keeps_variant w (write env path smaller w) (write-Written path smaller w)

  make_variant-Kept :
      (directory : String) (max_edge : ℕ) (stem : String) (content : Bytes) (w : World)
      → Kept w (make_variant env directory max_edge stem content w)
  unfolding make_variant
  make_variant-Kept directory max_edge stem content w = keep_variant-Kept _ _ w

  mono :
      (w after : World)
      → Grown w after
      → (paths : List String) → All (Present w) paths
      → All (Present after) paths
  mono w after g paths h = All-mono (Present w) (Present after) paths (λ p q. g.0 p q) h

  -- What is stored is there.
  abbrev pub Stored : World → (Outcome StoredBlob × World) → Type 0
  Stored w (returned s, after) = Grown w after × All (Present after) (stored_paths s)
  Stored w (raised e, after) = Grown w after

  with_variants-Stored :
      (path stem : String) (content : Bytes) (w : World)
      → Present w path
      → Stored w (with_variants env path stem content w)
  unfolding with_variants stored_paths
  with_variants-Stored path stem content w there =
      let medium = make_variant env "medium" 1024 stem content w in
      let thumbnail = make_variant env "thumbnail" 256 stem content medium.1 in
      let m = make_variant-Kept "medium" 1024 stem content w in
      let t = make_variant-Kept "thumbnail" 256 stem content medium.1 in
      let g = Grown-trans w medium.1 thumbnail.1 m.0 t.0 in
      (
        g,
        All-append (Present thumbnail.1) (optional_path (some path) ++ optional_path medium.0)
            (optional_path thumbnail.0)
            (All-append (Present thumbnail.1) (optional_path (some path)) (optional_path medium.0)
              (optional-Present thumbnail.1 path (g.0 path there))
              (mono medium.1 thumbnail.1 t.0 (optional_path medium.0) m.1))
            t.1,
      )

  Stored-after :
      (w v : World) (r : Outcome StoredBlob × World) → Grown w v → Stored v r → Stored w r
  Stored-after w v (returned s, after) g h = (Grown-trans w v after g h.0, h.1)
  Stored-after w v (raised e, after) g h = Grown-trans w v after g h

  once_written-Stored :
      (kind : BlobKind) (stem : String) (content : Bytes) (w : World) (r : Outcome String × World)
      → Written w r
      → Stored w (once_written env kind stem content r)
  unfolding stored_paths
  once_written-Stored kind stem content w (raised e, after) h = h
  once_written-Stored raw stem content w (returned path, after) h = (
    h.0,
    All-append (Present after) (optional_path (some path) ++ []) []
        (All-append (Present after) (optional_path (some path)) [] (optional-Present after path h.1)
          tt)
        tt,
  )
  once_written-Stored image stem content w (returned path, after) h =
      Stored-after w after (with_variants env path stem content after) h.0
        (with_variants-Stored path stem content after h.1)

  pub store-Stored :
      (kind : BlobKind) (content : Bytes) (name : String) (w : World)
      → Stored w (store env kind content name w)
  unfolding store
  store-Stored kind content name w =
      let named = record w { drawn = w.drawn + 1 } in
      Stored-after w named _ (λ p h. h, refl, refl)
        (once_written-Stored kind (env.stem w.drawn) content named _
          (write-Written (original_path env kind (env.stem w.drawn) name) content named))

  -- The files that are kept when these paths are removed.
  abbrev pub Apart : List String → List String → Type 0
  Apart gone kept = All (λ p. All (λ q. str_eq (strip_root env p) q ≡ false) kept) gone

  still_there :
      (path : String) (kept : List String) (w : World)
      → All (λ q. str_eq (strip_root env path) q ≡ false) kept
      → All (Present w) kept
      → All (Present (record w { files = put (strip_root env path) none w.files })) kept
  still_there path [] w a h = tt
  still_there path (q ∷ kept) w a h = (rw (a.0) (h.0), still_there path kept w a.1 h.1)

  pub delete_files-keeps :
      (gone kept : List String) (w : World)
      → Apart gone kept
      → All (Present w) kept
      → All (Present (delete_files env gone w).1) kept
        × ((delete_files env gone w).1.rows ≡ w.rows)
        × ((delete_files env gone w).1.committed ≡ w.committed)
  unfolding delete_files
  delete_files-keeps [] kept w a h = (h, refl, refl)
  delete_files-keeps (path ∷ gone) kept w a h = elim (Bool-cases (is_empty path)) [
    | inl e ↦ rw e (delete_files-keeps gone kept w a.1 h)
    | inr e ↦ elim (Bool-cases (env.removable (strip_root env path))) [
      | inl f ↦
          rw (e, f)
            (delete_files-keeps gone kept
              (record w { files = put (strip_root env path) none w.files }) a.1
              (still_there path kept w a.0 h))
      | inr f ↦ rw (e, f) (h, refl, refl)
    ]
  ]

  Apart-none : (gone : List String) → Apart gone []
  Apart-none [] = tt
  Apart-none (p ∷ gone) = (tt, Apart-none gone)

  pub delete_files-rows :
      (gone : List String) (w : World)
      → ((delete_files env gone w).1.rows ≡ w.rows)
        × ((delete_files env gone w).1.committed ≡ w.committed)
  delete_files-rows gone w =
      let kept = delete_files-keeps gone [] w (Apart-none gone) tt in (kept.1, kept.2)
