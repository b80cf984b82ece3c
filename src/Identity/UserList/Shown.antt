-- ===== src/Identity/UserList/Shown.antt =====
-- user_orm_repository.py: how a listed user is shown, said apart from the code.
use Prim.Native.Char.{code}
use Prim.Native.String.append.{cons as cons-append}
use api_template.Base.{
  String, text_append, Option, none, some, List, [], ◌∷◌, map, ◌==◌, ◌≡◌, refl, if◌then◌else◌,
}
use api_template.Kernel.Texts.{is_empty}
use api_template.Identity.Session.{Env}
use api_template.Identity.UserRepository.{full_name_of, text_or_empty}
use api_template.Identity.UserList.{
  ListedColumns, UserListItem, lstrip_slash, make_full_url, make_media_full_url, avatar_url,
  list_item,
}

abbrev or_empty : Option String → String
or_empty none = ""
or_empty (some s) = s

-- A path without the slashes at its start.
abbrev unslashed : String → String
unslashed String.[] = String.[]
unslashed (String.◌∷◌ c s) =
    let rest = unslashed s in if code c == b'/' then rest else String.◌∷◌ c s

-- The address of a picture, of which there is none without a path.
abbrev picture : String → Option String → Option String
picture base_url none = none
picture base_url (some String.[]) = none
picture base_url (some (String.◌∷◌ c s)) =
    some
      (text_append base_url (text_append "/" (text_append "media/" (unslashed (String.◌∷◌ c s)))))

-- The columns of a user as the client is shown them.
abbrev pub shown : Env → String → ListedColumns → UserListItem
shown env base_url row = record {
  id = row.id;
  email = row.email;
  full_name =
      env.strip (text_append (or_empty row.first_name) (text_append " " (or_empty row.last_name)));
  status = row.status;
  created_at = row.created_at;
  first_name = row.first_name;
  last_name = row.last_name;
  phone = row.phone;
  avatar_url = picture base_url row.avatar_path;
}

lstrip_slash-unslashed : (s : String) → lstrip_slash s ≡ unslashed s
unfolding lstrip_slash
lstrip_slash-unslashed String.[] = refl
lstrip_slash-unslashed (String.◌∷◌ c s) = rw (lstrip_slash-unslashed s) refl

lstrip_slash-media : (s : String) → lstrip_slash (text_append "media/" s) ≡ text_append "media/" s
unfolding lstrip_slash
lstrip_slash-media s = rw (cons-append) refl

avatar_url-picture :
    (base_url : String) (path : Option String) → avatar_url base_url path ≡ picture base_url path
unfolding avatar_url make_media_full_url make_full_url is_empty
avatar_url-picture base_url none = refl
avatar_url-picture base_url (some String.[]) = refl
avatar_url-picture base_url (some (String.◌∷◌ c s)) =
    rw (lstrip_slash-media (lstrip_slash (String.◌∷◌ c s)), lstrip_slash-unslashed (String.◌∷◌ c s))
      refl

text_or_empty-empty : (o : Option String) → text_or_empty o ≡ or_empty o
unfolding text_or_empty
text_or_empty-empty none = refl
text_or_empty-empty (some s) = refl

module _ (env : Env) (base_url : String) where
  list_item-shown : (row : ListedColumns) → list_item env base_url row ≡ shown env base_url row
  unfolding list_item full_name_of
  list_item-shown row =
      rw
        (
          text_or_empty-empty row.first_name,
          text_or_empty-empty row.last_name,
          avatar_url-picture base_url row.avatar_path,
        )
        refl

  pub map-shown :
      {Row : Type 0} (read : Row → ListedColumns) (rows : List Row)
      → map (λ row. list_item env base_url (read row)) rows
        ≡ map (λ row. shown env base_url (read row)) rows
  map-shown read [] = refl
  map-shown read (row ∷ rows) = rw (list_item-shown (read row), map-shown read rows) refl
