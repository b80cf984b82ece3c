-- ===== src/Identity/ListTests.antt =====
-- The theorem on the list of users at a concrete query and database.
use mathlib.Core.List.Permᴰ
use api_template.Base.{
  ◌-◌, min, Bool, true, none, some, List, [], ◌∷◌, ◌≡◌, refl, ◌↔◌, map, length, filter, All, str_eq,
  if◌then◌else◌,
}
use api_template.Kernel.Errors.{returned}
use api_template.Kernel.Texts.{is_empty}
use api_template.Filtering.Values.{pos, int, numeric_type, Scalar, number, scalar}
use api_template.Filtering.Specs.{FilterSpec, default_spec}
use api_template.Filtering.Parser.{injector, QueryField}
use api_template.Filtering.Meta.{raw_text, pipeline, piped}
use api_template.Filtering.Validator.{validate}
use api_template.Filtering.Compiler.Classes.{resolve}
use api_template.Filtering.Tests.{Row, Test, tests, meaning, digits, three}
use api_template.Orm.Ordering.{desc}
use api_template.Orm.Queries.{Database}
use api_template.Orm.Queries.Pages.{Reads, satisfies, matching, slice}
use api_template.Identity.Tests.{env}
use api_template.Identity.UserList.{ListedColumns, UserListQuery, list_users, user_filter_compiler}
use api_template.Filtering.Wants.{FieldWants}
use api_template.Identity.UserList.Shown.{shown}
use api_template.Identity.UserList.Asked.{list_users-asked}

abbrev seven : Scalar
seven = number int (pos 7)

abbrev with_status : Scalar → Row
with_status a column = if str_eq column "status" then some a else none

-- Users of status 3, 7 and 3.
abbrev people : List Row
people = with_status three ∷ with_status seven ∷ with_status three ∷ []

abbrev told : Test → Row → Bool
told test row = test row

abbrev db : Database Test (Unit {0}) Row
db = record {
  execute = λ stmt. slice stmt.limit stmt.offset (filter (satisfies told stmt.conditions) people);
  count = λ stmt.
      length (slice stmt.limit stmt.offset (filter (satisfies told stmt.conditions) people));
  exists = λ stmt. true;
}

abbrev reads : Reads db told
reads = record {
  joined = people;
  execute_lem = λ stmt. (filter (satisfies told stmt.conditions) people, Permᴰ.refl _, refl);
  count_lem = λ stmt. refl;
}

abbrev read : Row → ListedColumns
read row = record {
  id = 1;
  email = "ada@example.org";
  first_name = some "Ada";
  last_name = none;
  phone = none;
  status = 3;
  created_at = 0;
  avatar_path = some "images/x.webp";
}

abbrev any_test : List Test → Test
any_test ks row = true

abbrev status : FilterSpec
status = record (default_spec (numeric_type int)) { field = some "status" }

abbrev status_field : QueryField
status_field = record { name = "status"; metadata = injector status ∷ []; value = scalar three }

status_piped : pipeline digits status (raw_text "3") ≡ piped (scalar three)
unfolding pipeline validate
status_piped = refl

-- The second page, of one user, the newest first.
abbrev message : UserListQuery
message = record {
  limit = 1;
  offset = 1;
  fields = status_field ∷ [];
  ordering = some (record { direction = desc; field = "created_at" } ∷ []);
}

list_users-asked_example :
    (ks : List Test) × (page : List Row) × ((row : Row)
      → (satisfies told ks row ≡ true) ↔ All (λ f. FieldWants tests meaning f row) message.fields)
    × (list_users env "https://example.org" tests any_test db read message
        ≡ returned (record {
          count = length (matching db told reads ks);
          rows = map (λ row. shown env "https://example.org" (read row)) page;
        }))
    × (length page ≡ min 1 (length (matching db told reads ks) - 1))
    × All (λ row. All (λ f. FieldWants tests meaning f row) message.fields) page
unfolding resolve user_filter_compiler is_empty
list_users-asked_example =
    list_users-asked env "https://example.org" tests any_test db read meaning reads digits message
      ((status, raw_text "3", "status", refl, status_piped, refl, refl, tt, refl, refl), tt) refl
