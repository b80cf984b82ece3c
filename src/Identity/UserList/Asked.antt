-- ===== src/Identity/UserList/Asked.antt =====
-- user_orm_repository.py: what a page of users holds, whatever they are ordered by.
use mathlib.Core.Path.{ap₂}
use mathlib.Core.Logic.Iff
use api_template.Base.{
  ℕ, ◌-◌, min, String, Bool, true, ◌&&◌, Option, none, some, List, [], ◌∷◌, ◌≡◌, refl, sym, ap, ◌∙◌,
  ◌↔◌, map, length, All, all, arith,
}
use api_template.Kernel.Errors.{Outcome, returned}
use api_template.Filtering.Parser.{parse_filters}
use api_template.Filtering.Meta.{Schemas}
use api_template.Filtering.Compiler.Classes.{Container, Columns, listed_text}
use api_template.Filtering.Compiler.{is_absent, compile}
use api_template.Filtering.Compiler.Rows.{Rows, Constrains}
use api_template.Filtering.Wants.{FieldWants}
use api_template.Filtering.Query.{Answered, fields-Wants, query-compiles}
use api_template.Identity.UserList.Shown.{shown, map-shown}
use api_template.Orm.Ordering.{OrderingItem}
use api_template.Orm.Queries.{
  Statement, Database, plain_statement, parse_ordering_items, apply_ordering,
}
use api_template.Orm.Queries.Pages.{Reads, satisfies, matching, count-matching, execute-page}
use api_template.Identity.Session.{Env}
use api_template.Identity.UserList.{
  ListedColumns, UserListQuery, list_item, compile_filters, get_list, list_users, user_columns,
  user_filter_compiler,
}

and_both : (a b : Bool) → (a && b) ≡ true → (a ≡ true) × (b ≡ true)
and_both a b h = (ground arith, ground arith)

abbrev pub ordering_items : Option (List OrderingItem) → List OrderingItem
ordering_items none = []
ordering_items (some items) = items

-- Whether an ordering is by columns only.
abbrev pub by_columns : List String → Option (List OrderingItem) → Bool
by_columns columns ordering = all (λ i. listed_text i.field columns) (ordering_items ordering)

parse_ordering_items-columns :
    (columns : List String) (items : List OrderingItem)
    → all (λ i. listed_text i.field columns) items ≡ true
    → parse_ordering_items columns items ≡ returned items
unfolding parse_ordering_items
parse_ordering_items-columns columns [] h = refl
parse_ordering_items-columns columns (item ∷ items) h =
    let parts = and_both (listed_text item.field columns) _ h in
    rw (parts.0, parse_ordering_items-columns columns items (parts.1)) refl

all-All :
    {A : Type 0} (p : A → Bool) (P : A → Type 0)
    → ((x : A) → (p x ≡ true) ↔ P x)
    → (xs : List A) → all p xs ≡ true
    → All P xs
all-All p P h [] k = tt
all-All p P h (x ∷ xs) k =
    let parts = and_both (p x) (all p xs) k in ((h x).0 (parts.0), all-All p P h xs (parts.1))

module _ {Condition Options Row : Type 0} (env : Env) (base_url : String) (sql : Columns Condition)
    (or_ : List Condition → Condition) (db : Database Condition Options Row)
    (read : Row → ListedColumns) where
  -- An ordering by columns leaves the conditions as they are.
  apply_ordering-columns :
      (conditions : List Condition) (ordering : Option (List OrderingItem))
      → by_columns user_columns ordering ≡ true
      → (stmt : Statement Condition Options) × (apply_ordering sql user_columns
            (plain_statement conditions)
            ordering
          ≡ returned stmt)
        × (stmt.conditions ≡ conditions)
  unfolding apply_ordering
  apply_ordering-columns conditions none h = (plain_statement conditions, refl, refl)
  apply_ordering-columns conditions (some []) h = (plain_statement conditions, refl, refl)
  apply_ordering-columns conditions (some (item ∷ items)) h = (
    record (plain_statement conditions) { order_by = item ∷ items },
    rw (parse_ordering_items-columns user_columns (item ∷ items) h) refl,
    refl,
  )

  get_list_lem :
      (limit offset : ℕ) (filters : List Container) (ordering : Option (List OrderingItem))
      (ks : List Condition) (stmt : Statement Condition Options)
      → compile_filters env base_url sql or_ db read filters ≡ returned ks
      → apply_ordering sql user_columns (plain_statement ks) ordering ≡ returned stmt
      → get_list env base_url sql or_ db read limit offset filters ordering
        ≡ returned (record {
          count = db.count (plain_statement ks);
          rows =
              map
                (λ row. list_item env base_url (read row))
                (db.execute (record stmt { limit = some limit; offset = offset }));
        })
  unfolding get_list
  get_list_lem limit offset filters ordering ks stmt h k = rw (h, k) refl

  module _ (rows : Rows sql Row) where
    open rows use {selects}

    -- Filters that are compiled into conditions which select just the rows that they ask for.
    abbrev pub Together : Outcome (List Condition) → List Container → Type 0
    Together r cs =
        (ks : List Condition) × (r ≡ returned ks)
        × ((row : Row)
            → (satisfies selects ks row ≡ true)
              ↔ All (λ c. Constrains sql rows (is_absent c) c row) cs)

    compile_filters-selects :
        (cs : List Container)
        → Together (compile sql (user_filter_compiler sql or_) none none cs) cs
        → Together (compile_filters env base_url sql or_ db read cs) cs
    unfolding compile_filters
    compile_filters-selects [] h = ([], refl, λ row. (λ k. tt, λ k. refl))
    compile_filters-selects (c ∷ cs) h = h

    module _ (reads : Reads db selects) where
      page_of :
          (ks : List Condition) (stmt : Statement Condition Options) (limit offset : ℕ)
          → stmt.conditions ≡ ks
          → let page = db.execute (record stmt { limit = some limit; offset = offset }) in
            (length page ≡ min limit (length (matching db selects reads ks) - offset))
            × (all (satisfies selects ks) page ≡ true)
      page_of ks stmt limit offset kept =
          let paged : Statement Condition Options = record stmt {
            limit = some limit;
            offset = offset;
          } in
          let (size, fits) = execute-page db selects reads paged limit refl in
          (
            size ∙ ap (λ k. min limit (length (matching db selects reads k) - offset)) kept,
            sym (ap (λ k. all (satisfies selects k) (db.execute paged)) kept) ∙ fits,
          )

      -- A list of users whose filters got their values from their pipelines and name columns
      -- without a handler, ordered by columns or by none, is given without an exception: it counts
      -- all users of whom every filter has what it asks for, whatever the page, and shows only such
      -- users, as many as are left behind the offset, up to the limit, each by its own columns.
      pub list_users-asked :
          (schemas : Schemas) (message : UserListQuery)
          → All (Answered schemas (user_filter_compiler sql or_) none) message.fields
          → by_columns user_columns message.ordering ≡ true
          → (ks : List Condition) × (page : List Row) × ((row : Row)
              → (satisfies selects ks row ≡ true)
                ↔ All (λ f. FieldWants sql rows f row) message.fields)
            × (list_users env base_url sql or_ db read message
                ≡ returned (record {
                  count = length (matching db selects reads ks);
                  rows = map (λ row. shown env base_url (read row)) page;
                }))
            × (length page
                ≡ min message.limit (length (matching db selects reads ks) - message.offset))
            × All (λ row. All (λ f. FieldWants sql rows f row) message.fields) page
      unfolding list_users
      list_users-asked schemas message answered ordered =
          let (ks, compiled, together) = compile_filters-selects (parse_filters message.fields) (
            query-compiles sql rows schemas (user_filter_compiler sql or_) none none message.fields
              refl answered) in
          let asked : (row : Row)
              → (satisfies selects ks row ≡ true)
                ↔ All (λ f. FieldWants sql rows f row) message.fields =
            λ row. Iff.trans (together row) (
              fields-Wants sql rows schemas (user_filter_compiler sql or_) none message.fields row
                answered) in
          let (stmt, sent, kept) = apply_ordering-columns ks message.ordering ordered in
          let (size, fits) = page_of ks stmt message.limit message.offset kept in
          let page =
            db.execute (record stmt { limit = some message.limit; offset = message.offset }) in
          (
            ks,
            page,
            asked,
            get_list_lem message.limit message.offset (parse_filters message.fields)
                  message.ordering ks stmt compiled sent
                ∙ ap₂ (λ n items. returned (record { count = n; rows = items }))
                    (count-matching db selects reads ks) (map-shown env base_url read page),
            size,
            all-All (satisfies selects ks) _ asked _ fits,
          )
