-- ===== src/Filtering/Query.antt =====
-- From the text of a query to the rows: the pipeline of each field, the parser, and the compiler.
use mathlib.Core.Logic.Iff
use api_template.Base.{
  String, Bool, true, false, Option, none, some, List, [], ◌∷◌, ◌≡◌, ◌≢◌, refl, ◌↔◌, All,
  All-append, all, if◌then◌else◌,
}
use api_template.Kernel.Errors.{Outcome, returned, raised}
use api_template.Kernel.Texts.{is_empty}
use api_template.Filtering.Values.{Value, null, scalar, sequence}
use api_template.Filtering.Specs.{FilterSpec}
use api_template.Filtering.Validator.Verdicts.{validate-Accepts}
use api_template.Filtering.Validator.{Verdict, accepted, rejected, failed, validate}
use api_template.Filtering.Wants.{container_of, named_field, FieldWants, Obeyed-append, field-Wants}
use api_template.Filtering.Parser.{
  injector, QueryField, extract_spec, field_name, contain, parse_filters,
}
use api_template.Filtering.Meta.{
  Raw, nothing, raw_text, parts, other, Schemas, Piped, piped, chained, judged, value_schema,
  pipeline,
}
use api_template.Filtering.Compiler.Classes.{Columns, CompilerClass, listed_text, resolve}
use api_template.Filtering.Compiler.{is_absent, known_scope, compile}
use api_template.Filtering.Compiler.Rows.{Rows, Coerced, Constrains}
use api_template.Filtering.Compiler.Compiled.{Plain, compile-selects}

-- A field that the metaclass has given an injector, whose pipeline has ended with its value; with a
-- column of the name in its spec, and no handler.
abbrev pub Answered :
    {Condition Meta : Type 0}
    → Schemas
    → CompilerClass Condition Meta
    → Option String
    → QueryField
    → Type 0
Answered schemas cls scope f =
    (spec : FilterSpec) × (raw : Raw) × (field : String) × (f.metadata ≡ injector spec ∷ [])
    × (pipeline schemas spec raw ≡ piped f.value)
    × (spec.field ≡ some field)
    × (is_empty field ≡ false)
    × Coerced spec.lookup f.value
    × (listed_text field cls.columns ≡ true)
    × (resolve cls (container_of spec.lookup field f.value) scope ≡ returned none)

judged_piped :
    (schemas : Schemas) (spec : FilterSpec) (u v : Value) (verdict : Verdict)
    → verdict ≡ validate spec u
    → judged schemas u verdict ≡ piped v
    → validate spec v ≡ accepted
judged_piped schemas spec u v accepted e h =
    let same : u ≡ v = cc in rw (← same) (let g : validate spec u ≡ accepted = cc in g)
judged_piped schemas spec u v (rejected ds) e h = absurd (cc)
judged_piped schemas spec u v (failed x) e h = absurd (cc)

chained_piped :
    (schemas : Schemas) (spec : FilterSpec) (r : Outcome Value) (v : Value)
    → chained schemas spec r ≡ piped v
    → validate spec v ≡ accepted
chained_piped schemas spec (returned u) v h = judged_piped schemas spec u v (validate spec u) refl h
chained_piped schemas spec (raised e) v h = absurd (cc)

-- The value of a nullable schema that is not None comes from the schema within.
not_skipped :
    (required : Bool) (r : Piped) (v : Value)
    → (if required then r else piped null) ≡ piped v
    → v ≢ null
    → r ≡ piped v
not_skipped true r v h given = h
not_skipped false r v h given = absurd (given (cc))

-- A value that comes out of a pipeline is accepted, unless it is None.
pipeline-accepted :
    (schemas : Schemas) (spec : FilterSpec) (raw : Raw) (v : Value)
    → pipeline schemas spec raw ≡ piped v
    → v ≢ null
    → validate spec v ≡ accepted
unfolding pipeline
pipeline-accepted schemas spec nothing v h given =
    chained_piped schemas spec (value_schema schemas spec.lookup spec nothing) v
      (not_skipped spec.required _ v h given)
pipeline-accepted schemas spec (raw_text s) v h given =
    chained_piped schemas spec (value_schema schemas spec.lookup spec (raw_text s)) v h
pipeline-accepted schemas spec (parts ps) v h given =
    chained_piped schemas spec (value_schema schemas spec.lookup spec (parts ps)) v h
pipeline-accepted schemas spec (other n) v h given =
    chained_piped schemas spec (value_schema schemas spec.lookup spec (other n)) v h

module _ {Condition Meta Row : Type 0} (sql : Columns Condition) (rows : Rows sql Row) where
  open rows use {selects}

  container_of-Plain :
      (cls : CompilerClass Condition Meta) (scope : Option String) (spec : FilterSpec)
      (field name : String) (v : Value)
      → validate spec v ≡ accepted
      → spec.field ≡ some field
      → is_empty field ≡ false
      → Coerced spec.lookup v
      → listed_text field cls.columns ≡ true
      → resolve cls (container_of spec.lookup field v) scope ≡ returned none
      → Plain sql rows cls scope (container_of spec.lookup (field_name spec.field name) v)
  container_of-Plain cls scope spec field name v ok named filled coerced column unhandled =
      rw (named_field spec.field field name named filled)
        ((spec, refl, ok), coerced, column, unhandled)

  -- What one field becomes: nothing where its value is None, and else one container.
  contained :
      (cls : CompilerClass Condition Meta) (scope : Option String) (f : QueryField)
      (spec : FilterSpec) (field : String) (v : Value)
      → (v ≢ null → validate spec v ≡ accepted)
      → spec.field ≡ some field
      → is_empty field ≡ false
      → Coerced spec.lookup v
      → listed_text field cls.columns ≡ true
      → resolve cls (container_of spec.lookup field v) scope ≡ returned none
      → All (Plain sql rows cls scope) (contain f (some spec) v)
  unfolding contain
  contained cls scope f spec field null ok named filled coerced column unhandled = tt
  contained cls scope f spec field (scalar a) ok named filled coerced column unhandled = (
    container_of-Plain cls scope spec field f.name (scalar a) (ok (λ e. cc)) named filled coerced
        column unhandled,
    tt,
  )
  contained cls scope f spec field (sequence xs) ok named filled coerced column unhandled = (
    container_of-Plain cls scope spec field f.name (sequence xs) (ok (λ e. cc)) named filled coerced
        column unhandled,
    tt,
  )

  parsed :
      (schemas : Schemas) (cls : CompilerClass Condition Meta) (scope : Option String)
      (fields : List QueryField)
      → All (Answered schemas cls scope) fields
      → All (Plain sql rows cls scope) (parse_filters fields)
  unfolding parse_filters extract_spec
  parsed schemas cls scope [] h = tt
  parsed schemas cls scope (f ∷ fs)
        ((spec, raw, field, carried, ended, named, filled, coerced, column, unhandled), rest) =
      All-append (Plain sql rows cls scope) (contain f (extract_spec f.metadata) f.value)
        (parse_filters fs)
        (rw carried (
          contained cls scope f spec field f.value
            (pipeline-accepted schemas spec raw f.value ended) named filled coerced column
            unhandled))
        (parsed schemas cls scope fs rest)

  -- The containers of the fields ask together for what the fields ask for.
  pub fields-Wants :
      (schemas : Schemas) (cls : CompilerClass Condition Meta) (scope : Option String)
      (fields : List QueryField) (row : Row)
      → All (Answered schemas cls scope) fields
      → All (λ c. Constrains sql rows (is_absent c) c row) (parse_filters fields)
        ↔ All (λ f. FieldWants sql rows f row) fields
  unfolding parse_filters
  fields-Wants schemas cls scope [] row h = Iff.rfl
  fields-Wants schemas cls scope (f ∷ fs) row
        ((spec, raw, field, carried, ended, named, filled, coerced, column, unhandled), rest) =
      Iff.trans
        (Obeyed-append sql rows (contain f (extract_spec f.metadata) f.value) (parse_filters fs)
          row)
        (Iff.and
          (field-Wants sql rows f spec field row carried
            (λ given.
              ((validate-Accepts spec f.value).0
                (pipeline-accepted schemas spec raw f.value ended given)).1)
            named filled coerced)
          (fields-Wants schemas cls scope fs row rest))

  pub query-compiles :
      (schemas : Schemas) (cls : CompilerClass Condition Meta) (meta : Option Meta)
      (scope : Option String) (fields : List QueryField)
      → known_scope cls.scopes scope ≡ true
      → All (Answered schemas cls scope) fields
      → (ks : List Condition) × (compile sql cls meta scope (parse_filters fields) ≡ returned ks)
        × ((row : Row)
            → (all (λ k. selects k row) ks ≡ true)
              ↔ All (λ c. Constrains sql rows (is_absent c) c row) (parse_filters fields))
  query-compiles schemas cls meta scope fields known answered =
      compile-selects sql rows cls meta scope (parse_filters fields) known
        (parsed schemas cls scope fields answered)

  -- A query, each of whose fields got its value from its pipeline and names a column without a
  -- handler, is compiled without an exception, for a scope that the compiler knows; and the
  -- conditions select together just the rows of which every field has what it asks for: by its
  -- lookup a cell that is its value, between its ends, or one of its members, and nothing where it
  -- has no value or no member.
  pub query-selects :
      (schemas : Schemas) (cls : CompilerClass Condition Meta) (meta : Option Meta)
      (scope : Option String) (fields : List QueryField)
      → known_scope cls.scopes scope ≡ true
      → All (Answered schemas cls scope) fields
      → (ks : List Condition) × (compile sql cls meta scope (parse_filters fields) ≡ returned ks)
        × ((row : Row)
            → (all (λ k. selects k row) ks ≡ true) ↔ All (λ f. FieldWants sql rows f row) fields)
  query-selects schemas cls meta scope fields known answered =
      let (ks, compiled, asked) = query-compiles schemas cls meta scope fields known answered in
      (
        ks,
        compiled,
        λ row. Iff.trans (asked row) (fields-Wants schemas cls scope fields row answered),
      )
