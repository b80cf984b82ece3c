-- ===== src/Filtering/Wants.antt =====
-- What the fields of a query ask of a row, said apart from the parser and the compiler, and that the
-- container of a field asks for the same.
use mathlib.Core.Path.{subst}
use mathlib.Core.Logic.Iff
use api_template.Base.{
  String, false, refl, sym, ap, ◌∙◌, ◌++◌, Option, none, some, List, [], ◌∷◌, ◌≡◌, ◌≢◌, ◌↔◌, All,
}
use api_template.Kernel.Texts.{is_empty}
use api_template.Filtering.Values.{Value, null, scalar, sequence}
use api_template.Filtering.Specs.{
  FilterLookup, eq, gt, lt, gte, lte, is_in, range, search, json, FilterSpec,
}
use api_template.Filtering.Validator.Verdicts.{Accepts}
use api_template.Filtering.Parser.{
  Metadata, bare, injector, unrelated, QueryField, extract_spec, field_name, contain,
}
use api_template.Filtering.Compiler.Classes.{Container, Columns}
use api_template.Filtering.Compiler.{is_absent}
use api_template.Filtering.Compiler.Rows.{Rows, Cell, Asks, Coerced, Constrains}

-- The container of a field, by its spec.
abbrev pub container_of : FilterLookup → String → Value → Container
container_of lookup field value = record { value = value; lookup = lookup; field = field }

pub named_field :
    (declared : Option String) (field name : String)
    → declared ≡ some field
    → is_empty field ≡ false
    → field_name declared name ≡ field
unfolding field_name
named_field declared field name e h = rw (e, h) refl

module _ {Condition Row : Type 0} (sql : Columns Condition) (rows : Rows sql Row) where
  open rows use {cell}

  -- What a filter of a column asks of a row, said apart from the code: nothing where no value or no
  -- member is given, and else what the lookup asks of its cell.
  abbrev pub WantsEmpty : FilterLookup → String → Row → Type 0
  WantsEmpty is_in field row = Unit
  WantsEmpty lookup field row = Cell (Asks lookup (sequence [])) (cell row field)

  abbrev pub Wants : FilterLookup → String → Value → Row → Type 0
  Wants lookup field null row = Unit
  Wants lookup field (scalar a) row = Cell (Asks lookup (scalar a)) (cell row field)
  Wants lookup field (sequence []) row = WantsEmpty lookup field row
  Wants lookup field (sequence (x ∷ xs)) row =
      Cell (Asks lookup (sequence (x ∷ xs))) (cell row field)

  abbrev pub NamedWants : Option String → FilterLookup → Value → Row → Type 0
  NamedWants none lookup v row = ⊥
  NamedWants (some field) lookup v row = Wants lookup field v row

  -- What a field asks of a row by the injector that the metaclass has given it.
  abbrev pub CarriedWants : List Metadata → Value → Row → Type 0
  CarriedWants [] v row = ⊥
  CarriedWants (bare spec ∷ rest) v row = ⊥
  CarriedWants (unrelated ∷ rest) v row = ⊥
  CarriedWants (injector spec ∷ rest) v row = NamedWants spec.field spec.lookup v row

  abbrev pub FieldWants : QueryField → Row → Type 0
  FieldWants f row = CarriedWants f.metadata f.value row

  Constrains-Wants :
      (lookup : FilterLookup) (spec : FilterSpec) (field : String) (v : Value) (row : Row)
      → Coerced lookup v
      → (v ≢ null → Accepts lookup spec v)
      → Constrains sql rows
          (is_absent (container_of lookup field v))
          (container_of lookup field v)
          row
        ↔ Wants lookup field v row
  unfolding is_absent
  Constrains-Wants lookup spec field null row c ok = Iff.rfl
  Constrains-Wants eq spec field (scalar a) row c ok = Iff.rfl
  Constrains-Wants range spec field (scalar a) row c ok = Iff.rfl
  Constrains-Wants is_in spec field (scalar a) row c ok = absurd (ok (λ e. cc))
  Constrains-Wants eq spec field (sequence xs) row c ok = absurd c
  Constrains-Wants range spec field (sequence []) row c ok = Iff.rfl
  Constrains-Wants range spec field (sequence (x ∷ xs)) row c ok = Iff.rfl
  Constrains-Wants is_in spec field (sequence []) row c ok = Iff.rfl
  Constrains-Wants is_in spec field (sequence (x ∷ xs)) row c ok = Iff.rfl
  Constrains-Wants gt spec field (scalar a) row c ok = absurd c
  Constrains-Wants gte spec field (scalar a) row c ok = absurd c
  Constrains-Wants lt spec field (scalar a) row c ok = absurd c
  Constrains-Wants lte spec field (scalar a) row c ok = absurd c
  Constrains-Wants search spec field (scalar a) row c ok = absurd c
  Constrains-Wants json spec field (scalar a) row c ok = absurd c
  Constrains-Wants gt spec field (sequence xs) row c ok = absurd c
  Constrains-Wants gte spec field (sequence xs) row c ok = absurd c
  Constrains-Wants lt spec field (sequence xs) row c ok = absurd c
  Constrains-Wants lte spec field (sequence xs) row c ok = absurd c
  Constrains-Wants search spec field (sequence xs) row c ok = absurd c
  Constrains-Wants json spec field (sequence xs) row c ok = absurd c

  abbrev pub Obeyed : List Container → Row → Type 0
  Obeyed cs row = All (λ c. Constrains sql rows (is_absent c) c row) cs

  one_Obeyed :
      (lookup : FilterLookup) (spec : FilterSpec) (named field : String) (v : Value) (row : Row)
      → named ≡ field
      → Coerced lookup v
      → (v ≢ null → Accepts lookup spec v)
      → Obeyed (container_of lookup named v ∷ []) row ↔ Wants lookup field v row
  one_Obeyed lookup spec named field v row e c ok =
      let one = Constrains-Wants lookup spec field v row c ok in
      rw e (λ h. one.0 (h.0), λ h. (one.1 h, tt))

  contain-Wants :
      (f : QueryField) (spec : FilterSpec) (field : String) (v : Value) (row : Row)
      → (v ≢ null → Accepts spec.lookup spec v)
      → spec.field ≡ some field
      → is_empty field ≡ false
      → Coerced spec.lookup v
      → Obeyed (contain f (some spec) v) row ↔ Wants spec.lookup field v row
  unfolding contain
  contain-Wants f spec field null row ok named filled coerced = Iff.rfl
  contain-Wants f spec field (scalar a) row ok named filled coerced =
      one_Obeyed spec.lookup spec (field_name spec.field f.name) field (scalar a) row
        (named_field spec.field field f.name named filled) coerced ok
  contain-Wants f spec field (sequence xs) row ok named filled coerced =
      one_Obeyed spec.lookup spec (field_name spec.field f.name) field (sequence xs) row
        (named_field spec.field field f.name named filled) coerced ok

  pub field-Wants :
      (f : QueryField) (spec : FilterSpec) (field : String) (row : Row)
      → f.metadata ≡ injector spec ∷ []
      → (f.value ≢ null → Accepts spec.lookup spec f.value)
      → spec.field ≡ some field
      → is_empty field ≡ false
      → Coerced spec.lookup f.value
      → Obeyed (contain f (extract_spec f.metadata) f.value) row ↔ FieldWants f row
  unfolding extract_spec
  field-Wants f spec field row carried ok named filled coerced =
      let wanted = contain-Wants f spec field f.value row ok named filled coerced in
      let carried_to : FieldWants f row ≡ Wants spec.lookup field f.value row =
        ap (λ m. CarriedWants m f.value row) carried
        ∙ ap (λ n. NamedWants n spec.lookup f.value row) named in
      let found : extract_spec f.metadata ≡ some spec = ap extract_spec carried in
      subst (λ (T : Type 0). Obeyed (contain f (extract_spec f.metadata) f.value) row ↔ T)
        (sym carried_to)
        (subst (λ m. Obeyed (contain f m f.value) row ↔ Wants spec.lookup field f.value row)
          (sym found) wanted)

  pub Obeyed-append :
      (xs ys : List Container) (row : Row) → Obeyed (xs ++ ys) row ↔ (Obeyed xs row × Obeyed ys row)
  Obeyed-append [] ys row = (λ h. (tt, h), λ h. h.1)
  Obeyed-append (x ∷ xs) ys row =
      let rest = Obeyed-append xs ys row in
      (λ h. ((h.0, (rest.0 (h.1)).0), (rest.0 (h.1)).1), λ h. (h.0.0, rest.1 (h.0.1, h.1)))
