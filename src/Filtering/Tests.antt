-- ===== src/Filtering/Tests.antt =====
-- The filtering theorems at concrete filters, and runs of the code.
use api_template.Base.{
  String, str_eq, if◌then◌else◌, Bool, true, false, not, ◌&&◌, Option, none, some, List, [], ◌∷◌,
  ◌≡◌, ◌≢◌, refl, ◌↔◌, is_none, All, all, arith,
}
use api_template.Kernel.Errors.{type_error, validation_failed, Outcome, returned, raised}
use api_template.Filtering.Values.{
  pos, int, decimal, numeric_type, Scalar, number, Value, null, scalar, sequence, same, less,
  negated, listed,
}
use api_template.Kernel.Texts.{strip, is_empty}
use api_template.Filtering.Specs.{eq, range, FilterSpec, default_spec}
use api_template.Filtering.Validator.{accepted, rejected, failed, validate, present}
use api_template.Filtering.Validator.Details.{range_order_detail}
use api_template.Filtering.Validator.Verdicts.{Accepts, validate-Accepts}
use api_template.Filtering.Validator.Typed.{validate-typed}
use api_template.Filtering.Validator.Ends.{numbers}
use api_template.Filtering.Meta.{raw_text, Schemas, split_range, pipeline, piped}
use api_template.Filtering.Compiler.Classes.{
  Container, Columns, Handler, CompilerClass, resolve, init_subclass, covers, call_handler,
}
use api_template.Filtering.Compiler.{is_absent, known_scope, compile_one, compile}
use api_template.Filtering.Compiler.Scopes.{FirstNamed, scoped_text, compile_one-scoped}
use api_template.Filtering.Compiler.Rows.{Rows, Cell, Constrains}
use api_template.Filtering.Compiler.Compiled.{compile-selects}
use api_template.Filtering.Wants.{FieldWants}
use api_template.Filtering.Query.{query-selects}
use api_template.Filtering.Parser.{injector, QueryField, parse_filters}

abbrev pub price : FilterSpec
price = record (default_spec (numeric_type int)) {
  lookup = range;
  field = some "price";
  bounds = record {
    gt = none;
    gte = some (number decimal (pos 0));
    lt = none;
    lte = some (number decimal (pos 100));
  };
}

abbrev pub three : Scalar
three = number int (pos 3)

abbrev seven : Scalar
seven = number int (pos 7)

abbrev three_to_seven : Value
three_to_seven = sequence (some three ∷ some seven ∷ [])

validate-Accepts_example :
    (validate price three_to_seven ≡ accepted)
    ↔ ((is_none price.field ≡ false) × Accepts price.lookup price three_to_seven)
validate-Accepts_example = validate-Accepts price three_to_seven

accepted_run : validate price three_to_seven ≡ accepted
unfolding validate less negated
accepted_run = refl

wrong_order_run :
    validate price (sequence (some seven ∷ some three ∷ []))
    ≡ rejected (range_order_detail price seven three ∷ [])
unfolding validate less negated
wrong_order_run = refl

validate-typed_example : validate price three_to_seven ≢ failed type_error
validate-typed_example =
    validate-typed numbers price three_to_seven (tt, (pos 0, refl), tt, (pos 100, refl))
      (refl, refl) ((pos 3, refl), ((pos 7, refl), tt))

-- A table whose rows are functions of the column, and conditions that are tests of a row.
abbrev pub Row : Type 0
Row = String → Option Scalar

abbrev pub Test : Type 0
Test = Row → Bool

abbrev holds : (Scalar → Bool) → Option Scalar → Bool
holds p none = false
holds p (some x) = p x

abbrev told : Outcome Bool → Bool
told (returned b) = b
told (raised e) = true

abbrev not_less : Scalar → Scalar → Bool
not_less a b = not (told (less a b))

abbrev on_scalar : (Scalar → Scalar → Bool) → Option Scalar → Value → Bool
on_scalar p cell null = false
on_scalar p cell (scalar a) = holds (λ x. p x a) cell
on_scalar p cell (sequence xs) = false

abbrev among : Option Scalar → Value → Bool
among cell null = false
among cell (scalar a) = false
among cell (sequence xs) = holds (λ x. listed x (present xs)) cell

abbrev pub tests : Columns Test
tests = record {
  equal = λ column v row. on_scalar same (row column) v;
  between = λ column low high row. holds (λ x. not_less x low && not_less high x) (row column);
  at_least = λ column v row. on_scalar not_less (row column) v;
  at_most = λ column v row. on_scalar (λ x a. not_less a x) (row column) v;
  more = λ column v row. on_scalar (λ x a. told (less a x)) (row column) v;
  fewer = λ column v row. on_scalar (λ x a. told (less x a)) (row column) v;
  one_of = λ column v row. among (row column) v;
  ilike = λ column before v after row. false;
}

pub holds_iff :
    (p : Scalar → Bool) (P : Scalar → Type 0) (cell : Option Scalar)
    → ((x : Scalar) → (p x ≡ true) ↔ P x)
    → (holds p cell ≡ true) ↔ Cell P cell
holds_iff p P none h = (λ e. cc, λ e. elim e [ ])
holds_iff p P (some x) h = h x

pub told-false : (r : Outcome Bool) → (not (told r) ≡ true) ↔ (r ≡ returned false)
told-false (returned true) = (λ h. absurd (cc), λ h. absurd (cc))
told-false (returned false) = (λ h. refl, λ h. refl)
told-false (raised e) = (λ h. absurd (cc), λ h. absurd (cc))

pub both_true :
    (a b : Bool) {P Q : Type 0} → ((a ≡ true) ↔ P) → ((b ≡ true) ↔ Q) → ((a && b) ≡ true) ↔ (P × Q)
both_true a b p q = (λ h. (p.0 (ground arith), q.0 (ground arith)), λ h. rw (p.1 h.0) (q.1 h.1))

abbrev pub meaning : Rows tests Row
meaning = record {
  cell = λ row column. row column;
  selects = λ test row. test row;
  equal_lem = λ column a row. holds_iff _ _ (row column) (λ x. (λ h. h, λ h. h));
  between_lem = λ column low high row.
      holds_iff _ _ (row column)
        (λ x. both_true _ _ (told-false (less x low)) (told-false (less high x)));
  at_least_lem = λ column a row. holds_iff _ _ (row column) (λ x. told-false (less x a));
  at_most_lem = λ column a row. holds_iff _ _ (row column) (λ x. told-false (less a x));
  one_of_lem = λ column xs row. holds_iff _ _ (row column) (λ x. (λ h. h, λ h. h));
}

abbrev price_container : Container
price_container = record { value = three_to_seven; lookup = range; field = "price" }

abbrev goods : CompilerClass Test (Unit {0})
goods = record { scopes = []; scoped_fields = []; handlers = []; columns = "price" ∷ [] }

compile-selects_example :
    (ks : List Test) × (compile tests goods none none (price_container ∷ []) ≡ returned ks)
    × ((row : Row)
        → (all (λ k. k row) ks ≡ true)
          ↔ All (λ c. Constrains tests meaning (is_absent c) c row) (price_container ∷ []))
unfolding resolve validate less negated known_scope
compile-selects_example =
    compile-selects tests meaning goods none none (price_container ∷ []) refl
      (((price, refl, refl), tt, refl, refl), tt)

abbrev three_or_seven : String → Outcome Scalar
three_or_seven s =
    if str_eq s "3"
    then returned three
    else if str_eq s "7"
    then returned seven
    else raised validation_failed

abbrev pub digits : Schemas
digits = record {
  convert = λ spec s. three_or_seven s;
  convert_other = λ spec raw. raised validation_failed;
  loads = λ s. none;
}

abbrev price_field : QueryField
price_field = record {
  name = "price__range";
  metadata = injector price ∷ [];
  value = three_to_seven;
}

price_piped : pipeline digits price (raw_text " 3, 7") ≡ piped three_to_seven
unfolding pipeline split_range strip validate less negated
price_piped = refl

query-selects_example :
    (ks : List Test) × (compile tests goods none none (parse_filters (price_field ∷ []))
      ≡ returned ks)
    × ((row : Row)
        → (all (λ k. k row) ks ≡ true)
          ↔ All (λ f. FieldWants tests meaning f row) (price_field ∷ []))
unfolding resolve is_empty known_scope
query-selects_example =
    query-selects tests meaning digits goods none none (price_field ∷ []) refl
      ((price, raw_text " 3, 7", "price", refl, price_piped, refl, refl, tt, refl, refl), tt)

abbrev sale : Handler Test (Unit {0})
sale = record {
  name = "compile_sales__subject_id__eq";
  accepts_meta = false;
  call = λ c meta. returned (λ row. true);
}

abbrev documents : CompilerClass Test (Unit {0})
documents = record {
  scopes = "sales" ∷ [];
  scoped_fields = "subject_id" ∷ [];
  handlers = sale ∷ [];
  columns = [];
}

abbrev subject : Container
subject = record { value = scalar three; lookup = eq; field = "subject_id" }

compile_one-scoped_example :
    All (λ s. covers documents.handlers s subject.field ≡ true) documents.scopes
    × ((s : String) × (h : Handler Test (Unit {0})) × (some "sales" ≡ some s)
        × FirstNamed (scoped_text s subject.field subject.lookup) h documents.handlers
        × (call_handler h subject none ≡ returned (λ row. true)))
unfolding init_subclass compile_one
compile_one-scoped_example =
    compile_one-scoped tests documents none (some "sales") subject (λ row. true) refl refl refl
