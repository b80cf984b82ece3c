-- ===== src/Orm/Tests.antt =====
-- The theorems on orderings, batches and counts at concrete inputs, and runs of the code.
use api_template.Base.{
  ℕ, ◌-◌, min, String, str_eq, true, Option, none, some, List, [], ◌∷◌, ◌≡◌, refl, ap, ◌∙◌, ◌↔◌,
  All, any, map, length, zero, take, drop, arith, suc,
}
use api_template.Kernel.Errors.{returned}
use api_template.Filtering.Compiler.Classes.{Columns}
use api_template.Orm.Ordering.{asc, desc, OrderingItem, from_str, validate_ordering}
use api_template.Orm.Ordering.Written.{ordering_text, from_str-ordering_text}
use api_template.Orm.Batches.{batch_create_from_dict, batch_save}
use api_template.Orm.Batches.Complete.{Handed, batches-hand_over}
use api_template.Orm.Queries.{Statement, Database, filter_statement, filter_rows, plain_statement}
use api_template.Orm.Queries.Counts.{total, Paging, counted, filter_rows-counted}

abbrev newest_first : OrderingItem
newest_first = record { direction = desc; field = "created_at" }

abbrev by_name : OrderingItem
by_name = record { direction = asc; field = "name" }

abbrev allowed : List String
allowed = "created_at" ∷ "name" ∷ []

from_str-ordering_text_example :
    (from_str (ordering_text newest_first (by_name ∷ [])) ≡ some (newest_first ∷ by_name ∷ []))
    × ((validate_ordering allowed (from_str (ordering_text newest_first (by_name ∷ [])))
          ≡ returned tt)
        ↔ All (λ x. any (str_eq x.field) allowed ≡ true) (newest_first ∷ by_name ∷ []))
from_str-ordering_text_example =
    from_str-ordering_text allowed newest_first (by_name ∷ [])
      (refl, (refl, (refl, (refl, (refl, (refl, (refl, (refl, (refl, (refl, (refl, tt)))))))))))
      ((refl, (refl, (refl, (refl, (refl, tt))))), tt)

from_str_run : from_str "-created_at,name" ≡ some (newest_first ∷ by_name ∷ [])
unfolding from_str
from_str_run = refl

abbrev five : ℕ
five = 5

batches-hand_over_example :
    Handed 2 (map suc (1 ∷ 2 ∷ 3 ∷ [])) (batch_create_from_dict suc 4 2 (1 ∷ 2 ∷ 3 ∷ []) 0)
    × Handed 2 (five ∷ []) (batch_save 4 2 (five ∷ []) 0)
batches-hand_over_example =
    batches-hand_over suc 2 4 (1 ∷ 2 ∷ 3 ∷ []) (five ∷ []) (omega arith) (omega arith) (omega arith)

batch_run : batch_create_from_dict suc 4 2 (1 ∷ 2 ∷ 3 ∷ []) 0 ≡ some ((2 ∷ 3 ∷ []) ∷ (4 ∷ []) ∷ [])
unfolding batch_create_from_dict
batch_run = refl

-- A table of three rows, all of which match.
abbrev no_columns : Columns (Unit {0})
no_columns = record {
  equal = λ c v. tt;
  between = λ c l h. tt;
  at_least = λ c v. tt;
  at_most = λ c v. tt;
  more = λ c v. tt;
  fewer = λ c v. tt;
  one_of = λ c v. tt;
  ilike = λ c b v a. tt;
}

abbrev rows_of : Option ℕ → ℕ → List ℕ
rows_of none offset = drop offset (7 ∷ 8 ∷ 9 ∷ [])
rows_of (some limit) offset = take limit (drop offset (7 ∷ 8 ∷ 9 ∷ []))

abbrev three_rows : Database (Unit {0}) (Unit {0}) ℕ
three_rows = record {
  execute = λ stmt. rows_of stmt.limit stmt.offset;
  count = λ stmt. length (rows_of stmt.limit stmt.offset);
  exists = λ stmt. true;
}

length-take-min : (n : ℕ) (xs : List ℕ) → length (take n xs) ≡ min n (length xs)
length-take-min zero xs = omega arith
length-take-min (suc n) [] = omega arith
length-take-min (suc n) (x ∷ xs) = omega (arith, length-take-min n xs)

length-drop : (n : ℕ) (xs : List ℕ) → length (drop n xs) ≡ length xs - n
length-drop zero xs = omega arith
length-drop (suc n) [] = omega arith
length-drop (suc n) (x ∷ xs) = omega (arith, length-drop n xs)

rows_limited :
    (found : Option ℕ) (limit offset : ℕ)
    → found ≡ some limit
    → length (rows_of found offset) ≡ min limit (3 - offset)
rows_limited found limit offset e =
    ap (λ l. length (rows_of l offset)) e
    ∙ length-take-min limit (drop offset (7 ∷ 8 ∷ 9 ∷ []))
    ∙ ap (min limit) (length-drop offset (7 ∷ 8 ∷ 9 ∷ []))

abbrev three_rows_paging : Paging three_rows
three_rows_paging = record {
  limit_lem = λ stmt limit e. rows_limited stmt.limit limit stmt.offset e;
  count_lem = λ stmt. refl;
}

abbrev first_two : Statement (Unit {0}) (Unit {0})
first_two = record (plain_statement []) { limit = some 2 }

-- A full page of two rows of the three is counted as two.
filter_rows-counted_example :
    filter_rows no_columns [] three_rows (some 2) 0 [] [] true
    ≡ returned (three_rows.execute first_two, some (counted 2 0 (total three_rows first_two)))
unfolding filter_statement
filter_rows-counted_example =
    filter_rows-counted no_columns [] three_rows three_rows_paging 2 0 [] [] first_two (omega arith)
      refl
