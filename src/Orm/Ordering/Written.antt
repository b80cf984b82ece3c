-- ===== src/Orm/Ordering/Written.antt =====
-- An ordering that is written out as text is read back, and only allowed fields are ordered by.
use Prim.Native.Char.{code}
use mathlib.Core.Logic.Iff
use text.Mathlib.TextLemmas.{nil-append, cons-append}
use api_template.Base.{
  String, text_append, str_eq, ◌≡◌, refl, ◌↔◌, true, false, some, List, [], ◌∷◌, map, any, All,
  Bool-cases, inl, inr, ◌==◌,
}
use api_template.Kernel.Errors.{returned}
use api_template.Kernel.Texts.{
  is_empty, split_comma, lstrip_dash, CommaFree, split_comma-alone, split_comma-join,
}
use api_template.Orm.Ordering.{
  Direction, asc, desc, OrderingItem, direction_of, ordering_item, from_str, unexpected_fields,
  refuse_any, validate_ordering,
}

abbrev pub signed : Direction → String → String
signed asc field = field
signed desc field = text_append "-" field

abbrev pub item_text : OrderingItem → String
item_text item = signed item.direction item.field

-- The items with commas between them; one at least.
abbrev pub ordering_text : OrderingItem → List OrderingItem → String
ordering_text item [] = item_text item
ordering_text item (other ∷ items) =
    text_append (item_text item) (text_append "," (ordering_text other items))

-- The name of a field: not empty, no comma in it, and no dash at its start.
abbrev pub FieldName : String → Type 0
FieldName String.[] = ⊥
FieldName (String.◌∷◌ c s) = ((code c == b'-') ≡ false) × CommaFree (String.◌∷◌ c s)

signed-item :
    (direction : Direction) (field : String)
    → FieldName field
    → (direction_of (signed direction field) ≡ direction)
      × (lstrip_dash (signed direction field) ≡ field)
      × CommaFree (signed direction field)
      × (is_empty (signed direction field) ≡ false)
unfolding direction_of lstrip_dash is_empty
signed-item direction String.[] h = elim h [ ]
signed-item asc (String.◌∷◌ c s) h = (rw (h.0) refl, rw (h.0) refl, h.1, refl)
signed-item desc (String.◌∷◌ c s) h =
    rw (cons-append, nil-append) (refl, rw (h.0) refl, (refl, h.1), refl)

ordering_item-text :
    (item : OrderingItem) → FieldName item.field → ordering_item (item_text item) ≡ item
unfolding ordering_item
ordering_item-text item h =
    let parts = signed-item item.direction item.field h in
    λ i. record { direction = parts.0 i; field = parts.1 i }

items_read :
    (item : OrderingItem) (items : List OrderingItem)
    → FieldName item.field
    → All (λ x. FieldName x.field) items
    → map ordering_item (split_comma (ordering_text item items)) ≡ item ∷ items
items_read item [] h k =
    rw
      (
        split_comma-alone (item_text item) (signed-item item.direction item.field h).2,
        ordering_item-text item h,
      )
      refl
items_read item (other ∷ items) h k =
    rw
      (
        split_comma-join (item_text item) (ordering_text other items)
            (signed-item item.direction item.field h).2,
        ordering_item-text item h,
        items_read other items k.0 k.1,
      )
      refl

is_empty-append : (s t : String) → is_empty s ≡ false → is_empty (text_append s t) ≡ false
unfolding is_empty
is_empty-append String.[] t h = absurd (cc)
is_empty-append (String.◌∷◌ c s) t h = rw cons-append refl

text_nonempty :
    (item : OrderingItem) (items : List OrderingItem)
    → FieldName item.field
    → is_empty (ordering_text item items) ≡ false
text_nonempty item [] h = (signed-item item.direction item.field h).3
text_nonempty item (other ∷ items) h =
    is_empty-append (item_text item) _ (signed-item item.direction item.field h).3

allowed_there :
    (allowed : List String) (items : List OrderingItem)
    → unexpected_fields allowed items ≡ []
    → All (λ x. any (str_eq x.field) allowed ≡ true) items
unfolding unexpected_fields
allowed_there allowed [] h = tt
allowed_there allowed (item ∷ items) h = elim (Bool-cases (any (str_eq item.field) allowed)) [
  | inl found ↦ (found, allowed_there allowed items (rw found at h))
  | inr missed ↦
      absurd (let g : item.field ∷ unexpected_fields allowed items ≡ [] = rw missed at h in cc)
]

allowed_back :
    (allowed : List String) (items : List OrderingItem)
    → All (λ x. any (str_eq x.field) allowed ≡ true) items
    → unexpected_fields allowed items ≡ []
unfolding unexpected_fields
allowed_back allowed [] h = refl
allowed_back allowed (item ∷ items) h = rw h.0 (allowed_back allowed items h.1)

refuse_any-none : (xs : List String) → (refuse_any xs ≡ returned tt) ↔ (xs ≡ [])
refuse_any-none [] = (λ h. refl, λ h. refl)
refuse_any-none (x ∷ xs) = (λ h. absurd (cc), λ h. absurd (cc))

-- An ordering by fields of which each has a name, with no comma in it and no dash at its start, is
-- read back from its text, each field with its direction and in its place; and the query accepts
-- it just where each of these fields is allowed.
pub from_str-ordering_text :
    (allowed : List String) (item : OrderingItem) (items : List OrderingItem)
    → FieldName item.field
    → All (λ x. FieldName x.field) items
    → (from_str (ordering_text item items) ≡ some (item ∷ items))
      × ((validate_ordering allowed (from_str (ordering_text item items)) ≡ returned tt)
          ↔ All (λ x. any (str_eq x.field) allowed ≡ true) (item ∷ items))
unfolding from_str validate_ordering
from_str-ordering_text allowed item items h k =
    rw (text_nonempty item items h, items_read item items h k)
      (
        refl,
        Iff.trans (refuse_any-none (unexpected_fields allowed (item ∷ items)))
            (allowed_there allowed (item ∷ items), allowed_back allowed (item ∷ items)),
      )
