-- ===== src/Filtering/Values.antt =====
-- The values that filters carry (modules/filtering): what pydantic has coerced the query parameters
-- to, with Python's `<`, `==`, `isinstance` and `len` on them. Numbers are whole, as those of the
-- repository's filters are; a date is the count of its days, and a moment that of its microseconds;
-- an enumeration is an IntEnum, whose members compare as their numbers.
use Prim.Native.String.{compare}
use Prim.Native.Nat.{Ordering}
use api_template.Base.{
  ℕ, String, char_count, str_eq, Bool, true, false, not, Option, List, any, ltb, ◌==◌,
}
use api_template.Kernel.Errors.{type_error, Outcome, returned, raised}

-- `negsuc n` is -(n + 1).
pub data ℤ : Type 0 where
  pos : ℕ → ℤ
  negsuc : ℕ → ℤ

pub data Numeric : Type 0 where
  int float decimal : Numeric

pub data Scalar : Type 0 where
  number : Numeric → ℤ → Scalar
  boolean : Bool → Scalar
  member : (enum : String) → ℤ → Scalar
  text : String → Scalar
  date : ℕ → Scalar
  moment : ℕ → Scalar
  -- an object of the item model of a JSON filter
  item : ℕ → Scalar

-- A value as a whole: None, a scalar, or a tuple or list, whose places may hold None.
pub data Value : Type 0 where
  null : Value
  scalar : Scalar → Value
  sequence : List (Option Scalar) → Value

-- What a scalar is compared by: Booleans and members of an IntEnum are numbers.
pub data Rank : Type 0 where
  by_number : ℤ → Rank
  by_text : String → Rank
  by_date : ℕ → Rank
  by_moment : ℕ → Rank
  by_identity : ℕ → Rank

abbrev pub truth : Bool → ℤ
truth true = pos 1
truth false = pos 0

abbrev pub rank : Scalar → Rank
rank (number k n) = by_number n
rank (boolean b) = by_number (truth b)
rank (member enum n) = by_number n
rank (text s) = by_text s
rank (date d) = by_date d
rank (moment t) = by_moment t
rank (item i) = by_identity i

abbrev less_ℤ : ℤ → ℤ → Bool
less_ℤ (pos m) (pos n) = ltb m n
less_ℤ (pos m) (negsuc n) = false
less_ℤ (negsuc m) (pos n) = true
less_ℤ (negsuc m) (negsuc n) = ltb n m

abbrev same_ℤ : ℤ → ℤ → Bool
same_ℤ (pos m) (pos n) = m == n
same_ℤ (pos m) (negsuc n) = false
same_ℤ (negsuc m) (pos n) = false
same_ℤ (negsuc m) (negsuc n) = m == n

abbrev less_text : String → String → Bool
less_text s t = elim (compare s t) [ Ordering.lt ↦ true | _ ↦ false ]

abbrev less_rank : Rank → Rank → Outcome Bool
less_rank (by_number m) (by_number n) = returned (less_ℤ m n)
less_rank (by_text s) (by_text t) = returned (less_text s t)
less_rank (by_date d) (by_date e) = returned (ltb d e)
less_rank (by_moment t) (by_moment u) = returned (ltb t u)
less_rank p q = raised type_error

abbrev same_rank : Rank → Rank → Bool
same_rank (by_number m) (by_number n) = same_ℤ m n
same_rank (by_text s) (by_text t) = str_eq s t
same_rank (by_date d) (by_date e) = d == e
same_rank (by_moment t) (by_moment u) = t == u
same_rank (by_identity i) (by_identity j) = i == j
same_rank p q = false

-- `a < b`, which raises on values that have no order between them, and `a == b`.
unfoldable pub less : Scalar → Scalar → Outcome Bool
less a b = less_rank (rank a) (rank b)

unfoldable pub same : Scalar → Scalar → Bool
same a b = same_rank (rank a) (rank b)

unfoldable pub negated : Outcome Bool → Outcome Bool
negated (returned b) = returned (not b)
negated (raised e) = raised e

-- `a in xs`
unfoldable pub listed : Scalar → List Scalar → Bool
listed a xs = any (same a) xs

-- `len(s)` of a scalar
unfoldable pub size : Scalar → Outcome ℕ
size (text s) = returned (char_count s)
size (number k n) = raised type_error
size (boolean b) = raised type_error
size (member enum n) = raised type_error
size (date d) = raised type_error
size (moment t) = raised type_error
size (item i) = raised type_error

-- The types that a spec names, and `isinstance(a, t)`: a member of an IntEnum and a Boolean are
-- integers, and a moment is a date.
pub data BaseType : Type 0 where
  numeric_type : Numeric → BaseType
  boolean_type date_type datetime_type string_type item_type : BaseType
  enum_type : String → BaseType

abbrev same_numeric : Numeric → Numeric → Bool
same_numeric int int = true
same_numeric float float = true
same_numeric decimal decimal = true
same_numeric j k = false

unfoldable pub is_instance : Scalar → BaseType → Bool
is_instance (number j n) (numeric_type k) = same_numeric j k
is_instance (boolean b) (numeric_type k) = same_numeric int k
is_instance (member enum n) (numeric_type k) = same_numeric int k
is_instance (boolean b) boolean_type = true
is_instance (member e n) (enum_type enum) = str_eq e enum
is_instance (text s) string_type = true
is_instance (date d) date_type = true
is_instance (moment t) date_type = true
is_instance (moment t) datetime_type = true
is_instance (item i) item_type = true
is_instance a t = false
