-- ===== src/Orm/Batches.antt =====
-- data_access/orm/base/base_orm_repository.py: the loops that hand objects to the session in batches.
-- A batch size is a natural number; the loops' variable `offset` never passes the length of the list.
pub mod Complete
use api_template.Base.{
  ℕ, zero, suc, ◌+◌, ◌-◌, min, Option, none, some, List, [], ◌∷◌, ◌++◌, map, length, take, drop,
  ltb, if◌then◌else◌,
}

abbrev pub after : {A : Type 0} → A → Option (List A) → Option (List A)
after x none = none
after x (some xs) = some (x ∷ xs)

module _ {Item Model : Type 0} (make : Item → Model) where
  -- `batch_create_from_dict`, where `make` builds the model from a dict: the lists that `add_all` is
  -- given, in their order; none where the fuel runs out.
  unfoldable pub batch_create_from_dict :
      (fuel : ℕ) → (batch_size : ℕ) → List Item → (offset : ℕ) → Option (List (List Model))
  batch_create_from_dict zero batch_size objs offset = none
  batch_create_from_dict (suc fuel) batch_size objs offset =
      let current = min batch_size (length objs - offset) in
      let rest = batch_create_from_dict fuel batch_size objs (offset + current) in
      if ltb offset (length objs)
      then after (map make (take current (drop offset objs))) rest
      else some []

module _ {Model : Type 0} where
  -- `_batch_create` and `batch_save`: the slices themselves.
  unfoldable pub batch_save :
      (fuel : ℕ) → (batch_size : ℕ) → List Model → (offset : ℕ) → Option (List (List Model))
  batch_save zero batch_size objs offset = none
  batch_save (suc fuel) batch_size objs offset =
      let current = min batch_size (length objs - offset) in
      let rest = batch_save fuel batch_size objs (offset + current) in
      if ltb offset (length objs) then after (take current (drop offset objs)) rest else some []
