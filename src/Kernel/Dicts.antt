-- ===== src/Kernel/Dicts.antt =====
-- Python's dict with text keys: pairs in the order in which their keys were first set.
use api_template.Base.{
  String, str_eq, str_eq_iff, str_eq_refl, false, Bool-cases, Option, none, some, List, [], ◌∷◌,
  ◌≡◌, refl, sym, ap, ◌∙◌, inl, inr, if◌then◌else◌,
}

abbrev pub Dict {ℓ} : Type ℓ → Type ℓ
Dict A = List (String × A)

-- `d[key] = value`
unfoldable pub set_item {ℓ} : {A : Type ℓ} → String → A → Dict A → Dict A
set_item key value [] = (key, value) ∷ []
set_item key value ((k, v) ∷ items) =
    let rest = set_item key value items in
    if str_eq k key then (k, value) ∷ items else (k, v) ∷ rest

-- `d.get(key)`
unfoldable pub get_item {ℓ} : {A : Type ℓ} → String → Dict A → Option A
get_item key [] = none
get_item key ((k, v) ∷ items) =
    let rest = get_item key items in if str_eq k key then some v else rest

-- `d.update(pairs)`
unfoldable pub update {ℓ} : {A : Type ℓ} → Dict A → List (String × A) → Dict A
unfolding set_item
update d [] = d
update d ((k, v) ∷ pairs) = update (set_item k v d) pairs

-- The value of the last pair with a key, or else that of a dict.
abbrev pub last_or {ℓ} : {A : Type ℓ} → String → Option A → List (String × A) → Option A
last_or key found [] = found
last_or key found ((k, v) ∷ pairs) = last_or key (if str_eq k key then some v else found) pairs

module _ {ℓ} {A : Type ℓ} where
  pub get_item-set_item_same :
      (key : String) (value : A) (d : Dict A) → get_item key (set_item key value d) ≡ some value
  unfolding get_item set_item
  get_item-set_item_same key value [] = rw (str_eq_refl key) refl
  get_item-set_item_same key value ((k, v) ∷ items) = elim (Bool-cases (str_eq k key)) [
    | inl e ↦ rw e (rw e refl)
    | inr e ↦ rw e (rw (e, get_item-set_item_same key value items) refl)
  ]

  pub get_item-set_item_other :
      (key other : String) (value : A) (d : Dict A)
      → str_eq other key ≡ false
      → get_item key (set_item other value d) ≡ get_item key d
  unfolding get_item set_item
  get_item-set_item_other key other value [] h = rw h refl
  get_item-set_item_other key other value ((k, v) ∷ items) h = elim (Bool-cases (str_eq k other)) [
    | inl e ↦
        let same : k ≡ other = (str_eq_iff k other).0 e in
        let apart : str_eq k key ≡ false = rw same h in rw e (rw apart refl)
    | inr e ↦ rw (e, get_item-set_item_other key other value items h) refl
  ]

  pub get_item-set_item :
      (key k : String) (v : A) (d : Dict A)
      → get_item key (set_item k v d) ≡ (if str_eq k key then some v else get_item key d)
  get_item-set_item key k v d = elim (Bool-cases (str_eq k key)) [
    | inl e ↦
        let same : k ≡ key = (str_eq_iff k key).0 e in
        rw e (ap (λ x. get_item x (set_item k v d)) (sym same) ∙ get_item-set_item_same k v d)
    | inr e ↦ rw e (get_item-set_item_other key k v d e)
  ]

  -- What an updated dict holds under a key.
  pub get_item-update :
      (key : String) (d : Dict A) (pairs : List (String × A))
      → get_item key (update d pairs) ≡ last_or key (get_item key d) pairs
  unfolding update
  get_item-update key d [] = refl
  get_item-update key d ((k, v) ∷ pairs) =
      get_item-update key (set_item k v d) pairs
      ∙ ap (λ o. last_or key o pairs) (get_item-set_item key k v d)
