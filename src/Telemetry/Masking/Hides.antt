-- ===== src/Telemetry/Masking/Hides.antt =====
-- What `mask` takes out, and how deep it looks.
use api_template.Base.{
  ℕ, ◌+◌, ◌≤◌, ◌≡◌, refl, suc, zero, Bool, true, false, ltb, max, arith, Bool-cases, inl, inr,
}
use api_template.Telemetry.Masking.{
  Value, dict, list, text, bytes, plain, Entries, no_entry, entry, Items, no_item, item, redacted,
  omitted, Patterns, is_sensitive_key, looks_binary, mask, mask_entries, mask_items,
}

-- How deep the containers of a value are nested.
unfoldable mutual
  pub nesting : Value → ℕ
  nesting (dict es) = suc (nesting_entries es)
  nesting (list xs) = suc (nesting_items xs)
  nesting (text s) = 0
  nesting bytes = 0
  nesting (plain n) = 0

  pub nesting_entries : Entries → ℕ
  nesting_entries no_entry = 0
  nesting_entries (entry key value es) = max (nesting value) (nesting_entries es)

  pub nesting_items : Items → ℕ
  nesting_items no_item = 0
  nesting_items (item value xs) = max (nesting value) (nesting_items xs)

-- A value in so many lists of one item.
abbrev pub nest : ℕ → Value → Value
nest zero v = v
nest (suc n) v = list (item (nest n v) no_item)

-- A value under a key that is sensitive or not, `rest` being what is asked of the others.
abbrev pub Under : Bool → Value → Type 0 → Type 0
Under true value rest = value ≡ text redacted
Under false value rest = rest

module _ (patterns : Patterns) where
  -- Nothing secret and nothing binary: every value under a sensitive key is the marker, and no
  -- other leaf looks binary.
  unfoldable mutual
    pub Clean : Value → Type 0
    Clean (dict es) = CleanEntries es
    Clean (list xs) = CleanItems xs
    Clean (text s) = looks_binary patterns (text s) ≡ false
    Clean bytes = ⊥
    Clean (plain n) = Unit

    pub CleanEntries : Entries → Type 0
    CleanEntries no_entry = Unit
    CleanEntries (entry key value es) =
        Under (is_sensitive_key patterns key) value (Clean value) × CleanEntries es

    pub CleanItems : Items → Type 0
    CleanItems no_item = Unit
    CleanItems (item value xs) = Clean value × CleanItems xs

  -- The markers themselves do not look binary.
  module _ (m : looks_binary patterns (text omitted) ≡ false) where
    mutual
      unfolding Clean CleanEntries CleanItems mask mask_entries mask_items nesting nesting_entries
          nesting_items

      mask_deep-Clean : (d : ℕ) (v : Value) → d + nesting v ≤ 32 → Clean (mask patterns d v)
      mask_deep-Clean d (dict es) h =
          let shallow : ltb 32 d ≡ false = ground arith in
          rw shallow (entries-Clean (d + 1) es (omega arith))
      mask_deep-Clean d (list xs) h =
          let shallow : ltb 32 d ≡ false = ground arith in
          rw shallow (items-Clean (d + 1) xs (omega arith))
      mask_deep-Clean d (text s) h =
          let shallow : ltb 32 d ≡ false = ground arith in
          elim (Bool-cases (looks_binary patterns (text s))) [
            | inl e ↦ rw (shallow, e) m
            | inr e ↦ rw (shallow, e) e
          ]
      mask_deep-Clean d bytes h = let shallow : ltb 32 d ≡ false = ground arith in rw shallow m
      mask_deep-Clean d (plain n) h = tt

      entries-Clean :
          (d : ℕ) (es : Entries)
          → d + nesting_entries es ≤ 32
          → CleanEntries (mask_entries patterns d es)
      entries-Clean d no_entry h = tt
      entries-Clean d (entry key value es) h =
          let rest = entries-Clean d es (omega arith) in
          let inner = mask_deep-Clean d value (omega arith) in
          elim (Bool-cases (is_sensitive_key patterns key)) [
            | inl e ↦ rw e (rw e (refl, rest))
            | inr e ↦ elim (Bool-cases (looks_binary patterns value)) [
              | inl b ↦ rw (e, b) (rw e (m, rest))
              | inr b ↦ rw (e, b) (rw e (inner, rest))
            ]
          ]

      items-Clean :
          (d : ℕ) (xs : Items) → d + nesting_items xs ≤ 32 → CleanItems (mask_items patterns d xs)
      items-Clean d no_item h = tt
      items-Clean d (item value xs) h =
          (mask_deep-Clean d value (omega arith), items-Clean d xs (omega arith))

  -- A payload whose containers are nested at most 32 deep is written without any value under a
  -- sensitive key and without any binary leaf. The text that stands for what was omitted must not
  -- look binary itself.
  pub mask-Clean :
      (v : Value)
      → looks_binary patterns (text omitted) ≡ false
      → nesting v ≤ 32
      → Clean (mask patterns 0 v)
  mask-Clean v m h = mask_deep-Clean m 0 v (omega arith)

  mask_below : (d : ℕ) (v : Value) → 33 ≤ d → mask patterns d v ≡ v
  unfolding mask
  mask_below d (dict es) h = let deep : ltb 32 d ≡ true = ground arith in rw deep refl
  mask_below d (list xs) h = let deep : ltb 32 d ≡ true = ground arith in rw deep refl
  mask_below d (text s) h = let deep : ltb 32 d ≡ true = ground arith in rw deep refl
  mask_below d bytes h = let deep : ltb 32 d ≡ true = ground arith in rw deep refl
  mask_below d (plain n) h = refl

  mask_nested : (d n : ℕ) (v : Value) → 33 ≤ d + n → mask patterns d (nest n v) ≡ nest n v
  unfolding mask mask_items
  mask_nested d zero v h = mask_below d v (omega arith)
  mask_nested d (suc n) v h = elim (Bool-cases (ltb 32 d)) [
    | inl e ↦ rw e refl
    | inr e ↦ rw (e, mask_nested (d + 1) n v (omega arith)) refl
  ]

  -- What is wrapped in 33 lists is written as it is, with every secret in it.
  pub mask_stops : (v : Value) → mask patterns 0 (nest 33 v) ≡ nest 33 v
  mask_stops v = mask_nested 0 33 v (omega arith)
