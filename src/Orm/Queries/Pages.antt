-- ===== src/Orm/Queries/Pages.antt =====
-- What a page of a statement holds, where the database finds the rows that its conditions select, in
-- an order of its own for each statement.
use mathlib.Core.List.{Permᴰ}
use api_template.Base.{
  ℕ, zero, suc, ◌-◌, min, Bool, true, Option, none, some, List, [], ◌∷◌, ◌≡◌, refl, ◌∙◌, ap, length,
  take, drop, filter, all, arith,
}
use api_template.Orm.Queries.{Statement, Database, plain_statement}

abbrev pub slice {ℓ} : {A : Type ℓ} → (limit : Option ℕ) → (offset : ℕ) → List A → List A
slice none offset xs = drop offset xs
slice (some limit) offset xs = take limit (drop offset xs)

module _ {A : Type 0} where
  pub Permᴰ-length : {xs ys : List A} → Permᴰ xs ys → length xs ≡ length ys
  Permᴰ-length Permᴰ.nil = refl
  Permᴰ-length (Permᴰ.cons e p) = ap suc (Permᴰ-length p)
  Permᴰ-length (Permᴰ.swap e f) = refl
  Permᴰ-length (Permᴰ.trans p q) = Permᴰ-length p ∙ Permᴰ-length q

  pub Permᴰ-all : (p : A → Bool) {xs ys : List A} → Permᴰ xs ys → all p xs ≡ all p ys
  Permᴰ-all p Permᴰ.nil = refl
  Permᴰ-all p (Permᴰ.cons e h) = rw (e, Permᴰ-all p h) refl
  Permᴰ-all p (Permᴰ.swap e f) = rw (e, f) (ground arith)
  Permᴰ-all p (Permᴰ.trans h k) = Permᴰ-all p h ∙ Permᴰ-all p k

  all-filter : (p : A → Bool) (xs : List A) → all p (filter p xs) ≡ true
  all-filter p [] = refl
  all-filter p (x ∷ xs) = ground (arith, all-filter p xs)

  all-take : (p : A → Bool) (n : ℕ) (xs : List A) → all p xs ≡ true → all p (take n xs) ≡ true
  all-take p zero xs h = refl
  all-take p (suc n) [] h = refl
  all-take p (suc n) (x ∷ xs) h = ground (arith, all-take p n xs)

  all-drop : (p : A → Bool) (n : ℕ) (xs : List A) → all p xs ≡ true → all p (drop n xs) ≡ true
  all-drop p zero xs h = h
  all-drop p (suc n) [] h = refl
  all-drop p (suc n) (x ∷ xs) h = ground (arith, all-drop p n xs)

  length-take : (n : ℕ) (xs : List A) → length (take n xs) ≡ min n (length xs)
  length-take zero xs = omega arith
  length-take (suc n) [] = omega arith
  length-take (suc n) (x ∷ xs) = omega (arith, length-take n xs)

  length-drop : (n : ℕ) (xs : List A) → length (drop n xs) ≡ length xs - n
  length-drop zero xs = omega arith
  length-drop (suc n) [] = omega arith
  length-drop (suc n) (x ∷ xs) = omega (arith, length-drop n xs)

abbrev pub satisfies :
    {Condition Row : Type 0} → (Condition → Row → Bool) → List Condition → Row → Bool
satisfies selects conditions row = all (λ k. selects k row) conditions

module _ {Condition Options Row : Type 0} where
  -- The database: a statement gives the rows that its conditions select among those of the joined
  -- tables, in some order, and of these what its limit and offset leave.
  pub record Reads (db : Database Condition Options Row) (selects : Condition → Row → Bool)
      : Type 0 where
    pub joined : List Row
    pub execute_lem :
        (stmt : Statement Condition Options)
        → (arranged : List Row) × Permᴰ arranged (filter (satisfies selects stmt.conditions) joined)
          × (db.execute stmt ≡ slice stmt.limit stmt.offset arranged)
    pub count_lem : (stmt : Statement Condition Options) → db.count stmt ≡ length (db.execute stmt)

  module _ (db : Database Condition Options Row) (selects : Condition → Row → Bool)
      (reads : Reads db selects) where
    open reads use {joined}

    abbrev pub matching : List Condition → List Row
    matching conditions = filter (satisfies selects conditions) joined

    pub count-matching :
        (conditions : List Condition)
        → db.count (plain_statement conditions) ≡ length (matching conditions)
    count-matching conditions =
        let (arranged, same, found) = reads.execute_lem (plain_statement conditions) in
        reads.count_lem (plain_statement conditions) ∙ (ap length found ∙ Permᴰ-length same)

    pub execute-page :
        (stmt : Statement Condition Options) (limit : ℕ)
        → stmt.limit ≡ some limit
        → (length (db.execute stmt) ≡ min limit (length (matching stmt.conditions) - stmt.offset))
          × (all (satisfies selects stmt.conditions) (db.execute stmt) ≡ true)
    execute-page stmt limit h =
        let (arranged, same, found) = reads.execute_lem stmt in
        let page : db.execute stmt ≡ take limit (drop stmt.offset arranged) =
          found ∙ ap (λ l. slice l stmt.offset arranged) h in
        let fits : all (satisfies selects stmt.conditions) arranged ≡ true =
          Permᴰ-all (satisfies selects stmt.conditions) same
          ∙ all-filter (satisfies selects stmt.conditions) joined in
        (
          rw
              (
                page,
                length-take limit (drop stmt.offset arranged),
                length-drop stmt.offset arranged,
                Permᴰ-length same,
              )
              refl,
          rw page
              (all-take _ limit (drop stmt.offset arranged) (all-drop _ stmt.offset arranged fits)),
        )
