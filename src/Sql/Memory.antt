-- ===== src/Sql/Memory.antt =====
-- A table in memory, which shows that the laws of `Table` can be met. The witnesses use it.
use api_template.Base.{
  ℕ, ◌≤◌, ◌<◌, ◌≡◌, ◌≢◌, refl, true, Option, none, some, List, [], ◌∷◌, ◌++◌, map, filter, length,
  All, if◌then◌else◌, ltb, ltb→lt, All-mono, arith, inl, inr, Bool-cases,
}
use api_template.Sql.{Has, Table}
use api_template.Sql.Laws.{filter-Has}

module _ {Row : Type 0} (k : Row → ℕ) where
  -- A newest one of the rows.
  best : Row → List Row → Row
  best x [] = x
  best x (y ∷ t) = let b = best y t in if ltb (k x) (k b) then b else x

  best-Has : (x : Row) (t : List Row) (r : Row) → best x t ≡ r → Has r (x ∷ t)
  unfolding best
  best-Has x [] r e = inl e
  best-Has x (y ∷ t) r e = elim (Bool-cases (ltb (k x) (k (best y t)))) [
    | inl h ↦ inr (best-Has y t r (rw h at e))
    | inr h ↦ inl (rw h at e)
  ]

  best-le : (x : Row) (t : List Row) (r : Row) → best x t ≡ r → All (λ y. k y ≤ k r) (x ∷ t)
  unfolding best
  best-le x [] r e = (rw e (omega arith), tt)
  best-le x (y ∷ t) r e = elim (Bool-cases (ltb (k x) (k (best y t)))) [
    | inl h ↦
        let q : best y t ≡ r = rw h at e in
        let g : k x < k r = ltb→lt _ _ (rw q at h) in (omega arith, best-le y t r q)
    | inr h ↦
        let q : x ≡ r = rw h at e in
        let g : k (best y t) ≤ k x = ground arith in
        let m : k x ≤ k r = rw q (omega arith) in
        (
          m,
          All-mono (λ z. k z ≤ k (best y t)) (λ z. k z ≤ k r) (y ∷ t) (λ z f. omega arith)
              (best-le y t (best y t) refl),
        )
  ]

  newest_of : List Row → Option Row
  newest_of [] = none
  newest_of (x ∷ t) = some (best x t)

module _ {Row : Type 0} where
  newest_of_some : (k : Row → ℕ) (t : List Row) → t ≢ [] → (r : Row) × (newest_of k t ≡ some r)
  unfolding newest_of
  newest_of_some k [] h = absurd (h refl)
  newest_of_some k (x ∷ t) h = (best k x t, refl)

  newest_of_match :
      (k : Row → ℕ) (t : List Row) (r : Row)
      → newest_of k t ≡ some r
      → Has r t × All (λ x. k x ≤ k r) t
  unfolding newest_of
  newest_of_match k [] r h = cc
  newest_of_match k (x ∷ t) r h =
      let e : best k x t ≡ r = cc in (best-Has k x t r e, best-le k x t r e)

  unfoldable pub memory : Table Row
  unfolding newest_of best newest_of_some newest_of_match best-Has best-le
  memory = record {
    select = filter;
    newest = λ k p t. newest_of k (filter p t);
    update = λ p f t. map (λ r. if p r then f r else r) t;
    rowcount = λ p t. length (filter p t);
    insert = λ r t. t ++ r ∷ [];
    select_lem = λ p t. refl;
    newest_none = λ k p t h. rw h refl;
    newest_some = λ k p t h. newest_of_some k (filter p t) h;
    newest_match = λ k p t r h.
        let m : Has r (filter p t) × All (λ x. k x ≤ k r) (filter p t) =
          newest_of_match k (filter p t) r h in
        let q : (p r ≡ true) × Has r t = filter-Has p t r m.0 in (q.0, q.1, m.1);
    update_lem = λ p f t. refl;
    rowcount_lem = λ p t. refl;
    insert_lem = λ r t. refl;
  }
