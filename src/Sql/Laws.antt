-- ===== src/Sql/Laws.antt =====
-- Consequences of the laws of `Table` that the repositories share.
use api_template.Base.{
  ℕ, ◌≤◌, ◌<◌, ◌≡◌, refl, sym, ap, ◌∙◌, Bool, true, false, some, List, [], ◌∷◌, ◌++◌, map, filter,
  length, All, if◌then◌else◌, arith, ◌⊎◌, inl, inr, Bool-cases,
}
use api_template.Sql.{Has, Table}

module _ {Row : Type 0} where
  pub filter-eq-nil : (p : Row → Bool) (t : List Row) → All (λ x. p x ≡ false) t → filter p t ≡ []
  filter-eq-nil p [] h = refl
  filter-eq-nil p (x ∷ t) h = rw (h.0) (filter-eq-nil p t h.1)

  -- A conditional update after which no row satisfies `q` leaves none to be found.
  pub filter-map-nil :
      (q p : Row → Bool) (f : Row → Row) (t : List Row)
      → ((x : Row) → Has x t → q (if p x then f x else x) ≡ false)
      → filter q (map (λ r. if p r then f r else r) t) ≡ []
  filter-map-nil q p f [] h = refl
  filter-map-nil q p f (x ∷ t) h = rw (h x (inl refl)) (filter-map-nil q p f t (λ y m. h y (inr m)))

  -- An update whose test no row passes changes nothing.
  pub map-filter-nil :
      (p : Row → Bool) (f : Row → Row) (t : List Row)
      → filter p t ≡ []
      → map (λ r. if p r then f r else r) t ≡ t
  map-filter-nil p f [] h = refl
  map-filter-nil p f (x ∷ t) h = elim (Bool-cases (p x)) [
    | inl e ↦ absurd (let g : x ∷ filter p t ≡ [] = rw e at h in cc)
    | inr e ↦ rw e (ap (λ r. x ∷ r) (map-filter-nil p f t (rw e at h)))
  ]

  pub All-Has : (P : Row → Type 0) (t : List Row) (r : Row) → All P t → Has r t → P r
  All-Has P [] r a h = elim h [ ]
  All-Has P (x ∷ t) r a (inl e) = rw (← e) a.0
  All-Has P (x ∷ t) r a (inr h) = All-Has P t r a.1 h

  pub Has-last : (t : List Row) (r : Row) → Has r (t ++ r ∷ [])
  Has-last [] r = inl refl
  Has-last (x ∷ t) r = inr (Has-last t r)

  pub Has-append-cases : (t u : List Row) (r : Row) → Has r (t ++ u) → Has r t ⊎ Has r u
  Has-append-cases [] u r h = inr h
  Has-append-cases (x ∷ t) u r (inl e) = inl (inl e)
  Has-append-cases (x ∷ t) u r (inr h) = elim (Has-append-cases t u r h) [
    | inl a ↦ inl (inr a)
    | inr b ↦ inr b
  ]

  pub Has-filter :
      (p : Row → Bool) (t : List Row) (r : Row) → Has r t → p r ≡ true → Has r (filter p t)
  Has-filter p [] r h e = elim h [ ]
  Has-filter p (x ∷ t) r (inl q) e = rw (rw (← q) at e) (inl q)
  Has-filter p (x ∷ t) r (inr h) e = elim (Bool-cases (p x)) [
    | inl g ↦ rw g (inr (Has-filter p t r h e))
    | inr g ↦ rw g (Has-filter p t r h e)
  ]

  -- A row that is newer than every other match is the one that is found.
  pub newest-insert :
      (table : Table Row) (k : Row → ℕ) (p : Row → Bool) (t : List Row) (r : Row)
      → p r ≡ true
      → All (λ x. p x ≡ true → k x < k r) t
      → table.newest k p (t ++ r ∷ []) ≡ some r
  newest-insert table k p t r e older =
      let here : Has r (filter p (t ++ r ∷ [])) = Has-filter p (t ++ r ∷ []) r (Has-last t r) e in
      let (s, es) = table.newest_some k p (t ++ r ∷ []) (λ n. elim (rw n at here) [ ]) in
      let (ps, hs, top) = table.newest_match k p (t ++ r ∷ []) s es in
      let above : k r ≤ k s = All-Has (λ x. k x ≤ k s) (filter p (t ++ r ∷ [])) r top here in
      elim (Has-append-cases t (r ∷ []) s hs) [
        | inl old ↦ absurd (
            let below : k s < k r = All-Has (λ x. p x ≡ true → k x < k r) t s older old ps in
            omega arith)
        | inr (inl q) ↦ es ∙ ap some (sym q)
        | inr (inr b) ↦ elim b [ ]
      ]

  -- What a query finds is in the table, and passes the test.
  pub filter-Has :
      (p : Row → Bool) (t : List Row) (r : Row) → Has r (filter p t) → (p r ≡ true) × Has r t
  filter-Has p [] r h = elim h [ ]
  filter-Has p (x ∷ t) r h = elim (Bool-cases (p x)) [
    | inl e ↦ elim (rw e at h) [
      | inl q ↦ (rw (← q) e, inl q)
      | inr q ↦ ((filter-Has p t r q).0, inr (filter-Has p t r q).1)
    ]
    | inr e ↦
        let q : Has r (filter p t) = rw e at h in
        ((filter-Has p t r q).0, inr (filter-Has p t r q).1)
  ]

  -- A query that finds nothing has an empty match.
  pub filter-nil-All : (p : Row → Bool) (t : List Row) → filter p t ≡ [] → All (λ x. p x ≡ false) t
  filter-nil-All p [] h = tt
  filter-nil-All p (x ∷ t) h = elim (Bool-cases (p x)) [
    | inl e ↦ absurd (let g : x ∷ filter p t ≡ [] = rw e at h in cc)
    | inr e ↦ (e, filter-nil-All p t (rw e at h))
  ]

  pub All-map :
      (P : Row → Type 0) (f : Row → Row) (t : List Row) → All (λ x. P (f x)) t → All P (map f t)
  All-map P f [] h = tt
  All-map P f (x ∷ t) h = (h.0, All-map P f t h.1)

  -- Of at most one row there are no two.
  pub at_most_one : (t : List Row) (a b : Row) → length t ≤ 1 → Has a t → Has b t → a ≡ b
  at_most_one [] a b h ha hb = elim ha [ ]
  at_most_one (x ∷ []) a b h (inl p) (inl q) = sym p ∙ q
  at_most_one (x ∷ []) a b h (inr p) hb = elim p [ ]
  at_most_one (x ∷ []) a b h (inl p) (inr q) = elim q [ ]
  at_most_one (x ∷ y ∷ t) a b h ha hb = absurd (omega arith)

  pub first_of_one : (t : List Row) → length t ≡ 1 → (r : Row) × Has r t
  first_of_one [] h = absurd (omega arith)
  first_of_one (x ∷ t) h = (x, inl refl)
