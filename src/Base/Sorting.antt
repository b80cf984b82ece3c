-- ===== src/Base/Sorting.antt =====
-- Python's `sorted(xs, key=k)` on lists: stable, in ascending order of the key.
use Prim.Native.Nat.{ℕ, ◌≤◌}
use mathlib.Core.Path.{◌≡◌, refl}
use mathlib.Core.Logic.{inl, inr}
use mathlib.Core.List.{List, [], ◌∷◌}
use native.Mathlib.Omega.{arith}
use api_template.Base.Tests.{leb, ◌==◌, if◌then◌else◌, Bool-cases, leb→le}
use api_template.Base.Lists.{filter, All, All-mono}

module _ {ℓ} {A : Type ℓ} (key : A → ℕ) where
  -- Before every member with a key as large: so that equal keys keep their order.
  unfoldable pub insert_by : A → List A → List A
  insert_by x [] = x ∷ []
  insert_by x (y ∷ ys) =
      let rest = insert_by x ys in if leb (key x) (key y) then x ∷ y ∷ ys else y ∷ rest

  unfoldable pub sorted_by : List A → List A
  unfolding insert_by
  sorted_by [] = []
  sorted_by (x ∷ xs) = insert_by x (sorted_by xs)

  abbrev pub Ascending : List A → Type ℓ
  Ascending [] = Unit
  Ascending (x ∷ xs) = All (λ y. key x ≤ key y) xs × Ascending xs

  insert_by-All : (P : A → Type 0) (x : A) (ys : List A) → P x → All P ys → All P (insert_by x ys)
  unfolding insert_by
  insert_by-All P x [] p h = (p, tt)
  insert_by-All P x (y ∷ ys) p h = elim (Bool-cases (leb (key x) (key y))) [
    | inl e ↦ rw e (p, h)
    | inr e ↦ rw e (h.0, insert_by-All P x ys p h.1)
  ]

  insert_by-Ascending : (x : A) (ys : List A) → Ascending ys → Ascending (insert_by x ys)
  unfolding insert_by
  insert_by-Ascending x [] h = (tt, tt)
  insert_by-Ascending x (y ∷ ys) h = elim (Bool-cases (leb (key x) (key y))) [
    | inl e ↦
        let below : key x ≤ key y = leb→le (key x) (key y) e in
        rw e (
          (below, All-mono (λ z. key y ≤ key z) (λ z. key x ≤ key z) ys (λ z q. omega arith) h.0),
          h,
        )
    | inr e ↦
        let above : key y ≤ key x = ground arith in
        rw e (insert_by-All (λ z. key y ≤ key z) x ys above h.0, insert_by-Ascending x ys h.1)
  ]

  pub sorted_by-Ascending : (xs : List A) → Ascending (sorted_by xs)
  unfolding sorted_by
  sorted_by-Ascending [] = tt
  sorted_by-Ascending (x ∷ xs) = insert_by-Ascending x (sorted_by xs) (sorted_by-Ascending xs)

  insert_by_stable :
      (n : ℕ) (x : A) (ys : List A)
      → filter (λ z. key z == n) (insert_by x ys) ≡ filter (λ z. key z == n) (x ∷ ys)
  unfolding insert_by
  insert_by_stable n x [] = refl
  insert_by_stable n x (y ∷ ys) = elim (Bool-cases (leb (key x) (key y))) [
    | inl e ↦ rw e refl
    | inr e ↦ rw e (ground (arith, insert_by_stable n x ys))
  ]

  -- The members with one key are the same, in the same order.
  pub sorted_by_stable :
      (n : ℕ) (xs : List A) → filter (λ z. key z == n) (sorted_by xs) ≡ filter (λ z. key z == n) xs
  unfolding sorted_by
  sorted_by_stable n [] = refl
  sorted_by_stable n (x ∷ xs) =
      ground (arith, insert_by_stable n x (sorted_by xs), sorted_by_stable n xs)
