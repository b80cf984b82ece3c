-- ===== src/Kernel/Outcomes.antt =====
-- A Python call after another: an exception of the first ends both. For calls that change no state.
use api_template.Base.{◌≡◌, refl, ◌⊎◌, inl, inr, List, [], ◌∷◌}
use api_template.Kernel.Errors.{Exn, Outcome, returned, raised}

infixl 5 ◌>>=◌
abbrev pub ◌>>=◌ {ℓ κ} : {A : Type ℓ} {B : Type κ} → Outcome A → (A → Outcome B) → Outcome B
returned a >>= f = f a
raised e >>= f = raised e

-- `[f(x) for x in xs]`
abbrev pub each {ℓ κ} : {A : Type ℓ} {B : Type κ} → (A → Outcome B) → List A → Outcome (List B)
each f [] = returned []
each f (x ∷ xs) = let rest = each f xs in do y ← f x; ys ← rest; returned (y ∷ ys)

module _ {ℓ κ} {A : Type ℓ} {B : Type κ} where
  pub bind-returned :
      (m : Outcome A) (f : A → Outcome B) (b : B)
      → (m >>= f) ≡ returned b
      → (a : A) × (m ≡ returned a) × (f a ≡ returned b)
  bind-returned (returned a) f b h = (a, refl, h)
  bind-returned (raised e) f b h = absurd (cc)

pub Outcome-cases {ℓ} :
    {A : Type ℓ} (r : Outcome A) → ((a : A) × (r ≡ returned a)) ⊎ ((e : Exn) × (r ≡ raised e))
Outcome-cases (returned a) = inl (a, refl)
Outcome-cases (raised e) = inr (e, refl)
