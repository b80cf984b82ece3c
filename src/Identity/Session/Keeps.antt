-- ===== src/Identity/Session/Keeps.antt =====
-- Steps that neither commit nor announce: they only change what the transaction sees.
use api_template.Base.{◌≡◌, refl, ◌∙◌, Bool, true, false, inl, inr, arith, ap, ◌≢◌}
use api_template.Kernel.Outcomes.{Outcome-cases}
use api_template.Kernel.Errors.{Exn, Outcome, returned, raised}
use api_template.Identity.Session.{
  Env, Db, World, Action, ◌>>=◌, flush, settle, aexit, apply_changes, emails_unique, within_uow,
}

abbrev pub Keeps : {A : Type 0} → Action A → World → Type 0
Keeps m w = ((m w).1.saved ≡ w.saved) × ((m w).1.published ≡ w.published)

pub bind-Keeps :
    {A B : Type 0} (m : Action A) (f : A → Action B) (w : World)
    → Keeps m w
    → ((a : A) (v : World) → Keeps (f a) v)
    → Keeps (m >>= f) w
bind-Keeps m f w h k = elim (Outcome-cases (m w).0) [
  | inl (a, e) ↦ rw (e, ◌>>=◌) ((k a (m w).1).0 ∙ h.0, (k a (m w).1).1 ∙ h.1)
  | inr (x, e) ↦ rw (e, ◌>>=◌) h
]

settle-Keeps : (b : Bool) (db : Db) (w : World) → Keeps (settle b db) w
unfolding settle
settle-Keeps true db w = (refl, refl)
settle-Keeps false db w = (refl, refl)

pub flush-Keeps : (env : Env) (w : World) → Keeps (flush env) w
unfolding flush
flush-Keeps env w =
    let db' : Db = apply_changes env w.db w.pending in settle-Keeps (emails_unique db'.users) db' w

leave_same :
    {A : Type 0} (env : Env) (a b : A) (v w' : World)
    → aexit env (returned a) v ≡ (returned b, w')
    → a ≡ b
unfolding aexit
leave_same env a b v w' h = ground arith

raised_stays :
    {A : Type 0} (env : Env) (x : Exn) (b : A) (v w' : World)
    → aexit env (raised x) v ≢ (returned b, w')
unfolding aexit
raised_stays env x b v w' h = cc

-- A chain that returns has a first step that returns, and goes on from there.
pub bind-returned :
    {A B : Type 0} (m : Action A) (f : A → Action B) (b : B) (w : World)
    → ((m >>= f) w).0 ≡ returned b
    → (a : A) × ((m w).0 ≡ returned a) × ((m >>= f) w ≡ f a (m w).1)
bind-returned m f b w h = elim (Outcome-cases (m w).0) [
  | inl (a, e) ↦ (a, e, rw (e, ◌>>=◌) refl)
  | inr (x, e) ↦ absurd (let g : raised x ≡ returned b = rw (e, ◌>>=◌) at h in cc)
]

aexit_saved :
    {A : Type 0} (env : Env) (b : A) (v w' : World)
    → aexit env (returned b) v ≡ (returned b, w')
    → (w'.saved ≡ apply_changes env v.db v.pending) × (w'.published ≡ v.published)
unfolding aexit
aexit_saved env b v w' h = ground arith

-- A unit of work that returns has a body that returned the same, and commits what it left.
pub within_uow-returned :
    {B : Type 0} (env : Env) (m : Action B) (b : B) (w w' : World)
    → within_uow env m w ≡ (returned b, w')
    → ((m w).0 ≡ returned b)
      × (w'.saved ≡ apply_changes env (m w).1.db (m w).1.pending)
      × (w'.published ≡ (m w).1.published)
unfolding within_uow
within_uow-returned env m b w w' h = elim (Outcome-cases (m w).0) [
  | inl (a, e) ↦
      let g : aexit env (returned a) (m w).1 ≡ (returned b, w') = rw e at h in
      let q : a ≡ b = leave_same env a b (m w).1 w' g in
      let (s, p) = aexit_saved env b (m w).1 w' (rw q at g) in (e ∙ ap returned q, s, p)
  | inr (x, e) ↦ absurd (
      let g : aexit env (raised x) (m w).1 ≡ (returned b, w') = rw e at h in
      raised_stays env x b (m w).1 w' g)
]

-- A chain goes on from what its first step returns.
pub bind_step :
    {A B : Type 0} (m : Action A) (f : A → Action B) (a : A) (w v : World)
    → m w ≡ (returned a, v)
    → (m >>= f) w ≡ f a v
bind_step {A} {B} m f a w v h =
    let first : (m w).0 ≡ returned a = ap (λ r. r.0) h in
    let here : (m >>= f) w ≡ f a (m w).1 = rw (first, ◌>>=◌) refl in
    here ∙ ap (λ (r : Outcome A × World). f a r.1) h
