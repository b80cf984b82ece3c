-- ===== src/Identity/Account/Status.antt =====
-- `status` and `is_active` of an account: where they agree, and what keeps them so.
use api_template.Base.{
  ℕ, ◌≡◌, refl, ap, Bool, true, not, List, [], ◌∷◌, map, All, if◌then◌else◌, ◌==◌, ◌+◌, ◌-◌, ◌∷◌,
  arith, Bool-cases, inl, inr,
}
use api_template.Identity.Data.{UserRow, status_active, status_inactive}
use api_template.Identity.Session.{Env, World}
use api_template.Identity.UserRepository.{toggled, activated, toggle_status, activate}

-- The two columns say the same.
unfoldable pub agrees : UserRow → Bool
agrees row = row.status == (if row.is_active then status_active else status_inactive)

abbrev pub Consistent : List UserRow → Type 0
Consistent users = All (λ u. agrees u ≡ true) users

toggled-agrees : (row : UserRow) → agrees row ≡ true → agrees (toggled row) ≡ true
unfolding agrees toggled
toggled-agrees row h = ground arith

toggled_back : (row : UserRow) → agrees row ≡ true → toggled (toggled row) ≡ row
unfolding agrees toggled
toggled_back row h =
    let once : ℕ = (row.status - 1) + (1 - row.status) in
    let status : (once - 1) + (1 - once) ≡ row.status = ground arith in
    let active : not (not row.is_active) ≡ row.is_active = ground arith in rw (status, active) refl

activated-agrees : (row : UserRow) → agrees row ≡ true → agrees (activated row) ≡ true
unfolding agrees activated
activated-agrees row h = refl

toggled_all_back :
    (id_ : ℕ) (t : List UserRow)
    → Consistent t
    → map
        (λ u. if u.id == id_ then toggled u else u)
        (map (λ u. if u.id == id_ then toggled u else u) t)
      ≡ t
unfolding toggled
toggled_all_back id_ [] h = refl
toggled_all_back id_ (u ∷ t) h = elim (Bool-cases (u.id == id_)) [
  | inl e ↦ rw (e, toggled_all_back id_ t h.1) (ap (λ v. v ∷ t) (rw e (toggled_back u h.0)))
  | inr e ↦ rw (e, toggled_all_back id_ t h.1) (rw e refl)
]

All-update :
    (P : UserRow → Type 0) (p : UserRow → Bool) (f : UserRow → UserRow) (t : List UserRow)
    → ((u : UserRow) → P u → P (f u))
    → All P t
    → All P (map (λ u. if p u then f u else u) t)
All-update P p f [] k h = tt
All-update P p f (u ∷ t) k h = elim (Bool-cases (p u)) [
  | inl e ↦ rw e (k u h.0, All-update P p f t k h.1)
  | inr e ↦ rw e (h.0, All-update P p f t k h.1)
]

module _ (env : Env) (id_ : ℕ) where
  activate_db :
      (w : World)
      → (activate env id_ w).1.db.users ≡ env.users.update (λ u. u.id == id_) activated w.db.users
  unfolding activate
  activate_db w = ground arith

  -- Where `status` and `is_active` agree in every account, they still do after one has been
  -- toggled, and after one has been activated.
  pub toggle-Consistent :
      (w : World)
      → Consistent w.db.users
      → Consistent (toggle_status env id_ w).1.db.users × Consistent (activate env id_ w).1.db.users
  unfolding toggle_status activate
  toggle-Consistent w h = (
    rw env.users.update_lem
        (All-update (λ u. agrees u ≡ true) (λ u. u.id == id_) toggled w.db.users toggled-agrees h),
    rw (activate_db w, env.users.update_lem)
        (All-update (λ u. agrees u ≡ true) (λ u. u.id == id_) activated w.db.users activated-agrees
          h),
  )

  -- Toggling an account twice leaves the accounts as they were, where `status` and `is_active`
  -- agree in every one.
  pub toggle_twice :
      (w : World)
      → Consistent w.db.users
      → (toggle_status env id_ (toggle_status env id_ w).1).1.db ≡ w.db
  unfolding toggle_status
  toggle_twice w h =
      rw (env.users.update_lem, env.users.update_lem, toggled_all_back id_ w.db.users h) refl
