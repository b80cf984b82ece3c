-- ===== src/Identity/Session/UnitOfWork.antt =====
-- How `async with self._uow:` ends, whatever its body did.
use api_template.Base.{◌≡◌, refl, Bool, true, false, [], Bool-cases, inl, inr}
use api_template.Kernel.Errors.{Exn, Outcome, returned, raised, integrity_error}
use api_template.Identity.Session.{
  Env, World, Action, emails_unique, apply_changes, aexit, within_uow,
}

module _ {A : Type 0} (env : Env) (body : Action A) (w w' : World) where
  -- A body that returns has all its changes committed, if the addresses stay unique.
  pub within_uow_commits :
      (a : A)
      → body w ≡ (returned a, w')
      → emails_unique (apply_changes env w'.db w'.pending).users ≡ true
      → within_uow env body w ≡ (
        returned a,
        record w' {
          db = apply_changes env w'.db w'.pending;
          saved = apply_changes env w'.db w'.pending;
          pending = [];
        },
      )
  unfolding within_uow
  within_uow_commits a e unique = rw e (rw (unique, aexit) refl)

  -- A body that raises changes nothing that is committed.
  pub within_uow_rolls_back :
      (x : Exn)
      → body w ≡ (raised x, w')
      → within_uow env body w ≡ (raised x, record w' { db = w'.saved; pending = [] })
  unfolding within_uow
  within_uow_rolls_back x e = rw e refl

  -- A second row with the same address makes the commit fail, and nothing is committed.
  pub within_uow_conflict :
      (a : A)
      → body w ≡ (returned a, w')
      → emails_unique (apply_changes env w'.db w'.pending).users ≡ false
      → within_uow env body w ≡ (raised integrity_error, record w' { db = w'.saved; pending = [] })
  unfolding within_uow
  within_uow_conflict a e clash = rw e (rw (clash, aexit) refl)

abbrev pub succeeds : {A : Type 0} → Outcome A → Bool
succeeds (returned a) = true
succeeds (raised e) = false

-- How the block ends: with everything that its body did, or with none of it.
pub data Ends {A : Type 0} (env : Env) (body w' : World) (r : Outcome A) : Type 0 where
  all_kept :
      succeeds r ≡ true
      → w'.saved ≡ apply_changes env body.db body.pending
      → emails_unique w'.saved.users ≡ true
      → Ends env body w' r
  none_kept : succeeds r ≡ false → w'.saved ≡ body.saved → Ends env body w' r

module _ {A : Type 0} (env : Env) where
  aexit-Ends :
      (r : Outcome A) (v : World)
      → let (r', w') = aexit env r v in (w'.db ≡ w'.saved) × (w'.pending ≡ []) × Ends env v w' r'
  unfolding aexit
  aexit-Ends (returned a) v =
      elim (Bool-cases (emails_unique (apply_changes env v.db v.pending).users)) [
        | inl e ↦ rw e (refl, refl, all_kept refl refl e)
        | inr e ↦ rw e (refl, refl, none_kept refl refl)
      ]
  aexit-Ends (raised e) v = (refl, refl, none_kept refl refl)

  -- A unit of work is all or nothing: it returns with every change of its body committed and the
  -- addresses unique, or it raises and what is committed is what the body left committed; either
  -- way no change stays behind in the session.
  pub within_uow_atomic :
      (body : Action A) (w : World)
      → let (r', w') = within_uow env body w in
        (w'.db ≡ w'.saved) × (w'.pending ≡ []) × Ends env (body w).1 w' r'
  unfolding within_uow
  within_uow_atomic body w = aexit-Ends (body w).0 (body w).1
