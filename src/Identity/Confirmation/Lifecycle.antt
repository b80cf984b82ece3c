-- ===== src/Identity/Confirmation/Lifecycle.antt =====
-- The life of a code: issued once, confirmed at most once, within its time.
use api_template.Base.{
  ℕ, ◌+◌, ◌≤◌, ◌<◌, ◌≡◌, ◌∙◌, refl, String, Bool, true, false, some, List, [], ◌∷◌, ◌++◌, filter,
  length, All, All-mono, arith, str_eq_iff, ◌&&◌, if◌then◌else◌, Bool-cases, inl, inr,
}
use api_template.Kernel.Errors.{returned}
use api_template.Kernel.Result.{ok, err}
use api_template.Sql.{Has}
use api_template.Sql.Laws.{
  filter-map-nil, filter-Has, Has-filter, filter-nil-All, All-map, Has-last, newest-insert,
  at_most_one, first_of_one,
}
use api_template.Identity.Data.{
  email_confirmation, user, OtpRow, otp_ttl_minutes, otp_cooldown_minutes, kind_eq, content_type_eq,
}
use api_template.Identity.Session.{Env, World, emails_unique, within_uow}
use api_template.Identity.OtpRepository.{
  owned_by, coded, pending_for, claimable, claim, burn, issued_since,
}
use api_template.Identity.Confirmation.{Detail, issue, confirm}
use api_template.Identity.Confirmation.Issue.{issued_row, recent_rows, burnt, issue_saved}
use api_template.Identity.Confirmation.Confirm.{
  claimed, confirm-Accepts, confirm_none_pending, confirm_found_wins, confirm_by_row,
}
use api_template.Identity.Confirmation.Keys.{IdsUnique, IdsUnique-same, claimable_once}

module _ (content_id : ℕ) where
  abbrev pending : OtpRow → Bool
  pending = pending_for content_id user email_confirmation

  -- The claim of the only unused row leaves no unused one.
  claimed_none_pending :
      (row : OtpRow) (now : ℕ) (rows : List OtpRow)
      → IdsUnique rows
      → length (filter pending rows) ≤ 1
      → Has row rows
      → pending row ≡ true
      → length (filter (claimable row.id now) rows) ≡ 1
      → filter pending (claimed row.id now rows) ≡ []
  claimed_none_pending row now rows unique one listed waits won =
      let (y, hy) = first_of_one (filter (claimable row.id now) rows) won in
      let (cy, ly) = filter-Has (claimable row.id now) rows y hy in
      let same : y.id ≡ row.id = ground arith in
      let mine : claimable row.id now row ≡ true =
        rw (IdsUnique-same rows y row unique ly listed same) at cy in
      filter-map-nil pending (claimable row.id now) (claim now) rows (λ r m. after r m mine)
    where
      after :
          (r : OtpRow)
          → Has r rows
          → claimable row.id now row ≡ true
          → pending (if claimable row.id now r then claim now r else r) ≡ false
      after r m mine = elim (Bool-cases (pending r)) [
        | inl p ↦
            let q : r ≡ row =
              at_most_one (filter pending rows) r row one (Has-filter pending rows r m p)
                (Has-filter pending rows row listed waits) in
            let c : claimable row.id now r ≡ true = rw q mine in rw c (ground arith)
        | inr p ↦ ground arith
      ]

module _ (env : Env) (content_id : ℕ) where
  -- Once a confirmation has succeeded, every later one for this owner is refused, whatever its
  -- code, and changes nothing: a code is spent once. The ids of the table are unique, and at most
  -- one code of the owner was unused.
  pub confirm_once :
      (otp : String) (c : ℕ) (w w' : World)
      → IdsUnique w.db.otps
      → length (filter (pending content_id) w.db.otps) ≤ 1
      → confirm env content_id otp email_confirmation w ≡ (returned (ok c), w')
      → (again : String) (v : World) → v.db.otps ≡ w'.db.otps
      → (d : Detail) × (confirm env content_id again email_confirmation v
          ≡ (returned (err (d ∷ [])), v))
  confirm_once otp c w w' unique one h again v e =
      let (row, listed, passes, _, a) = confirm-Accepts env content_id otp c w w' h in
      let waits : pending content_id row ≡ true = ground (arith, a.unused) in
      confirm_none_pending env content_id again v (
        rw (e, a.claims)
          (claimed_none_pending content_id row (env.clock (w.readings + 1)) w.db.otps unique one
            listed waits a.won))

  -- The rows before the issue are all older than the new one, where they have its code and owner.
  older_rows :
      (w : World)
      → recent_rows content_id email_confirmation w ≡ []
      → All
          (λ x.
            coded (env.otp_code w.draws) content_id email_confirmation user x ≡ true
            → x.created_at < w.db_now)
          (burnt env content_id email_confirmation w)
  unfolding otp_cooldown_minutes
  older_rows w cool =
      All-map
        (λ x.
          coded (env.otp_code w.draws) content_id email_confirmation user x ≡ true
          → x.created_at < w.db_now)
        (λ r. if pending content_id r then burn (env.clock w.readings) r else r) w.db.otps
        (All-mono
          (λ x.
            (owned_by content_id user email_confirmation x && issued_since w.db_now 1 x) ≡ false)
          _ w.db.otps (λ x f p. ground arith) (filter-nil-All _ w.db.otps cool))

  -- The last row of the table, where it is the one that an issue makes, confirms its owner.
  issued_confirms :
      (target_value : String) (w v : World)
      → recent_rows content_id email_confirmation w ≡ []
      → v.db.otps
        ≡ burnt env content_id email_confirmation w
          ++ issued_row env content_id email_confirmation target_value w ∷ []
      → IdsUnique v.db.otps
      → env.clock v.readings ≤ env.clock w.readings + 900
      → env.clock (v.readings + 1) ≤ env.clock w.readings + 900
      → (confirm env content_id (env.otp_code w.draws) email_confirmation v).0
        ≡ returned (ok content_id)
  unfolding content_type_eq kind_eq otp_ttl_minutes
  issued_confirms target_value w v cool e unique first second =
      let row : OtpRow = issued_row env content_id email_confirmation target_value w in
      let now : ℕ = env.clock (v.readings + 1) in
      let found : env.otps.newest (λ r. r.created_at)
            (coded (env.otp_code w.draws) content_id email_confirmation user) v.db.otps
          ≡ some row =
        rw e (
          newest-insert env.otps (λ r. r.created_at)
            (coded (env.otp_code w.draws) content_id email_confirmation user)
            (burnt env content_id email_confirmation w) row
            (ground (arith, str_eq_iff (env.otp_code w.draws) (env.otp_code w.draws)))
            (older_rows w cool)) in
      let listed : Has row v.db.otps =
        rw e (Has-last (burnt env content_id email_confirmation w) row) in
      let mine : claimable row.id now row ≡ true = ground arith in
      rw (confirm_by_row env content_id (env.otp_code w.draws) row v found) (
        confirm_found_wins env row v refl refl first
          (claimable_once v.db.otps row now unique listed mine))

  -- A code that was issued in a unit of work, after the cooldown, with nothing pending and unique
  -- addresses, confirms its owner for as long as it lives: in every state that has the codes which
  -- that unit of work committed, their ids unique, up to 900 seconds after the issue.
  pub issue_then_confirm :
      (target_value : String) (w v : World)
      → recent_rows content_id email_confirmation w ≡ []
      → w.pending ≡ []
      → emails_unique w.db.users ≡ true
      → v.db.otps
        ≡ (within_uow env (issue env content_id email_confirmation target_value) w).1.saved.otps
      → IdsUnique v.db.otps
      → env.clock v.readings ≤ env.clock w.readings + 900
      → env.clock (v.readings + 1) ≤ env.clock w.readings + 900
      → (confirm env content_id (env.otp_code w.draws) email_confirmation v).0
        ≡ returned (ok content_id)
  issue_then_confirm target_value w v cool settled free e unique first second =
      let (_, saved, _) =
        issue_saved env content_id email_confirmation target_value w cool settled free in
      issued_confirms target_value w v cool (e ∙ saved) unique first second
