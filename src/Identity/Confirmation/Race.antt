-- ===== src/Identity/Confirmation/Race.antt =====
-- Two requests that claim the same code, one statement after the other.
use api_template.Base.{
  ℕ, ◌≡◌, refl, true, false, List, [], map, filter, length, arith, ◌==◌, if◌then◌else◌, Bool-cases,
  inl, inr,
}
use api_template.Kernel.Errors.{returned}
use api_template.Sql.{Has}
use api_template.Sql.Laws.{filter-map-nil, filter-Has, first_of_one}
use api_template.Identity.Data.{OtpRow}
use api_template.Identity.Session.{Env, World}
use api_template.Identity.OtpRepository.{claimable, claim, consume_by_id}
use api_template.Identity.Confirmation.Keys.{IdsUnique, IdsUnique-same}

module _ (id_ first second : ℕ) (rows : List OtpRow) where
  claimed_stays :
      (x y : OtpRow)
      → IdsUnique rows
      → Has x rows
      → Has y rows
      → claimable id_ first y ≡ true
      → claimable id_ second (if claimable id_ first x then claim first x else x) ≡ false
  claimed_stays x y unique hx hy won = elim (Bool-cases (x.id == id_)) [
    | inl e ↦
        let same : x ≡ y = IdsUnique-same rows x y unique hx hy (ground arith) in
        let mine : claimable id_ first x ≡ true = rw same won in rw mine (ground arith)
    | inr e ↦ ground arith
  ]

  claimed_none :
      IdsUnique rows
      → length (filter (claimable id_ first) rows) ≡ 1
      → filter
          (claimable id_ second)
          (map (λ r. if claimable id_ first r then claim first r else r) rows)
        ≡ []
  claimed_none unique one =
      let (y, hy) = first_of_one (filter (claimable id_ first) rows) one in
      let (cy, ly) = filter-Has (claimable id_ first) rows y hy in
      filter-map-nil (claimable id_ second) (claimable id_ first) (claim first) rows
        (λ x m. claimed_stays x y unique m ly cy)

module _ (env : Env) where
  -- Of two claims of one code, one after the other and whatever times they give, the second does
  -- not win where the first has: the ids of the table are unique.
  pub consume_race :
      (id_ first second : ℕ) (w w' : World)
      → IdsUnique w.db.otps
      → consume_by_id env id_ first w ≡ (returned true, w')
      → (consume_by_id env id_ second w').0 ≡ returned false
  unfolding consume_by_id
  consume_race id_ first second w w' unique h =
      let one : length (filter (claimable id_ first) w.db.otps) ≡ 1 =
        ground (arith, env.otps.rowcount_lem (claimable id_ first) w.db.otps) in
      let rows : w'.db.otps
          ≡ map (λ r. if claimable id_ first r then claim first r else r) w.db.otps =
        ground (arith, env.otps.update_lem (claimable id_ first) (claim first) w.db.otps) in
      rw (rows, env.otps.rowcount_lem, claimed_none id_ first second w.db.otps unique one) refl
