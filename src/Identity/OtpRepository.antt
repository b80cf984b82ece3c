-- ===== src/Identity/OtpRepository.antt =====
-- data_access/orm/identity/repositories/otp_orm_repository.py: the one-time codes of the database.
use api_template.Base.{
  ℕ, ◌+◌, ◌*◌, String, str_eq, Bool, true, false, ◌&&◌, Option, none, some, List, [], ◌∷◌, ◌++◌,
  ◌==◌, leb, is_none,
}
use api_template.Kernel.Errors.{returned, raised, multiple_results_found}
use api_template.Identity.Data.{OtpKind, ContentType, OtpRow, kind_eq, content_type_eq}
use api_template.Identity.Session.{Env, World, add_otp, Action, ◌>>=◌, modify, uuid7}

-- `OtpCreateDTO`
pub record OtpCreateDto : Type 0 where
  pub otp : String
  pub content_id : ℕ
  pub content_type : ContentType
  pub kind : OtpKind
  pub expires_at : ℕ
  pub target_value : String
  pub verified : Bool

-- `OTPDetailedDTO`
pub record OtpDetailedDto : Type 0 where
  pub id : ℕ
  pub otp : String
  pub content_id : ℕ
  pub expires_at : ℕ
  pub target_value : String
  pub verified : Bool
  pub used_at : Option ℕ

unfoldable pub to_detailed : OtpRow → OtpDetailedDto
to_detailed row = record {
  id = row.id;
  otp = row.otp;
  content_id = row.content_id;
  expires_at = row.expires_at;
  target_value = row.target_value;
  verified = row.verified;
  used_at = row.used_at;
}

-- The WHERE clauses. A comparison with NULL holds of no row; here only `used_at` can be NULL.
abbrev pub owned_by : ℕ → ContentType → OtpKind → OtpRow → Bool
owned_by content_id content_type kind row =
    row.content_id == content_id
    && (content_type_eq row.content_type content_type && kind_eq row.kind kind)

abbrev pub coded : String → ℕ → OtpKind → ContentType → OtpRow → Bool
coded otp content_id kind content_type row =
    str_eq row.otp otp && owned_by content_id content_type kind row

abbrev pub claimable : ℕ → ℕ → OtpRow → Bool
claimable id_ now_epoch row = row.id == id_ && (is_none row.used_at && leb now_epoch row.expires_at)

-- `created_at >= now() - interval`, the interval on the other side: a number stops at 0.
abbrev pub issued_since : ℕ → ℕ → OtpRow → Bool
issued_since now minutes row = leb now (row.created_at + minutes * 60_000_000)

abbrev pub pending_for : ℕ → ContentType → OtpKind → OtpRow → Bool
pending_for content_id content_type kind row =
    owned_by content_id content_type kind row && is_none row.used_at

-- The SET clauses.
abbrev pub claim : ℕ → OtpRow → OtpRow
claim now_epoch row = record row { used_at = some now_epoch; verified = true }

abbrev pub burn : ℕ → OtpRow → OtpRow
burn now_epoch row = record row { used_at = some now_epoch }

abbrev pub set_otps : List OtpRow → World → World
set_otps rows w = record w { db = record w.db { otps = rows } }

-- `one_or_none()`
unfoldable pub one_or_none : List OtpRow → Action (Option OtpDetailedDto)
unfolding to_detailed
one_or_none [] w = (returned none, w)
one_or_none (row ∷ []) w = (returned (some (to_detailed row)), w)
one_or_none (row ∷ other ∷ rows) w = (raised multiple_results_found, w)

module _ (env : Env) where
  unfoldable pub create : OtpCreateDto → Action (Unit {0})
  unfolding uuid7
  create dto = do
    id ← uuid7 env
    modify λ w. record w {
      pending =
          w.pending
          ++ add_otp (record {
            id = id;
            otp = dto.otp;
            content_id = dto.content_id;
            content_type = dto.content_type;
            kind = dto.kind;
            used_at = none;
            expires_at = dto.expires_at;
            target_value = dto.target_value;
            verified = dto.verified;
            created_at = w.db_now;
          })
            ∷ [];
    }

  unfoldable pub find_active_by_otp :
      String → OtpKind → ContentType → Action (Option OtpDetailedDto)
  unfolding one_or_none
  find_active_by_otp otp kind content_type w =
      one_or_none
        (env.otps.select
          (λ row.
            str_eq row.otp otp
            && (kind_eq row.kind kind && content_type_eq row.content_type content_type))
          w.db.otps)
        w

  unfoldable pub find_active_for_content :
      String → ℕ → OtpKind → ContentType → Action (Option OtpDetailedDto)
  unfolding to_detailed
  find_active_for_content otp content_id kind content_type w = (
    returned
        (elim (env.otps.newest (λ row. row.created_at) (coded otp content_id kind content_type)
          w.db.otps) [ none ↦ none | some row ↦ some (to_detailed row) ]),
    w,
  )

  unfoldable pub consume_by_id : ℕ → ℕ → Action Bool
  consume_by_id id_ now_epoch w =
      let rows = w.db.otps in
      (
        returned (env.otps.rowcount (claimable id_ now_epoch) rows == 1),
        set_otps (env.otps.update (claimable id_ now_epoch) (claim now_epoch) rows) w,
      )

  unfoldable pub has_recent_issue : ℕ → ContentType → OtpKind → ℕ → Action Bool
  has_recent_issue content_id content_type kind cooldown_minutes w = (
    returned
        (elim (env.otps.select
          (λ row.
            owned_by content_id content_type kind row && issued_since w.db_now cooldown_minutes row)
          w.db.otps) [ [] ↦ false | row ∷ rows ↦ true ]),
    w,
  )

  unfoldable pub invalidate_pending : ℕ → ContentType → OtpKind → ℕ → Action (Unit {0})
  invalidate_pending content_id content_type kind now_epoch w = (
    returned tt,
    set_otps (env.otps.update (pending_for content_id content_type kind) (burn now_epoch) w.db.otps)
        w,
  )
