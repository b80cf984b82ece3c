-- ===== src/Identity/Confirmation/Keys.antt =====
-- The primary key of the table of codes: a claim by id matches at most one row.
use api_template.Base.{
  ℕ, ◌≡◌, ◌≢◌, refl, ap, sym, ◌∙◌, true, false, List, [], ◌∷◌, filter, length, All, All-mono, arith,
  inl, inr,
}
use api_template.Sql.{Has}
use api_template.Sql.Laws.{All-Has, filter-eq-nil}
use api_template.Identity.Data.{OtpRow}
use api_template.Identity.OtpRepository.{claimable}

abbrev pub IdsUnique : List OtpRow → Type 0
IdsUnique [] = Unit
IdsUnique (x ∷ t) = All (λ y. x.id ≢ y.id) t × IdsUnique t

pub IdsUnique-same :
    (t : List OtpRow) (a b : OtpRow) → IdsUnique t → Has a t → Has b t → a.id ≡ b.id → a ≡ b
IdsUnique-same [] a b u ha hb e = elim ha [ ]
IdsUnique-same (x ∷ t) a b u (inl p) (inl q) e = sym p ∙ q
IdsUnique-same (x ∷ t) a b u (inl p) (inr q) e =
    absurd (All-Has (λ y. x.id ≢ y.id) t b u.0 q (ap (λ (r : OtpRow). r.id) p ∙ e))
IdsUnique-same (x ∷ t) a b u (inr p) (inl q) e =
    absurd (All-Has (λ y. x.id ≢ y.id) t a u.0 p (ap (λ (r : OtpRow). r.id) q ∙ sym e))
IdsUnique-same (x ∷ t) a b u (inr p) (inr q) e = IdsUnique-same t a b u.1 p q e

-- A row that can be claimed is the only one that its claim matches.
pub claimable_once :
    (t : List OtpRow) (r : OtpRow) (now : ℕ)
    → IdsUnique t
    → Has r t
    → claimable r.id now r ≡ true
    → length (filter (claimable r.id now) t) ≡ 1
claimable_once [] r now u h e = elim h [ ]
claimable_once (x ∷ t) r now u (inl p) e =
    let here : claimable r.id now x ≡ true = rw p e in
    let others : filter (claimable r.id now) t ≡ [] =
      filter-eq-nil (claimable r.id now) t
        (All-mono (λ y. x.id ≢ y.id) (λ y. claimable r.id now y ≡ false) t (other_id p) u.0) in
    rw (here, others) refl
  where
    other_id : x ≡ r → (y : OtpRow) → x.id ≢ y.id → claimable r.id now y ≡ false
    other_id q y ne = ground (arith, ap (λ (z : OtpRow). z.id) q)
claimable_once (x ∷ t) r now u (inr p) e =
    let ne : x.id ≢ r.id = All-Has (λ y. x.id ≢ y.id) t r u.0 p in
    let there : claimable r.id now x ≡ false = ground arith in
    rw there (claimable_once t r now u.1 p e)
