-- ===== src/Identity/Passwords.antt =====
-- infra/services/password_service.py: hashing and checking passwords, over the bcrypt package.
use api_template.Base.{
  ℕ, String, Bool, true, false, ◌||◌, Option, none, some, ◌≡◌, refl, ltb, if◌then◌else◌,
  byte_length, starts_with, arith, not, Bool-cases, inl, inr,
}
use api_template.Kernel.Errors.{Outcome, returned, raised, value_error}

-- `_BCRYPT_MAX_BYTES`
abbrev pub bcrypt_max_bytes : ℕ
bcrypt_max_bytes = 72

-- `startswith(_BCRYPT_PREFIXES)`
unfoldable pub is_bcrypt_hash : String → Bool
is_bcrypt_hash h = starts_with h "$2b$" || (starts_with h "$2a$" || starts_with h "$2y$")

-- What is relied on in bcrypt, which is not code of this repository.
pub record Bcrypt : Type 0 where
  pub hashpw : (password salt : String) → String
  -- `none` where it raises ValueError
  pub checkpw : (password hashed : String) → Option Bool
  pub hashpw_prefix : (password salt : String) → is_bcrypt_hash (hashpw password salt) ≡ true
  pub checkpw_hashpw :
      (password salt : String) → checkpw password (hashpw password salt) ≡ some true

unfoldable pub to_bytes : String → Outcome String
to_bytes value =
    if ltb bcrypt_max_bytes (byte_length value) then raised value_error else returned value

-- `checkpw`, its ValueError caught.
unfoldable pub caught : Option Bool → Bool
caught none = false
caught (some b) = b

unfoldable pub needs_rehash : String → Bool
unfolding is_bcrypt_hash
needs_rehash hashed = not (is_bcrypt_hash hashed)

module _ (bcrypt : Bcrypt) where
  unfoldable pub hash_password : (password salt : String) → Outcome String
  unfolding to_bytes
  hash_password password salt = elim (to_bytes password) [
    | returned bytes ↦ returned (bcrypt.hashpw bytes salt)
    | raised e ↦ raised e
  ]

  unfoldable pub verify_password : (password hashed : String) → Bool
  unfolding to_bytes is_bcrypt_hash caught
  verify_password password hashed =
      if not (is_bcrypt_hash hashed) then false else elim (to_bytes password) [
        | returned bytes ↦ caught (bcrypt.checkpw bytes hashed)
        | raised e ↦ false
      ]

  -- What `hash_password` makes of a password verifies against that password, and needs no new hash.
  pub hash-verify :
      (password salt hashed : String)
      → hash_password password salt ≡ returned hashed
      → (verify_password password hashed ≡ true) × (needs_rehash hashed ≡ false)
  unfolding hash_password verify_password needs_rehash to_bytes caught
  hash-verify password salt hashed h = elim (Bool-cases (ltb 72 (byte_length password))) [
    | inl long ↦
        absurd (let g : raised value_error ≡ returned hashed = rw (long, hash_password) at h in cc)
    | inr short ↦
        let e : bcrypt.hashpw password salt ≡ hashed =
          let g : returned (bcrypt.hashpw password salt) ≡ returned hashed =
            rw (short, hash_password) at h in
          cc in
        let prefix : is_bcrypt_hash hashed ≡ true = rw (← e) (bcrypt.hashpw_prefix password salt) in
        let checks : bcrypt.checkpw password hashed ≡ some true =
          rw (← e) (bcrypt.checkpw_hashpw password salt) in
        ground arith
  ]

  -- A password of more than 72 bytes is refused, and verifies against nothing.
  pub hash_too_long :
      (password salt hashed : String)
      → ltb 72 (byte_length password) ≡ true
      → (hash_password password salt ≡ raised value_error)
        × (verify_password password hashed ≡ false)
  unfolding hash_password verify_password to_bytes caught
  hash_too_long password salt hashed long =
      (rw (long, hash_password) refl, rw (long, verify_password) (ground arith))
