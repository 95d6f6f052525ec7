-- ===== src/Accounts/OneTime.antt =====
-- OtpService (src/accounts/otp.service.ts). A code or a token is a number, and so is its hash; the random
-- code and the id of the new row are arguments. The newest row stands first.
pub mod Guesses
pub mod Burned
use kilo_backend.Prelude.{
  Bool, Option, [], false, holds, if◌then◌else◌, is_some, leb, ltb, none, not, some, true, ℕ, ◌&&◌,
  ◌+◌, ◌==◌, ◌∷◌,
}
use kilo_backend.Prelude.Action.{
  Action, forbidden, gets, modify, ok, or_throw, pure, throw, throw_if, unauthorized,
  unique_violation, ◌>>=◌, ◌>>◌,
}
use kilo_backend.Prelude.Table.{Table, find, number_key, same?, update_where}

pub record OtpCode : Type 0 where
  pub user : ℕ
  pub purpose : ℕ
  pub code_hash : ℕ
  pub attempts : ℕ
  pub consumed : Bool
  pub expires_at : ℕ

abbrev pub Otps : Type 0
Otps = Table ℕ OtpCode

abbrev pub otp_ttl : ℕ
otp_ttl = 600000

abbrev pub reset_token_ttl : ℕ
reset_token_ttl = 1800000

abbrev pub otp_max_attempts : ℕ
otp_max_attempts = 5

-- `otpCode.create`
abbrev pub create_code : ℕ → OtpCode → Action Otps (Unit {0})
create_code id o = do
  taken ← gets (λ t. is_some (find id t))
  throw_if taken unique_violation
  modify (λ t. (id, o) ∷ t)

abbrev pub fresh_code : ℕ → ℕ → ℕ → ℕ → OtpCode
fresh_code user purpose hash expiry = record {
  user = user;
  purpose = purpose;
  code_hash = hash;
  attempts = 0;
  consumed = false;
  expires_at = expiry;
}

-- `findFirst` in the order of creation, newest first
abbrev pub newest : (OtpCode → Bool) → Otps → Option (ℕ × OtpCode)
newest p [] = none
newest p ((id, o) ∷ t) = if p o then some (id, o) else newest p t

abbrev pub is_live_for : ℕ → ℕ → OtpCode → Bool
is_live_for user purpose o = (o.user == user) && (o.purpose == purpose) && not o.consumed

abbrev pub bump : OtpCode → OtpCode
bump o = record o { attempts = o.attempts + 1 }

abbrev pub consume : OtpCode → OtpCode
consume o = record o { consumed = true }

-- `otpCode.update` on one id
abbrev pub update_code : ℕ → (OtpCode → OtpCode) → Action Otps (Unit {0})
update_code id f = modify (λ t. update_where (λ k _. holds (same? id k)) f t)

abbrev pub can_burn : ℕ → Option OtpCode → Bool
can_burn now none = false
can_burn now (some o) = not o.consumed && ltb now o.expires_at

-- `hash_token` is what SHA-256 makes of a code or a token.
module _ (hash_token : ℕ → ℕ) where
  unfoldable pub generate_and_store : ℕ → ℕ → ℕ → ℕ → ℕ → Action Otps ℕ
  generate_and_store now id user purpose code = do
    create_code id (fresh_code user purpose (hash_token code) (now + otp_ttl))
    pure code

  unfoldable pub generate_and_store_token : ℕ → ℕ → ℕ → ℕ → ℕ → Action Otps ℕ
  generate_and_store_token now id user purpose token = do
    create_code id (fresh_code user purpose (hash_token token) (now + reset_token_ttl))
    pure token

  abbrev pub wrong_code : ℕ → Action Otps (Unit {0})
  wrong_code id = do update_code id bump; throw unauthorized

  unfoldable pub check_code : ℕ → ℕ → ℕ × OtpCode → Action Otps (Unit {0})
  check_code now code (id, o) = do
    throw_if (leb otp_max_attempts o.attempts) forbidden
    throw_if (ltb o.expires_at now) unauthorized
    if o.code_hash == hash_token code then update_code id consume else wrong_code id

  unfoldable pub verify_code : ℕ → ℕ → ℕ → ℕ → Action Otps (Unit {0})
  unfolding check_code
  verify_code now user purpose code = do
    found ← gets (newest (is_live_for user purpose))
    row ← or_throw unauthorized found
    check_code now code row

  -- The token's row and user, where it is live.
  unfoldable pub live_token : ℕ → Option (ℕ × OtpCode) → Option (ℕ × ℕ)
  live_token now none = none
  live_token now (some (id, o)) = if ltb o.expires_at now then none else some (id, o.user)

  unfoldable pub find_live_token : ℕ → ℕ → ℕ → Action Otps (Option (ℕ × ℕ))
  unfolding live_token
  find_live_token now purpose token = gets (λ t. live_token now (
      newest (λ o. (o.purpose == purpose) && (o.code_hash == hash_token token) && not o.consumed)
        t))

-- The guarded `otpCode.updateMany`: whether it has changed a row.
unfoldable pub claim : ℕ → ℕ → Action Otps Bool
claim now id t = (
  ok (can_burn now (find id t)),
  update_where (λ k o. holds (same? id k) && can_burn now (some o)) consume t,
)

unfoldable pub consume_all : ℕ → ℕ → Action Otps (Unit {0})
consume_all user purpose = modify (update_where (λ _ o. is_live_for user purpose o) consume)
