-- ===== src/Accounts/OneTime/Burned.antt =====
-- A token is burned once (src/accounts/otp.service.ts), whatever is called in between.
use kilo_backend.Accounts.OneTime.{
  OtpCode, Otps, bump, can_burn, check_code, claim, consume, consume_all, create_code, fresh_code,
  generate_and_store, generate_and_store_token, is_live_for, newest, otp_max_attempts, otp_ttl,
  reset_token_ttl, verify_code,
}
use kilo_backend.Prelude.{
  Bool, Bool-cases, List, Option-cases, [], ap, arith, false, holds, if◌then◌else◌, inl, inr,
  is_some, leb, ltb, refl, some, true, ℕ, ◌&&◌, ◌+◌, ◌==◌, ◌∙◌, ◌∷◌, ◌≡◌,
}
use kilo_backend.Prelude.Action.{ok, pure, ◌>>◌}
use kilo_backend.Prelude.Table.{find, find-update_any, number_key, same?, update_where}
use mathlib.Core.Option

-- The calls of the service that write, with their arguments.
pub data OtpCall : Type 0 where
  code_generated : (now id user purpose code : ℕ) → OtpCall
  token_generated : (now id user purpose token : ℕ) → OtpCall
  code_verified : (now user purpose code : ℕ) → OtpCall
  token_claimed : (now id : ℕ) → OtpCall
  all_codes_consumed : (user purpose : ℕ) → OtpCall

module _ (hash_token : ℕ → ℕ) where
  unfoldable pub serve_otp : OtpCall → Otps → Otps
  unfolding generate_and_store generate_and_store_token verify_code claim consume_all
  serve_otp (code_generated now id user purpose code) t =
      (generate_and_store hash_token now id user purpose code t).1
  serve_otp (token_generated now id user purpose token) t =
      (generate_and_store_token hash_token now id user purpose token t).1
  serve_otp (code_verified now user purpose code) t =
      (verify_code hash_token now user purpose code t).1
  serve_otp (token_claimed now id) t = (claim now id t).1
  serve_otp (all_codes_consumed user purpose) t = (consume_all user purpose t).1

  unfoldable pub serve_otps : List OtpCall → Otps → Otps
  unfolding serve_otp
  serve_otps [] t = t
  serve_otps (c ∷ cs) t = serve_otps cs (serve_otp c t)

-- The row of this id is burned.
pub IsBurned : ℕ → Otps → Type 0
IsBurned id t = (o : OtpCode) × (find id t ≡ some o) × (o.consumed ≡ true)

update_keeps :
    (id : ℕ) (q : ℕ → OtpCode → Bool) (f : OtpCode → OtpCode) (t : Otps)
    → ((o : OtpCode) → o.consumed ≡ true → (f o).consumed ≡ true)
    → IsBurned id t
    → IsBurned id (update_where q f t)
unfolding IsBurned
update_keeps id q f t keeps (o, at, burned) = (
  if q id o then f o else o,
  find-update_any id q f t ∙ ap (Option.map (λ v. if q id v then f v else v)) at,
  elim (Bool-cases (q id o)) [ inl e ↦ rw e (keeps o burned) | inr e ↦ rw e burned ],
)

create_keeps :
    (id new code : ℕ) (o : OtpCode) (t : Otps)
    → IsBurned id t
    → IsBurned id ((create_code new o >> pure code) t).1
unfolding IsBurned
create_keeps id new code o t b = elim (Bool-cases (is_some (find new t))) [
  | inl e ↦ rw e b
  | inr e ↦ rw e (b.0, ground (arith, b.1, e), b.2)
]

module _ (hash_token : ℕ → ℕ) where
  check_keeps :
      (now code id : ℕ) (row : ℕ × OtpCode) (t : Otps)
      → IsBurned id t
      → IsBurned id (check_code hash_token now code row t).1
  unfolding check_code
  check_keeps now code id (k, o) t b = elim (Bool-cases (leb otp_max_attempts o.attempts)) [
    | inl e ↦ rw e b
    | inr e ↦ elim (Bool-cases (ltb o.expires_at now)) [
      | inl l ↦ rw (e, l) b
      | inr l ↦ elim (Bool-cases (o.code_hash == hash_token code)) [
        | inl m ↦
            rw (e, l, m) (update_keeps id (λ j _. holds (same? k j)) consume t (λ _ _. refl) b)
        | inr m ↦ rw (e, l, m) (update_keeps id (λ j _. holds (same? k j)) bump t (λ _ c. c) b)
      ]
    ]
  ]

  verify_keeps :
      (now user purpose code id : ℕ) (t : Otps)
      → IsBurned id t
      → IsBurned id (verify_code hash_token now user purpose code t).1
  unfolding verify_code
  verify_keeps now user purpose code id t b =
      elim (Option-cases (newest (is_live_for user purpose) t)) [
        | inl e ↦ rw e b
        | inr row ↦ rw row.1 (check_keeps now code id row.0 t b)
      ]

  serve-IsBurned :
      (c : OtpCall) (id : ℕ) (t : Otps) → IsBurned id t → IsBurned id (serve_otp hash_token c t)
  unfolding serve_otp generate_and_store generate_and_store_token claim consume_all
  serve-IsBurned (code_generated now new user purpose code) id t b =
      create_keeps id new code (fresh_code user purpose (hash_token code) (now + otp_ttl)) t b
  serve-IsBurned (token_generated now new user purpose token) id t b =
      create_keeps id new token (fresh_code user purpose (hash_token token) (now + reset_token_ttl))
        t b
  serve-IsBurned (code_verified now user purpose code) id t b =
      verify_keeps now user purpose code id t b
  serve-IsBurned (token_claimed now k) id t b =
      update_keeps id (λ j o. holds (same? k j) && can_burn now (some o)) consume t (λ _ _. refl) b
  serve-IsBurned (all_codes_consumed user purpose) id t b =
      update_keeps id (λ _ o. is_live_for user purpose o) consume t (λ _ _. refl) b

  serve_all-IsBurned :
      (cs : List OtpCall) (id : ℕ) (t : Otps)
      → IsBurned id t
      → IsBurned id (serve_otps hash_token cs t)
  unfolding serve_otps
  serve_all-IsBurned [] id t b = b
  serve_all-IsBurned (c ∷ cs) id t b =
      serve_all-IsBurned cs id (serve_otp hash_token c t) (serve-IsBurned c id t b)

claim_burns :
    (now id : ℕ) (t : Otps) → (claim now id t).0 ≡ ok true → IsBurned id (claim now id t).1
unfolding claim IsBurned
claim_burns now id t h = elim (Option-cases (find id t)) [
  | inl e ↦ absurd (ground (arith, h, e))
  | inr row ↦ (
    consume row.0,
    find-update_any id (λ k o. holds (same? id k) && can_burn now (some o)) consume t
        ∙ ground (arith, h, row.1),
    refl,
  )
]

burned_refuses : (now id : ℕ) (t : Otps) → IsBurned id t → (claim now id t).0 ≡ ok false
unfolding claim IsBurned
burned_refuses now id t (o, at, burned) = rw at (ground (arith, burned))

-- Once a claim of a token has changed its row, no later claim of it does, at any time and whatever
-- calls of the service come in between: of two requests with one link at most one goes on.
pub claimed_once :
    (hash_token : ℕ → ℕ) (now later id : ℕ) (calls : List OtpCall) (t : Otps)
    → (claim now id t).0 ≡ ok true
    → (claim later id (serve_otps hash_token calls (claim now id t).1)).0 ≡ ok false
claimed_once hash_token now later id calls t h =
    burned_refuses later id (serve_otps hash_token calls (claim now id t).1)
      (serve_all-IsBurned hash_token calls id (claim now id t).1 (claim_burns now id t h))
