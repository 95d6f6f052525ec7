-- ===== src/Accounts/OneTime/Guesses.antt =====
-- How many guesses a one-time code stands (src/accounts/otp.service.ts).
use kilo_backend.Accounts.OneTime.{
  OtpCode, Otps, bump, check_code, is_live_for, newest, verify_code,
}
use kilo_backend.Prelude.{
  Bool, Bool-cases, List, [], ap, arith, false, holds, if◌then◌else◌, inl, inr, leb, ltb, refl,
  some, suc, true, ℕ, ◌+◌, ◌==◌, ◌||◌, ◌∙◌, ◌∷◌, ◌≡◌, ◌≢◌, ◌≤◌,
}
use kilo_backend.Prelude.Action.{err, forbidden, go_on, or_throw}
use kilo_backend.Prelude.Lists.{All, keep, length}
use kilo_backend.Prelude.Table.{number_key, same?, update_where}
use mathlib.Core.Option

module _ (p : OtpCode → Bool) (q : ℕ → OtpCode → Bool) (f : OtpCode → OtpCode) where
  abbrev changed : ℕ × OtpCode → ℕ × OtpCode
  changed (k, o) = (k, if q k o then f o else o)

  -- A change that the test does not see leaves the newest row where it is.
  newest-update_where :
      ((o : OtpCode) → p (f o) ≡ p o)
      → (t : Otps) → newest p (update_where q f t) ≡ Option.map changed (newest p t)
  newest-update_where keeps [] = refl
  newest-update_where keeps ((k, o) ∷ t) = ground (arith, newest-update_where keeps t, keeps o)

module _ (hash_token : ℕ → ℕ) (user purpose : ℕ) where
  -- Guesses one after another, each at its own time; their answers are dropped.
  unfoldable pub guess_all : List (ℕ × ℕ) → Otps → Otps
  unfolding verify_code
  guess_all [] t = t
  guess_all ((now, g) ∷ gs) t = guess_all gs (verify_code hash_token now user purpose g t).1

  after_bump :
      (id : ℕ) (o : OtpCode) (t : Otps)
      → newest (is_live_for user purpose) t ≡ some (id, o)
      → newest (is_live_for user purpose) (update_where (λ k _. holds (same? id k)) bump t)
        ≡ some (id, bump o)
  after_bump id o t at =
      newest-update_where (is_live_for user purpose) (λ k _. holds (same? id k)) bump (λ r. refl) t
      ∙ ap (Option.map (changed (is_live_for user purpose) (λ k _. holds (same? id k)) bump)) at
      ∙ ground arith

  -- A wrong guess in time is counted, unless the code is locked.
  counted_guess :
      (now id g : ℕ) (o : OtpCode) (t : Otps)
      → newest (is_live_for user purpose) t ≡ some (id, o)
      → o.code_hash ≢ hash_token g
      → newest (is_live_for user purpose) (check_code hash_token now g (id, o) t).1
        ≡ some (id, if leb 5 o.attempts || ltb o.expires_at now then o else bump o)
  unfolding check_code
  counted_guess now id g o t at wrong =
      let no_match : o.code_hash == hash_token g ≡ false = ground (arith, wrong) in
      elim (Bool-cases (leb 5 o.attempts)) [
        | inl e ↦ rw e at
        | inr e ↦ elim (Bool-cases (ltb o.expires_at now)) [
          | inl late ↦ rw (e, late) at
          | inr in_time ↦ rw (e, in_time, no_match) (after_bump id o t at)
        ]
      ]

  guessed :
      (now id g : ℕ) (o : OtpCode) (t : Otps)
      → newest (is_live_for user purpose) t ≡ some (id, o)
      → o.code_hash ≢ hash_token g
      → newest (is_live_for user purpose) (verify_code hash_token now user purpose g t).1
        ≡ some (id, if leb 5 o.attempts || ltb o.expires_at now then o else bump o)
  unfolding verify_code
  guessed now id g o t at wrong = rw at (counted_guess now id g o t at wrong)

  all_guessed :
      (guesses : List (ℕ × ℕ)) (id : ℕ) (o : OtpCode) (t : Otps)
      → newest (is_live_for user purpose) t ≡ some (id, o)
      → All (λ g. o.code_hash ≢ hash_token g.1) guesses
      → 5 ≤ o.attempts + length (keep (λ g. leb g.0 o.expires_at) guesses)
      → (o' : OtpCode) × (newest (is_live_for user purpose) (guess_all guesses t) ≡ some (id, o'))
        × (5 ≤ o'.attempts)
  unfolding guess_all
  all_guessed [] id o t at wrong enough = (o, at, omega (arith, enough))
  all_guessed ((now, g) ∷ gs) id o t at wrong enough = elim (Bool-cases (leb 5 o.attempts)) [
    | inl e ↦
        all_guessed gs id o (verify_code hash_token now user purpose g t).1
          (guessed now id g o t at wrong.0 ∙ rw e refl) wrong.1 (ground (arith, e))
    | inr e ↦ elim (Bool-cases (leb now o.expires_at)) [
      | inl early ↦
          let in_time : ltb o.expires_at now ≡ false = ground (arith, early) in
          let one_more : 5 ≤ o.attempts + suc (length (keep (λ x. leb x.0 o.expires_at) gs)) =
            rw early at enough in
          all_guessed gs id (bump o) (verify_code hash_token now user purpose g t).1
            (guessed now id g o t at wrong.0 ∙ rw (e, in_time) refl) wrong.1
            (omega (arith, one_more))
      | inr over ↦
          let late : ltb o.expires_at now ≡ true = ground (arith, over) in
          all_guessed gs id o (verify_code hash_token now user purpose g t).1
            (guessed now id g o t at wrong.0 ∙ rw (e, late) refl) wrong.1 (rw over at enough)
    ]
  ]

  -- After wrong guesses at any times, of which those made before the newest live code is over
  -- bring it to five attempts, every code is refused as forbidden at any time, the right one too,
  -- and nothing changes.
  pub locked_out :
      (guesses : List (ℕ × ℕ)) (now code id : ℕ) (o : OtpCode) (t : Otps)
      → newest (is_live_for user purpose) t ≡ some (id, o)
      → All (λ g. o.code_hash ≢ hash_token g.1) guesses
      → 5 ≤ o.attempts + length (keep (λ g. leb g.0 o.expires_at) guesses)
      → verify_code hash_token now user purpose code (guess_all guesses t)
        ≡ (err forbidden, guess_all guesses t)
  unfolding verify_code check_code
  locked_out guesses now code id o t at wrong enough =
      let row = all_guessed guesses id o t at wrong enough in
      let locked : leb 5 row.0.attempts ≡ true = ground (arith, row.2) in
      rw (row.1, or_throw, go_on, locked) refl
