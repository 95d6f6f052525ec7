-- ===== src/Accounts/Examples.antt =====
-- A code under attack and a token that is used twice (src/accounts/otp.service.ts), on small tables.
use kilo_backend.Accounts.OneTime.{Otps, claim, fresh_code, verify_code}
use kilo_backend.Accounts.OneTime.Burned.{
  all_codes_consumed, claimed_once, code_verified, serve_otps,
}
use kilo_backend.Accounts.OneTime.Guesses.{guess_all, locked_out}
use kilo_backend.Prelude.{List, [], arith, false, refl, ℕ, ℕ_discrete, ◌+◌, ◌<◌, ◌∷◌, ◌≡◌, ◌≢◌}
use kilo_backend.Prelude.Action.{err, forbidden, ok}
use kilo_backend.Prelude.Table.{number_key}

abbrev hash : ℕ → ℕ
hash x = x + 1000

-- User 4 has the code 42 for purpose 1.
abbrev one_code : Otps
one_code = (6, fresh_code 4 1 1042 600000) ∷ []

wrong : (g : ℕ) → g < 42 → 1042 ≢ hash g
wrong g h e = omega (arith, h, e)

-- Six guesses at different times, one of them when the code is over, and then the right code.
abbrev guesses : List (ℕ × ℕ)
guesses = (50, 1) ∷ (30050, 2) ∷ (60050, 3) ∷ (90050, 4) ∷ (600000, 5) ∷ (600001, 6) ∷ []

locked_out_example :
    verify_code hash 600002 4 1 42 (guess_all hash 4 1 guesses one_code)
    ≡ (err forbidden, guess_all hash 4 1 guesses one_code)
locked_out_example =
    locked_out hash 4 1 guesses 600002 42 6 (fresh_code 4 1 1042 600000) one_code refl
      (
        wrong 1 (omega arith),
        (
          wrong 2 (omega arith),
          (
            wrong 3 (omega arith),
            (wrong 4 (omega arith), (wrong 5 (omega arith), (wrong 6 (omega arith), tt))),
          ),
        ),
      )
      (ground arith)

claimed_once_example :
    (claim 70 6 (
      serve_otps hash
        (code_verified 60 4 1 42 ∷ all_codes_consumed 4 1 ∷ [])
        (claim 50 6 one_code).1)).0
    ≡ ok false
unfolding claim ℕ_discrete
claimed_once_example =
    claimed_once hash 50 70 6 (code_verified 60 4 1 42 ∷ all_codes_consumed 4 1 ∷ []) one_code refl
