-- ===== src/Payments/Credits.antt =====
-- What `applyVerifiedTopUp` (src/wallet/payments.service.ts) does to the ledger.
use kilo_backend.Payments.Steps.{CreditStep, credit_plain-CreditStep, settle-CreditStep, worth}
use kilo_backend.Payments.Store.{Role, driver_role, other_role}
use kilo_backend.Payments.TopUps.{
  already_credited, credit_driver, credit_once, credit_plain, credit_rest, credit_user,
  settle_and_credit,
}
use kilo_backend.Prelude.{
  ap, arith, false, if◌then◌else◌, inl, inr, is_some, none, refl, true, ℕ, ◌∙◌, ◌≡◌, ◌≢◌, ◌⊎◌,
}
use kilo_backend.Prelude.Action.{
  Ensures, Ensures-bind, Ensures-if, Ensures-ok, Ensures-weaken, ok, skip,
}
use kilo_backend.Prelude.Int.{int_laws, ltb_ℤ, min_ℤ, pos, ℤ, ◌+ℤ◌, ◌-ℤ◌, ◌≤ℤ◌}
use kilo_backend.Prelude.Table.{find}
use kilo_backend.Wallet.Ledger.{
  Books, Reference, account_key, balance_of, credit_of, driver_commission_payable, owned,
  reference_key, rider_wallet, settle_of,
}
use kilo_backend.Wallet.Lookup.{with_user}
use kilo_backend.Wallet.Service.{settle_commission}

apart : (q : Reference) → credit_of q ≢ settle_of q
apart q e = ground arith

add_rest : (a b c d x p : ℤ) → d ≡ c +ℤ (x -ℤ p) → c ≡ b +ℤ p → b ≡ a → d ≡ a +ℤ x
add_rest a b c d x p h k l = grind int_laws

add_all :
    (a b c x p : ℤ)
    → c ≡ b +ℤ p
    → b ≡ a
    → ltb_ℤ (pos 0) (x -ℤ p) ≡ false
    → pos 0 ≤ℤ x -ℤ p
    → c ≡ a +ℤ x
add_all a b c x p h k none_left enough = grind int_laws

knows :
    (q : Reference) (s : Books)
    → (is_some (find (settle_of q) s.transactions) ≡ true)
      ⊎ (is_some (find (credit_of q) s.transactions) ≡ true)
    → already_credited q s ≡ true
unfolding already_credited
knows q s (inl h) = ground arith
knows q s (inr h) = ground arith

min_left : (debt x : ℤ) → pos 0 ≤ℤ x -ℤ min_ℤ debt x
min_left debt x = grind int_laws

-- A new top-up has been credited: what the user has is more by the amount, and the top-up is known.
record Credited (user : ℕ) (x : ℤ) (q : Reference) (s s' : Books) : Type 0 where
  raised : worth user s' ≡ worth user s +ℤ x
  known : already_credited q s' ≡ true

module _ (user : ℕ) (x : ℤ) (q : Reference) (s s₁ : Books) (same : worth user s₁ ≡ worth user s)
    (new : find q s₁.transactions ≡ none) (new_settle : find (settle_of q) s₁.transactions ≡ none)
    (new_credit : find (credit_of q) s₁.transactions ≡ none) where
  CreditedAt : Unit {0} → Books → Type 0
  CreditedAt _ s' = Credited user x q s s'

  plain-Credited : Ensures CreditedAt (credit_plain user x q s₁)
  unfolding already_credited CreditedAt
  plain-Credited =
      Ensures-weaken (λ _ s'. CreditStep user x q s₁ s') CreditedAt (credit_plain user x q s₁)
        (λ _ s' h. record { raised = cc (h.raised, same); known = rw h.recorded refl })
        (credit_plain-CreditStep user x q s₁ new)

  rest-Credited :
      (part : ℤ) (s₂ : Books)
      → CreditStep user part (settle_of q) s₁ s₂
      → pos 0 ≤ℤ x -ℤ part
      → Ensures CreditedAt (credit_rest user (x -ℤ part) q s₂)
  unfolding credit_rest CreditedAt
  rest-Credited part s₂ h enough =
      Ensures-if CreditedAt (ltb_ℤ (pos 0) (x -ℤ part))
        (credit_plain user (x -ℤ part) (credit_of q)) skip s₂
        (λ _.
          Ensures-weaken (λ _ s'. CreditStep user (x -ℤ part) (credit_of q) s₂ s') CreditedAt
            (credit_plain user (x -ℤ part) (credit_of q) s₂)
            (λ _ s' k. record {
              raised =
                  add_rest (worth user s) (worth user s₁) (worth user s₂) (worth user s') x part
                    k.raised h.raised same;
              known = knows q s' (inr k.recorded);
            })
            (credit_plain-CreditStep user (x -ℤ part) (credit_of q) s₂
              (h.others (credit_of q) (apart q) ∙ new_credit)))
        (λ none_left. record {
          raised =
              add_all (worth user s) (worth user s₁) (worth user s₂) x part h.raised same none_left
                enough;
          known = knows q s₂ (inl h.recorded);
        })

  split-Credited : (debt : ℤ) → Ensures CreditedAt (settle_and_credit user x debt q s₁)
  unfolding settle_and_credit
  split-Credited debt =
      let part : ℤ = min_ℤ debt x in
      Ensures-bind (λ _ s₂. CreditStep user part (settle_of q) s₁ s₂) CreditedAt
        (settle_commission user part (settle_of q)) (λ _. credit_rest user (x -ℤ part) q) s₁
        (settle-CreditStep user part (settle_of q) s₁ new_settle)
        (λ _ s₂ h. rest-Credited part s₂ h (min_left debt x))

  after_lookup :
      (debt : ℤ)
      → Ensures CreditedAt (
          (if ltb_ℤ (pos 0) debt then settle_and_credit user x debt q else credit_plain user x q)
            s₁)
  after_lookup debt =
      Ensures-if CreditedAt (ltb_ℤ (pos 0) debt) (settle_and_credit user x debt q)
        (credit_plain user x q) s₁ (λ _. split-Credited debt) (λ _. plain-Credited)

unknown_parts :
    (q : Reference) (s : Books)
    → already_credited q s ≡ false
    → (find q s.transactions ≡ none)
      × (find (settle_of q) s.transactions ≡ none)
      × (find (credit_of q) s.transactions ≡ none)
unfolding already_credited
unknown_parts q s h = (ground arith, ground arith, ground arith)

credit_user-Credited :
    (role : Role) (user : ℕ) (x : ℤ) (q : Reference) (s : Books)
    → already_credited q s ≡ false
    → Ensures (λ _ s'. Credited user x q s s') (credit_user role user x q s)
unfolding credit_user credit_driver CreditedAt
credit_user-Credited other_role user x q s fresh =
    let f = unknown_parts q s fresh in plain-Credited user x q s s refl f.0 f.1 f.2
credit_user-Credited driver_role user x q s fresh =
    let f = unknown_parts q s fresh in
    with_user (λ _ s'. Credited user x q s s') user driver_commission_payable _ s
      (λ s₁ g _.
        after_lookup user x q s s₁
          (cc (
            g.balances (owned user rider_wallet),
            g.balances (owned user driver_commission_payable),
          ))
          (ap (find q) g.transactions ∙ f.0) (ap (find (settle_of q)) g.transactions ∙ f.1)
          (ap (find (credit_of q)) g.transactions ∙ f.2)
          (balance_of (owned user driver_commission_payable) s.accounts))

-- What crediting a verified top-up has done.
pub record CreditedOnce (user : ℕ) (x : ℤ) (q : Reference) (s s' : Books) : Type 0 where
  pub first : already_credited q s ≡ false → worth user s' ≡ worth user s +ℤ x
  pub again : already_credited q s ≡ true → s' ≡ s
  pub repeated : (role : Role) (other : ℕ) (y : ℤ) → credit_once role other y q s' ≡ (ok tt, s')

repeats :
    (q : Reference) (s : Books)
    → already_credited q s ≡ true
    → (role : Role) (other : ℕ) (y : ℤ) → credit_once role other y q s ≡ (ok tt, s)
unfolding credit_once
repeats q s known role other y = rw known refl

pub credit_once_lem :
    (role : Role) (user : ℕ) (x : ℤ) (q : Reference) (s : Books)
    → Ensures (λ _ u. CreditedOnce user x q s u) (credit_once role user x q s)
unfolding credit_once
credit_once_lem role user x q s =
    Ensures-if (λ _ u. CreditedOnce user x q s u) (already_credited q s) skip
      (credit_user role user x q) s
      (λ known. record {
        first = λ new. absurd (ground (arith, known, new));
        again = λ _. refl;
        repeated = repeats q s known;
      })
      (λ new.
        Ensures-weaken (λ _ u. Credited user x q s u) (λ _ u. CreditedOnce user x q s u)
          (credit_user role user x q s)
          (λ _ u h. record {
            first = λ _. h.raised;
            again = λ known. absurd (ground (arith, known, new));
            repeated = repeats q u h.known;
          })
          (credit_user-Credited role user x q s new))

-- Where the ledger part of `applyVerifiedTopUp` returns: what the user has, the spendable balance less
-- the commission owed, is more by exactly the amount if the top-up was not credited before, however
-- it was split between the two; if it was, nothing has changed. Each later run for the same
-- reference, whatever its amount and user, changes nothing.
pub credit_once-CreditedOnce :
    (role : Role) (user : ℕ) (x : ℤ) (q : Reference) (s : Books) {s' : Books}
    → credit_once role user x q s ≡ (ok tt, s')
    → CreditedOnce user x q s s'
credit_once-CreditedOnce role user x q s e =
    Ensures-ok (λ _ u. CreditedOnce user x q s u) (credit_once_lem role user x q s) e
