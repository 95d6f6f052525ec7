-- ===== src/Payments/Webhooks.antt =====
-- A webhook of a top-up that is delivered again (src/wallet/payments.service.ts).
use kilo_backend.Payments.Closed.{Ended, TopUpClosed, complete_found-TopUpClosed}
use kilo_backend.Payments.Credits.{CreditedOnce, credit_once_lem}
use kilo_backend.Payments.Store.{
  Authorization, ChargeStatus, Payments, Role, TopUpRequest, VerifyTransactionResult,
  charge_abandoned, charge_failed, charge_reversed, charge_success, on_books, with_books,
}
use kilo_backend.Payments.TopUps.{
  apply_credit, apply_success, apply_verified_top_up, complete_found, complete_top_up_request,
  credit_once, fail_pending, is_pending, mark_top_up_failed,
}
use kilo_backend.Prelude.{
  Bool, Bool-cases, Option, [], ap, false, holds, if◌then◌else◌, inl, inr, none, refl, some, true,
  ℕ, ◌∙◌, ◌∷◌, ◌≡◌,
}
use kilo_backend.Prelude.Action.{
  Action, Ensures, Ensures-bind, Ensures-ok, Ensures-weaken, Result, err, ok,
}
use kilo_backend.Prelude.Table.{Table, find, number_key, same?, update_where}
use kilo_backend.Wallet.Ledger.{Books, Reference, reference_key}

-- A request that is ended stays as it is.
complete_ended :
    (new : ℕ) (q : Reference) (user : ℕ) (auth : Option Authorization) (s : Payments)
    (o : Option TopUpRequest)
    → Ended o
    → complete_found new q user auth o s ≡ (ok tt, s)
unfolding complete_found
complete_ended new q user auth s none h = refl
complete_ended new q user auth s (some r) h = rw h refl

-- What a second delivery finds.
record Settled (role : Role) (v : VerifyTransactionResult) (s : Payments) : Type 0 where
  credited : (user : ℕ) → credit_once role user v.amount v.reference s.books ≡ (ok tt, s.books)
  closed : Ended (find v.reference s.requests)

apply_credit_again :
    (new : ℕ) (v : VerifyTransactionResult) (user : ℕ) (role : Role) (s : Payments)
    → Settled role v s
    → apply_credit new v user (some role) s ≡ (ok tt, s)
unfolding apply_credit complete_top_up_request
apply_credit_again new v user role s h =
    rw (h.credited user)
      (complete_ended new v.reference user v.authorization s (find v.reference s.requests) h.closed)

on_books-Ensures :
    {A : Type 0} (P : A → Books → Type 0) (m : Action Books A) (s : Payments)
    → Ensures P (m s.books)
    → Ensures (λ a u. P a u.books × (u.users ≡ s.users)) (on_books m s)
on_books-Ensures {A = A} P m s h = go (m s.books) h
  where
    go :
        (r : Result A × Books)
        → Ensures P r
        → Ensures (λ a u. P a u.books × (u.users ≡ s.users)) (with_books s r)
    go (ok a, b) p = (p, refl)
    go (err e, b) p = tt

apply_credit-Settled :
    (new : ℕ) (v : VerifyTransactionResult) (user : ℕ) (role : Role) (s : Payments)
    → Ensures
        (λ _ s'. Settled role v s' × (s'.users ≡ s.users))
        (apply_credit new v user (some role) s)
unfolding apply_credit complete_top_up_request
apply_credit-Settled new v user role s =
    let Q : Unit {0} → Payments → Type 0 = λ _ s'. Settled role v s' × (s'.users ≡ s.users) in
    let P : Unit {0} → Books → Type 0 = λ _ b. CreditedOnce user v.amount v.reference s.books b in
    Ensures-bind (λ a u. P a u.books × (u.users ≡ s.users)) Q
      (on_books (credit_once role user v.amount v.reference))
      (λ _. complete_top_up_request new v.reference user v.authorization) s
      (on_books-Ensures P (credit_once role user v.amount v.reference) s
        (credit_once_lem role user v.amount v.reference s.books))
      (λ _ u h.
        Ensures-weaken (λ _ s'. TopUpClosed v.reference u s') Q
          (complete_found new v.reference user v.authorization (find v.reference u.requests) u)
          (λ _ s' f. (
            record {
              credited = λ other. rw f.same_books (h.0.repeated role other v.amount);
              closed = f.ended;
            },
            f.same_users ∙ h.1,
          ))
          (complete_found-TopUpClosed new v.reference user v.authorization u _ refl))

unfailed : (r : TopUpRequest) → is_pending r.status ≡ false → fail_pending r ≡ r
unfailed r e = rw e refl

-- Marking a pending request as failed twice is marking it once.
fail_fail : (r : TopUpRequest) → fail_pending (fail_pending r) ≡ fail_pending r
fail_fail r = elim (Bool-cases (is_pending r.status)) [
  | inl e ↦ rw e refl
  | inr e ↦ ap fail_pending (unfailed r e)
]

fail_once :
    (b : Bool) (r : TopUpRequest)
    → (if b
        then fail_pending (if b then fail_pending r else r)
        else (if b then fail_pending r else r))
      ≡ (if b then fail_pending r else r)
fail_once true r = fail_fail r
fail_once false r = refl

mark_again :
    (q : Reference) (t : Table Reference TopUpRequest)
    → update_where
        (λ k _. holds (same? q k))
        fail_pending
        (update_where (λ k _. holds (same? q k)) fail_pending t)
      ≡ update_where (λ k _. holds (same? q k)) fail_pending t
mark_again q [] = refl
mark_again q ((k, r) ∷ t) =
    let failed_rows : Table Reference TopUpRequest → Table Reference TopUpRequest =
      update_where (λ j _. holds (same? q j)) fail_pending in
    ap (λ x. (k, x) ∷ failed_rows (failed_rows t)) (fail_once (holds (same? q k)) r)
    ∙ ap (λ l. (k, if holds (same? q k) then fail_pending r else r) ∷ l) (mark_again q t)

Stays : ℕ → VerifyTransactionResult → ChargeStatus → Payments → Type 0
Stays later v status s' = apply_verified_top_up later v status s' ≡ (ok tt, s')

module _ (new later : ℕ) (v : VerifyTransactionResult) (s : Payments) where
  credit_again :
      (user : ℕ) (o : Option Role)
      → find user s.users ≡ o
      → Ensures
          (λ _ s'. apply_success later v (some user) s' ≡ (ok tt, s'))
          (apply_credit new v user o s)
  unfolding apply_success apply_credit
  credit_again user none e = rw e refl
  credit_again user (some role) e =
      Ensures-weaken (λ _ s'. Settled role v s' × (s'.users ≡ s.users))
        (λ _ s'. apply_success later v (some user) s' ≡ (ok tt, s'))
        (apply_credit new v user (some role) s)
        (λ _ s' h. rw (ap (find user) h.1 ∙ e) (apply_credit_again later v user role s' h.0))
        (apply_credit-Settled new v user role s)

  success_again :
      (o : Option ℕ)
      → Ensures (λ _ s'. apply_success later v o s' ≡ (ok tt, s')) (apply_success new v o s)
  unfolding apply_success
  success_again none = refl
  success_again (some user) = credit_again user (find user s.users) refl

  marked_again :
      Ensures
        (λ _ s'. mark_top_up_failed v.reference s' ≡ (ok tt, s'))
        (mark_top_up_failed v.reference s)
  unfolding mark_top_up_failed
  marked_again = ap (λ t. (ok tt, record s { requests = t })) (mark_again v.reference s.requests)

  again_lem :
      (status : ChargeStatus)
      → Ensures (λ _ s'. Stays later v status s') (apply_verified_top_up new v status s)
  unfolding apply_verified_top_up Stays
  again_lem charge_success = success_again v.user
  again_lem charge_failed = marked_again
  again_lem charge_reversed = marked_again
  again_lem charge_abandoned = refl

-- Where a verified top-up has been applied and the method returned, applying it again, as a second
-- delivery of the webhook or a status poll does, returns and changes nothing at all: no balance, no
-- request, no card, no notification.
pub apply_verified_top_up_again :
    (new later : ℕ) (v : VerifyTransactionResult) (status : ChargeStatus) (s : Payments)
    {s' : Payments}
    → apply_verified_top_up new v status s ≡ (ok tt, s')
    → apply_verified_top_up later v status s' ≡ (ok tt, s')
unfolding Stays
apply_verified_top_up_again new later v status s e =
    Ensures-ok (λ _ u. Stays later v status u) (again_lem new later v s status) e
