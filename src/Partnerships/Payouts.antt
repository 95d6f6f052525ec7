-- ===== src/Partnerships/Payouts.antt =====
-- A run of the payouts pays each qualified redemption, and the next one pays none
-- (src/partnerships/referrals.service.ts).
use kilo_backend.Partnerships.Referrals.{
  Redemption, Referrals, is_qualified, keep_wallet, paid_out, pay_each, pay_one, process_payouts,
  wallet_type,
}
use kilo_backend.Prelude.{
  Bool, Bool-cases, List, [], ap, arith, false, holds, if◌then◌else◌, inl, inr, map, refl, sym,
  true, ℕ, ◌+◌, ◌==◌, ◌∙◌, ◌∷◌, ◌≡◌,
}
use kilo_backend.Prelude.Action.{
  Action, Ensures, Ensures-bind, Ensures-ok, Ensures-weaken, Result, err, go_on, modify, ok,
}
use kilo_backend.Prelude.Int.{pos}
use kilo_backend.Prelude.Lists.{All, All-map, keep, length, some_of}
use kilo_backend.Prelude.Table.{Table, number_key, same?, update_where}
use kilo_backend.Wallet.Ledger.{Books, Reference, Transaction, for_payout}
use kilo_backend.Wallet.Service.{pay_referral_payout}
use mathlib.Core.Path.{subst}

-- The rows that are qualified are among these ids.
DueIn : List ℕ → Table ℕ Redemption → Type 0
DueIn ids t = All (λ row. is_qualified row.1 ≡ true → some_of (λ j. j == row.0) ids ≡ true) t

abbrev ids_of : List (ℕ × Redemption) → List ℕ
ids_of l = map (λ x. x.0) l

-- A row without its status and its payment.
abbrev pub terms : ℕ × Redemption → ℕ × ℕ × ℕ × ℕ
terms (id, r) = (id, r.referrer, r.referred, r.earnings)

update_terms :
    (id : ℕ) (tx : Reference) (t : Table ℕ Redemption)
    → map terms (update_where (λ k _. holds (same? id k)) (paid_out tx) t) ≡ map terms t
update_terms id tx [] = refl
update_terms id tx ((k, r) ∷ t) = elim (Bool-cases (holds (same? id k))) [
  | inl e ↦ rw e (ap (λ l. terms (k, r) ∷ l) (update_terms id tx t))
  | inr e ↦ rw e (ap (λ l. terms (k, r) ∷ l) (update_terms id tx t))
]

left_after :
    (id : ℕ) (ids : List ℕ) (tx : Reference) (t : Table ℕ Redemption)
    → DueIn (id ∷ ids) t
    → DueIn ids (update_where (λ k _. holds (same? id k)) (paid_out tx) t)
unfolding DueIn
left_after id ids tx [] h = tt
left_after id ids tx ((k, r) ∷ t) h = (go (same? id k), left_after id ids tx t h.1)
  where
    go :
        (e : Dec (id ≡ k))
        → is_qualified (if holds e then paid_out tx r else r) ≡ true
        → some_of (λ j. j == k) ids ≡ true
    go (yes e) q = absurd (ground (arith, q))
    go (no n) q = ground (arith, h.0 q, n)

-- More ids leave nothing out.
left_more : (id : ℕ) (ids : List ℕ) (t : Table ℕ Redemption) → DueIn ids t → DueIn (id ∷ ids) t
unfolding DueIn
left_more id ids t h =
    All-map (λ row. is_qualified row.1 ≡ true → some_of (λ j. j == row.0) ids ≡ true)
      (λ row. is_qualified row.1 ≡ true → some_of (λ j. j == row.0) (id ∷ ids) ≡ true) t
      (λ row m q. ground (arith, m q)) h

left_cons :
    (b : Bool) (k : ℕ) (r : Redemption) (l : List (ℕ × Redemption)) (t : Table ℕ Redemption)
    → is_qualified r ≡ b
    → DueIn (ids_of l) t
    → DueIn (ids_of (if b then (k, r) ∷ l else l)) ((k, r) ∷ t)
unfolding DueIn
left_cons true k r l t e h = (λ _. ground arith, left_more k (ids_of l) t h)
left_cons false k r l t e h = (λ q. absurd (ground (arith, q, e)), h)

left_first : (t : Table ℕ Redemption) → DueIn (ids_of (keep (λ x. is_qualified x.1) t)) t
unfolding DueIn
left_first [] = tt
left_first ((k, r) ∷ t) =
    left_cons (is_qualified r) k r (keep (λ x. is_qualified x.1) t) t refl (left_first t)

none_left : (t : Table ℕ Redemption) → DueIn [] t → keep (λ x. is_qualified x.1) t ≡ []
unfolding DueIn
none_left [] h = refl
none_left ((k, r) ∷ t) h = elim (Bool-cases (is_qualified r)) [
  | inl e ↦ absurd (ground (arith, h.0 e))
  | inr e ↦ rw e (none_left t h.1)
]

-- What a run of the payouts leaves.
pub record PaidOut (count : ℕ) (s s' : Referrals) : Type 0 where
  pub counted : count ≡ length (keep (λ x. is_qualified x.1) s.redemption_rows)
  pub none_qualified : keep (λ x. is_qualified x.1) s'.redemption_rows ≡ []
  pub same_terms : map terms s'.redemption_rows ≡ map terms s.redemption_rows
  pub same_codes : s'.codes ≡ s.codes

-- What the rest of the loop leaves, with its count.
Run : ℕ → List (ℕ × Redemption) → Referrals → ℕ → Referrals → Type 0
Run count l s n s' =
    (n ≡ count + length l)
    × DueIn [] s'.redemption_rows
    × (map terms s'.redemption_rows ≡ map terms s.redemption_rows)
    × (s'.codes ≡ s.codes)

-- One payment: its row is among the ids no more.
Paid : ℕ → Referrals → Unit {0} → Referrals → Type 0
Paid id s _ u =
    (tx : Reference) × (u.redemption_rows
      ≡ update_where (λ k _. holds (same? id k)) (paid_out tx) s.redemption_rows)
    × (u.codes ≡ s.codes)

pay_one_lem : (id : ℕ) (r : Redemption) (s : Referrals) → Ensures (Paid id s) (pay_one (id, r) s)
unfolding pay_one Paid
pay_one_lem id r s = go (
    pay_referral_payout r.referrer (wallet_type (s.is_driver r.referrer)) (pos r.earnings)
      (for_payout id) s.books)
  where
    rest : Reference × Transaction → Action Referrals (Unit {0})
    rest tx = modify (λ u. record u {
      redemption_rows = update_where (λ k _. holds (same? id k)) (paid_out tx.0) u.redemption_rows;
    })

    go :
        (x : Result (Reference × Transaction) × Books)
        → Ensures (Paid id s) (go_on rest (keep_wallet s x))
    go (ok tx, b) = (tx.0, refl, refl)
    go (err e, b) = tt

pay_each_lem :
    (count : ℕ) (l : List (ℕ × Redemption)) (s : Referrals)
    → DueIn (ids_of l) s.redemption_rows
    → Ensures (Run count l s) (pay_each count l s)
unfolding pay_each Run Paid
pay_each_lem count [] s h = (omega arith, h, refl, refl)
pay_each_lem count ((id, r) ∷ l) s h =
    Ensures-bind (Paid id s) (Run count ((id, r) ∷ l) s) (pay_one (id, r))
      (λ _. pay_each (count + 1) l) s (pay_one_lem id r s)
      (λ _ u p.
        let ready : DueIn (ids_of l) u.redemption_rows =
          subst (DueIn (ids_of l)) (sym p.1) (left_after id (ids_of l) p.0 s.redemption_rows h) in
        Ensures-weaken (Run (count + 1) l u) (Run count ((id, r) ∷ l) s) (pay_each (count + 1) l u)
          (λ n s' done. (
            omega (arith, done.0),
            done.1,
            done.2 ∙ ap (map terms) p.1 ∙ update_terms id p.0 s.redemption_rows,
            done.3 ∙ p.2,
          ))
          (pay_each_lem (count + 1) l u ready))

payouts_lem : (s : Referrals) → Ensures (λ n s'. PaidOut n s s') (process_payouts s)
unfolding process_payouts Run
payouts_lem s =
    let due_rows : List (ℕ × Redemption) = keep (λ x. is_qualified x.1) s.redemption_rows in
    Ensures-weaken (Run 0 due_rows s) (λ n s'. PaidOut n s s') (pay_each 0 due_rows s)
      (λ n s' done. record {
        counted = omega (arith, done.0);
        none_qualified = none_left s'.redemption_rows done.1;
        same_terms = done.2;
        same_codes = done.3;
      })
      (pay_each_lem 0 due_rows s (left_first s.redemption_rows))

nothing_due :
    (s : Referrals)
    → keep (λ x. is_qualified x.1) s.redemption_rows ≡ []
    → process_payouts s ≡ (ok 0, s)
unfolding process_payouts pay_each
nothing_due s e = rw e refl

-- Where `processPayouts` returns: it has counted the redemptions that were qualified, none is qualified
-- any more, the rows, their parties and their earnings are as before, and running it again returns
-- 0 and changes nothing, no balance either.
pub payouts_once :
    (s : Referrals) {n : ℕ} {s' : Referrals}
    → process_payouts s ≡ (ok n, s')
    → PaidOut n s s' × (process_payouts s' ≡ (ok 0, s'))
payouts_once s {n} {s'} e =
    let done : PaidOut n s s' = Ensures-ok (λ m u. PaidOut m s u) (payouts_lem s) e in
    (done, nothing_due s' done.none_qualified)
