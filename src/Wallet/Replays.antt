-- ===== src/Wallet/Replays.antt =====
-- A reference that is in the ledger is never posted again: duplicate webhooks and retried requests.
use kilo_backend.Prelude.{
  Option, ap, arith, inl, inr, is_some, none, not, refl, some, true, ℕ, ◌∙◌, ◌≡◌,
}
use kilo_backend.Prelude.Action.{
  Action, Ensures, Ensures-bind, Ensures-or_throw, Ensures-throw_if, Ensures-weaken, conflict, gets,
  not_found, pure, row_missing, throw_if, transaction, ◌>>=◌, ◌>>◌,
}
use kilo_backend.Prelude.Int.{ℤ}
use kilo_backend.Prelude.Keeps.{
  Keeps, Keeps-bind, Keeps-if, Keeps-or_throw, Keeps-skip, Keeps-transaction, keeps_rules,
}
use kilo_backend.Prelude.Table.{find, find-put}
use kilo_backend.Wallet.Ledger.{
  AccountId, AccountType, Books, DriverStatus, Reference, Transaction, account_key, balance_of,
  reference_key, refund_of, reversed,
}
use kilo_backend.Wallet.Lookup.{get_or_create-Keeps}
use kilo_backend.Wallet.Outcome.{Outcome, post_transaction_entries-Outcome}
use kilo_backend.Wallet.Posting.{
  PostTransactionParams, find_account, post_transaction, post_transaction_entries,
}
use kilo_backend.Wallet.Service.{
  clear_cash_rides, get_or_create_user_account, get_platform_account, is_completed, is_reversed,
  lift_cap, mark_reversed, pay_both, refund, refund_found, refund_if_found, refund_params,
  set_reversed, tax_entries, unless_processed, update_driver,
}

-- No balance has moved, and no transaction is lost.
pub record Quiet (s s' : Books) : Type 0 where
  pub balances : (id : AccountId) → balance_of id s'.accounts ≡ balance_of id s.accounts
  pub kept :
      (r : Reference)
      → is_some (find r s.transactions) ≡ true
      → is_some (find r s'.transactions) ≡ true

module _ (s : Books) where
  abbrev pub Calm : Books → Type 0
  Calm s' = Quiet s s'

  pub Quiet-self : Quiet s s
  Quiet-self = record { balances = λ id. refl; kept = λ r h. h }

  post_entries-Quiet :
      (p : PostTransactionParams) (s' : Books)
      → is_some (find p.reference s.transactions) ≡ true
      → Quiet s s'
      → Ensures (λ _ u. Quiet s u) (post_transaction_entries p s')
  post_entries-Quiet p s' old q =
      Ensures-weaken (Outcome p s') (λ _ u. Quiet s u) (post_transaction_entries p s')
        (λ r u o. settle o) (post_transaction_entries-Outcome p s')
    where
      settle : {r : Reference × Transaction} {u : Books} → Outcome p s' r u → Quiet s u
      settle (_, inl (_, same)) = rw same q
      settle (_, inr m) = absurd (ground (arith, q.kept p.reference old, m.fresh))

  pub post_transaction-Quiet :
      (p : PostTransactionParams)
      → is_some (find p.reference s.transactions) ≡ true
      → Keeps Calm (post_transaction p)
  unfolding post_transaction
  post_transaction-Quiet p old =
      Keeps-transaction (post_transaction_entries p) (λ s' q. post_entries-Quiet p s' old q)

  pub get_or_create-Quiet :
      (owner : ℕ) (type : AccountType) → Keeps Calm (get_or_create_user_account owner type)
  get_or_create-Quiet owner type = get_or_create-Keeps Calm owner type (λ t u q g. record {
    balances = λ id. g.balances id ∙ q.balances id;
    kept = λ r h. rw (ap (find r) g.transactions) (q.kept r h);
  })

  pub get_platform_account-Quiet : (type : AccountType) → Keeps Calm (get_platform_account type)
  unfolding get_platform_account
  get_platform_account-Quiet type = search keeps_rules

  pub tax_entries-Quiet : (tax : ℤ) → Keeps Calm (tax_entries tax)
  unfolding tax_entries
  tax_entries-Quiet tax = search (keeps_rules, get_platform_account-Quiet)

  pub update_driver-Quiet :
      (driver : ℕ) (f : DriverStatus → DriverStatus) → Keeps Calm (update_driver driver f)
  unfolding update_driver
  update_driver-Quiet driver f = record {
    at = λ t q. record { balances = q.balances; kept = q.kept };
  }

  pub lift_cap-Quiet : (driver : ℕ) (id : AccountId) → Keeps Calm (lift_cap driver id)
  unfolding lift_cap
  lift_cap-Quiet driver id =
      Keeps-bind (find_account id) _
        (record { at = λ t h. (Keeps-or_throw {P = Calm} row_missing (find id t.accounts)).at t h })
        (λ b. Keeps-if _ _ _ (update_driver-Quiet driver clear_cash_rides) Keeps-skip)

  pub unless_processed-Quiet :
      (o : Option Transaction) (m : Action Books (Unit {0}))
      → Keeps Calm m
      → Keeps Calm (unless_processed o m)
  unfolding unless_processed
  unless_processed-Quiet none m k = k
  unless_processed-Quiet (some t) m k = Keeps-skip

  pub pay_both-Quiet :
      (p q : PostTransactionParams)
      → is_some (find p.reference s.transactions) ≡ true
      → is_some (find q.reference s.transactions) ≡ true
      → Keeps Calm (transaction (pay_both p q))
  unfolding pay_both
  pay_both-Quiet p q old older =
      let Q : Reference × Transaction → Books → Type 0 = λ _ u. Quiet s u in
      Keeps-transaction (pay_both p q) (λ s' h.
        Ensures-bind Q Q (post_transaction_entries p) (λ r. post_transaction_entries q >> pure r) s'
          (post_entries-Quiet p s' old h)
          (λ r t k.
            Ensures-bind Q Q (post_transaction_entries q) (λ _. pure r) t
              (post_entries-Quiet q t older k) (λ _ u l. l)))

  mark_reversed-Quiet :
      (id : Reference) (s' : Books) → Quiet s s' → Ensures (λ _ u. Quiet s u) (mark_reversed id s')
  unfolding mark_reversed
  mark_reversed-Quiet id s' q =
      Ensures-or_throw (λ _ u. Quiet s u) row_missing (find id s'.transactions) (set_reversed id) s'
        (λ t found. record {
          balances = q.balances;
          kept = λ r h.
              ground
                (arith, q.kept r h, find-put r id (record t { status = reversed }) s'.transactions);
        })

  pub refund-Quiet :
      (id : Reference)
      → is_some (find (refund_of id) s.transactions) ≡ true
      → Keeps Calm (refund id)
  unfolding refund refund_found
  refund-Quiet id old =
      let Q : Reference × Transaction → Books → Type 0 = λ _ u. Quiet s u in
      Keeps-transaction (gets (λ t. find id t.transactions) >>= refund_if_found id) (λ s' h.
        Ensures-or_throw Q not_found (find id s'.transactions) (refund_found id) s' (λ t _.
          let finish = λ (r : Reference × Transaction). mark_reversed id >> pure r in
          let post = post_transaction_entries (refund_params id t) >>= finish in
          Ensures-throw_if Q (is_reversed t.status) conflict
            (throw_if (not (is_completed t.status)) conflict >> post) s'
            (λ _. Ensures-throw_if Q (not (is_completed t.status)) conflict post s' (λ _.
              Ensures-bind Q Q (post_transaction_entries (refund_params id t)) finish s'
                (post_entries-Quiet (refund_params id t) s' old h)
                (λ r u k.
                  Ensures-bind (λ _ v. Quiet s v) Q (mark_reversed id) (λ _. pure r) u
                    (mark_reversed-Quiet id u k) (λ _ v l. l))))))

pub ruleset quiet_rules = (
  keeps_rules, get_or_create-Quiet, get_platform_account-Quiet, tax_entries-Quiet,
  update_driver-Quiet, lift_cap-Quiet, unless_processed-Quiet, post_transaction-Quiet,
  pay_both-Quiet, refund-Quiet,
)
