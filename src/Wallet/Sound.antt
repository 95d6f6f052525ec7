-- ===== src/Wallet/Sound.antt =====
-- The invariant of the books: every balance is what the ledger entries say, and all balances
-- together are zero.
use kilo_backend.Prelude.{Option, [], arith, inl, inr, map, none, refl, some, ℕ, ◌∙◌, ◌∷◌, ◌≡◌}
use kilo_backend.Prelude.Action.{Action, Ensures-weaken, row_missing}
use kilo_backend.Prelude.Int.{int_laws, pos, ℤ, ◌+ℤ◌}
use kilo_backend.Prelude.Keeps.{Keeps, Keeps-or_throw, Keeps-skip, Keeps-transaction, keeps_rules}
use kilo_backend.Prelude.Table.{Table, find, find-put, number_key, put}
use kilo_backend.Wallet.Effect.{net, total_balance, total_balance-put_new}
use kilo_backend.Wallet.Ledger.{
  AccountId, AccountType, Books, DriverStatus, Reference, Transaction, account_key, balance_of,
  owned, reference_key,
}
use kilo_backend.Wallet.Outcome.{Outcome, Posted, as_input, post_transaction_entries-Outcome}
use kilo_backend.Wallet.Posting.{
  PostTransactionParams, find_account, post_transaction, post_transaction_entries,
}
use kilo_backend.Wallet.Service.{
  get_or_create_user_account, get_platform_account, lift_cap, or_create, tax_entries,
  unless_processed, update_driver,
}

-- What all the entries of all the transactions do to the balance of an account.
unfoldable pub ledger_net : AccountId → Table Reference Transaction → ℤ
ledger_net id [] = pos 0
ledger_net id ((_, t) ∷ ts) = net id (map as_input t.entries) +ℤ ledger_net id ts

pub record IsSound (s : Books) : Type 0 where
  pub reconciled : (id : AccountId) → balance_of id s.accounts ≡ ledger_net id s.transactions
  pub zero_sum : total_balance s.accounts ≡ pos 0

ledger_net-put_new :
    (id : AccountId) (r : Reference) (t : Transaction) (ts : Table Reference Transaction)
    → find r ts ≡ none
    → ledger_net id (put r t ts) ≡ ledger_net id ts +ℤ net id (map as_input t.entries)
unfolding ledger_net
ledger_net-put_new id r t [] h = omega int_laws
ledger_net-put_new id r t ((q, u) ∷ ts) h = grind (int_laws, ledger_net-put_new id r t ts)

-- A row that is written again with the entries that it has.
pub ledger_net-put_same :
    (id : AccountId) (r : Reference) (t u : Transaction) (ts : Table Reference Transaction)
    → find r ts ≡ some u
    → t.entries ≡ u.entries
    → ledger_net id (put r t ts) ≡ ledger_net id ts
unfolding ledger_net
ledger_net-put_same id r t u [] h e = cc
ledger_net-put_same id r t u ((q, w) ∷ ts) h e = grind (arith, ledger_net-put_same id r t u ts)

Posted-IsSound :
    {p : PostTransactionParams} {t : Transaction} {s s' : Books}
    → Posted p t s s'
    → IsSound s
    → IsSound s'
Posted-IsSound {p} {t} {s} {s'} m h = record {
  reconciled = λ id. rw (
    m.balances id,
    m.added,
    ledger_net-put_new id p.reference t s.transactions m.fresh,
    m.row.entries,
    h.reconciled id,
  );
  zero_sum = m.total ∙ h.zero_sum;
}

pub Outcome-IsSound :
    {p : PostTransactionParams} {s s' : Books} (r : Reference × Transaction)
    → IsSound s
    → Outcome p s r s'
    → IsSound s'
Outcome-IsSound r h (_, inl (_, same)) = rw same h
Outcome-IsSound r h (_, inr m) = Posted-IsSound m h

pub post_transaction-IsSound : (p : PostTransactionParams) → Keeps IsSound (post_transaction p)
unfolding post_transaction
post_transaction-IsSound p = Keeps-transaction (post_transaction_entries p) (λ s h.
    Ensures-weaken (Outcome p s) (λ _ s'. IsSound s') (post_transaction_entries p s)
      (λ r s' o. Outcome-IsSound r h o) (post_transaction_entries-Outcome p s))

pub created-balance :
    (id j : AccountId) (t : Table AccountId ℤ)
    → find id t ≡ none
    → balance_of j (put id (pos 0) t) ≡ balance_of j t
created-balance id j t h = ground (arith, find-put j id (pos 0) t)

or_create-IsSound :
    (id : AccountId) (o : Option ℤ) (s : Books)
    → find id s.accounts ≡ o
    → IsSound s
    → IsSound (or_create id o s).1
unfolding or_create
or_create-IsSound id (some b) s e h = h
or_create-IsSound id none s e h = record {
  reconciled = λ j. created-balance id j s.accounts e ∙ h.reconciled j;
  zero_sum = total_balance-put_new id s.accounts e ∙ h.zero_sum;
}

pub get_or_create-IsSound :
    (owner : ℕ) (type : AccountType) → Keeps IsSound (get_or_create_user_account owner type)
unfolding get_or_create_user_account
get_or_create-IsSound owner type = record {
  at = λ s h. or_create-IsSound (owned owner type) (find (owned owner type) s.accounts) s refl h;
}

pub get_platform_account-IsSound : (type : AccountType) → Keeps IsSound (get_platform_account type)
unfolding get_platform_account
get_platform_account-IsSound type = search keeps_rules

pub tax_entries-IsSound : (tax : ℤ) → Keeps IsSound (tax_entries tax)
unfolding tax_entries
tax_entries-IsSound tax = search (keeps_rules, get_platform_account-IsSound)

pub update_driver-IsSound :
    (driver : ℕ) (f : DriverStatus → DriverStatus) → Keeps IsSound (update_driver driver f)
unfolding update_driver
update_driver-IsSound driver f = record {
  at = λ s h. record { reconciled = h.reconciled; zero_sum = h.zero_sum };
}

find_account-IsSound : (id : AccountId) → Keeps IsSound (find_account id)
find_account-IsSound id = record {
  at = λ s h. (Keeps-or_throw {P = IsSound} row_missing (find id s.accounts)).at s h;
}

pub lift_cap-IsSound : (driver : ℕ) (payable : AccountId) → Keeps IsSound (lift_cap driver payable)
unfolding lift_cap
lift_cap-IsSound driver payable = search (keeps_rules, find_account-IsSound, update_driver-IsSound)

pub unless_processed-IsSound :
    (o : Option Transaction) (m : Action Books (Unit {0}))
    → Keeps IsSound m
    → Keeps IsSound (unless_processed o m)
unfolding unless_processed
unless_processed-IsSound none m k = k
unless_processed-IsSound (some t) m k = Keeps-skip

pub ruleset sound_rules = (
  keeps_rules, get_or_create-IsSound, get_platform_account-IsSound, tax_entries-IsSound,
  update_driver-IsSound, lift_cap-IsSound, unless_processed-IsSound, post_transaction-IsSound,
)
