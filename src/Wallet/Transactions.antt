-- ===== src/Wallet/Transactions.antt =====
-- The transactions that the methods of WalletService share keep the books solvent (src/wallet/wallet.service.ts).
use kilo_backend.Prelude.{List, Option, arith, none, refl, some, ℕ, ◌≡◌}
use kilo_backend.Prelude.Action.{Action, Ensures, Ensures-weaken, row_missing}
use kilo_backend.Prelude.Int.{int_laws, pos, ℤ, ◌+ℤ◌, ◌-ℤ◌, ◌≤ℤ◌}
use kilo_backend.Prelude.Keeps.{Keeps, Keeps-or_throw, Keeps-skip, Keeps-transaction, keeps_rules}
use kilo_backend.Prelude.Lists.{All}
use kilo_backend.Prelude.Table.{find}
use kilo_backend.Pricing.Tariffs.{rows}
use kilo_backend.Wallet.Fair.{post_entries-IsSolvent}
use kilo_backend.Wallet.Ledger.{
  AccountId, AccountType, Books, DriverStatus, LedgerEntryInput, Reference, Transaction,
  TransactionType, account_key, balance_of, owned, platform, reference_key,
}
use kilo_backend.Wallet.Lookup.{tax_entries_lem, tax_list}
use kilo_backend.Wallet.Posting.{
  PostTransactionParams, find_account, post_transaction, post_transaction_entries,
}
use kilo_backend.Wallet.Service.{
  fare_entries, from_to, get_or_create_user_account, get_platform_account, lift_cap, or_create,
  params, tax_entries, unless_processed, update_driver,
}
use kilo_backend.Wallet.Solvent.{FairEntry, IsFair, IsSolvent}
use kilo_backend.Wallet.Sound.{created-balance}

IsFair-any : (id : AccountId) (x : ℤ) → pos 0 ≤ℤ x → IsFair id x
IsFair-any (owned _ _) x h = h
IsFair-any (platform _) x h = tt

pub fair_from_to : (a b : AccountId) (x : ℤ) → pos 0 ≤ℤ x → All FairEntry (from_to a b x)
fair_from_to a b x h = (IsFair-any a x h, (IsFair-any b x h, tt))

pub fair_fare :
    (a b c : AccountId) (fare cut tax : ℤ) (taxes : List LedgerEntryInput)
    → pos 0 ≤ℤ fare
    → pos 0 ≤ℤ cut
    → cut +ℤ tax ≤ℤ fare
    → All FairEntry taxes
    → All FairEntry (fare_entries a b c fare cut tax taxes)
fair_fare a b c fare cut tax taxes h k le t = (
  IsFair-any a fare h,
  (IsFair-any b (fare -ℤ cut -ℤ tax) (omega int_laws), (IsFair-any c cut k, t)),
)

-- A database transaction that posts.
pub post_transaction-IsSolvent :
    (p : PostTransactionParams) → All FairEntry p.entries → Keeps IsSolvent (post_transaction p)
unfolding post_transaction
post_transaction-IsSolvent p fits =
    Keeps-transaction (post_transaction_entries p) (λ s h. post_entries-IsSolvent p s fits h)

pub post_from_to :
    (type : TransactionType) (reference : Reference) (x : ℤ) (a b : AccountId)
    → pos 0 ≤ℤ x
    → Keeps IsSolvent (post_transaction (params type reference x (from_to a b x)))
post_from_to type reference x a b h =
    post_transaction-IsSolvent (params type reference x (from_to a b x)) (fair_from_to a b x h)

same_balances :
    {s s' : Books}
    → ((id : AccountId) → balance_of id s'.accounts ≡ balance_of id s.accounts)
    → s'.transactions ≡ s.transactions
    → IsSolvent s
    → IsSolvent s'
same_balances same rows h = record {
  covered = λ id. rw (same id) (h.covered id);
  fair = rw rows h.fair;
}

or_create-IsSolvent :
    (id : AccountId) (o : Option ℤ) (s : Books)
    → find id s.accounts ≡ o
    → IsSolvent s
    → IsSolvent (or_create id o s).1
unfolding or_create
or_create-IsSolvent id (some b) s e h = h
or_create-IsSolvent id none s e h = same_balances (λ j. created-balance id j s.accounts e) refl h

pub get_or_create-IsSolvent :
    (owner : ℕ) (type : AccountType) → Keeps IsSolvent (get_or_create_user_account owner type)
unfolding get_or_create_user_account
get_or_create-IsSolvent owner type = record {
  at = λ s h. or_create-IsSolvent (owned owner type) (find (owned owner type) s.accounts) s refl h;
}

pub get_platform_account-IsSolvent :
    (type : AccountType) → Keeps IsSolvent (get_platform_account type)
unfolding get_platform_account
get_platform_account-IsSolvent type = search keeps_rules

pub update_driver-IsSolvent :
    (driver : ℕ) (f : DriverStatus → DriverStatus) → Keeps IsSolvent (update_driver driver f)
unfolding update_driver
update_driver-IsSolvent driver f = record {
  at = λ s h. record { covered = h.covered; fair = h.fair };
}

find_account-IsSolvent : (id : AccountId) → Keeps IsSolvent (find_account id)
find_account-IsSolvent id = record {
  at = λ s h. (Keeps-or_throw {P = IsSolvent} row_missing (find id s.accounts)).at s h;
}

pub lift_cap-IsSolvent : (driver : ℕ) (id : AccountId) → Keeps IsSolvent (lift_cap driver id)
unfolding lift_cap
lift_cap-IsSolvent driver id = search (keeps_rules, find_account-IsSolvent, update_driver-IsSolvent)

pub unless_processed-IsSolvent :
    (o : Option Transaction) (m : Action Books (Unit {0}))
    → Keeps IsSolvent m
    → Keeps IsSolvent (unless_processed o m)
unfolding unless_processed
unless_processed-IsSolvent none m k = k
unless_processed-IsSolvent (some t) m k = Keeps-skip

pub tax_entries-IsSolvent : (tax : ℤ) → Keeps IsSolvent (tax_entries tax)
unfolding tax_entries
tax_entries-IsSolvent tax = search (keeps_rules, get_platform_account-IsSolvent)

pub ruleset solvent_rules = (
  keeps_rules, get_or_create-IsSolvent, get_platform_account-IsSolvent, update_driver-IsSolvent,
  lift_cap-IsSolvent, unless_processed-IsSolvent, post_from_to,
)

-- The tax goes to an account of the platform.
tax_list-fair : (tax : ℤ) → All FairEntry (tax_list tax)
unfolding tax_list
tax_list-fair tax = ground arith

pub tax_entries-fair :
    (tax : ℤ) (s : Books) → Ensures (λ taxes _. All FairEntry taxes) (tax_entries tax s)
tax_entries-fair tax s =
    Ensures-weaken (λ l s'. (l ≡ tax_list tax) × (s' ≡ s)) (λ l _. All FairEntry l)
      (tax_entries tax s) (λ l s' e. rw e.0 (tax_list-fair tax)) (tax_entries_lem tax s)
