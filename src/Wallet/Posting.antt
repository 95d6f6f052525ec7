-- ===== src/Wallet/Posting.antt =====
-- `postTransactionEntries` and `postTransaction` of src/wallet/wallet.service.ts.
use kilo_backend.Prelude.{
  Bool, List, Option, [], false, holds, map, none, not, some, true, ℕ, ◌&&◌, ◌||◌, ◌∷◌,
}
use kilo_backend.Prelude.Action.{
  Action, conflict, gets, modify, or_throw, pure, row_missing, throw_if, transaction, unbalanced,
  unique_violation, ◌>>=◌, ◌>>◌,
}
use kilo_backend.Prelude.Int.{leb_ℤ, pos, ℤ, ◌+ℤ◌, ◌-ℤ◌}
use kilo_backend.Prelude.Lists.{keep}
use kilo_backend.Prelude.Table.{Table, find, number_key, put, same?}
use kilo_backend.Wallet.Ledger.{
  AccountId, Books, LedgerDirection, LedgerEntry, LedgerEntryInput, Reference, Transaction,
  TransactionType, account_key, balance_of, completed, credit, debit, is_credit, is_debit,
  is_platform, reference_key,
}

pub record PostTransactionParams : Type 0 where
  pub type : TransactionType
  pub reference : Reference
  pub idempotency_key : Option ℕ
  pub amount : ℤ
  pub reverses : Option Reference
  pub entries : List LedgerEntryInput

-- `reduce((sum, e) => sum.plus(e.amount), new Decimal(0))`
unfoldable pub sum_amounts : ℤ → List LedgerEntryInput → ℤ
sum_amounts acc [] = acc
sum_amounts acc (e ∷ es) = sum_amounts (acc +ℤ e.amount) es

abbrev pub total_debits : List LedgerEntryInput → ℤ
total_debits es = sum_amounts (pos 0) (keep (λ e. is_debit e.direction) es)

abbrev pub total_credits : List LedgerEntryInput → ℤ
total_credits es = sum_amounts (pos 0) (keep (λ e. is_credit e.direction) es)

-- `totalDebits.equals(totalCredits)`
abbrev pub equals : ℤ → ℤ → Bool
equals a b = leb_ℤ a b && leb_ℤ b a

abbrev pub find_account : AccountId → Action Books ℤ
find_account id s = or_throw row_missing (find id s.accounts) s

abbrev pub set_balance : AccountId → ℤ → Action Books (Unit {0})
set_balance id b = modify (λ s. record s { accounts = put id b s.accounts })

-- `account.update` with `decrement` and with `increment`
unfoldable pub decrement : AccountId → ℤ → Action Books (Unit {0})
decrement id amount = do b ← find_account id; set_balance id (b -ℤ amount)

unfoldable pub increment : AccountId → ℤ → Action Books (Unit {0})
increment id amount = do b ← find_account id; set_balance id (b +ℤ amount)

-- `account.updateMany` where the balance covers the amount; a count of 0 is a conflict
unfoldable pub guarded_decrement : AccountId → ℤ → Action Books (Unit {0})
guarded_decrement id amount = do
  b ← find_account id
  throw_if (not (leb_ℤ amount b)) conflict
  set_balance id (b -ℤ amount)

unfoldable pub move : LedgerDirection → Bool → AccountId → ℤ → Action Books (Unit {0})
unfolding decrement increment guarded_decrement
move debit true id amount = decrement id amount
move debit false id amount = guarded_decrement id amount
move credit _ id amount = increment id amount

-- One round of the loop over the entries; `after` is the map `balancesAfter`.
unfoldable pub post_entry : LedgerEntryInput → Table AccountId ℤ → Action Books (Table AccountId ℤ)
unfolding move
post_entry e after = do
  find_account e.account
  move e.direction (is_platform e.account) e.account e.amount
  updated ← find_account e.account
  pure (put e.account updated after)

unfoldable pub post_all :
    List LedgerEntryInput → Table AccountId ℤ → Action Books (Table AccountId ℤ)
post_all [] after = pure after
post_all (e ∷ es) after = do after' ← post_entry e after; post_all es after'

abbrev pub recorded : Table AccountId ℤ → LedgerEntryInput → LedgerEntry
recorded after e = record {
  account = e.account;
  direction = e.direction;
  amount = e.amount;
  balance_after = balance_of e.account after;
}

abbrev pub same_key : Option ℕ → Option ℕ → Bool
same_key none _ = false
same_key (some _) none = false
same_key (some a) (some b) = holds (same? a b)

abbrev pub same_reference : Option Reference → Option Reference → Bool
same_reference none _ = false
same_reference (some _) none = false
same_reference (some a) (some b) = holds (same? a b)

-- A row that has the new row's `idempotencyKey` or `reversesTransactionId`, which are unique.
unfoldable pub collides : PostTransactionParams → Table Reference Transaction → Bool
collides p [] = false
collides p ((r, t) ∷ ts) =
    same_key p.idempotency_key t.idempotency_key
    || same_reference p.reverses t.reverses
    || collides p ts

unfoldable pub new_transaction : PostTransactionParams → Table AccountId ℤ → Transaction
new_transaction p after = record {
  type = p.type;
  status = completed;
  idempotency_key = p.idempotency_key;
  amount = p.amount;
  reverses = p.reverses;
  entries = map (recorded after) p.entries;
}

-- `tx.transaction.create`; the reference is new here
unfoldable pub create_transaction :
    PostTransactionParams → Table AccountId ℤ → Action Books (Reference × Transaction)
create_transaction p after = do
  clash ← gets (λ s. collides p s.transactions)
  throw_if clash unique_violation
  let t = new_transaction p after
  modify (λ s. record s { transactions = put p.reference t s.transactions })
  pure (p.reference, t)

unfoldable pub post_new : PostTransactionParams → Action Books (Reference × Transaction)
post_new p = do
  throw_if (not (equals (total_debits p.entries) (total_credits p.entries))) unbalanced
  after ← post_all p.entries []
  create_transaction p after

-- A known reference is returned as it is, and nothing is posted.
unfoldable pub post_unless :
    PostTransactionParams → Option Transaction → Action Books (Reference × Transaction)
post_unless p (some t) = pure (p.reference, t)
post_unless p none = post_new p

unfoldable pub post_transaction_entries :
    PostTransactionParams → Action Books (Reference × Transaction)
unfolding post_unless
post_transaction_entries p = do
  existing ← gets (λ s. find p.reference s.transactions)
  post_unless p existing

unfoldable pub post_transaction : PostTransactionParams → Action Books (Reference × Transaction)
post_transaction p = transaction (post_transaction_entries p)
