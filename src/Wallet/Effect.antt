-- ===== src/Wallet/Effect.antt =====
-- What a list of entries does to a balance: the specification of `postTransactionEntries`.
use kilo_backend.Prelude.{List, [], ite, none, some, ◌∷◌, ◌≡◌}
use kilo_backend.Prelude.Int.{int_laws, pos, ℤ, ◌+ℤ◌, ◌-ℤ◌}
use kilo_backend.Prelude.Lists.{keep}
use kilo_backend.Prelude.Table.{Table, find, put, same?}
use kilo_backend.Wallet.Ledger.{
  AccountId, LedgerDirection, LedgerEntryInput, account_key, credit, debit, is_credit, is_debit,
}
use kilo_backend.Wallet.Posting.{sum_amounts, total_credits, total_debits}

-- A credit adds its amount and a debit takes it away.
abbrev pub signed : LedgerDirection → ℤ → ℤ
signed debit x = pos 0 -ℤ x
signed credit x = x

-- What one entry does to the balance of an account.
unfoldable pub effect : AccountId → LedgerEntryInput → ℤ
effect id e = ite (same? id e.account) (signed e.direction e.amount) (pos 0)

-- What the entries do to the balance of an account, all together.
unfoldable pub net : AccountId → List LedgerEntryInput → ℤ
net id [] = pos 0
net id (e ∷ es) = effect id e +ℤ net id es

-- What the entries do to the sum of all balances.
unfoldable pub net_total : List LedgerEntryInput → ℤ
net_total [] = pos 0
net_total (e ∷ es) = signed e.direction e.amount +ℤ net_total es

-- The sum of all balances.
unfoldable pub total_balance : Table AccountId ℤ → ℤ
total_balance [] = pos 0
total_balance ((_, b) ∷ t) = b +ℤ total_balance t

pub total_balance-put :
    (id : AccountId) (b old : ℤ) (t : Table AccountId ℤ)
    → find id t ≡ some old
    → total_balance (put id b t) +ℤ old ≡ total_balance t +ℤ b
unfolding total_balance
total_balance-put id b old [] h = cc
total_balance-put id b old ((j, c) ∷ t) h = grind (int_laws, total_balance-put id b old t)

pub total_balance-put_new :
    (id : AccountId) (t : Table AccountId ℤ)
    → find id t ≡ none
    → total_balance (put id (pos 0) t) ≡ total_balance t
unfolding total_balance
total_balance-put_new id [] h = omega int_laws
total_balance-put_new id ((j, c) ∷ t) h = grind (int_laws, total_balance-put_new id t)

-- The debits and the credits of a list, by the loops of the source, differ by its effect.
sum_amounts-shift :
    (acc : ℤ) (es : List LedgerEntryInput) → sum_amounts acc es ≡ acc +ℤ sum_amounts (pos 0) es
unfolding sum_amounts
sum_amounts-shift acc [] = omega int_laws
sum_amounts-shift acc (e ∷ es) =
    grind
      (int_laws, sum_amounts-shift (acc +ℤ e.amount) es, sum_amounts-shift (pos 0 +ℤ e.amount) es)

totals_cons_debit :
    (id : AccountId) (x : ℤ) (es : List LedgerEntryInput)
    → total_debits (record { account = id; direction = debit; amount = x } ∷ es)
      ≡ x +ℤ total_debits es
unfolding sum_amounts
totals_cons_debit id x es =
    grind (int_laws, sum_amounts-shift (pos 0 +ℤ x) (keep (λ e. is_debit e.direction) es))

totals_cons_credit :
    (id : AccountId) (x : ℤ) (es : List LedgerEntryInput)
    → total_credits (record { account = id; direction = credit; amount = x } ∷ es)
      ≡ x +ℤ total_credits es
unfolding sum_amounts
totals_cons_credit id x es =
    grind (int_laws, sum_amounts-shift (pos 0 +ℤ x) (keep (λ e. is_credit e.direction) es))

net_total_step :
    (id : AccountId) (d : LedgerDirection) (x : ℤ) (es : List LedgerEntryInput)
    → net_total es +ℤ total_debits es ≡ total_credits es
    → let es' = record { account = id; direction = d; amount = x } ∷ es in
      net_total es' +ℤ total_debits es' ≡ total_credits es'
unfolding net_total
net_total_step id debit x es h = grind (int_laws, totals_cons_debit id x es)
net_total_step id credit x es h = grind (int_laws, totals_cons_credit id x es)

pub net_total_lem :
    (es : List LedgerEntryInput) → net_total es +ℤ total_debits es ≡ total_credits es
unfolding net_total sum_amounts
net_total_lem [] = omega int_laws
net_total_lem (e ∷ es) = net_total_step e.account e.direction e.amount es (net_total_lem es)
