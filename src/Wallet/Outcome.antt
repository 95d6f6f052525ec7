-- ===== src/Wallet/Outcome.antt =====
-- The two ways in which `postTransactionEntries` returns: the reference was known and nothing has
-- changed, or the entries were balanced and have been posted.
use kilo_backend.Prelude.{
  List, Option, [], ap, arith, inl, inr, is_some, map, none, not, refl, some, true, ◌∷◌, ◌≡◌, ◌⊎◌,
}
use kilo_backend.Prelude.Action.{
  Ensures, Ensures-bind, Ensures-throw_if, Ensures-transaction, modify, pure, unbalanced,
  unique_violation, ◌>>=◌, ◌>>◌,
}
use kilo_backend.Prelude.Int.{int_laws, pos, ℤ, ◌+ℤ◌}
use kilo_backend.Prelude.Table.{Table, find, put}
use kilo_backend.Wallet.Effect.{net, net_total, net_total_lem, total_balance}
use kilo_backend.Wallet.Ledger.{
  AccountId, Books, LedgerEntry, LedgerEntryInput, Reference, Transaction, account_key, balance_of,
  completed, reference_key,
}
use kilo_backend.Wallet.Posted.{Moves, post_all-Moves}
use kilo_backend.Wallet.Posting.{
  PostTransactionParams, collides, create_transaction, equals, new_transaction, post_all, post_new,
  post_transaction, post_transaction_entries, post_unless, recorded, total_credits, total_debits,
}

-- The entry as it was asked for.
abbrev pub as_input : LedgerEntry → LedgerEntryInput
as_input e = record { account = e.account; direction = e.direction; amount = e.amount }

-- `t` is the row of a new transaction that was asked for by `p`.
pub record IsRowOf (p : PostTransactionParams) (t : Transaction) : Type 0 where
  pub of_type : t.type ≡ p.type
  pub is_completed : t.status ≡ completed
  pub of_amount : t.amount ≡ p.amount
  pub reverses : t.reverses ≡ p.reverses
  pub entries : map as_input t.entries ≡ p.entries

pub record Posted (p : PostTransactionParams) (t : Transaction) (s s' : Books) : Type 0 where
  pub fresh : find p.reference s.transactions ≡ none
  pub row : IsRowOf p t
  pub balanced : net_total p.entries ≡ pos 0
  pub added : s'.transactions ≡ put p.reference t s.transactions
  pub balances :
      (id : AccountId) → balance_of id s'.accounts ≡ balance_of id s.accounts +ℤ net id p.entries
  pub known : (id : AccountId) → is_some (find id s'.accounts) ≡ is_some (find id s.accounts)
  pub total : total_balance s'.accounts ≡ total_balance s.accounts
  pub drivers : s'.drivers ≡ s.drivers

abbrev pub Outcome : PostTransactionParams → Books → Reference × Transaction → Books → Type 0
Outcome p s (r, t) s' =
    (r ≡ p.reference) × (((find p.reference s.transactions ≡ some t) × (s' ≡ s)) ⊎ Posted p t s s')

as_input-recorded :
    (after : Table AccountId ℤ) (es : List LedgerEntryInput)
    → map as_input (map (recorded after) es) ≡ es
as_input-recorded after [] = refl
as_input-recorded after (e ∷ es) = ap (λ l. e ∷ l) (as_input-recorded after es)

new_transaction-IsRowOf :
    (p : PostTransactionParams) (after : Table AccountId ℤ) → IsRowOf p (new_transaction p after)
unfolding new_transaction
new_transaction-IsRowOf p after = record {
  of_type = refl;
  is_completed = refl;
  of_amount = refl;
  reverses = refl;
  entries = as_input-recorded after p.entries;
}

balanced_total :
    (es : List LedgerEntryInput)
    → equals (total_debits es) (total_credits es) ≡ true
    → net_total es ≡ pos 0
balanced_total es h = grind (int_laws, net_total_lem es)

module _ (p : PostTransactionParams) (s : Books)
    (fresh : find p.reference s.transactions ≡ none) where
  created_Posted :
      (after : Table AccountId ℤ) (s' : Books)
      → net_total p.entries ≡ pos 0
      → Moves (λ j. net j p.entries) (net_total p.entries) s s'
      → Ensures (Outcome p s) (create_transaction p after s')
  unfolding create_transaction
  created_Posted after s' zero_sum m =
      Ensures-throw_if (Outcome p s) (collides p s'.transactions) unique_violation
        (do
          let t = new_transaction p after
          modify (λ s. record s { transactions = put p.reference t s.transactions })
          pure (p.reference, t))
        s'
        (λ _. (
          refl,
          inr (record {
            fresh = fresh;
            row = new_transaction-IsRowOf p after;
            balanced = zero_sum;
            added = ap (put p.reference (new_transaction p after)) m.transactions;
            balances = m.balances;
            known = m.known;
            total = grind (int_laws, m.total);
            drivers = m.drivers;
          }),
        ))

  post_new-Outcome : Ensures (Outcome p s) (post_new p s)
  unfolding post_new
  post_new-Outcome =
      Ensures-throw_if (Outcome p s)
        (not (equals (total_debits p.entries) (total_credits p.entries))) unbalanced
        (post_all p.entries [] >>= create_transaction p) s
        (λ even.
          Ensures-bind (λ _ s'. Moves (λ j. net j p.entries) (net_total p.entries) s s')
            (Outcome p s) (post_all p.entries []) (create_transaction p) s
            (post_all-Moves p.entries [] s)
            (λ after s' m. created_Posted after s' (balanced_total p.entries (ground arith)) m))

pub post_transaction_entries-Outcome :
    (p : PostTransactionParams) (s : Books) → Ensures (Outcome p s) (post_transaction_entries p s)
unfolding post_transaction_entries
post_transaction_entries-Outcome p s = go (find p.reference s.transactions) refl
  where
    go :
        (o : Option Transaction)
        → find p.reference s.transactions ≡ o
        → Ensures (Outcome p s) (post_unless p o s)
    go none e = post_new-Outcome p s e
    go (some t) e = (refl, inl (e, refl))

pub post_transaction-Outcome :
    (p : PostTransactionParams) (s : Books) → Ensures (Outcome p s) (post_transaction p s)
unfolding post_transaction
post_transaction-Outcome p s =
    Ensures-transaction (Outcome p s) (post_transaction_entries p) s
      (post_transaction_entries-Outcome p s)
