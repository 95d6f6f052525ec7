-- ===== src/Wallet/Verdicts.antt =====
-- When a payment from a wallet goes through: exactly where the balance covers it.
use kilo_backend.Prelude.{
  Bool, List, Option-cases, [], arith, false, inl, inr, is_some, none, refl, some, sym, true, ℕ,
  ◌∷◌, ◌≡◌,
}
use kilo_backend.Prelude.Action.{Result, conflict, err, go_on, ok, roll_back, ◌>>=◌}
use kilo_backend.Prelude.Int.{leb_ℤ, ℤ, ◌+ℤ◌, ◌-ℤ◌}
use kilo_backend.Prelude.Lists.{All}
use kilo_backend.Prelude.Table.{Table, find, find-put, find-put_self, put}
use kilo_backend.Wallet.Ledger.{
  AccountId, AccountType, Books, LedgerDirection, LedgerEntryInput, Reference, Transaction,
  TransactionType, account_key, balance_of, credit, debit, owned, reference_key,
}
use kilo_backend.Wallet.Posted.{read_back}
use kilo_backend.Wallet.Posting.{
  PostTransactionParams, collides, create_transaction, equals, guarded_decrement, increment, move,
  post_all, post_entry, post_new, post_transaction, post_transaction_entries, post_unless,
  total_credits, total_debits,
}
use kilo_backend.Wallet.Service.{params}
use mathlib.Core.Path.{subst}

-- A call that returns, where `covered`, and otherwise throws a conflict and moves no balance.
abbrev pub Verdict : {A : Type 0} → Bool → Books → Result A × Books → Type 0
Verdict true s (ok _, s') = Unit
Verdict true s (err _, s') = ⊥
Verdict false s (ok _, s') = ⊥
Verdict false s (err e, s') =
    (e ≡ conflict) × ((id : AccountId) → balance_of id s'.accounts ≡ balance_of id s.accounts)

abbrev pub Returns : {A S : Type 0} → Result A × S → Type 0
Returns (ok _, s) = Unit
Returns (err _, s) = ⊥

unfoldable pub IsKnown : AccountId → Books → Type 0
IsKnown id s = is_some (find id s.accounts) ≡ true

abbrev pub IsCredit : LedgerEntryInput → Type 0
IsCredit e = e.direction ≡ credit

unfoldable pub AllKnown : List LedgerEntryInput → Books → Type 0
AllKnown es s = All (λ e. IsKnown e.account s) es

put-IsKnown :
    (id j : AccountId) (b : ℤ) (s : Books)
    → IsKnown j s
    → IsKnown j (record s { accounts = put id b s.accounts })
unfolding IsKnown
put-IsKnown id j b s h = ground (arith, find-put j id b s.accounts)

put-AllKnown :
    (id : AccountId) (b : ℤ) (s : Books) (es : List LedgerEntryInput)
    → AllKnown es s
    → AllKnown es (record s { accounts = put id b s.accounts })
unfolding AllKnown
put-AllKnown id b s [] h = tt
put-AllKnown id b s (e ∷ es) h = (put-IsKnown id e.account b s h.0, put-AllKnown id b s es h.1)

-- The rest of the loop, once the account of an entry has been written.
written :
    (id : AccountId) (b : ℤ) (after : Table AccountId ℤ) (es : List LedgerEntryInput) (s : Books)
    → ((after' : Table AccountId ℤ)
        → Returns (post_all es after' (record s { accounts = put id b s.accounts })))
    → (d : LedgerDirection) (x : ℤ)
    → Returns (
        (read_back (record { account = id; direction = d; amount = x }) after tt >>= post_all es)
          (record s { accounts = put id b s.accounts }))
written id b after es s k d x = rw (find-put_self id b s.accounts) (k (put id b after))

module _ (id : AccountId) (x b : ℤ) (es : List LedgerEntryInput) (after : Table AccountId ℤ)
    (s : Books) (found : find id s.accounts ≡ some b) where
  abbrev line : LedgerDirection → LedgerEntryInput
  line d = record { account = id; direction = d; amount = x }

  credit_step :
      ((after' : Table AccountId ℤ)
        → Returns (post_all es after' (record s { accounts = put id (b +ℤ x) s.accounts })))
      → Returns ((post_entry (line credit) after >>= post_all es) s)
  unfolding post_entry move increment
  credit_step k = rw (found, go_on, found) (written id (b +ℤ x) after es s k credit x)

credits_return :
    (es : List LedgerEntryInput) (after : Table AccountId ℤ) (s : Books)
    → All IsCredit es
    → AllKnown es s
    → Returns (post_all es after s)
unfolding post_all AllKnown IsKnown
credits_return [] after s c k = tt
credits_return (e ∷ es) after s c k = elim (Option-cases (find e.account s.accounts)) [
  | inl gone ↦ absurd (ground (arith, k.0))
  | inr (b, found) ↦
      subst
        (λ d. Returns (
          (post_entry (record { account = e.account; direction = d; amount = e.amount }) after
              >>= post_all es)
            s))
        (sym c.0)
        (credit_step e.account e.amount b es after s found (λ after'.
          credits_return es after'
            (record s { accounts = put e.account (b +ℤ e.amount) s.accounts }) c.1
            (put-AllKnown e.account (b +ℤ e.amount) s es k.1)))
]

abbrev pub payer_line : ℕ → AccountType → ℤ → LedgerEntryInput
payer_line owner type x = record { account = owned owner type; direction = debit; amount = x }

-- A user's account pays, and all that follows is credited to accounts that are there.
module _ (owner : ℕ) (type : AccountType) (x b : ℤ) (es : List LedgerEntryInput) (s : Books)
    (found : find (owned owner type) s.accounts ≡ some b) where
  covered_debit :
      leb_ℤ x b ≡ true
      → All IsCredit es
      → AllKnown es s
      → Returns (post_all (payer_line owner type x ∷ es) [] s)
  unfolding post_all post_entry move guarded_decrement
  covered_debit enough c k =
      rw (found, go_on, found, enough)
        (written (owned owner type) (b -ℤ x) [] es s
          (λ after'.
            credits_return es after'
              (record s { accounts = put (owned owner type) (b -ℤ x) s.accounts }) c
              (put-AllKnown (owned owner type) (b -ℤ x) s es k))
          debit x)

  short_debit : leb_ℤ x b ≡ false → post_all (payer_line owner type x ∷ es) [] s ≡ (err conflict, s)
  unfolding post_all post_entry move guarded_decrement
  short_debit short = rw (found, go_on, found, short)

-- A posting with no idempotency key that reverses nothing breaks no unique constraint.
no_collision :
    (type : TransactionType) (r : Reference) (x : ℤ) (es : List LedgerEntryInput)
    (ts : Table Reference Transaction)
    → collides (params type r x es) ts ≡ false
unfolding collides
no_collision type r x es [] = refl
no_collision type r x es ((q, t) ∷ ts) = no_collision type r x es ts

module _ (type : TransactionType) (r : Reference) (amount : ℤ) (owner : ℕ) (kind : AccountType)
    (x b : ℤ) (es : List LedgerEntryInput) (s : Books) (fresh : find r s.transactions ≡ none)
    (found : find (owned owner kind) s.accounts ≡ some b)
    (even : equals
        (total_debits (payer_line owner kind x ∷ es))
        (total_credits (payer_line owner kind x ∷ es))
      ≡ true)
    (c : All IsCredit es) (k : AllKnown es s) where
  abbrev posting : PostTransactionParams
  posting = params type r amount (payer_line owner kind x ∷ es)

  created-Returns :
      (after : Table AccountId ℤ) (s' : Books) → Returns (create_transaction posting after s')
  unfolding create_transaction
  created-Returns after s' =
      rw (no_collision type r amount (payer_line owner kind x ∷ es) s'.transactions) tt

  then_created :
      (y : Result (Table AccountId ℤ) × Books)
      → Returns y
      → Returns (roll_back s (go_on (create_transaction posting) y))
  then_created (ok after, s') h =
      go (create_transaction posting after s') (created-Returns after s')
    where
      go : (z : Result (Reference × Transaction) × Books) → Returns z → Returns (roll_back s z)
      go (ok a, u) h = tt
      go (err e, u) h = h
  then_created (err e, s') h = absurd h

  pub covered_post : leb_ℤ x b ≡ true → Returns (post_transaction posting s)
  unfolding post_transaction post_transaction_entries post_new
  covered_post enough =
      rw (fresh, post_unless, even)
        (then_created (post_all (payer_line owner kind x ∷ es) [] s)
          (covered_debit owner kind x b es s found enough c k))

  pub short_post : leb_ℤ x b ≡ false → post_transaction posting s ≡ (err conflict, s)
  unfolding post_transaction post_transaction_entries post_new
  short_post short = rw (fresh, post_unless, even, short_debit owner kind x b es s found short)
