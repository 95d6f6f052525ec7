-- ===== src/Wallet/Solvent.antt =====
-- No wallet or payable of a user falls below zero.
use kilo_backend.Prelude.{List, [], ap, arith, if_neg, if_pos, map, not, some, true, ◌∷◌, ◌≡◌}
use kilo_backend.Prelude.Action.{
  Ensures, Ensures-bind, Ensures-or_throw, Ensures-throw_if, conflict, pure, row_missing, throw_if,
  ◌>>=◌, ◌>>◌,
}
use kilo_backend.Prelude.Int.{int_laws, leb_ℤ, leb_ℤ→le, pos, ℤ, ◌+ℤ◌, ◌-ℤ◌, ◌≤ℤ◌}
use kilo_backend.Prelude.Lists.{All}
use kilo_backend.Prelude.Table.{Table, find, find-put, put}
use kilo_backend.Wallet.Ledger.{
  AccountId, AccountId-discrete, AccountType, Books, LedgerDirection, LedgerEntryInput, Reference,
  Transaction, account_key, balance_of, credit, debit, is_platform, or_zero, owned, platform,
  reference_key,
}
use kilo_backend.Wallet.Outcome.{as_input}
use kilo_backend.Wallet.Posted.{read_back}
use kilo_backend.Wallet.Posting.{
  decrement, guarded_decrement, increment, move, post_all, post_entry, set_balance,
}

-- An entry on a user's account has no negative amount.
abbrev pub IsFair : AccountId → ℤ → Type 0
IsFair (owned _ _) x = pos 0 ≤ℤ x
IsFair (platform _) x = Unit

abbrev pub FairEntry : LedgerEntryInput → Type 0
FairEntry e = IsFair e.account e.amount

abbrev pub FairRows : Table Reference Transaction → Type 0
FairRows ts = All (λ row. All FairEntry (map as_input row.1.entries)) ts

pub record IsSolvent (s : Books) : Type 0 where
  pub covered : (id : AccountId) → IsFair id (balance_of id s.accounts)
  pub fair : FairRows s.transactions

unfoldable pub Covered : Books → Type 0
Covered s = (id : AccountId) → IsFair id (balance_of id s.accounts)

pub put-Covered :
    (id : AccountId) (b : ℤ) (s : Books)
    → Covered s
    → IsFair id b
    → Covered (record s { accounts = put id b s.accounts })
unfolding Covered
put-Covered id b s h fits j = elim (AccountId-discrete j id) [
  | yes p ↦ rw (find-put j id b s.accounts, if_pos _ p, p) fits
  | no n ↦ rw (find-put j id b s.accounts, if_neg _ n) (h j)
]

IsFair-add : (id : AccountId) (b x : ℤ) → IsFair id b → IsFair id x → IsFair id (b +ℤ x)
IsFair-add (owned _ _) b x h k = omega int_laws
IsFair-add (platform _) b x h k = tt

IsFair-sub : (id : AccountId) (b x : ℤ) → leb_ℤ x b ≡ true → IsFair id (b -ℤ x)
IsFair-sub (owned _ _) b x h = grind (int_laws, leb_ℤ→le x b)
IsFair-sub (platform _) b x h = tt

module _ (id : AccountId) (x : ℤ) (s : Books) (h : Covered s) where
  abbrev Kept : Unit {0} → Books → Type 0
  Kept _ s' = Covered s'

  had : (b : ℤ) → find id s.accounts ≡ some b → IsFair id b
  unfolding Covered
  had b e = rw (ap or_zero e) at (h id)

  increment-Covered : IsFair id x → Ensures Kept (increment id x s)
  unfolding increment
  increment-Covered fits =
      Ensures-or_throw Kept row_missing (find id s.accounts) (λ b. set_balance id (b +ℤ x)) s
        (λ b e. put-Covered id (b +ℤ x) s h (IsFair-add id b x (had b e) fits))

  guarded_decrement-Covered : Ensures Kept (guarded_decrement id x s)
  unfolding guarded_decrement
  guarded_decrement-Covered =
      Ensures-or_throw Kept row_missing (find id s.accounts)
        (λ b. throw_if (not (leb_ℤ x b)) conflict >> set_balance id (b -ℤ x)) s
        (λ b e.
          Ensures-throw_if Kept (not (leb_ℤ x b)) conflict (set_balance id (b -ℤ x)) s
            (λ enough. put-Covered id (b -ℤ x) s h (IsFair-sub id b x (ground arith))))

decrement-Covered :
    (t : AccountType) (x : ℤ) (s : Books)
    → Covered s
    → Ensures (λ _ s'. Covered s') (decrement (platform t) x s)
unfolding decrement
decrement-Covered t x s h =
    Ensures-or_throw (λ _ s'. Covered s') row_missing (find (platform t) s.accounts)
      (λ b. set_balance (platform t) (b -ℤ x)) s (λ b e. put-Covered (platform t) (b -ℤ x) s h tt)

move-Covered :
    (d : LedgerDirection) (id : AccountId) (x : ℤ) (s : Books)
    → Covered s
    → IsFair id x
    → Ensures (λ _ s'. Covered s') (move d (is_platform id) id x s)
unfolding move
move-Covered debit (platform t) x s h fits = decrement-Covered t x s h
move-Covered debit (owned o t) x s h fits = guarded_decrement-Covered (owned o t) x s h
move-Covered credit id x s h fits = increment-Covered id x s h fits

pub post_all-Covered :
    (es : List LedgerEntryInput) (after : Table AccountId ℤ) (s : Books)
    → All FairEntry es
    → Covered s
    → Ensures (λ _ s'. Covered s') (post_all es after s)
unfolding post_all post_entry
post_all-Covered [] after s fits h = h
post_all-Covered (e ∷ es) after s fits h =
    let Q : Table AccountId ℤ → Books → Type 0 = λ _ s'. Covered s' in
    let moved = move e.direction (is_platform e.account) e.account e.amount in
    Ensures-bind Q Q (post_entry e after) (post_all es) s
      (Ensures-or_throw Q row_missing (find e.account s.accounts) (λ _. moved >>= read_back e after)
        s
        (λ b found.
          Ensures-bind (λ _ s'. Covered s') Q moved (read_back e after) s
            (move-Covered e.direction e.account e.amount s h fits.0)
            (λ _ s' m.
              Ensures-or_throw Q row_missing (find e.account s'.accounts)
                (λ updated. pure (put e.account updated after)) s' (λ _ _. m))))
      (λ after' t m. post_all-Covered es after' t fits.1 m)
