-- ===== src/Wallet/Posted.antt =====
-- What a run of the posting loop does, where it returns.
use kilo_backend.Prelude.{
  Bool, List, [], ap, arith, false, is_some, ite, not, refl, some, true, ◌∙◌, ◌∷◌, ◌≡◌,
}
use kilo_backend.Prelude.Action.{
  Action, Ensures, Ensures-bind, Ensures-or_throw, Ensures-throw_if, Ensures-weaken, conflict, pure,
  row_missing, throw_if, ◌>>=◌, ◌>>◌,
}
use kilo_backend.Prelude.Int.{+ℤ_assoc, int_laws, leb_ℤ, pos, ℤ, ◌+ℤ◌, ◌-ℤ◌}
use kilo_backend.Prelude.Table.{Table, find, find-put, put, same?}
use kilo_backend.Wallet.Effect.{effect, net, net_total, signed, total_balance, total_balance-put}
use kilo_backend.Wallet.Ledger.{
  AccountId, Books, LedgerDirection, LedgerEntryInput, account_key, balance_of, credit, debit,
  is_platform,
}
use kilo_backend.Wallet.Posting.{
  decrement, find_account, guarded_decrement, increment, move, post_all, post_entry, set_balance,
}

-- Between two states: each balance has moved by what the entries say, and so has the sum; no account
-- has come or gone; nothing else has changed.
pub record Moves (shift : AccountId → ℤ) (sum : ℤ) (s s' : Books) : Type 0 where
  pub balances : (id : AccountId) → balance_of id s'.accounts ≡ balance_of id s.accounts +ℤ shift id
  pub known : (id : AccountId) → is_some (find id s'.accounts) ≡ is_some (find id s.accounts)
  pub total : total_balance s'.accounts ≡ total_balance s.accounts +ℤ sum
  pub transactions : s'.transactions ≡ s.transactions
  pub drivers : s'.drivers ≡ s.drivers

-- One balance is written.
set_balance-Moves :
    (id : AccountId) (b x : ℤ) (s : Books)
    → find id s.accounts ≡ some b
    → Moves
        (λ j. ite (same? j id) x (pos 0))
        x
        s
        (record s { accounts = put id (b +ℤ x) s.accounts })
set_balance-Moves id b x s h = record {
  balances = λ j. grind (int_laws, find-put j id (b +ℤ x) s.accounts);
  known = λ j. ground (arith, find-put j id (b +ℤ x) s.accounts);
  total = grind (int_laws, total_balance-put id (b +ℤ x) b s.accounts h);
  transactions = refl;
  drivers = refl;
}

debit_amount : (b x : ℤ) → b -ℤ x ≡ b +ℤ (pos 0 -ℤ x)
debit_amount b x = omega int_laws

module _ (id : AccountId) (x : ℤ) (s : Books) where
  abbrev Took : Unit {0} → Books → Type 0
  Took _ s' = Moves (λ j. ite (same? j id) (pos 0 -ℤ x) (pos 0)) (pos 0 -ℤ x) s s'

  abbrev Gave : Unit {0} → Books → Type 0
  Gave _ s' = Moves (λ j. ite (same? j id) x (pos 0)) x s s'

  decrement-Moves : Ensures Took (decrement id x s)
  unfolding decrement
  decrement-Moves =
      Ensures-or_throw Took row_missing (find id s.accounts) (λ b. set_balance id (b -ℤ x)) s
        (λ b e. rw (debit_amount b x) (set_balance-Moves id b (pos 0 -ℤ x) s e))

  increment-Moves : Ensures Gave (increment id x s)
  unfolding increment
  increment-Moves =
      Ensures-or_throw Gave row_missing (find id s.accounts) (λ b. set_balance id (b +ℤ x)) s
        (λ b e. set_balance-Moves id b x s e)

  guarded_decrement-Moves : Ensures Took (guarded_decrement id x s)
  unfolding guarded_decrement
  guarded_decrement-Moves =
      Ensures-or_throw Took row_missing (find id s.accounts)
        (λ b. throw_if (not (leb_ℤ x b)) conflict >> set_balance id (b -ℤ x)) s
        (λ b e.
          Ensures-throw_if Took (not (leb_ℤ x b)) conflict (set_balance id (b -ℤ x)) s
            (λ _. rw (debit_amount b x) (set_balance-Moves id b (pos 0 -ℤ x) s e)))

move-Moves :
    (d : LedgerDirection) (free : Bool) (id : AccountId) (x : ℤ) (s : Books)
    → Ensures
        (λ _ s'. Moves (λ j. ite (same? j id) (signed d x) (pos 0)) (signed d x) s s')
        (move d free id x s)
unfolding move
move-Moves debit true id x s = decrement-Moves id x s
move-Moves debit false id x s = guarded_decrement-Moves id x s
move-Moves credit free id x s = increment-Moves id x s

module _ (e : LedgerEntryInput) (after : Table AccountId ℤ) where
  abbrev pub read_back : Unit {0} → Action Books (Table AccountId ℤ)
  read_back _ = do updated ← find_account e.account; pure (put e.account updated after)

  post_entry-Moves :
      (s : Books)
      → Ensures
          (λ _ s'. Moves (λ j. effect j e) (signed e.direction e.amount) s s')
          (post_entry e after s)
  unfolding post_entry effect
  post_entry-Moves s =
      let Q : Table AccountId ℤ → Books → Type 0 =
        λ _ s'. Moves (λ j. effect j e) (signed e.direction e.amount) s s' in
      let moved = move e.direction (is_platform e.account) e.account e.amount in
      Ensures-or_throw Q row_missing (find e.account s.accounts) (λ _. moved >>= read_back) s
        (λ b found.
          Ensures-bind (λ _ s'. Q [] s') Q moved read_back s
            (move-Moves e.direction (is_platform e.account) e.account e.amount s)
            (λ _ s' m.
              Ensures-or_throw Q row_missing (find e.account s'.accounts)
                (λ updated. pure (put e.account updated after)) s' (λ _ _. m)))

Moves-trans :
    {f g : AccountId → ℤ} {x y : ℤ} {s t u : Books}
    → Moves f x s t
    → Moves g y t u
    → Moves (λ j. f j +ℤ g j) (x +ℤ y) s u
Moves-trans {f} {g} {x} {y} m n = record {
  balances = λ id. n.balances id ∙ ap (λ z. z +ℤ g id) (m.balances id) ∙ +ℤ_assoc _ (f id) (g id);
  known = λ id. n.known id ∙ m.known id;
  total = n.total ∙ ap (λ z. z +ℤ y) m.total ∙ +ℤ_assoc _ x y;
  transactions = n.transactions ∙ m.transactions;
  drivers = n.drivers ∙ m.drivers;
}

Moves-none : (s : Books) → Moves (λ _. pos 0) (pos 0) s s
Moves-none s = record {
  balances = λ id. omega int_laws;
  known = λ id. refl;
  total = omega int_laws;
  transactions = refl;
  drivers = refl;
}

-- The loop, over all the entries.
pub post_all-Moves :
    (es : List LedgerEntryInput) (after : Table AccountId ℤ) (s : Books)
    → Ensures (λ _ s'. Moves (λ j. net j es) (net_total es) s s') (post_all es after s)
unfolding post_all net net_total
post_all-Moves [] after s = Moves-none s
post_all-Moves (e ∷ es) after s =
    Ensures-bind (λ _ t. Moves (λ j. effect j e) (signed e.direction e.amount) s t)
      (λ _ u. Moves (λ j. net j (e ∷ es)) (net_total (e ∷ es)) s u) (post_entry e after)
      (post_all es) s (post_entry-Moves e after s)
      (λ after' t m.
        Ensures-weaken (λ _ u. Moves (λ j. net j es) (net_total es) t u)
          (λ _ u. Moves (λ j. net j (e ∷ es)) (net_total (e ∷ es)) s u) (post_all es after' t)
          (λ _ u n. Moves-trans m n) (post_all-Moves es after' t))
