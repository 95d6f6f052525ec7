-- ===== src/Wallet/Refunds.antt =====
-- `refund` undoes a transaction, once.
use kilo_backend.Prelude.{List, [], arith, inl, inr, map, none, not, refl, some, ◌∙◌, ◌∷◌, ◌≡◌}
use kilo_backend.Prelude.Action.{
  Ensures, Ensures-bind, Ensures-ok, Ensures-or_throw, Ensures-throw_if, Ensures-transaction,
  conflict, err, gets, go_on, not_found, ok, or_throw, pure, row_missing, throw_if, ◌>>=◌, ◌>>◌,
}
use kilo_backend.Prelude.Int.{int_laws, pos, ℤ, ◌+ℤ◌, ◌-ℤ◌}
use kilo_backend.Prelude.Table.{find, find-put, find-put_self}
use kilo_backend.Wallet.Effect.{effect, net}
use kilo_backend.Wallet.Ledger.{
  AccountId, Books, LedgerDirection, LedgerEntry, Reference, Transaction, account_key, balance_of,
  credit, debit, reference_key, refund_of, reversed,
}
use kilo_backend.Wallet.Outcome.{
  Outcome, Posted, as_input, post_transaction-Outcome, post_transaction_entries-Outcome,
}
use kilo_backend.Wallet.Posting.{PostTransactionParams, post_transaction, post_transaction_entries}
use kilo_backend.Wallet.Service.{
  flip_direction, is_completed, is_reversed, mark_reversed, refund, refund_found, refund_if_found,
  refund_params, reverse_entry, set_reversed,
}

net-reverse :
    (id : AccountId) (es : List LedgerEntry)
    → net id (map reverse_entry es) ≡ pos 0 -ℤ net id (map as_input es)
unfolding net
net-reverse id [] = omega int_laws
net-reverse id (e ∷ es) = step e.direction e.amount _ _ (net-reverse id es)
  where
    step :
        (d : LedgerDirection) (x m n : ℤ)
        → m ≡ pos 0 -ℤ n
        → effect id (record { account = e.account; direction = flip_direction d; amount = x }) +ℤ m
          ≡ pos 0 -ℤ (effect id (record { account = e.account; direction = d; amount = x }) +ℤ n)
    step debit x m n h = unfold effect in grind (int_laws, h)
    step credit x m n h = unfold effect in grind (int_laws, h)

-- The original is marked as reversed, and every balance has gone back by what it did.
pub record Undone (id : Reference) (t : Transaction) (s s' : Books) : Type 0 where
  pub marked : find id s'.transactions ≡ some (record t { status = reversed })
  pub balances :
      (a : AccountId)
      → balance_of a s'.accounts ≡ balance_of a s.accounts -ℤ net a (map as_input t.entries)

module _ (id : Reference) (t : Transaction) (s : Books) (found : find id s.transactions ≡ some t)
    (fresh : find (refund_of id) s.transactions ≡ none) where
  abbrev Undoes : Reference × Transaction → Books → Type 0
  Undoes _ s' = Undone id t s s'

  -- The posting of a refund leaves the original where it is.
  still_there :
      {p : PostTransactionParams} {u : Transaction} {s' : Books}
      → Posted p u s s'
      → find id s'.transactions ≡ some t
  still_there {p} {u} {s'} m =
      rw (m.added, find-put id p.reference u s.transactions) (ground (arith, found, m.fresh))

  mark-Undone :
      (r : Reference × Transaction) (s' : Books)
      → Outcome (refund_params id t) s r s'
      → Ensures (λ _ u. Undone id t s u) (mark_reversed id s')
  unfolding mark_reversed
  mark-Undone r s' (_, inl (known, _)) = absurd (cc (fresh, known))
  mark-Undone r s' (_, inr m) =
      Ensures-or_throw (λ _ u. Undone id t s u) row_missing (find id s'.transactions)
        (set_reversed id) s'
        (λ w there. record {
          marked =
              let same : w ≡ t = cc (there, still_there m) in
              rw (find-put_self id (record w { status = reversed }) s'.transactions, same);
          balances = λ a. m.balances a ∙ rw (net-reverse a t.entries) (omega int_laws);
        })

  refund_found-Undone : Ensures Undoes (refund_found id t s)
  unfolding refund_found
  refund_found-Undone =
      let finish = λ (r : Reference × Transaction). mark_reversed id >> pure r in
      let post = post_transaction_entries (refund_params id t) >>= finish in
      Ensures-throw_if Undoes (is_reversed t.status) conflict
        (throw_if (not (is_completed t.status)) conflict >> post) s
        (λ _. Ensures-throw_if Undoes (not (is_completed t.status)) conflict post s (λ _.
          Ensures-bind (Outcome (refund_params id t) s) Undoes
            (post_transaction_entries (refund_params id t)) finish s
            (post_transaction_entries-Outcome (refund_params id t) s)
            (λ r s' o.
              Ensures-bind (λ _ u. Undone id t s u) Undoes (mark_reversed id) (λ _. pure r) s'
                (mark-Undone r s' o) (λ _ u k. k))))

  refund-Undone : Ensures Undoes (refund id s)
  unfolding refund
  refund-Undone =
      Ensures-transaction Undoes (gets (λ s. find id s.transactions) >>= refund_if_found id) s (
        Ensures-or_throw Undoes not_found (find id s.transactions) (refund_found id) s
          (λ w there. let same : w ≡ t = cc (there, found) in rw same refund_found-Undone))

-- A transaction that is marked as reversed cannot be refunded: a conflict, and nothing changes.
pub refund_of_reversed :
    (id : Reference) (t : Transaction) (s : Books)
    → find id s.transactions ≡ some t
    → t.status ≡ reversed
    → refund id s ≡ (err conflict, s)
unfolding refund refund_found
refund_of_reversed id t s found gone = rw (found, or_throw, go_on, gone)

-- Where a refund of a transaction of the ledger returns, and its own reference was new, every
-- balance has gone back by what the transaction did, the transaction is marked as reversed and
-- otherwise as it was, and a second refund is a conflict that changes nothing.
pub refund_undoes_once :
    (id : Reference) (t : Transaction) (s : Books) {r : Reference × Transaction} {s' : Books}
    → find id s.transactions ≡ some t
    → find (refund_of id) s.transactions ≡ none
    → refund id s ≡ (ok r, s')
    → Undone id t s s' × (refund id s' ≡ (err conflict, s'))
refund_undoes_once id t s {r} {s'} found fresh e =
    let u : Undone id t s s' =
      Ensures-ok (Undoes id t s found fresh) (refund-Undone id t s found fresh) e in
    (u, refund_of_reversed id (record t { status = reversed }) s' u.marked refl)

-- Posting and then refunding: where both return and both references were new, every balance is what
-- it was before.
pub refund-post :
    (p : PostTransactionParams) (s : Books) {r q : Reference × Transaction} {s₁ s₂ : Books}
    → find p.reference s.transactions ≡ none
    → find (refund_of p.reference) s₁.transactions ≡ none
    → post_transaction p s ≡ (ok r, s₁)
    → refund p.reference s₁ ≡ (ok q, s₂)
    → (a : AccountId) → balance_of a s₂.accounts ≡ balance_of a s.accounts
refund-post p s {r} {q} {s₁} {s₂} new unrefunded e f a =
    elim (Ensures-ok (Outcome p s) (post_transaction-Outcome p s) e).1 [
      | inl again ↦ absurd (cc (new, again.0))
      | inr m ↦
          let there : find p.reference s₁.transactions ≡ some r.1 =
            rw m.added (find-put_self p.reference r.1 s.transactions) in
          let u = (refund_undoes_once p.reference r.1 s₁ there unrefunded f).0 in
          u.balances a ∙ rw (m.row.entries, m.balances a) (omega int_laws)
    ]
