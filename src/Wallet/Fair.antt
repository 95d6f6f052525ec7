-- ===== src/Wallet/Fair.antt =====
-- The postings and the methods that keep the users' accounts at zero or above.
use kilo_backend.Prelude.{Option, [], if_neg, if_pos, inl, inr, map, none, not, some, ◌∷◌, ◌≡◌}
use kilo_backend.Prelude.Action.{
  Ensures, Ensures-bind, Ensures-both, Ensures-throw_if, Ensures-weaken, modify, pure, unbalanced,
  unique_violation, ◌>>=◌, ◌>>◌,
}
use kilo_backend.Prelude.Int.{ℤ}
use kilo_backend.Prelude.Lists.{All}
use kilo_backend.Prelude.Table.{Table, find, put}
use kilo_backend.Wallet.Ledger.{
  AccountId, Books, Reference, Reference-discrete, Transaction, account_key, reference_key,
}
use kilo_backend.Wallet.Outcome.{Outcome, as_input, post_transaction_entries-Outcome}
use kilo_backend.Wallet.Posting.{
  PostTransactionParams, collides, create_transaction, equals, new_transaction, post_all, post_new,
  post_transaction_entries, post_unless, total_credits, total_debits,
}
use kilo_backend.Wallet.Solvent.{Covered, FairEntry, FairRows, IsSolvent, post_all-Covered}

module _ (p : PostTransactionParams) (fits : All FairEntry p.entries) (s : Books)
    (h : Covered s) where
  abbrev Safe : Reference × Transaction → Books → Type 0
  Safe _ s' = Covered s'

  created-Covered :
      (after : Table AccountId ℤ) (s' : Books)
      → Covered s'
      → Ensures Safe (create_transaction p after s')
  unfolding create_transaction Covered
  created-Covered after s' k =
      Ensures-throw_if Safe (collides p s'.transactions) unique_violation
        (do
          let t = new_transaction p after
          modify (λ s. record s { transactions = put p.reference t s.transactions })
          pure (p.reference, t))
        s' (λ _. k)

  post_new-Covered : Ensures Safe (post_new p s)
  unfolding post_new
  post_new-Covered =
      Ensures-throw_if Safe (not (equals (total_debits p.entries) (total_credits p.entries)))
        unbalanced (post_all p.entries [] >>= create_transaction p) s
        (λ _.
          Ensures-bind (λ _ s'. Covered s') Safe (post_all p.entries []) (create_transaction p) s
            (post_all-Covered p.entries [] s fits h) created-Covered)

  post_entries-Covered : Ensures Safe (post_transaction_entries p s)
  unfolding post_transaction_entries
  post_entries-Covered = go (find p.reference s.transactions)
    where
      go : (o : Option Transaction) → Ensures Safe (post_unless p o s)
      go none = post_new-Covered
      go (some t) = h

pub FairRows-put :
    (r : Reference) (t : Transaction) (ts : Table Reference Transaction)
    → All FairEntry (map as_input t.entries)
    → FairRows ts
    → FairRows (put r t ts)
FairRows-put r t [] h k = (h, tt)
FairRows-put r t ((q, u) ∷ ts) h k = elim (Reference-discrete r q) [
  | yes e ↦ rw (if_pos _ e) (h, k.1)
  | no n ↦ rw (if_neg _ n) (k.0, FairRows-put r t ts h k.1)
]

pub FairRows-find :
    (r : Reference) (t : Transaction) (ts : Table Reference Transaction)
    → find r ts ≡ some t
    → FairRows ts
    → All FairEntry (map as_input t.entries)
FairRows-find r t [] e k = cc
FairRows-find r t ((q, u) ∷ ts) e k = elim (Reference-discrete r q) [
  | yes p ↦ let w : some u ≡ some t = rw (if_pos _ p) at e in let same : t ≡ u = cc w in rw same k.0
  | no n ↦ FairRows-find r t ts (rw (if_neg _ n) at e) k.1
]

Outcome-FairRows :
    (p : PostTransactionParams) {s s' : Books} (r : Reference × Transaction)
    → All FairEntry p.entries
    → FairRows s.transactions
    → Outcome p s r s'
    → FairRows s'.transactions
Outcome-FairRows p r fits k (_, inl (_, same)) = rw same k
Outcome-FairRows p r fits k (_, inr m) =
    rw m.added (FairRows-put p.reference r.1 _ (rw m.row.entries fits) k)

-- A posting with fair entries keeps the books solvent.
pub post_entries-IsSolvent :
    (p : PostTransactionParams) (s : Books)
    → All FairEntry p.entries
    → IsSolvent s
    → Ensures (λ _ s'. IsSolvent s') (post_transaction_entries p s)
post_entries-IsSolvent p s fits h =
    Ensures-weaken (λ r s'. Outcome p s r s' × Covered s') (λ _ s'. IsSolvent s')
      (post_transaction_entries p s)
      (λ r s' o. record {
        covered = unfold Covered in o.1;
        fair = Outcome-FairRows p r fits h.fair o.0;
      })
      (Ensures-both (Outcome p s) (λ _ s'. Covered s') (post_transaction_entries p s)
        (post_transaction_entries-Outcome p s)
        (post_entries-Covered p fits s (unfold Covered in h.covered)))
