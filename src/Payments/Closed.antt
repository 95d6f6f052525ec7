-- ===== src/Payments/Closed.antt =====
-- What closes the request of a top-up (src/wallet/payments.service.ts).
use kilo_backend.Payments.Store.{Authorization, PaymentCard, Payments, TopUpRequest}
use kilo_backend.Payments.TopUps.{
  complete_found, complete_with, is_top_up_completed, notify, save_card_of, save_signed,
  saved_card_id, update_request, upsert_card,
}
use kilo_backend.Prelude.{Option, holds, ite, none, refl, some, true, ℕ, ◌≡◌}
use kilo_backend.Prelude.Action.{Ensures, Ensures-bind, Ensures-if, skip, ◌>>=◌, ◌>>◌}
use kilo_backend.Prelude.Keeps.{Keeps, keeps_rules, returned}
use kilo_backend.Prelude.Table.{Table, find, find-update_where, number_key, same?, update_where}
use kilo_backend.Wallet.Ledger.{Reference, reference_key}
use mathlib.Core.Option.{map as option_map}

-- A request that `completeTopUpRequest` has nothing to do for.
abbrev pub Ended : Option TopUpRequest → Type 0
Ended none = Unit
Ended (some r) = is_top_up_completed r.status ≡ true

pub record TopUpClosed (q : Reference) (s s' : Payments) : Type 0 where
  pub same_books : s'.books ≡ s.books
  pub same_users : s'.users ≡ s.users
  pub ended : Ended (find q s'.requests)

-- Saving a card leaves the ledger, the users and the requests alone.
module _ (s : Payments) where
  abbrev Beside : Payments → Type 0
  Beside u = (u.books ≡ s.books) × (u.users ≡ s.users) × (u.requests ≡ s.requests)

  Beside-self : Beside s
  Beside-self = (refl, refl, refl)

  upsert_card-Beside :
      (new user signature : ℕ) (auth : Authorization) (row : Option (ℕ × PaymentCard))
      → Keeps Beside (upsert_card new user signature auth row)
  unfolding upsert_card
  upsert_card-Beside new user signature auth none = record { at = λ u h. h }
  upsert_card-Beside new user signature auth (some row) = record { at = λ u h. h }

  save_card-Beside :
      (new user : ℕ) (auth : Authorization) (signature : ℕ)
      → Keeps Beside (save_card_of new user auth signature)
  unfolding save_card_of
  save_card-Beside new user auth signature = search (keeps_rules, upsert_card-Beside) depth 12

  save_signed-Beside :
      (new user : ℕ) (request : TopUpRequest) (auth : Authorization) (signature : Option ℕ)
      → Keeps Beside (save_signed new user request auth signature)
  unfolding save_signed
  save_signed-Beside new user request auth none = search keeps_rules depth 6
  save_signed-Beside new user request auth (some signature) =
      search (keeps_rules, save_card-Beside) depth 12

  saved_card_id-Beside :
      (new user : ℕ) (request : TopUpRequest) (auth : Option Authorization)
      → Keeps Beside (saved_card_id new user request auth)
  unfolding saved_card_id
  saved_card_id-Beside new user request none = search keeps_rules depth 6
  saved_card_id-Beside new user request (some auth) =
      save_signed-Beside new user request auth auth.signature

ended_after :
    (card : Option ℕ) (auth : Option Authorization) {q : Reference} (d : Dec (q ≡ q))
    (o : Option TopUpRequest)
    → Ended (ite d (option_map (complete_with card auth) o) o)
ended_after card auth (yes _) none = tt
ended_after card auth (yes _) (some r) = refl
ended_after card auth (no n) o = absurd (n refl)

completed_now :
    (q : Reference) (card : Option ℕ) (auth : Option Authorization)
    (t : Table Reference TopUpRequest)
    → Ended (find q (update_where (λ k _. holds (same? q k)) (complete_with card auth) t))
completed_now q card auth t =
    rw (find-update_where q q (complete_with card auth) t)
      (ended_after card auth (same? q q) (find q t))

pub complete_found-TopUpClosed :
    (new : ℕ) (q : Reference) (user : ℕ) (auth : Option Authorization) (s : Payments)
    (o : Option TopUpRequest)
    → find q s.requests ≡ o
    → Ensures (λ _ s'. TopUpClosed q s s') (complete_found new q user auth o s)
unfolding complete_found
complete_found-TopUpClosed new q user auth s none e = record {
  same_books = refl;
  same_users = refl;
  ended = rw e tt;
}
complete_found-TopUpClosed new q user auth s (some r) e =
    Ensures-if (λ _ s'. TopUpClosed q s s') (is_top_up_completed r.status) skip
      (do
        method ← saved_card_id new user r auth
        update_request q (complete_with method auth)
        notify q)
      s (λ done. record { same_books = refl; same_users = refl; ended = rw e done })
      (λ _.
        Ensures-bind (λ _ u. Beside s u) (λ _ s'. TopUpClosed q s s')
          (saved_card_id new user r auth)
          (λ method. update_request q (complete_with method auth) >> notify q) s
          (returned (Beside s) _ s (saved_card_id-Beside s new user r auth) (Beside-self s))
          (λ method u h. record {
            same_books = h.0;
            same_users = h.1;
            ended = completed_now q method auth u.requests;
          }))
