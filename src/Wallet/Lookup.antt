-- ===== src/Wallet/Lookup.antt =====
-- What the lookups of WalletService return, and what they leave as it was.
use kilo_backend.Prelude.{
  List, Option, [], arith, if◌then◌else◌, is_some, none, refl, some, true, ℕ, ◌∙◌, ◌∷◌, ◌≡◌,
}
use kilo_backend.Prelude.Action.{
  Action, Ensures, Ensures-bind, Ensures-if, Ensures-or_throw, not_found, or_throw, pure, ◌>>=◌,
}
use kilo_backend.Prelude.Int.{leb_ℤ, pos, ℤ}
use kilo_backend.Prelude.Keeps.{Keeps}
use kilo_backend.Prelude.Table.{find, find-put, find-put_self}
use kilo_backend.Wallet.Ledger.{
  AccountId, AccountType, Books, LedgerEntryInput, account_key, balance_of, credit, owned, platform,
  platform_tax_payable, reference_key,
}
use kilo_backend.Wallet.Service.{
  Account, entry, get_or_create_user_account, get_platform_account, or_create, tax_entries,
}
use kilo_backend.Wallet.Sound.{created-balance}

-- At most accounts of balance 0 have been created.
pub record Grown (s s' : Books) : Type 0 where
  pub balances : (id : AccountId) → balance_of id s'.accounts ≡ balance_of id s.accounts
  pub known :
      (id : AccountId) → is_some (find id s.accounts) ≡ true → is_some (find id s'.accounts) ≡ true
  pub transactions : s'.transactions ≡ s.transactions
  pub drivers : s'.drivers ≡ s.drivers

pub Grown-refl : (s : Books) → Grown s s
Grown-refl s = record {
  balances = λ id. refl;
  known = λ id h. h;
  transactions = refl;
  drivers = refl;
}

pub Grown-trans : {s t u : Books} → Grown s t → Grown t u → Grown s u
Grown-trans g h = record {
  balances = λ id. h.balances id ∙ g.balances id;
  known = λ id k. h.known id (g.known id k);
  transactions = h.transactions ∙ g.transactions;
  drivers = h.drivers ∙ g.drivers;
}

-- The account that is returned is the user's, with its balance, and it is there.
abbrev pub Got : AccountId → Books → Account → Books → Type 0
Got id s a s' =
    (a ≡ (id, balance_of id s.accounts)) × (is_some (find id s'.accounts) ≡ true) × Grown s s'

or_create_lem :
    (id : AccountId) (o : Option ℤ) (s : Books)
    → find id s.accounts ≡ o
    → Ensures (Got id s) (or_create id o s)
unfolding or_create
or_create_lem id (some b) s e = (ground arith, ground arith, Grown-refl s)
or_create_lem id none s e = (
  ground arith,
  rw (find-put_self id (pos 0) s.accounts),
  record {
    balances = λ j. created-balance id j s.accounts e;
    known = λ j k. ground (arith, find-put j id (pos 0) s.accounts);
    transactions = refl;
    drivers = refl;
  },
)

pub get_or_create_lem :
    (owner : ℕ) (type : AccountType) (s : Books)
    → Ensures (Got (owned owner type) s) (get_or_create_user_account owner type s)
unfolding get_or_create_user_account
get_or_create_lem owner type s =
    or_create_lem (owned owner type) (find (owned owner type) s.accounts) s refl

pub get_platform_account_lem :
    (type : AccountType) (s : Books)
    → Ensures
        (λ a s'.
          (a.0 ≡ platform type) × (is_some (find (platform type) s.accounts) ≡ true) × (s' ≡ s))
        (get_platform_account type s)
unfolding get_platform_account
get_platform_account_lem type s =
    Ensures-or_throw
      (λ a s'.
        (a.0 ≡ platform type) × (is_some (find (platform type) s.accounts) ≡ true) × (s' ≡ s))
      not_found (find (platform type) s.accounts) (λ b. pure (platform type, b)) s
      (λ b e. (refl, rw e, refl))

-- The line of the tax, where there is tax.
unfoldable pub tax_list : ℤ → List LedgerEntryInput
tax_list tax =
    if leb_ℤ tax (pos 0) then [] else entry (platform platform_tax_payable) credit tax ∷ []

pub tax_entries_lem :
    (tax : ℤ) (s : Books) → Ensures (λ l s'. (l ≡ tax_list tax) × (s' ≡ s)) (tax_entries tax s)
unfolding tax_entries tax_list
tax_entries_lem tax s =
    let Q : List LedgerEntryInput → Books → Type 0 = λ l s'. (l ≡ tax_list tax) × (s' ≡ s) in
    let line = λ (payable : Account). pure (entry payable.0 credit tax ∷ []) in
    Ensures-if Q (leb_ℤ tax (pos 0)) (pure []) (get_platform_account platform_tax_payable >>= line)
      s (λ none_due. (rw none_due, refl))
      (λ due.
        Ensures-bind
          (λ a s'.
            (a.0 ≡ platform platform_tax_payable)
            × (is_some (find (platform platform_tax_payable) s.accounts) ≡ true)
            × (s' ≡ s))
          Q (get_platform_account platform_tax_payable) line s
          (get_platform_account_lem platform_tax_payable s) (λ a s' h. (rw (due, h.0), h.2)))

-- The rest of a block, after each lookup.
module _ {B : Type 0} (Q : B → Books → Type 0) where
  pub with_user :
      (owner : ℕ) (type : AccountType) (f : Account → Action Books B) (s : Books)
      → ((s' : Books)
          → Grown s s'
          → is_some (find (owned owner type) s'.accounts) ≡ true
          → Ensures Q (f (owned owner type, balance_of (owned owner type) s.accounts) s'))
      → Ensures Q ((get_or_create_user_account owner type >>= f) s)
  with_user owner type f s k =
      Ensures-bind (Got (owned owner type) s) Q (get_or_create_user_account owner type) f s
        (get_or_create_lem owner type s) (λ a s' g. rw g.0 (k s' g.2 g.1))

  pub with_platform :
      (type : AccountType) (f : Account → Action Books B) (s : Books)
      → ((b : ℤ)
          → is_some (find (platform type) s.accounts) ≡ true
          → Ensures Q (f (platform type, b) s))
      → Ensures Q ((get_platform_account type >>= f) s)
  unfolding get_platform_account
  with_platform type f s k = go (find (platform type) s.accounts) refl
    where
      go :
          (o : Option ℤ)
          → find (platform type) s.accounts ≡ o
          → Ensures Q (((or_throw not_found o >>= λ b. pure (platform type, b)) >>= f) s)
      go none e = tt
      go (some b) e = k b (rw e)

  pub with_taxes :
      (tax : ℤ) (f : List LedgerEntryInput → Action Books B) (s : Books)
      → Ensures Q (f (tax_list tax) s)
      → Ensures Q ((tax_entries tax >>= f) s)
  with_taxes tax f s k =
      Ensures-bind (λ l s'. (l ≡ tax_list tax) × (s' ≡ s)) Q (tax_entries tax) f s
        (tax_entries_lem tax s) (λ l s' e. rw (e.0, e.1) k)

pub or_create-Grown :
    (id : AccountId) (o : Option ℤ) (s : Books)
    → find id s.accounts ≡ o
    → Grown s (or_create id o s).1
unfolding or_create
or_create-Grown id (some b) s e = Grown-refl s
or_create-Grown id none s e = (or_create_lem id none s e).2

-- What survives the creation of empty accounts survives the lookup of a user's account.
pub get_or_create-Keeps :
    (P : Books → Type 0) (owner : ℕ) (type : AccountType)
    → ((s s' : Books) → P s → Grown s s' → P s')
    → Keeps P (get_or_create_user_account owner type)
unfolding get_or_create_user_account
get_or_create-Keeps P owner type stable = record {
  at = λ s h.
      stable s _ h (or_create-Grown (owned owner type) (find (owned owner type) s.accounts) s refl);
}
