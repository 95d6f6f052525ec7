-- ===== src/Prelude/Table.antt =====
-- A database table with a unique key, as a list of rows in the order of their creation.
use kilo_backend.Prelude.{
  Bool, List, Option, [], ap, arith, holds, if◌then◌else◌, ite, none, refl, some, sym, ℕ,
  ℕ_discrete, ◌∷◌, ◌≡◌, ◌≢◌,
}
use mathlib.Core.Option

-- The types of keys: their equality is decidable.
pub record Key {ℓ} (K : Type ℓ) : Type ℓ where
  pub same : Discrete K

abbrev pub same? {ℓ} : {K : Type ℓ} ⦃k : Key K⦄ → Discrete K
same? ⦃k⦄ = k.same

instance abbrev pub number_key : Key ℕ
number_key = record { same = ℕ_discrete }

abbrev pub Table {ℓ} : Type ℓ → Type ℓ → Type ℓ
Table K V = List (K × V)

module _ {ℓ} {K V : Type ℓ} ⦃e : Key K⦄ where
  -- `findUnique({ where: { key } })`
  abbrev pub find : K → Table K V → Option V
  find k [] = none
  find k ((j, v) ∷ t) = ite (same? k j) (some v) (find k t)

  -- The row of this key gets this value: `update`, and `create` where the key is new.
  abbrev pub put : K → V → Table K V → Table K V
  put k v [] = (k, v) ∷ []
  put k v ((j, w) ∷ t) = ite (same? k j) ((j, v) ∷ t) ((j, w) ∷ put k v t)

  pub find-put_self : (k : K) (v : V) (t : Table K V) → find k (put k v t) ≡ some v
  find-put_self k v [] = ground arith
  find-put_self k v ((j, w) ∷ t) = ground (arith, find-put_self k v t)

  pub find-put_ne : (j k : K) (v : V) (t : Table K V) → j ≢ k → find j (put k v t) ≡ find j t
  find-put_ne j k v [] h = ground arith
  find-put_ne j k v ((i, w) ∷ t) h = ground (arith, find-put_ne j k v t h)

  pub find-put :
      (j k : K) (v : V) (t : Table K V) → find j (put k v t) ≡ ite (same? j k) (some v) (find j t)
  find-put j k v t = ground (arith, find-put_self k v t, find-put_ne j k v t)

  -- Writing back what a row holds changes nothing.
  pub put-put : (k : K) (v w : V) (t : Table K V) → put k v (put k w t) ≡ put k v t
  put-put k v w [] = ground arith
  put-put k v w ((j, u) ∷ t) = ground (arith, put-put k v w t)

-- `updateMany({ where, data })`: every row that the test selects is changed.
module _ {ℓ} {K V : Type ℓ} where
  abbrev pub update_where : (K → V → Bool) → (V → V) → Table K V → Table K V
  update_where p f [] = []
  update_where p f ((k, v) ∷ t) = (k, if p k v then f v else v) ∷ update_where p f t

module _ {ℓ} {K V : Type ℓ} ⦃e : Key K⦄ where
  -- `updateMany` on the rows of one key.
  pub find-update_where :
      (j k : K) (f : V → V) (t : Table K V)
      → find j (update_where (λ i _. holds (same? k i)) f t)
        ≡ ite (same? j k) (Option.map f (find j t)) (find j t)
  find-update_where j k f [] = ground arith
  find-update_where j k f ((i, v) ∷ t) = ground (arith, find-update_where j k f t)

  -- `updateMany` with any test on a row.
  pub find-update_any :
      (j : K) (p : K → V → Bool) (f : V → V) (t : Table K V)
      → find j (update_where p f t) ≡ Option.map (λ v. if p j v then f v else v) (find j t)
  find-update_any j p f [] = refl
  find-update_any j p f ((i, v) ∷ t) =
      go (find j (update_where p f t)) (find j t) (same? j i) (find-update_any j p f t)
    where
      go :
          (o u : Option V) (d : Dec (j ≡ i))
          → o ≡ Option.map (λ w. if p j w then f w else w) u
          → ite d (some (if p i v then f v else v)) o
            ≡ Option.map (λ w. if p j w then f w else w) (ite d (some v) u)
      go o u (yes e) h = ap (λ k. some (if p k v then f v else v)) (sym e)
      go o u (no _) h = h
