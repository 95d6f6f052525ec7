-- ===== src/Prelude/Lists.antt =====
-- Lists measured by native numbers, with the tests that the services write as
-- `find`, `filter`, `some` and `includes`.
use kilo_backend.Prelude.{
  Bool, Bool-cases, List, Option, [], arith, false, if◌then◌else◌, inl, inr, none, some, suc, sym,
  true, ℕ, ◌||◌, ◌∷◌, ◌≡◌,
}
use mathlib.Core.Path.{subst}
use mathlib.Core.List.{Mem, mem-cons_of_mem, mem-cons_self}

module _ {ℓ} {A : Type ℓ} where
  abbrev pub length : List A → ℕ
  length [] = 0
  length (x ∷ xs) = suc (length xs)

  -- `xs.filter(p)`
  abbrev pub keep : (A → Bool) → List A → List A
  keep p [] = []
  keep p (x ∷ xs) = let rest = keep p xs in if p x then x ∷ rest else rest

  -- `xs.some(p)`
  abbrev pub some_of : (A → Bool) → List A → Bool
  some_of p [] = false
  some_of p (x ∷ xs) = p x || some_of p xs

  -- `xs.find(p)`
  abbrev pub first_of? : (A → Bool) → List A → Option A
  first_of? p [] = none
  first_of? p (x ∷ xs) = if p x then some x else first_of? p xs

module _ {ℓ κ} {A : Type ℓ} where
  -- A predicate at every item of a list.
  abbrev pub All : (A → Type κ) → List A → Type κ
  All P [] = Unit
  All P (x ∷ xs) = P x × All P xs

module _ {A : Type 0} where
  pub All-map : (P Q : A → Type 0) (xs : List A) → ((x : A) → P x → Q x) → All P xs → All Q xs
  All-map P Q [] f h = tt
  All-map P Q (x ∷ xs) f h = (f x h.0, All-map P Q xs f h.1)

  pub All-Mem : (xs : List A) → All (λ x. Mem x xs) xs
  All-Mem [] = tt
  All-Mem (x ∷ xs) = (
    mem-cons_self,
    All-map (λ y. Mem y xs) (λ y. Mem y (x ∷ xs)) xs (λ y m. mem-cons_of_mem x m) (All-Mem xs),
  )

  -- What is kept comes from the list and passes the test.
  pub keep-All :
      (P : A → Type 0) (p : A → Bool) (xs : List A)
      → All P xs
      → All (λ x. P x × (p x ≡ true)) (keep p xs)
  keep-All P p [] h = tt
  keep-All P p (x ∷ xs) h = elim (Bool-cases (p x)) [
    | inl e ↦ rw e ((h.0, e), keep-All P p xs h.1)
    | inr e ↦ rw e (keep-All P p xs h.1)
  ]

  kept_cons :
      (P : A → Type 0) (b : Bool) (x : A) (rest : List A)
      → All P (if b then x ∷ rest else rest)
      → (b ≡ true → P x) × All P rest
  kept_cons P true x rest h = (λ _. h.0, h.1)
  kept_cons P false x rest h = (λ e. absurd (ground (arith, e)), h)

  -- What holds of all that is kept holds of all that passes the test.
  pub All-keep :
      (P : A → Type 0) (p : A → Bool) (xs : List A)
      → All P (keep p xs)
      → All (λ x. p x ≡ true → P x) xs
  All-keep P p [] h = tt
  All-keep P p (x ∷ xs) h =
      let parts : (p x ≡ true → P x) × All P (keep p xs) = kept_cons P (p x) x (keep p xs) h in
      (parts.0, All-keep P p xs parts.1)

  pub keep_none : (p : A → Bool) (xs : List A) → keep p xs ≡ [] → All (λ x. p x ≡ false) xs
  keep_none p xs h =
      All-map (λ x. p x ≡ true → ⊥) (λ x. p x ≡ false) xs
        (λ x no_pass. elim (Bool-cases (p x)) [ inl e ↦ absurd (no_pass e) | inr e ↦ e ])
        (All-keep (λ _. ⊥) p xs (subst (All (λ _. ⊥)) (sym h) tt))
