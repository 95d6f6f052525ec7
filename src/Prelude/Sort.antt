-- ===== src/Prelude/Sort.antt =====
-- `xs.sort(compare)`, which is stable, with `before x y` for a comparison that is at most 0.
use kilo_backend.Prelude.{
  Bool, Bool-cases, List, Option, [], ap, arith, if◌then◌else◌, inl, inr, leb, none, refl, some,
  sym, ℕ, ◌∙◌, ◌∷◌, ◌≡◌, ◌≤◌,
}
use kilo_backend.Prelude.Lists.{All}
use mathlib.Core.Option.{some-injective}
use mathlib.Core.Path.{subst}

module _ {A : Type 0} (before : A → A → Bool) where
  abbrev pub insert : A → List A → List A
  insert x [] = x ∷ []
  insert x (y ∷ ys) = let rest = insert x ys in if before x y then x ∷ y ∷ ys else y ∷ rest

  abbrev pub sort : List A → List A
  sort [] = []
  sort (x ∷ xs) = insert x (sort xs)

-- `xs[0]`
abbrev pub head? {ℓ} : {A : Type ℓ} → List A → Option A
head? [] = none
head? (x ∷ xs) = some x

module _ {A : Type 0} (before : A → A → Bool) where
  abbrev pick : A → Option A → A
  pick x none = x
  pick x (some y) = if before x y then x else y

  insert_head : (x : A) (ys : List A) → head? (insert before x ys) ≡ some (pick x (head? ys))
  insert_head x [] = refl
  insert_head x (y ∷ ys) = ground arith

  insert-All : (P : A → Type 0) (x : A) (ys : List A) → P x → All P ys → All P (insert before x ys)
  insert-All P x [] h k = (h, tt)
  insert-All P x (y ∷ ys) h k = elim (Bool-cases (before x y)) [
    | inl e ↦ rw e (h, k)
    | inr e ↦ rw e (k.0, insert-All P x ys h k.1)
  ]

  sort-All : (P : A → Type 0) (xs : List A) → All P xs → All P (sort before xs)
  sort-All P [] h = tt
  sort-All P (x ∷ xs) h = insert-All P x (sort before xs) h.0 (sort-All P xs h.1)

  head-All : (P : A → Type 0) (xs : List A) (x : A) → All P xs → head? xs ≡ some x → P x
  head-All P [] x h e = absurd (ground arith)
  head-All P (y ∷ ys) x h e = subst P (some-injective y x e) h.0

  -- What holds of every item holds of the first one of the sorted list.
  pub sort_head-All :
      (P : A → Type 0) (xs : List A) (x : A) → All P xs → head? (sort before xs) ≡ some x → P x
  sort_head-All P xs x h e = head-All P (sort before xs) x (sort-All P xs h) e

  pub sort_head_none : (xs : List A) → head? (sort before xs) ≡ none → xs ≡ []
  sort_head_none [] e = refl
  sort_head_none (x ∷ xs) e = absurd (cc (e, insert_head x (sort before xs)))

module _ {A : Type 0} (rank : A → ℕ) where
  abbrev higher : A → A → Bool
  higher a b = leb (rank b) (rank a)

  All-weaken :
      (x y : A)
      → rank x ≤ rank y
      → (xs : List A) → All (λ z. rank z ≤ rank x) xs
      → All (λ z. rank z ≤ rank y) xs
  All-weaken x y h [] k = tt
  All-weaken x y h (z ∷ zs) k = (omega (arith, k.0, h), All-weaken x y h zs k.1)

  -- The first one of the list sorted by falling rank has the highest rank.
  pub sort_head_best :
      (xs : List A) (x : A)
      → head? (sort (λ a b. leb (rank b) (rank a)) xs) ≡ some x
      → All (λ y. rank y ≤ rank x) xs
  sort_head_best [] x e = tt
  sort_head_best (y ∷ ys) x e = go (sort_head_best ys) (head? (sort higher ys)) refl
    where
      chosen : (o : Option A) → head? (sort higher ys) ≡ o → pick higher y o ≡ x
      chosen o h = some-injective (pick higher y o) x (
          sym (ap (λ i. some (pick higher y i)) h)
          ∙ sym (insert_head higher y (sort higher ys))
          ∙ e)

      go :
          ((z : A) → head? (sort higher ys) ≡ some z → All (λ w. rank w ≤ rank z) ys)
          → (o : Option A) → head? (sort higher ys) ≡ o
          → All (λ z. rank z ≤ rank x) (y ∷ ys)
      go ih none h = (
        omega (arith, ap rank (chosen none h)),
        subst (All (λ z. rank z ≤ rank x)) (sym (sort_head_none higher ys h)) tt,
      )
      go ih (some z) h =
          let below : All (λ w. rank w ≤ rank z) ys = ih z h in
          elim (Bool-cases (higher y z)) [
            | inl over ↦
                let is_y : y ≡ x = rw (sym (chosen (some z) h)) (rw over refl) in
                (
                  omega (arith, ap rank is_y),
                  All-weaken z x (ground (arith, over, ap rank is_y)) ys below,
                )
            | inr under ↦
                let is_z : z ≡ x = rw (sym (chosen (some z) h)) (rw under refl) in
                (
                  ground (arith, under, ap rank is_z),
                  All-weaken z x (omega (arith, ap rank is_z)) ys below,
                )
          ]
