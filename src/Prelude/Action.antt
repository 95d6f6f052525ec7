-- ===== src/Prelude/Action.antt =====
-- What a service method does: it reads and writes the database, and returns or throws. What was
-- written before a throw stays written, unless a database transaction rolls it back.
use kilo_backend.Prelude.{Bool, Option, false, if◌then◌else◌, none, refl, some, true, ◌≡◌}
use mathlib.Core.Path.{subst}

-- The exceptions, by the class that is thrown: those of NestJS, `Error`, and two of Prisma's (a row
-- that `findUniqueOrThrow` or `update` did not find, and a violated unique constraint).
pub data Error : Type 0 where
  not_found conflict bad_request forbidden unauthorized : Error
  unbalanced row_missing unique_violation gateway_failed : Error

pub data Result (A : Type 0) : Type 0 where
  ok : A → Result A
  err : Error → Result A

abbrev pub Action : Type 0 → Type 0 → Type 0
Action S A = S → Result A × S

module _ {S A : Type 0} where
  abbrev pub pure : A → Action S A
  pure a s = (ok a, s)

  abbrev pub throw : Error → Action S A
  throw e s = (err e, s)

  abbrev pub gets : (S → A) → Action S A
  gets f s = (ok (f s), s)

  abbrev pub or_throw : Error → Option A → Action S A
  or_throw e none = throw e
  or_throw e (some a) = pure a

  abbrev pub roll_back : S → Result A × S → Result A × S
  roll_back s (ok a, s') = (ok a, s')
  roll_back s (err e, s') = (err e, s)

  -- `prisma.$transaction`: a throw undoes what was written.
  abbrev pub transaction : Action S A → Action S A
  transaction m s = roll_back s (m s)

  abbrev pub go_catch : (Error → Action S A) → Result A × S → Result A × S
  go_catch h (ok a, s) = (ok a, s)
  go_catch h (err e, s) = h e s

  -- `try { m } catch (err) { h(err) }`
  abbrev pub catch : Action S A → (Error → Action S A) → Action S A
  catch m h s = go_catch h (m s)

module _ {S A B : Type 0} where
  abbrev pub go_on : (A → Action S B) → Result A × S → Result B × S
  go_on f (ok a, s) = f a s
  go_on f (err e, s) = (err e, s)

  infixl 5 ◌>>=◌ ◌>>◌
  abbrev pub ◌>>=◌ : Action S A → (A → Action S B) → Action S B
  ◌>>=◌ m f s = go_on f (m s)

  abbrev pub ◌>>◌ : Action S A → Action S B → Action S B
  m >> k = m >>= λ _. k

module _ {S : Type 0} where
  abbrev pub modify : (S → S) → Action S (Unit {0})
  modify f s = (ok tt, f s)

  abbrev pub skip : Action S (Unit {0})
  skip s = (ok tt, s)

  -- `if (test) throw ...`
  abbrev pub throw_if : Bool → Error → Action S (Unit {0})
  throw_if true e s = (err e, s)
  throw_if false e s = (ok tt, s)

-- What holds of the value and the state where a run returned; nothing is said of one that threw.
module _ {S A : Type 0} where
  abbrev pub Ensures : (A → S → Type 0) → Result A × S → Type 0
  Ensures P (ok a, s) = P a s
  Ensures P (err e, s) = Unit

  pub Ensures-weaken :
      (P Q : A → S → Type 0) (r : Result A × S)
      → ((a : A) (s' : S) → P a s' → Q a s')
      → Ensures P r
      → Ensures Q r
  Ensures-weaken P Q (ok a, s) k h = k a s h
  Ensures-weaken P Q (err e, s) k h = tt

module _ {S A : Type 0} where
  -- What a run that returned has established.
  pub Ensures-ok :
      (P : A → S → Type 0) {r : Result A × S} {a : A} {s : S} → Ensures P r → r ≡ (ok a, s) → P a s
  Ensures-ok P h e = subst (Ensures P) e h

  pub Ensures-both :
      (P Q : A → S → Type 0) (r : Result A × S)
      → Ensures P r
      → Ensures Q r
      → Ensures (λ a s. P a s × Q a s) r
  Ensures-both P Q (ok a, s) h k = (h, k)
  Ensures-both P Q (err e, s) h k = tt

module _ {S A B : Type 0} where
  pub Ensures-bind :
      (P : A → S → Type 0) (Q : B → S → Type 0) (m : Action S A) (f : A → Action S B) (s : S)
      → Ensures P (m s)
      → ((a : A) (s' : S) → P a s' → Ensures Q (f a s'))
      → Ensures Q ((m >>= f) s)
  Ensures-bind P Q m f s h k = go (m s) h
    where
      go : (r : Result A × S) → Ensures P r → Ensures Q (go_on f r)
      go (ok a, s') p = k a s' p
      go (err e, s') p = tt

  -- The rest of a block runs only where the row was found, and only where a guard let it through.
  pub Ensures-or_throw :
      (Q : B → S → Type 0) (e : Error) (o : Option A) (f : A → Action S B) (s : S)
      → ((a : A) → o ≡ some a → Ensures Q (f a s))
      → Ensures Q ((or_throw e o >>= f) s)
  Ensures-or_throw Q e none f s k = tt
  Ensures-or_throw Q e (some a) f s k = k a refl

module _ {S B : Type 0} where
  pub Ensures-throw_if :
      (Q : B → S → Type 0) (b : Bool) (e : Error) (m : Action S B) (s : S)
      → (b ≡ false → Ensures Q (m s))
      → Ensures Q ((throw_if b e >> m) s)
  Ensures-throw_if Q true e m s k = tt
  Ensures-throw_if Q false e m s k = k refl

  pub Ensures-if :
      (Q : B → S → Type 0) (b : Bool) (m n : Action S B) (s : S)
      → (b ≡ true → Ensures Q (m s))
      → (b ≡ false → Ensures Q (n s))
      → Ensures Q ((if b then m else n) s)
  Ensures-if Q true m n s k l = k refl
  Ensures-if Q false m n s k l = l refl

  -- A transaction ends as its body does, or as it began.
  pub Ensures-transaction :
      (Q : B → S → Type 0) (m : Action S B) (s : S) → Ensures Q (m s) → Ensures Q (transaction m s)
  Ensures-transaction Q m s h = go (m s) h
    where
      go : (r : Result B × S) → Ensures Q r → Ensures Q (roll_back s r)
      go (ok a, s') p = p
      go (err e, s') p = tt
