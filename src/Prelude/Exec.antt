-- ===== src/Prelude/Exec.antt =====
-- Methods that change an object and may throw: what was written before a throw stays written, so
-- the object comes back beside the error too.
use mathlib.Core.Path.{◌≡◌, refl, ap}
use mathlib.Core.Bool.{Bool, true, false}
use mathlib.Core.List.{List, [], ◌∷◌}
use supabash_fs.Prelude.Tests.{if◌then◌else◌}
use supabash_fs.Prelude.Errors.{Result, SupabashError, err, ok}

abbrev pub Exec : Type 0 → Type 0 → Type 0
Exec S A = S → Result A × S

module _ {S A : Type 0} where
  unfoldable pub pure : A → Exec S A
  pure a s = (ok a, s)

  unfoldable pub throw : SupabashError → Exec S A
  throw e s = (err e, s)

  unfoldable pub lift : Result A → Exec S A
  lift r s = (r, s)

  unfoldable pub gets : (S → A) → Exec S A
  gets f s = (ok (f s), s)

  -- A computation that reads the object and may throw.
  unfoldable pub reads : (S → Result A) → Exec S A
  reads f s = (f s, s)

unfoldable pub modify : {S : Type 0} → (S → S) → Exec S (Unit {0})
modify f s = (ok tt, f s)

module _ {S A B : Type 0} where
  abbrev pub continue : Result A → (A → Exec S B) → Exec S B
  continue (ok a) f s = f a s
  continue (err e) f s = (err e, s)

  infixl 5 ◌>>=◌ ◌>>◌
  -- Whoever opens this opens the actions above too.
  unfoldable pub ◌>>=◌ : Exec S A → (A → Exec S B) → Exec S B
  unfolding pure throw lift gets reads modify
  ◌>>=◌ m f s = let (r, s') = m s in continue r f s'

  abbrev pub ◌>>◌ : Exec S A → Exec S B → Exec S B
  m >> n = m >>= λ _. n

-- A `for … of` loop whose body changes the object.
module _ {S A : Type 0} where
  unfoldable pub for_each : (A → Exec S (Unit {0})) → List A → Exec S (Unit {0})
  for_each f [] = pure tt
  for_each f (x ∷ xs) = f x >>= λ _. for_each f xs

-- An operation keeps `P`, whether it returns or throws.
pub record Keeps {S A : Type 0} (P : S → Type 0) (m : Exec S A) : Type 0 where
  pub at : (s : S) → P s → P (m s).1

module _ {S A B : Type 0} {P : S → Type 0} where
  continue-Keeps :
      (r : Result A) (f : A → Exec S B)
      → ((a : A) → Keeps P (f a))
      → (s : S) → P s
      → P (continue r f s).1
  continue-Keeps (ok a) f h s p = (h a).at s p
  continue-Keeps (err e) f h s p = p

  pub >>=-Keeps :
      {m : Exec S A} {f : A → Exec S B} → Keeps P m → ((a : A) → Keeps P (f a)) → Keeps P (m >>= f)
  unfolding ◌>>=◌
  >>=-Keeps {m} {f} h k = record { at = λ s p. continue-Keeps (m s).0 f k (m s).1 (h.at s p) }

module _ {S A : Type 0} {P : S → Type 0} where
  pub pure-Keeps : (a : A) → Keeps P (pure a)
  unfolding pure
  pure-Keeps a = record { at = λ s p. p }

  pub throw-Keeps : (e : SupabashError) → Keeps P (throw {A = A} e)
  unfolding throw
  throw-Keeps e = record { at = λ s p. p }

  pub lift-Keeps : (r : Result A) → Keeps P (lift r)
  unfolding lift
  lift-Keeps r = record { at = λ s p. p }

  pub gets-Keeps : (f : S → A) → Keeps P (gets f)
  unfolding gets
  gets-Keeps f = record { at = λ s p. p }

  pub reads-Keeps : (f : S → Result A) → Keeps P (reads f)
  unfolding reads
  reads-Keeps f = record { at = λ s p. p }

  pub if-Keeps : (b : Bool) (m n : Exec S A) → Keeps P m → Keeps P n → Keeps P (if b then m else n)
  if-Keeps true m n h k = h
  if-Keeps false m n h k = k

  pub for_each-Keeps :
      (f : A → Exec S (Unit {0})) (xs : List A)
      → ((a : A) → Keeps P (f a))
      → Keeps P (for_each f xs)
  unfolding for_each
  for_each-Keeps f [] h = record { at = unfold pure in λ s p. p }
  for_each-Keeps f (x ∷ xs) h = >>=-Keeps (h x) (λ _. for_each-Keeps f xs h)

pub ruleset keeps = (
  >>=-Keeps, pure-Keeps, throw-Keeps, lift-Keeps, gets-Keeps, reads-Keeps, if-Keeps, for_each-Keeps,
)

-- A sequence that returns has parts that return.
module _ {S A B : Type 0} where
  continue-eq-ok :
      (r : Result A) (f : A → Exec S B) (s : S) {b : B}
      → (continue r f s).0 ≡ ok b
      → (a : A) × (r ≡ ok a) × ((f a s).0 ≡ ok b)
  continue-eq-ok (ok a) f s h = (a, refl, h)
  continue-eq-ok (err e) f s h = cc

  pub bind-eq-ok :
      (m : Exec S A) (f : A → Exec S B) (s : S) {b : B}
      → ((m >>= f) s).0 ≡ ok b
      → (a : A) × ((m s).0 ≡ ok a) × ((f a (m s).1).0 ≡ ok b)
  unfolding ◌>>=◌
  bind-eq-ok m f s h = continue-eq-ok (m s).0 f (m s).1 h

  -- What follows a part that returns starts from where that part ended.
  pub bind-at :
      (m : Exec S A) (f : A → Exec S B) (s : S) (a : A) → (m s).0 ≡ ok a → (m >>= f) s ≡ f a (m s).1
  unfolding ◌>>=◌
  bind-at m f s a h = ap (λ r. continue r f (m s).1) h

-- What an operation makes true from `P`: `Q` of what it returns, and `R` where it throws.
module _ {S A : Type 0} (Q : A → S → Type 0) (R : S → Type 0) where
  abbrev pub Outcome : Result A → S → Type 0
  Outcome (ok a) s = Q a s
  Outcome (err e) s = R s

pub record Runs {S A : Type 0} (P : S → Type 0) (m : Exec S A) (Q : A → S → Type 0) (R : S → Type 0)
    : Type 0 where
  pub at : (s : S) → P s → Outcome Q R (m s).0 (m s).1

module _ {S A B : Type 0} (Q : A → S → Type 0) (Q' : B → S → Type 0) (R : S → Type 0) where
  continue-Runs :
      (r : Result A) (f : A → Exec S B) (s : S)
      → ((a : A) → Runs (Q a) (f a) Q' R)
      → Outcome Q R r s
      → Outcome Q' R (continue r f s).0 (continue r f s).1
  continue-Runs (ok a) f s h o = (h a).at s o
  continue-Runs (err e) f s h o = o

module _ {S A B : Type 0} {P : S → Type 0} {Q : A → S → Type 0} {Q' : B → S → Type 0}
    {R : S → Type 0} where
  pub >>=-Runs :
      {m : Exec S A} {f : A → Exec S B}
      → Runs P m Q R
      → ((a : A) → Runs (Q a) (f a) Q' R)
      → Runs P (m >>= f) Q' R
  unfolding ◌>>=◌
  >>=-Runs {m} {f} h k = record { at = λ s p. continue-Runs Q Q' R (m s).0 f (m s).1 k (h.at s p) }

lift-Outcome :
    {S A : Type 0} (P R : S → Type 0) (r : Result A) (s : S)
    → P s
    → R s
    → Outcome (λ (a : A). P) R r s
lift-Outcome P R (ok a) s p q = p
lift-Outcome P R (err e) s p q = q

module _ {S A : Type 0} {P : S → Type 0} {R : S → Type 0} where
  pub lift-Runs : (r : Result A) → ((s : S) → P s → R s) → Runs P (lift r) (λ a. P) R
  unfolding lift
  lift-Runs r h = record { at = λ s p. lift-Outcome P R r s p (h s p) }

  pub pure-Runs : {Q : A → S → Type 0} (a : A) → ((s : S) → P s → Q a s) → Runs P (pure a) Q R
  unfolding pure
  pure-Runs a h = record { at = λ s p. h s p }

  pub gets-Runs : (f : S → A) → ((s : S) → P s → P s) → Runs P (gets f) (λ a. P) R
  unfolding gets
  gets-Runs f h = record { at = λ s p. h s p }
