-- ===== src/Prelude/Errors.antt =====
-- api/errors.ts: the errors that the operations throw, and computations that may throw one.
-- An error's code, path and path issue are kept; its message, cause and flags are not.
use mathlib.Core.Path.{◌≡◌, refl}
use mathlib.Core.Bool.{Bool, true, false}
use mathlib.Core.Option.{Option, none}
use mathlib.Core.List.{List, [], ◌∷◌}
use supabash_fs.Prelude.Strings.{Text}

pub data SupabashErrorCode : Type 0 where
  authentication authorization commit_conflict commit_coordination commit_in_progress
        expired_capability history_corruption idempotency_conflict invalid_capability invalid_patch
        invalid_path partial_commit policy_denied quota_exceeded revision_not_found redacted
        redaction_current_body redaction_invalidated restore_crosses_redaction storage
        unsupported_content :
      SupabashErrorCode

pub data VirtualPathIssue : Type 0 where
  ambiguous out_of_root reserved : VirtualPathIssue

pub record SupabashError : Type 0 where
  pub code : SupabashErrorCode
  pub path : Option Text
  pub issue : Option VirtualPathIssue

abbrev pub supabash_error : SupabashErrorCode → Option Text → SupabashError
supabash_error c p = record { code = c; path = p; issue = none }

pub data Result {ℓ} (A : Type ℓ) : Type ℓ where
  err : SupabashError → Result A
  ok : A → Result A

-- `if (test) throw error`
abbrev pub throw_if : Bool → SupabashError → Result (Unit {0})
throw_if true e = err e
throw_if false e = ok tt

infixl 5 ◌>>=◌ ◌>>◌
abbrev pub ◌>>=◌ {ℓ κ} : {A : Type ℓ} {B : Type κ} → Result A → (A → Result B) → Result B
err e >>= next = err e
ok a >>= next = next a

abbrev pub ◌>>◌ {ℓ} : {B : Type ℓ} → Result (Unit {0}) → Result B → Result B
first >> next = first >>= λ _. next

-- `map` with a function that may throw: the first error ends it.
abbrev pub each {ℓ κ} : {A : Type ℓ} {B : Type κ} → (A → Result B) → List A → Result (List B)
each f [] = ok []
each f (x ∷ xs) = do y ← f x; ys ← each f xs; ok (y ∷ ys)

-- What returns, returns in both parts.
pub >>=-eq-ok {ℓ κ} :
    {B : Type κ} {A : Type ℓ} (first : Result A) (next : A → Result B) {out : B}
    → (first >>= next) ≡ ok out
    → (x : A) × (first ≡ ok x) × (next x ≡ ok out)
>>=-eq-ok (err _) next returned = cc
>>=-eq-ok (ok x) next returned = (x, refl, returned)

pub ok_inj {ℓ} : {A : Type ℓ} {a b : A} → ok a ≡ ok b → a ≡ b
ok_inj e = cc

pub err_not_ok {ℓ} : {A : Type ℓ} {e : SupabashError} {a : A} → err e ≡ ok a → ⊥
err_not_ok h = cc
