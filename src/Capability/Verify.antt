-- ===== src/Capability/Verify.antt =====
-- src/capability/verify.ts: the checks on a capability's claims, and the use of its nonce.
-- `guard` turns a plain error into `INVALID_CAPABILITY`. Sums of times are exact, not rounded beyond
-- 2 ^ 53.
pub mod Laws
use supabash_fs.Capability.Jws.{JwsHost, jws_key_id, peek_compact_jws_header, verify_compact_jws}
use supabash_fs.Prelude.{
  Bool, Option, Result, SupabashError, Text, err, expired_capability, if◌then◌else◌, leb, none, not,
  ok, some, supabash_error, throw_if, ℕ, ◌+◌, ◌===◌, ◌>>=◌, ◌>>◌, ◌||◌,
}
use supabash_fs.Prelude.Json.{Number, lt_plus, natural, plus_lt, pos, ℤ}
use supabash_fs.Capability.Claims.{
  AnyDelegatedCapabilityClaims, assert_claim_schema, common, invalid, parse_claims, postgres_claims,
  storage_claims,
}

pub record Verifier (Key : Type 0) : Type 0 where
  pub audience : Text
  pub issuer : Text
  pub origin : Text
  pub clock_skew_seconds : Option Number
  pub max_lifetime_seconds : Option Number
  pub public_keys : Text → Option Key
  pub is_public : Key → Bool

abbrev pub default_clock_skew_seconds : ℕ
default_clock_skew_seconds = 60

abbrev pub default_max_capability_lifetime_seconds : ℕ
default_max_capability_lifetime_seconds = 900

abbrev pub expired : SupabashError
expired = supabash_error expired_capability none

-- A bound that is a safe integer and at least `least`
abbrev pub bound : ℕ → ℕ → Option Number → Result ℕ
bound least default none = ok default
bound least default (some (natural n)) = if leb least n then ok n else err invalid
bound least default (some _) = err invalid

unfoldable pub assert_audience :
    {Key : Type 0} → AnyDelegatedCapabilityClaims → Verifier Key → Result (Unit {0})
assert_audience claims verifier = do
  throw_if
      (not ((common claims).iss === verifier.issuer)
        || not ((common claims).aud === verifier.audience))
      invalid
  throw_if (not ((common claims).origin === verifier.origin)) invalid

-- `now` is the clock in whole seconds.
unfoldable pub assert_fresh :
    ℕ → AnyDelegatedCapabilityClaims → Option Number → Option Number → Result (Unit {0})
assert_fresh now claims clock_skew max_lifetime = do
  skew ← bound 0 default_clock_skew_seconds clock_skew
  lifetime ← bound 1 default_max_capability_lifetime_seconds max_lifetime
  throw_if (plus_lt (common claims).exp skew (pos now)) expired
  throw_if (lt_plus (pos (now + skew)) (common claims).iat 0) invalid
  throw_if
      (not (lt_plus (common claims).iat (common claims).exp 0)
        || plus_lt (common claims).iat lifetime (common claims).exp)
      invalid

abbrev pub usable_key : {Key : Type 0} → Verifier Key → Option Key → Result Key
usable_key verifier none = err invalid
usable_key verifier (some key) = if verifier.is_public key then ok key else err invalid

unfoldable pub public_key_for : {Key : Type 0} → Verifier Key → Text → Result Key
public_key_for verifier key_id = usable_key verifier (verifier.public_keys key_id)

-- A plain error, after `guard`
abbrev pub guarded : {A : Type 0} → Option A → Result A
guarded none = err invalid
guarded (some a) = ok a

unfoldable pub verify_inner :
    {Key : Type 0} → JwsHost Key → ℕ → Text → Verifier Key → Result AnyDelegatedCapabilityClaims
verify_inner host now capability verifier = do
  peeked ← guarded (peek_compact_jws_header host capability)
  key_id ← guarded (jws_key_id peeked)
  key ← public_key_for verifier key_id
  signed ← guarded (verify_compact_jws host capability key)
  signed_id ← guarded (jws_key_id signed.0)
  throw_if (not (signed_id === key_id)) invalid
  claims ← parse_claims signed.1
  assert_claim_schema claims
  assert_audience claims verifier
  assert_fresh now claims verifier.clock_skew_seconds verifier.max_lifetime_seconds
  ok claims

abbrev pub require_storage : AnyDelegatedCapabilityClaims → Result AnyDelegatedCapabilityClaims
require_storage (storage_claims claims bucket prefix) = ok (storage_claims claims bucket prefix)
require_storage (postgres_claims claims workspace) = err invalid

unfoldable pub verify_storage_capability_claims :
    {Key : Type 0} → JwsHost Key → ℕ → Text → Verifier Key → Result AnyDelegatedCapabilityClaims
verify_storage_capability_claims host now capability verifier = do
  claims ← verify_inner host now capability verifier
  require_storage claims

-- The answer of the nonce store, where there is one: a first use, a repeated one, or a failure.
unfoldable pub consume_nonce : Option (Result Bool) → Result (Unit {0})
consume_nonce none = ok tt
consume_nonce (some (ok first_use)) = throw_if (not first_use) invalid
consume_nonce (some (err e)) = err invalid

unfoldable pub verify_delegated_capability :
    {Key : Type 0}
    → JwsHost Key
    → ℕ
    → (Text → ℤ → Option (Result Bool))
    → Text
    → Verifier Key
    → Result AnyDelegatedCapabilityClaims
verify_delegated_capability host now consume capability verifier = do
  claims ← verify_storage_capability_claims host now capability verifier
  consume_nonce (consume (common claims).nonce (common claims).exp)
  ok claims
