-- ===== src/Capability/Verify/Laws.antt =====
-- What a verified capability guarantees (src/capability/verify.ts).
use supabash_fs.Capability.Jws.{
  IsSignedJws, JwsHost, jws_key_id, peek_compact_jws_header, verify_compact_jws,
  verify_compact_jws-IsSignedJws,
}
use supabash_fs.Prelude.Tests.{if◌then◌else◌}
use supabash_fs.Prelude.{
  ===_iff, >>=-eq-ok, Bool, Option, Result, Text, ap, arith, err, err_not_ok, false, inl, inr, none,
  not, ok, ok_inj, refl, some, subst, sym, throw_if, true, ℕ, ◌+◌, ◌<◌, ◌===◌, ◌>>◌, ◌||◌, ◌∙◌, ◌≡◌,
  ◌≤◌, ◌⊎◌,
}
use supabash_fs.Prelude.Json.{Fields, Json, Number, lt_plus, neg_part, plus_lt, pos, pos_part, ℤ}
use supabash_fs.Capability.Claims.{
  AnyDelegatedCapabilityClaims, CommonClaims, assert_claim_schema, common, invalid, parse_claims,
  postgres_claims, storage_claims,
}
use supabash_fs.Capability.Verify.{
  Verifier, assert_audience, assert_fresh, bound, consume_nonce, default_clock_skew_seconds,
  default_max_capability_lifetime_seconds, expired, guarded, public_key_for, require_storage,
  usable_key, verify_delegated_capability, verify_inner, verify_storage_capability_claims,
}

-- The times of the claims, in seconds: not expired and not issued in the future, up to the skew, and
-- valid for a while that is positive and at most the lifetime.
pub record IsFresh (now skew lifetime : ℕ) (claims : CommonClaims) : Type 0 where
  pub unexpired : now + neg_part claims.exp ≤ pos_part claims.exp + skew
  pub issued : pos_part claims.iat ≤ now + skew + neg_part claims.iat
  pub ordered :
      pos_part claims.iat + neg_part claims.exp < pos_part claims.exp + neg_part claims.iat
  pub short :
      pos_part claims.exp + neg_part claims.iat
      ≤ pos_part claims.iat + neg_part claims.exp + lifetime

assert_fresh-IsFresh :
    (now : ℕ) (claims : AnyDelegatedCapabilityClaims) (clock_skew max_lifetime : Option Number)
    → assert_fresh now claims clock_skew max_lifetime ≡ ok tt
    → (skew : ℕ) × (lifetime : ℕ) × (bound 0 default_clock_skew_seconds clock_skew ≡ ok skew)
      × (bound 1 default_max_capability_lifetime_seconds max_lifetime ≡ ok lifetime)
      × IsFresh now skew lifetime (common claims)
unfolding assert_fresh
assert_fresh-IsFresh now claims clock_skew max_lifetime e =
    let (skew, a, e1) = >>=-eq-ok (bound 0 default_clock_skew_seconds clock_skew) _ e in
    let (lifetime, b, e2) =
      >>=-eq-ok (bound 1 default_max_capability_lifetime_seconds max_lifetime) _ e1 in
    let c = common claims in (skew, lifetime, a, b, fresh now skew lifetime c e2)
  where
    fresh :
        (now skew lifetime : ℕ) (c : CommonClaims)
        → (throw_if (plus_lt c.exp skew (pos now)) expired
            >> (throw_if (lt_plus (pos (now + skew)) c.iat 0) invalid
                >> throw_if (not (lt_plus c.iat c.exp 0) || plus_lt c.iat lifetime c.exp) invalid))
          ≡ ok tt
        → IsFresh now skew lifetime c
    fresh now skew lifetime c h = ground arith

-- What the verification asks of a storage capability's claims.
pub record IsAdmitted {Key : Type 0} (host : JwsHost Key) (capability : Text) (now : ℕ)
    (consume : Text → ℤ → Option (Result Bool)) (verifier : Verifier Key)
    (claims : AnyDelegatedCapabilityClaims) : Type 0 where
  pub key_id : Text
  pub key : Key
  pub contents : Fields × Json
  pub headed : jws_key_id contents.0 ≡ some key_id
  pub listed : verifier.public_keys key_id ≡ some key
  pub public_key : verifier.is_public key ≡ true
  pub signed : IsSignedJws host capability key contents
  pub parsed : parse_claims contents.1 ≡ ok claims
  pub issuer : (common claims).iss ≡ verifier.issuer
  pub audience : (common claims).aud ≡ verifier.audience
  pub origin : (common claims).origin ≡ verifier.origin
  pub schema : assert_claim_schema claims ≡ ok tt
  pub storage : require_storage claims ≡ ok claims
  pub skew : ℕ
  pub lifetime : ℕ
  pub skew_bound : bound 0 default_clock_skew_seconds verifier.clock_skew_seconds ≡ ok skew
  pub lifetime_bound :
      bound 1 default_max_capability_lifetime_seconds verifier.max_lifetime_seconds ≡ ok lifetime
  pub fresh : IsFresh now skew lifetime (common claims)
  pub first_use :
      (consume (common claims).nonce (common claims).exp ≡ none)
      ⊎ (consume (common claims).nonce (common claims).exp ≡ some (ok true))

audience_lem :
    {Key : Type 0} (claims : AnyDelegatedCapabilityClaims) (verifier : Verifier Key)
    → assert_audience claims verifier ≡ ok tt
    → ((common claims).iss ≡ verifier.issuer)
      × ((common claims).aud ≡ verifier.audience)
      × ((common claims).origin ≡ verifier.origin)
unfolding assert_audience
audience_lem claims verifier h = ground (
  arith,
  ===_iff (common claims).iss verifier.issuer,
  ===_iff (common claims).aud verifier.audience,
  ===_iff (common claims).origin verifier.origin,
)

first_use_lem :
    (answer : Option (Result Bool))
    → consume_nonce answer ≡ ok tt
    → (answer ≡ none) ⊎ (answer ≡ some (ok true))
unfolding consume_nonce
first_use_lem none h = inl refl
first_use_lem (some (ok true)) h = inr refl
first_use_lem (some (ok false)) h = cc
first_use_lem (some (err e)) h = cc

guarded-ok : {A : Type 0} (o : Option A) {a : A} → guarded o ≡ ok a → o ≡ some a
guarded-ok none h = absurd (err_not_ok h)
guarded-ok (some b) h = ap some (ok_inj h)

usable_key-ok :
    {Key : Type 0} (verifier : Verifier Key) (found : Option Key) {key : Key}
    → usable_key verifier found ≡ ok key
    → (found ≡ some key) × (verifier.is_public key ≡ true)
usable_key-ok verifier none h = absurd (err_not_ok h)
usable_key-ok verifier (some k) {key} h = usable (verifier.is_public k) refl h
  where
    usable :
        (b : Bool)
        → verifier.is_public k ≡ b
        → (if b then ok k else err invalid) ≡ ok key
        → (some k ≡ some key) × (verifier.is_public key ≡ true)
    usable true p h = (ap some (ok_inj h), subst (λ x. verifier.is_public x ≡ true) (ok_inj h) p)
    usable false p h = absurd (err_not_ok h)

-- A capability is signed with a public key that the verifier lists for the key id in its header.
record IsSigned {Key : Type 0} (host : JwsHost Key) (capability : Text) (verifier : Verifier Key)
    (claims : AnyDelegatedCapabilityClaims) : Type 0 where
  key_id : Text
  key : Key
  contents : Fields × Json
  headed : jws_key_id contents.0 ≡ some key_id
  listed : verifier.public_keys key_id ≡ some key
  public_key : verifier.is_public key ≡ true
  signed : IsSignedJws host capability key contents
  parsed : parse_claims contents.1 ≡ ok claims

storage_lem : (a b : AnyDelegatedCapabilityClaims) → require_storage a ≡ ok b → a ≡ b
storage_lem (storage_claims c bucket prefix) b h = cc
storage_lem (postgres_claims c workspace) b h = cc

-- A capability that verification admits is a JWS of three parts whose signature holds for its header and
-- payload, under a public key that the verifier lists for the key id of that header; its claims are
-- those of the payload, name the verifier's issuer, audience and origin, pass the schema check, are for
-- storage and fresh; and its nonce is used for the first time where there is a nonce store.
pub verify-IsAdmitted :
    {Key : Type 0} (host : JwsHost Key) (now : ℕ) (consume : Text → ℤ → Option (Result Bool))
    (capability : Text) (verifier : Verifier Key) {claims : AnyDelegatedCapabilityClaims}
    → verify_delegated_capability host now consume capability verifier ≡ ok claims
    → IsAdmitted host capability now consume verifier claims
unfolding verify_delegated_capability verify_storage_capability_claims verify_inner public_key_for
verify-IsAdmitted host now consume capability verifier {claims} e =
    let (c1, e1, e2) =
      >>=-eq-ok (verify_storage_capability_claims host now capability verifier) _ e in
    let (_, once, e3) =
      >>=-eq-ok (consume_nonce (consume (common c1).nonce (common c1).exp)) _ e2 in
    let (c2, e4, e5) = >>=-eq-ok (verify_inner host now capability verifier) _ e1 in
    let (peeked, _, e5a) = >>=-eq-ok (guarded (peek_compact_jws_header host capability)) _ e4 in
    let (key_id, _, e6) = >>=-eq-ok (guarded (jws_key_id peeked)) _ e5a in
    let (key, found, e7) = >>=-eq-ok (public_key_for verifier key_id) _ e6 in
    let (signed, holds, e7a) = >>=-eq-ok (guarded (verify_compact_jws host capability key)) _ e7 in
    let (signed_id, at_head, e8) = >>=-eq-ok (guarded (jws_key_id signed.0)) _ e7a in
    let (_, same_id, e9) = >>=-eq-ok (throw_if (not (signed_id === key_id)) invalid) _ e8 in
    let (c3, claimed, e10) = >>=-eq-ok (parse_claims signed.1) _ e9 in
    let (_, schema, e11) = >>=-eq-ok (assert_claim_schema c3) _ e10 in
    let (_, aud, e12) = >>=-eq-ok (assert_audience c3 verifier) _ e11 in
    let (_, fresh, e13) =
      >>=-eq-ok (assert_fresh now c3 verifier.clock_skew_seconds verifier.max_lifetime_seconds) _
        e12 in
    let same : c3 ≡ claims = ok_inj e13 ∙ storage_lem c2 c1 e5 ∙ ok_inj e3 in
    let one : c1 ≡ claims = ok_inj e3 in
    subst (IsAdmitted host capability now consume verifier) same (
      admitted c3
        (let (l, public_key) = usable_key-ok verifier (verifier.public_keys key_id) found in
          let id : signed_id ≡ key_id = (===_iff signed_id key_id).0 (ground arith) in
          record {
            key_id = key_id;
            key = key;
            contents = signed;
            headed = guarded-ok (jws_key_id signed.0) at_head ∙ ap some id;
            listed = l;
            public_key = public_key;
            signed =
                verify_compact_jws-IsSignedJws host capability key
                  (guarded-ok (verify_compact_jws host capability key) holds);
            parsed = claimed;
          })
        schema aud fresh (subst (λ c. require_storage c2 ≡ ok c) (sym (storage_lem c2 c1 e5)) e5)
        (ok_inj e13)
        (subst (λ c. consume_nonce (consume (common c).nonce (common c).exp) ≡ ok tt)
          (one ∙ sym same) once))
  where
    admitted :
        (c : AnyDelegatedCapabilityClaims)
        → IsSigned host capability verifier c
        → assert_claim_schema c ≡ ok tt
        → assert_audience c verifier ≡ ok tt
        → assert_fresh now c verifier.clock_skew_seconds verifier.max_lifetime_seconds ≡ ok tt
        → {d : AnyDelegatedCapabilityClaims} → require_storage d ≡ ok d
        → c ≡ d
        → consume_nonce (consume (common c).nonce (common c).exp) ≡ ok tt
        → IsAdmitted host capability now consume verifier c
    admitted c sg schema aud fresh {d} st same once =
        let (i, a, o) = audience_lem c verifier aud in
        let (skew, lifetime, sb, lb, f) =
          assert_fresh-IsFresh now c verifier.clock_skew_seconds verifier.max_lifetime_seconds
            fresh in
        record {
          key_id = sg.key_id;
          key = sg.key;
          contents = sg.contents;
          headed = sg.headed;
          listed = sg.listed;
          public_key = sg.public_key;
          signed = sg.signed;
          parsed = sg.parsed;
          issuer = i;
          audience = a;
          origin = o;
          schema = schema;
          storage = subst (λ x. require_storage x ≡ ok x) (sym same) st;
          skew = skew;
          lifetime = lifetime;
          skew_bound = sb;
          lifetime_bound = lb;
          fresh = f;
          first_use = first_use_lem (consume (common c).nonce (common c).exp) once;
        }
