-- ===== src/Tests/Capabilities.antt =====
-- Capabilities of src/capability on examples.
use supabash_fs.Capability.Jws.{
  JwsHost, jws_key_id, peek_compact_jws_header, split_compact, verify_compact_jws,
}
use supabash_fs.History.Publish.{CommitContext}
use supabash_fs.Prelude.{
  List, [], err, false, if◌then◌else◌, none, ok, refl, some, split, suc, text, true, ℕ, ◌===◌, ◌∷◌,
  ◌≡◌, ◌⊎◌,
}
use Prim.Native.String.{String}
use supabash_fs.Prelude.Json.{
  Fields, Json, array, end, field, get_field, item, natural, none_left, number, object, pos, string,
}
use supabash_fs.Core.Path.{normalize_virtual_path, slash}
use supabash_fs.Capability.Claims.{
  AnyDelegatedCapabilityClaims, DelegatedOperation, assert_claim_schema, commit, operation_of,
  parse_claims, parse_operations, parse_ops, parse_storage, read, required_number, required_string,
  safe_bucket, safe_prefix, storage_claims,
}
use supabash_fs.Capability.Claims.Prefix.{safe_prefix-canonical}
use supabash_fs.Capability.Verify.{
  Verifier, assert_audience, assert_fresh, consume_nonce, public_key_for,
  verify_delegated_capability, verify_inner, verify_storage_capability_claims,
}
use supabash_fs.Capability.Verify.Laws.{IsAdmitted, verify-IsAdmitted}
use supabash_fs.Capability.Guard.{
  Guarded, Inner, Served, committing, denied, discarding, request_attributed, request_denied,
  request_of, restoring,
}

capability_code : Unit {0}
unfolding safe_prefix split ◌===◌ parse_claims parse_storage parse_ops parse_operations operation_of
    required_string required_number get_field assert_claim_schema safe_bucket assert_audience
    jws_key_id split_compact peek_compact_jws_header verify_compact_jws assert_fresh public_key_for
    verify_inner verify_storage_capability_claims consume_nonce verify_delegated_capability
capability_code = tt

tenant_is_safe : safe_prefix (text "tenants/acme") ≡ true
unfolding capability_code
tenant_is_safe = refl

safe_prefix-canonical_example :
    normalize_virtual_path (slash ∷ text "tenants/acme") ≡ ok (slash ∷ text "tenants/acme")
safe_prefix-canonical_example = safe_prefix-canonical (text "tenants/acme") tenant_is_safe

abbrev text_field : String → String → Fields → Fields
text_field key value rest = field (text key) (string (text value)) rest

abbrev payload : Json
payload = object (
    text_field "aud" "app" (
      text_field "bucket" "files" (
        text_field "corr" "c" (
          field (text "exp") (number (natural 1300)) (
            field (text "iat") (number (natural 1000)) (
              text_field "iss" "server" (
                text_field "nonce" "n" (
                  field (text "ops") (array (item (string (text "read")) end)) (
                    text_field "origin" "https://x" (
                      text_field "prefix" "tenants/acme" (
                        text_field "sub" "ada"
                          (field (text "sv") (number (natural 1)) none_left))))))))))))

abbrev trusting : Verifier (Unit {0})
trusting = record {
  audience = text "app";
  issuer = text "server";
  origin = text "https://x";
  clock_skew_seconds = none;
  max_lifetime_seconds = none;
  public_keys = λ id. some tt;
  is_public = λ key. true;
}

abbrev keyed_header : Fields
keyed_header =
    field (text "alg") (string (text "EdDSA")) (field (text "kid") (string (text "key")) none_left)

abbrev signed : JwsHost (Unit {0})
signed = record {
  b64url_to_json = λ part. some (if part === text "h" then object keyed_header else payload);
  valid = λ key mark input. some (mark === text "s");
}

abbrev claims_of_payload : AnyDelegatedCapabilityClaims
claims_of_payload =
    storage_claims
      (record {
        aud = text "app";
        corr = text "c";
        exp = pos 1300;
        iat = pos 1000;
        iss = text "server";
        nonce = text "n";
        ops = read ∷ [];
        origin = text "https://x";
        sub = text "ada";
        sv = pos 1;
      })
      (text "files") (text "tenants/acme")

payload_verifies :
    verify_delegated_capability signed 1100 (λ n e. some (ok true)) (text "h.p.s") trusting
    ≡ ok claims_of_payload
unfolding capability_code
payload_verifies = refl

verify-IsAdmitted_example :
    IsAdmitted signed (text "h.p.s") 1100 (λ n e. some (ok true)) trusting claims_of_payload
verify-IsAdmitted_example =
    verify-IsAdmitted signed 1100 (λ n e. some (ok true)) (text "h.p.s") trusting payload_verifies

-- A workspace that counts the calls that reach it, and never has changes.
abbrev counting : Inner ℕ (Unit {0})
counting = record { has_changes = λ n. false; perform = λ request n. (ok tt, suc n); nothing = tt }

abbrev holder : List DelegatedOperation → Guarded
holder operations = record {
  operations = operations;
  actor = text "ada";
  correlation_id = text "c";
}

request_denied_example :
    ((request_of counting (holder (read ∷ [])) restoring 0).1 ≡ 0)
    × (((request_of counting (holder (read ∷ [])) restoring 0).0 ≡ err denied)
        ⊎ ((restoring ≡ discarding) × (false ≡ false)))
request_denied_example = request_denied counting (holder (read ∷ [])) restoring 0 refl

abbrev context_of_eve : CommitContext
context_of_eve = record {
  actor = text "eve";
  cause = some (text "fix");
  correlation_id = text "d";
  idempotency_key = some (text "k");
  metadata = none;
}

request_attributed_example :
    Served counting (holder (commit ∷ [])) (committing (some context_of_eve)) 0
request_attributed_example =
    request_attributed counting (holder (commit ∷ [])) (committing (some context_of_eve)) 0
