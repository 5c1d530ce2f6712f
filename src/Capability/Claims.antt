-- ===== src/Capability/Claims.antt =====
-- src/capability/claims.ts and api/capability.ts: the claims of a capability.
pub mod Prefix
use supabash_fs.Prelude.{
  Bool, List, Option, Result, SupabashError, Text, [], err, every, false, if◌then◌else◌,
  invalid_capability, is_empty, leb, length, none, not, ok, some, split, supabash_error, text,
  throw_if, ℕ, ◌&&◌, ◌===◌, ◌==◌, ◌>>=◌, ◌>>◌, ◌||◌, ◌∷◌,
}
use supabash_fs.Prelude.Json.{
  Fields, Items, Json, array, end, get_field, item, natural, negative, negsuc, number, object, pos,
  string, ℤ,
}

pub data DelegatedOperation : Type 0 where
  checkpoint commit history purge redact read restore write : DelegatedOperation

-- What both kinds of claims hold.
pub record CommonClaims : Type 0 where
  pub aud : Text
  pub corr : Text
  pub exp : ℤ
  pub iat : ℤ
  pub iss : Text
  pub nonce : Text
  pub ops : List DelegatedOperation
  pub origin : Text
  pub sub : Text
  pub sv : ℤ

pub data AnyDelegatedCapabilityClaims : Type 0 where
  storage_claims : CommonClaims → Text → Text → AnyDelegatedCapabilityClaims
  postgres_claims : CommonClaims → Text → AnyDelegatedCapabilityClaims

abbrev pub common : AnyDelegatedCapabilityClaims → CommonClaims
common (storage_claims c bucket prefix) = c
common (postgres_claims c workspace) = c

abbrev pub invalid : SupabashError
invalid = supabash_error invalid_capability none

-- `isDelegatedOperation`, with the operation that it recognises
unfoldable pub operation_of : Text → Option DelegatedOperation
operation_of s =
    if s === text "checkpoint"
    then some checkpoint
    else if s === text "commit"
    then some commit
    else if s === text "history"
    then some history
    else if s === text "purge"
    then some purge
    else if s === text "redact"
    then some redact
    else if s === text "read"
    then some read
    else if s === text "restore"
    then some restore
    else if s === text "write"
    then some write
    else none

abbrev pub parse_operation : Json → Result DelegatedOperation
parse_operation (string s) = elim (operation_of s) [ none ↦ err invalid | some op ↦ ok op ]
parse_operation _ = err invalid

unfoldable pub parse_operations : Items → Result (List DelegatedOperation)
parse_operations end = ok []
parse_operations (item entry rest) = do
  op ← parse_operation entry
  ops ← parse_operations rest
  ok (op ∷ ops)

unfoldable pub parse_ops : Option Json → Result (List DelegatedOperation)
parse_ops (some (array (item entry rest))) = parse_operations (item entry rest)
parse_ops _ = err invalid

unfoldable pub required_string : Fields → Text → Result Text
required_string fields key = elim (get_field fields key) [
  | some (string (c ∷ s)) ↦ ok (c ∷ s)
  | _ ↦ err invalid
]

unfoldable pub required_number : Fields → Text → Result ℤ
required_number fields key = elim (get_field fields key) [
  | some (number (natural n)) ↦ ok (pos n)
  | some (number (negative n)) ↦ ok (negsuc n)
  | _ ↦ err invalid
]

abbrev pub is_version : ℕ → ℤ → Bool
is_version version (pos n) = n == version
is_version version (negsuc n) = false

abbrev pub capability_schema_version : ℕ
capability_schema_version = 1

abbrev pub postgres_capability_schema_version : ℕ
postgres_capability_schema_version = 3

-- `record['backend'] === 'postgres'`
abbrev pub is_postgres : Option Json → Bool
is_postgres (some (string s)) = s === text "postgres"
is_postgres _ = false

unfoldable pub parse_postgres :
    Fields → List DelegatedOperation → Result AnyDelegatedCapabilityClaims
parse_postgres fields ops = do
  sv ← required_number fields (text "sv")
  throw_if (not (is_version postgres_capability_schema_version sv)) invalid
  aud ← required_string fields (text "aud")
  corr ← required_string fields (text "corr")
  exp ← required_number fields (text "exp")
  iat ← required_number fields (text "iat")
  iss ← required_string fields (text "iss")
  nonce ← required_string fields (text "nonce")
  origin ← required_string fields (text "origin")
  sub ← required_string fields (text "sub")
  workspace ← required_string fields (text "workspace")
  ok (
      postgres_claims
        (record {
          aud = aud;
          corr = corr;
          exp = exp;
          iat = iat;
          iss = iss;
          nonce = nonce;
          ops = ops;
          origin = origin;
          sub = sub;
          sv = sv;
        })
        workspace)

unfoldable pub parse_storage :
    Fields → List DelegatedOperation → Result AnyDelegatedCapabilityClaims
parse_storage fields ops = do
  aud ← required_string fields (text "aud")
  bucket ← required_string fields (text "bucket")
  corr ← required_string fields (text "corr")
  exp ← required_number fields (text "exp")
  iat ← required_number fields (text "iat")
  iss ← required_string fields (text "iss")
  nonce ← required_string fields (text "nonce")
  origin ← required_string fields (text "origin")
  prefix ← required_string fields (text "prefix")
  sub ← required_string fields (text "sub")
  sv ← required_number fields (text "sv")
  ok (
      storage_claims
        (record {
          aud = aud;
          corr = corr;
          exp = exp;
          iat = iat;
          iss = iss;
          nonce = nonce;
          ops = ops;
          origin = origin;
          sub = sub;
          sv = sv;
        })
        bucket prefix)

unfoldable pub parse_claims : Json → Result AnyDelegatedCapabilityClaims
parse_claims (object fields) = do
  ops ← parse_ops (get_field fields (text "ops"))
  if is_postgres (get_field fields (text "backend"))
      then parse_postgres fields ops
      else parse_storage fields ops
parse_claims _ = err invalid

abbrev pub is_digit : ℕ → Bool
is_digit c = leb b'0' c && leb c b'9'

abbrev pub is_alphanumeric : ℕ → Bool
is_alphanumeric c = is_digit c || (leb b'A' c && leb c b'Z') || (leb b'a' c && leb c b'z')

-- `SAFE_BUCKET`: /^[A-Za-z0-9][A-Za-z0-9._-]{0,99}$/u
unfoldable pub safe_bucket : Text → Bool
safe_bucket [] = false
safe_bucket (c ∷ s) =
    is_alphanumeric c
    && leb (length s) 99
    && every (λ d. is_alphanumeric d || d == b'.' || d == b'_' || d == b'-') s

abbrev pub is_prefix_char : ℕ → Bool
is_prefix_char c = is_alphanumeric c || c == b'_' || c == b'-'

abbrev pub safe_prefix_segment : Text → Bool
safe_prefix_segment s = not (is_empty s) && leb (length s) 128 && every is_prefix_char s

-- `SAFE_PREFIX`: /^[A-Za-z0-9_-]{1,128}(?:\/[A-Za-z0-9_-]{1,128})*$/u
unfoldable pub safe_prefix : Text → Bool
safe_prefix s = every safe_prefix_segment (split b'/' s)

abbrev pub is_hex : ℕ → Bool
is_hex c = is_digit c || (leb b'a' c && leb c b'f') || (leb b'A' c && leb c b'F')

-- A group of the identifier: its length, its first digit, and hexadecimal digits.
abbrev pub hex_group : ℕ → (ℕ → Bool) → Text → Bool
hex_group n first [] = false
hex_group n first (c ∷ s) = first c && every is_hex (c ∷ s) && (length (c ∷ s) == n)

-- `WORKSPACE_ID_PATTERN`, a UUID of version 1 to 8, in either case
unfoldable pub workspace_id_pattern : Text → Bool
workspace_id_pattern s = elim (split b'-' s) [
  | a ∷ b ∷ c ∷ d ∷ e ∷ [] ↦
      hex_group 8 is_hex a
      && hex_group 4 is_hex b
      && hex_group 4 (λ x. leb b'1' x && leb x b'8') c
      && hex_group 4
          (λ x. x == b'8' || x == b'9' || x == b'a' || x == b'b' || x == b'A' || x == b'B') d
      && hex_group 12 is_hex e
  | _ ↦ false
]

unfoldable pub assert_claim_schema : AnyDelegatedCapabilityClaims → Result (Unit {0})
assert_claim_schema (postgres_claims claims workspace) =
    throw_if (not (workspace_id_pattern workspace)) invalid
assert_claim_schema (storage_claims claims bucket prefix) = do
  throw_if (not (safe_bucket bucket)) invalid
  throw_if (not (safe_prefix prefix)) invalid
  throw_if (not (is_version capability_schema_version claims.sv)) invalid
