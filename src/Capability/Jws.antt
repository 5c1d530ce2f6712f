-- ===== src/Capability/Jws.antt =====
-- src/capability/jws.ts: the parts, the header and the signature of a compact JWS. Its functions throw
-- plain errors, which are `none`. WebCrypto, base64url and `JSON.parse` are parameters.
use supabash_fs.Prelude.{
  Bool, List, Option, Text, [], ap, false, is_empty, none, none-some, not, refl, some, some_inj,
  split, text, true, ◌&&◌, ◌++◌, ◌===◌, ◌||◌, ◌∙◌, ◌∷◌, ◌≡◌,
}
use supabash_fs.Prelude.Json.{Fields, Json, get_field, object, string}

-- `valid key signature input` is the answer of `crypto.subtle.verify` to a signature in base64url, and
-- `b64url_to_json` reads a part.
pub record JwsHost (Key : Type 0) : Type 0 where
  pub b64url_to_json : Text → Option Json
  pub valid : Key → Text → Text → Option Bool

-- The header, the payload and the signature
pub record CompactJws : Type 0 where
  pub header_part : Text
  pub payload_part : Text
  pub signature_part : Text

abbrev pub after : {A B : Type 0} → Option A → (A → Option B) → Option B
after none f = none
after (some a) f = f a

abbrev pub only_if : {A : Type 0} → Bool → A → Option A
only_if true a = some a
only_if false a = none

abbrev pub three_parts : List Text → Option CompactJws
three_parts (h ∷ p ∷ s ∷ []) =
    only_if (not (is_empty h || is_empty p || is_empty s))
      (record { header_part = h; payload_part = p; signature_part = s })
three_parts _ = none

unfoldable pub split_compact : Text → Option CompactJws
split_compact capability = three_parts (split b'.' capability)

abbrev pub parse_json_object : Json → Option Fields
parse_json_object (object fields) = some fields
parse_json_object _ = none

abbrev pub stated_key_id : Option Json → Option Json → Option Text
stated_key_id (some (string key_id)) (some (string algorithm)) =
    only_if (algorithm === text "EdDSA" && not (is_empty key_id)) key_id
stated_key_id _ _ = none

-- `jwsKeyId` for the algorithm EdDSA
unfoldable pub jws_key_id : Fields → Option Text
jws_key_id header = stated_key_id (get_field header (text "kid")) (get_field header (text "alg"))

abbrev pub signing_input : CompactJws → Text
signing_input parts = parts.header_part ++ b'.' ∷ parts.payload_part

module _ {Key : Type 0} (host : JwsHost Key) where
  abbrev pub read_header : CompactJws → Option Fields
  read_header parts = after (host.b64url_to_json parts.header_part) parse_json_object

  unfoldable pub peek_compact_jws_header : Text → Option Fields
  peek_compact_jws_header capability = after (split_compact capability) read_header

  abbrev pub if_valid : Bool → CompactJws → Option (Fields × Json)
  if_valid false parts = none
  if_valid true parts =
      after (read_header parts) (λ header.
        after (host.b64url_to_json parts.payload_part) (λ payload. some (header, payload)))

  unfoldable pub verify_compact_jws : Text → Key → Option (Fields × Json)
  verify_compact_jws capability key = after (split_compact capability) (λ parts.
      after (host.valid key parts.signature_part (signing_input parts))
        (λ valid. if_valid valid parts))

  -- A compact JWS whose signature holds under the key, with its header and its payload.
  pub record IsSignedJws (capability : Text) (key : Key) (signed : Fields × Json) : Type 0 where
    pub parts : CompactJws
    pub split_up : split_compact capability ≡ some parts
    pub signature : host.valid key parts.signature_part (signing_input parts) ≡ some true
    pub header : read_header parts ≡ some signed.0
    pub payload : host.b64url_to_json parts.payload_part ≡ some signed.1

  after-some :
      {A B : Type 0} (o : Option A) (f : A → Option B) {b : B}
      → after o f ≡ some b
      → (a : A) × (o ≡ some a) × (f a ≡ some b)
  after-some none f h = absurd (none-some h)
  after-some (some a) f h = (a, refl, h)

  pub verify_compact_jws-IsSignedJws :
      (capability : Text) (key : Key) {signed : Fields × Json}
      → verify_compact_jws capability key ≡ some signed
      → IsSignedJws capability key signed
  unfolding verify_compact_jws
  verify_compact_jws-IsSignedJws capability key {signed} h =
      let (parts, split_up, h1) = after-some (split_compact capability) _ h in
      let (valid, holds, h2) =
        after-some (host.valid key parts.signature_part (signing_input parts)) _ h1 in
      from valid parts split_up holds h2
    where
      from :
          (valid : Bool) (parts : CompactJws)
          → split_compact capability ≡ some parts
          → host.valid key parts.signature_part (signing_input parts) ≡ some valid
          → if_valid valid parts ≡ some signed
          → IsSignedJws capability key signed
      from false parts split_up holds h = absurd (none-some h)
      from true parts split_up holds h =
          let (header, read, h1) = after-some (read_header parts) _ h in
          let (payload, found, h2) = after-some (host.b64url_to_json parts.payload_part) _ h1 in
          let same = some_inj h2 in
          record {
            parts = parts;
            split_up = split_up;
            signature = holds;
            header = read ∙ ap (λ s. some s.0) same;
            payload = found ∙ ap (λ s. some s.1) same;
          }
