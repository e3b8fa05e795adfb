-- ===== src/Receipt/Dsse.antt =====
-- crates/cloakpipe-receipt/src/dsse.rs: envelopes and the keyids that sign them.
use cloakpipe.Base.{
  ℕ, String, Bool, false, not, ◌&&◌, Option, none, some, List, [], ◌∷◌, ◌++◌, any, length, Bytes,
  ◌==◌, if◌then◌else◌,
}
use cloakpipe.Json.{Value}

pub record Signature : Type 0 where
  pub keyid : String
  pub sig : String

pub record Envelope : Type 0 where
  pub payload_type : String
  pub payload : String
  pub signatures : List Signature

pub record TrustedKey : Type 0 where
  pub keyid : String
  pub public_key : Bytes

-- What the crates `base64`, `ed25519_dalek`, `serde_json` and `chrono` and Rust's standard library
-- do. `from_slice` reads JSON text without duplicate keys; `parse_rfc3339` gives nanoseconds since
-- the year 0, so that every time it reads is a natural number.
pub record Codecs : Type 0 where
  pub as_bytes : String → Bytes
  pub decimal : ℕ → String
  pub base64_decode : String → Option Bytes
  pub signature_from_slice : Bytes → Option Bytes
  pub verify_strict : Bytes → Bytes → Bytes → Bool
  pub from_slice : Bytes → Option Value
  pub parse_rfc3339 : String → Option ℕ

-- `pae`
unfoldable pub pae : Codecs → String → Bytes → Bytes
pae cs payload_type payload =
    cs.as_bytes "DSSEv1 "
    ++ cs.as_bytes (cs.decimal (length (cs.as_bytes payload_type)))
    ++ cs.as_bytes " "
    ++ cs.as_bytes payload_type
    ++ cs.as_bytes " "
    ++ cs.as_bytes (cs.decimal (length payload))
    ++ cs.as_bytes " "
    ++ payload

abbrev pub decode_signature : Codecs → Signature → Option Bytes
decode_signature cs s = elim (cs.base64_decode s.sig) [
  | none ↦ none
  | some bytes ↦ cs.signature_from_slice bytes
]

abbrev pub verifies_under : Codecs → Bytes → Signature → Bytes → TrustedKey → Bool
verifies_under cs message s sig k = k.keyid == s.keyid && cs.verify_strict k.public_key message sig

-- `check_signature`, without its diagnostics.
unfoldable pub check_signature : Codecs → Signature → Bytes → List TrustedKey → Bool
check_signature cs s message trusted =
    if not (any (λ (k : TrustedKey). k.keyid == s.keyid) trusted)
    then false
    else elim (decode_signature cs s) [
      | none ↦ false
      | some sig ↦ any (verifies_under cs message s sig) trusted
    ]

abbrev pub signers_of : Codecs → Bytes → List TrustedKey → List Signature → List String
signers_of cs message trusted [] = []
signers_of cs message trusted (s ∷ ss) =
    let rest = signers_of cs message trusted ss in
    if check_signature cs s message trusted then s.keyid ∷ rest else rest

-- `verified_keyids`: the set as a list.
unfoldable pub verified_keyids : Codecs → Envelope → Bytes → List TrustedKey → List String
unfolding pae check_signature
verified_keyids cs envelope payload trusted =
    signers_of cs (pae cs envelope.payload_type payload) trusted envelope.signatures
