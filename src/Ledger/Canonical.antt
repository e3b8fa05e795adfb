-- ===== src/Ledger/Canonical.antt =====
-- crates/cloakpipe-ledger/src/canonical.rs
use Prim.Native.String.{◌++◌ as push_str}
use cloakpipe.Base.{
  ℕ, ◌/◌, ◌%◌, String, Bool, true, false, Option, none, some, List, [], ◌∷◌, Bytes, get_elem?,
}
use cloakpipe.Ledger.Record.{
  hop_tag, detector_tag, action_tag, Action, Detection, decision_tag, Policy, Identity,
  MetadataValue, bool, integer, hash, opaque_id, LedgerRecord,
}

-- What the standard library, `chrono` and `uuid` print: a natural number, a signed 64-bit integer
-- by its bits, a time to the second, a UUID with hyphens; and the bytes of a text.
pub record Formats : Type 0 where
  pub decimal : ℕ → String
  pub decimal_i64 : ℕ → String
  pub to_rfc3339_secs : ℕ → String
  pub hyphenated : Bytes → String
  pub into_bytes : String → Bytes

-- Several texts, one after the other.
unfoldable pub concat : List String → String
concat [] = ""
concat (s ∷ ss) = push_str s (concat ss)

abbrev pub hex_digits : List String
hex_digits =
    "0" ∷ "1" ∷ "2" ∷ "3" ∷ "4" ∷ "5" ∷ "6" ∷ "7" ∷ "8" ∷ "9" ∷ "a" ∷ "b" ∷ "c" ∷ "d" ∷ "e" ∷ "f"
    ∷ []

abbrev pub or_text : Option String → String → String
or_text none d = d
or_text (some s) d = s

abbrev pub hex_digit : ℕ → String
hex_digit n = or_text (get_elem? hex_digits n) ""

-- `hex_lower`
unfoldable pub hex_lower : Bytes → String
hex_lower [] = ""
hex_lower (b ∷ bs) = push_str (hex_digit (b / 16)) (push_str (hex_digit (b % 16)) (hex_lower bs))

module _ (f : Formats) where
  unfoldable pub detections_text : List Detection → String
  unfolding concat detector_tag
  detections_text [] = ""
  detections_text (d ∷ ds) = concat (
      "("
      ∷ d.entity_type
      ∷ "|"
      ∷ f.decimal d.count
      ∷ "|"
      ∷ detector_tag d.detector
      ∷ "|<confidence>)"
      ∷ detections_text ds
      ∷ [])

  unfoldable pub actions_text : List Action → String
  unfolding concat action_tag
  actions_text [] = ""
  actions_text (a ∷ rest) = concat (
      "("
      ∷ a.entity_type
      ∷ "|"
      ∷ action_tag a.kind
      ∷ "|"
      ∷ or_text a.token_ref ""
      ∷ ")"
      ∷ actions_text rest
      ∷ [])

  unfoldable pub policy_text : Policy → String
  unfolding concat decision_tag
  policy_text p = concat (
      "("
      ∷ p.pack_id
      ∷ "|"
      ∷ p.pack_version
      ∷ "|"
      ∷ p.rule_id
      ∷ "|"
      ∷ decision_tag p.decision
      ∷ ")"
      ∷ [])

  abbrev pub principal_text : Option Bytes → String
  principal_text none = "-"
  principal_text (some u) = f.hyphenated u

  unfoldable pub identities_text : Identity → String
  unfolding concat
  identities_text i = concat (
      "("
      ∷ f.hyphenated i.agent_id
      ∷ "|"
      ∷ principal_text i.human_principal
      ∷ "|"
      ∷ i.upstream
      ∷ "|"
      ∷ i.region
      ∷ ")"
      ∷ [])

  abbrev pub bool_text : Bool → String
  bool_text true = "true"
  bool_text false = "false"

  unfoldable pub value_text : MetadataValue → String
  unfolding hex_lower
  value_text (bool b) = push_str "bool:" (bool_text b)
  value_text (integer i) = push_str "int:" (f.decimal_i64 i)
  value_text (hash h) = push_str "hash:" (hex_lower h)
  value_text (opaque_id o) = push_str "id:" o

  unfoldable pub metadata_text : List (String × MetadataValue) → String
  unfolding concat value_text
  metadata_text [] = ""
  metadata_text ((k, v) ∷ rest) = concat (k ∷ "=" ∷ value_text v ∷ ";" ∷ metadata_text rest ∷ [])

  unfoldable pub canonicalize : LedgerRecord → Bytes
  unfolding concat hop_tag detections_text actions_text policy_text identities_text hex_lower
      metadata_text
  canonicalize r = f.into_bytes (
      concat (
        "seq="
        ∷ f.decimal r.seq
        ∷ "\nts="
        ∷ f.to_rfc3339_secs r.ts
        ∷ "\ntenant_id="
        ∷ f.hyphenated r.tenant_id
        ∷ "\nhop="
        ∷ hop_tag r.hop
        ∷ "\ndetections="
        ∷ detections_text r.detections
        ∷ "\nactions="
        ∷ actions_text r.actions
        ∷ "\npolicy="
        ∷ policy_text r.policy
        ∷ "\nidentities="
        ∷ identities_text r.identities
        ∷ "\negress="
        ∷ concat ("(" ∷ r.egress.destination ∷ "|" ∷ hex_lower r.egress.bytes_out_hash ∷ ")" ∷ [])
        ∷ "\nprev_hash="
        ∷ hex_lower r.prev_hash
        ∷ "\nmetadata="
        ∷ metadata_text r.metadata
        ∷ []))
