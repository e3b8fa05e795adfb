-- ===== src/Ledger/Builder.antt =====
-- crates/cloakpipe-ledger/src/record.rs: the builder of records, and its checks of metadata.
use Prim.Native.String.{◌++◌ as push_str}
use cloakpipe.Base.{
  ℕ, String, Bool, true, false, not, ◌&&◌, ◌||◌, Option, none, some, List, [], ◌∷◌, ◌++◌, any, all,
  map, length, replicate, Bytes, ltb, nat_eq, if◌then◌else◌,
}
use cloakpipe.Base.Results.{Result, ok, err, ◌>>◌}
use cloakpipe.Receipt.OperationId.{codes, within, lower_code, contains_codes}
use cloakpipe.Ledger.Record.{
  Hop, llm_prompt, Action, Detection, allow, Policy, Identity, Egress, MetadataValue, bool, integer,
  hash, opaque_id, LedgerRecord,
}
use cloakpipe.Ledger.Canonical.{Formats}

pub data RecordError : Type 0 where
  opaque_id_too_long : String → RecordError
  pii_in_metadata : String → String → RecordError
  metadata_delimiter : String → RecordError
  bad_metadata_key : String → RecordError

pub record RecordBuilder : Type 0 where
  pub seq : Option ℕ
  pub ts : Option ℕ
  pub tenant_id : Option Bytes
  pub hop : Option Hop
  pub detections : List Detection
  pub actions : List Action
  pub policy : Option Policy
  pub identities : Option Identity
  pub egress : Option Egress
  pub metadata : List (String × MetadataValue)

-- `RecordBuilder::new`
abbrev pub new_builder : RecordBuilder
new_builder = record {
  seq = none;
  ts = none;
  tenant_id = none;
  hop = none;
  detections = [];
  actions = [];
  policy = none;
  identities = none;
  egress = none;
  metadata = [];
}

abbrev pub set_seq : ℕ → RecordBuilder → RecordBuilder
set_seq value b = record b { seq = some value }

abbrev pub set_ts : ℕ → RecordBuilder → RecordBuilder
set_ts value b = record b { ts = some value }

abbrev pub set_tenant : Bytes → RecordBuilder → RecordBuilder
set_tenant value b = record b { tenant_id = some value }

abbrev pub set_hop : Hop → RecordBuilder → RecordBuilder
set_hop value b = record b { hop = some value }

abbrev pub set_policy : Policy → RecordBuilder → RecordBuilder
set_policy value b = record b { policy = some value }

abbrev pub set_identities : Identity → RecordBuilder → RecordBuilder
set_identities value b = record b { identities = some value }

abbrev pub set_egress : Egress → RecordBuilder → RecordBuilder
set_egress value b = record b { egress = some value }

abbrev pub add_detection : Detection → RecordBuilder → RecordBuilder
add_detection d b = record b { detections = b.detections ++ d ∷ [] }

abbrev pub add_detections : List Detection → RecordBuilder → RecordBuilder
add_detections ds b = record b { detections = b.detections ++ ds }

abbrev pub add_action : Action → RecordBuilder → RecordBuilder
add_action a b = record b { actions = b.actions ++ a ∷ [] }

-- The order of texts: that of their characters.
abbrev pub codes_lt : List ℕ → List ℕ → Bool
codes_lt [] [] = false
codes_lt [] (y ∷ ys) = true
codes_lt (x ∷ xs) [] = false
codes_lt (x ∷ xs) (y ∷ ys) = ltb x y || (nat_eq x y && codes_lt xs ys)

-- `BTreeMap::insert`
unfoldable pub insert_entry :
    String → MetadataValue → List (String × MetadataValue) → List (String × MetadataValue)
insert_entry k v [] = (k, v) ∷ []
insert_entry k v ((j, w) ∷ m) =
    let rest = insert_entry k v m in
    if codes_lt (codes j) (codes k)
    then (j, w) ∷ rest
    else if codes_lt (codes k) (codes j)
    then (k, v) ∷ (j, w) ∷ m
    else (k, v) ∷ m

-- `RecordBuilder::metadata`
unfoldable pub add_metadata : String → MetadataValue → RecordBuilder → RecordBuilder
unfolding insert_entry
add_metadata k v b = record b { metadata = insert_entry k v b.metadata }

abbrev pub release_hash_key : String
release_hash_key = "release_hash"

-- `RecordBuilder::release`
unfoldable pub release : Bytes → RecordBuilder → RecordBuilder
unfolding add_metadata
release manifest_hash b = add_metadata release_hash_key (hash manifest_hash) b

abbrev pub is_key_code : ℕ → Bool
is_key_code c = within 33 126 c && (not (nat_eq c 59) && not (nat_eq c 61))

abbrev pub is_empty_codes : List ℕ → Bool
is_empty_codes [] = true
is_empty_codes (c ∷ cs) = false

unfoldable pub validate_metadata_key : String → Result (Unit {0}) RecordError
unfolding codes
validate_metadata_key key =
    if not (is_empty_codes (codes key)) && all is_key_code (codes key)
    then ok tt
    else err (bad_metadata_key key)

abbrev pub pii_markers : List String
pii_markers =
    "@" ∷ "aadhaar" ∷ "pan" ∷ "ifsc" ∷ "upi://" ∷ "gstin" ∷ "ssn" ∷ "phone" ∷ "email" ∷ "name=" ∷ []

-- The first marker that the text contains.
unfoldable pub find_marker : List String → List ℕ → Option String
unfolding codes contains_codes
find_marker [] lowered = none
find_marker (m ∷ ms) lowered =
    let rest = find_marker ms lowered in if contains_codes (codes m) lowered then some m else rest

-- `char::is_whitespace` is `is_whitespace`.
module _ (f : Formats) (is_whitespace : ℕ → Bool) where
  unfoldable pub validate_opaque_id : String → String → Result (Unit {0}) RecordError
  unfolding codes find_marker
  validate_opaque_id key s =
      if ltb 128 (length (f.into_bytes s))
      then err (opaque_id_too_long key)
      else elim (find_marker pii_markers (map lower_code (codes s))) [
        | some marker ↦
            err (pii_in_metadata key (push_str "contains marker `" (push_str marker "`")))
        | none ↦
            if any is_whitespace (codes s)
            then err (pii_in_metadata key "contains whitespace")
            else if any (nat_eq 59) (codes s) || any (nat_eq 61) (codes s)
            then err (metadata_delimiter key)
            else ok tt
      ]

  unfoldable pub validate_value : String → MetadataValue → Result (Unit {0}) RecordError
  unfolding validate_opaque_id
  validate_value key (bool b) = ok tt
  validate_value key (integer i) = ok tt
  validate_value key (hash h) = ok tt
  validate_value key (opaque_id s) = validate_opaque_id key s

  -- The loop of `build`.
  unfoldable pub validate_metadata : List (String × MetadataValue) → Result (Unit {0}) RecordError
  unfolding validate_metadata_key validate_value
  validate_metadata [] = ok tt
  validate_metadata ((k, v) ∷ rest) =
      validate_metadata_key k >> (validate_value k v >> validate_metadata rest)

  abbrev pub or {ℓ} : {A : Type ℓ} → Option A → A → A
  or none d = d
  or (some a) d = a

  abbrev nil_uuid : Bytes
  nil_uuid = replicate 16 0

  -- `build` at the time `now`.
  unfoldable pub build : ℕ → RecordBuilder → Result LedgerRecord RecordError
  unfolding validate_metadata
  build now b =
      validate_metadata b.metadata
      >> ok (record {
        seq = or b.seq 0;
        ts = or b.ts now;
        tenant_id = or b.tenant_id nil_uuid;
        hop = or b.hop llm_prompt;
        detections = b.detections;
        actions = b.actions;
        policy = or b.policy (record {
          pack_id = "default";
          pack_version = "0000000";
          rule_id = "default-allow";
          decision = allow;
        });
        identities = or b.identities (record {
          agent_id = nil_uuid;
          human_principal = none;
          upstream = "unknown";
          region = "unknown";
        });
        egress = or b.egress (record { destination = "unknown"; bytes_out_hash = replicate 32 0 });
        metadata = b.metadata;
        prev_hash = replicate 32 0;
        record_hash = replicate 32 0;
      })
