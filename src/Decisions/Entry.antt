-- ===== src/Decisions/Entry.antt =====
-- crates/cloakpipe-ledger/src/decision.rs
use Prim.Native.Nat.{Ordering}
use Prim.Native.String.{compare}
use cloakpipe.Base.{ℕ, String, Bool, Option, none, some, List, [], ◌∷◌, ◌++◌, Bytes, if◌then◌else◌}
use cloakpipe.Json.{
  Value, null, boolean, number, string, array, object, unsigned, Fields, no_fields, field, Items,
  no_items, item, remove,
}

abbrev pub decision_kind : String
decision_kind = "cloakpipe.decision/v1"

abbrev pub decision_hash_domain : String
decision_hash_domain = "cloakpipe.decision.v1"

abbrev pub genesis : String
genesis = "0000000000000000000000000000000000000000000000000000000000000000"

pub data Decision : Type 0 where
  allow deny require_approval : Decision

unfoldable pub decision_tag : Decision → String
decision_tag allow = "allow"
decision_tag deny = "deny"
decision_tag require_approval = "require_approval"

pub data Mode : Type 0 where
  enforce shadow : Mode

unfoldable pub mode_tag : Mode → String
mode_tag enforce = "enforce"
mode_tag shadow = "shadow"

pub data Outcome : Type 0 where
  committed failed unknown : Outcome

unfoldable pub outcome_tag : Outcome → String
outcome_tag committed = "committed"
outcome_tag failed = "failed"
outcome_tag unknown = "unknown"

pub data Event : Type 0 where
  call replay outcome_event reconcile : Event

unfoldable pub event_tag : Event → String
event_tag call = "call"
event_tag replay = "replay"
event_tag outcome_event = "outcome"
event_tag reconcile = "reconcile"

-- `ts` is a time in nanoseconds.
pub record DecisionDraft : Type 0 where
  pub ts : Option ℕ
  pub event : Event
  pub release : Option String
  pub tool : Option String
  pub args_fingerprint : Option String
  pub decision : Decision
  pub reason : String
  pub path : Option String
  pub policy_version : Option String
  pub policy_digest : Option String
  pub mode : Option Mode
  pub task_id : Option String
  pub operation_id : Option String
  pub approval : Option String
  pub outcome : Option Outcome
  pub forwarded : Bool
  pub tools_lock : Option String

unfoldable pub new_draft : Event → String → DecisionDraft
new_draft event reason = record {
  ts = none;
  event = event;
  release = none;
  tool = none;
  args_fingerprint = none;
  decision = allow;
  reason = reason;
  path = none;
  policy_version = none;
  policy_digest = none;
  mode = none;
  task_id = none;
  operation_id = none;
  approval = none;
  outcome = none;
  forwarded = Bool.false;
  tools_lock = none;
}

pub record DecisionEntry : Type 0 where
  pub kind : String
  pub seq : ℕ
  pub ts : String
  pub event : Event
  pub release : Option String
  pub tool : Option String
  pub args_fingerprint : Option String
  pub decision : Decision
  pub reason : String
  pub path : Option String
  pub policy_version : Option String
  pub policy_digest : Option String
  pub mode : Option Mode
  pub task_id : Option String
  pub operation_id : Option String
  pub approval : Option String
  pub outcome : Option Outcome
  pub forwarded : Bool
  pub tools_lock : Option String
  pub signer : String
  pub prev_hash : String
  pub entry_hash : String
  pub sig : String

-- What `serde_json`, `sha2`, `hex`, `chrono` and the standard library do: the JSON of a string and of
-- any other scalar, the bytes of a text, the SHA-256 digest, `hex::encode` and `hex::decode`, and a
-- time printed to the second; and whether `serde_json` is built with `preserve_order`, which keeps
-- the members of an object as they were inserted, or not, which keeps them in key order.
pub record Encodings : Type 0 where
  pub quoted : String → Bytes
  pub scalar : Value → Bytes
  pub into_bytes : String → Bytes
  pub sha256 : Bytes → Bytes
  pub hex_encode : Bytes → String
  pub hex_decode : String → Option Bytes
  pub to_rfc3339_secs : ℕ → String
  pub preserve_order : Bool

-- `keys.sort()`, on the members with the bytes that are written for them.
unfoldable pub insert_key : String × Bytes → List (String × Bytes) → List (String × Bytes)
insert_key (k, b) [] = (k, b) ∷ []
insert_key (k, b) ((j, c) ∷ rest) =
    let later = insert_key (k, b) rest in
    elim (compare k j) [ Ordering.gt ↦ (j, c) ∷ later | _ ↦ (k, b) ∷ (j, c) ∷ rest ]

unfoldable pub sort_keys : List (String × Bytes) → List (String × Bytes)
unfolding insert_key
sort_keys [] = []
sort_keys (x ∷ xs) = insert_key x (sort_keys xs)

-- The members one after the other, a comma before each but the first.
unfoldable pub joined : Bool → List (String × Bytes) → Bytes
joined first [] = []
joined first ((k, b) ∷ rest) = (if first then [] else 44 ∷ []) ++ b ++ joined Bool.false rest

-- `canonical_json`. `members` has the key and the bytes of each member, which are then sorted.
unfoldable mutual
  unfolding sort_keys joined

  pub canonical_json : Encodings → Value → Bytes
  canonical_json e (object fs) = 123 ∷ joined Bool.true (sort_keys (members e fs)) ++ 125 ∷ []
  canonical_json e (array vs) = 91 ∷ elements e Bool.true vs ++ 93 ∷ []
  canonical_json e null = e.scalar null
  canonical_json e (boolean b) = e.scalar (boolean b)
  canonical_json e (number n) = e.scalar (number n)
  canonical_json e (string s) = e.scalar (string s)

  pub members : Encodings → Fields → List (String × Bytes)
  members e no_fields = []
  members e (field k v fs) = (k, e.quoted k ++ 58 ∷ canonical_json e v) ∷ members e fs

  pub elements : Encodings → Bool → Items → Bytes
  elements e first no_items = []
  elements e first (item v vs) =
      (if first then [] else 44 ∷ []) ++ canonical_json e v ++ elements e Bool.false vs

-- The members that `entry_hash_of` covers.
unfoldable pub covered : Bool → String → Value → Value
unfolding remove
covered preserve_order hash_member (object fs) =
    object (remove preserve_order "sig" (remove preserve_order hash_member fs))
covered preserve_order hash_member v = v

unfoldable pub entry_hash_of : Encodings → Value → Bytes
unfolding canonical_json covered
entry_hash_of e entry = e.sha256 (
    e.into_bytes decision_hash_domain
    ++ 10 ∷ canonical_json e (covered e.preserve_order "entry_hash" entry))

abbrev pub text_or_null : Option String → Value
text_or_null none = null
text_or_null (some s) = string s

abbrev pub mode_or_null : Option Mode → Value
mode_or_null none = null
mode_or_null (some m) = string (mode_tag m)

abbrev pub outcome_or_null : Option Outcome → Value
outcome_or_null none = null
outcome_or_null (some o) = string (outcome_tag o)

-- `skip_serializing_if = "Option::is_none"`
abbrev pub if_some : String → Option String → Fields → Fields
if_some k none fs = fs
if_some k (some s) fs = field k (string s) fs

-- The members of an entry as they are declared.
unfoldable pub entry_fields : DecisionEntry → Option String → Fields
unfolding decision_tag mode_tag outcome_tag event_tag
entry_fields e tools_lock = field "kind" (string e.kind) (
    field "seq" (number (unsigned e.seq)) (
      field "ts" (string e.ts) (
        field "event" (string (event_tag e.event)) (
          field "release" (text_or_null e.release) (
            field "tool" (text_or_null e.tool) (
              field "args_fingerprint" (text_or_null e.args_fingerprint) (
                field "decision" (string (decision_tag e.decision)) (
                  field "reason" (string e.reason) (
                    field "path" (text_or_null e.path) (
                      field "policy_version" (text_or_null e.policy_version) (
                        field "policy_digest" (text_or_null e.policy_digest) (
                          field "mode" (mode_or_null e.mode) (
                            field "task_id" (text_or_null e.task_id) (
                              field "operation_id" (text_or_null e.operation_id) (
                                field "approval" (text_or_null e.approval) (
                                  field "outcome" (outcome_or_null e.outcome) (
                                    field "forwarded" (boolean e.forwarded) (
                                      if_some "tools_lock" tools_lock (
                                        field "signer" (string e.signer) (
                                          field "prev_hash" (string e.prev_hash) (
                                            field "entry_hash" (string e.entry_hash) (
                                              field "sig" (string e.sig)
                                                (no_fields)))))))))))))))))))))))

-- An object's map: the members as they were inserted, or in key order.
unfoldable pub insert_sorted : String → Value → Fields → Fields
insert_sorted k v no_fields = field k v no_fields
insert_sorted k v (field j w fs) =
    let later = insert_sorted k v fs in
    elim (compare k j) [ Ordering.gt ↦ field j w later | _ ↦ field k v (field j w fs) ]

unfoldable pub sort_fields : Fields → Fields
unfolding insert_sorted
sort_fields no_fields = no_fields
sort_fields (field k v fs) = insert_sorted k v (sort_fields fs)

abbrev pub in_map : Bool → Fields → Fields
in_map preserve_order fs = if preserve_order then fs else sort_fields fs

-- `serde_json::to_value` of an entry.
unfoldable pub to_value : Bool → DecisionEntry → Value
unfolding entry_fields sort_fields
to_value preserve_order e = object (in_map preserve_order (entry_fields e e.tools_lock))

unfoldable pub compute_hash : Encodings → DecisionEntry → String
unfolding entry_hash_of to_value
compute_hash e entry = e.hex_encode (entry_hash_of e (to_value e.preserve_order entry))

abbrev pub or_now : Option ℕ → ℕ → ℕ
or_now none now = now
or_now (some t) now = t

-- `a.or_else(|| b)`
abbrev pub or_else : Option String → Option String → Option String
or_else none b = b
or_else (some a) b = some a

-- The entry of `DecisionEntry::link` at the time `now`, before its hash is set.
unfoldable pub unhashed : Encodings → ℕ → DecisionDraft → ℕ → String → String → DecisionEntry
unhashed e now draft seq prev_hash signer = record {
  kind = decision_kind;
  seq = seq;
  ts = e.to_rfc3339_secs (or_now draft.ts now);
  event = draft.event;
  release = draft.release;
  tool = draft.tool;
  args_fingerprint = draft.args_fingerprint;
  decision = draft.decision;
  reason = draft.reason;
  path = draft.path;
  policy_version = or_else draft.policy_version draft.release;
  policy_digest = draft.policy_digest;
  mode = draft.mode;
  task_id = draft.task_id;
  operation_id = draft.operation_id;
  approval = draft.approval;
  outcome = draft.outcome;
  forwarded = draft.forwarded;
  tools_lock = draft.tools_lock;
  signer = signer;
  prev_hash = prev_hash;
  entry_hash = "";
  sig = "";
}

-- `DecisionEntry::link`
unfoldable pub link : Encodings → ℕ → DecisionDraft → ℕ → String → String → DecisionEntry
unfolding compute_hash unhashed
link e now draft seq prev_hash signer =
    let entry = unhashed e now draft seq prev_hash signer in
    record entry { entry_hash = compute_hash e entry }
