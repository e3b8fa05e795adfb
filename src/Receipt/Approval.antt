-- ===== src/Receipt/Approval.antt =====
-- Approval receipts and their check against a call.
use cloakpipe.Base.{
  ℕ, ◌+◌, ◌*◌, String, Bool, true, false, not, ◌&&◌, Option, none, some, List, [], ◌∷◌, any, all,
  leb, ltb, ◌==◌, if◌then◌else◌,
}
use cloakpipe.Base.Results.{Result, ok, err, ◌>>=◌, ◌>>◌, ok_or}
use cloakpipe.Json.{Value, string, array, object, Items, no_items, item, get, keys, get_path}
use cloakpipe.Receipt.Dsse.{Codecs, Envelope, TrustedKey, verified_keyids}
use cloakpipe.Receipt.OperationId.{is_valid_operation_id}

pub record Approval : Type 0 where
  pub release : String
  pub tool : String
  pub task_id : String
  pub operation_id : String
  pub approver : String
  pub approved_at : String
  pub not_after : String

-- `fingerprint` is the hex of the call's fingerprint.
pub record ApprovalCheck : Type 0 where
  pub fingerprint : String
  pub release : String
  pub tool : String
  pub task_id : String
  pub approvers : List TrustedKey
  pub now : String

-- `Invalid` without its description.
pub data ApprovalError : Type 0 where
  invalid expired : ApprovalError

abbrev pub payload_type_name : String
payload_type_name = "application/vnd.in-toto+json"

abbrev pub statement_type : String
statement_type = "https://in-toto.io/Statement/v1"

abbrev pub approval_predicate_type : String
approval_predicate_type = "https://cloakpipe.co/attestations/approval/v1alpha1"

-- 60 seconds.
abbrev pub clock_skew : ℕ
clock_skew = 60 * 1000000000

abbrev pub require : Bool → Result (Unit {0}) ApprovalError
require true = ok tt
require false = err invalid

-- `.get(key)` and `.as_str()`
abbrev pub as_string : Option Value → Option String
as_string (some (string s)) = some s
as_string _ = none

abbrev pub is_text : Option Value → String → Bool
is_text v s = elim (as_string v) [ none ↦ false | some t ↦ t == s ]

abbrev pub is_string : Option Value → Bool
is_string v = elim (as_string v) [ none ↦ false | some t ↦ true ]

-- Exactly one subject, whose digest is the fingerprint.
abbrev pub subject_ok : Option Value → String → Bool
subject_ok (some (array (item entry no_items))) fingerprint =
    is_string (get_path ("name" ∷ []) entry)
    && is_text (get_path ("digest" ∷ "sha256" ∷ []) entry) fingerprint
subject_ok _ fingerprint = false

abbrev pub approval_keys : List String
approval_keys =
    "release" ∷ "tool" ∷ "taskId" ∷ "operationId" ∷ "approver" ∷ "approvedAt" ∷ "notAfter" ∷ []

abbrev pub approval_of :
    Option String
    → Option String
    → Option String
    → Option String
    → Option String
    → Option String
    → Option String
    → Option Approval
approval_of (some r) (some t) (some k) (some o) (some a) (some f) (some n) = some (record {
  release = r;
  tool = t;
  task_id = k;
  operation_id = o;
  approver = a;
  approved_at = f;
  not_after = n;
})
approval_of _ _ _ _ _ _ _ = none

abbrev pub text_item : Items → Option String
text_item no_items = none
text_item (item v vs) = as_string (some v)

abbrev pub rest_items : Items → Items
rest_items no_items = no_items
rest_items (item v vs) = vs

abbrev pub is_last : Items → Bool
is_last (item v no_items) = true
is_last _ = false

-- `Approval::deserialize`, as `serde` derives it with `deny_unknown_fields`: from an object with
-- these keys and no other, or from an array of the fields in their order.
unfoldable pub read_approval : Value → Option Approval
unfolding get keys
read_approval (object o) =
    if all (λ k. any (λ j. j == k) approval_keys) (keys o)
    then approval_of (as_string (get "release" o)) (as_string (get "tool" o))
        (as_string (get "taskId" o)) (as_string (get "operationId" o))
        (as_string (get "approver" o)) (as_string (get "approvedAt" o))
        (as_string (get "notAfter" o))
    else none
read_approval (array a₀) =
    let a₁ = rest_items a₀ in
    let a₂ = rest_items a₁ in
    let a₃ = rest_items a₂ in
    let a₄ = rest_items a₃ in
    let a₅ = rest_items a₄ in
    let a₆ = rest_items a₅ in
    if is_last a₆
    then approval_of (text_item a₀) (text_item a₁) (text_item a₂) (text_item a₃) (text_item a₄)
        (text_item a₅) (text_item a₆)
    else none
read_approval _ = none

abbrev pub is_signer : String → List String → Bool
is_signer approver signers = any (λ k. k == approver) signers

abbrev pub has_signer : List String → Bool
has_signer [] = false
has_signer (k ∷ ks) = true

-- The statement of a receipt whose signature verifies.
unfoldable pub read_statement : Value → ApprovalCheck → Result Approval ApprovalError
unfolding read_approval get_path
read_statement statement check = do
  require (is_text (get_path ("_type" ∷ []) statement) statement_type)
  require (is_text (get_path ("predicateType" ∷ []) statement) approval_predicate_type)
  require (subject_ok (get_path ("subject" ∷ []) statement) check.fingerprint)
  predicate ← ok_or (get_path ("predicate" ∷ []) statement) invalid
  ok_or (read_approval predicate) invalid

-- The fields of an approval against the call and the clock.
unfoldable pub check_fields :
    Codecs → List String → Approval → ApprovalCheck → Result (Unit {0}) ApprovalError
unfolding is_valid_operation_id
check_fields cs signers a check = do
  require (is_signer a.approver signers)
  require (a.release == check.release)
  require (a.tool == check.tool)
  require (a.task_id == check.task_id)
  require (is_valid_operation_id a.operation_id)
  approved_at ← ok_or (cs.parse_rfc3339 a.approved_at) invalid
  not_after ← ok_or (cs.parse_rfc3339 a.not_after) invalid
  now ← ok_or (cs.parse_rfc3339 check.now) invalid
  require (not (leb not_after approved_at))
  require (not (ltb (now + clock_skew) approved_at))
  if leb not_after now then err expired else ok tt

unfoldable pub verify_approval : Codecs → Envelope → ApprovalCheck → Result Approval ApprovalError
unfolding verified_keyids read_statement check_fields
verify_approval cs envelope check = do
  require (envelope.payload_type == payload_type_name)
  payload ← ok_or (cs.base64_decode envelope.payload) invalid
  let signers = verified_keyids cs envelope payload check.approvers
  require (has_signer signers)
  statement ← ok_or (cs.from_slice payload) invalid
  a ← read_statement statement check
  check_fields cs signers a check
  ok a
