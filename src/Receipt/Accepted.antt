-- ===== src/Receipt/Accepted.antt =====
-- What a receipt that `verify_approval` accepts is.
use cloakpipe.Base.{
  ℕ, ◌+◌, ◌≤◌, ◌<◌, String, ◌≡◌, refl, sym, ap, ◌∙◌, Bool, true, false, not, some, List, [], ◌∷◌,
  any, leb, ltb, Bytes, ◌==◌, eq_iff, arith, Bool-cases, Option-cases, inl, inr,
}
use cloakpipe.Base.Results.{ok, ok_or, >>=-eq-ok, ok_or-eq-ok}
use cloakpipe.Json.{Value, get_path}
use cloakpipe.Receipt.Dsse.{
  Signature, Envelope, TrustedKey, Codecs, pae, decode_signature, check_signature, verifies_under,
  signers_of, verified_keyids,
}
use cloakpipe.Receipt.OperationId.{is_valid_operation_id}
use cloakpipe.Receipt.Approval.{
  Approval, ApprovalCheck, invalid, clock_skew, require, is_text, subject_ok, read_approval,
  read_statement, check_fields, verify_approval, is_signer, has_signer, payload_type_name,
  approval_predicate_type, statement_type,
}

require-eq-ok : (b : Bool) → require b ≡ ok tt → b ≡ true
require-eq-ok true e = refl
require-eq-ok false e = cc

-- A trusted key under which a signature over a message verifies.
abbrev pub IsSignedBy : Codecs → Bytes → List Signature → List TrustedKey → String → Type 0
IsSignedBy cs message signatures trusted keyid =
    (s : Signature) × (sig : Bytes) × (any (λ (x : Signature). x.keyid == keyid) signatures ≡ true)
    × (s.keyid ≡ keyid)
    × (decode_signature cs s ≡ some sig)
    × (any (verifies_under cs message s sig) trusted ≡ true)

check_signature-eq-true :
    (cs : Codecs) (s : Signature) (message : Bytes) (trusted : List TrustedKey)
    → check_signature cs s message trusted ≡ true
    → (sig : Bytes) × (decode_signature cs s ≡ some sig)
      × (any (verifies_under cs message s sig) trusted ≡ true)
unfolding check_signature
check_signature-eq-true cs s message trusted e = elim (Option-cases (decode_signature cs s)) [
  | inl missing ↦ ground arith
  | inr (sig, decoded) ↦ (sig, decoded, ground arith)
]

signers_of-IsSignedBy :
    (cs : Codecs) (message : Bytes) (trusted : List TrustedKey) (ss : List Signature) (k : String)
    → is_signer k (signers_of cs message trusted ss) ≡ true
    → IsSignedBy cs message ss trusted k
signers_of-IsSignedBy cs message trusted [] k e = cc
signers_of-IsSignedBy cs message trusted (s ∷ ss) k e =
    elim (Bool-cases (check_signature cs s message trusted)) [
      | inl here ↦ elim (Bool-cases (s.keyid == k)) [
        | inl same ↦
            let (sig, decoded, verified) = check_signature-eq-true cs s message trusted here in
            (s, sig, ground arith, (eq_iff s.keyid k).0 same, decoded, verified)
        | inr other ↦ further (signers_of-IsSignedBy cs message trusted ss k (ground arith))
      ]
      | inr miss ↦ further (signers_of-IsSignedBy cs message trusted ss k (ground arith))
    ]
  where
    further : IsSignedBy cs message ss trusted k → IsSignedBy cs message (s ∷ ss) trusted k
    further (t, sig, found, same, decoded, verified) =
        (t, sig, ground arith, same, decoded, verified)

-- The receipt is about this call: its subject, and the fields of its predicate.
read_statement-eq-ok :
    (statement : Value) (check : ApprovalCheck) {a : Approval}
    → read_statement statement check ≡ ok a
    → (predicate : Value) × (subject_ok (get_path ("subject" ∷ []) statement) check.fingerprint
        ≡ true)
      × (get_path ("predicate" ∷ []) statement ≡ some predicate)
      × (read_approval predicate ≡ some a)
unfolding read_statement
read_statement-eq-ok statement check e =
    let (_, kind, e₁) =
      >>=-eq-ok (require (is_text (get_path ("_type" ∷ []) statement) statement_type)) _ e in
    let (_, predicate_kind, e₂) =
      >>=-eq-ok
        (require (is_text (get_path ("predicateType" ∷ []) statement) approval_predicate_type)) _
        e₁ in
    let (_, subject, e₃) =
      >>=-eq-ok (require (subject_ok (get_path ("subject" ∷ []) statement) check.fingerprint)) _
        e₂ in
    let (predicate, found, e₄) =
      >>=-eq-ok (ok_or (get_path ("predicate" ∷ []) statement) invalid) _ e₃ in
    (predicate, require-eq-ok _ subject, ok_or-eq-ok _ _ found, ok_or-eq-ok _ _ e₄)

-- The approval is this call's, and its window holds the time of the check.
abbrev pub IsCurrent : Codecs → Approval → ApprovalCheck → Type 0
IsCurrent cs a check =
    (from : ℕ) × (to : ℕ) × (now : ℕ) × (cs.parse_rfc3339 a.approved_at ≡ some from)
    × (cs.parse_rfc3339 a.not_after ≡ some to)
    × (cs.parse_rfc3339 check.now ≡ some now)
    × (from ≤ now + clock_skew)
    × (now < to)
    × (from < to)

check_fields-eq-ok :
    (cs : Codecs) (signers : List String) (a : Approval) (check : ApprovalCheck)
    → check_fields cs signers a check ≡ ok tt
    → (is_signer a.approver signers ≡ true)
      × (a.release ≡ check.release)
      × (a.tool ≡ check.tool)
      × (a.task_id ≡ check.task_id)
      × (is_valid_operation_id a.operation_id ≡ true)
      × IsCurrent cs a check
unfolding check_fields
check_fields-eq-ok cs signers a check e =
    let (_, signer, e₁) = >>=-eq-ok (require (is_signer a.approver signers)) _ e in
    let (_, release, e₂) = >>=-eq-ok (require (a.release == check.release)) _ e₁ in
    let (_, tool, e₃) = >>=-eq-ok (require (a.tool == check.tool)) _ e₂ in
    let (_, task, e₄) = >>=-eq-ok (require (a.task_id == check.task_id)) _ e₃ in
    let (_, id, e₅) = >>=-eq-ok (require (is_valid_operation_id a.operation_id)) _ e₄ in
    let (from, p, e₆) = >>=-eq-ok (ok_or (cs.parse_rfc3339 a.approved_at) invalid) _ e₅ in
    let (to, q, e₇) = >>=-eq-ok (ok_or (cs.parse_rfc3339 a.not_after) invalid) _ e₆ in
    let (now, r, e₈) = >>=-eq-ok (ok_or (cs.parse_rfc3339 check.now) invalid) _ e₇ in
    let (_, window, e₉) = >>=-eq-ok (require (not (leb to from))) _ e₈ in
    let (_, skew, e₁₀) = >>=-eq-ok (require (not (ltb (now + clock_skew) from))) _ e₉ in
    let late = require-eq-ok _ skew in
    let wide = require-eq-ok _ window in
    (
      require-eq-ok _ signer,
      (eq_iff _ _).0 (require-eq-ok _ release),
      (eq_iff _ _).0 (require-eq-ok _ tool),
      (eq_iff _ _).0 (require-eq-ok _ task),
      require-eq-ok _ id,
      (
        from,
        to,
        now,
        ok_or-eq-ok _ _ p,
        ok_or-eq-ok _ _ q,
        ok_or-eq-ok _ _ r,
        ground arith,
        ground arith,
        ground arith,
      ),
    )

-- The approver of an accepted receipt has signed its payload, under a trusted key of the same
-- keyid; the payload is about the fingerprint of the call; the approval in it names the release,
-- the tool and the task of the call, with a valid operation id; and the time of the check is
-- before the approval's `notAfter`, and before its `approvedAt` by the clock skew at most.
pub verify_approval-accepts :
    (cs : Codecs) (envelope : Envelope) (check : ApprovalCheck) (a : Approval)
    → verify_approval cs envelope check ≡ ok a
    → (payload : Bytes) × (statement predicate : Value) × (cs.base64_decode envelope.payload
        ≡ some payload)
      × IsSignedBy cs
          (pae cs envelope.payload_type payload)
          envelope.signatures
          check.approvers
          a.approver
      × (cs.from_slice payload ≡ some statement)
      × (subject_ok (get_path ("subject" ∷ []) statement) check.fingerprint ≡ true)
      × (get_path ("predicate" ∷ []) statement ≡ some predicate)
      × (read_approval predicate ≡ some a)
      × (a.release ≡ check.release)
      × (a.tool ≡ check.tool)
      × (a.task_id ≡ check.task_id)
      × (is_valid_operation_id a.operation_id ≡ true)
      × IsCurrent cs a check
unfolding verify_approval verified_keyids
verify_approval-accepts cs envelope check a e =
    let (_, kind, e₁) = >>=-eq-ok (require (envelope.payload_type == payload_type_name)) _ e in
    let (payload, decoded, e₂) =
      >>=-eq-ok (ok_or (cs.base64_decode envelope.payload) invalid) _ e₁ in
    let signers = verified_keyids cs envelope payload check.approvers in
    let (_, signed, e₃) = >>=-eq-ok (require (has_signer signers)) _ e₂ in
    let (statement, parsed, e₄) = >>=-eq-ok (ok_or (cs.from_slice payload) invalid) _ e₃ in
    let (a', read, e₅) = >>=-eq-ok (read_statement statement check) _ e₄ in
    let (_, fields, e₆) = >>=-eq-ok (check_fields cs signers a' check) _ e₅ in
    let same : a' ≡ a = cc e₆ in
    let (predicate, subject, found, approval) = read_statement-eq-ok statement check read in
    let (signer, release, tool, task, id, current) =
      check_fields-eq-ok cs signers a check
        (ap (λ x. check_fields cs signers x check) (sym same) ∙ fields) in
    (
      payload,
      statement,
      predicate,
      ok_or-eq-ok _ _ decoded,
      signers_of-IsSignedBy cs _ check.approvers envelope.signatures a.approver signer,
      ok_or-eq-ok _ _ parsed,
      subject,
      found,
      approval ∙ ap some same,
      release,
      tool,
      task,
      id,
      current,
    )
