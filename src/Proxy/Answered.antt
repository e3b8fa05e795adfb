-- ===== src/Proxy/Answered.antt =====
-- A call that is forwarded and answered, and its retry.
use cloakpipe.Base.{
  String, ◌≡◌, refl, sym, ap, ◌∙◌, Bool, true, false, not, ◌&&◌, ◌||◌, Option, none, some, List,
  length, eq_refl, bytes_eq_refl, if◌then◌else◌, arith,
}
use cloakpipe.Base.Results.{Result, ok, err}
use cloakpipe.Json.{Value}
use cloakpipe.Operations.Rows.{
  OperationState, done, failed, OperationsError, OperationStore, replay, is_some,
}
use cloakpipe.Operations.Store.{begin, settle, settle_masked, settle_with}
use cloakpipe.Operations.Events.{Event, run}
use cloakpipe.Operations.Keyed.{IsKeyed}
use cloakpipe.Operations.Called.{begin-replay_settled}
use cloakpipe.Gate.State.{OperationKey}
use cloakpipe.Proxy.Pending.{InFlight, PendingOps, get_entry, register}
use cloakpipe.Proxy.Coordinate.{
  Coordinated, forward_call, Services, in_flight_of, replay_stored, after_begin, request_of,
  is_in_use, coordinate_request, coordinate, member, is_true, settle_by, settle_found, outcome_of,
  settled_answer, settle_request, settle_reply, text_of,
}
use cloakpipe.Proxy.Forwarded.{coordinate-forward}

-- `settle_reply` on the members of the message.
abbrev settle_members :
    Services
    → Bool
    → Bool
    → Option Value
    → Option Value
    → Option Value
    → Option String
    → String
    → PendingOps
    → OperationStore
    → Option (InFlight × OperationState) × PendingOps × OperationStore
settle_members sv takes masked method result error request now p s =
    if is_some method || not (is_some result) && not (is_some error)
    then (none, p, s)
    else settle_request sv takes masked request result error now p s

get_entry-register :
    (request : String) (op : InFlight) (p : PendingOps)
    → get_entry request (register request op p).by_request ≡ some op
unfolding get_entry
get_entry-register request op p = ground (arith, eq_refl request)

outcome_of-done :
    (sv : Services) (r : Value)
    → is_true (member "isError" r) ≡ false
    → outcome_of sv (some r) none ≡ (done, some (sv.to_text r))
outcome_of-done sv r fine =
    ap (λ b. if not b then (done, some (sv.to_text r)) else (failed, none)) fine

settled_answer-eq-some :
    (op : InFlight) (st : OperationState) (s s₂ : OperationStore)
    (r : Result (Bool × OperationStore) OperationsError) (x : InFlight × OperationState)
    → settled_answer op st s r ≡ (some x, s₂)
    → r ≡ ok (true, s₂)
settled_answer-eq-some op st s s₂ (ok (true, s')) x e =
    ap (λ (y : Option (InFlight × OperationState) × OperationStore). ok (true, y.1)) e
settled_answer-eq-some op st s s₂ (ok (false, s')) x e = cc
settled_answer-eq-some op st s s₂ (err f) x e = cc

-- A settlement that returns true is one of the store, which took the write.
settle_by-eq-ok :
    (takes masked : Bool) (s s₂ : OperationStore) (id : String) (st : OperationState)
    (stored : Option String) (now : String)
    → settle_by takes masked s id (st, stored) now ≡ ok (true, s₂)
    → settle_with s id st stored masked now ≡ ok (true, s₂)
unfolding settle settle_masked
settle_by-eq-ok true true s s₂ id st stored now e = e
settle_by-eq-ok true false s s₂ id st stored now e = e
settle_by-eq-ok false true s s₂ id st stored now e = cc
settle_by-eq-ok false false s s₂ id st stored now e = cc

-- The reply of a call that is registered settles its operation.
settle_members-registered :
    (sv : Services) (takes masked : Bool) (request : String) (r : Value) (now : String)
    (op : InFlight) (p : PendingOps) (s : OperationStore)
    → is_true (member "isError" r) ≡ false
    → let out =
        settle_members sv takes masked none
          (some r)
          none
          (some request)
          now
          (register request op p)
          s in
      (out.0, out.2)
      ≡ settled_answer op done s
          (settle_by takes masked s op.operation_id (done, some (sv.to_text r)) now)
settle_members-registered sv takes masked request r now op p s fine =
    ap
      (λ o.
        let out =
          settle_found sv takes masked request o (outcome_of sv (some r) none) now
            (register request op p) s in
        (out.0, out.2))
      (get_entry-register request op p)
    ∙ ap (λ o. settled_answer op o.0 s (settle_by takes masked s op.operation_id o now))
        (outcome_of-done sv r fine)

-- Where the reply is said to settle an operation, the store has settled it as done.
settle_reply-done :
    (sv : Services) (takes masked : Bool) (msg r : Value) (request : String) (now : String)
    (op : InFlight) (p p₂ : PendingOps) (s s₂ : OperationStore) (x : InFlight × OperationState)
    → member "method" msg ≡ none
    → member "result" msg ≡ some r
    → member "error" msg ≡ none
    → is_true (member "isError" r) ≡ false
    → text_of sv (member "id" msg) ≡ some request
    → settle_reply sv takes masked msg now (register request op p) s ≡ (some x, p₂, s₂)
    → settle_with s op.operation_id done (some (sv.to_text r)) masked now ≡ ok (true, s₂)
unfolding settle_reply
settle_reply-done sv takes masked msg r request now op p p₂ s s₂ x no_method result no_error fine id
      e =
    let p₁ = register request op p in
    let parts : settle_members sv takes masked (member "method" msg) (member "result" msg)
          (member "error" msg) (text_of sv (member "id" msg)) now p₁ s
        ≡ settle_members sv takes masked none (some r) none (some request) now p₁ s =
      rw (no_method, result, no_error, id) refl in
    settle_by-eq-ok takes masked s s₂ op.operation_id done (some (sv.to_text r)) now (
      settled_answer-eq-some op done s s₂
        (settle_by takes masked s op.operation_id (done, some (sv.to_text r)) now) x
        (sym (settle_members-registered sv takes masked request r now op p s fine)
          ∙ ap
              (λ (y : Option (InFlight × OperationState) × PendingOps × OperationStore). (y.0, y.2))
              (sym parts ∙ e)))

-- A side-effecting call whose fingerprint has 32 bytes, which was forwarded from a store without
-- duplicate ids, and whose reply, after any calls of the store, has a result that is no error and
-- is said to settle an operation, is not forwarded when it is sent again under a request id that
-- is free, whatever calls of the store come between: it is answered from the text of that result,
-- which `replayed` reads and marks, and rehydrates by the vault where it is masked; or it is
-- refused, where the text cannot be read as an object to mark or there is no vault for a masked
-- one. Neither the store nor the pending calls change.
pub coordinate-replay :
    (sv : Services) (closes closes' takes masked : Bool) (id id' : Option Value) (tool : String)
    (op : OperationKey) (now now₁ now₂ request request' : String) (p p₁ p₂ p' : PendingOps)
    (s s₁ s₂ : OperationStore) (msg r : Value) (x : InFlight × OperationState)
    (before after : List Event)
    → length (sv.fingerprint_bytes op.fingerprint) ≡ 32
    → IsKeyed s.rows
    → coordinate sv closes id tool op now p s ≡ (forward_call, p₁, s₁)
    → request_of sv id ≡ some request
    → member "method" msg ≡ none
    → member "result" msg ≡ some r
    → member "error" msg ≡ none
    → is_true (member "isError" r) ≡ false
    → text_of sv (member "id" msg) ≡ some request
    → settle_reply sv takes masked msg now₁ p₁ (run before s₁) ≡ (some x, p₂, s₂)
    → request_of sv id' ≡ some request'
    → p'.closed ≡ false
    → is_in_use request' p' ≡ false
    → coordinate sv closes' id' tool op now₂ p' (run after s₂)
      ≡ (replay_stored sv (some (sv.to_text r)) masked op.operation_id, p', run after s₂)
unfolding coordinate after_begin
coordinate-replay sv closes closes' takes masked id id' tool op now now₁ now₂ request request' p p₁
      p₂ p' s s₁ s₂ msg r x before after size keyed first named no_method result no_error fine
      reply_id replied named' unlocked free =
    let (request₀, named₀, _, _, begun, registered) =
      coordinate-forward sv closes id tool op now p p₁ s s₁ first in
    let same : request₀ ≡ request = some_injective (sym named₀ ∙ named) in
    let digest = sv.fingerprint_bytes op.fingerprint in
    let registered' = registered ∙ ap (λ k. register k (in_flight_of sv tool op) p) same in
    let replied' =
      ap (λ q. settle_reply sv takes masked msg now₁ q (run before s₁)) (sym registered')
      ∙ replied in
    let settled =
      settle_reply-done sv takes masked msg r request now₁ (in_flight_of sv tool op) p p₂
        (run before s₁) s₂ x no_method result no_error fine reply_id replied' in
    let again : begin (run after s₂) op.operation_id tool digest now₂
        ≡ ok (replay (some (sv.to_text r)) masked, run after s₂) =
      begin-replay_settled s s₁ s₂ op.operation_id tool digest now now₁ now₂ (some (sv.to_text r))
        masked before after size keyed begun settled
      ∙ ground (arith, bytes_eq_refl digest, eq_refl tool) in
    ap (λ q. coordinate_request sv closes' q tool op now₂ p' (run after s₂)) named'
    ∙ guarded-passed p'.closed _ _ unlocked
    ∙ guarded-passed (is_in_use request' p') _ _ free
    ∙ ap (after_begin sv closes' request' tool op now₂ p' (run after s₂)) again
  where
    some_injective : {a b : String} → some a ≡ some b → a ≡ b
    some_injective q = cc

    guarded-passed :
        (b : Bool) (x y : Coordinated × PendingOps × OperationStore)
        → b ≡ false
        → (if b then x else y) ≡ y
    guarded-passed b x y q = ap (λ t. if t then x else y) q
