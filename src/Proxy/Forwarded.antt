-- ===== src/Proxy/Forwarded.antt =====
-- What `coordinate` has done where it forwards a call.
use cloakpipe.Base.{
  String, ◌≡◌, ◌≢◌, refl, sym, ap, ◌∙◌, Bool, true, false, Option, none, some, List, any,
  if◌then◌else◌, arith, Option-cases, inl, inr,
}
use cloakpipe.Base.Results.{Result, ok, err}
use cloakpipe.Json.{Value}
use cloakpipe.Operations.Rows.{
  OperationsError, OperationStore, Begin, forward, replay, conflict, reconcile_before_retry,
}
use cloakpipe.Operations.Store.{begin}
use cloakpipe.Operations.Events.{Event, run, permits_retry}
use cloakpipe.Operations.AtMostOnce.{begin-at_most_once}
use cloakpipe.Gate.Denial.{Denial, operations_unavailable, request_id_in_use}
use cloakpipe.Gate.State.{OperationKey}
use cloakpipe.Proxy.Pending.{PendingOps, register}
use cloakpipe.Proxy.Coordinate.{
  Coordinated, forward_call, deny_call, Services, in_flight_of, replay_stored, after_begin,
  request_of, is_in_use, coordinate_request, coordinate,
}

replay_stored-not_forward :
    (sv : Services) (stored : Option String) (masked : Bool) (id : String)
    → replay_stored sv stored masked id ≢ forward_call
replay_stored-not_forward sv stored masked id e = ground arith

after_begin-forward :
    (sv : Services) (closes : Bool) (request tool : String) (op : OperationKey) (now : String)
    (p : PendingOps) (s : OperationStore) (b : Result (Begin × OperationStore) OperationsError)
    {p' : PendingOps} {s' : OperationStore}
    → after_begin sv closes request tool op now p s b ≡ (forward_call, p', s')
    → (closes ≡ false)
      × (b ≡ ok (forward, s'))
      × (p' ≡ register request (in_flight_of sv tool op) p)
unfolding after_begin
after_begin-forward sv false request tool op now p s (ok (forward, s₁)) e = (
  refl,
  ap (λ x. ok (forward, x)) (ap (λ (x : Coordinated × PendingOps × OperationStore). x.2) e),
  sym (ap (λ (x : Coordinated × PendingOps × OperationStore). x.1) e),
)
after_begin-forward sv true request tool op now p s (ok (forward, s₁)) e = cc
after_begin-forward sv closes request tool op now p s (ok (replay stored masked, s₁)) e = absurd (
    replay_stored-not_forward sv stored masked op.operation_id
      (ap (λ (x : Coordinated × PendingOps × OperationStore). x.0) e))
after_begin-forward sv closes request tool op now p s (ok (conflict, s₁)) e = cc
after_begin-forward sv closes request tool op now p s (ok (reconcile_before_retry st, s₁)) e = cc
after_begin-forward sv closes request tool op now p s (err x) e = cc

-- A refusal that was not taken.
guarded-forward :
    (b : Bool) (d : Denial) (p : PendingOps) (s : OperationStore)
    (x : Coordinated × PendingOps × OperationStore) {p' : PendingOps} {s' : OperationStore}
    → (if b then (deny_call d, p, s) else x) ≡ (forward_call, p', s')
    → (b ≡ false) × (x ≡ (forward_call, p', s'))
guarded-forward true d p s x e = cc
guarded-forward false d p s x e = (refl, e)

-- A call that is forwarded has a request id that no pending call has, and the pending calls were
-- not closed; the store has begun its operation; and it is registered as pending under that id.
pub coordinate-forward :
    (sv : Services) (closes : Bool) (id : Option Value) (tool : String) (op : OperationKey)
    (now : String) (p p' : PendingOps) (s s' : OperationStore)
    → coordinate sv closes id tool op now p s ≡ (forward_call, p', s')
    → (request : String) × (request_of sv id ≡ some request)
      × (p.closed ≡ false)
      × (is_in_use request p ≡ false)
      × (begin s op.operation_id tool (sv.fingerprint_bytes op.fingerprint) now ≡ ok (forward, s'))
      × (p' ≡ register request (in_flight_of sv tool op) p)
unfolding coordinate
coordinate-forward sv closes id tool op now p p' s s' e = elim (Option-cases (request_of sv id)) [
  | inl missing ↦
      absurd
        (no_request (ap (λ r. coordinate_request sv closes r tool op now p s) (sym missing) ∙ e))
  | inr (request, here) ↦
      let e₁ = ap (λ r. coordinate_request sv closes r tool op now p s) (sym here) ∙ e in
      let (unlocked, e₂) = guarded-forward p.closed operations_unavailable p s _ e₁ in
      let (free, e₃) = guarded-forward (is_in_use request p) request_id_in_use p s _ e₂ in
      let (_, begun, registered) = after_begin-forward sv closes request tool op now p s _ e₃ in
      (request, here, unlocked, free, begun, registered)
]
  where
    no_request : coordinate_request sv closes none tool op now p s ≡ (forward_call, p', s') → ⊥
    no_request q = cc

-- A side-effecting call that was forwarded is not forwarded again under its operation id, whatever
-- calls of the store come between, under whatever request id, tool and pending calls, unless one of
-- them settles the operation as failed or reconciles it as not applied.
pub coordinate-at_most_once :
    (sv : Services) (closes closes' : Bool) (id id' : Option Value) (tool tool' : String)
    (op op' : OperationKey) (now now' : String) (p p₁ p' p₂ : PendingOps) (s s₁ s₂ : OperationStore)
    (es : List Event) (answer : Coordinated)
    → op.operation_id ≡ op'.operation_id
    → coordinate sv closes id tool op now p s ≡ (forward_call, p₁, s₁)
    → any (permits_retry op.operation_id) es ≡ false
    → coordinate sv closes' id' tool' op' now' p' (run es s₁) ≡ (answer, p₂, s₂)
    → answer ≢ forward_call
coordinate-at_most_once sv closes closes' id id' tool tool' op op' now now' p p₁ p' p₂ s s₁ s₂ es
      answer same first quiet second forwarded =
    let (_, _, _, _, begun, _) = coordinate-forward sv closes id tool op now p p₁ s s₁ first in
    let (_, _, _, _, again, _) =
      coordinate-forward sv closes' id' tool' op' now' p' p₂ (run es s₁) s₂
        (second ∙ ap (λ a. (a, p₂, s₂)) forwarded) in
    begin-at_most_once s s₁ s₂ op.operation_id tool tool' (sv.fingerprint_bytes op.fingerprint)
      (sv.fingerprint_bytes op'.fingerprint) now now' es forward begun quiet
      (ap (λ k. begin (run es s₁) k tool' (sv.fingerprint_bytes op'.fingerprint) now') same ∙ again)
      refl
