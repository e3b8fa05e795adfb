-- ===== src/Operations/Events.antt =====
-- Runs of the operations store: one event for each call of a method that writes, in any order and
-- by any caller. A call that returns an error leaves the store as it was.
use cloakpipe.Base.{String, Bool, false, Option, List, [], ◌∷◌, Bytes, ◌==◌}
use cloakpipe.Base.Results.{Result, ok, err}
use cloakpipe.Operations.Rows.{
  OperationState, failed, not_applied, OperationsError, ReconcileError, OperationStore,
}
use cloakpipe.Operations.Store.{TryLock, recover, release_gate, begin, settle_with, reconcile}

pub data Event : Type 0 where
  recovered : TryLock → String → Event
  released : Event
  begun : String → String → Bytes → String → Event
  settled : String → OperationState → Option String → Bool → String → Event
  reconciled : String → OperationState → Bool → Result (Unit {0}) String → String → Event

-- The store after a call that returns it with a value, or an error.
abbrev pub store_after {ℓ} :
    {A : Type ℓ} → OperationStore → Result (A × OperationStore) OperationsError → OperationStore
store_after s (ok (a, s')) = s'
store_after s (err e) = s

abbrev pub reconciled_store : OperationStore → Result OperationStore ReconcileError → OperationStore
reconciled_store s (ok s') = s'
reconciled_store s (err e) = s

unfoldable pub apply : Event → OperationStore → OperationStore
unfolding recover release_gate begin settle_with reconcile
apply (recovered lock now) s = store_after s (recover s lock now)
apply released s = release_gate s
apply (begun id tool digest now) s = store_after s (begin s id tool digest now)
apply (settled id state result masked now) s =
    store_after s (settle_with s id state result masked now)
apply (reconciled id outcome force evidence now) s =
    reconciled_store s (reconcile s id outcome force evidence now)

unfoldable pub run : List Event → OperationStore → OperationStore
unfolding apply
run [] s = s
run (e ∷ es) s = run es (apply e s)

-- The events after which an operation may run again: it is settled as failed, or an operator
-- reconciles it as not applied.
abbrev pub permits_retry : String → Event → Bool
permits_retry k (settled id failed result masked now) = id == k
permits_retry k (reconciled id not_applied force evidence now) = id == k
permits_retry k _ = false
