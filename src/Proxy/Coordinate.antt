-- ===== src/Proxy/Coordinate.antt =====
-- `coordinate`, `replayed` and `settle_reply`. The locks that `coordinate` and `replayed` take are
-- never poisoned: no thread panics while it holds one.
use Prim.Native.String.{◌++◌ as push_str}
use cloakpipe.Base.{
  String, Bool, true, false, not, ◌&&◌, ◌||◌, Option, none, some, [], ◌∷◌, ◌==◌, Bytes,
  if◌then◌else◌,
}
use cloakpipe.Base.Options.{◌>>=◌}
use cloakpipe.Base.Results.{Result, ok, err}
use cloakpipe.Json.{
  Value, null, boolean, string, array, object, no_items, item, Fields, no_fields, field, get,
  get_path,
}
use cloakpipe.Operations.Rows.{
  OperationState, done, failed, OperationsError, OperationStore, Begin, forward, replay, conflict,
  reconcile_before_retry,
}
use cloakpipe.Operations.Store.{begin, settle, settle_masked, if_taken}
use cloakpipe.Gate.Denial.{
  Denial, operation_conflict, reconcile_first, operations_unavailable, request_id_missing,
  request_id_in_use,
}
use cloakpipe.Gate.State.{OperationKey}
use cloakpipe.Proxy.Pending.{
  InFlight, PendingOps, get_entry, remove_entry, has_entry, register, answer_one,
}

pub data Coordinated : Type 0 where
  forward_call : Coordinated
  replay_result : Value → Coordinated
  deny_call : Denial → Coordinated

-- What the proxy calls elsewhere: the JSON text of a value and its reading, the bytes of a
-- fingerprint, and the rehydration of a value by the vault, where one is configured.
pub record Services : Type 0 where
  pub to_text : Value → String
  pub from_text : String → Option Value
  pub fingerprint_bytes : String → Bytes
  pub rehydrate : Option (Value → Value)

-- `insert` into an object's map, built with `preserve_order`: a member keeps its place, and a new one
-- comes last.
unfoldable pub insert_field : String → Value → Fields → Fields
insert_field k v no_fields = field k v no_fields
insert_field k v (field j w fs) =
    let rest = insert_field k v fs in if j == k then field j v fs else field j w rest

abbrev pub as_object : Value → Option Fields
as_object (object o) = some o
as_object _ = none

-- `entry(k).or_insert({})`, read as an object.
abbrev pub entry_object : String → Fields → Option Fields
entry_object k o = elim (get k o) [ none ↦ some no_fields | some v ↦ as_object v ]

abbrev pub stored_object : Services → Option String → String → Option Fields
stored_object sv (some text) id = do v ← sv.from_text text; as_object v
stored_object sv none id = some (
    field "content"
      (array (
        item
          (object (
            field "text"
              (string (
                push_str "This call already completed (operation "
                  (push_str id ", reconciled by an operator); it was not run again.")))
              (field "type" (string "text") no_fields)))
          no_items))
      no_fields)

abbrev pub rehydrated : Option (Value → Value) → Fields → Fields
rehydrated none o = o
rehydrated (some f) o = elim (get "content" o) [
  | none ↦ o
  | some v ↦ insert_field "content" (f v) o
]

-- `replayed`, with the vault where the result is masked.
unfoldable pub replayed : Services → Option String → String → Option (Value → Value) → Option Value
unfolding get insert_field
replayed sv stored id vault = do
  o ← stored_object sv stored id
  let result = rehydrated vault o
  meta ← entry_object "_meta" result
  cloakpipe ← entry_object "cloakpipe" meta
  let marked =
      insert_field "operationId" (string id) (insert_field "replayed" (boolean true) cloakpipe)
  some (
      object (insert_field "_meta" (object (insert_field "cloakpipe" (object marked) meta)) result))

abbrev pub replay_answer : Option Value → Coordinated
replay_answer none = deny_call operations_unavailable
replay_answer (some v) = replay_result v

abbrev pub replay_stored : Services → Option String → Bool → String → Coordinated
replay_stored sv stored false id = replay_answer (replayed sv stored id none)
replay_stored sv stored true id = elim sv.rehydrate [
  | none ↦ deny_call operations_unavailable
  | some vault ↦ replay_answer (replayed sv stored id (some vault))
]

abbrev pub in_flight_of : Services → String → OperationKey → InFlight
in_flight_of sv tool op = record {
  operation_id = op.operation_id;
  tool = tool;
  fingerprint = sv.fingerprint_bytes op.fingerprint;
}

-- The store after a `settle` of a call that was not sent.
abbrev pub released :
    OperationStore → Result (Bool × OperationStore) OperationsError → OperationStore
released s (ok (changed, s')) = s'
released s (err e) = s

-- What is done with a decision of the store. `closes` is whether the exit sweep closes the pending
-- calls while `begin` waits.
unfoldable pub after_begin :
    Services
    → Bool
    → String
    → String
    → OperationKey
    → String
    → PendingOps
    → OperationStore
    → Result (Begin × OperationStore) OperationsError
    → Coordinated × PendingOps × OperationStore
unfolding replayed settle
after_begin sv closes request tool op now p s (ok (forward, s')) =
    if closes
    then (
      deny_call operations_unavailable,
      record p { closed = true },
      released s' (settle s' op.operation_id failed none now),
    )
    else (forward_call, register request (in_flight_of sv tool op) p, s')
after_begin sv closes request tool op now p s (ok (replay stored masked, s')) =
    (replay_stored sv stored masked op.operation_id, p, s')
after_begin sv closes request tool op now p s (ok (conflict, s')) =
    (deny_call (operation_conflict op.operation_id), p, s')
after_begin sv closes request tool op now p s (ok (reconcile_before_retry st, s')) =
    (deny_call (reconcile_first op.operation_id), p, s')
after_begin sv closes request tool op now p s (err e) = (deny_call operations_unavailable, p, s)

-- `id.filter(|id| !id.is_null())`
abbrev pub request_of : Services → Option Value → Option String
request_of sv none = none
request_of sv (some null) = none
request_of sv (some v) = some (sv.to_text v)

abbrev pub is_in_use : String → PendingOps → Bool
is_in_use request p = has_entry request p.by_request || has_entry request p.outstanding

abbrev pub coordinate_request :
    Services
    → Bool
    → Option String
    → String
    → OperationKey
    → String
    → PendingOps
    → OperationStore
    → Coordinated × PendingOps × OperationStore
coordinate_request sv closes none tool op now p s = (deny_call request_id_missing, p, s)
coordinate_request sv closes (some request) tool op now p s =
    if p.closed
    then (deny_call operations_unavailable, p, s)
    else if is_in_use request p
    then (deny_call request_id_in_use, p, s)
    else after_begin sv closes request tool op now p s
        (begin s op.operation_id tool (sv.fingerprint_bytes op.fingerprint) now)

-- `coordinate`, where there is an operations store.
unfoldable pub coordinate :
    Services
    → Bool
    → Option Value
    → String
    → OperationKey
    → String
    → PendingOps
    → OperationStore
    → Coordinated × PendingOps × OperationStore
unfolding get_entry after_begin begin
coordinate sv closes id tool op now p s =
    coordinate_request sv closes (request_of sv id) tool op now p s

abbrev pub member : String → Value → Option Value
member k v = get_path (k ∷ []) v

abbrev pub is_some {ℓ} : {A : Type ℓ} → Option A → Bool
is_some none = false
is_some (some a) = true

abbrev pub is_true : Option Value → Bool
is_true (some (boolean b)) = b
is_true _ = false

-- The new state and the result to store.
abbrev pub outcome_of : Services → Option Value → Option Value → OperationState × Option String
outcome_of sv (some r) none =
    if not (is_true (member "isError" r)) then (done, some (sv.to_text r)) else (failed, none)
outcome_of sv _ _ = (failed, none)

-- `takes` is whether the database takes the write; a poisoned lock is a write that it does not take.
abbrev pub settle_by :
    Bool
    → Bool
    → OperationStore
    → String
    → OperationState × Option String
    → String
    → Result (Bool × OperationStore) OperationsError
settle_by takes true s id (st, stored) now = if_taken takes (settle_masked s id st stored now)
settle_by takes false s id (st, stored) now = if_taken takes (settle s id st stored now)

abbrev pub settled_answer :
    InFlight
    → OperationState
    → OperationStore
    → Result (Bool × OperationStore) OperationsError
    → Option (InFlight × OperationState) × OperationStore
settled_answer op st s (ok (changed, s')) = (if changed then some (op, st) else none, s')
settled_answer op st s (err e) = (none, s)

-- The operation of a request leaves the pending calls before the store is written.
abbrev pub settle_found :
    Services
    → Bool
    → Bool
    → String
    → Option InFlight
    → OperationState × Option String
    → String
    → PendingOps
    → OperationStore
    → Option (InFlight × OperationState) × PendingOps × OperationStore
settle_found sv takes masked request none outcome now p s =
    (none, record p { outstanding = answer_one request p.outstanding }, s)
settle_found sv takes masked request (some op) outcome now p s =
    let (answer, s') =
      settled_answer op outcome.0 s (settle_by takes masked s op.operation_id outcome now) in
    (answer, record p { by_request = remove_entry request p.by_request }, s')

abbrev pub settle_request :
    Services
    → Bool
    → Bool
    → Option String
    → Option Value
    → Option Value
    → String
    → PendingOps
    → OperationStore
    → Option (InFlight × OperationState) × PendingOps × OperationStore
settle_request sv takes masked none result error now p s = (none, p, s)
settle_request sv takes masked (some request) result error now p s =
    settle_found sv takes masked request (get_entry request p.by_request)
      (outcome_of sv result error) now p s

abbrev pub text_of : Services → Option Value → Option String
text_of sv none = none
text_of sv (some v) = some (sv.to_text v)

-- `settle_reply`, where there is an operations store.
unfoldable pub settle_reply :
    Services
    → Bool
    → Bool
    → Value
    → String
    → PendingOps
    → OperationStore
    → Option (InFlight × OperationState) × PendingOps × OperationStore
unfolding get_path get_entry remove_entry answer_one settle settle_masked
settle_reply sv takes masked msg now p s =
    if is_some (member "method" msg)
      || not (is_some (member "result" msg)) && not (is_some (member "error" msg))
    then (none, p, s)
    else settle_request sv takes masked (text_of sv (member "id" msg)) (member "result" msg)
        (member "error" msg) now p s
