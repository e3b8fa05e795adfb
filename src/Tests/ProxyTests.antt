-- ===== src/Tests/ProxyTests.antt =====
-- A refund that is forwarded, answered, and sent again.
use cloakpipe.Base.{
  arith, ℕ, ◌≤◌, map, All, String, ◌≡◌, ◌≢◌, refl, Bool, true, false, Option, none, some, List, [],
  ◌∷◌, replicate, Bytes, ◌==◌, if◌then◌else◌,
}
use cloakpipe.Base.Results.{ok}
use cloakpipe.Json.{Value, string, object, no_fields, field, get_path}
use cloakpipe.Operations.Rows.{
  OperationStore, RawRow, OperationState, unknown, done, forward, new_row, set_outcome,
}
use cloakpipe.Operations.Store.{begin, locked}
use cloakpipe.Operations.Events.{Event, recovered, begun, run}
use cloakpipe.Operations.Keyed.{IsKeyed}
use cloakpipe.Gate.Denial.{reconcile_first}
use cloakpipe.Gate.State.{OperationKey}
use cloakpipe.Proxy.Pending.{InFlight, PendingOps, get_entry, register}
use cloakpipe.Proxy.Coordinate.{
  forward_call, deny_call, Services, in_flight_of, replay_stored, request_of, is_in_use, member,
  is_true, text_of, coordinate, settle_reply,
}
use cloakpipe.Proxy.Forwarded.{coordinate-forward, coordinate-at_most_once}
use cloakpipe.Proxy.Answered.{coordinate-replay}
use cloakpipe.Proxy.Exit.{finish}
use cloakpipe.Proxy.Swept.{about, finish-exact}

abbrev result_value : Value
result_value = object (field "content" (string "paid") no_fields)

abbrev text_of_string : Value → String
text_of_string (string s) = s
text_of_string _ = "{}"

abbrev services : Services
services = record {
  to_text = text_of_string;
  from_text = λ s. some result_value;
  fingerprint_bytes = λ hex. replicate 32 7;
  rehydrate = none;
}

abbrev key : OperationKey
key = record { operation_id = "op-1"; fingerprint = "bb" }

abbrev no_pending : PendingOps
no_pending = record { by_request = []; outstanding = []; closed = false }

abbrev store : OperationStore
store = record { rows = []; key = replicate 32 1; gate_lock = true }

abbrev begun_row : RawRow
begun_row = new_row "op-1" "refund" (replicate 32 7) "t0"

abbrev begun_store : OperationStore
begun_store = record { rows = begun_row ∷ []; key = replicate 32 1; gate_lock = true }

abbrev done_store : OperationStore
done_store = record {
  rows = set_outcome done (some "{}") false "t1" begun_row ∷ [];
  key = replicate 32 1;
  gate_lock = true;
}

abbrev refund_in_flight : InFlight
refund_in_flight = in_flight_of services "refund" key

abbrev one_pending : PendingOps
one_pending = register "1" refund_in_flight no_pending

forwards :
    coordinate services false (some (string "1")) "refund" key "t0" no_pending store
    ≡ (forward_call, one_pending, begun_store)
unfolding coordinate cloakpipe.Operations.Store.get
forwards = refl

abbrev reply : Value
reply = object (field "id" (string "1") (field "result" result_value no_fields))

settles :
    settle_reply services true false reply "t1" one_pending begun_store
    ≡ (some (refund_in_flight, done), no_pending, done_store)
unfolding settle_reply cloakpipe.Operations.Rows.count_where cloakpipe.Operations.Rows.update_where
    cloakpipe.Operations.Rows.as_str
settles = refl

abbrev sweep : List Event
sweep = recovered locked "t2" ∷ []

coordinate-forward_example :
    (request : String) × (request_of services (some (string "1")) ≡ some request)
    × (no_pending.closed ≡ false)
    × (is_in_use request no_pending ≡ false)
    × (begin store "op-1" "refund" (replicate 32 7) "t0" ≡ ok (forward, begun_store))
    × (one_pending ≡ register request refund_in_flight no_pending)
coordinate-forward_example =
    coordinate-forward services false (some (string "1")) "refund" key "t0" no_pending one_pending
      store begun_store forwards

refuses :
    coordinate services false
      (some (string "2"))
      "refund"
      key
      "t3"
      no_pending
      (run sweep begun_store)
    ≡ (deny_call (reconcile_first "op-1"), no_pending, run sweep begun_store)
unfolding coordinate run cloakpipe.Operations.Store.get cloakpipe.Operations.Rows.update_where
    cloakpipe.Operations.Rows.as_str cloakpipe.Operations.Rows.to_row
    cloakpipe.Operations.Rows.parse_state cloakpipe.Base.bytes_eq
refuses = refl

coordinate-at_most_once_example : deny_call (reconcile_first "op-1") ≢ forward_call
coordinate-at_most_once_example =
    coordinate-at_most_once services false false (some (string "1")) (some (string "2")) "refund"
      "refund" key key "t0" "t3" no_pending one_pending no_pending no_pending store begun_store
      (run sweep begun_store) sweep (deny_call (reconcile_first "op-1")) refl forwards refl refuses

no_method : member "method" reply ≡ none
unfolding get_path
no_method = refl

has_result : member "result" reply ≡ some result_value
unfolding get_path
has_result = refl

no_error : member "error" reply ≡ none
unfolding get_path
no_error = refl

no_flag : is_true (member "isError" result_value) ≡ false
unfolding get_path
no_flag = refl

reply_id : text_of services (member "id" reply) ≡ some "1"
unfolding get_path
reply_id = refl

free_request : is_in_use "2" no_pending ≡ false
unfolding get_entry
free_request = refl

-- Another call is begun before the reply comes.
abbrev other_begun : List Event
other_begun = begun "op-2" "refund" (replicate 32 8) "t1" ∷ []

abbrev both_done : OperationStore
both_done = record done_store {
  rows =
      set_outcome done (some "{}") false "t1" begun_row
      ∷ new_row "op-2" "refund" (replicate 32 8) "t1"
      ∷ [];
}

settles_later :
    settle_reply services true false reply "t1" one_pending (run other_begun begun_store)
    ≡ (some (refund_in_flight, done), no_pending, both_done)
unfolding settle_reply run cloakpipe.Operations.Store.get cloakpipe.Operations.Rows.count_where
    cloakpipe.Operations.Rows.update_where cloakpipe.Operations.Rows.as_str
settles_later = refl

no_duplicates : IsKeyed store.rows
unfolding cloakpipe.Operations.Rows.count_where
no_duplicates k = omega arith

coordinate-replay_example :
    coordinate services false (some (string "2")) "refund" key "t3" no_pending (run sweep both_done)
    ≡ (replay_stored services (some "{}") false "op-1", no_pending, run sweep both_done)
coordinate-replay_example =
    coordinate-replay services false false true false (some (string "1")) (some (string "2"))
      "refund" key "t0" "t1" "t3" "1" "2" no_pending one_pending no_pending no_pending store
      begun_store both_done reply result_value (refund_in_flight, done) other_begun sweep refl
      no_duplicates forwards refl no_method has_result no_error no_flag reply_id settles_later refl
      refl free_request

abbrev two_in_flight : PendingOps
two_in_flight = record one_pending { outstanding = ("2", 1) ∷ [] }

finish-exact_example :
    let (notices, drafts, p', s') =
      finish services none "t9" (λ request. true) two_in_flight begun_store in
    (map (about services none "t9" (λ request. true)) notices ≡ ("1", "op-1") ∷ [])
    × (p'.by_request ≡ [])
    × (p'.closed ≡ true)
    × (s'.rows ≡ set_outcome unknown none false "t9" begun_row ∷ [])
    × (s'.gate_lock ≡ false)
unfolding cloakpipe.Operations.Rows.as_str
finish-exact_example = finish-exact services none "t9" (λ request. true) two_in_flight begun_store

-- A write that fails leaves the row in flight.
fails_to_sweep :
    (finish services none "t9" (λ request. false) two_in_flight begun_store).3.rows ≡ begun_row ∷ []
unfolding finish
fails_to_sweep = refl
