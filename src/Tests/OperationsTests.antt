-- ===== src/Tests/OperationsTests.antt =====
-- The operations store in a run of one operation.
use mathlib.Core.Option
use cloakpipe.Base.{
  String, ◌≡◌, ◌≢◌, refl, true, false, ◌&&◌, ◌⊎◌, none, some, List, [], ◌∷◌, any, replicate, Bytes,
  bytes_eq, ◌==◌, eq_iff, if◌then◌else◌, arith,
}
use cloakpipe.Base.Results.{Result, ok}
use cloakpipe.Operations.Rows.{
  OperationStore, RawRow, in_flight, done, unknown, not_applied, count_where, as_str, forward,
  conflict, replay, reconcile_before_retry, find_row, has_id, has_state, set_outcome, set_unknown,
  new_row, is_some,
}
use cloakpipe.Operations.Store.{locked, begin, settle_with, reconcile, recover, settles, open_store}
use cloakpipe.Operations.Table.{updated}
use cloakpipe.Operations.Events.{Event, recovered, begun, run}
use cloakpipe.Operations.Held.{IsHeld}
use cloakpipe.Operations.AtMostOnce.{begin-at_most_once, run-IsHeld}
use cloakpipe.Operations.Replay.{begin-replay}
use cloakpipe.Operations.Keyed.{IsKeyed, is_flying, run-IsKeyed, settle_with-exact, reconcile-exact}
use cloakpipe.Operations.Sweep.{contains, recover-exact}

abbrev digest : Bytes
digest = replicate 32 7

abbrev store : OperationStore
store = record { rows = []; key = replicate 32 1; gate_lock = true }

abbrev begun_row : RawRow
begun_row = new_row "op-1" "refund" digest "t0"

abbrev begun_store : OperationStore
begun_store = record { rows = begun_row ∷ []; key = replicate 32 1; gate_lock = true }

abbrev done_store : OperationStore
done_store = record {
  rows = set_outcome done (some "result") true "t1" begun_row ∷ [];
  key = replicate 32 1;
  gate_lock = true;
}

begins : begin store "op-1" "refund" digest "t0" ≡ ok (forward, begun_store)
unfolding begin cloakpipe.Operations.Store.get
begins = refl

settles_once : settle_with begun_store "op-1" done (some "result") true "t1" ≡ ok (true, done_store)
unfolding settle_with count_where cloakpipe.Operations.Rows.update_where as_str
settles_once = refl

-- A second gate starts, and another tool is called under the same id.
abbrev quiet : List Event
quiet = recovered locked "t2" ∷ begun "op-1" "payout" digest "t3" ∷ []

begins_again :
    begin (run quiet begun_store) "op-1" "refund" digest "t4"
    ≡ ok (reconcile_before_retry unknown, run quiet begun_store)
unfolding begin run cloakpipe.Operations.Store.get cloakpipe.Operations.Rows.update_where as_str
    cloakpipe.Operations.Rows.to_row cloakpipe.Operations.Rows.parse_state bytes_eq
begins_again = refl

begin-at_most_once_example : reconcile_before_retry unknown ≢ forward
begin-at_most_once_example =
    begin-at_most_once store begun_store (run quiet begun_store) "op-1" "refund" "refund" digest
      digest "t0" "t4" quiet (reconcile_before_retry unknown) begins refl begins_again

finds_begun : find_row "op-1" begun_store.rows ≡ some begun_row
unfolding find_row
finds_begun = refl

run-IsHeld_example : IsHeld (run quiet begun_store).rows "op-1"
run-IsHeld_example =
    run-IsHeld quiet begun_store "op-1" refl (begun_row, in_flight, finds_begun, refl, refl)

begin-replay_example :
    begin (run quiet done_store) "op-1" "payout" digest "t5"
    ≡ ok (
      (if bytes_eq digest digest && "refund" == "payout"
          then replay (some "result") true
          else conflict),
      run quiet done_store,
    )
begin-replay_example =
    begin-replay store begun_store done_store "op-1" "refund" "payout" digest digest "t0" "t1" "t5"
      (some "result") true true quiet refl begins settles_once

IsKeyed-empty : IsKeyed []
unfolding count_where
IsKeyed-empty k = omega arith

run-IsKeyed_example : IsKeyed (run quiet store).rows
run-IsKeyed_example = run-IsKeyed quiet store IsKeyed-empty

IsKeyed-begun : IsKeyed begun_store.rows
unfolding count_where
IsKeyed-begun k = ground (arith, eq_iff "op-1" k)

settle_with-exact_example :
    (true ≡ is_flying (find_row "op-1" begun_store.rows))
    × (find_row "op-1" done_store.rows
        ≡ Option.map
            (updated (settles "op-1") (set_outcome done (some "result") true "t1"))
            (find_row "op-1" begun_store.rows))
settle_with-exact_example =
    settle_with-exact begun_store done_store "op-1" "op-1" done (some "result") true true "t1"
      IsKeyed-begun settles_once

abbrev swept_store : OperationStore
swept_store = record {
  rows = set_unknown "t2" begun_row ∷ [];
  key = replicate 32 1;
  gate_lock = true;
}

sweeps : recover begun_store locked "t2" ≡ ok ("op-1" ∷ [], swept_store)
unfolding recover cloakpipe.Operations.Store.order_by_id cloakpipe.Operations.Rows.update_where
    as_str
sweeps = refl

recover-exact_example :
    ((true ≡ true) ⊎ (locked ≡ locked))
    × (true ≡ true)
    × (is_flying (find_row "op-1" swept_store.rows) ≡ false)
    × (find_row "op-1" swept_store.rows
        ≡ Option.map
            (updated (has_state in_flight) (set_unknown "t2"))
            (find_row "op-1" begun_store.rows))
    × (contains "op-1" ("op-1" ∷ []) ≡ any (settles "op-1") begun_store.rows)
recover-exact_example =
    recover-exact begun_store swept_store locked "t2" "op-1" ("op-1" ∷ []) sweeps

abbrev reconciled_store : OperationStore
reconciled_store = record {
  rows = set_outcome done none false "t3" (set_unknown "t2" begun_row) ∷ [];
  key = replicate 32 1;
  gate_lock = true;
}

abbrev recorded : Result (Unit {0}) String
recorded = ok tt

reconciles : reconcile swept_store "op-1" done false recorded "t3" ≡ ok reconciled_store
unfolding reconcile cloakpipe.Operations.Rows.parse_state as_str
    cloakpipe.Operations.Rows.update_where
reconciles = refl

reconcile-exact_example :
    (r : RawRow) × (find_row "op-1" swept_store.rows ≡ some r)
    × ((r.state ≡ as_str unknown) ⊎ ((r.state ≡ as_str in_flight) × (false ≡ true)))
    × ((done ≡ done) ⊎ (done ≡ not_applied))
    × (recorded ≡ recorded)
    × (find_row "op-1" reconciled_store.rows
        ≡ Option.map
            (updated (has_id "op-1") (set_outcome done none false "t3"))
            (find_row "op-1" swept_store.rows))
reconcile-exact_example =
    reconcile-exact swept_store reconciled_store "op-1" "op-1" done false recorded "t3" reconciles
