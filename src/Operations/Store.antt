-- ===== src/Operations/Store.antt =====
-- The methods of `OperationStore`.
use cloakpipe.Base.{
  String, Bool, true, false, not, ◌&&◌, ◌||◌, Option, none, some, List, [], ◌∷◌, ◌++◌, map, filter,
  length, Bytes, bytes_eq, nat_eq, ◌==◌, if◌then◌else◌,
}
use Prim.Native.Nat.{Ordering}
use Prim.Native.String.{compare}
use mathlib.Core.Option
use cloakpipe.Operations.Rows.{
  Begin, OperationRow, OperationState, OperationStore, OperationsError, RawRow, ReconcileError,
  bad_outcome, cannot_settle, conflict, count_where, done, evidence_failed, failed, find_row,
  forward, has_id, has_state, in_flight, in_use_by_another_gate, is_in_flight, is_masked, is_some,
  key_not_32_bytes, lock_failed, new_row, not_applied, not_found, not_pending, parse_state,
  reconcile_before_retry, replay, set_outcome, set_unknown, sqlite, store_failed, to_row, unknown,
  unwrap_or, update_where,
}
use cloakpipe.Base.Results.{Result, ok, err, ◌>>=◌, ◌>>◌, transpose, ok_or, map_err}

-- `INSERT OR IGNORE INTO operation_id_key`: a stored key is kept; `random` is what the operating
-- system's generator gave.
unfoldable pub open_store : List RawRow → Option Bytes → Bytes → OperationStore
open_store rows stored random = record {
  rows = rows;
  key = unwrap_or stored random;
  gate_lock = false;
}

unfoldable pub operation_id_key : OperationStore → Result Bytes OperationsError
operation_id_key s = if nat_eq (length s.key) 32 then ok s.key else err key_not_32_bytes

unfoldable pub get : OperationStore → String → Result (Option OperationRow) OperationsError
unfolding find_row
get s id = transpose (Option.map to_row (find_row id s.rows))

-- What the operating system says to `try_lock` on the lock file.
pub data TryLock : Type 0 where
  locked : TryLock
  would_block : TryLock
  lock_error : TryLock

unfoldable pub claim_for_gate : OperationStore → TryLock → Result OperationStore OperationsError
claim_for_gate s lock = if s.gate_lock then ok s else elim lock [
  | locked ↦ ok (record s { gate_lock = true })
  | would_block ↦ err in_use_by_another_gate
  | lock_error ↦ err lock_failed
]

unfoldable pub release_gate : OperationStore → OperationStore
release_gate s = record s { gate_lock = false }

-- `ORDER BY operation_id`
unfoldable pub insert_by_id : RawRow → List RawRow → List RawRow
insert_by_id r [] = r ∷ []
insert_by_id r (x ∷ xs) = elim (compare r.operation_id x.operation_id) [
  | Ordering.gt ↦ x ∷ insert_by_id r xs
  | _ ↦ r ∷ x ∷ xs
]

unfoldable pub order_by_id : List RawRow → List RawRow
unfolding insert_by_id
order_by_id [] = []
order_by_id (r ∷ rs) = insert_by_id r (order_by_id rs)

abbrev pub ids_where : (RawRow → Bool) → List RawRow → List String
ids_where p rows = map (λ (r : RawRow). r.operation_id) (order_by_id (filter p rows))

-- The start-up sweep.
unfoldable pub recover :
    OperationStore → TryLock → String → Result (List String × OperationStore) OperationsError
unfolding claim_for_gate
recover s lock now = do
  claimed ← claim_for_gate s lock
  ok (
    ids_where (has_state in_flight) claimed.rows,
    record claimed { rows = update_where (has_state in_flight) (set_unknown now) claimed.rows },
  )

-- The answer to a call of an operation that exists, and the rows after it.
abbrev pub begin_existing :
    OperationState → OperationRow → String → List RawRow → Begin × List RawRow
begin_existing done r now rows = (replay r.result r.result_masked, rows)
begin_existing in_flight r now rows = (reconcile_before_retry in_flight, rows)
begin_existing unknown r now rows = (reconcile_before_retry unknown, rows)
begin_existing failed r now rows =
    (forward, update_where (has_id r.operation_id) (set_outcome in_flight none false now) rows)
begin_existing not_applied r now rows =
    (forward, update_where (has_id r.operation_id) (set_outcome in_flight none false now) rows)

-- The decision in one transaction, from the row that was read.
abbrev pub begin_rows :
    Option OperationRow → String → String → Bytes → String → List RawRow → Begin × List RawRow
begin_rows none id tool digest now rows = (forward, rows ++ new_row id tool digest now ∷ [])
begin_rows (some r) id tool digest now rows =
    if not (bytes_eq r.call_digest digest) || not (r.tool == tool)
    then (conflict, rows)
    else begin_existing r.state r now rows

unfoldable pub begin :
    OperationStore
    → String
    → String
    → Bytes
    → String
    → Result (Begin × OperationStore) OperationsError
begin s id tool digest now = do
  existing ← get s id
  let (decision, rows) = begin_rows existing id tool digest now s.rows
  ok (decision, record s { rows = rows })

abbrev pub is_settled : OperationState → Bool
is_settled done = true
is_settled failed = true
is_settled unknown = true
is_settled _ = false

abbrev pub settles : String → RawRow → Bool
settles id r = has_id id r && has_state in_flight r

unfoldable pub settle_with :
    OperationStore
    → String
    → OperationState
    → Option String
    → Bool
    → String
    → Result (Bool × OperationStore) OperationsError
settle_with s id state result masked now =
    if is_settled state
    then ok (
      nat_eq (count_where (settles id) s.rows) 1,
      record s {
        rows =
            update_where (settles id) (set_outcome state result (masked && is_some result) now)
              s.rows;
      },
    )
    else err (cannot_settle state)

-- What a call that writes returns: the database may not take the write.
abbrev pub if_taken {ℓ} : {A : Type ℓ} → Bool → Result A OperationsError → Result A OperationsError
if_taken true r = r
if_taken false r = err sqlite

unfoldable pub settle :
    OperationStore
    → String
    → OperationState
    → Option String
    → String
    → Result (Bool × OperationStore) OperationsError
unfolding settle_with
settle s id state result now = settle_with s id state result false now

unfoldable pub settle_masked :
    OperationStore
    → String
    → OperationState
    → Option String
    → String
    → Result (Bool × OperationStore) OperationsError
unfolding settle_with
settle_masked s id state result now = settle_with s id state result true now

unfoldable pub masked_results : OperationStore → List String
masked_results s =
    ids_where (λ (r : RawRow). has_state done r && is_masked r.result r.result_masked) s.rows

unfoldable pub to_rows : List RawRow → Result (List OperationRow) OperationsError
unfolding to_row
to_rows [] = ok []
to_rows (r ∷ rs) = do row ← to_row r; rows ← to_rows rs; ok (row ∷ rows)

abbrev pub in_list : Option OperationState → RawRow → Bool
in_list none r = true
in_list (some st) r = has_state st r

unfoldable pub list :
    OperationStore → Option OperationState → Result (List OperationRow) OperationsError
unfolding to_rows order_by_id
list s state = to_rows (order_by_id (filter (in_list state) s.rows))

abbrev pub is_outcome : OperationState → Bool
is_outcome done = true
is_outcome not_applied = true
is_outcome _ = false

-- The state of a row that is to be reconciled.
abbrev pub pending_state : OperationState → Bool → Result (Unit {0}) ReconcileError
pending_state unknown force = ok tt
pending_state in_flight force = if force then ok tt else err is_in_flight
pending_state s force = err (not_pending s)

-- The transaction of `reconcile`. `evidence` is what the caller's closure returns; it is asked only
-- after every check.
unfoldable pub reconcile_row :
    OperationStore
    → String
    → OperationState
    → Bool
    → Result (Unit {0}) String
    → String
    → Result OperationStore ReconcileError
unfolding find_row
reconcile_row s id outcome force evidence now = do
  row ← ok_or (find_row id s.rows) not_found
  state ← map_err store_failed (parse_state row.state)
  pending_state state force
  map_err evidence_failed evidence
  ok (record s { rows = update_where (has_id id) (set_outcome outcome none false now) s.rows })

unfoldable pub reconcile :
    OperationStore
    → String
    → OperationState
    → Bool
    → Result (Unit {0}) String
    → String
    → Result OperationStore ReconcileError
unfolding reconcile_row
reconcile s id outcome force evidence now =
    if is_outcome outcome then reconcile_row s id outcome force evidence now else err bad_outcome
