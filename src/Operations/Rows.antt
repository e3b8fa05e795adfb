-- ===== src/Operations/Rows.antt =====
-- The states of an operation, a row of the table, and the SQL statements on the rows.
use cloakpipe.Base.{
  ℕ, suc, String, Bool, true, false, ◌&&◌, Option, none, some, List, [], ◌∷◌, length, Bytes, nat_eq,
  ◌==◌, if◌then◌else◌,
}
use cloakpipe.Base.Results.{Result, ok, err, ◌>>=◌}

pub data OperationState : Type 0 where
  in_flight done failed unknown not_applied : OperationState

pub data OperationsError : Type 0 where
  unrecognised_state : String → OperationsError
  digest_not_32_bytes : String → OperationsError
  cannot_settle : OperationState → OperationsError
  key_not_32_bytes : OperationsError
  in_use_by_another_gate : OperationsError
  lock_failed : OperationsError
  sqlite : OperationsError

unfoldable pub as_str : OperationState → String
as_str in_flight = "in_flight"
as_str done = "done"
as_str failed = "failed"
as_str unknown = "unknown"
as_str not_applied = "not_applied"

-- `FromStr for OperationState`
unfoldable pub parse_state : String → Result OperationState OperationsError
parse_state s =
    if s == "in_flight"
    then ok in_flight
    else if s == "done"
    then ok done
    else if s == "failed"
    then ok failed
    else if s == "unknown"
    then ok unknown
    else if s == "not_applied"
    then ok not_applied
    else err (unrecognised_state s)

pub record OperationRow : Type 0 where
  pub operation_id : String
  pub tool : String
  pub call_digest : Bytes
  pub state : OperationState
  pub result : Option String
  pub result_masked : Bool
  pub updated_at : String

-- A row as the table holds it; a flag of `none` is NULL.
pub record RawRow : Type 0 where
  pub operation_id : String
  pub tool : String
  pub call_digest : Bytes
  pub state : String
  pub result : Option String
  pub updated_at : String
  pub result_masked : Option Bool

abbrev pub is_some {ℓ} : {A : Type ℓ} → Option A → Bool
is_some none = false
is_some (some _) = true

abbrev pub unwrap_or {ℓ} : {A : Type ℓ} → Option A → A → A
unwrap_or none d = d
unwrap_or (some a) d = a

-- The SQL condition `MASKED`, and the same in `to_row`.
abbrev pub is_masked : Option String → Option Bool → Bool
is_masked result flag = is_some result && unwrap_or flag true

unfoldable pub to_row : RawRow → Result OperationRow OperationsError
to_row raw =
    if nat_eq (length raw.call_digest) 32
    then (do
      state ← parse_state raw.state
      ok (record {
        operation_id = raw.operation_id;
        tool = raw.tool;
        call_digest = raw.call_digest;
        state = state;
        result = raw.result;
        result_masked = is_masked raw.result raw.result_masked;
        updated_at = raw.updated_at;
      }))
    else err (digest_not_32_bytes raw.operation_id)

-- What to do with a call.
pub data Begin : Type 0 where
  forward : Begin
  replay : Option String → Bool → Begin
  conflict : Begin
  reconcile_before_retry : OperationState → Begin

pub data ReconcileError : Type 0 where
  not_found : ReconcileError
  not_pending : OperationState → ReconcileError
  is_in_flight : ReconcileError
  bad_outcome : ReconcileError
  evidence_failed : String → ReconcileError
  store_failed : OperationsError → ReconcileError

-- `OperationStore`: the rows, the key row, and whether this store holds the gate lock.
pub record OperationStore : Type 0 where
  pub rows : List RawRow
  pub key : Bytes
  pub gate_lock : Bool

-- `SELECT … WHERE operation_id = k`; the column is the primary key.
unfoldable pub find_row : String → List RawRow → Option RawRow
find_row k [] = none
find_row k (r ∷ rs) = if r.operation_id == k then some r else find_row k rs

-- `UPDATE operations SET … WHERE p`
unfoldable pub update_where : (RawRow → Bool) → (RawRow → RawRow) → List RawRow → List RawRow
update_where p f [] = []
update_where p f (r ∷ rs) = (if p r then f r else r) ∷ update_where p f rs

-- How many rows an UPDATE changes.
unfoldable pub count_where : (RawRow → Bool) → List RawRow → ℕ
count_where p [] = 0
count_where p (r ∷ rs) = let n = count_where p rs in if p r then suc n else n

abbrev pub has_id : String → RawRow → Bool
has_id k r = r.operation_id == k

abbrev pub has_state : OperationState → RawRow → Bool
has_state st r = r.state == as_str st

-- `SET state = …, result = …, result_masked = …, updated_at = …`
abbrev pub set_outcome : OperationState → Option String → Bool → String → RawRow → RawRow
set_outcome st result masked now r = record r {
  state = as_str st;
  result = result;
  result_masked = some masked;
  updated_at = now;
}

-- `SET state = 'unknown', updated_at = …`
abbrev pub set_unknown : String → RawRow → RawRow
set_unknown now r = record r { state = as_str unknown; updated_at = now }

abbrev pub new_row : String → String → Bytes → String → RawRow
new_row id tool digest now = record {
  operation_id = id;
  tool = tool;
  call_digest = digest;
  state = as_str in_flight;
  result = none;
  updated_at = now;
  result_masked = some false;
}
