-- ===== src/Operations/Table.antt =====
-- What the SQL statements of the operations store do to the row of one operation.
use mathlib.Core.Option
use cloakpipe.Base.{
  String, ◌≡◌, refl, Bool, Option, none, some, List, [], ◌∷◌, ◌++◌, ◌==◌, eq_iff, if◌then◌else◌,
  arith,
}
use cloakpipe.Base.Results.{ok}
use cloakpipe.Operations.Rows.{
  OperationState, in_flight, done, failed, unknown, not_applied, as_str, parse_state, RawRow,
  find_row, update_where,
}

-- The stored name of a state reads back as the state.
pub parse_state-as_str : (s : OperationState) → parse_state (as_str s) ≡ ok s
unfolding parse_state as_str
parse_state-as_str in_flight = refl
parse_state-as_str done = refl
parse_state-as_str failed = refl
parse_state-as_str unknown = refl
parse_state-as_str not_applied = refl

-- A text that reads as a state is that state's stored name.
pub as_str-parse_state : (t : String) {s : OperationState} → parse_state t ≡ ok s → t ≡ as_str s
unfolding parse_state as_str
as_str-parse_state t e = ground (
  arith,
  eq_iff t "in_flight",
  eq_iff t "done",
  eq_iff t "failed",
  eq_iff t "unknown",
  eq_iff t "not_applied",
)

-- A row that is found has the id that was looked for.
pub find_row-has_id :
    (k : String) (rows : List RawRow) {r : RawRow} → find_row k rows ≡ some r → r.operation_id ≡ k
unfolding find_row
find_row-has_id k [] {r} e = cc
find_row-has_id k (x ∷ xs) {r} e =
    ground (arith, eq_iff x.operation_id k, find_row-has_id k xs {r = r})

-- A row as an UPDATE leaves it.
abbrev pub updated : (RawRow → Bool) → (RawRow → RawRow) → RawRow → RawRow
updated p f r = if p r then f r else r

pub find_row-update_where :
    (p : RawRow → Bool) (f : RawRow → RawRow) (k : String) (rows : List RawRow)
    → ((r : RawRow) → (f r).operation_id ≡ r.operation_id)
    → find_row k (update_where p f rows) ≡ Option.map (updated p f) (find_row k rows)
unfolding find_row update_where
find_row-update_where p f k [] keeps = refl
find_row-update_where p f k (x ∷ xs) keeps =
    ground (arith, keeps x, find_row-update_where p f k xs keeps)

abbrev pub or_else {ℓ} : {A : Type ℓ} → Option A → Option A → Option A
or_else none b = b
or_else (some a) b = some a

pub find_row-append :
    (k : String) (rows : List RawRow) (new : RawRow)
    → find_row k (rows ++ new ∷ [])
      ≡ or_else (find_row k rows) (if new.operation_id == k then some new else none)
unfolding find_row
find_row-append k [] new = refl
find_row-append k (x ∷ xs) new = ground (arith, find_row-append k xs new)
