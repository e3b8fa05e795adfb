-- ===== src/Operations/Held.antt =====
-- The operations that are in flight, done or unknown.
use cloakpipe.Base.{
  String, ◌≡◌, ◌≢◌, refl, ap, Bool, true, false, not, ◌||◌, Option, none, some, List, Bytes,
  bytes_eq, ◌==◌, eq_iff, arith, Bool-cases, Option-cases, inl, inr, sym, ◌∙◌,
}
use cloakpipe.Base.Results.{ok, >>=-eq-ok}
use cloakpipe.Operations.Rows.{
  OperationState, in_flight, done, failed, unknown, not_applied, as_str, parse_state, RawRow,
  OperationRow, OperationStore, Begin, forward, to_row, find_row, update_where, has_id, set_outcome,
}
use cloakpipe.Operations.Store.{get, begin_rows, begin_existing, begin}
use cloakpipe.Operations.Table.{
  parse_state-as_str, find_row-has_id, find_row-update_where, find_row-append,
}

-- The states that keep a call from being forwarded.
abbrev pub keeps : OperationState → Bool
keeps failed = false
keeps not_applied = false
keeps _ = true

-- An operation that is in flight, done or unknown.
abbrev pub IsHeld : List RawRow → String → Type 0
IsHeld rows k =
    (r : RawRow) × (st : OperationState) × (find_row k rows ≡ some r)
    × (r.state ≡ as_str st)
    × (keeps st ≡ true)

-- What `to_row` reads from a row whose state is a state's stored name.
pub to_row-state :
    (r : RawRow) (st : OperationState) {row : OperationRow}
    → r.state ≡ as_str st
    → to_row r ≡ ok row
    → row.state ≡ st
unfolding to_row
to_row-state r st e h = ground (arith, ap parse_state e, parse_state-as_str st)

to_row-operation_id :
    (r : RawRow) {row : OperationRow} → to_row r ≡ ok row → row.operation_id ≡ r.operation_id
unfolding to_row
to_row-operation_id r h = ground arith

-- A row that is found is what `get` returns, if it can be read.
pub get-found :
    (s : OperationStore) (k : String) {r : RawRow} {o : Option OperationRow}
    → find_row k s.rows ≡ some r
    → get s k ≡ ok o
    → (row : OperationRow) × (o ≡ some row) × (to_row r ≡ ok row)
unfolding get
get-found s k f e = ground arith

-- A held operation is never forwarded.
begin_rows-held :
    (r : OperationRow) (id tool : String) (digest : Bytes) (now : String) (rows : List RawRow)
    → keeps r.state ≡ true
    → ((begin_rows (some r) id tool digest now rows).0 ≢ forward)
      × ((begin_rows (some r) id tool digest now rows).1 ≡ rows)
begin_rows-held r id tool digest now rows h = ground arith

-- What a `begin` that returns has read and written.
pub begin-eq-ok :
    (s : OperationStore) (k tool : String) (digest : Bytes) (now : String) {b : Begin}
    {s' : OperationStore}
    → begin s k tool digest now ≡ ok (b, s')
    → (o : Option OperationRow) × (get s k ≡ ok o)
      × (b ≡ (begin_rows o k tool digest now s.rows).0)
      × (s'.rows ≡ (begin_rows o k tool digest now s.rows).1)
unfolding begin
begin-eq-ok s k tool digest now e =
    let (o, got, rest) = >>=-eq-ok (get s k) _ e in (o, got, ground arith, ground arith)

pub begin-held :
    (s : OperationStore) (k tool : String) (digest : Bytes) (now : String) {b : Begin}
    {s' : OperationStore}
    → IsHeld s.rows k
    → begin s k tool digest now ≡ ok (b, s')
    → (b ≢ forward) × (s'.rows ≡ s.rows)
begin-held s k tool digest now (r, st, found, state, held) e =
    let (o, got, answer, rows) = begin-eq-ok s k tool digest now e in
    let (row, some_row, read) = get-found s k found got in
    let quiet =
      begin_rows-held row k tool digest now s.rows
        (ap keeps (to_row-state r st state read) ∙ held) in
    (
      λ p.
          quiet.0
            (ap (λ x. (begin_rows x k tool digest now s.rows).0) (sym some_row) ∙ sym answer ∙ p),
      rows ∙ ap (λ x. (begin_rows x k tool digest now s.rows).1) some_row ∙ quiet.1,
    )

-- An UPDATE that leaves the ids alone, and the row of `k` in a state that holds.
pub IsHeld-update_where :
    (p : RawRow → Bool) (f : RawRow → RawRow) (k : String) (rows : List RawRow)
    → ((r : RawRow) → (f r).operation_id ≡ r.operation_id)
    → ((r : RawRow)
        → r.operation_id ≡ k
        → p r ≡ true
        → (st : OperationState) × ((f r).state ≡ as_str st) × (keeps st ≡ true))
    → IsHeld rows k
    → IsHeld (update_where p f rows) k
IsHeld-update_where p f k rows id ok_after (r, st, found, state, held) = elim (Bool-cases (p r)) [
  | inl hit ↦
      let (st', state', held') = ok_after r (find_row-has_id k rows found) hit in
      (f r, st', rw (find_row-update_where p f k rows id, found, hit), state', held')
  | inr miss ↦ (r, st, rw (find_row-update_where p f k rows id, found, miss), state, held)
]

-- A call of another operation.
pub begin_rows-IsHeld :
    (o : Option OperationRow) (k id tool : String) (digest : Bytes) (now : String)
    (rows : List RawRow)
    → ((row : OperationRow) → o ≡ some row → row.operation_id ≢ k)
    → IsHeld rows k
    → IsHeld (begin_rows o id tool digest now rows).1 k
begin_rows-IsHeld none k id tool digest now rows other (r, st, found, state, held) =
    (r, st, rw (find_row-append, found), state, held)
begin_rows-IsHeld (some row) k id tool digest now rows other h =
    elim (Bool-cases (not (bytes_eq row.call_digest digest) || not (row.tool == tool))) [
      | inl e ↦ rw e h
      | inr e ↦ rw e (begin_existing-IsHeld row.state)
    ]
  where
    restart :
        IsHeld
          (update_where (has_id row.operation_id) (set_outcome in_flight none false now) rows)
          k
    restart =
        IsHeld-update_where (has_id row.operation_id) (set_outcome in_flight none false now) k rows
          (λ r. refl) (λ r e hit. absurd (other row refl (sym ((eq_iff _ _).0 hit) ∙ e))) h

    begin_existing-IsHeld : (st : OperationState) → IsHeld (begin_existing st row now rows).1 k
    begin_existing-IsHeld done = h
    begin_existing-IsHeld in_flight = h
    begin_existing-IsHeld unknown = h
    begin_existing-IsHeld failed = restart
    begin_existing-IsHeld not_applied = restart

pub get-operation_id :
    (s : OperationStore) (k : String) (o : Option OperationRow) {row : OperationRow}
    → get s k ≡ ok o
    → o ≡ some row
    → row.operation_id ≡ k
unfolding get
get-operation_id s k o e p = elim (Option-cases (find_row k s.rows)) [
  | inl missing ↦ ground arith
  | inr (r, found) ↦
      let (row', some_row', read) = get-found s k found e in
      ground (arith, to_row-operation_id r read, find_row-has_id k s.rows found)
]

-- What is in the table when `get` returns a row, and when it returns none.
pub get-eq-some :
    (s : OperationStore) (k : String) {row : OperationRow}
    → get s k ≡ ok (some row)
    → (r : RawRow) × (find_row k s.rows ≡ some r) × (to_row r ≡ ok row)
unfolding get
get-eq-some s k {row} e = elim (Option-cases (find_row k s.rows)) [
  | inl missing ↦ ground arith
  | inr (r, found) ↦ (r, found, (get-found s k found e).2 ∙ ap ok (some_row r found))
]
  where
    some_row : (r : RawRow) (found : find_row k s.rows ≡ some r) → (get-found s k found e).0 ≡ row
    some_row r found = ground (arith, (get-found s k found e).1)

pub get-eq-none : (s : OperationStore) (k : String) → get s k ≡ ok none → find_row k s.rows ≡ none
unfolding get to_row
get-eq-none s k e = ground arith
