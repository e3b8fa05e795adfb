-- ===== src/Operations/Sweep.antt =====
-- The start-up sweep: the rows after it, and the ids that it returns.
use mathlib.Core.Option
use cloakpipe.Base.{
  String, ◌≡◌, refl, ap, Bool, true, false, ◌&&◌, ◌||◌, ◌⊎◌, Option, none, some, List, [], ◌∷◌, map,
  any, filter, ◌==◌, arith, Bool-cases, inl, inr, ◌∙◌,
}
use cloakpipe.Base.Results.{ok, >>=-eq-ok}
use cloakpipe.Operations.Rows.{
  in_flight, as_str, RawRow, OperationStore, find_row, has_id, has_state, set_unknown,
}
use cloakpipe.Operations.Store.{
  TryLock, locked, would_block, lock_error, recover, claim_for_gate, order_by_id, insert_by_id,
  settles,
}
use cloakpipe.Operations.Table.{find_row-update_where, updated}
use cloakpipe.Operations.AtMostOnce.{recover-eq-ok}
use cloakpipe.Operations.Keyed.{is_flying}

abbrev pub contains : String → List String → Bool
contains k ids = any (λ i. i == k) ids

abbrev ids_of : List RawRow → List String
ids_of rows = map (λ (r : RawRow). r.operation_id) rows

contains-insert_by_id :
    (k : String) (r : RawRow) (rows : List RawRow)
    → contains k (ids_of (insert_by_id r rows)) ≡ (has_id k r || contains k (ids_of rows))
unfolding insert_by_id
contains-insert_by_id k r [] = refl
contains-insert_by_id k r (x ∷ xs) = ground (arith, contains-insert_by_id k r xs)

contains-order_by_id :
    (k : String) (rows : List RawRow)
    → contains k (ids_of (order_by_id rows)) ≡ contains k (ids_of rows)
unfolding order_by_id
contains-order_by_id k [] = refl
contains-order_by_id k (r ∷ rs) =
    contains-insert_by_id k r (order_by_id rs)
    ∙ ap (λ b. has_id k r || b) (contains-order_by_id k rs)

contains-filter :
    (k : String) (p : RawRow → Bool) (rows : List RawRow)
    → contains k (ids_of (filter p rows)) ≡ any (λ r. has_id k r && p r) rows
contains-filter k p [] = refl
contains-filter k p (r ∷ rs) = ground (arith, contains-filter k p rs)

claim_for_gate-lock :
    (s : OperationStore) (lock : TryLock) {s' : OperationStore}
    → claim_for_gate s lock ≡ ok s'
    → (s.gate_lock ≡ true) ⊎ (lock ≡ locked)
unfolding claim_for_gate
claim_for_gate-lock s locked e = inr refl
claim_for_gate-lock s would_block e = ground arith
claim_for_gate-lock s lock_error e = ground arith

swept :
    (now : String) (o : Option RawRow)
    → is_flying (Option.map (updated (has_state in_flight) (set_unknown now)) o) ≡ false
unfolding as_str
swept now none = refl
swept now (some r) = elim (Bool-cases (has_state in_flight r)) [ inl e ↦ rw e | inr e ↦ rw e e ]

-- A start-up sweep that succeeds leaves the store with the gate lock, which it had already or
-- which the system gave. After it the row of no operation is in flight: a row that was is unknown
-- and otherwise as it was, but for its time, and every other row is as it was. An id is among
-- those returned exactly when a row with it was in flight.
pub recover-exact :
    (s s' : OperationStore) (lock : TryLock) (now k : String) (ids : List String)
    → recover s lock now ≡ ok (ids, s')
    → ((s.gate_lock ≡ true) ⊎ (lock ≡ locked))
      × (s'.gate_lock ≡ true)
      × (is_flying (find_row k s'.rows) ≡ false)
      × (find_row k s'.rows
          ≡ Option.map (updated (has_state in_flight) (set_unknown now)) (find_row k s.rows))
      × (contains k ids ≡ any (settles k) s.rows)
unfolding recover
recover-exact s s' lock now k ids e =
    let (c, claimed, rest) = >>=-eq-ok (claim_for_gate s lock) _ e in
    let (listed, rows, held) = recover-eq-ok s lock now e in
    let read =
      ap (find_row k) rows
      ∙ find_row-update_where (has_state in_flight) (set_unknown now) k s.rows (λ _. refl) in
    (
      claim_for_gate-lock s lock claimed,
      held,
      ap is_flying read ∙ swept now (find_row k s.rows),
      read,
      ap (contains k) listed
          ∙ contains-order_by_id k (filter (has_state in_flight) s.rows)
          ∙ contains-filter k (has_state in_flight) s.rows,
    )
