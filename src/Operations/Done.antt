-- ===== src/Operations/Done.antt =====
-- The row of a done operation under the calls of the store.
use cloakpipe.Base.{
  String, ◌≡◌, ◌≢◌, refl, ap, Bool, true, false, ◌⊎◌, Option, none, some, List, [], ◌∷◌, Bytes,
  eq_iff, arith, Bool-cases, inl, inr, sym, ◌∙◌,
}
use cloakpipe.Base.Results.{Result, ok, Result-cases}
use cloakpipe.Operations.Rows.{
  OperationState, in_flight, done, failed, unknown, not_applied, OperationsError, as_str,
  parse_state, RawRow, OperationRow, OperationStore, find_row, update_where, has_id, has_state,
  set_outcome, set_unknown,
}
use cloakpipe.Operations.Store.{
  TryLock, get, settles, begin_rows, recover, release_gate, begin, settle_with, reconcile,
  is_settled, pending_state,
}
use cloakpipe.Operations.Table.{
  parse_state-as_str, find_row-has_id, find_row-update_where, find_row-append,
}
use cloakpipe.Operations.Events.{
  Event, recovered, released, begun, settled, reconciled, apply, run, store_after, reconciled_store,
}
use cloakpipe.Operations.Held.{begin-eq-ok, get-operation_id, to_row-state, get-found}
use cloakpipe.Operations.AtMostOnce.{recover-eq-ok, reconcile-eq-ok}

-- The row of an operation that is done.
abbrev pub IsDone : RawRow → String → List RawRow → Type 0
IsDone r k rows = (find_row k rows ≡ some r) × (r.state ≡ as_str done)

IsDone-update_where :
    (p : RawRow → Bool) (f : RawRow → RawRow) (r : RawRow) (k : String) (rows : List RawRow)
    → ((x : RawRow) → (f x).operation_id ≡ x.operation_id)
    → p r ≡ false
    → IsDone r k rows
    → IsDone r k (update_where p f rows)
IsDone-update_where p f r k rows id miss (found, state) =
    (rw (find_row-update_where p f k rows id, found, miss), state)

done-not_in_flight : (r : RawRow) → r.state ≡ as_str done → has_state in_flight r ≡ false
unfolding as_str
done-not_in_flight r e = rw e

recover-IsDone :
    (s : OperationStore) (lock : TryLock) (now : String) (r : RawRow) (k : String)
    → IsDone r k s.rows
    → IsDone r k (store_after s (recover s lock now)).rows
recover-IsDone s lock now r k h = elim (Result-cases (recover s lock now)) [
  | inl ((ids, s'), e) ↦
      rw (e, (recover-eq-ok s lock now e).1)
        (IsDone-update_where (has_state in_flight) (set_unknown now) r k s.rows (λ _. refl)
          (done-not_in_flight r h.1) h)
  | inr (x, e) ↦ rw e h
]

settle_with-IsDone :
    (s : OperationStore) (id : String) (st : OperationState) (result : Option String)
    (masked : Bool) (now : String) (r : RawRow) (k : String)
    → IsDone r k s.rows
    → IsDone r k (store_after s (settle_with s id st result masked now)).rows
unfolding settle_with
settle_with-IsDone s id st result masked now r k h = elim (Bool-cases (is_settled st)) [
  | inl e ↦ rw e (
      IsDone-update_where (settles id) _ r k s.rows (λ _. refl)
        (ground (arith, done-not_in_flight r h.1)) h)
  | inr e ↦ rw e h
]

reconcile-IsDone :
    (s : OperationStore) (id : String) (outcome : OperationState) (force : Bool)
    (evidence : Result (Unit {0}) String) (now : String) (r : RawRow) (k : String)
    → IsDone r k s.rows
    → IsDone r k (reconciled_store s (reconcile s id outcome force evidence now)).rows
reconcile-IsDone s id outcome force evidence now r k h =
    elim (Result-cases (reconcile s id outcome force evidence now)) [
      | inl (s', e) ↦
          let (allowed, (r', st, found, parsed, pending, recorded, written)) =
            reconcile-eq-ok s id outcome force evidence now e in
          rw (e, written)
            (IsDone-update_where (has_id id) (set_outcome outcome none false now) r k s.rows
              (λ _. refl) (other (Bool-cases (has_id id r)) r' st found parsed pending) h)
      | inr (x, e) ↦ rw e h
    ]
  where
    not_pending_done :
        (st : OperationState)
        → ◌≡◌ {A = Result OperationState OperationsError} (ok done) (ok st)
        → pending_state st force ≡ ok tt
        → ⊥
    not_pending_done done e p = cc
    not_pending_done in_flight e p = cc
    not_pending_done failed e p = cc
    not_pending_done unknown e p = cc
    not_pending_done not_applied e p = cc

    other :
        (has_id id r ≡ true) ⊎ (has_id id r ≡ false)
        → (r' : RawRow) (st : OperationState) → find_row id s.rows ≡ some r'
        → parse_state r'.state ≡ ok st
        → pending_state st force ≡ ok tt
        → has_id id r ≡ false
    other (inr miss) r' st found parsed pending = miss
    other (inl hit) r' st found parsed pending =
        let same : k ≡ id = sym (find_row-has_id k s.rows h.0) ∙ (eq_iff _ _).0 hit in
        let row : some r ≡ some r' = sym h.0 ∙ ap (λ i. find_row i s.rows) same ∙ found in
        let state : ◌≡◌ {A = Result OperationState OperationsError} (ok done) (ok st) =
          cc (parse_state-as_str done, h.1, row, parsed) in
        absurd (not_pending_done st state pending)

-- A `begin` of a done operation writes nothing; of another operation, nothing on this row.
begin-IsDone :
    (s : OperationStore) (id tool : String) (digest : Bytes) (now : String) (r : RawRow)
    (k : String)
    → IsDone r k s.rows
    → IsDone r k (store_after s (begin s id tool digest now)).rows
begin-IsDone s id tool digest now r k h = elim (Result-cases (begin s id tool digest now)) [
  | inl ((b, s'), e) ↦
      let (o, got, answer, rows) = begin-eq-ok s id tool digest now e in rw (e, rows) (after o got)
  | inr (x, e) ↦ rw e h
]
  where
    restarted :
        (row : OperationRow)
        → get s id ≡ ok (some row)
        → (row.state ≢ done)
        → IsDone r k
            (update_where (has_id row.operation_id) (set_outcome in_flight none false now) s.rows)
    restarted row got open_state = elim (Bool-cases (has_id row.operation_id r)) [
      | inl hit ↦
          let same : k ≡ id =
            sym (find_row-has_id k s.rows h.0)
            ∙ (eq_iff _ _).0 hit
            ∙ get-operation_id s id (some row) got refl in
          let (row', some_row, read) = get-found s id (rw same at h.0) got in
          absurd (open_state (cc (some_row, to_row-state r done h.1 read)))
      | inr miss ↦ IsDone-update_where (has_id row.operation_id) _ r k s.rows (λ _. refl) miss h
    ]

    after :
        (o : Option OperationRow)
        → get s id ≡ ok o
        → IsDone r k (begin_rows o id tool digest now s.rows).1
    after none got = (rw (find_row-append, h.0), h.1)
    after (some row) got = ground (arith, h, restarted row got)

apply-IsDone :
    (e : Event) (s : OperationStore) (r : RawRow) (k : String)
    → IsDone r k s.rows
    → IsDone r k (apply e s).rows
unfolding apply release_gate
apply-IsDone (recovered lock now) s r k h = recover-IsDone s lock now r k h
apply-IsDone released s r k h = h
apply-IsDone (begun id tool digest now) s r k h = begin-IsDone s id tool digest now r k h
apply-IsDone (settled id st result masked now) s r k h =
    settle_with-IsDone s id st result masked now r k h
apply-IsDone (reconciled id outcome force evidence now) s r k h =
    reconcile-IsDone s id outcome force evidence now r k h

pub run-IsDone :
    (es : List Event) (s : OperationStore) (r : RawRow) (k : String)
    → IsDone r k s.rows
    → IsDone r k (run es s).rows
unfolding run
run-IsDone [] s r k h = h
run-IsDone (e ∷ es) s r k h = run-IsDone es (apply e s) r k (apply-IsDone e s r k h)
