-- ===== src/Operations/AtMostOnce.antt =====
-- On forwarding a call at most once: what the events do to an operation that is held.
use cloakpipe.Base.{
  String, ◌≡◌, ◌≢◌, refl, ap, Bool, true, false, ◌⊎◌, Option, none, some, List, [], ◌∷◌, any, Bytes,
  ◌==◌, eq_iff, eq_refl, arith, Bool-cases, inl, inr, sym, ◌∙◌, ||-eq-false,
}
use cloakpipe.Base.Results.{
  Result, ok, >>=-eq-ok, map_err, ok_or, map_err-eq-ok, ok_or-eq-ok, Result-cases,
}
use cloakpipe.Operations.Rows.{
  OperationState, in_flight, done, failed, unknown, not_applied, as_str, parse_state, RawRow,
  OperationRow, OperationStore, Begin, forward, find_row, update_where, has_id, has_state,
  set_outcome, set_unknown, new_row, store_failed, evidence_failed, not_found,
}
use cloakpipe.Operations.Store.{
  TryLock, get, settles, begin_rows, recover, claim_for_gate, release_gate, begin, ids_where,
  settle_with, reconcile, reconcile_row, is_outcome, pending_state,
}
use cloakpipe.Operations.Table.{find_row-has_id, find_row-update_where, find_row-append}
use cloakpipe.Operations.Events.{
  Event, recovered, released, begun, settled, reconciled, apply, run, permits_retry, store_after,
  reconciled_store,
}
use cloakpipe.Operations.Held.{
  IsHeld, keeps, begin-eq-ok, begin-held, begin_rows-IsHeld, IsHeld-update_where, get-operation_id,
  get-eq-some, get-eq-none,
}

claim_for_gate-rows :
    (s : OperationStore) (lock : TryLock) {s' : OperationStore}
    → claim_for_gate s lock ≡ ok s'
    → (s'.rows ≡ s.rows) × (s'.gate_lock ≡ true)
unfolding claim_for_gate
claim_for_gate-rows s lock e = ground arith

pub recover-eq-ok :
    (s : OperationStore) (lock : TryLock) (now : String) {ids : List String} {s' : OperationStore}
    → recover s lock now ≡ ok (ids, s')
    → (ids ≡ ids_where (has_state in_flight) s.rows)
      × (s'.rows ≡ update_where (has_state in_flight) (set_unknown now) s.rows)
      × (s'.gate_lock ≡ true)
unfolding recover
recover-eq-ok s lock now e =
    let (c, claimed, rest) = >>=-eq-ok (claim_for_gate s lock) _ e in
    let (rows, held) = claim_for_gate-rows s lock claimed in
    ground (
      arith,
      ap (ids_where (has_state in_flight)) rows,
      ap (update_where (has_state in_flight) (set_unknown now)) rows,
    )

recover-IsHeld :
    (s : OperationStore) (lock : TryLock) (now k : String)
    → IsHeld s.rows k
    → IsHeld (store_after s (recover s lock now)).rows k
recover-IsHeld s lock now k h = elim (Result-cases (recover s lock now)) [
  | inl ((ids, s'), e) ↦
      rw (e, (recover-eq-ok s lock now e).1)
        (IsHeld-update_where (has_state in_flight) (set_unknown now) k s.rows (λ r. refl)
          (λ r _ hit. (unknown, refl, refl)) h)
  | inr (x, e) ↦ rw e h
]

settles_other :
    (id k : String) (r : RawRow) → (id == k) ≡ false → r.operation_id ≡ k → settles id r ≡ true → ⊥
settles_other id k r p e hit = ground (arith, eq_iff id k, eq_iff r.operation_id id)

settle_with-IsHeld :
    (s : OperationStore) (id : String) (st : OperationState) (result : Option String)
    (masked : Bool) (now k : String)
    → permits_retry k (settled id st result masked now) ≡ false
    → IsHeld s.rows k
    → IsHeld (store_after s (settle_with s id st result masked now)).rows k
unfolding settle_with
settle_with-IsHeld s id done result masked now k p h =
    IsHeld-update_where (settles id) _ k s.rows (λ r. refl) (λ r e hit. (done, refl, refl)) h
settle_with-IsHeld s id unknown result masked now k p h =
    IsHeld-update_where (settles id) _ k s.rows (λ r. refl) (λ r e hit. (unknown, refl, refl)) h
settle_with-IsHeld s id failed result masked now k p h =
    IsHeld-update_where (settles id) _ k s.rows (λ r. refl)
      (λ r e hit. absurd (settles_other id k r p e hit)) h
settle_with-IsHeld s id in_flight result masked now k p h = h
settle_with-IsHeld s id not_applied result masked now k p h = h

-- A reconciliation that returns a store has set the outcome on the row of its operation.
abbrev pub Reconciled :
    OperationStore
    → String
    → OperationState
    → Bool
    → Result (Unit {0}) String
    → String
    → OperationStore
    → Type 0
Reconciled s id outcome force evidence now s' =
    (r : RawRow) × (st : OperationState) × (find_row id s.rows ≡ some r)
    × (parse_state r.state ≡ ok st)
    × (pending_state st force ≡ ok tt)
    × (evidence ≡ ok tt)
    × (s'
        ≡ record s { rows = update_where (has_id id) (set_outcome outcome none false now) s.rows })

reconcile_row-eq-ok :
    (s : OperationStore) (id : String) (outcome : OperationState) (force : Bool)
    (evidence : Result (Unit {0}) String) (now : String) {s' : OperationStore}
    → reconcile_row s id outcome force evidence now ≡ ok s'
    → Reconciled s id outcome force evidence now s'
unfolding reconcile_row
reconcile_row-eq-ok s id outcome force evidence now e =
    let (r, found, e₁) = >>=-eq-ok (ok_or (find_row id s.rows) not_found) _ e in
    let (st, parsed, e₂) = >>=-eq-ok (map_err store_failed (parse_state r.state)) _ e₁ in
    let (_, pending, e₃) = >>=-eq-ok (pending_state st force) _ e₂ in
    let (_, recorded, e₄) = >>=-eq-ok (map_err evidence_failed evidence) _ e₃ in
    (
      r,
      st,
      ok_or-eq-ok _ _ found,
      map_err-eq-ok _ _ parsed,
      pending,
      map_err-eq-ok _ _ recorded,
      cc e₄,
    )

pub reconcile-eq-ok :
    (s : OperationStore) (id : String) (outcome : OperationState) (force : Bool)
    (evidence : Result (Unit {0}) String) (now : String) {s' : OperationStore}
    → reconcile s id outcome force evidence now ≡ ok s'
    → (is_outcome outcome ≡ true) × Reconciled s id outcome force evidence now s'
unfolding reconcile
reconcile-eq-ok s id done force evidence now e =
    (refl, reconcile_row-eq-ok s id done force evidence now e)
reconcile-eq-ok s id not_applied force evidence now e =
    (refl, reconcile_row-eq-ok s id not_applied force evidence now e)
reconcile-eq-ok s id _ force evidence now e = cc

begin-IsHeld :
    (s : OperationStore) (id tool : String) (digest : Bytes) (now k : String)
    → IsHeld s.rows k
    → IsHeld (store_after s (begin s id tool digest now)).rows k
begin-IsHeld s id tool digest now k h = elim (Result-cases (begin s id tool digest now)) [
  | inl ((b, s'), e) ↦ rw e (after (Bool-cases (id == k)) b s' e)
  | inr (x, e) ↦ rw e h
]
  where
    after :
        ((id == k) ≡ true) ⊎ ((id == k) ≡ false)
        → (b : Begin) (s' : OperationStore) → begin s id tool digest now ≡ ok (b, s')
        → IsHeld s'.rows k
    after (inl same) b s' e =
        let p = (eq_iff id k).0 same in rw (begin-held s id tool digest now (rw p h) e).1 h
    after (inr other) b s' e =
        let (o, got, answer, rows) = begin-eq-ok s id tool digest now e in
        rw rows (
          begin_rows-IsHeld o k id tool digest now s.rows
            (λ row p q. cc (other, (eq_iff id k).1 (sym (get-operation_id s id o got p) ∙ q))) h)

reconcile-IsHeld :
    (s : OperationStore) (id : String) (outcome : OperationState) (force : Bool)
    (evidence : Result (Unit {0}) String) (now k : String)
    → permits_retry k (reconciled id outcome force evidence now) ≡ false
    → IsHeld s.rows k
    → IsHeld (reconciled_store s (reconcile s id outcome force evidence now)).rows k
reconcile-IsHeld s id outcome force evidence now k p h =
    elim (Result-cases (reconcile s id outcome force evidence now)) [
      | inl (s', e) ↦
          let (allowed, (_, _, _, _, _, _, written)) =
            reconcile-eq-ok s id outcome force evidence now e in
          rw (e, written)
            (IsHeld-update_where (has_id id) (set_outcome outcome none false now) k s.rows
              (λ r. refl) (λ r q hit. still outcome allowed p r q hit) h)
      | inr (x, e) ↦ rw e h
    ]
  where
    still :
        (st : OperationState)
        → is_outcome st ≡ true
        → permits_retry k (reconciled id st force evidence now) ≡ false
        → (r : RawRow) → r.operation_id ≡ k
        → has_id id r ≡ true
        → (st' : OperationState) × (as_str st ≡ as_str st') × (keeps st' ≡ true)
    still done a q r m hit = (done, refl, refl)
    still not_applied a q r m hit = absurd (ground (arith, eq_iff id k, eq_iff r.operation_id id))
    still in_flight a q r m hit = cc
    still failed a q r m hit = cc
    still unknown a q r m hit = cc

apply-IsHeld :
    (e : Event) (s : OperationStore) (k : String)
    → permits_retry k e ≡ false
    → IsHeld s.rows k
    → IsHeld (apply e s).rows k
unfolding apply release_gate
apply-IsHeld (recovered lock now) s k p h = recover-IsHeld s lock now k h
apply-IsHeld released s k p h = h
apply-IsHeld (begun id tool digest now) s k p h = begin-IsHeld s id tool digest now k h
apply-IsHeld (settled id st result masked now) s k p h =
    settle_with-IsHeld s id st result masked now k p h
apply-IsHeld (reconciled id outcome force evidence now) s k p h =
    reconcile-IsHeld s id outcome force evidence now k p h

-- An operation that is in flight, done or unknown stays so under events of which none permits a retry.
pub run-IsHeld :
    (es : List Event) (s : OperationStore) (k : String)
    → any (permits_retry k) es ≡ false
    → IsHeld s.rows k
    → IsHeld (run es s).rows k
unfolding run
run-IsHeld [] s k p h = h
run-IsHeld (e ∷ es) s k p h =
    let (first, rest) = ||-eq-false _ _ p in
    run-IsHeld es (apply e s) k rest (apply-IsHeld e s k first h)

pub begin_rows-forward :
    (row : OperationRow) (id tool : String) (digest : Bytes) (now : String) (rows : List RawRow)
    → forward ≡ (begin_rows (some row) id tool digest now rows).0
    → (begin_rows (some row) id tool digest now rows).1
      ≡ update_where (has_id row.operation_id) (set_outcome in_flight none false now) rows
begin_rows-forward row id tool digest now rows e = ground arith

-- After a call was forwarded its operation is held.
begin-forward :
    (s : OperationStore) (k tool : String) (digest : Bytes) (now : String) {s' : OperationStore}
    → begin s k tool digest now ≡ ok (forward, s')
    → IsHeld s'.rows k
begin-forward s k tool digest now {s'} e =
    let (o, got, answer, rows) = begin-eq-ok s k tool digest now e in after o got answer rows
  where
    after :
        (o : Option OperationRow)
        → get s k ≡ ok o
        → forward ≡ (begin_rows o k tool digest now s.rows).0
        → s'.rows ≡ (begin_rows o k tool digest now s.rows).1
        → IsHeld s'.rows k
    after none got answer rows = (
      new_row k tool digest now,
      in_flight,
      rw (rows, find_row-append, get-eq-none s k got, eq_refl),
      refl,
      refl,
    )
    after (some row) got answer rows =
        let (r, found, read) = get-eq-some s k got in
        let here = get-operation_id s k (some row) got refl in
        let hit : (r.operation_id == row.operation_id) ≡ true =
          (eq_iff _ _).1 (find_row-has_id k s.rows found ∙ sym here) in
        (
          set_outcome in_flight none false now r,
          in_flight,
          rw (rows, begin_rows-forward row k tool digest now s.rows answer)
              (find_row-update_where (has_id row.operation_id)
                  (set_outcome in_flight none false now) k s.rows (λ _. refl)
                ∙ rw (found, hit)),
          refl,
          refl,
        )

-- A call that was forwarded is not forwarded again, whatever calls of the store come between, by
-- any gate or operator and whatever arguments the second call has, unless one of them settles the
-- operation as failed or reconciles it as not applied.
pub begin-at_most_once :
    (s s₁ s₂ : OperationStore) (k tool tool' : String) (digest digest' : Bytes) (now now' : String)
    (es : List Event) (b : Begin)
    → begin s k tool digest now ≡ ok (forward, s₁)
    → any (permits_retry k) es ≡ false
    → begin (run es s₁) k tool' digest' now' ≡ ok (b, s₂)
    → b ≢ forward
begin-at_most_once s s₁ s₂ k tool tool' digest digest' now now' es b first quiet second =
    (begin-held (run es s₁) k tool' digest' now'
      (run-IsHeld es s₁ k quiet (begin-forward s k tool digest now first)) second).0
