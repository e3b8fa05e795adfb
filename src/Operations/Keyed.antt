-- ===== src/Operations/Keyed.antt =====
-- The primary key of the table, and the calls that write one row.
use mathlib.Core.Option
use cloakpipe.Base.{
  ◌+◌, ◌≤◌, String, ◌≡◌, refl, ap, Bool, true, false, ◌&&◌, ◌⊎◌, Option, none, some, List, [], ◌∷◌,
  ◌++◌, Bytes, eq_iff, if◌then◌else◌, arith, Bool-cases, inl, inr, ◌∙◌, nat_eq,
}
use cloakpipe.Base.Results.{Result, ok, Result-cases}
use cloakpipe.Operations.Rows.{
  OperationState, in_flight, done, unknown, not_applied, as_str, RawRow, OperationRow,
  OperationStore, find_row, update_where, count_where, has_id, has_state, set_outcome, new_row,
  is_some,
}
use cloakpipe.Operations.Store.{
  settles, begin_rows, recover, release_gate, begin, settle_with, reconcile, is_settled,
}
use cloakpipe.Operations.Table.{updated, as_str-parse_state, find_row-update_where}
use cloakpipe.Operations.Events.{Event, recovered, released, begun, settled, reconciled, apply, run}
use cloakpipe.Operations.Held.{begin-eq-ok, get-eq-none}
use cloakpipe.Operations.AtMostOnce.{recover-eq-ok, reconcile-eq-ok}

abbrev pub IsKeyed : List RawRow → Type 0
IsKeyed rows = (k : String) → count_where (has_id k) rows ≤ 1

count_where-update_where :
    (k : String) (p : RawRow → Bool) (f : RawRow → RawRow) (rows : List RawRow)
    → ((x : RawRow) → (f x).operation_id ≡ x.operation_id)
    → count_where (has_id k) (update_where p f rows) ≡ count_where (has_id k) rows
unfolding count_where update_where
count_where-update_where k p f [] id = refl
count_where-update_where k p f (x ∷ xs) id =
    ground (arith, id x, count_where-update_where k p f xs id)

count_where-append :
    (p : RawRow → Bool) (rows : List RawRow) (new : RawRow)
    → count_where p (rows ++ new ∷ []) ≡ count_where p rows + (if p new then 1 else 0)
unfolding count_where
count_where-append p [] new = ground arith
count_where-append p (x ∷ xs) new = ground (arith, count_where-append p xs new)

count_where-none :
    (k : String) (rows : List RawRow) → find_row k rows ≡ none → count_where (has_id k) rows ≡ 0
unfolding count_where find_row
count_where-none k [] e = refl
count_where-none k (x ∷ xs) e = ground (arith, count_where-none k xs)

begin_rows-IsKeyed :
    (s : OperationStore) (o : Option OperationRow) (id tool : String) (digest : Bytes)
    (now : String)
    → (o ≡ none → find_row id s.rows ≡ none)
    → IsKeyed s.rows
    → IsKeyed (begin_rows o id tool digest now s.rows).1
begin_rows-IsKeyed s none id tool digest now new h k = ground (
  arith,
  count_where-append (has_id k) s.rows (new_row id tool digest now),
  h k,
  eq_iff id k,
  count_where-none id s.rows (new refl),
  ap (λ i. count_where (has_id i) s.rows) {x = id} {y = k},
)
begin_rows-IsKeyed s (some row) id tool digest now new h k = ground (
  arith,
  h k,
  count_where-update_where k (has_id row.operation_id) (set_outcome in_flight none false now) s.rows
      (λ _. refl),
)

update_where-IsKeyed :
    (p : RawRow → Bool) (f : RawRow → RawRow) (rows : List RawRow)
    → ((x : RawRow) → (f x).operation_id ≡ x.operation_id)
    → IsKeyed rows
    → IsKeyed (update_where p f rows)
update_where-IsKeyed p f rows id h k = rw (count_where-update_where k p f rows id) (h k)

apply-IsKeyed : (e : Event) (s : OperationStore) → IsKeyed s.rows → IsKeyed (apply e s).rows
unfolding apply release_gate settle_with
apply-IsKeyed (recovered lock now) s h = elim (Result-cases (recover s lock now)) [
  | inl ((ids, s'), e) ↦
      rw (e, (recover-eq-ok s lock now e).1) (update_where-IsKeyed _ _ s.rows (λ _. refl) h)
  | inr (x, e) ↦ rw e h
]
apply-IsKeyed released s h = h
apply-IsKeyed (begun id tool digest now) s h = elim (Result-cases (begin s id tool digest now)) [
  | inl ((b, s'), e) ↦
      let (o, got, answer, rows) = begin-eq-ok s id tool digest now e in
      rw (e, rows)
        (begin_rows-IsKeyed s o id tool digest now (λ p. get-eq-none s id (rw p at got)) h)
  | inr (x, e) ↦ rw e h
]
apply-IsKeyed (settled id st result masked now) s h = elim (Bool-cases (is_settled st)) [
  | inl e ↦ rw e (
      update_where-IsKeyed (settles id) (set_outcome st result (masked && is_some result) now)
        s.rows (λ _. refl) h)
  | inr e ↦ rw e h
]
apply-IsKeyed (reconciled id outcome force evidence now) s h =
    elim (Result-cases (reconcile s id outcome force evidence now)) [
      | inl (s', e) ↦
          rw (e, (reconcile-eq-ok s id outcome force evidence now e).1.6)
            (update_where-IsKeyed (has_id id) (set_outcome outcome none false now) s.rows
              (λ _. refl) h)
      | inr (x, e) ↦ rw e h
    ]

-- From a table in which no operation id has two rows, none has after any calls of the store.
pub run-IsKeyed : (es : List Event) (s : OperationStore) → IsKeyed s.rows → IsKeyed (run es s).rows
unfolding run
run-IsKeyed [] s h = h
run-IsKeyed (e ∷ es) s h = run-IsKeyed es (apply e s) (apply-IsKeyed e s h)

count_where-le :
    (k : String) (rows : List RawRow) → count_where (settles k) rows ≤ count_where (has_id k) rows
unfolding count_where
count_where-le k [] = omega arith
count_where-le k (x ∷ xs) = ground (arith, count_where-le k xs)

-- Whether a row is found and in flight.
abbrev pub is_flying : Option RawRow → Bool
is_flying none = false
is_flying (some r) = has_state in_flight r

count_where-settles :
    (k : String) (rows : List RawRow)
    → count_where (has_id k) rows ≤ 1
    → count_where (settles k) rows ≡ (if is_flying (find_row k rows) then 1 else 0)
unfolding count_where find_row
count_where-settles k [] h = refl
count_where-settles k (x ∷ xs) h = ground (arith, count_where-settles k xs, count_where-le k xs)

-- Where no operation id has two rows, a settlement that is not refused returns true exactly when
-- the operation's row is in flight, and then sets its outcome; the row of every other operation is
-- as it was.
pub settle_with-exact :
    (s s' : OperationStore) (k j : String) (st : OperationState) (result : Option String)
    (masked c : Bool) (now : String)
    → IsKeyed s.rows
    → settle_with s k st result masked now ≡ ok (c, s')
    → (c ≡ is_flying (find_row k s.rows))
      × (find_row j s'.rows
          ≡ Option.map
              (updated (settles k) (set_outcome st result (masked && is_some result) now))
              (find_row j s.rows))
unfolding settle_with
settle_with-exact s s' k j st result masked c now h e =
    let f = set_outcome st result (masked && is_some result) now in
    let n = count_where-settles k s.rows (h k) in
    let answer : c ≡ nat_eq (count_where (settles k) s.rows) 1 = ground arith in
    let rows : s'.rows ≡ update_where (settles k) f s.rows = ground arith in
    (ground arith, ap (find_row j) rows ∙ find_row-update_where (settles k) f j s.rows (λ _. refl))

-- A reconciliation that succeeds was of an unknown operation, or with `force` of one in flight,
-- with outcome done or not_applied and its evidence recorded; it sets the outcome of that operation
-- and drops its result, and every other operation's row is as it was.
pub reconcile-exact :
    (s s' : OperationStore) (k j : String) (outcome : OperationState) (force : Bool)
    (evidence : Result (Unit {0}) String) (now : String)
    → reconcile s k outcome force evidence now ≡ ok s'
    → (r : RawRow) × (find_row k s.rows ≡ some r)
      × ((r.state ≡ as_str unknown) ⊎ ((r.state ≡ as_str in_flight) × (force ≡ true)))
      × ((outcome ≡ done) ⊎ (outcome ≡ not_applied))
      × (evidence ≡ ok tt)
      × (find_row j s'.rows
          ≡ Option.map
              (updated (has_id k) (set_outcome outcome none false now))
              (find_row j s.rows))
reconcile-exact s s' k j outcome force evidence now e =
    let (allowed, (r, st, found, parsed, pending, recorded, written)) =
      reconcile-eq-ok s k outcome force evidence now e in
    (
      r,
      found,
      ground (arith, as_str-parse_state r.state parsed),
      ground arith,
      recorded,
      rw written (
          find_row-update_where (has_id k) (set_outcome outcome none false now) j s.rows
            (λ _. refl)),
    )
