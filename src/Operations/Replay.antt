-- ===== src/Operations/Replay.antt =====
-- The retry of a call that is done.
use cloakpipe.Base.{
  String, ◌≡◌, refl, ap, Bool, true, false, ◌&&◌, Option, none, some, List, length, Bytes, bytes_eq,
  bytes_eq_iff, ◌==◌, eq_iff, eq_refl, if◌then◌else◌, arith, sym, ◌∙◌,
}
use cloakpipe.Base.Results.{ok}
use cloakpipe.Operations.Rows.{
  OperationState, in_flight, done, as_str, parse_state, RawRow, OperationRow, OperationStore,
  forward, replay, conflict, to_row, find_row, update_where, has_id, set_outcome, new_row,
  is_masked, is_some,
}
use cloakpipe.Operations.Store.{get, settles, begin_rows, begin, settle_with}
use cloakpipe.Operations.Table.{
  parse_state-as_str, find_row-has_id, find_row-update_where, find_row-append,
}
use cloakpipe.Operations.Events.{Event, run}
use cloakpipe.Operations.Held.{begin-eq-ok, get-operation_id, get-eq-some, get-eq-none}
use cloakpipe.Operations.AtMostOnce.{begin_rows-forward}
use cloakpipe.Operations.Done.{IsDone, run-IsDone}

to_row-call :
    (r : RawRow) {row : OperationRow}
    → to_row r ≡ ok row
    → (row.tool ≡ r.tool) × (row.call_digest ≡ r.call_digest)
unfolding to_row
to_row-call r e = ground arith

begin_rows-call :
    (row : OperationRow) (id tool : String) (digest : Bytes) (now : String) (rows : List RawRow)
    → forward ≡ (begin_rows (some row) id tool digest now rows).0
    → (row.tool ≡ tool) × (row.call_digest ≡ digest)
begin_rows-call row id tool digest now rows e =
    ground (arith, bytes_eq_iff row.call_digest digest, eq_iff row.tool tool)

-- The row of a call.
abbrev pub IsCall : RawRow → String → Bytes → OperationState → Type 0
IsCall r tool digest st = (r.tool ≡ tool) × (r.call_digest ≡ digest) × (r.state ≡ as_str st)

-- A call that is forwarded has an in_flight row of its own.
pub begin-forward_row :
    (s s₁ : OperationStore) (k tool : String) (digest : Bytes) (now : String)
    → begin s k tool digest now ≡ ok (forward, s₁)
    → (r : RawRow) × (find_row k s₁.rows ≡ some r) × IsCall r tool digest in_flight
begin-forward_row s s₁ k tool digest now e =
    let (o, got, answer, rows) = begin-eq-ok s k tool digest now e in after o got answer rows
  where
    after :
        (o : Option OperationRow)
        → get s k ≡ ok o
        → forward ≡ (begin_rows o k tool digest now s.rows).0
        → s₁.rows ≡ (begin_rows o k tool digest now s.rows).1
        → (r : RawRow) × (find_row k s₁.rows ≡ some r) × IsCall r tool digest in_flight
    after none got answer rows = (
      new_row k tool digest now,
      rw (rows, find_row-append, get-eq-none s k got, eq_refl),
      (refl, refl, refl),
    )
    after (some row) got answer rows =
        let (r, found, read) = get-eq-some s k got in
        let here = get-operation_id s k (some row) got refl in
        let hit : (r.operation_id == row.operation_id) ≡ true =
          (eq_iff _ _).1 (find_row-has_id k s.rows found ∙ sym here) in
        let same = begin_rows-call row k tool digest now s.rows answer in
        let copied = to_row-call r read in
        (
          set_outcome in_flight none false now r,
          rw (rows, begin_rows-forward row k tool digest now s.rows answer)
              (find_row-update_where (has_id row.operation_id)
                  (set_outcome in_flight none false now) k s.rows (λ _. refl)
                ∙ rw (found, hit)),
          (sym copied.0 ∙ same.0, sym copied.1 ∙ same.1, refl),
        )

-- The row that settling as done writes.
pub settle_with-done :
    (s s' : OperationStore) (k : String) (result : Option String) (masked : Bool) (now : String)
    (c : Bool) (r : RawRow)
    → find_row k s.rows ≡ some r
    → r.state ≡ as_str in_flight
    → settle_with s k done result masked now ≡ ok (c, s')
    → find_row k s'.rows ≡ some (set_outcome done result (masked && is_some result) now r)
unfolding settle_with
settle_with-done s s' k result masked now c r found state e =
    let hit : settles k r ≡ true = ground (
      arith,
      eq_iff r.operation_id k,
      find_row-has_id k s.rows found,
      eq_iff r.state (as_str in_flight),
    ) in
    let rows : s'.rows
        ≡ update_where (settles k) (set_outcome done result (masked && is_some result) now) s.rows =
      ground arith in
    rw (
      rows,
      find_row-update_where (settles k) (set_outcome done result (masked && is_some result) now) k
          s.rows (λ _. refl),
      found,
      hit,
    )

-- What a `begin` answers for a done row.
pub begin-done :
    (s : OperationStore) (k tool : String) (digest : Bytes) (now : String) (r : RawRow)
    → length r.call_digest ≡ 32
    → IsDone r k s.rows
    → begin s k tool digest now
      ≡ ok (
        (if bytes_eq r.call_digest digest && r.tool == tool
            then replay r.result (is_masked r.result r.result_masked)
            else conflict),
        s,
      )
unfolding begin get to_row
begin-done s k tool digest now r size (found, state) =
    let parsed : parse_state r.state ≡ ok done = ap parse_state state ∙ parse_state-as_str done in
    rw found (ground (arith, parsed, size))

-- A call with a digest of 32 bytes that was forwarded and then settled as done is answered, at
-- every later time, with the result that was stored and its masking flag, whatever calls of the
-- store come between; another call under the same operation id, with another tool or digest, is a
-- conflict. Neither changes the store.
pub begin-replay :
    (s s₁ s₂ : OperationStore) (k tool tool' : String) (digest digest' : Bytes)
    (now now₁ now₂ : String) (result : Option String) (masked c : Bool) (es : List Event)
    → length digest ≡ 32
    → begin s k tool digest now ≡ ok (forward, s₁)
    → settle_with s₁ k done result masked now₁ ≡ ok (c, s₂)
    → begin (run es s₂) k tool' digest' now₂
      ≡ ok (
        (if bytes_eq digest digest' && tool == tool'
            then replay result (masked && is_some result)
            else conflict),
        run es s₂,
      )
begin-replay s s₁ s₂ k tool tool' digest digest' now now₁ now₂ result masked c es size first
      second =
    let (r, found, (same_tool, same_digest, state)) =
      begin-forward_row s s₁ k tool digest now first in
    let r' = set_outcome done result (masked && is_some result) now₁ r in
    let kept =
      run-IsDone es s₂ r' k
        (settle_with-done s₁ s₂ k result masked now₁ c r found state second, refl) in
    let flag : is_masked result (some (masked && is_some result)) ≡ (masked && is_some result) =
      ground arith in
    rw (
      begin-done (run es s₂) k tool' digest' now₂ r' (ap length same_digest ∙ size) kept,
      same_tool,
      same_digest,
      flag,
    )
