-- ===== src/Operations/Called.antt =====
-- The tool and the digest of an operation's row, under the calls of the store.
use mathlib.Core.Path.{subst}
use cloakpipe.Base.{
  String, ◌≡◌, refl, ap, sym, ◌∙◌, Bool, true, false, not, ◌&&◌, ◌||◌, Option, none, some, List, [],
  ◌∷◌, length, Bytes, bytes_eq, ◌==◌, if◌then◌else◌, arith, Bool-cases, inl, inr, eq_iff,
}
use cloakpipe.Base.Results.{ok, Result-cases}
use cloakpipe.Operations.Rows.{
  OperationState, in_flight, done, failed, unknown, not_applied, as_str, RawRow, OperationRow,
  OperationStore, forward, replay, conflict, find_row, update_where, has_id, has_state, set_outcome,
  set_unknown, is_masked, is_some,
}
use cloakpipe.Operations.Store.{
  settles, begin_existing, begin_rows, recover, release_gate, begin, settle_with, reconcile,
  is_settled,
}
use cloakpipe.Operations.Table.{find_row-update_where, find_row-append}
use cloakpipe.Operations.Events.{
  Event, recovered, released, begun, settled, reconciled, apply, run, store_after,
}
use cloakpipe.Operations.Held.{begin-eq-ok}
use cloakpipe.Operations.AtMostOnce.{recover-eq-ok, reconcile-eq-ok}
use cloakpipe.Operations.Done.{run-IsDone}
use cloakpipe.Operations.Keyed.{IsKeyed, is_flying, run-IsKeyed, settle_with-exact}
use cloakpipe.Operations.Replay.{begin-forward_row, begin-done, settle_with-done}

-- The row of an operation is one of a tool and a digest.
abbrev pub HasCall : String → String → Bytes → List RawRow → Type 0
HasCall k tool digest rows =
    (r : RawRow) × (find_row k rows ≡ some r) × (r.tool ≡ tool) × (r.call_digest ≡ digest)

module _ (k tool : String) (digest : Bytes) where
  update_where-HasCall :
      (p : RawRow → Bool) (f : RawRow → RawRow) (rows : List RawRow)
      → ((x : RawRow) → (f x).operation_id ≡ x.operation_id)
      → ((x : RawRow) → (f x).tool ≡ x.tool)
      → ((x : RawRow) → (f x).call_digest ≡ x.call_digest)
      → HasCall k tool digest rows
      → HasCall k tool digest (update_where p f rows)
  update_where-HasCall p f rows id tools digests (r, found, same, bytes) = (
    (if p r then f r else r),
    find_row-update_where p f k rows id ∙ rw found refl,
    ground (arith, tools r),
    ground (arith, digests r),
  )

  begin_existing-HasCall :
      (st : OperationState) (row : OperationRow) (now : String) (rows : List RawRow)
      → HasCall k tool digest rows
      → HasCall k tool digest (begin_existing st row now rows).1
  begin_existing-HasCall done row now rows h = h
  begin_existing-HasCall in_flight row now rows h = h
  begin_existing-HasCall unknown row now rows h = h
  begin_existing-HasCall failed row now rows h =
      update_where-HasCall (has_id row.operation_id) (set_outcome in_flight none false now) rows
        (λ _. refl) (λ _. refl) (λ _. refl) h
  begin_existing-HasCall not_applied row now rows h =
      update_where-HasCall (has_id row.operation_id) (set_outcome in_flight none false now) rows
        (λ _. refl) (λ _. refl) (λ _. refl) h

  begin_rows-HasCall :
      (o : Option OperationRow) (id tool' : String) (digest' : Bytes) (now : String)
      (rows : List RawRow)
      → HasCall k tool digest rows
      → HasCall k tool digest (begin_rows o id tool' digest' now rows).1
  begin_rows-HasCall none id tool' digest' now rows (r, found, same, bytes) =
      (r, rw (find_row-append, found) refl, same, bytes)
  begin_rows-HasCall (some row) id tool' digest' now rows h =
      elim (Bool-cases (not (bytes_eq row.call_digest digest') || not (row.tool == tool'))) [
        | inl other ↦ rw other h
        | inr same ↦ rw same (begin_existing-HasCall row.state row now rows h)
      ]

  apply-HasCall :
      (e : Event) (s : OperationStore)
      → HasCall k tool digest s.rows
      → HasCall k tool digest (apply e s).rows
  unfolding apply release_gate settle_with
  apply-HasCall (recovered lock now) s h = elim (Result-cases (recover s lock now)) [
    | inl ((ids, s'), e) ↦
        rw (e, (recover-eq-ok s lock now e).1)
          (update_where-HasCall (has_state in_flight) (set_unknown now) s.rows (λ _. refl)
            (λ _. refl) (λ _. refl) h)
    | inr (x, e) ↦ rw e h
  ]
  apply-HasCall released s h = h
  apply-HasCall (begun id tool' digest' now) s h =
      elim (Result-cases (begin s id tool' digest' now)) [
        | inl ((b, s'), e) ↦
            let (o, got, answer, rows) = begin-eq-ok s id tool' digest' now e in
            rw (e, rows) (begin_rows-HasCall o id tool' digest' now s.rows h)
        | inr (x, e) ↦ rw e h
      ]
  apply-HasCall (settled id st result masked now) s h = elim (Bool-cases (is_settled st)) [
    | inl e ↦ rw e (
        update_where-HasCall (settles id) (set_outcome st result (masked && is_some result) now)
          s.rows (λ _. refl) (λ _. refl) (λ _. refl) h)
    | inr e ↦ rw e h
  ]
  apply-HasCall (reconciled id outcome force evidence now) s h =
      elim (Result-cases (reconcile s id outcome force evidence now)) [
        | inl (s', e) ↦
            rw (e, (reconcile-eq-ok s id outcome force evidence now e).1.6)
              (update_where-HasCall (has_id id) (set_outcome outcome none false now) s.rows
                (λ _. refl) (λ _. refl) (λ _. refl) h)
        | inr (x, e) ↦ rw e h
      ]

  pub run-HasCall :
      (es : List Event) (s : OperationStore)
      → HasCall k tool digest s.rows
      → HasCall k tool digest (run es s).rows
  unfolding run
  run-HasCall [] s h = h
  run-HasCall (e ∷ es) s h = run-HasCall es (apply e s) (apply-HasCall e s h)

begun_store :
    (s s₁ : OperationStore) (k tool : String) (digest : Bytes) (now : String)
    → begin s k tool digest now ≡ ok (forward, s₁)
    → apply (begun k tool digest now) s ≡ s₁
unfolding apply
begun_store s s₁ k tool digest now e = ap (store_after s) e

-- A call that was forwarded from a table without duplicate ids, settled as done after any calls of
-- the store where the settlement found it in flight, is answered with the stored result after any
-- more.
pub begin-replay_settled :
    (s s₁ s₂ : OperationStore) (k tool : String) (digest : Bytes) (now now₁ now₂ : String)
    (result : Option String) (masked : Bool) (before after : List Event)
    → length digest ≡ 32
    → IsKeyed s.rows
    → begin s k tool digest now ≡ ok (forward, s₁)
    → settle_with (run before s₁) k done result masked now₁ ≡ ok (true, s₂)
    → begin (run after s₂) k tool digest now₂
      ≡ ok (
        (if bytes_eq digest digest && tool == tool
            then replay result (masked && is_some result)
            else conflict),
        run after s₂,
      )
unfolding run
begin-replay_settled s s₁ s₂ k tool digest now now₁ now₂ result masked before after size keyed first
      second =
    let (r₀, found₀, (tool₀, digest₀, _)) = begin-forward_row s s₁ k tool digest now first in
    let keyed' : IsKeyed (run before s₁).rows =
      subst (λ x. IsKeyed (run before x).rows) (begun_store s s₁ k tool digest now first)
        (run-IsKeyed before (apply (begun k tool digest now) s)
          (run-IsKeyed (begun k tool digest now ∷ []) s keyed)) in
    let (r, found, same_tool, same_digest) =
      run-HasCall k tool digest before s₁ (r₀, found₀, tool₀, digest₀) in
    let flying =
      (settle_with-exact (run before s₁) s₂ k k done result masked true now₁ keyed' second).0
      ∙ ap is_flying found in
    let state : r.state ≡ as_str in_flight = (eq_iff r.state (as_str in_flight)).0 (sym flying) in
    let r' = set_outcome done result (masked && is_some result) now₁ r in
    let kept =
      run-IsDone after s₂ r' k (
        settle_with-done (run before s₁) s₂ k result masked now₁ true r found state second,
        refl,
      ) in
    let flag : is_masked result (some (masked && is_some result)) ≡ (masked && is_some result) =
      ground arith in
    rw (
      begin-done (run after s₂) k tool digest now₂ r' (ap length same_digest ∙ size) kept,
      same_tool,
      same_digest,
      flag,
    )
