-- ===== src/Proxy/Swept.antt =====
-- The calls in flight and the store after the exit sweep.
use cloakpipe.Base.{
  ◌≡◌, refl, sym, ap, ◌∙◌, inl, inr, String, Bool, true, false, Option, none, List, [], ◌∷◌, map,
  any, ◌&&◌, if◌then◌else◌, arith, Bool-cases,
}
use cloakpipe.Base.Results.{ok}
use cloakpipe.Operations.Rows.{
  in_flight, unknown, as_str, RawRow, OperationStore, update_where, has_id, has_state, set_outcome,
}
use cloakpipe.Operations.Store.{settles, settle, settle_with, if_taken, release_gate}
use cloakpipe.Proxy.Pending.{InFlight, PendingOps}
use cloakpipe.Proxy.Coordinate.{Services}
use cloakpipe.Proxy.Exit.{
  marked_unknown, reconciled_as, store_failed, EntryBase, Notice, Swept, sweep, notice_of, abandon,
  abandon_all, finish,
}

-- The operations of the calls whose write the database takes.
abbrev pub written_ids : (String → Bool) → List (String × InFlight) → List String
written_ids takes [] = []
written_ids takes ((request, op) ∷ rest) =
    let ids = written_ids takes rest in if takes request then op.operation_id ∷ ids else ids

-- A row as the sweep of operations leaves it: unknown, where it is in flight and one of them.
abbrev pub swept_row_of : List String → String → RawRow → RawRow
swept_row_of ids now r =
    if has_state in_flight r && any (λ id. has_id id r) ids
    then set_outcome unknown none false now r
    else r

module _ (now : String) where
  abbrev settled_rows : String → List RawRow → List RawRow
  settled_rows id rows = update_where (settles id) (set_outcome unknown none false now) rows

  -- One more operation swept before the others.
  swept_row_of-settled :
      (id : String) (ids : List String) (rows : List RawRow)
      → map (swept_row_of ids now) (settled_rows id rows) ≡ map (swept_row_of (id ∷ ids) now) rows
  unfolding update_where as_str
  swept_row_of-settled id ids [] = refl
  swept_row_of-settled id ids (r ∷ rs) = ground (arith, swept_row_of-settled id ids rs)

  swept_row_of-nil : (rows : List RawRow) → map (swept_row_of [] now) rows ≡ rows
  swept_row_of-nil [] = refl
  swept_row_of-nil (r ∷ rs) = ground (arith, swept_row_of-nil rs)

sweep-store :
    (s s' : OperationStore) (id : String) (changed : Bool) → (sweep s id (ok (changed, s'))).1 ≡ s'
unfolding sweep
sweep-store s s' id true = refl
sweep-store s s' id false = refl

module _ (sv : Services) (base : Option EntryBase) (now : String) (takes : String → Bool) where
  abandon-taken :
      (request : String) (op : InFlight) (s : OperationStore)
      → takes request ≡ true
      → (abandon sv base now takes request op s).2.rows ≡ settled_rows now op.operation_id s.rows
  unfolding abandon settle settle_with
  abandon-taken request op s taken =
      ap
        (λ b.
          (sweep s op.operation_id (if_taken b (settle s op.operation_id unknown none now))).1.rows)
        taken
      ∙ ap (λ (x : OperationStore). x.rows) (sweep-store s _ op.operation_id _)

  abandon-refused :
      (request : String) (op : InFlight) (s : OperationStore)
      → takes request ≡ false
      → (abandon sv base now takes request op s).2 ≡ s
  unfolding abandon sweep
  abandon-refused request op s refused =
      ap (λ b. (sweep s op.operation_id (if_taken b (settle s op.operation_id unknown none now))).1)
        refused

  abandon_all-rows :
      (pending : List (String × InFlight)) (s : OperationStore)
      → (abandon_all sv base now takes pending s).2.rows
        ≡ map (swept_row_of (written_ids takes pending) now) s.rows
  unfolding abandon_all
  abandon_all-rows [] s = sym (swept_row_of-nil now s.rows)
  abandon_all-rows ((request, op) ∷ rest) s =
      let s' = (abandon sv base now takes request op s).2 in
      let ids = written_ids takes rest in
      abandon_all-rows rest s' ∙ elim (Bool-cases (takes request)) [
        | inl taken ↦
            ap (map (swept_row_of ids now)) (abandon-taken request op s taken)
            ∙ swept_row_of-settled now op.operation_id ids s.rows
            ∙ ap (λ b. map (swept_row_of (if b then op.operation_id ∷ ids else ids) now) s.rows)
                (sym taken)
        | inr refused ↦
            ap (λ (x : OperationStore). map (swept_row_of ids now) x.rows)
              (abandon-refused request op s refused)
            ∙ ap (λ b. map (swept_row_of (if b then op.operation_id ∷ ids else ids) now) s.rows)
                (sym refused)
      ]

  -- The request and the operation that a notice is about.
  abbrev pub about : Notice → String × String
  about n = (n.request, n.operation_id)

  notice_of-about :
      (request id : String) (w : Swept) → about (notice_of sv request id w) ≡ (request, id)
  unfolding notice_of
  notice_of-about request id marked_unknown = refl
  notice_of-about request id (reconciled_as st) = refl
  notice_of-about request id store_failed = refl

  abandon_all-about :
      (pending : List (String × InFlight)) (s : OperationStore)
      → map about (abandon_all sv base now takes pending s).0
        ≡ map (λ (x : String × InFlight). (x.0, x.1.operation_id)) pending
  unfolding abandon_all abandon
  abandon_all-about [] s = refl
  abandon_all-about ((request, op) ∷ rest) s =
      let s' = (abandon sv base now takes request op s).2 in
      rw (notice_of-about request op.operation_id _, abandon_all-about rest s') refl

  -- The exit sweep answers every pending call once, in order, with its operation id; it leaves no
  -- call pending, lets no more in and gives the gate lock up. It marks as unknown exactly the rows
  -- that are in flight for a pending call whose write the database takes; every other row, that of
  -- a call whose write fails included, is as it was.
  pub finish-exact :
      (p : PendingOps) (s : OperationStore)
      → let (notices, drafts, p', s') = finish sv base now takes p s in
        (map about notices ≡ map (λ (x : String × InFlight). (x.0, x.1.operation_id)) p.by_request)
        × (p'.by_request ≡ [])
        × (p'.closed ≡ true)
        × (s'.rows ≡ map (swept_row_of (written_ids takes p.by_request) now) s.rows)
        × (s'.gate_lock ≡ false)
  unfolding finish release_gate
  finish-exact p s =
      (abandon_all-about p.by_request s, refl, refl, abandon_all-rows p.by_request s, refl)
