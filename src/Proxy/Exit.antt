-- ===== src/Proxy/Exit.antt =====
-- `EntryBase`, `finish` and `abandon`: what becomes of the calls that are still in flight when the
-- tool servers are gone, where there is an operations store. An event, a log line and the record of
-- the older ledger are left out, and `release_name`, which only events carry.
use Prim.Native.String.{◌++◌ as push_str}
use cloakpipe.Base.{String, Bool, true, false, Option, none, some, List, [], ◌∷◌, if◌then◌else◌}
use cloakpipe.Base.Results.{Result, ok, err}
use cloakpipe.Base.Text.{is_empty}
use cloakpipe.Json.{Value, null}
use cloakpipe.Operations.Rows.{
  OperationState, unknown, as_str, OperationRow, OperationsError, OperationStore, unwrap_or,
}
use cloakpipe.Operations.Store.{settle, if_taken, get, release_gate}
use cloakpipe.Decisions.Entry
use cloakpipe.Decisions.Entry.{DecisionDraft, new_draft}
use cloakpipe.Proxy.Pending.{InFlight, PendingOps}
use cloakpipe.Proxy.Coordinate.{Services}

pub record EntryBase : Type 0 where
  pub release : String
  pub policy_digest : Option String
  pub mode : Entry.Mode
  pub task_id : Option String
  pub tools_lock : Option String

-- `EntryBase::call`
unfoldable pub call_draft : EntryBase → Option String → DecisionDraft
unfolding new_draft
call_draft b tool = record (new_draft Entry.call "ok") {
  release = some b.release;
  tool = tool;
  policy_digest = b.policy_digest;
  mode = some b.mode;
  task_id = b.task_id;
  tools_lock = b.tools_lock;
}

-- `EntryBase::outcome`
unfoldable pub outcome_draft : EntryBase → InFlight → Entry.Outcome → DecisionDraft
unfolding new_draft is_empty
outcome_draft b op outcome = record (new_draft Entry.outcome_event "ok") {
  release = some b.release;
  tool = if is_empty op.tool then none else some op.tool;
  policy_digest = b.policy_digest;
  mode = some b.mode;
  task_id = b.task_id;
  operation_id = some op.operation_id;
  outcome = some outcome;
  forwarded = true;
  tools_lock = b.tools_lock;
}

-- An error that the agent gets: the request it answers, and the members of its data.
pub record Notice : Type 0 where
  pub request : String
  pub id : Value
  pub reason : String
  pub message : String
  pub operation_id : String
  pub state : Option OperationState

abbrev pub gone_message : String
gone_message = "the tool server went away before answering: the outcome of this call is unknown"

-- What became of an operation: it is unknown now, an operator had settled it, or the store failed.
pub data Swept : Type 0 where
  marked_unknown : Swept
  reconciled_as : OperationState → Swept
  store_failed : Swept

abbrev pub swept_row : Result (Option OperationRow) OperationsError → Swept
swept_row (ok none) = marked_unknown
swept_row (ok (some row)) = reconciled_as row.state
swept_row (err e) = store_failed

unfoldable pub sweep :
    OperationStore
    → String
    → Result (Bool × OperationStore) OperationsError
    → Swept × OperationStore
unfolding get
sweep s id (ok (true, s')) = (marked_unknown, s')
sweep s id (ok (false, s')) = (swept_row (get s' id), s')
sweep s id (err e) = (store_failed, s)

unfoldable pub notice_of : Services → String → String → Swept → Notice
unfolding as_str
notice_of sv request operation_id (reconciled_as st) = record {
  request = request;
  id = unwrap_or (sv.from_text request) null;
  reason = "operation_reconciled";
  message =
      push_str "the tool server went away before answering; an operator reconciled this call as "
        (as_str st);
  operation_id = operation_id;
  state = some st;
}
notice_of sv request operation_id _ = record {
  request = request;
  id = unwrap_or (sv.from_text request) null;
  reason = "operation_unknown";
  message = gone_message;
  operation_id = operation_id;
  state = none;
}

-- The outcome that is recorded, where there is a release to record it for.
unfoldable pub outcome_of_sweep : Option EntryBase → InFlight → Swept → Option DecisionDraft
unfolding outcome_draft
outcome_of_sweep (some b) op marked_unknown = some (outcome_draft b op Entry.unknown)
outcome_of_sweep _ op _ = none

-- `takes` tells for which requests the database takes the write; a poisoned lock is a write that it
-- does not take.
module _ (sv : Services) (base : Option EntryBase) (now : String) (takes : String → Bool) where
  unfoldable pub abandon :
      String → InFlight → OperationStore → Notice × Option DecisionDraft × OperationStore
  unfolding settle sweep notice_of outcome_of_sweep
  abandon request op s =
      let id = op.operation_id in
      let (swept, s') = sweep s id (if_taken (takes request) (settle s id unknown none now)) in
      (notice_of sv request op.operation_id swept, outcome_of_sweep base op swept, s')

  -- The loop of `finish` over the calls that were pending.
  unfoldable pub abandon_all :
      List (String × InFlight)
      → OperationStore
      → List Notice × List (Option DecisionDraft) × OperationStore
  unfolding abandon
  abandon_all [] s = ([], [], s)
  abandon_all ((request, op) ∷ rest) s =
      let (notice, draft, s') = abandon request op s in
      let (notices, drafts, end) = abandon_all rest s' in (notice ∷ notices, draft ∷ drafts, end)

  unfoldable pub finish :
      PendingOps
      → OperationStore
      → List Notice × List (Option DecisionDraft) × PendingOps × OperationStore
  unfolding abandon_all release_gate
  finish p s =
      let (notices, drafts, s') = abandon_all p.by_request s in
      (notices, drafts, record p { by_request = []; closed = true }, release_gate s')
