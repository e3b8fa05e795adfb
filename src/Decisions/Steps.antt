-- ===== src/Decisions/Steps.antt =====
-- The operations that change the two tables, one after the other. An operation that fails leaves
-- the tables as they were, since its transaction is not committed.
use cloakpipe.Base.{ℕ, String, Option, List, [], ◌∷◌}
use cloakpipe.Base.Results.{Result, ok, err, ◌>>=◌}
use cloakpipe.Decisions.Entry.{Encodings, DecisionDraft}
use cloakpipe.Decisions.Epoch.{ExternalReceipt}
use cloakpipe.Decisions.Store.{
  StoreError, GateKey, Texts, LedgerStore, append_decision, seal_epoch, add_epoch_anchors,
}

pub data Operation : Type 0 where
  append : ℕ → DecisionDraft → Operation
  seal : ℕ → Operation
  anchor : ℕ → List ExternalReceipt → Option String → Operation

module _ {T : Type 0} (e : Encodings) (key : GateKey) (t : Texts T) where
  unfoldable pub step : Operation → LedgerStore T → Result (LedgerStore T) StoreError
  unfolding append_decision seal_epoch add_epoch_anchors
  step (append now draft) s = do (_, s') ← append_decision e key t now draft s; ok s'
  step (seal now) s = do (_, s') ← seal_epoch e key t now s; ok s'
  step (anchor n receipts error) s = add_epoch_anchors e key t n receipts error s

  -- The errors on the way, and the tables in the end.
  unfoldable pub run : List Operation → LedgerStore T → List StoreError × LedgerStore T
  unfolding step
  run [] s = ([], s)
  run (o ∷ os) s = elim (step o s) [
    | ok s' ↦ run os s'
    | err x ↦ let (errors, end) = run os s in (x ∷ errors, end)
  ]

abbrev pub empty_store : {T : Type 0} → LedgerStore T
empty_store = record { decisions = []; epochs = [] }
