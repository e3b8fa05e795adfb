-- ===== src/Decisions/Promise.antt =====
-- Any operations on the two tables, from empty ones: what is read back from them.
use cloakpipe.Base.{ℕ, suc, ◌≡◌, refl, ap, ◌∙◌, inl, inr, List, [], ◌∷◌, filter, leb, arith}
use cloakpipe.Base.Results.{ok, Result-cases}
use cloakpipe.Decisions.Entry.{Encodings, DecisionEntry}
use cloakpipe.Decisions.Epoch.{StoredEpoch}
use cloakpipe.Decisions.Table.{Matches}
use cloakpipe.Decisions.Store.{
  StoreError, GateKey, Texts, DecisionRow, EpochRow, LedgerStore, decisions_by_seq, read_entries,
  decisions_from, read_epochs, stored_epochs,
}
use cloakpipe.Decisions.Steps.{Operation, append, seal, anchor, step, run, empty_store}
use cloakpipe.Decisions.Spec.{Spec, spec_step, spec_run, empty_spec}
use cloakpipe.Decisions.Refinement.{
  Sound, EntryRow, HeadRow, Implements, Related, append-Implements, seal-Implements, sorted_entries,
  sorted_epochs,
}
use cloakpipe.Decisions.Anchoring.{anchor-Implements}

module _ {T : Type 0} (e : Encodings) (key : GateKey) (t : Texts T) (sound : Sound e t) where
  step-Implements :
      (o : Operation) (s : LedgerStore T) (p : Spec)
      → Implements e key t sound s p
      → Related e key t sound (step e key t o s) (spec_step e key o p)
  step-Implements (append now draft) s p h = append-Implements e key t sound now draft s p h
  step-Implements (seal now) s p h = seal-Implements e key t sound now s p h
  step-Implements (anchor n receipts error) s p h =
      anchor-Implements e key t sound n receipts error s p h

  record Agrees (r : List StoreError × LedgerStore T) (q : List StoreError × Spec) : Type 0 where
    errors : r.0 ≡ q.0
    states : Implements e key t sound r.1 q.1

  run-Agrees :
      (os : List Operation) (s : LedgerStore T) (p : Spec)
      → Implements e key t sound s p
      → Agrees (run e key t os s) (spec_run e key os p)
  unfolding run spec_run
  run-Agrees [] s p h = record { errors = refl; states = h }
  run-Agrees (o ∷ os) s p h =
      let related = step-Implements o s p h in
      elim (Result-cases (step e key t o s)) [
        | inl (s', did) ↦ elim (Result-cases (spec_step e key o p)) [
          | inl (p', promised) ↦
              rw (run, spec_run, did, promised)
                (run-Agrees os s' p' (rw (did, promised) at related))
          | inr (y, refused) ↦ absurd (rw (did, refused) at related)
        ]
        | inr (x, failed) ↦ elim (Result-cases (spec_step e key o p)) [
          | inl (p', promised) ↦ absurd (rw (failed, promised) at related)
          | inr (y, refused) ↦
              let same : x ≡ y = rw (failed, refused) at related in
              let rest = run-Agrees os s p h in
              rw (run, spec_run, failed, refused)
                (record { errors = rw (same, rest.errors) refl; states = rest.states })
        ]
      ]

  read_entries-Matches :
      (n : ℕ) (rs : List (DecisionRow T)) (xs : List DecisionEntry)
      → Matches (EntryRow e key t sound) n rs xs
      → read_entries e key t rs ≡ ok xs
  unfolding read_entries
  read_entries-Matches n [] [] h = refl
  read_entries-Matches n [] (x ∷ xs) h = absurd h
  read_entries-Matches n (r ∷ rs) [] h = absurd h
  read_entries-Matches n (r ∷ rs) (x ∷ xs) (here, there) =
      rw (here.row_text, sound.reads_entry x, read_entries-Matches (suc n) rs xs there) refl

  read_epochs-Matches :
      (n : ℕ) (rs : List (EpochRow T)) (hs : List StoredEpoch)
      → Matches (HeadRow e key t sound) n rs hs
      → read_epochs e key t rs ≡ ok hs
  unfolding read_epochs
  read_epochs-Matches n [] [] h = refl
  read_epochs-Matches n [] (x ∷ xs) h = absurd h
  read_epochs-Matches n (r ∷ rs) [] h = absurd h
  read_epochs-Matches n (r ∷ rs) (x ∷ xs) (here, there) =
      rw
        (
          here.row_head,
          sound.reads_head x.head,
          here.row_anchors,
          here.row_error,
          read_epochs-Matches (suc n) rs xs there,
        )
        refl

  filter_all : (rs : List (DecisionRow T)) → filter (λ (r : DecisionRow T). leb 0 r.seq) rs ≡ rs
  filter_all [] = refl
  filter_all (r ∷ rs) = ground (arith, filter_all rs)

  pub run-Implements :
      (os : List Operation)
      → Implements e key t sound (run e key t os empty_store).1 (spec_run e key os empty_spec).1
  run-Implements os =
      (run-Agrees os empty_store empty_spec (record { entries = tt; epochs = tt })).states

  -- Whatever appends, seals and additions of receipts are made, from empty tables on, where
  -- `serde_json` reads back what it wrote and a digest is 32 bytes: the errors are those of the
  -- specification, so that only a receipt for an epoch that does not exist is refused; the table of
  -- decisions reads back as the specification's entries and the table of epochs as its epochs.
  pub run-spec_run :
      (os : List Operation)
      → ((run e key t os empty_store).0 ≡ (spec_run e key os empty_spec).0)
        × (decisions_from e key t 0 (run e key t os empty_store).1
            ≡ ok (spec_run e key os empty_spec).1.entries)
        × (stored_epochs e key t (run e key t os empty_store).1
            ≡ ok (spec_run e key os empty_spec).1.sealed)
  unfolding decisions_from stored_epochs
  run-spec_run os =
      let agrees = run-Agrees os empty_store empty_spec (record { entries = tt; epochs = tt }) in
      let s = (run e key t os empty_store).1 in
      let p = (spec_run e key os empty_spec).1 in
      (
        agrees.errors,
        ap (λ rows. read_entries e key t (decisions_by_seq rows)) (filter_all s.decisions)
            ∙ ap (read_entries e key t)
                (sorted_entries e key t sound s.decisions p.entries agrees.states.entries)
            ∙ read_entries-Matches 0 s.decisions p.entries agrees.states.entries,
        ap (read_epochs e key t)
              (sorted_epochs e key t sound s.epochs p.sealed agrees.states.epochs)
            ∙ read_epochs-Matches 0 s.epochs p.sealed agrees.states.epochs,
      )
