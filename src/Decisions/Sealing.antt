-- ===== src/Decisions/Sealing.antt =====
-- The epochs of the tables after any operations: which decisions they cover.
use cloakpipe.Base.{
  ℕ, suc, ◌-◌, ◌≤◌, ◌≡◌, refl, sym, ap, ◌∙◌, inl, inr, String, Option, List, [], ◌∷◌, ◌++◌, length,
  ltb, if◌then◌else◌, arith, Bool-cases, Option-cases,
}
use cloakpipe.Base.Results.{ok, Result-cases}
use cloakpipe.Decisions.Entry.{Encodings, DecisionEntry}
use cloakpipe.Decisions.Epoch.{epoch_genesis, StoredEpoch}
use cloakpipe.Decisions.Table.{last, max_by, max_with, Matches, Matches-length, last-append}
use cloakpipe.Decisions.Store.{
  GateKey, Texts, EpochRow, LedgerStore, after_last, next_unsealed_seq, stored_epochs,
}
use cloakpipe.Decisions.Steps.{Operation, seal, step, run, empty_store}
use cloakpipe.Decisions.Spec.{
  Spec, covered_by, next_head, fresh_epoch, spec_step, spec_run, empty_spec,
}
use cloakpipe.Decisions.Refinement.{Sound, EntryRow, HeadRow, Implements, seal-Implements}
use cloakpipe.Decisions.Promise.{run-Implements, run-spec_run}
use cloakpipe.Decisions.Tiles.{
  covering, end_seq, Tiles, end_seq-covered_by, covering-Tiles, end_seq-Tiles, IsTiled,
  spec_step-IsTiled, spec_run-IsTiled,
}

abbrev last_seqs : List StoredEpoch → Option ℕ
last_seqs ss = max_by (λ (s : StoredEpoch). s.head.last_seq) ss

-- The largest end of a range is that of the last epoch.
max_by-Tiles :
    (xs : List DecisionEntry) (m first : ℕ) (prev : String) (ss : List StoredEpoch)
    → Tiles xs m first prev ss
    → after_last (last_seqs ss) ≡ end_seq 0 ss
unfolding max_by
max_by-Tiles xs m first prev [] h = refl
max_by-Tiles xs m first prev (s ∷ []) (here, there) = refl
max_by-Tiles xs m first prev (s ∷ y ∷ ys) (here, there) =
    let rest = max_by-Tiles xs (suc m) (suc s.head.last_seq) s.head.epoch_hash (y ∷ ys) there in
    let (above, _) =
      covering-Tiles xs (suc m) (suc s.head.last_seq) s.head.epoch_hash (y ∷ ys) 0 there in
    elim (Option-cases (last_seqs (y ∷ ys))) [
      | inl nil ↦ absurd (omega (arith, above, sym rest ∙ ap after_last nil))
      | inr (n, found) ↦
          let end = sym (ap after_last found) ∙ rest in
          ap (λ o. after_last (max_with s.head.last_seq o)) found ∙ ground (arith, above, end)
    ]

module _ {T : Type 0} (e : Encodings) (key : GateKey) (t : Texts T) (sound : Sound e t) where
  max_by-Matches :
      (n : ℕ) (rs : List (EpochRow T)) (ss : List StoredEpoch)
      → Matches (HeadRow e key t sound) n rs ss
      → max_by (λ (r : EpochRow T). r.last_seq) rs ≡ last_seqs ss
  unfolding max_by
  max_by-Matches n [] [] h = refl
  max_by-Matches n [] (x ∷ xs) h = absurd h
  max_by-Matches n (r ∷ rs) [] h = absurd h
  max_by-Matches n (r ∷ rs) (x ∷ xs) (here, there) =
      rw (here.row_last, max_by-Matches (suc n) rs xs there) refl

  next_unsealed_seq-Implements :
      (s : LedgerStore T) (p : Spec)
      → Implements e key t sound s p
      → IsTiled p
      → next_unsealed_seq s ≡ end_seq 0 p.sealed
  unfolding next_unsealed_seq
  next_unsealed_seq-Implements s p h tiled =
      ap after_last (max_by-Matches 0 s.epochs p.sealed h.epochs)
      ∙ max_by-Tiles p.entries 0 0 epoch_genesis p.sealed tiled

  -- Whatever appends, seals and additions of receipts are made, from empty tables on: the epochs
  -- read back; a decision with a sequence number below `next_unsealed_seq` is in exactly one of
  -- them, and one at or above it in none; and `next_unsealed_seq` is at most the number of
  -- decisions.
  pub covering-run :
      (os : List Operation) (i : ℕ)
      → let s = (run e key t os empty_store).1 in
        (ss : List StoredEpoch) × (stored_epochs e key t s ≡ ok ss)
        × (covering i ss ≡ (if ltb i (next_unsealed_seq s) then 1 else 0))
        × (next_unsealed_seq s ≤ length s.decisions)
  covering-run os i =
      let s = (run e key t os empty_store).1 in
      let p = (spec_run e key os empty_spec).1 in
      let h = run-Implements e key t sound os in
      let tiled = spec_run-IsTiled e key os empty_spec tt in
      let next = next_unsealed_seq-Implements s p h tiled in
      let size = Matches-length (EntryRow e key t sound) 0 s.decisions p.entries h.entries in
      let (_, counted) = covering-Tiles p.entries 0 0 epoch_genesis p.sealed i tiled in
      (
        p.sealed,
        (run-spec_run e key t sound os).2,
        ground (arith, counted, next),
        omega (
          arith,
          next,
          size,
          end_seq-Tiles p.entries 0 0 epoch_genesis p.sealed tiled (omega arith),
        ),
      )

  -- The specification's seal: every entry is covered, and the entries stay.
  spec_step-seal :
      (now : ℕ) (p : Spec)
      → IsTiled p
      → (p' : Spec) × (spec_step e key (seal now) p ≡ ok p')
        × (p'.entries ≡ p.entries)
        × (end_seq 0 p'.sealed ≡ length p.entries)
  unfolding spec_step
  spec_step-seal now p tiled =
      let end = end_seq-covered_by p.sealed in
      elim (Bool-cases (ltb (covered_by (last p.sealed)) (length p.entries))) [
        | inl more ↦
            let x = fresh_epoch e key (next_head e key now p.entries p.sealed) in
            let whole : suc (length p.entries - 1) ≡ length p.entries = ground arith in
            (
              record p { sealed = p.sealed ++ x ∷ [] },
              rw more refl,
              refl,
              end_seq-covered_by (p.sealed ++ x ∷ [])
                  ∙ ap covered_by (last-append p.sealed x)
                  ∙ whole,
            )
        | inr nothing ↦
            let within = end_seq-Tiles p.entries 0 0 epoch_genesis p.sealed tiled (omega arith) in
            (p, rw nothing refl, refl, ground (arith, end, within))
      ]

  -- Whatever appends, seals and additions of receipts were made, from empty tables on, sealing then
  -- succeeds, at any time; the decisions stay as many as they were, and `next_unsealed_seq` is their
  -- number.
  pub step-seal-next_unsealed_seq :
      (os : List Operation) (now : ℕ)
      → let s = (run e key t os empty_store).1 in
        (s' : LedgerStore T) × (step e key t (seal now) s ≡ ok s')
        × (length s'.decisions ≡ length s.decisions)
        × (next_unsealed_seq s' ≡ length s.decisions)
  step-seal-next_unsealed_seq os now =
      let s = (run e key t os empty_store).1 in
      let p = (spec_run e key os empty_spec).1 in
      let h = run-Implements e key t sound os in
      let tiled = spec_run-IsTiled e key os empty_spec tt in
      let size = Matches-length (EntryRow e key t sound) 0 s.decisions p.entries h.entries in
      let (p', promised, same, end) = spec_step-seal now p tiled in
      let related = rw promised at (seal-Implements e key t sound now s p h) in
      elim (Result-cases (step e key t (seal now) s)) [
        | inl (s', did) ↦
            let h' : Implements e key t sound s' p' = rw did at related in
            let size' =
              Matches-length (EntryRow e key t sound) 0 s'.decisions p'.entries h'.entries in
            let next =
              next_unsealed_seq-Implements s' p' h'
                (spec_step-IsTiled e key (seal now) p p' tiled promised) in
            (s', did, size' ∙ ap length same ∙ sym size, next ∙ end ∙ sym size)
        | inr (x, failed) ↦ absurd (rw failed at related)
      ]
