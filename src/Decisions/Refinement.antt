-- ===== src/Decisions/Refinement.antt =====
-- The two tables against what they promise.
use mathlib.Core.Path.{subst}
use cloakpipe.Base.{
  ℕ, suc, ◌-◌, ◌≡◌, refl, sym, ap, ◌∙◌, inl, inr, String, none, some, List, [], ◌∷◌, ◌++◌, length,
  All, Bytes, ltb, if◌then◌else◌, arith, Bool-cases,
}
use cloakpipe.Base.Results.{Result, ok, err, ◌>>=◌}
use cloakpipe.Ledger.Canonical.{hex_lower}
use cloakpipe.Decisions.Hex.{IsByte, decode_hex_32-hex_lower}
use cloakpipe.Decisions.Entry.{
  Encodings, DecisionDraft, DecisionEntry, entry_hash_of, compute_hash, unhashed, link,
}
use cloakpipe.Decisions.Epoch.{
  EpochHead, epoch_hash_of, compute_head_hash, ExternalReceipt, StoredEpoch,
}
use cloakpipe.Decisions.Table.{
  order_by, IsNumbered, order_by-IsNumbered, last, Matches, Matches-append, Matches-last,
}
use cloakpipe.Decisions.Store.{
  StoreError, GateKey, Texts, DecisionRow, EpochRow, LedgerStore, seq_and_hash, next_entry,
  tail_from, sign_hash, append_after, append_decision, next_epoch, epoch_row, seal_tail, seal_epoch,
}
use cloakpipe.Decisions.Steps.{append, seal, step}
use cloakpipe.Decisions.Spec.{
  Spec, hash_before, covered_by, epoch_before, chained, next_head, fresh_epoch, spec_step,
}

-- What `serde_json` wrote it reads back, SHA-256 gives 32 bytes, and `hex::encode` prints them in
-- lower case.
pub record Sound {T : Type 0} (e : Encodings) (t : Texts T) : Type 0 where
  pub reads_entry : (x : DecisionEntry) → t.read_entry (t.entry_text x) ≡ some x
  pub reads_head : (h : EpochHead) → t.read_head (t.head_text h) ≡ some h
  pub reads_anchors : (rs : List ExternalReceipt) → t.read_anchors (t.anchors_text rs) ≡ some rs
  pub reads_none : t.read_anchors t.no_anchors ≡ some []
  pub encodes : (b : Bytes) → e.hex_encode b ≡ hex_lower b
  pub digest_size : (b : Bytes) → length (e.sha256 b) ≡ 32
  pub digest_bytes : (b : Bytes) → All IsByte (e.sha256 b)

module _ {T : Type 0} (e : Encodings) (key : GateKey) (t : Texts T) (sound : Sound e t) where
  pub record EntryRow (n : ℕ) (r : DecisionRow T) (x : DecisionEntry) : Type 0 where
    pub row_seq : r.seq ≡ n
    pub row_hash : r.entry_hash ≡ x.entry_hash
    pub row_text : r.entry_json ≡ t.entry_text x

  pub record HeadRow (n : ℕ) (r : EpochRow T) (s : StoredEpoch) : Type 0 where
    pub row_epoch : r.epoch ≡ n
    pub row_last : r.last_seq ≡ s.head.last_seq
    pub row_head : r.epoch_json ≡ t.head_text s.head
    pub row_anchors : t.read_anchors r.anchors_json ≡ some s.anchors
    pub row_error : r.last_error ≡ s.last_error

  pub record Implements (s : LedgerStore T) (p : Spec) : Type 0 where
    pub entries : Matches EntryRow 0 s.decisions p.entries
    pub epochs : Matches HeadRow 0 s.epochs p.sealed

  -- The results of one step.
  abbrev pub Related : Result (LedgerStore T) StoreError → Result Spec StoreError → Type 0
  Related (ok s) (ok p) = Implements s p
  Related (ok s) (err y) = ⊥
  Related (err x) (ok p) = ⊥
  Related (err x) (err y) = x ≡ y

  abbrev kept :
      {A : Type 0} → Result (A × LedgerStore T) StoreError → Result (LedgerStore T) StoreError
  kept r = r >>= λ x. ok x.1

  EntryRow-IsNumbered :
      (n : ℕ) (rs : List (DecisionRow T)) (xs : List DecisionEntry)
      → Matches EntryRow n rs xs
      → IsNumbered (λ (r : DecisionRow T). r.seq) n rs
  EntryRow-IsNumbered n [] [] h = tt
  EntryRow-IsNumbered n [] (x ∷ xs) h = absurd h
  EntryRow-IsNumbered n (r ∷ rs) [] h = absurd h
  EntryRow-IsNumbered n (r ∷ rs) (x ∷ xs) (here, there) =
      (here.row_seq, EntryRow-IsNumbered (suc n) rs xs there)

  HeadRow-IsNumbered :
      (n : ℕ) (rs : List (EpochRow T)) (xs : List StoredEpoch)
      → Matches HeadRow n rs xs
      → IsNumbered (λ (r : EpochRow T). r.epoch) n rs
  HeadRow-IsNumbered n [] [] h = tt
  HeadRow-IsNumbered n [] (x ∷ xs) h = absurd h
  HeadRow-IsNumbered n (r ∷ rs) [] h = absurd h
  HeadRow-IsNumbered n (r ∷ rs) (x ∷ xs) (here, there) =
      (here.row_epoch, HeadRow-IsNumbered (suc n) rs xs there)

  -- The signature over a digest printed as digits.
  sign_hash-digest :
      (b : Bytes)
      → sign_hash e key t (e.hex_encode (e.sha256 b)) ≡ ok (hex_lower (key.sign (e.sha256 b)))
  unfolding sign_hash
  sign_hash-digest b =
      rw
        (
          sound.encodes (e.sha256 b),
          decode_hex_32-hex_lower (e.sha256 b) (sound.digest_size b) (sound.digest_bytes b),
        )
        refl

  next_entry-Matches :
      (rs : List (DecisionRow T)) (xs : List DecisionEntry)
      → Matches EntryRow 0 rs xs
      → next_entry (seq_and_hash (last rs)) ≡ (length xs, hash_before (last xs))
  next_entry-Matches rs xs h = elim (Matches-last EntryRow 0 rs xs h) [
    | inl (no_row, no_value) ↦ rw (no_row, no_value) refl
    | inr l ↦ rw (l.last_row, l.last_value) (ground (arith, l.placed, l.related))
  ]

  pub sorted_entries :
      (rs : List (DecisionRow T)) (xs : List DecisionEntry)
      → Matches EntryRow 0 rs xs
      → order_by (λ (r : DecisionRow T). r.seq) rs ≡ rs
  sorted_entries rs xs h =
      order_by-IsNumbered (λ (r : DecisionRow T). r.seq) 0 rs (EntryRow-IsNumbered 0 rs xs h)

  pub sorted_epochs :
      (rs : List (EpochRow T)) (xs : List StoredEpoch)
      → Matches HeadRow 0 rs xs
      → order_by (λ (r : EpochRow T). r.epoch) rs ≡ rs
  sorted_epochs rs xs h =
      order_by-IsNumbered (λ (r : EpochRow T). r.epoch) 0 rs (HeadRow-IsNumbered 0 rs xs h)

  abbrev entry_row : DecisionEntry → ℕ → DecisionRow T
  entry_row x n = record {
    seq = n;
    entry_hash = x.entry_hash;
    prev_hash = x.prev_hash;
    entry_json = t.entry_text x;
  }

  append_after-chained :
      (now : ℕ) (draft : DecisionDraft) (s : LedgerStore T) (xs : List DecisionEntry)
      → let x = chained e key now draft xs in
        append_after e key t now draft s (length xs, hash_before (last xs))
        ≡ ok (x, record s { decisions = s.decisions ++ entry_row x (length xs) ∷ [] })
  unfolding append_after link compute_hash entry_hash_of unhashed
  append_after-chained now draft s xs = rw (sign_hash-digest _) refl

  step-append :
      (now : ℕ) (draft : DecisionDraft) (s : LedgerStore T) (p : Spec)
      → Implements s p
      → let x = chained e key now draft p.entries in
        step e key t (append now draft) s
        ≡ ok (record s { decisions = s.decisions ++ entry_row x (length p.entries) ∷ [] })
  unfolding step append_decision
  step-append now draft s p h =
      ap (λ rows. kept (append_after e key t now draft s (next_entry (seq_and_hash (last rows)))))
        (sorted_entries s.decisions p.entries h.entries)
      ∙ ap (λ x. kept (append_after e key t now draft s x))
          (next_entry-Matches s.decisions p.entries h.entries)
      ∙ ap kept (append_after-chained now draft s p.entries)

  pub append-Implements :
      (now : ℕ) (draft : DecisionDraft) (s : LedgerStore T) (p : Spec)
      → Implements s p
      → Related (step e key t (append now draft) s) (spec_step e key (append now draft) p)
  unfolding spec_step
  append-Implements now draft s p h =
      let x = chained e key now draft p.entries in
      let fits : EntryRow (length p.entries) (entry_row x (length p.entries)) x = record {
        row_seq = refl;
        row_hash = refl;
        row_text = refl;
      } in
      subst (λ r. Related r (spec_step e key (append now draft) p))
        (sym (step-append now draft s p h))
        (record {
          entries =
              Matches-append EntryRow 0 s.decisions p.entries _ x (length p.entries) h.entries
                (omega arith) fits;
          epochs = h.epochs;
        })

  next_epoch-Matches :
      (rs : List (EpochRow T)) (hs : List StoredEpoch)
      → Matches HeadRow 0 rs hs
      → next_epoch e key t (last rs) ≡ ok (length hs, covered_by (last hs), epoch_before (last hs))
  next_epoch-Matches rs hs h = elim (Matches-last HeadRow 0 rs hs h) [
    | inl (no_row, no_value) ↦ rw (no_row, no_value) refl
    | inr l ↦
        rw (l.last_row, l.last_value)
          (rw (l.related.row_head, sound.reads_head l.value.head)
            (ground (arith, l.placed, l.related)))
  ]

  -- The number, the first sequence number and the previous hash of the next epoch.
  abbrev next_of : Spec → ℕ × ℕ × String
  next_of p = (length p.sealed, covered_by (last p.sealed), epoch_before (last p.sealed))

  -- The row that `seal_epoch` adds.
  abbrev sealed_row : ℕ → Spec → EpochRow T
  sealed_row now p = epoch_row e key t (next_head e key now p.entries p.sealed)

  seal_tail-next_head :
      (now : ℕ) (s : LedgerStore T) (p : Spec)
      → seal_tail e key t now
          (length p.sealed, covered_by (last p.sealed), epoch_before (last p.sealed))
          s
          (some (length p.entries - 1, hash_before (last p.entries)))
        ≡ ok (
          some (next_head e key now p.entries p.sealed),
          record s { epochs = s.epochs ++ sealed_row now p ∷ [] },
        )
  unfolding seal_tail compute_head_hash epoch_hash_of
  seal_tail-next_head now s p = rw (sign_hash-digest _) refl

  tail_from-Matches :
      (first : ℕ) (rs : List (DecisionRow T)) (xs : List DecisionEntry)
      → Matches EntryRow 0 rs xs
      → tail_from first (seq_and_hash (last rs))
        ≡ (if ltb first (length xs) then some (length xs - 1, hash_before (last xs)) else none)
  tail_from-Matches first rs xs h = elim (Matches-last EntryRow 0 rs xs h) [
    | inl (no_row, no_value) ↦ rw (no_row, no_value) (ground arith)
    | inr l ↦ rw (l.last_row, l.last_value) (ground (arith, l.placed, l.related))
  ]

  -- What `seal_epoch` makes of the newest epoch and the newest entry.
  abbrev seal_from :
      ℕ
      → LedgerStore T
      → List (EpochRow T)
      → List (DecisionRow T)
      → Result (LedgerStore T) StoreError
  seal_from now s epochs decisions = kept (
      next_epoch e key t (last epochs) >>= λ next.
      seal_tail e key t now next s (tail_from next.1 (seq_and_hash (last decisions))))

  step-seal :
      (now : ℕ) (s : LedgerStore T) (p : Spec)
      → Implements s p
      → step e key t (seal now) s
        ≡ kept (
            seal_tail e key t now (next_of p) s (
              if ltb (covered_by (last p.sealed)) (length p.entries)
              then some (length p.entries - 1, hash_before (last p.entries))
              else none))
  unfolding step seal_epoch
  step-seal now s p h =
      ap (λ rows. seal_from now s rows (order_by (λ (r : DecisionRow T). r.seq) s.decisions))
        (sorted_epochs s.epochs p.sealed h.epochs)
      ∙ ap (seal_from now s s.epochs) (sorted_entries s.decisions p.entries h.entries)
      ∙ ap
          (λ next. kept (
            next >>= λ n.
            seal_tail e key t now n s (tail_from n.1 (seq_and_hash (last s.decisions)))))
          (next_epoch-Matches s.epochs p.sealed h.epochs)
      ∙ ap (λ tail. kept (seal_tail e key t now (next_of p) s tail))
          (tail_from-Matches (covered_by (last p.sealed)) s.decisions p.entries h.entries)

  pub seal-Implements :
      (now : ℕ) (s : LedgerStore T) (p : Spec)
      → Implements s p
      → Related (step e key t (seal now) s) (spec_step e key (seal now) p)
  unfolding spec_step seal_tail
  seal-Implements now s p h =
      let row = sealed_row now p in
      let x = fresh_epoch e key (next_head e key now p.entries p.sealed) in
      let fits : HeadRow (length p.sealed) row x = record {
        row_epoch = refl;
        row_last = refl;
        row_head = refl;
        row_anchors = sound.reads_none;
        row_error = refl;
      } in
      subst (λ r. Related r (spec_step e key (seal now) p)) (sym (step-seal now s p h))
        (elim (Bool-cases (ltb (covered_by (last p.sealed)) (length p.entries))) [
          | inl more ↦
              rw (more, seal_tail-next_head now s p)
                (record {
                  entries = h.entries;
                  epochs =
                      Matches-append HeadRow 0 s.epochs p.sealed row x (length p.sealed) h.epochs
                        (omega arith) fits;
                })
          | inr nothing ↦ rw nothing h
        ])
