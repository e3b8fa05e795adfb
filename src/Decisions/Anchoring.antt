-- ===== src/Decisions/Anchoring.antt =====
-- Adding receipts to an epoch, against the list of epochs.
use cloakpipe.Base.{
  ℕ, suc, ◌+◌, ◌≤◌, ◌<◌, ◌≡◌, refl, inl, inr, String, true, false, Option, none, some, List, [],
  ◌∷◌, length, ltb, nat_eq, arith, Bool-cases,
}
use cloakpipe.Decisions.Entry.{Encodings}
use cloakpipe.Decisions.Epoch.{ExternalReceipt, StoredEpoch}
use cloakpipe.Decisions.Table.{Matches}
use cloakpipe.Decisions.Store.{
  GateKey, Texts, EpochRow, LedgerStore, push_receipts, find_epoch, update_epoch, add_epoch_anchors,
}
use cloakpipe.Decisions.Steps.{anchor, step}
use cloakpipe.Decisions.Spec.{Spec, anchor_at, spec_step}
use cloakpipe.Decisions.Refinement.{Sound, HeadRow, Implements, Related}

module _ {T : Type 0} (e : Encodings) (key : GateKey) (t : Texts T) (sound : Sound e t) where
  abbrev Rows : ℕ → List (EpochRow T) → List StoredEpoch → Type 0
  Rows = Matches (HeadRow e key t sound)

  module _ (n : ℕ) (receipts : List ExternalReceipt) (error : Option String) where
    update_epoch-past :
        (m : ℕ) (text : T) (rs : List (EpochRow T)) (hs : List StoredEpoch)
        → n < m
        → Rows m rs hs
        → Rows m (update_epoch n text error rs) (anchor_at e key m n receipts error hs)
    unfolding update_epoch anchor_at
    update_epoch-past m text [] [] lt h = tt
    update_epoch-past m text [] (x ∷ xs) lt h = absurd h
    update_epoch-past m text (r ∷ rs) [] lt h = absurd h
    update_epoch-past m text (r ∷ rs) (x ∷ xs) lt (here, there) =
        let row_apart : nat_eq r.epoch n ≡ false = ground (arith, here.row_epoch) in
        let apart : nat_eq m n ≡ false = ground arith in
        rw (row_apart, apart) (here, update_epoch-past (suc m) text rs xs (omega arith) there)

    -- The epoch is found, its receipts read back, and the rows with the new receipts are those of
    -- the new list.
    pub record Updated (m : ℕ) (rs : List (EpochRow T)) (hs : List StoredEpoch) : Type 0 where
      pub row : EpochRow T
      pub held : List ExternalReceipt
      pub found : find_epoch n rs ≡ some row
      pub read : t.read_anchors row.anchors_json ≡ some held
      pub rows :
          Rows m
            (update_epoch n (t.anchors_text (push_receipts held receipts)) error rs)
            (anchor_at e key m n receipts error hs)

    update_epoch-Matches :
        (m : ℕ) (rs : List (EpochRow T)) (hs : List StoredEpoch)
        → Rows m rs hs
        → m ≤ n
        → n < m + length hs
        → Updated m rs hs
    unfolding find_epoch update_epoch anchor_at
    update_epoch-Matches m [] [] h le lt = absurd (omega arith)
    update_epoch-Matches m [] (x ∷ xs) h le lt = absurd h
    update_epoch-Matches m (r ∷ rs) [] h le lt = absurd h
    update_epoch-Matches m (r ∷ rs) (x ∷ xs) (here, there) le lt = elim (Bool-cases (nat_eq m n)) [
      | inl same ↦
          let row_same : nat_eq r.epoch n ≡ true = ground (arith, here.row_epoch) in
          record {
            row = r;
            held = x.anchors;
            found = rw row_same refl;
            read = here.row_anchors;
            rows =
                rw (row_same, same)
                  (
                    record {
                      row_epoch = here.row_epoch;
                      row_last = here.row_last;
                      row_head = here.row_head;
                      row_anchors = sound.reads_anchors _;
                      row_error = refl;
                    },
                    update_epoch-past (suc m) _ rs xs (ground arith) there,
                  );
          }
      | inr other ↦
          let row_other : nat_eq r.epoch n ≡ false = ground (arith, here.row_epoch) in
          let rest = update_epoch-Matches (suc m) rs xs there (ground arith) (omega arith) in
          record {
            row = rest.row;
            held = rest.held;
            found = rw row_other rest.found;
            read = rest.read;
            rows = rw (row_other, other) (here, rest.rows);
          }
    ]

    find_epoch-none :
        (m : ℕ) (rs : List (EpochRow T)) (hs : List StoredEpoch)
        → Rows m rs hs
        → m + length hs ≤ n
        → find_epoch n rs ≡ none
    unfolding find_epoch
    find_epoch-none m [] [] h le = refl
    find_epoch-none m [] (x ∷ xs) h le = refl
    find_epoch-none m (r ∷ rs) [] h le = absurd h
    find_epoch-none m (r ∷ rs) (x ∷ xs) (here, there) le =
        let other : nat_eq r.epoch n ≡ false = ground (arith, here.row_epoch) in
        rw other (find_epoch-none (suc m) rs xs there (omega arith))

    pub anchor-Implements :
        (s : LedgerStore T) (p : Spec)
        → Implements e key t sound s p
        → Related e key t sound
            (step e key t (anchor n receipts error) s)
            (spec_step e key (anchor n receipts error) p)
    unfolding step spec_step add_epoch_anchors
    anchor-Implements s p h = elim (Bool-cases (ltb n (length p.sealed))) [
      | inl there ↦
          let u = update_epoch-Matches 0 s.epochs p.sealed h.epochs (omega arith) (ground arith) in
          rw (there, u.found, u.read) (record { entries = h.entries; epochs = u.rows })
      | inr absent ↦ rw (absent, find_epoch-none 0 s.epochs p.sealed h.epochs (ground arith)) refl
    ]
