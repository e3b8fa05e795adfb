-- ===== src/Decisions/Tiles.antt =====
-- Which decisions the sealed epochs cover.
use mathlib.Core.Path.{subst}
use cloakpipe.Base.{
  ℕ, zero, suc, ◌+◌, ◌-◌, ◌≤◌, ◌≡◌, refl, sym, ◌∙◌, inl, inr, String, true, ◌&&◌, Option, none,
  some, List, [], ◌∷◌, ◌++◌, length, get_elem?, lt_length-get_elem?, leb, ltb, nat_eq,
  if◌then◌else◌, arith, Bool-cases, Option-cases,
}
use cloakpipe.Base.Results.{ok, err, ok_injective, Result-cases}
use cloakpipe.Decisions.Entry.{Encodings, DecisionEntry}
use cloakpipe.Decisions.Epoch.{epoch_genesis, EpochHead, ExternalReceipt, StoredEpoch}
use cloakpipe.Decisions.Table.{last}
use cloakpipe.Decisions.Store.{no_epoch, GateKey}
use cloakpipe.Decisions.Steps.{Operation, append, seal, anchor}
use cloakpipe.Decisions.Spec.{
  Spec, covered_by, epoch_before, next_head, fresh_epoch, anchor_at, spec_step, spec_run,
}

-- How many of the epochs cover a sequence number.
unfoldable pub covering : ℕ → List StoredEpoch → ℕ
covering i [] = 0
covering i (s ∷ ss) =
    let rest = covering i ss in
    if leb s.head.first_seq i && leb i s.head.last_seq then suc rest else rest

-- Where the epochs end, and the hash of the last one, from where they start.
abbrev pub end_seq : ℕ → List StoredEpoch → ℕ
end_seq first [] = first
end_seq first (s ∷ ss) = end_seq (suc s.head.last_seq) ss

abbrev pub end_hash : String → List StoredEpoch → String
end_hash prev [] = prev
end_hash prev (s ∷ ss) = end_hash s.head.epoch_hash ss

-- An epoch's number, range and links: its range starts at `first`, and `entries_head` is the hash of
-- the entry at its end.
pub record Tile (xs : List DecisionEntry) (m first : ℕ) (prev : String) (h : EpochHead)
    : Type 0 where
  pub numbered : h.epoch ≡ m
  pub starts : h.first_seq ≡ first
  pub ordered : first ≤ h.last_seq
  pub linked : h.prev_epoch ≡ prev
  pub last_entry : DecisionEntry
  pub ends : get_elem? xs h.last_seq ≡ some last_entry
  pub heads : last_entry.entry_hash ≡ h.entries_head

abbrev pub Tiles : List DecisionEntry → ℕ → ℕ → String → List StoredEpoch → Type 0
Tiles xs m first prev [] = Unit
Tiles xs m first prev (s ∷ ss) =
    Tile xs m first prev s.head × Tiles xs (suc m) (suc s.head.last_seq) s.head.epoch_hash ss

abbrev seq_after : ℕ → Option StoredEpoch → ℕ
seq_after first none = first
seq_after first (some s) = suc s.head.last_seq

abbrev hash_after : String → Option StoredEpoch → String
hash_after prev none = prev
hash_after prev (some s) = s.head.epoch_hash

end_seq-last : (first : ℕ) (ss : List StoredEpoch) → end_seq first ss ≡ seq_after first (last ss)
end_seq-last first [] = refl
end_seq-last first (s ∷ ss) = elim (Option-cases (last ss)) [
  | inl nil ↦ end_seq-last (suc s.head.last_seq) ss ∙ rw nil refl
  | inr (y, found) ↦ end_seq-last (suc s.head.last_seq) ss ∙ rw found refl
]

end_hash-last :
    (prev : String) (ss : List StoredEpoch) → end_hash prev ss ≡ hash_after prev (last ss)
end_hash-last prev [] = refl
end_hash-last prev (s ∷ ss) = elim (Option-cases (last ss)) [
  | inl nil ↦ end_hash-last s.head.epoch_hash ss ∙ rw nil refl
  | inr (y, found) ↦ end_hash-last s.head.epoch_hash ss ∙ rw found refl
]

covered_by-seq_after : (o : Option StoredEpoch) → seq_after 0 o ≡ covered_by o
covered_by-seq_after none = refl
covered_by-seq_after (some s) = refl

epoch_before-hash_after : (o : Option StoredEpoch) → hash_after epoch_genesis o ≡ epoch_before o
epoch_before-hash_after none = refl
epoch_before-hash_after (some s) = refl

pub end_seq-covered_by : (ss : List StoredEpoch) → end_seq 0 ss ≡ covered_by (last ss)
end_seq-covered_by ss = end_seq-last 0 ss ∙ covered_by-seq_after (last ss)

end_hash-epoch_before : (ss : List StoredEpoch) → end_hash epoch_genesis ss ≡ epoch_before (last ss)
end_hash-epoch_before ss = end_hash-last epoch_genesis ss ∙ epoch_before-hash_after (last ss)

get_elem?-append :
    {A : Type 0} (xs : List A) (y x : A) (i : ℕ)
    → get_elem? xs i ≡ some x
    → get_elem? (xs ++ y ∷ []) i ≡ some x
get_elem?-append [] y x i h = cc
get_elem?-append (z ∷ zs) y x zero h = h
get_elem?-append (z ∷ zs) y x (suc i) h = get_elem?-append zs y x i h

get_elem?-last :
    {A : Type 0} (xs : List A) (k : ℕ)
    → length xs ≡ suc k
    → (x : A) × (last xs ≡ some x) × (get_elem? xs k ≡ some x)
get_elem?-last [] k h = absurd (omega arith)
get_elem?-last (z ∷ []) zero h = (z, refl, refl)
get_elem?-last (z ∷ []) (suc k) h = absurd (omega arith)
get_elem?-last (z ∷ y ∷ ys) zero h = absurd (omega arith)
get_elem?-last (z ∷ y ∷ ys) (suc k) h =
    let (x, ends, reads) = get_elem?-last (y ∷ ys) k (omega arith) in (x, rw ends refl, reads)

Tiles-append_entry :
    (xs : List DecisionEntry) (x : DecisionEntry) (m first : ℕ) (prev : String)
    (ss : List StoredEpoch)
    → Tiles xs m first prev ss
    → Tiles (xs ++ x ∷ []) m first prev ss
Tiles-append_entry xs x m first prev [] h = tt
Tiles-append_entry xs x m first prev (s ∷ ss) (here, there) = (
  record {
    numbered = here.numbered;
    starts = here.starts;
    ordered = here.ordered;
    linked = here.linked;
    last_entry = here.last_entry;
    ends = get_elem?-append xs x here.last_entry s.head.last_seq here.ends;
    heads = here.heads;
  },
  Tiles-append_entry xs x (suc m) (suc s.head.last_seq) s.head.epoch_hash ss there,
)

Tiles-append :
    (xs : List DecisionEntry) (m first k : ℕ) (prev : String) (ss : List StoredEpoch)
    (s : StoredEpoch)
    → Tiles xs m first prev ss
    → k ≡ m + length ss
    → Tile xs k (end_seq first ss) (end_hash prev ss) s.head
    → Tiles xs m first prev (ss ++ s ∷ [])
Tiles-append xs m first k prev [] s h e tile =
    let same : k ≡ m = omega (arith, e) in (subst (λ n. Tile xs n first prev s.head) same tile, tt)
Tiles-append xs m first k prev (z ∷ zs) s (here, there) e tile = (
  here,
  Tiles-append xs (suc m) (suc z.head.last_seq) k z.head.epoch_hash zs s there (omega (arith, e))
      tile,
)

-- The sequence numbers before the first epoch are in none, those up to the end of the last are in
-- one, and those past it in none.
pub covering-Tiles :
    (xs : List DecisionEntry) (m first : ℕ) (prev : String) (ss : List StoredEpoch) (i : ℕ)
    → Tiles xs m first prev ss
    → (first ≤ end_seq first ss)
      × (covering i ss ≡ (if leb first i && ltb i (end_seq first ss) then 1 else 0))
unfolding covering
covering-Tiles xs m first prev [] i h = (omega arith, ground arith)
covering-Tiles xs m first prev (s ∷ ss) i (here, there) =
    let (le, rest) = covering-Tiles xs (suc m) (suc s.head.last_seq) s.head.epoch_hash ss i there in
    (omega (arith, le, here.ordered), ground (arith, rest, le, here.ordered, here.starts))

pub end_seq-Tiles :
    (xs : List DecisionEntry) (m first : ℕ) (prev : String) (ss : List StoredEpoch)
    → Tiles xs m first prev ss
    → first ≤ length xs
    → end_seq first ss ≤ length xs
end_seq-Tiles xs m first prev [] h le = le
end_seq-Tiles xs m first prev (s ∷ ss) (here, there) le =
    let within = lt_length-get_elem? xs s.head.last_seq here.ends in
    end_seq-Tiles xs (suc m) (suc s.head.last_seq) s.head.epoch_hash ss there within

abbrev pub IsTiled : Spec → Type 0
IsTiled p = Tiles p.entries 0 0 epoch_genesis p.sealed

module _ (e : Encodings) (key : GateKey) where
  anchor_at-Tiles :
      (xs : List DecisionEntry) (m n k first : ℕ) (prev : String) (receipts : List ExternalReceipt)
      → (error : Option String) (ss : List StoredEpoch) → Tiles xs m first prev ss
      → Tiles xs m first prev (anchor_at e key k n receipts error ss)
  unfolding anchor_at
  anchor_at-Tiles xs m n k first prev receipts error [] h = tt
  anchor_at-Tiles xs m n k first prev receipts error (s ∷ ss) (here, there) =
      let rest =
        anchor_at-Tiles xs (suc m) n (suc k) (suc s.head.last_seq) s.head.epoch_hash receipts error
          ss there in
      elim (Bool-cases (nat_eq k n)) [
        | inl same ↦ rw same (here, rest)
        | inr other ↦ rw other (here, rest)
      ]

  -- The epoch that is sealed next.
  next_head-Tile :
      (now : ℕ) (p : Spec)
      → ltb (covered_by (last p.sealed)) (length p.entries) ≡ true
      → Tile p.entries
          (length p.sealed)
          (end_seq 0 p.sealed)
          (end_hash epoch_genesis p.sealed)
          (next_head e key now p.entries p.sealed)
  next_head-Tile now p more =
      let start = end_seq-covered_by p.sealed in
      let size : length p.entries ≡ suc (length p.entries - 1) = ground arith in
      let (x, ends, reads) = get_elem?-last p.entries (length p.entries - 1) size in
      record {
        numbered = refl;
        starts = sym start;
        ordered = ground (arith, start);
        linked = sym (end_hash-epoch_before p.sealed);
        last_entry = x;
        ends = reads;
        heads = rw ends refl;
      }

  pub spec_step-IsTiled :
      (o : Operation) (p p' : Spec) → IsTiled p → spec_step e key o p ≡ ok p' → IsTiled p'
  unfolding spec_step
  spec_step-IsTiled (append now draft) p p' h done =
      subst IsTiled (ok_injective done)
        (Tiles-append_entry p.entries _ 0 0 epoch_genesis p.sealed h)
  spec_step-IsTiled (seal now) p p' h done =
      elim (Bool-cases (ltb (covered_by (last p.sealed)) (length p.entries))) [
        | inl more ↦ subst IsTiled (ok_injective (rw more at done)) (
            Tiles-append p.entries 0 0 (length p.sealed) epoch_genesis p.sealed
              (fresh_epoch e key (next_head e key now p.entries p.sealed)) h (omega arith)
              (next_head-Tile now p more))
        | inr nothing ↦ subst IsTiled (ok_injective (rw nothing at done)) h
      ]
  spec_step-IsTiled (anchor n receipts error) p p' h done =
      elim (Bool-cases (ltb n (length p.sealed))) [
        | inl there ↦
            subst IsTiled (ok_injective (rw there at done))
              (anchor_at-Tiles p.entries 0 n 0 0 epoch_genesis receipts error p.sealed h)
        | inr absent ↦ let refused : err (no_epoch n) ≡ ok p' = rw absent at done in cc
      ]

  pub spec_run-IsTiled :
      (os : List Operation) (p : Spec) → IsTiled p → IsTiled (spec_run e key os p).1
  unfolding spec_run
  spec_run-IsTiled [] p h = h
  spec_run-IsTiled (o ∷ os) p h = elim (Result-cases (spec_step e key o p)) [
    | inl (p', done) ↦
        rw (spec_run, done) (spec_run-IsTiled os p' (spec_step-IsTiled o p p' h done))
    | inr (x, refused) ↦ rw (spec_run, refused) (spec_run-IsTiled os p h)
  ]
