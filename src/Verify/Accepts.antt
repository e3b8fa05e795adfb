-- ===== src/Verify/Accepts.antt =====
-- The verifier on the entries that the gate writes.
use mathlib.Core.Path.{subst}
use cloakpipe.Base.{
  ℕ, suc, ◌+◌, ◌≡◌, refl, sym, ap, ◌∙◌, String, Bool, true, false, Option, none, some, List, [],
  ◌∷◌, ◌==◌, eq_iff, eq_refl, length, map, All, Bytes, arith,
}
use cloakpipe.Base.Options
use cloakpipe.Base.Results.{ok}
use cloakpipe.Json.{Value, object, get}
use cloakpipe.Ledger.Canonical.{hex_lower}
use cloakpipe.Decisions.Hex.{IsByte}
use cloakpipe.Decisions.Entry.{
  Encodings, DecisionEntry, to_value, entry_fields, in_map, sort_fields,
}
use cloakpipe.Decisions.Store.{GateKey, Texts, decisions_from}
use cloakpipe.Decisions.Steps.{Operation, run, empty_store}
use cloakpipe.Decisions.Spec.{spec_run, empty_spec}
use cloakpipe.Decisions.Refinement.{Sound}
use cloakpipe.Decisions.Promise.{run-spec_run}
use cloakpipe.Decisions.Chained.{Linked, Chain, spec_run-IsChain}
use cloakpipe.Verify.Tally.{tally-entries}
use cloakpipe.Verify.Decisions.{
  decision_kind, member, as_u64, str_at, str_or_empty, Crypto, DecisionSummary, genesis, no_summary,
  key_named, signature_ok, entry_hash, check_link, verify_entry, verify_loop, verify_decisions,
  opened, count_entry,
}
use cloakpipe.Verify.Hashes.{crypto, entry_hash-entry_hash_of}

module _ (e : Encodings) (is_key : Bytes → Bool) (verify : Bytes → Bytes → Bytes → Bool)
    (kept : Bool) where
  abbrev lib : Crypto
  lib = crypto e is_key verify kept

  -- A key that is named is in the list, so that the list is not empty.
  verify_decisions-loop :
      (signer : String) (public : Bytes) (trusted : List Bytes) (es : List Value)
      → key_named lib signer trusted ≡ some public
      → verify_decisions lib es trusted ≡ verify_loop lib trusted 0 none no_summary es
  unfolding verify_decisions key_named
  verify_decisions-loop signer public [] es named = cc
  verify_decisions-loop signer public (k ∷ ks) es named = refl

  module _ (key : GateKey) (public : Bytes) (trusted : List Bytes) where
    -- The gate's key is trusted under its keyid, and signatures under it verify.
    pub record Trusts : Type 0 where
      pub named : key_named lib key.keyid trusted ≡ some public
      pub verifies : (message : Bytes) → verify public message (key.sign message) ≡ true
      pub signature_bytes : (message : Bytes) → All IsByte (key.sign message)
      pub signature_size : (message : Bytes) → length (key.sign message) ≡ 64
      pub decodes : (b : Bytes) → All IsByte b → e.hex_decode (hex_lower b) ≡ some b

    module _ (trusts : Trusts) where
      abbrev link_after : Option (ℕ × String) → ℕ × String
      link_after none = (0, genesis)
      link_after (some (n, h)) = (suc n, h)

      check_link-next :
          (prev : Option (ℕ × String))
          → check_link lib prev (link_after prev).0 (link_after prev).1 ≡ ok tt
      unfolding check_link
      check_link-next none = refl
      check_link-next (some (n, h)) = rw (eq_refl h) (ground arith)

      signature_ok-sign : (m : Bytes) → signature_ok lib public m (hex_lower (key.sign m)) ≡ true
      signature_ok-sign m =
          rw
            (
              signature_ok,
              trusts.decodes (key.sign m) (trusts.signature_bytes m),
              trusts.signature_size m,
            )
            (trusts.verifies m)

      -- What `verify_entry` reads of the entry.
      record Reads (v : Value) (x : DecisionEntry) : Type 0 where
        seq : Options.◌>>=◌ (member "seq" v) as_u64 ≡ some x.seq
        kind : str_or_empty "kind" v ≡ x.kind
        prev_hash : str_at "prev_hash" v ≡ some x.prev_hash
        entry_hash : str_at "entry_hash" v ≡ some x.entry_hash
        signer : str_at "signer" v ≡ some x.signer
        sig : str_at "sig" v ≡ some x.sig

      in_map-Reads :
          (order : Bool) (x : DecisionEntry) (tools_lock : Option String)
          → Reads (object (in_map order (entry_fields x tools_lock))) x
      unfolding entry_fields sort_fields get
      in_map-Reads true x none = record {
        seq = refl;
        kind = refl;
        prev_hash = refl;
        entry_hash = refl;
        signer = refl;
        sig = refl;
      }
      in_map-Reads true x (some l) = record {
        seq = refl;
        kind = refl;
        prev_hash = refl;
        entry_hash = refl;
        signer = refl;
        sig = refl;
      }
      in_map-Reads false x none = record {
        seq = refl;
        kind = refl;
        prev_hash = refl;
        entry_hash = refl;
        signer = refl;
        sig = refl;
      }
      in_map-Reads false x (some l) = record {
        seq = refl;
        kind = refl;
        prev_hash = refl;
        entry_hash = refl;
        signer = refl;
        sig = refl;
      }

      -- The checks of an entry, where each of them is known to pass.
      verify_entry-Reads :
          (index : ℕ) (prev : Option (ℕ × String)) (v : Value) (x : DecisionEntry)
          → Reads v x
          → (x.kind == decision_kind) ≡ true
          → check_link lib prev x.seq x.prev_hash ≡ ok tt
          → (x.entry_hash == e.hex_encode (entry_hash lib v)) ≡ true
          → key_named lib x.signer trusted ≡ some public
          → signature_ok lib public (entry_hash lib v) x.sig ≡ true
          → verify_entry lib trusted index prev v ≡ ok (x.seq, x.entry_hash)
      unfolding verify_entry
      verify_entry-Reads index prev v x r kind link hash named sig =
          rw
            (
              r.seq, r.kind, kind, r.prev_hash, link, r.entry_hash, hash, r.signer, named, r.sig,
              sig,
            )
            refl

      verify_entry-Linked :
          (index : ℕ) (prev : Option (ℕ × String)) (x : DecisionEntry)
          → Linked e key (link_after prev).0 (link_after prev).1 x
          → verify_entry lib trusted index prev (to_value kept x) ≡ ok (x.seq, x.entry_hash)
      unfolding to_value
      verify_entry-Linked index prev x h =
          let v = to_value kept x in
          let same = entry_hash-entry_hash_of e is_key verify kept x in
          let link : check_link lib prev x.seq x.prev_hash ≡ ok tt =
            ap (λ n. check_link lib prev n x.prev_hash) h.numbered
            ∙ ap (check_link lib prev (link_after prev).0) h.follows
            ∙ check_link-next prev in
          verify_entry-Reads index prev v x (in_map-Reads kept x x.tools_lock)
            ((eq_iff x.kind decision_kind).1 h.kinded) link
            ((eq_iff x.entry_hash (e.hex_encode (entry_hash lib v))).1
              (h.hashed ∙ ap e.hex_encode (sym same)))
            (ap (λ k. key_named lib k trusted) h.by_key ∙ trusts.named)
            (ap (signature_ok lib public (entry_hash lib v))
                (h.signed ∙ ap (λ d. hex_lower (key.sign d)) (sym same))
              ∙ signature_ok-sign (entry_hash lib v))

      sum : (a b c : ℕ) → a ≡ suc b → a + c ≡ b + suc c
      sum a b c h = omega (arith, h)

      opened-entries :
          (prev : Option (ℕ × String)) (seq : ℕ) (s : DecisionSummary)
          → (opened lib prev seq s).entries ≡ s.entries
      opened-entries none seq s = refl
      opened-entries (some p) seq s = refl

      verify_loop-Chain :
          (index : ℕ) (prev : Option (ℕ × String)) (s : DecisionSummary) (xs : List DecisionEntry)
          → Chain e key (link_after prev).0 (link_after prev).1 xs
          → (t : DecisionSummary) × (verify_loop lib trusted index prev s (map (to_value kept) xs)
              ≡ ok t)
            × (t.entries ≡ s.entries + length xs)
      unfolding verify_loop
      verify_loop-Chain index prev s [] h = (s, refl, omega arith)
      verify_loop-Chain index prev s (x ∷ xs) (here, there) =
          let v = to_value kept x in
          let accepted = verify_entry-Linked index prev x here in
          let next = count_entry lib x.seq x.entry_hash v (opened lib prev x.seq s) in
          let follows =
            subst (λ n. Chain e key (suc n) x.entry_hash xs) (sym here.numbered) there in
          let (t, done, count) =
            verify_loop-Chain (suc index) (some (x.seq, x.entry_hash)) next xs follows in
          let one : next.entries ≡ suc s.entries =
            ap suc (tally-entries (opened lib prev x.seq s) v ∙ opened-entries prev x.seq s) in
          (t, rw accepted done, count ∙ sum next.entries s.entries (length xs) one)

      -- Whatever appends, seals and additions of receipts are made, from empty tables on, where the
      -- gate's key is trusted and its signatures verify under it: the decisions read back, and the
      -- verifier accepts their JSON and counts them all, in whatever order the maps of the gate's
      -- `serde_json` and of the verifier's have their members: as inserted, or by key.
      pub verify_decisions-run :
          {T : Type 0} (t : Texts T) (sound : Sound e t) (os : List Operation)
          → (xs : List DecisionEntry) × (decisions_from e key t 0 (run e key t os empty_store).1
              ≡ ok xs)
            × (s : DecisionSummary) × (verify_decisions lib (map (to_value kept) xs) trusted ≡ ok s)
            × (s.entries ≡ length xs)
      unfolding verify_decisions
      verify_decisions-run t sound os =
          let p = (spec_run e key os empty_spec).1 in
          let (s, accepted, count) =
            verify_loop-Chain 0 none no_summary p.entries
              (spec_run-IsChain e key os empty_spec tt) in
          (
            p.entries,
            (run-spec_run e key t sound os).1,
            s,
            verify_decisions-loop key.keyid public trusted (map (to_value kept) p.entries)
                  trusts.named
                ∙ accepted,
            omega (arith, count),
          )
