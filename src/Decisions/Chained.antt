-- ===== src/Decisions/Chained.antt =====
-- The entries as a chain: numbers, links, hashes and signatures.
use mathlib.Core.Path.{subst}
use cloakpipe.Base.{
  ℕ, suc, ◌+◌, ◌≡◌, refl, sym, ap, ◌∙◌, inl, inr, String, Bool, true, false, none, some, Option,
  List, [], ◌∷◌, ◌++◌, length, ltb, arith, Bool-cases, Option-cases,
}
use cloakpipe.Base.Results.{ok, err, ok_injective, Result-cases}
use cloakpipe.Json.{object, remove, last_first}
use cloakpipe.Ledger.Canonical.{hex_lower}
use cloakpipe.Decisions.Entry.{
  Encodings, decision_kind, decision_hash_domain, canonical_json, entry_fields, sort_fields, in_map,
  genesis, DecisionDraft, DecisionEntry, covered, entry_hash_of, to_value, unhashed,
}
use cloakpipe.Decisions.Table.{last}
use cloakpipe.Decisions.Store.{no_epoch, GateKey}
use cloakpipe.Decisions.Steps.{Operation, append, seal, anchor}
use cloakpipe.Decisions.Spec.{Spec, hash_before, covered_by, chained, spec_step, spec_run}

covered-signed :
    (x : DecisionEntry) (h g : String) (kept : Bool) (tools_lock : Option String)
    → covered kept "entry_hash"
        (object (in_map kept (entry_fields (record x { entry_hash = h; sig = g }) tools_lock)))
      ≡ covered kept "entry_hash" (object (in_map kept (entry_fields x tools_lock)))
unfolding covered remove last_first entry_fields sort_fields
covered-signed x h g true none = refl
covered-signed x h g true (some l) = refl
covered-signed x h g false none = refl
covered-signed x h g false (some l) = refl

-- The hash of an entry does not depend on the hash and the signature that the entry holds.
pub entry_hash_of-signed :
    (e : Encodings) (x : DecisionEntry) (h g : String)
    → entry_hash_of e (to_value e.preserve_order (record x { entry_hash = h; sig = g }))
      ≡ entry_hash_of e (to_value e.preserve_order x)
unfolding entry_hash_of to_value
entry_hash_of-signed e x h g =
    ap (λ v. e.sha256 (e.into_bytes decision_hash_domain ++ 10 ∷ canonical_json e v))
      (covered-signed x h g e.preserve_order x.tools_lock)

module _ (e : Encodings) (key : GateKey) where
  pub record Linked (n : ℕ) (prev : String) (x : DecisionEntry) : Type 0 where
    pub numbered : x.seq ≡ n
    pub kinded : x.kind ≡ decision_kind
    pub follows : x.prev_hash ≡ prev
    pub hashed : x.entry_hash ≡ e.hex_encode (entry_hash_of e (to_value e.preserve_order x))
    pub by_key : x.signer ≡ key.keyid
    pub signed : x.sig ≡ hex_lower (key.sign (entry_hash_of e (to_value e.preserve_order x)))

  abbrev pub Chain : ℕ → String → List DecisionEntry → Type 0
  Chain n prev [] = Unit
  Chain n prev (x ∷ xs) = Linked n prev x × Chain (suc n) x.entry_hash xs

  abbrev hash_from : String → List DecisionEntry → String
  hash_from prev [] = prev
  hash_from prev (x ∷ xs) = hash_from x.entry_hash xs

  abbrev hash_after : String → Option DecisionEntry → String
  hash_after prev none = prev
  hash_after prev (some x) = x.entry_hash

  hash_from-last :
      (prev : String) (xs : List DecisionEntry) → hash_from prev xs ≡ hash_after prev (last xs)
  hash_from-last prev [] = refl
  hash_from-last prev (x ∷ xs) = elim (Option-cases (last xs)) [
    | inl nil ↦ hash_from-last x.entry_hash xs ∙ rw nil refl
    | inr (y, found) ↦ hash_from-last x.entry_hash xs ∙ rw found refl
  ]

  hash_before-after : (o : Option DecisionEntry) → hash_after genesis o ≡ hash_before o
  hash_before-after none = refl
  hash_before-after (some x) = refl

  Chain-append :
      (n m : ℕ) (prev : String) (xs : List DecisionEntry) (x : DecisionEntry)
      → Chain n prev xs
      → m ≡ n + length xs
      → Linked m (hash_from prev xs) x
      → Chain n prev (xs ++ x ∷ [])
  Chain-append n m prev [] x h place fits =
      let same : m ≡ n = omega (arith, place) in (subst (λ k. Linked k prev x) same fits, tt)
  Chain-append n m prev (y ∷ ys) x (here, there) place fits =
      (here, Chain-append (suc n) m y.entry_hash ys x there (omega (arith, place)) fits)

  chained-Linked :
      (now : ℕ) (draft : DecisionDraft) (xs : List DecisionEntry)
      → Linked (length xs) (hash_from genesis xs) (chained e key now draft xs)
  unfolding unhashed
  chained-Linked now draft xs =
      let x = unhashed e now draft (length xs) (hash_before (last xs)) key.keyid in
      let digest = entry_hash_of e (to_value e.preserve_order x) in
      let same = entry_hash_of-signed e x (e.hex_encode digest) (hex_lower (key.sign digest)) in
      record {
        numbered = refl;
        kinded = refl;
        follows = sym (hash_from-last genesis xs ∙ hash_before-after (last xs));
        hashed = ap e.hex_encode (sym same);
        by_key = refl;
        signed = ap (λ d. hex_lower (key.sign d)) (sym same);
      }

  abbrev pub IsChain : Spec → Type 0
  IsChain p = Chain 0 genesis p.entries

  spec_step-IsChain :
      (o : Operation) (p p' : Spec) → IsChain p → spec_step e key o p ≡ ok p' → IsChain p'
  unfolding spec_step
  spec_step-IsChain (append now draft) p p' h done = subst IsChain (ok_injective done) (
      Chain-append 0 (length p.entries) genesis p.entries (chained e key now draft p.entries) h
        (omega arith) (chained-Linked now draft p.entries))
  spec_step-IsChain (seal now) p p' h done =
      elim (Bool-cases (ltb (covered_by (last p.sealed)) (length p.entries))) [
        | inl more ↦ subst IsChain (ok_injective (rw more at done)) h
        | inr nothing ↦ subst IsChain (ok_injective (rw nothing at done)) h
      ]
  spec_step-IsChain (anchor n receipts error) p p' h done =
      elim (Bool-cases (ltb n (length p.sealed))) [
        | inl there ↦ subst IsChain (ok_injective (rw there at done)) h
        | inr absent ↦ let refused : err (no_epoch n) ≡ ok p' = rw absent at done in cc
      ]

  pub spec_run-IsChain :
      (os : List Operation) (p : Spec) → IsChain p → IsChain (spec_run e key os p).1
  unfolding spec_run
  spec_run-IsChain [] p h = h
  spec_run-IsChain (o ∷ os) p h = elim (Result-cases (spec_step e key o p)) [
    | inl (p', done) ↦
        rw (spec_run, done) (spec_run-IsChain os p' (spec_step-IsChain o p p' h done))
    | inr (x, refused) ↦ rw (spec_run, refused) (spec_run-IsChain os p h)
  ]
