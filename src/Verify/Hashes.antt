-- ===== src/Verify/Hashes.antt =====
-- The verifier's hash of an entry and the gate's.
use cloakpipe.Base.{
  ◌≡◌, refl, ap, ◌∙◌, String, Bool, true, false, Option, none, some, List, [], ◌∷◌, ◌++◌, ◌==◌,
  Bytes, Bool-cases, inl, inr, if◌then◌else◌,
}
use Prim.Native.Nat.{Ordering}
use Prim.Native.String.{compare}
use cloakpipe.Json.{
  Value, null, boolean, number, string, array, object, Fields, no_fields, field, remove, last_first,
  after_first,
}
use cloakpipe.Decisions.Entry
use cloakpipe.Decisions.Entry.{
  Encodings, DecisionEntry, Mode, Outcome, entry_fields, in_map, sort_fields, insert_sorted,
  text_or_null, mode_or_null, outcome_or_null, if_some, entry_hash_of, to_value,
}
use cloakpipe.Verify.Decisions.{
  Crypto, without_hash, canonical, members, joined, collected, entry_hash,
}

-- The verifier's libraries are the gate's; `is_key` and `verify` are Ed25519's.
abbrev pub crypto : Encodings → (Bytes → Bool) → (Bytes → Bytes → Bytes → Bool) → Bool → Crypto
crypto e is_key verify kept = record {
  quoted = e.quoted;
  scalar = e.scalar;
  into_bytes = e.into_bytes;
  sha256 = e.sha256;
  hex_encode = e.hex_encode;
  hex_decode = e.hex_decode;
  preserve_order = kept;
  is_key = is_key;
  verify = verify;
}

joined-joined :
    (first : Bool) (xs : List (String × Bytes)) → joined first xs ≡ Entry.joined first xs
unfolding joined Entry.joined
joined-joined first [] = refl
joined-joined first ((k, b) ∷ rest) = rw (joined-joined false rest) refl

without_hash-covered :
    (c : Crypto) (v : Value) → without_hash c v ≡ Entry.covered c.preserve_order "entry_hash" v
unfolding without_hash Entry.covered
without_hash-covered c (object fs) = refl
without_hash-covered c (array vs) = refl
without_hash-covered c null = refl
without_hash-covered c (boolean b) = refl
without_hash-covered c (number n) = refl
without_hash-covered c (string s) = refl

module _ (e : Encodings) (is_key : Bytes → Bool) (verify : Bytes → Bytes → Bytes → Bool)
    (kept : Bool) where
  abbrev pub lib : Crypto
  lib = crypto e is_key verify kept

  -- Both write the value alike, as they do any but an object with members.
  abbrev IsAlike : Value → Type 0
  IsAlike v = canonical lib v ≡ Entry.canonical_json e v

  abbrev AllAlike : Fields → Type 0
  AllAlike no_fields = Unit {0}
  AllAlike (field k v fs) = IsAlike v × AllAlike fs

  text_or_null-IsAlike : (o : Option String) → IsAlike (text_or_null o)
  unfolding canonical Entry.canonical_json
  text_or_null-IsAlike none = refl
  text_or_null-IsAlike (some s) = refl

  mode_or_null-IsAlike : (o : Option Mode) → IsAlike (mode_or_null o)
  unfolding canonical Entry.canonical_json
  mode_or_null-IsAlike none = refl
  mode_or_null-IsAlike (some m) = refl

  outcome_or_null-IsAlike : (o : Option Outcome) → IsAlike (outcome_or_null o)
  unfolding canonical Entry.canonical_json
  outcome_or_null-IsAlike none = refl
  outcome_or_null-IsAlike (some m) = refl

  after_first-AllAlike :
      (k : String) (v : Value) (fs : Fields)
      → IsAlike v
      → AllAlike fs
      → AllAlike (after_first k v fs)
  after_first-AllAlike k v no_fields h hs = (h, hs)
  after_first-AllAlike k v (field j w fs) h (here, there) = (here, (h, there))

  last_first-AllAlike : (fs : Fields) → AllAlike fs → AllAlike (last_first fs)
  unfolding last_first
  last_first-AllAlike no_fields h = h
  last_first-AllAlike (field k v no_fields) h = h
  last_first-AllAlike (field k v (field j w fs)) (here, there) =
      after_first-AllAlike k v (last_first (field j w fs)) here
        (last_first-AllAlike (field j w fs) there)

  left-AllAlike :
      (order : Bool) (fs : Fields) → AllAlike fs → AllAlike (if order then last_first fs else fs)
  left-AllAlike true fs h = last_first-AllAlike fs h
  left-AllAlike false fs h = h

  remove-AllAlike :
      (order : Bool) (k : String) (fs : Fields) → AllAlike fs → AllAlike (remove order k fs)
  unfolding remove
  remove-AllAlike order k no_fields h = h
  remove-AllAlike order k (field j v fs) (here, there) = elim (Bool-cases (j == k)) [
    | inl same ↦ rw same (left-AllAlike order fs there)
    | inr other ↦ rw other (here, remove-AllAlike order k fs there)
  ]

  either-AllAlike :
      (o : Ordering) (fs gs : Fields)
      → AllAlike fs
      → AllAlike gs
      → AllAlike (elim o [ Ordering.gt ↦ gs | _ ↦ fs ])
  either-AllAlike Ordering.lt fs gs f g = f
  either-AllAlike Ordering.eq fs gs f g = f
  either-AllAlike Ordering.gt fs gs f g = g

  insert_sorted-AllAlike :
      (k : String) (v : Value) (fs : Fields)
      → IsAlike v
      → AllAlike fs
      → AllAlike (insert_sorted k v fs)
  unfolding insert_sorted
  insert_sorted-AllAlike k v no_fields h hs = (h, hs)
  insert_sorted-AllAlike k v (field j w fs) h (here, there) =
      either-AllAlike (compare k j) _ _ (h, (here, there))
        (here, insert_sorted-AllAlike k v fs h there)

  sort_fields-AllAlike : (fs : Fields) → AllAlike fs → AllAlike (sort_fields fs)
  unfolding sort_fields
  sort_fields-AllAlike no_fields h = h
  sort_fields-AllAlike (field k v fs) (here, there) =
      insert_sorted-AllAlike k v (sort_fields fs) here (sort_fields-AllAlike fs there)

  in_map-AllAlike : (order : Bool) (fs : Fields) → AllAlike fs → AllAlike (in_map order fs)
  in_map-AllAlike true fs h = h
  in_map-AllAlike false fs h = sort_fields-AllAlike fs h

  if_some-AllAlike :
      (k : String) (o : Option String) (fs : Fields) → AllAlike fs → AllAlike (if_some k o fs)
  unfolding canonical Entry.canonical_json
  if_some-AllAlike k none fs h = h
  if_some-AllAlike k (some s) fs h = (refl, h)

  entry_fields-AllAlike :
      (x : DecisionEntry) (tools_lock : Option String) → AllAlike (entry_fields x tools_lock)
  unfolding entry_fields canonical Entry.canonical_json
  entry_fields-AllAlike x tools_lock = (
    refl,
    (
      refl,
      (
        refl,
        (
          refl,
          (
            text_or_null-IsAlike x.release,
            (
              text_or_null-IsAlike x.tool,
              (
                text_or_null-IsAlike x.args_fingerprint,
                (
                  refl,
                  (
                    refl,
                    (
                      text_or_null-IsAlike x.path,
                      (
                        text_or_null-IsAlike x.policy_version,
                        (
                          text_or_null-IsAlike x.policy_digest,
                          (
                            mode_or_null-IsAlike x.mode,
                            (
                              text_or_null-IsAlike x.task_id,
                              (
                                text_or_null-IsAlike x.operation_id,
                                (
                                  text_or_null-IsAlike x.approval,
                                  (
                                    outcome_or_null-IsAlike x.outcome,
                                    (
                                      refl,
                                      if_some-AllAlike "tools_lock" tools_lock _
                                          (refl, (refl, (refl, (refl, tt)))),
                                    ),
                                  ),
                                ),
                              ),
                            ),
                          ),
                        ),
                      ),
                    ),
                  ),
                ),
              ),
            ),
          ),
        ),
      ),
    ),
  )

  members-members : (fs : Fields) → AllAlike fs → members lib fs ≡ Entry.members e fs
  unfolding members Entry.members
  members-members no_fields h = refl
  members-members (field k v fs) (here, there) = rw (here, members-members fs there) refl

  -- The members of an entry that the hash covers.
  abbrev hashed_fields : Bool → DecisionEntry → Option String → Fields
  hashed_fields order x tools_lock =
      remove order "sig" (remove order "entry_hash" (in_map order (entry_fields x tools_lock)))

  -- Both sort the members alike, whatever order either finds them in.
  collected-sort_keys :
      (order order' : Bool) (x : DecisionEntry) (tools_lock : Option String)
      → collected [] (Entry.members e (hashed_fields order x tools_lock))
        ≡ Entry.sort_keys (Entry.members e (hashed_fields order' x tools_lock))
  unfolding collected Entry.sort_keys Entry.members remove last_first entry_fields sort_fields
  collected-sort_keys true true x none = refl
  collected-sort_keys true false x none = refl
  collected-sort_keys false true x none = refl
  collected-sort_keys false false x none = refl
  collected-sort_keys true true x (some l) = refl
  collected-sort_keys true false x (some l) = refl
  collected-sort_keys false true x (some l) = refl
  collected-sort_keys false false x (some l) = refl

  hashed_fields-AllAlike :
      (order : Bool) (x : DecisionEntry) (tools_lock : Option String)
      → AllAlike (hashed_fields order x tools_lock)
  hashed_fields-AllAlike order x tools_lock = remove-AllAlike order "sig" _ (
      remove-AllAlike order "entry_hash" _
        (in_map-AllAlike order _ (entry_fields-AllAlike x tools_lock)))

  canonical-canonical_json :
      (kept' : Bool) (x : DecisionEntry) (tools_lock : Option String)
      → canonical lib (object (hashed_fields kept x tools_lock))
        ≡ Entry.canonical_json e (object (hashed_fields kept' x tools_lock))
  unfolding canonical Entry.canonical_json
  canonical-canonical_json kept' x tools_lock =
      ap (λ ms. 123 ∷ joined true (collected [] ms) ++ 125 ∷ [])
        (members-members (hashed_fields kept x tools_lock)
          (hashed_fields-AllAlike kept x tools_lock))
      ∙ ap (λ ms. 123 ∷ joined true ms ++ 125 ∷ []) (collected-sort_keys kept kept' x tools_lock)
      ∙ ap (λ b. 123 ∷ b ++ 125 ∷ [])
          (joined-joined true
            (Entry.sort_keys (Entry.members e (hashed_fields kept' x tools_lock))))

  -- The verifier's hash of an entry is the gate's.
  pub entry_hash-entry_hash_of :
      (x : DecisionEntry)
      → entry_hash lib (to_value kept x) ≡ entry_hash_of e (to_value e.preserve_order x)
  unfolding entry_hash entry_hash_of to_value Entry.covered
  entry_hash-entry_hash_of x =
      ap (λ v. e.sha256 (e.into_bytes "cloakpipe.decision.v1" ++ 10 ∷ canonical lib v))
        (without_hash-covered lib (to_value kept x))
      ∙ ap (λ b. e.sha256 (e.into_bytes "cloakpipe.decision.v1" ++ 10 ∷ b))
          (canonical-canonical_json e.preserve_order x x.tools_lock)
