-- ===== src/Verify/Decisions.antt =====
-- crates/cloakpipe-verify/src/decisions.rs
use Prim.Native.Nat.{Ordering}
use Prim.Native.String.{compare}
use cloakpipe.Base.{
  ℕ, zero, suc, ◌+◌, String, Bool, true, false, not, ◌&&◌, ◌||◌, Option, none, some, List, [], ◌∷◌,
  ◌++◌, ◌==◌, length, Bytes, nat_eq, if◌then◌else◌,
}
use cloakpipe.Base.Options
use cloakpipe.Base.Results.{Result, ok, err, ◌>>=◌, ok_or}
use cloakpipe.Json.{
  Value, null, boolean, number, string, array, object, unsigned, Fields, no_fields, field, Items,
  no_items, item, get, remove,
}

abbrev pub decision_kind : String
decision_kind = "cloakpipe.decision/v1"

abbrev pub decision_hash_domain : String
decision_hash_domain = "cloakpipe.decision.v1"

abbrev pub genesis : String
genesis = "0000000000000000000000000000000000000000000000000000000000000000"

pub data DecisionError : Type 0 where
  no_keys : DecisionError
  wrong_kind : ℕ → DecisionError
  missing_field : ℕ → String → DecisionError
  seq_gap : ℕ → ℕ → DecisionError
  wrong_prev_hash : ℕ → DecisionError
  wrong_entry_hash : ℕ → DecisionError
  unknown_signer : ℕ → String → DecisionError
  bad_signature : ℕ → DecisionError

pub record DecisionSummary : Type 0 where
  pub entries : ℕ
  pub first_seq : Option ℕ
  pub last_seq : Option ℕ
  pub from_genesis : Bool
  pub head : String
  pub allowed : ℕ
  pub denied : ℕ
  pub approvals_required : ℕ
  pub shadow : ℕ
  pub committed_outcomes : ℕ
  pub failed_outcomes : ℕ
  pub unknown_outcomes : ℕ
  pub reconciled : ℕ

abbrev pub no_summary : DecisionSummary
no_summary = record {
  entries = 0;
  first_seq = none;
  last_seq = none;
  from_genesis = false;
  head = genesis;
  allowed = 0;
  denied = 0;
  approvals_required = 0;
  shadow = 0;
  committed_outcomes = 0;
  failed_outcomes = 0;
  unknown_outcomes = 0;
  reconciled = 0;
}

-- What `serde_json`, `sha2`, `hex`, `ed25519_dalek` and the standard library do: the JSON of a string
-- and of any other scalar, the bytes of a text, the SHA-256 digest, `hex::encode` and `hex::decode`,
-- whether `serde_json` is built with `preserve_order`, `VerifyingKey::from_bytes`, its `verify` of a signature of 64 bytes, and the keyid of a key.
pub record Crypto : Type 0 where
  pub quoted : String → Bytes
  pub scalar : Value → Bytes
  pub into_bytes : String → Bytes
  pub sha256 : Bytes → Bytes
  pub hex_encode : Bytes → String
  pub hex_decode : String → Option Bytes
  pub preserve_order : Bool
  pub is_key : Bytes → Bool
  pub verify : Bytes → Bytes → Bytes → Bool

-- `if !test { return Err(e) }`
abbrev pub guard : Bool → DecisionError → Result (Unit {0}) DecisionError
guard true e = ok tt
guard false e = err e

-- `e.get(key)`
abbrev pub member : String → Value → Option Value
member k (object fs) = get k fs
member k _ = none

abbrev pub json_str : Value → Option String
json_str (string s) = some s
json_str _ = none

abbrev pub as_u64 : Value → Option ℕ
as_u64 (number (unsigned n)) = some n
as_u64 _ = none

abbrev pub str_at : String → Value → Option String
str_at k v = Options.◌>>=◌ (member k v) json_str

-- The first characters of a text.
abbrev first_chars : ℕ → String → String
first_chars zero s = String.[]
first_chars (suc n) String.[] = String.[]
first_chars (suc n) (String.◌∷◌ c s) = String.◌∷◌ c (first_chars n s)

-- The value `field(k)` of `tally`.
abbrev pub str_or_empty : String → Value → String
str_or_empty k v = elim (str_at k v) [ none ↦ "" | some s ↦ s ]

unfoldable pub tally_decision : String → DecisionSummary → DecisionSummary
tally_decision d s =
    if d == "allow"
    then record s { allowed = suc s.allowed }
    else if d == "deny"
    then record s { denied = suc s.denied }
    else if d == "require_approval"
    then record s { approvals_required = suc s.approvals_required }
    else s

unfoldable pub tally_outcome : String → DecisionSummary → DecisionSummary
tally_outcome o s =
    if o == "committed"
    then record s { committed_outcomes = suc s.committed_outcomes }
    else if o == "failed"
    then record s { failed_outcomes = suc s.failed_outcomes }
    else if o == "unknown"
    then record s { unknown_outcomes = suc s.unknown_outcomes }
    else s

abbrev pub tally_mode : String → DecisionSummary → DecisionSummary
tally_mode m s = if m == "shadow" then record s { shadow = suc s.shadow } else s

abbrev pub tally_event : String → String → DecisionSummary → DecisionSummary
tally_event ev d s =
    if ev == "call" || ev == "replay"
    then tally_decision d s
    else if ev == "reconcile"
    then record s { reconciled = suc s.reconciled }
    else s

unfoldable pub tally : DecisionSummary → Value → DecisionSummary
unfolding tally_decision tally_outcome
tally s e =
    let ev = str_or_empty "event" e in
    let counted =
      tally_event ev (str_or_empty "decision" e) (tally_mode (str_or_empty "mode" e) s) in
    if not (ev == "reconcile" || ev == "replay")
    then tally_outcome (str_or_empty "outcome" e) counted
    else counted

-- `BTreeMap::insert`
unfoldable pub map_insert : String × Bytes → List (String × Bytes) → List (String × Bytes)
map_insert (k, b) [] = (k, b) ∷ []
map_insert (k, b) ((j, x) ∷ rest) =
    let later = map_insert (k, b) rest in
    elim (compare k j) [
      | Ordering.lt ↦ (k, b) ∷ (j, x) ∷ rest
      | Ordering.eq ↦ (k, b) ∷ rest
      | Ordering.gt ↦ (j, x) ∷ later
    ]

-- `collect` into a `BTreeMap`.
unfoldable pub collected : List (String × Bytes) → List (String × Bytes) → List (String × Bytes)
unfolding map_insert
collected map [] = map
collected map (x ∷ xs) = collected (map_insert x map) xs

-- The members one after the other, a comma before each but the first.
unfoldable pub joined : Bool → List (String × Bytes) → Bytes
joined first [] = []
joined first ((k, b) ∷ rest) = (if first then [] else 44 ∷ []) ++ b ++ joined false rest

module _ (c : Crypto) where
  -- `canonical`. `members` has the key and the bytes of each member, which a `BTreeMap` then sorts.
  unfoldable mutual
    unfolding collected joined

    pub canonical : Value → Bytes
    canonical (object fs) = 123 ∷ joined true (collected [] (members fs)) ++ 125 ∷ []
    canonical (array vs) = 91 ∷ elements true vs ++ 93 ∷ []
    canonical null = c.scalar null
    canonical (boolean b) = c.scalar (boolean b)
    canonical (number n) = c.scalar (number n)
    canonical (string s) = c.scalar (string s)

    pub members : Fields → List (String × Bytes)
    members no_fields = []
    members (field k v fs) = (k, c.quoted k ++ 58 ∷ canonical v) ∷ members fs

    pub elements : Bool → Items → Bytes
    elements first no_items = []
    elements first (item v vs) = (if first then [] else 44 ∷ []) ++ canonical v ++ elements false vs

  unfoldable pub without_hash : Value → Value
  unfolding remove
  without_hash (object fs) =
      object (remove c.preserve_order "sig" (remove c.preserve_order "entry_hash" fs))
  without_hash v = v

  unfoldable pub entry_hash : Value → Bytes
  unfolding canonical without_hash
  entry_hash e = c.sha256 (c.into_bytes decision_hash_domain ++ 10 ∷ canonical (without_hash e))

  unfoldable pub keyid : Bytes → String
  keyid key = Prim.Native.String.◌++◌ "ed25519:" (first_chars 16 (c.hex_encode (c.sha256 key)))

  -- The trusted keys by keyid; of two keys with one keyid the map keeps the later one.
  unfoldable pub key_named : String → List Bytes → Option Bytes
  unfolding keyid
  key_named signer [] = none
  key_named signer (k ∷ ks) = elim (key_named signer ks) [
    | some later ↦ some later
    | none ↦ if c.is_key k && keyid k == signer then some k else none
  ]

  -- Whether the signature, in hexadecimal, is one of 64 bytes that verifies.
  abbrev pub signature_ok : Bytes → Bytes → String → Bool
  signature_ok key message sig = elim (c.hex_decode sig) [
    | none ↦ false
    | some bytes ↦ if nat_eq (length bytes) 64 then c.verify key message bytes else false
  ]

  -- The sequence number and the previous hash, against the entry before.
  unfoldable pub check_link : Option (ℕ × String) → ℕ → String → Result (Unit {0}) DecisionError
  check_link none seq prev_hash =
      if nat_eq seq 0 && not (prev_hash == genesis) then err (wrong_prev_hash seq) else ok tt
  check_link (some (p_seq, p_hash)) seq prev_hash =
      if not (nat_eq seq (p_seq + 1))
      then err (seq_gap (p_seq + 1) seq)
      else if not (prev_hash == p_hash)
      then err (wrong_prev_hash seq)
      else ok tt

  -- The checks of one entry: its sequence number and its hash.
  unfoldable pub verify_entry :
      List Bytes → ℕ → Option (ℕ × String) → Value → Result (ℕ × String) DecisionError
  unfolding check_link entry_hash key_named
  verify_entry trusted index prev e = do
    seq ← ok_or (Options.◌>>=◌ (member "seq" e) as_u64) (missing_field index "seq")
    _ ← guard (str_or_empty "kind" e == decision_kind) (wrong_kind seq)
    prev_hash ← ok_or (str_at "prev_hash" e) (missing_field index "prev_hash")
    _ ← check_link prev seq prev_hash
    recorded ← ok_or (str_at "entry_hash" e) (missing_field index "entry_hash")
    _ ← guard (recorded == c.hex_encode (entry_hash e)) (wrong_entry_hash seq)
    signer ← ok_or (str_at "signer" e) (missing_field index "signer")
    key ← ok_or (key_named signer trusted) (unknown_signer seq signer)
    sig ← ok_or (str_at "sig" e) (missing_field index "sig")
    _ ← guard (signature_ok key (entry_hash e) sig) (bad_signature seq)
    ok (seq, recorded)

  -- What the first entry sets.
  abbrev pub opened : Option (ℕ × String) → ℕ → DecisionSummary → DecisionSummary
  opened none seq s = record s { first_seq = some seq; from_genesis = nat_eq seq 0 }
  opened (some p) seq s = s

  abbrev pub count_entry : ℕ → String → Value → DecisionSummary → DecisionSummary
  count_entry seq recorded e s =
      let t = tally s e in
      record t { entries = suc t.entries; last_seq = some seq; head = recorded }

  -- The loop of `verify_decisions`.
  unfoldable pub verify_loop :
      List Bytes
      → ℕ
      → Option (ℕ × String)
      → DecisionSummary
      → List Value
      → Result DecisionSummary DecisionError
  unfolding verify_entry tally
  verify_loop trusted index prev s [] = ok s
  verify_loop trusted index prev s (e ∷ es) = do
    (seq, recorded) ← verify_entry trusted index prev e
    verify_loop trusted (suc index) (some (seq, recorded))
        (count_entry seq recorded e (opened prev seq s)) es

  unfoldable pub verify_decisions : List Value → List Bytes → Result DecisionSummary DecisionError
  unfolding verify_loop
  verify_decisions entries [] = err no_keys
  verify_decisions entries (k ∷ ks) = verify_loop (k ∷ ks) 0 none no_summary entries
