-- ===== src/Ledger/Records.antt =====
-- A tenant's rows in the table of records, the records that they hold, and an append to them.
use mathlib.Core.Path.{subst}
use cloakpipe.Base.{
  ℕ, suc, String, ◌+◌, ◌≡◌, refl, sym, ap, ◌∙◌, true, none, some, List, [], ◌∷◌, ◌++◌, ◌==◌,
  eq_refl, filter, map, length, All, Bytes, bytes_eq_refl, bytes_eq_iff, nat_eq, if◌then◌else◌,
  arith, Bool-cases, inl, inr, Option, Bool,
}
use cloakpipe.Base.Results.{Result, ok, err, ok_injective, ◌>>=◌, ok_or}
use cloakpipe.Ledger.Record.{LedgerRecord}
use cloakpipe.Ledger.Canonical.{Formats, hex_lower}
use cloakpipe.Ledger.Chain.{genesis_hash, compute_hash, link_and_hash, verify_from, verify_chain}
use cloakpipe.Ledger.Table.{
  ensure, append_after, insert_linked, StoreError, seq_out_of_order, prev_hash_mismatch,
  record_hash_mismatch, json_error, Json, RecordRow, StoredRecord, expected_seq, tenant_rows,
  head_row, head, read_rows, records_for_tenant, new_row, append,
}
use cloakpipe.Decisions.Hex.{IsByte, decode_hex_32, decode_hex_32-hex_lower}
use cloakpipe.Decisions.Table.{
  IsNumbered, order_by-IsNumbered, last, Matches, Matches-append, Matches-last,
}

last_cons : {A : Type 0} (x y : A) (xs : List A) → last (x ∷ y ∷ xs) ≡ last (y ∷ xs)
last_cons x y xs = ground arith

module _ (f : Formats) (sha256 : Bytes → Bytes) where
  -- A record of a chain that verifies, and the rest of the chain.
  pub verify_from-cons :
      (n : ℕ) (prev : Bytes) (r : LedgerRecord) (rs : List LedgerRecord) {h : Bytes}
      → verify_from f sha256 n prev (r ∷ rs) ≡ ok h
      → (r.seq ≡ n)
        × (r.prev_hash ≡ prev)
        × (compute_hash f sha256 r ≡ r.record_hash)
        × (verify_from f sha256 (suc n) (compute_hash f sha256 r) rs ≡ ok h)
  unfolding verify_from
  verify_from-cons n prev r rs e =
      ground
        (arith, bytes_eq_iff r.prev_hash prev, bytes_eq_iff (compute_hash f sha256 r) r.record_hash)

  verify_from-append :
      (n : ℕ) (prev : Bytes) (rs : List LedgerRecord) (r : LedgerRecord) {h : Bytes}
      → verify_from f sha256 n prev rs ≡ ok h
      → r.seq ≡ n + length rs
      → r.prev_hash ≡ h
      → compute_hash f sha256 r ≡ r.record_hash
      → verify_from f sha256 n prev (rs ++ r ∷ []) ≡ ok r.record_hash
  unfolding verify_from
  verify_from-append n prev [] r e seq linked hashed = ground (
    arith,
    ok_injective e,
    bytes_eq_iff r.prev_hash prev,
    bytes_eq_iff (compute_hash f sha256 r) r.record_hash,
  )
  verify_from-append n prev (x ∷ xs) r {h} e seq linked hashed =
      let (s, p, q, rest) = verify_from-cons n prev x xs e in
      ground (
        arith,
        verify_from-append (suc n) (compute_hash f sha256 x) xs r {h = h} rest (omega (arith, seq))
            linked hashed,
        bytes_eq_iff x.prev_hash prev,
        bytes_eq_iff (compute_hash f sha256 x) x.record_hash,
      )

  -- Where a chain that verifies ends.
  verify_from-last :
      (n : ℕ) (prev : Bytes) (rs : List LedgerRecord) (x : LedgerRecord) {h : Bytes}
      → last rs ≡ some x
      → verify_from f sha256 n prev rs ≡ ok h
      → x.record_hash ≡ h
  unfolding verify_from
  verify_from-last n prev [] x found e = cc
  verify_from-last n prev (r ∷ []) x {h} found e =
      let (_, _, hash, rest) = verify_from-cons n prev r [] e in
      ground (arith, hash, ok_injective rest)
  verify_from-last n prev (r ∷ s ∷ rs) x {h} found e =
      let (_, _, _, rest) = verify_from-cons n prev r (s ∷ rs) e in
      verify_from-last (suc n) (compute_hash f sha256 r) (s ∷ rs) x {h = h}
        (sym (last_cons r s rs) ∙ found) rest

pub filter-append :
    {A : Type 0} (p : A → Bool) (xs : List A) (y : A)
    → filter p (xs ++ y ∷ []) ≡ filter p xs ++ (if p y then y ∷ [] else [])
filter-append p [] y = ground arith
filter-append p (x ∷ xs) y = ground (arith, filter-append p xs y)

-- The records of the rows that are read.
abbrev pub contents : Result (List StoredRecord) StoreError → Result (List LedgerRecord) StoreError
contents r = r >>= λ out. ok (map (λ (x : StoredRecord). x.content) out)

-- What `serde_json` wrote it reads back, and SHA-256 gives 32 bytes.
pub record Sound {T : Type 0} (json : Json T) (sha256 : Bytes → Bytes) : Type 0 where
  pub reads :
      (r : LedgerRecord)
      → (text : T) × (json.to_string r ≡ some text) × (json.from_str text ≡ some r)
  pub digest_size : (b : Bytes) → length (sha256 b) ≡ 32
  pub digest_bytes : (b : Bytes) → All IsByte (sha256 b)

module _ {T : Type 0} (f : Formats) (json : Json T) (sha256 : Bytes → Bytes)
    (sound : Sound json sha256) where
  -- A row of the table and the record that it stores.
  pub record RowOf (n : ℕ) (row : RecordRow T) (x : LedgerRecord) : Type 0 where
    pub numbered : row.seq ≡ n
    pub reads : json.from_str row.record_json ≡ some x
    pub hashed : row.record_hash ≡ hex_lower x.record_hash
    pub hash_size : length x.record_hash ≡ 32
    pub hash_bytes : All IsByte x.record_hash

  abbrev pub rows_at : String → List (RecordRow T) → List (RecordRow T)
  rows_at k rows = filter (λ (r : RecordRow T). r.tenant_id == k) rows

  pub record Chained (k : String) (rows : List (RecordRow T)) (rs : List LedgerRecord) (h : Bytes)
      : Type 0 where
    pub matches : Matches RowOf 0 (rows_at k rows) rs
    pub verifies : verify_chain f sha256 rs ≡ ok h

  RowOf-IsNumbered :
      (n : ℕ) (rows : List (RecordRow T)) (rs : List LedgerRecord)
      → Matches RowOf n rows rs
      → IsNumbered (λ (r : RecordRow T). r.seq) n rows
  RowOf-IsNumbered n [] [] h = tt
  RowOf-IsNumbered n [] (x ∷ xs) h = absurd h
  RowOf-IsNumbered n (r ∷ rs) [] h = absurd h
  RowOf-IsNumbered n (r ∷ rs) (x ∷ xs) (here, there) =
      (here.numbered, RowOf-IsNumbered (suc n) rs xs there)

  tenant_rows-Chained :
      (tenant : Bytes) (rows : List (RecordRow T)) (rs : List LedgerRecord) (h : Bytes)
      → Chained (f.hyphenated tenant) rows rs h
      → tenant_rows f json tenant rows ≡ rows_at (f.hyphenated tenant) rows
  unfolding tenant_rows
  tenant_rows-Chained tenant rows rs h c =
      order_by-IsNumbered (λ (r : RecordRow T). r.seq) 0 (rows_at (f.hyphenated tenant) rows)
        (RowOf-IsNumbered 0 (rows_at (f.hyphenated tenant) rows) rs c.matches)

  read_rows-Matches :
      (n : ℕ) (rows : List (RecordRow T)) (rs : List LedgerRecord)
      → Matches RowOf n rows rs
      → (out : List StoredRecord) × (read_rows f json rows ≡ ok out)
        × (map (λ (x : StoredRecord). x.content) out ≡ rs)
  unfolding read_rows
  read_rows-Matches n [] [] h = ([], refl, refl)
  read_rows-Matches n [] (x ∷ xs) h = absurd h
  read_rows-Matches n (r ∷ rs) [] h = absurd h
  read_rows-Matches n (r ∷ rs) (x ∷ xs) (here, there) =
      let (out, done, same) = read_rows-Matches (suc n) rs xs there in
      (record { id = r.id; content = x } ∷ out, rw (here.reads, done) refl, ap (λ l. x ∷ l) same)

  pub records_for_tenant-Chained :
      (tenant : Bytes) (rows : List (RecordRow T)) (rs : List LedgerRecord) (h : Bytes)
      → Chained (f.hyphenated tenant) rows rs h
      → contents (records_for_tenant f json tenant rows) ≡ ok rs
  unfolding records_for_tenant
  records_for_tenant-Chained tenant rows rs h c =
      let (out, done, same) =
        read_rows-Matches 0 (rows_at (f.hyphenated tenant) rows) rs c.matches in
      ap (λ l. contents (read_rows f json l)) (tenant_rows-Chained tenant rows rs h c)
      ∙ ap contents done
      ∙ ap ok same

  -- The head of a tenant's chain: the number of its records, and the hash that they verify to.
  head-Chained :
      (tenant : Bytes) (rows : List (RecordRow T)) (rs : List LedgerRecord) (h : Bytes)
      → Chained (f.hyphenated tenant) rows rs h
      → (seq : Option ℕ) × (head f json tenant rows ≡ ok (seq, h)) × (expected_seq seq ≡ length rs)
  unfolding head head_row verify_chain verify_from
  head-Chained tenant rows rs h c =
      let sorted = tenant_rows-Chained tenant rows rs h c in
      elim (Matches-last RowOf 0 (rows_at (f.hyphenated tenant) rows) rs c.matches) [
        | inl (no_rows, no_records) ↦ (
          none,
          ap (λ l. head_row f json (last l)) (sorted ∙ no_rows)
              ∙ ap (λ x. ok (none, x))
                  (ok_injective (sym (ap (verify_chain f sha256) no_records) ∙ c.verifies)),
          sym (ap length no_records),
        )
        | inr l ↦
            let x = l.value in
            let decoded : decode_hex_32 l.row.record_hash ≡ some x.record_hash =
              ap decode_hex_32 l.related.hashed
              ∙ decode_hex_32-hex_lower x.record_hash l.related.hash_size l.related.hash_bytes in
            (
              some l.row.seq,
              ap (λ r. head_row f json (last r)) sorted
                  ∙ ap (head_row f json) l.last_row
                  ∙ ap (λ d. ok_or d prev_hash_mismatch >>= λ b. ok (some l.row.seq, b)) decoded
                  ∙ ap (λ b. ok (some l.row.seq, b))
                      (verify_from-last f sha256 0 genesis_hash rs x {h = h} l.last_value
                        c.verifies),
              omega (arith, l.placed, l.related.numbered),
            )
      ]

  -- What an append that is in order links and stores.
  module _ (id : ℕ) (tenant : Bytes) (r : LedgerRecord) (rows : List (RecordRow T))
      (rs : List LedgerRecord) (h : Bytes) (c : Chained (f.hyphenated tenant) rows rs h) where
    abbrev pub linked : LedgerRecord
    linked = link_and_hash f sha256 h r

    append-head :
        (seq : Option ℕ)
        → head f json tenant rows ≡ ok (seq, h)
        → append f json sha256 id tenant r rows
          ≡ append_after f json sha256 id tenant r rows (seq, h)
    unfolding append
    append-head seq found = ap (λ x. x >>= append_after f json sha256 id tenant r rows) found

    insert_linked-ok :
        (text : T)
        → json.to_string linked ≡ some text
        → insert_linked f json sha256 id tenant linked rows
          ≡ ok ((id, linked), rows ++ new_row f json sha256 id tenant linked text ∷ [])
    unfolding insert_linked link_and_hash
    insert_linked-ok text written =
        ap
          (λ b. ensure b record_hash_mismatch >>= λ _.
            ok_or (json.to_string linked) json_error >>= λ t.
            ok ((id, linked), rows ++ new_row f json sha256 id tenant linked t ∷ []))
          (bytes_eq_refl linked.record_hash)
        ∙ ap
            (λ o. ok_or o json_error >>= λ t.
              ok ((id, linked), rows ++ new_row f json sha256 id tenant linked t ∷ []))
            written

    -- The answer to an append: it is refused unless the record has the next sequence number.
    pub append-Chained :
        (text : T)
        → json.to_string linked ≡ some text
        → append f json sha256 id tenant r rows ≡ (
            if nat_eq r.seq (length rs)
            then ok ((id, linked), rows ++ new_row f json sha256 id tenant linked text ∷ [])
            else err (seq_out_of_order (length rs)))
    unfolding append_after
    append-Chained text written =
        let (seq, found, count) = head-Chained tenant rows rs h c in
        append-head seq found
        ∙ ap
            (λ n. ensure (nat_eq r.seq n) (seq_out_of_order n) >>= λ _.
              insert_linked f json sha256 id tenant linked rows)
            count
        ∙ elim (Bool-cases (nat_eq r.seq (length rs))) [
          | inl next ↦ rw next (insert_linked-ok text written)
          | inr other ↦ rw other refl
        ]

    pub Chained-append :
        (text : T)
        → json.from_str text ≡ some linked
        → r.seq ≡ length rs
        → Chained
            (f.hyphenated tenant)
            (rows ++ new_row f json sha256 id tenant linked text ∷ [])
            (rs ++ linked ∷ [])
            linked.record_hash
    unfolding link_and_hash verify_chain
    Chained-append text reads seq =
        let k = f.hyphenated tenant in
        let new = new_row f json sha256 id tenant linked text in
        let mine : (new.tenant_id == k) ≡ true = eq_refl k in
        let appended : rows_at k (rows ++ new ∷ []) ≡ rows_at k rows ++ new ∷ [] =
          filter-append (λ (x : RecordRow T). x.tenant_id == k) rows new ∙ rw mine refl in
        let stored : RowOf (length rs) new linked = record {
          numbered = seq;
          reads = reads;
          hashed = refl;
          hash_size = sound.digest_size _;
          hash_bytes = sound.digest_bytes _;
        } in
        record {
          matches =
              subst (λ x. Matches RowOf 0 x (rs ++ linked ∷ [])) (sym appended)
                (Matches-append RowOf 0 (rows_at k rows) rs new linked (length rs) c.matches
                  (omega arith) stored);
          verifies =
              verify_from-append f sha256 0 genesis_hash rs linked {h = h} c.verifies
                (omega (arith, seq)) refl refl;
        }
