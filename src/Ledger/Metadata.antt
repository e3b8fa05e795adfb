-- ===== src/Ledger/Metadata.antt =====
-- The metadata at the end of a record's canonical bytes, and how it reads.
use Prim.Native.Char.{code}
use Prim.Native.String.append
use Prim.Native.String.{◌++◌ as push_str}
use text.Mathlib.TextEquality.{Char-path}
use mathlib.Core.List.{append-nil}
use cloakpipe.Base.{
  ℕ, ◌/◌, ◌%◌, ◌^◌, ◌<◌, ◌≡◌, refl, sym, ap, ◌∙◌, inl, inr, String, Bool, true, false, not, ◌&&◌,
  ◌||◌, none, some, List, [], ◌∷◌, ◌++◌, any, all, map, length, All, Bytes, drop, nat_eq, ltb,
  if◌then◌else◌, arith, Bool-cases, Option-cases,
}
use cloakpipe.Base.Results.{Result, ok, err, >>=-eq-ok}
use cloakpipe.Receipt.OperationId.{codes, lower_code}
use cloakpipe.Ledger.Record.{MetadataValue, bool, integer, hash, opaque_id}
use cloakpipe.Ledger.Canonical.{Formats, concat, hex_lower, value_text, metadata_text}
use cloakpipe.Ledger.Builder.{
  RecordError, opaque_id_too_long, pii_in_metadata, metadata_delimiter, bad_metadata_key,
  is_key_code, is_empty_codes, validate_metadata_key, find_marker, pii_markers, validate_opaque_id,
  validate_value, validate_metadata,
}
use cloakpipe.Decisions.Hex.{
  hex_value, hex_digit-IsDigit, two_digits, IsByte, decode_pairs, decode_pairs-hex_lower,
}

codes-push_str : (a b : String) → codes (push_str a b) ≡ codes a ++ codes b
unfolding codes
codes-push_str String.[] b = ap codes (append.nil b)
codes-push_str (String.◌∷◌ c a) b =
    ap codes (append.cons c a b) ∙ ap (λ cs. code c ∷ cs) (codes-push_str a b)

codes-injective : (s t : String) → codes s ≡ codes t → s ≡ t
unfolding codes
codes-injective String.[] String.[] e = refl
codes-injective String.[] (String.◌∷◌ d t) e = absurd (let b = e in cc)
codes-injective (String.◌∷◌ c s) String.[] e = absurd (let b = e in cc)
codes-injective (String.◌∷◌ c s) (String.◌∷◌ d t) e =
    let letter : code c ≡ code d = cc e in
    let rest : codes s ≡ codes t = cc e in rw (Char-path c d letter, codes-injective s t rest) refl

-- Two texts that go up to the first separator.
split_first :
    (sep : ℕ) (p q d d' : List ℕ)
    → any (nat_eq sep) p ≡ false
    → any (nat_eq sep) q ≡ false
    → p ++ sep ∷ d ≡ q ++ sep ∷ d'
    → (p ≡ q) × (d ≡ d')
split_first sep [] [] d d' free free' e = (refl, cc e)
split_first sep [] (c ∷ q) d d' free free' e =
    let same : sep ≡ c = cc e in absurd (ground (arith, same, free'))
split_first sep (c ∷ p) [] d d' free free' e =
    let same : c ≡ sep = cc e in absurd (ground (arith, same, free))
split_first sep (c ∷ p) (c' ∷ q) d d' free free' e =
    let letter : c ≡ c' = cc e in
    let rest : p ++ sep ∷ d ≡ q ++ sep ∷ d' = cc e in
    let (same, after) = split_first sep p q d d' (ground arith) (ground arith) rest in
    (rw (letter, same) refl, after)

-- What an `i64` and an array of bytes hold.
abbrev pub IsTypedValue : MetadataValue → Type 0
IsTypedValue (bool b) = Unit
IsTypedValue (integer i) = i < 2 ^ 64
IsTypedValue (hash h) = All IsByte h
IsTypedValue (opaque_id s) = Unit

abbrev pub IsTyped : String × MetadataValue → Type 0
IsTyped (k, v) = IsTypedValue v

-- Signed 64-bit integers print apart, and without a semicolon.
pub record Decimals (f : Formats) : Type 0 where
  pub apart : (i j : ℕ) → i < 2 ^ 64 → j < 2 ^ 64 → f.decimal_i64 i ≡ f.decimal_i64 j → i ≡ j
  pub plain : (i : ℕ) → any (nat_eq 59) (codes (f.decimal_i64 i)) ≡ false

digit_plain : (c n : ℕ) → hex_value c ≡ some n → nat_eq 59 c ≡ false
unfolding hex_value
digit_plain c n valued = elim (Bool-cases (nat_eq 59 c)) [
  | inl same ↦
      let p : 59 ≡ c = ground (arith, same) in
      let bad : none ≡ some n = ap hex_value p ∙ valued in absurd (let b = bad in cc)
  | inr other ↦ other
]

hex_lower-plain : (h : Bytes) → All IsByte h → any (nat_eq 59) (codes (hex_lower h)) ≡ false
unfolding hex_lower codes
hex_lower-plain [] bytes = refl
hex_lower-plain (b ∷ bs) (here, there) =
    let hi = hex_digit-IsDigit (b / 16) (omega arith) in
    let lo = hex_digit-IsDigit (b % 16) (omega arith) in
    ap (λ s. any (nat_eq 59) (codes s))
      (two_digits hi.letter lo.letter (hex_lower bs) hi.is_letter lo.is_letter)
    ∙ rw
        (
          digit_plain (code hi.letter) (b / 16) hi.valued,
          digit_plain (code lo.letter) (b % 16) lo.valued,
        )
        (hex_lower-plain bs there)

-- A value that `build` takes, of key `k`.
abbrev IsPlain : Formats → MetadataValue → Type 0
IsPlain f v = any (nat_eq 59) (codes (value_text f v)) ≡ false

delimited :
    (a b : Bool) (k : String)
    → ◌≡◌ {A = Result (Unit {0}) RecordError}
        (if a || b then err (metadata_delimiter k) else ok tt)
        (ok tt)
    → a ≡ false
delimited false b k e = refl
delimited true b k e = absurd (let bad = e in cc)

all_key_codes : (cs : List ℕ) → all is_key_code cs ≡ true → any (nat_eq 61) cs ≡ false
all_key_codes [] h = refl
all_key_codes (c ∷ cs) h = ground (arith, all_key_codes cs)

held :
    (a b : Bool) (k : String)
    → ◌≡◌ {A = Result (Unit {0}) RecordError}
        (if a && b then ok tt else err (bad_metadata_key k))
        (ok tt)
    → b ≡ true
held true true k e = refl
held true false k e = absurd (let bad = e in cc)
held false b k e = absurd (let bad = e in cc)

key_plain : (k : String) → validate_metadata_key k ≡ ok tt → any (nat_eq 61) (codes k) ≡ false
unfolding validate_metadata_key
key_plain k valid =
    all_key_codes (codes k)
      (held (not (is_empty_codes (codes k))) (all is_key_code (codes k)) k valid)

validate_metadata-cons :
    (f : Formats) (is_whitespace : ℕ → Bool) (k : String) (v : MetadataValue)
    → (rest : List (String × MetadataValue))
    → validate_metadata f is_whitespace ((k, v) ∷ rest) ≡ ok tt
    → (validate_metadata_key k ≡ ok tt)
      × (validate_value f is_whitespace k v ≡ ok tt)
      × (validate_metadata f is_whitespace rest ≡ ok tt)
unfolding validate_metadata
validate_metadata-cons f is_whitespace k v rest valid =
    let (_, key, more) = >>=-eq-ok (validate_metadata_key k) _ valid in
    let (_, value, after) = >>=-eq-ok (validate_value f is_whitespace k v) _ more in
    (key, value, after)

has_equals : (q d : List ℕ) → any (nat_eq 61) (q ++ 61 ∷ d) ≡ true
has_equals [] d = refl
has_equals (c ∷ q) d = ground (arith, has_equals q d)

module _ (f : Formats) (decimals : Decimals f) (is_whitespace : ℕ → Bool) where
  integer_codes :
      (i : ℕ) → codes (value_text f (integer i)) ≡ codes "int:" ++ codes (f.decimal_i64 i)
  unfolding value_text
  integer_codes i = codes-push_str "int:" (f.decimal_i64 i)

  hash_codes : (h : Bytes) → codes (value_text f (hash h)) ≡ codes "hash:" ++ codes (hex_lower h)
  unfolding value_text
  hash_codes h = codes-push_str "hash:" (hex_lower h)

  id_codes : (s : String) → codes (value_text f (opaque_id s)) ≡ codes "id:" ++ codes s
  unfolding value_text
  id_codes s = codes-push_str "id:" s

  opaque_id-plain :
      (k s : String)
      → validate_opaque_id f is_whitespace k s ≡ ok tt
      → any (nat_eq 59) (codes s) ≡ false
  unfolding validate_opaque_id
  opaque_id-plain k s valid = elim (Bool-cases (ltb 128 (length (f.into_bytes s)))) [
    | inl long ↦ absurd (let b : err (opaque_id_too_long k) ≡ ok tt = rw long at valid in cc)
    | inr short ↦ elim (Option-cases (find_marker pii_markers (map lower_code (codes s)))) [
      | inr (m, found) ↦ absurd (
          let b : err (pii_in_metadata k (push_str "contains marker `" (push_str m "`"))) ≡ ok tt =
            rw (short, found) at valid in
          cc)
      | inl unmarked ↦ elim (Bool-cases (any is_whitespace (codes s))) [
        | inl spaced ↦ absurd (
            let b : err (pii_in_metadata k "contains whitespace") ≡ ok tt =
              rw (short, unmarked, spaced) at valid in
            cc)
        | inr whole ↦
            delimited (any (nat_eq 59) (codes s)) (any (nat_eq 61) (codes s)) k
              (rw (short, unmarked, whole) at valid)
      ]
    ]
  ]

  value-IsPlain :
      (k : String) (v : MetadataValue)
      → IsTypedValue v
      → validate_value f is_whitespace k v ≡ ok tt
      → IsPlain f v
  unfolding validate_value value_text codes
  value-IsPlain k (bool true) typed valid = refl
  value-IsPlain k (bool false) typed valid = refl
  value-IsPlain k (integer i) typed valid =
      ap (any (nat_eq 59)) (integer_codes i) ∙ decimals.plain i
  value-IsPlain k (hash h) typed valid =
      ap (any (nat_eq 59)) (hash_codes h) ∙ hex_lower-plain h typed
  value-IsPlain k (opaque_id s) typed valid =
      ap (any (nat_eq 59)) (id_codes s) ∙ opaque_id-plain k s valid

  abbrev second : List ℕ → ℕ
  second [] = 0
  second (x ∷ []) = 0
  second (x ∷ y ∷ ys) = y

  -- The second letter of a value's text tells what kind it is.
  abbrev kind : MetadataValue → ℕ
  kind (bool b) = 111
  kind (integer i) = 110
  kind (hash h) = 97
  kind (opaque_id s) = 100

  second-kind : (v : MetadataValue) → second (codes (value_text f v)) ≡ kind v
  unfolding value_text codes
  second-kind (bool true) = refl
  second-kind (bool false) = refl
  second-kind (integer i) = ap second (integer_codes i)
  second-kind (hash h) = ap second (hash_codes h)
  second-kind (opaque_id s) = ap second (id_codes s)

  value_text-injective :
      (v w : MetadataValue)
      → IsTypedValue v
      → IsTypedValue w
      → codes (value_text f v) ≡ codes (value_text f w)
      → v ≡ w
  unfolding value_text codes
  value_text-injective (bool true) (bool true) t t' e = refl
  value_text-injective (bool false) (bool false) t t' e = refl
  value_text-injective (bool true) (bool false) t t' e = absurd (let b = e in cc)
  value_text-injective (bool false) (bool true) t t' e = absurd (let b = e in cc)
  value_text-injective (integer i) (integer j) t t' e =
      let digits : codes (f.decimal_i64 i) ≡ codes (f.decimal_i64 j) =
        ap (drop 4) (sym (integer_codes i) ∙ e ∙ integer_codes j) in
      ap integer
        (decimals.apart i j t t' (codes-injective (f.decimal_i64 i) (f.decimal_i64 j) digits))
  value_text-injective (hash h) (hash g) t t' e =
      let digits : codes (hex_lower h) ≡ codes (hex_lower g) =
        ap (drop 5) (sym (hash_codes h) ∙ e ∙ hash_codes g) in
      let read =
        sym (decode_pairs-hex_lower h t)
        ∙ ap decode_pairs (codes-injective (hex_lower h) (hex_lower g) digits)
        ∙ decode_pairs-hex_lower g t' in
      ap hash (cc read)
  value_text-injective (opaque_id s) (opaque_id s') t t' e =
      ap opaque_id (codes-injective s s' (ap (drop 3) (sym (id_codes s) ∙ e ∙ id_codes s')))
  value_text-injective v w t t' e =
      let bad : kind v ≡ kind w = sym (second-kind v) ∙ ap second e ∙ second-kind w in
      absurd (omega (arith, bad))

  -- The codes of one entry and the rest.
  entry_codes :
      (k : String) (v : MetadataValue) (rest : List (String × MetadataValue))
      → codes (metadata_text f ((k, v) ∷ rest))
        ≡ codes k ++ 61 ∷ (codes (value_text f v) ++ 59 ∷ codes (metadata_text f rest))
  unfolding metadata_text concat codes
  entry_codes k v rest =
      let text = metadata_text f rest in
      codes-push_str k _
      ∙ ap (λ cs. codes k ++ cs)
          (codes-push_str "=" _
            ∙ ap (λ cs. 61 ∷ cs)
                (codes-push_str (value_text f v) _
                  ∙ ap (λ cs. codes (value_text f v) ++ cs)
                      (codes-push_str ";" _
                        ∙ ap (λ cs. 59 ∷ cs) (codes-push_str text "" ∙ append-nil (codes text)))))

  no_codes : [] ≡ codes (metadata_text f [])
  unfolding metadata_text codes
  no_codes = refl

  codes-metadata_text-injective :
      (m m' : List (String × MetadataValue))
      → All IsTyped m
      → All IsTyped m'
      → validate_metadata f is_whitespace m ≡ ok tt
      → validate_metadata f is_whitespace m' ≡ ok tt
      → codes (metadata_text f m) ≡ codes (metadata_text f m')
      → m ≡ m'
  codes-metadata_text-injective [] [] t t' h h' e = refl
  codes-metadata_text-injective [] ((k, v) ∷ rest) t t' h h' e =
      let bad : false ≡ true =
        ap (any (nat_eq 61)) (no_codes ∙ e ∙ entry_codes k v rest) ∙ has_equals (codes k) _ in
      absurd (let b = bad in cc)
  codes-metadata_text-injective ((k, v) ∷ rest) [] t t' h h' e =
      let bad : false ≡ true =
        ap (any (nat_eq 61)) (no_codes ∙ sym e ∙ entry_codes k v rest) ∙ has_equals (codes k) _ in
      absurd (let b = bad in cc)
  codes-metadata_text-injective ((k, v) ∷ m) ((k', v') ∷ m') (t, ts) (t', ts') h h' e =
      let (key, value, valid) = validate_metadata-cons f is_whitespace k v m h in
      let (key', value', valid') = validate_metadata-cons f is_whitespace k' v' m' h' in
      let (keys, after) =
        split_first 61 (codes k) (codes k') _ _ (key_plain k key) (key_plain k' key')
          (sym (entry_codes k v m) ∙ e ∙ entry_codes k' v' m') in
      let (values, others) =
        split_first 59 (codes (value_text f v)) (codes (value_text f v')) _ _
          (value-IsPlain k v t value) (value-IsPlain k' v' t' value') after in
      rw
        (
          codes-injective k k' keys,
          value_text-injective v v' t t' values,
          codes-metadata_text-injective m m' ts ts' valid valid' others,
        )
        refl

  -- Where signed integers print apart and without a semicolon: two lists of metadata that `build`
  -- takes, with bytes and integers of their sizes, are one list if their canonical texts are one.
  pub metadata_text-injective :
      (m m' : List (String × MetadataValue))
      → All IsTyped m
      → All IsTyped m'
      → validate_metadata f is_whitespace m ≡ ok tt
      → validate_metadata f is_whitespace m' ≡ ok tt
      → metadata_text f m ≡ metadata_text f m'
      → m ≡ m'
  metadata_text-injective m m' t t' h h' e =
      codes-metadata_text-injective m m' t t' h h' (ap codes e)
