-- ===== src/Decisions/Hex.antt =====
-- crates/cloakpipe-ledger/src/store.rs: the 32 bytes that 64 hexadecimal digits stand for.
use Prim.Native.Char.{Char, code}
use Prim.Native.String.append
use Prim.Native.String.{◌++◌ as push_str}
use cloakpipe.Base.{
  ℕ, zero, suc, ◌+◌, ◌-◌, ◌*◌, ◌/◌, ◌%◌, ◌<◌, ◌≡◌, refl, ap, ◌∙◌, String, Bool, ◌&&◌, Option, none,
  some, [], ◌∷◌, length, All, Bytes, leb, nat_eq, if◌then◌else◌, arith,
}
use cloakpipe.Base.Options.{◌>>=◌}
use cloakpipe.Ledger.Canonical.{hex_digit, hex_lower}

-- The value of a hexadecimal digit, as `u8::from_str_radix` reads it.
unfoldable pub hex_value : ℕ → Option ℕ
hex_value k =
    if leb 48 k && leb k 57
    then some (k - 48)
    else if leb 97 k && leb k 102
    then some (k - 87)
    else if leb 65 k && leb k 70
    then some (k - 55)
    else none

-- `u8::from_str_radix(two_characters, 16)`, which takes a leading plus sign.
unfoldable pub hex_pair : ℕ → ℕ → Option ℕ
unfolding hex_value
hex_pair c d =
    let low = hex_value d in
    if nat_eq c 43 then low else (do high ← hex_value c; l ← low; some (16 * high + l))

unfoldable pub decode_pairs : String → Option Bytes
unfolding hex_pair
decode_pairs String.[] = some []
decode_pairs (String.◌∷◌ c String.[]) = none
decode_pairs (String.◌∷◌ c (String.◌∷◌ d s)) = do
  b ← hex_pair (code c) (code d)
  bytes ← decode_pairs s
  some (b ∷ bytes)

unfoldable pub char_count : String → ℕ
char_count String.[] = 0
char_count (String.◌∷◌ c s) = suc (char_count s)

-- `decode_hex_32`, on a text of ASCII characters.
unfoldable pub decode_hex_32 : String → Option Bytes
unfolding decode_pairs char_count
decode_hex_32 s = if nat_eq (char_count s) 64 then decode_pairs s else none

pub record IsDigit (n : ℕ) (s : String) : Type 0 where
  pub letter : Char
  pub is_letter : s ≡ String.◌∷◌ letter String.[]
  pub valued : hex_value (code letter) ≡ some n
  pub not_plus : nat_eq (code letter) 43 ≡ Bool.false

pub hex_digit-IsDigit : (n : ℕ) → n < 16 → IsDigit n (hex_digit n)
unfolding hex_value
hex_digit-IsDigit zero h = record { letter = _; is_letter = refl; valued = refl; not_plus = refl }
hex_digit-IsDigit (suc zero) h = record {
  letter = _;
  is_letter = refl;
  valued = refl;
  not_plus = refl;
}
hex_digit-IsDigit (suc (suc zero)) h = record {
  letter = _;
  is_letter = refl;
  valued = refl;
  not_plus = refl;
}
hex_digit-IsDigit (suc (suc (suc zero))) h = record {
  letter = _;
  is_letter = refl;
  valued = refl;
  not_plus = refl;
}
hex_digit-IsDigit (suc (suc (suc (suc zero)))) h = record {
  letter = _;
  is_letter = refl;
  valued = refl;
  not_plus = refl;
}
hex_digit-IsDigit (suc (suc (suc (suc (suc zero))))) h = record {
  letter = _;
  is_letter = refl;
  valued = refl;
  not_plus = refl;
}
hex_digit-IsDigit (suc (suc (suc (suc (suc (suc zero)))))) h = record {
  letter = _;
  is_letter = refl;
  valued = refl;
  not_plus = refl;
}
hex_digit-IsDigit (suc (suc (suc (suc (suc (suc (suc zero))))))) h = record {
  letter = _;
  is_letter = refl;
  valued = refl;
  not_plus = refl;
}
hex_digit-IsDigit (suc (suc (suc (suc (suc (suc (suc (suc zero)))))))) h = record {
  letter = _;
  is_letter = refl;
  valued = refl;
  not_plus = refl;
}
hex_digit-IsDigit (suc (suc (suc (suc (suc (suc (suc (suc (suc zero))))))))) h = record {
  letter = _;
  is_letter = refl;
  valued = refl;
  not_plus = refl;
}
hex_digit-IsDigit (suc (suc (suc (suc (suc (suc (suc (suc (suc (suc zero)))))))))) h = record {
  letter = _;
  is_letter = refl;
  valued = refl;
  not_plus = refl;
}
hex_digit-IsDigit (suc (suc (suc (suc (suc (suc (suc (suc (suc (suc (suc zero))))))))))) h =
    record { letter = _; is_letter = refl; valued = refl; not_plus = refl }
hex_digit-IsDigit (suc (suc (suc (suc (suc (suc (suc (suc (suc (suc (suc (suc zero)))))))))))) h =
    record { letter = _; is_letter = refl; valued = refl; not_plus = refl }
hex_digit-IsDigit (suc (suc (suc (suc (suc (suc (suc (suc (suc (suc (suc (suc (suc zero)))))))))))))
      h =
    record { letter = _; is_letter = refl; valued = refl; not_plus = refl }
hex_digit-IsDigit
      (suc (suc (suc (suc (suc (suc (suc (suc (suc (suc (suc (suc (suc (suc zero)))))))))))))) h =
    record { letter = _; is_letter = refl; valued = refl; not_plus = refl }
hex_digit-IsDigit
      (suc (suc (suc (suc (suc (suc (suc (suc (suc (suc (suc (suc (suc (suc (suc zero)))))))))))))))
      h =
    record { letter = _; is_letter = refl; valued = refl; not_plus = refl }
hex_digit-IsDigit
      (suc
        (suc (suc (suc (suc (suc (suc (suc (suc (suc (suc (suc (suc (suc (suc (suc n))))))))))))))))
      h =
    absurd (omega arith)

module _ (c d : Char) (s : String) where
  decode_pairs-cons :
      (b : ℕ) (bytes : Bytes)
      → hex_pair (code c) (code d) ≡ some b
      → decode_pairs s ≡ some bytes
      → decode_pairs (String.◌∷◌ c (String.◌∷◌ d s)) ≡ some (b ∷ bytes)
  unfolding decode_pairs
  decode_pairs-cons b bytes read rest = rw (read, rest) refl

hex_pair-value :
    (c d high low : ℕ)
    → hex_value c ≡ some high
    → hex_value d ≡ some low
    → nat_eq c 43 ≡ Bool.false
    → hex_pair c d ≡ some (16 * high + low)
unfolding hex_pair
hex_pair-value c d high low h l plain = rw (plain, h, l) refl

abbrev pub IsByte : ℕ → Type 0
IsByte b = b < 256

pub two_digits :
    (c d : Char) {high low : String} (rest : String)
    → high ≡ String.◌∷◌ c String.[]
    → low ≡ String.◌∷◌ d String.[]
    → push_str high (push_str low rest) ≡ String.◌∷◌ c (String.◌∷◌ d rest)
two_digits c d rest h l = rw (h, l, append.cons, append.nil, append.cons, append.nil) refl

-- Bytes printed as hexadecimal digits read back as the bytes.
pub decode_pairs-hex_lower :
    (bytes : Bytes) → All IsByte bytes → decode_pairs (hex_lower bytes) ≡ some bytes
unfolding hex_lower decode_pairs
decode_pairs-hex_lower [] h = refl
decode_pairs-hex_lower (b ∷ bs) (here, there) =
    let hi = hex_digit-IsDigit (b / 16) (omega arith) in
    let lo = hex_digit-IsDigit (b % 16) (omega arith) in
    let pair =
      hex_pair-value (code hi.letter) (code lo.letter) (b / 16) (b % 16) hi.valued lo.valued
        hi.not_plus in
    let whole : 16 * (b / 16) + b % 16 ≡ b = omega arith in
    ap decode_pairs (two_digits hi.letter lo.letter (hex_lower bs) hi.is_letter lo.is_letter)
    ∙ decode_pairs-cons hi.letter lo.letter (hex_lower bs) (16 * (b / 16) + b % 16) bs pair
        (decode_pairs-hex_lower bs there)
    ∙ ap (λ x. some (x ∷ bs)) whole

char_count-hex_lower :
    (bytes : Bytes) → All IsByte bytes → char_count (hex_lower bytes) ≡ 2 * length bytes
unfolding hex_lower char_count
char_count-hex_lower [] h = refl
char_count-hex_lower (b ∷ bs) (here, there) =
    let hi = hex_digit-IsDigit (b / 16) (omega arith) in
    let lo = hex_digit-IsDigit (b % 16) (omega arith) in
    let more = char_count-hex_lower bs there in
    ap char_count (two_digits hi.letter lo.letter (hex_lower bs) hi.is_letter lo.is_letter)
    ∙ omega (arith, more)

-- A digest printed as hexadecimal digits reads back as the digest.
pub decode_hex_32-hex_lower :
    (digest : Bytes)
    → length digest ≡ 32
    → All IsByte digest
    → decode_hex_32 (hex_lower digest) ≡ some digest
unfolding decode_hex_32
decode_hex_32-hex_lower digest size bytes =
    let count : char_count (hex_lower digest) ≡ 64 =
      omega (arith, char_count-hex_lower digest bytes) in
    rw count (decode_pairs-hex_lower digest bytes)
