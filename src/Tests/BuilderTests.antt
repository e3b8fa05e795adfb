-- ===== src/Tests/BuilderTests.antt =====
-- Metadata that the builder takes, and some that it refuses.
use Prim.Native.Char.{char}
use cloakpipe.Base.{
  ℕ, zero, suc, ◌≡◌, refl, sym, ap, ◌∙◌, String, Bool, true, false, List, [], ◌∷◌, any, length, All,
  nat_eq, arith,
}
use cloakpipe.Base.Results.{ok, err}
use cloakpipe.Receipt.OperationId.{codes, contains_codes}
use cloakpipe.Ledger.Record.{MetadataValue, bool, integer, hash, opaque_id}
use cloakpipe.Ledger.Canonical.{Formats}
use cloakpipe.Ledger.Builder.{
  metadata_delimiter, bad_metadata_key, pii_in_metadata, validate_metadata,
}
use cloakpipe.Ledger.Metadata.{IsTyped, Decimals, metadata_text-injective}

-- A number by as many ones.
abbrev ones : ℕ → String
ones zero = String.[]
ones (suc n) = String.◌∷◌ (char 49 tt) (ones n)

abbrev formats : Formats
formats = record {
  decimal = ones;
  decimal_i64 = ones;
  to_rfc3339_secs = λ n. "";
  hyphenated = λ u. "";
  into_bytes = codes;
}

abbrev is_space : ℕ → Bool
is_space c = nat_eq c 32

count-ones : (n : ℕ) → length (codes (ones n)) ≡ n
unfolding codes
count-ones zero = refl
count-ones (suc n) = ap suc (count-ones n)

ones_plain : (n : ℕ) → any (nat_eq 59) (codes (ones n)) ≡ false
unfolding codes
ones_plain zero = refl
ones_plain (suc n) = ones_plain n

decimals : Decimals formats
decimals = record {
  apart = λ i j li lj e. sym (count-ones i) ∙ ap (λ s. length (codes s)) e ∙ count-ones j;
  plain = ones_plain;
}

abbrev metadata : List (String × MetadataValue)
metadata =
    ("release_hash", hash (7 ∷ 255 ∷ []))
    ∷ ("retries", integer 3)
    ∷ ("session", opaque_id "s-81")
    ∷ []

metadata-IsTyped : All IsTyped metadata
metadata-IsTyped = ((omega arith, (omega arith, tt)), (omega arith, (tt, tt)))

metadata_valid : validate_metadata formats is_space metadata ≡ ok tt
unfolding validate_metadata codes contains_codes
metadata_valid = refl

metadata_text-injective_example : metadata ≡ metadata
metadata_text-injective_example =
    metadata_text-injective formats decimals is_space metadata metadata metadata-IsTyped
      metadata-IsTyped metadata_valid metadata_valid refl

refuses_delimiter :
    validate_metadata formats is_space (("session", opaque_id "x;release_hash") ∷ [])
    ≡ err (metadata_delimiter "session")
unfolding validate_metadata codes contains_codes
refuses_delimiter = refl

refuses_email :
    validate_metadata formats is_space (("who", opaque_id "a@example.org") ∷ [])
    ≡ err (pii_in_metadata "who" "contains marker `@`")
unfolding validate_metadata codes contains_codes
refuses_email = refl

refuses_key :
    validate_metadata formats is_space (("a=b", bool true) ∷ []) ≡ err (bad_metadata_key "a=b")
unfolding validate_metadata codes
refuses_key = refl
