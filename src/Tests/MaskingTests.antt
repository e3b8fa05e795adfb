-- ===== src/Tests/MaskingTests.antt =====
-- A text with two mentions of one person and one of another, masked.
use cloakpipe.Base.{
  ℕ, zero, suc, ◌+◌, ◌<◌, ◌≡◌, refl, ap, sym, ◌∙◌, Bool, true, false, Option, none, some, List, [],
  ◌∷◌, length, replicate, any, Bytes, nat_eq, arith,
}
use cloakpipe.Receipt.OperationId.{codes}
use cloakpipe.Masking.Entity.{DetectedEntity, PseudonymizedText, person}
use cloakpipe.Masking.Assoc.{lookup, insert}
use cloakpipe.Masking.Resolver.{Texts, new_resolver}
use cloakpipe.Masking.Vault.{Vault, new_vault, set_resolver, get_or_create, original_of, reload}
use cloakpipe.Masking.Tokens.{Digits}
use cloakpipe.Masking.Known.{IsVault, HasRoom, new_vault-IsVault}
use cloakpipe.Masking.Replacer.{pseudonymize}
use cloakpipe.Masking.Roundtrip.{
  pieces_of, AreTokens, shown, restored, IsSpans, pseudonymize-restored,
}

-- Numbers by as many ones; no change of case; no text resembles another.
abbrev texts : Texts
texts = record {
  to_lowercase = λ s. s;
  to_uppercase = λ s. s;
  trim = λ s. s;
  decimal = λ n. replicate n 49;
  jaro_winkler = λ a b. 0;
  add = λ a b. a + b;
  min = λ a b. a;
  gt = λ a b. false;
  ge = λ a b. false;
  float_zero = 0;
  float_one = 1;
  prefix_bonus = 0;
}

length-ones : (n : ℕ) → length {A = ℕ} (replicate n 49) ≡ n
length-ones zero = refl
length-ones (suc n) = ap suc (length-ones n)

ones_plain : (n : ℕ) → any (nat_eq 95) (replicate n 49) ≡ false
ones_plain zero = refl
ones_plain (suc n) = ones_plain n

digits : Digits texts
digits = record {
  injective = λ m n e. sym (length-ones m) ∙ ap length e ∙ length-ones n;
  plain = ones_plain;
}

abbrev greeting : Bytes
greeting = codes "Bob and Eve and Bob"

abbrev mention : Bytes → ℕ → ℕ → DetectedEntity
mention name start stop = record { original = name; start = start; stop = stop; category = person }

abbrev mentions : List DetectedEntity
mentions = mention (codes "Bob") 0 3 ∷ mention (codes "Eve") 8 11 ∷ mention (codes "Bob") 16 19 ∷ []

has_room : HasRoom texts 3 new_vault
unfolding lookup
has_room prefix = omega arith

spans : IsSpans greeting 0 mentions
unfolding codes
spans = (
  omega arith,
  omega arith,
  omega arith,
  refl,
  (
    omega arith,
    omega arith,
    omega arith,
    refl,
    (omega arith, omega arith, omega arith, refl, omega arith),
  ),
)

pseudonymize-restored_example :
    (p : PseudonymizedText) × (v' : Vault) × (tokens : List Bytes) × (pseudonymize texts greeting
        mentions new_vault
      ≡ some (p, v'))
    × (p.text ≡ shown (pieces_of greeting 0 mentions tokens))
    × AreTokens texts v' mentions tokens
    × (restored v' (pieces_of greeting 0 mentions tokens) ≡ some greeting)
    × IsVault texts v'
pseudonymize-restored_example =
    pseudonymize-restored texts digits greeting mentions new_vault (new_vault-IsVault texts)
      has_room spans

abbrev text_of : Option (PseudonymizedText × Vault) → Bytes
text_of none = []
text_of (some (p, v)) = p.text

masks :
    text_of (pseudonymize texts greeting mentions new_vault)
    ≡ codes "PERSON_1 and PERSON_11 and PERSON_1"
unfolding pseudonymize lookup insert codes cloakpipe.Base.bytes_eq
masks = refl

-- Two spellings of one name share a token, which stands for the first of them until the vault is
-- saved and loaded.
abbrev aliases : Vault
aliases =
    set_resolver
      (new_resolver texts (record {
        enabled = true;
        threshold = 0;
        min_prefix_len = 4;
        aliases = (codes "Robert" ∷ codes "Bob" ∷ []) ∷ [];
      }))
      new_vault

abbrev both : Vault
both =
    let first = (get_or_create texts (codes "Robert") person aliases).1 in
    (get_or_create texts (codes "Bob") person first).1

before_reload : original_of (codes "PERSON_1") both ≡ some (codes "Robert")
unfolding original_of get_or_create new_resolver codes cloakpipe.Base.bytes_eq
before_reload = refl

after_reload : original_of (codes "PERSON_1") (reload both) ≡ some (codes "Bob")
unfolding original_of get_or_create new_resolver reload codes cloakpipe.Base.bytes_eq
after_reload = refl
