-- ===== src/Masking/Replacer.antt =====
-- crates/cloakpipe-core/src/replacer.rs. A slice out of range, or a range that ends before it
-- starts, panics: `none`.
use cloakpipe.Base.{
  ℕ, ◌-◌, ◌&&◌, Option, none, some, List, [], ◌∷◌, ◌++◌, length, take, drop, Bytes, ltb, leb,
  if◌then◌else◌,
}
use cloakpipe.Base.Options.{◌>>=◌}
use cloakpipe.Masking.Entity.{EntityCategory, DetectedEntity, PseudoToken, PseudonymizedText}
use cloakpipe.Masking.Assoc.{insert}
use cloakpipe.Masking.Resolver.{Texts}
use cloakpipe.Masking.Vault.{Vault, get_or_create, get_or_create_fp}

pub data MaskingStrategy : Type 0 where
  token_strategy format_preserving : MaskingStrategy

-- `&text[a..b]`
unfoldable pub slice : ℕ → ℕ → Bytes → Option Bytes
slice a b text = if leb a b && leb b (length text) then some (take (b - a) (drop a text)) else none

-- The text between the last entity and this one.
unfoldable pub gap : ℕ → ℕ → Bytes → Option Bytes
unfolding slice
gap last_end start text = if ltb last_end start then slice last_end start text else some []

unfoldable pub tail_text : ℕ → Bytes → Option Bytes
unfolding slice
tail_text last_end text =
    if ltb last_end (length text) then slice last_end (length text) text else some []

module _ (source : Bytes → EntityCategory → Vault → PseudoToken × Vault) where
  -- The loop, from the text written, the mappings and the end of the last entity so far.
  unfoldable pub replace_loop :
      Bytes
      → Bytes
      → List (Bytes × Bytes)
      → ℕ
      → List DetectedEntity
      → Vault
      → Option ((Bytes × List (Bytes × Bytes)) × Vault)
  unfolding gap tail_text insert
  replace_loop text written mappings last_end [] v = do
    rest ← tail_text last_end text
    some ((written ++ rest, mappings), v)
  replace_loop text written mappings last_end (x ∷ xs) v = do
    before ← gap last_end x.start text
    let (token, v') = source x.original x.category v
    replace_loop text (written ++ before ++ token.token) (insert token.token x.original mappings)
        x.stop xs v'

  unfoldable pub replace_with :
      Bytes → List DetectedEntity → Vault → Option (PseudonymizedText × Vault)
  unfolding replace_loop
  replace_with text entities v = do
    ((written, mappings), v') ← replace_loop text [] [] 0 entities v
    some (record { text = written; mappings = mappings; entities = entities }, v')

module _ (t : Texts) where
  unfoldable pub pseudonymize :
      Bytes → List DetectedEntity → Vault → Option (PseudonymizedText × Vault)
  unfolding replace_with get_or_create
  pseudonymize text entities v = replace_with (get_or_create t) text entities v

  unfoldable pub pseudonymize_fp :
      (Bytes → EntityCategory → ℕ → Bytes)
      → Bytes
      → List DetectedEntity
      → Vault
      → Option (PseudonymizedText × Vault)
  unfolding replace_with get_or_create_fp
  pseudonymize_fp generate text entities v =
      replace_with (get_or_create_fp t generate) text entities v

  unfoldable pub pseudonymize_with_strategy :
      (Bytes → EntityCategory → ℕ → Bytes)
      → MaskingStrategy
      → Bytes
      → List DetectedEntity
      → Vault
      → Option (PseudonymizedText × Vault)
  unfolding pseudonymize pseudonymize_fp
  pseudonymize_with_strategy generate token_strategy text entities v = pseudonymize text entities v
  pseudonymize_with_strategy generate format_preserving text entities v =
      pseudonymize_fp generate text entities v
