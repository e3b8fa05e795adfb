-- ===== src/Masking/Resolver.antt =====
-- crates/cloakpipe-core/src/resolver.rs
use cloakpipe.Base.{
  ℕ, Bool, not, ◌&&◌, ◌||◌, Option, none, some, List, [], ◌∷◌, length, Bytes, bytes_eq, ltb, leb,
  if◌then◌else◌,
}
use cloakpipe.Receipt.OperationId.{starts_with}
use cloakpipe.Masking.Entity.{EntityCategory, category_eq}
use cloakpipe.Masking.Assoc.{lookup, insert}

-- What the standard library and the crate `strsim` do: case, trimming, decimal digits, and 64-bit
-- floats by their bit patterns.
pub record Texts : Type 0 where
  pub to_lowercase : Bytes → Bytes
  pub to_uppercase : Bytes → Bytes
  pub trim : Bytes → Bytes
  pub decimal : ℕ → Bytes
  pub jaro_winkler : Bytes → Bytes → ℕ
  pub add : ℕ → ℕ → ℕ
  pub min : ℕ → ℕ → ℕ
  pub gt : ℕ → ℕ → Bool
  pub ge : ℕ → ℕ → Bool
  pub float_zero : ℕ
  pub float_one : ℕ
  pub prefix_bonus : ℕ

pub record ResolverConfig : Type 0 where
  pub enabled : Bool
  pub threshold : ℕ
  pub min_prefix_len : ℕ
  pub aliases : List (List Bytes)

pub record EntityResolver : Type 0 where
  pub config : ResolverConfig
  pub alias_map : List (Bytes × Bytes)

module _ (t : Texts) where
  unfoldable pub insert_variants : Bytes → List Bytes → List (Bytes × Bytes) → List (Bytes × Bytes)
  unfolding insert
  insert_variants canonical [] m = m
  insert_variants canonical (v ∷ vs) m =
      insert_variants canonical vs (insert (t.trim (t.to_lowercase v)) canonical m)

  -- A group of fewer than two texts is passed over.
  unfoldable pub insert_groups : List (List Bytes) → List (Bytes × Bytes) → List (Bytes × Bytes)
  unfolding insert_variants
  insert_groups [] m = m
  insert_groups ([] ∷ gs) m = insert_groups gs m
  insert_groups ((canonical ∷ []) ∷ gs) m = insert_groups gs m
  insert_groups ((canonical ∷ v ∷ vs) ∷ gs) m =
      insert_groups gs (insert_variants canonical (canonical ∷ v ∷ vs) m)

  unfoldable pub new_resolver : ResolverConfig → EntityResolver
  unfolding insert_groups
  new_resolver config = record { config = config; alias_map = insert_groups config.aliases [] }

  unfoldable pub similarity : ResolverConfig → Bytes → Bytes → ℕ
  similarity config a b =
      let a_lower = t.to_lowercase a in
      let b_lower = t.to_lowercase b in
      let score = t.jaro_winkler a_lower b_lower in
      let shorter =
        if ltb (length b_lower) (length a_lower) then length b_lower else length a_lower in
      let bonus =
        leb config.min_prefix_len shorter
        && (starts_with b_lower a_lower || starts_with a_lower b_lower) in
      t.min (if bonus then t.add score t.prefix_bonus else score) t.float_one

  -- The loop over the entries of the vault, with the best match and its score so far.
  unfoldable pub best_match :
      ResolverConfig
      → Bytes
      → EntityCategory
      → Option Bytes
      → ℕ
      → List (Bytes × EntityCategory)
      → Option Bytes
  unfolding similarity
  best_match config original category best best_score [] = best
  best_match config original category best best_score ((existing, c) ∷ rest) =
      let score = similarity config original existing in
      let skip = best_match config original category best best_score rest in
      let better = best_match config original category (some existing) score rest in
      if not (category_eq c category)
      then skip
      else if bytes_eq existing original
      then skip
      else if t.gt score best_score && t.ge score config.threshold
      then better
      else skip

  unfoldable pub resolve :
      EntityResolver → Bytes → EntityCategory → List (Bytes × EntityCategory) → Option Bytes
  unfolding best_match lookup
  resolve r original category existing =
      if not r.config.enabled
      then none
      else elim (lookup (t.trim (t.to_lowercase original)) r.alias_map) [
        | some canonical ↦ some canonical
        | none ↦ best_match r.config original category none t.float_zero existing
      ]
