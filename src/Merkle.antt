-- ===== src/Merkle.antt =====
-- crates/cloakpipe-anchor/src/merkle.rs: the Merkle tree over record hashes, its inclusion proofs
-- and their check. A panic (an `unwrap` or an index out of range) is `none`.
pub mod Binding
pub mod Depth
pub mod Inclusion
use cloakpipe.Base.{
  ℕ, zero, suc, ◌+◌, ◌-◌, ◌/◌, ◌%◌, Bool, Option, none, some, List, [], ◌∷◌, ◌++◌, map, length,
  get_elem?, replicate, Bytes, bytes_eq, leb, ltb, nat_eq, if◌then◌else◌,
}
use cloakpipe.Base.Options.{◌>>=◌}

pub data ProofPosition : Type 0 where
  left right : ProofPosition

pub record ProofStep : Type 0 where
  pub position : ProofPosition
  pub hash : Bytes

pub record InclusionProof : Type 0 where
  pub leaf_index : ℕ
  pub total_leaves : ℕ
  pub steps : List ProofStep

-- `levels[0]` is the leaves, the last level is the root.
pub record MerkleTree : Type 0 where
  pub levels : List (List Bytes)

abbrev pub zero_digest : Bytes
zero_digest = replicate 32 0

-- `levels.last()`
unfoldable pub last_level : List (List Bytes) → Option (List Bytes)
last_level [] = none
last_level (l ∷ []) = some l
last_level (l ∷ k ∷ r) = last_level (k ∷ r)

abbrev pub root_of : Option (List Bytes) → Option Bytes
root_of none = none
root_of (some level) = get_elem? level 0

-- `self.levels.last().unwrap()[0]`
unfoldable pub root : MerkleTree → Option Bytes
unfolding last_level
root t = root_of (last_level t.levels)

abbrev pub first_level : List (List Bytes) → List Bytes
first_level [] = []
first_level (l ∷ _) = l

unfoldable pub leaf_count : MerkleTree → ℕ
leaf_count t = length (first_level t.levels)

abbrev pub is_even : ℕ → Bool
is_even idx = nat_eq (idx % 2) 0

abbrev pub sibling_index : ℕ → ℕ
sibling_index idx = if is_even idx then idx + 1 else idx - 1

-- The sibling of a node, or the node itself where the level ends at it.
unfoldable pub sibling_of : List Bytes → ℕ → Option Bytes
sibling_of cur idx =
    if ltb (sibling_index idx) (length cur)
    then get_elem? cur (sibling_index idx)
    else get_elem? cur idx

abbrev pub position_of : ℕ → ProofPosition
position_of idx = if is_even idx then right else left

-- `for level in 0..self.levels.len() - 1`: every level but the last.
unfoldable pub proof_steps : List (List Bytes) → ℕ → Option (List ProofStep)
unfolding sibling_of
proof_steps [] idx = none
proof_steps (top ∷ []) idx = some []
proof_steps (cur ∷ above ∷ rest) idx = do
  hash ← sibling_of cur idx
  steps ← proof_steps (above ∷ rest) (idx / 2)
  some (record { position = position_of idx; hash = hash } ∷ steps)

unfoldable pub inclusion_proof : MerkleTree → ℕ → Option InclusionProof
unfolding proof_steps leaf_count
inclusion_proof t index =
    if ltb index (leaf_count t)
    then (do
      steps ← proof_steps t.levels index
      some (record { leaf_index = index; total_leaves = leaf_count t; steps = steps }))
    else none

-- `sha256` is `Sha256` of the crate `sha2`.
module _ (sha256 : Bytes → Bytes) where
  unfoldable pub leaf_hash : Bytes → Bytes
  leaf_hash value = sha256 (0 ∷ value)

  unfoldable pub node_hash : Bytes → Bytes → Bytes
  node_hash l r = sha256 (1 ∷ l ++ r)

  -- The inner loop over `i += 2`: one level from the one below; an odd last node is paired with
  -- itself.
  unfoldable pub next_level : List Bytes → List Bytes
  next_level [] = []
  next_level (l ∷ []) = node_hash l l ∷ []
  next_level (l ∷ r ∷ rest) = node_hash l r ∷ next_level rest

  -- `while levels.last().unwrap().len() > 1`, on fuel.
  unfoldable pub build_levels : ℕ → List Bytes → List (List Bytes)
  build_levels zero level = level ∷ []
  build_levels (suc fuel) level =
      let rest = build_levels fuel (next_level level) in
      if leb (length level) 1 then level ∷ [] else level ∷ rest

  unfoldable pub from_hashed_leaves : List Bytes → MerkleTree
  from_hashed_leaves [] = record { levels = (zero_digest ∷ []) ∷ [] }
  from_hashed_leaves (l ∷ ls) = record { levels = build_levels (length (l ∷ ls)) (l ∷ ls) }

  unfoldable pub from_leaves : List Bytes → MerkleTree
  unfolding from_hashed_leaves
  from_leaves leaves = from_hashed_leaves (map leaf_hash leaves)

  -- The parent of a node and its sibling, which stands at the given position.
  abbrev pub parent : ProofPosition → Bytes → Bytes → Bytes
  parent left sibling cur = node_hash sibling cur
  parent right sibling cur = node_hash cur sibling

  abbrev pub apply_step : ProofStep → Bytes → Bytes
  apply_step step cur = parent step.position step.hash cur

  unfoldable pub fold_steps : List ProofStep → Bytes → Bytes
  fold_steps [] cur = cur
  fold_steps (s ∷ steps) cur = fold_steps steps (apply_step s cur)

  unfoldable pub verify_inclusion : Bytes → Bytes → InclusionProof → Bool
  unfolding fold_steps leaf_hash
  verify_inclusion root leaf proof = bytes_eq (fold_steps proof.steps (leaf_hash leaf)) root
