-- ===== src/Tests/MerkleTests.antt =====
-- The Merkle tree over three records.
use cloakpipe.Base.{
  ℕ, zero, suc, ◌+◌, ◌*◌, ◌^◌, ◌≤◌, ◌<◌, ◌≡◌, refl, Bool, true, ◌⊎◌, Option, some, List, [], ◌∷◌,
  ◌++◌, length, Bytes, arith,
}
use cloakpipe.Merkle.{
  InclusionProof, ProofStep, left, right, root, from_leaves, inclusion_proof, verify_inclusion,
  leaf_hash, node_hash,
}
use cloakpipe.Merkle.Inclusion.{verify_inclusion-inclusion_proof}
use cloakpipe.Merkle.Binding.{Collision, verify_inclusion-binding}
use cloakpipe.Merkle.Depth.{length-inclusion_proof, root-from_leaves_twice}

-- A stand-in for SHA-256: the first 32 bytes of the input, filled up with zeros.
abbrev pad : ℕ → Bytes → Bytes
pad zero bytes = []
pad (suc n) [] = 0 ∷ pad n []
pad (suc n) (b ∷ bytes) = b ∷ pad n bytes

length-pad : (n : ℕ) (bytes : Bytes) → length (pad n bytes) ≡ n
length-pad zero bytes = refl
length-pad (suc n) [] = omega (arith, length-pad n [])
length-pad (suc n) (b ∷ bytes) = omega (arith, length-pad n bytes)

abbrev toy_digest : Bytes → Bytes
toy_digest bytes = pad 32 bytes

abbrev records : List Bytes
records = (1 ∷ 2 ∷ []) ∷ (3 ∷ 4 ∷ []) ∷ (5 ∷ 6 ∷ []) ∷ []

verify_inclusion-inclusion_proof_example :
    (r : Bytes) × (proof : InclusionProof) × (root (from_leaves toy_digest records) ≡ some r)
    × (inclusion_proof (from_leaves toy_digest records) 2 ≡ some proof)
    × (proof.leaf_index ≡ 2)
    × (proof.total_leaves ≡ length records)
    × (verify_inclusion toy_digest r (5 ∷ 6 ∷ []) proof ≡ true)
verify_inclusion-inclusion_proof_example =
    verify_inclusion-inclusion_proof toy_digest records 2 refl

-- A proof of one step; the stand-in does not tell an empty record from a zero.
abbrev one_step : InclusionProof
one_step = record {
  leaf_index = 0;
  total_leaves = 2;
  steps = record { position = right; hash = toy_digest (7 ∷ []) } ∷ [];
}

abbrev one_root : Bytes
unfolding node_hash leaf_hash
one_root = node_hash toy_digest (leaf_hash toy_digest []) (toy_digest (7 ∷ []))

accepts_empty : verify_inclusion toy_digest one_root [] one_step ≡ true
unfolding verify_inclusion node_hash leaf_hash cloakpipe.Base.bytes_eq
accepts_empty = refl

accepts_zero : verify_inclusion toy_digest one_root (0 ∷ []) one_step ≡ true
unfolding verify_inclusion node_hash leaf_hash cloakpipe.Base.bytes_eq
accepts_zero = refl

verify_inclusion-binding_example : (◌≡◌ {A = Bytes} [] (0 ∷ [])) ⊎ Collision toy_digest
verify_inclusion-binding_example =
    verify_inclusion-binding toy_digest (length-pad 32) one_root [] (0 ∷ []) one_step one_step
      (refl, tt) (refl, tt) refl accepts_empty accepts_zero

abbrev proof_of_last : InclusionProof
proof_of_last = record {
  leaf_index = 2;
  total_leaves = 3;
  steps =
      record { position = right; hash = toy_digest (0 ∷ 5 ∷ 6 ∷ []) }
      ∷ record { position = left; hash = toy_digest (1 ∷ toy_digest (0 ∷ 1 ∷ 2 ∷ [])) }
      ∷ [];
}

finds_last : inclusion_proof (from_leaves toy_digest records) 2 ≡ some proof_of_last
unfolding inclusion_proof from_leaves cloakpipe.Merkle.build_levels cloakpipe.Merkle.next_level
    leaf_hash node_hash
finds_last = refl

length-inclusion_proof_example : (3 ≤ 2 ^ 2) × (2 ^ 2 < 2 * 3)
length-inclusion_proof_example =
    length-inclusion_proof toy_digest records 2 {proof = proof_of_last} (omega arith) finds_last

root-from_leaves_twice_example :
    root (from_leaves toy_digest ((1 ∷ []) ∷ (2 ∷ []) ∷ (3 ∷ []) ∷ []))
    ≡ root (from_leaves toy_digest ((1 ∷ []) ∷ (2 ∷ []) ∷ (3 ∷ []) ∷ (3 ∷ []) ∷ []))
root-from_leaves_twice_example =
    root-from_leaves_twice toy_digest ((1 ∷ []) ∷ (2 ∷ []) ∷ []) (3 ∷ []) refl (omega arith)
