-- ===== src/Merkle/Depth.antt =====
-- How long a proof is, and the roots of lists with an odd last leaf.
use mathlib.Core.List.{map-append}
use native.Mathlib.Nat.{pow-suc}
use cloakpipe.Base.{
  ℕ, zero, suc, ◌+◌, ◌*◌, ◌/◌, ◌%◌, ◌^◌, ◌≤◌, ◌<◌, ◌≡◌, refl, sym, ap, ◌∙◌, some, false, List, [],
  ◌∷◌, ◌++◌, map, length, length-append, length-map, Bytes, arith, leb, leb→le, Bool-cases, inl,
  inr,
}
use cloakpipe.Base.Options.{>>=-eq-some}
use cloakpipe.Merkle.{
  ProofStep, InclusionProof, last_level, root, root_of, sibling_of, proof_steps, inclusion_proof,
  leaf_hash, next_level, build_levels, from_hashed_leaves, from_leaves,
}
use cloakpipe.Merkle.Inclusion.{length-next_level, build_levels-cons}

-- One step for each level below the root.
length-proof_steps :
    (levels : List (List Bytes)) (i : ℕ) {steps : List ProofStep}
    → proof_steps levels i ≡ some steps
    → suc (length steps) ≡ length levels
unfolding proof_steps
length-proof_steps [] i e = cc
length-proof_steps (top ∷ []) i e = ground arith
length-proof_steps (cur ∷ above ∷ rest) i e =
    let (hash, found, e') = >>=-eq-some (sibling_of cur i) _ e in
    let (steps, found', e'') = >>=-eq-some (proof_steps (above ∷ rest) (i / 2)) _ e' in
    ground (arith, length-proof_steps (above ∷ rest) (i / 2) found')

-- `d` levels above `n` leaves are enough, and not one fewer.
abbrev IsDepth : ℕ → ℕ → Type 0
IsDepth d n = (n ≤ 2 ^ d) × (2 ^ d < 2 * n)

IsDepth-suc : (d n m : ℕ) → 1 < n → m ≡ (n + 1) / 2 → IsDepth d m → IsDepth (suc d) n
IsDepth-suc zero n m h e (a, b) = omega arith
IsDepth-suc (suc d) n m h e (a, b) = omega (arith, pow-suc 2 d, pow-suc 2 (suc d))

module _ (sha256 : Bytes → Bytes) where
  build_levels-IsDepth :
      (fuel : ℕ) (l : List Bytes)
      → 0 < length l
      → length l ≤ suc fuel
      → (d : ℕ) × (length (build_levels sha256 fuel l) ≡ suc d) × IsDepth d (length l)
  unfolding build_levels
  build_levels-IsDepth zero l p h = (0, refl, omega arith)
  build_levels-IsDepth (suc fuel) l p h = elim (Bool-cases (leb (length l) 1)) [
    | inl t ↦ rw t (0, refl, omega (arith, leb→le _ _ t))
    | inr t ↦
        let big : 1 < length l = ground arith in
        let size = length-next_level sha256 l in
        let (d, e, depth) =
          build_levels-IsDepth fuel (next_level sha256 l) (omega arith) (omega arith) in
        rw t (suc d, ap suc e, IsDepth-suc d (length l) _ big size depth)
  ]

  -- The depth of the tree over a list that is not empty.
  from_hashed_leaves-IsDepth :
      (l : List Bytes)
      → 0 < length l
      → (d : ℕ) × (length (from_hashed_leaves sha256 l).levels ≡ suc d) × IsDepth d (length l)
  unfolding from_hashed_leaves
  from_hashed_leaves-IsDepth [] h = elim h [ ]
  from_hashed_leaves-IsDepth (a ∷ r) h =
      build_levels-IsDepth (length (a ∷ r)) (a ∷ r) h (omega arith)

  -- A proof for one of `n` leaves, where there are any, has the least number of steps `d` with `n
  -- ≤ 2 ^ d`.
  pub length-inclusion_proof :
      (leaves : List Bytes) (i : ℕ) {proof : InclusionProof}
      → 0 < length leaves
      → inclusion_proof (from_leaves sha256 leaves) i ≡ some proof
      → (length leaves ≤ 2 ^ length proof.steps) × (2 ^ length proof.steps < 2 * length leaves)
  unfolding inclusion_proof from_leaves
  length-inclusion_proof leaves i {proof} h e =
      let t = from_hashed_leaves sha256 (map (leaf_hash sha256) leaves) in
      let size : length (map (leaf_hash sha256) leaves) ≡ length leaves =
        length-map leaves (leaf_hash sha256) in
      let (d, deep, depth) =
        from_hashed_leaves-IsDepth (map (leaf_hash sha256) leaves) (rw size h) in
      let found : proof_steps t.levels i ≡ some proof.steps = ground arith in
      let count : length proof.steps ≡ d =
        omega (arith, length-proof_steps t.levels i found, deep) in
      rw (count, sym size) depth

  -- Beyond the levels that are needed, fuel changes nothing.
  build_levels-fuel :
      (fuel fuel' : ℕ) (l : List Bytes)
      → length l ≤ suc fuel
      → length l ≤ suc fuel'
      → build_levels sha256 fuel l ≡ build_levels sha256 fuel' l
  unfolding build_levels
  build_levels-fuel zero zero l h h' = refl
  build_levels-fuel zero (suc fuel') l h h' = ground arith
  build_levels-fuel (suc fuel) zero l h h' = ground arith
  build_levels-fuel (suc fuel) (suc fuel') l h h' =
      ground (arith, build_levels-fuel fuel fuel' (next_level sha256 l), length-next_level sha256 l)

  next_level-append_twice :
      (l : List Bytes) (x : Bytes)
      → length l % 2 ≡ 0
      → next_level sha256 (l ++ x ∷ []) ≡ next_level sha256 (l ++ x ∷ x ∷ [])
  unfolding next_level
  next_level-append_twice [] x h = refl
  next_level-append_twice (a ∷ []) x h = absurd (omega arith)
  next_level-append_twice (a ∷ b ∷ r) x h = rw (next_level-append_twice r x (omega arith))

  -- The root of two or more nodes is the root of the level above them.
  last_level-build_levels :
      (fuel : ℕ) (l : List Bytes)
      → 1 < length l
      → last_level (build_levels sha256 (suc fuel) l)
        ≡ last_level (build_levels sha256 fuel (next_level sha256 l))
  unfolding build_levels last_level
  last_level-build_levels fuel l h =
      let (rest, hr) = build_levels-cons sha256 fuel (next_level sha256 l) in
      let many : leb (length l) 1 ≡ false = ground arith in rw (many, hr)

  root-append_twice :
      (a b : Bytes) (r : List Bytes) (x : Bytes)
      → length r % 2 ≡ 0
      → last_level (from_hashed_leaves sha256 (a ∷ b ∷ (r ++ x ∷ []))).levels
        ≡ last_level (from_hashed_leaves sha256 (a ∷ b ∷ (r ++ x ∷ x ∷ []))).levels
  unfolding from_hashed_leaves
  root-append_twice a b r x h =
      let l = a ∷ b ∷ r in
      let k = suc (length (r ++ x ∷ [])) in
      let k' = suc (length (r ++ x ∷ x ∷ [])) in
      let n = length-append r (x ∷ []) in
      let n' = length-append r (x ∷ x ∷ []) in
      let size = length-next_level sha256 (l ++ x ∷ x ∷ []) in
      last_level-build_levels k (l ++ x ∷ []) (omega arith)
      ∙ rw (next_level-append_twice l x (omega arith)) (
          ap last_level (
            build_levels-fuel k k' (next_level sha256 (l ++ x ∷ x ∷ [])) (omega arith)
              (omega arith)))
      ∙ sym (last_level-build_levels k' (l ++ x ∷ x ∷ []) (omega arith))

  -- Where the number of leaves is odd and more than one, the leaves with the last one repeated
  -- have the same root.
  pub root-from_leaves_twice :
      (leaves : List Bytes) (x : Bytes)
      → length leaves % 2 ≡ 0
      → 0 < length leaves
      → root (from_leaves sha256 (leaves ++ x ∷ []))
        ≡ root (from_leaves sha256 (leaves ++ x ∷ x ∷ []))
  unfolding root from_leaves
  root-from_leaves_twice [] x h p = elim p [ ]
  root-from_leaves_twice (a ∷ []) x h p = absurd (omega arith)
  root-from_leaves_twice (a ∷ b ∷ r) x h p =
      let hash = leaf_hash sha256 in
      let size = length-map r hash in
      rw (map-append hash r (x ∷ []), map-append hash r (x ∷ x ∷ []))
        (ap root_of (root-append_twice (hash a) (hash b) (map hash r) (hash x) (omega arith)))
