-- ===== src/Merkle/Inclusion.antt =====
-- The inclusion proofs of a built tree, and their check.
use cloakpipe.Base.{
  ℕ, zero, suc, ◌+◌, ◌/◌, ◌≤◌, ◌<◌, ◌≡◌, refl, some, true, List, [], ◌∷◌, map, length, get_elem?,
  get_elem?-lt_length, lt_length-get_elem?, get_elem?-map, length-map, Bytes, bytes_eq_refl, arith,
  leb, leb→le, ltb, ltb→lt, lt→ltb, ◌∙◌, Bool-cases, sym, inl, inr,
}
use cloakpipe.Merkle.{
  ProofStep, InclusionProof, last_level, first_level, root, root_of, sibling_of, sibling_index,
  position_of, proof_steps, inclusion_proof, leaf_hash, next_level, build_levels,
  from_hashed_leaves, from_leaves, apply_step, fold_steps, verify_inclusion,
}

sibling_index-suc-suc : (i : ℕ) → sibling_index (suc (suc i)) ≡ suc (suc (sibling_index i))
sibling_index-suc-suc i = ground arith

position_of-suc-suc : (i : ℕ) → position_of (suc (suc i)) ≡ position_of i
position_of-suc-suc i = ground arith

sibling_of-suc-suc :
    (a b : Bytes) (r : List Bytes) (i : ℕ) → sibling_of (a ∷ b ∷ r) (suc (suc i)) ≡ sibling_of r i
unfolding sibling_of
sibling_of-suc-suc a b r i = rw sibling_index-suc-suc (ground arith)

half-suc-suc : (i : ℕ) → suc (suc i) / 2 ≡ suc (i / 2)
half-suc-suc i = omega arith

-- A node in range has a sibling.
sibling_of-in_range :
    (l : List Bytes) (i : ℕ) → i < length l → (s : Bytes) × (sibling_of l i ≡ some s)
unfolding sibling_of
sibling_of-in_range l i h = elim (Bool-cases (ltb (sibling_index i) (length l))) [
  | inl e ↦ rw e (get_elem?-lt_length l (sibling_index i) (ltb→lt _ _ e))
  | inr e ↦ rw e (get_elem?-lt_length l i h)
]

module _ (sha256 : Bytes → Bytes) where
  -- From a node and the sibling that its proof names, one step gives the node above it.
  step_up :
      (l : List Bytes) (i : ℕ) {x s : Bytes}
      → get_elem? l i ≡ some x
      → sibling_of l i ≡ some s
      → get_elem? (next_level sha256 l) (i / 2)
        ≡ some (apply_step sha256 (record { position = position_of i; hash = s }) x)
  unfolding next_level sibling_of
  step_up [] i h k = cc
  step_up (a ∷ []) zero h k = ground arith
  step_up (a ∷ []) (suc i) h k = cc
  step_up (a ∷ b ∷ r) zero h k = ground arith
  step_up (a ∷ b ∷ r) (suc zero) h k = ground arith
  step_up (a ∷ b ∷ r) (suc (suc i)) h k =
      rw (half-suc-suc, position_of-suc-suc)
        (step_up r i h (rw (sym (sibling_of-suc-suc a b r i)) k))

  -- A level above is shorter.
  pub length-next_level : (l : List Bytes) → length (next_level sha256 l) ≡ (length l + 1) / 2
  unfolding next_level
  length-next_level [] = refl
  length-next_level (a ∷ []) = refl
  length-next_level (a ∷ b ∷ r) = omega (arith, length-next_level r)

  -- The levels begin with the level they are built on.
  pub build_levels-cons :
      (fuel : ℕ) (l : List Bytes)
      → (rest : List (List Bytes)) × (build_levels sha256 fuel l ≡ l ∷ rest)
  unfolding build_levels
  build_levels-cons zero l = ([], refl)
  build_levels-cons (suc fuel) l = elim (Bool-cases (leb (length l) 1)) [
    | inl e ↦ ([], rw e)
    | inr e ↦ (build_levels sha256 fuel (next_level sha256 l), rw e)
  ]

  -- What the steps of a proof lead to, from a node in range on the lowest level.
  abbrev Climbs : List (List Bytes) → ℕ → Bytes → Type 0
  Climbs levels i x =
      (steps : List ProofStep) × (proof_steps levels i ≡ some steps)
      × (root_of (last_level levels) ≡ some (fold_steps sha256 steps x))

  -- A single node is its own root.
  climb_top :
      (l : List Bytes) (i : ℕ) {x : Bytes}
      → length l ≤ 1
      → get_elem? l i ≡ some x
      → Climbs (l ∷ []) i x
  unfolding proof_steps last_level fold_steps
  climb_top [] i h e = cc
  climb_top (a ∷ []) zero h e = ([], refl, e)
  climb_top (a ∷ []) (suc i) h e = cc
  climb_top (a ∷ b ∷ r) i h e = absurd (omega arith)

  -- One more level below.
  climb_below :
      (cur above : List Bytes) (rest : List (List Bytes)) (i : ℕ) (x s : Bytes)
      → sibling_of cur i ≡ some s
      → Climbs
          (above ∷ rest)
          (i / 2)
          (apply_step sha256 (record { position = position_of i; hash = s }) x)
      → Climbs (cur ∷ above ∷ rest) i x
  unfolding proof_steps last_level fold_steps
  climb_below cur above rest i x s hs (steps, found, reaches) =
      (record { position = position_of i; hash = s } ∷ steps, rw (hs, found), reaches)

  climb :
      (fuel : ℕ) (l : List Bytes) (i : ℕ) {x : Bytes}
      → length l ≤ suc fuel
      → get_elem? l i ≡ some x
      → Climbs (build_levels sha256 fuel l) i x
  unfolding build_levels
  climb zero l i h e = climb_top l i h e
  climb (suc fuel) l i {x} h e = elim (Bool-cases (leb (length l) 1)) [
    | inl t ↦ rw t (climb_top l i (leb→le _ _ t) e)
    | inr t ↦
        let (s, hs) = sibling_of-in_range l i (lt_length-get_elem? l i e) in
        let (rest, hr) = build_levels-cons fuel (next_level sha256 l) in
        let bound : length (next_level sha256 l) ≤ suc fuel = ground (arith, length-next_level l) in
        let up = climb fuel (next_level sha256 l) (i / 2) bound (step_up l i e hs) in
        rw (t, hr) (climb_below l (next_level sha256 l) rest i x s hs (rw hr at up))
  ]

  first_level-build_levels :
      (fuel : ℕ) (l : List Bytes) → first_level (build_levels sha256 fuel l) ≡ l
  first_level-build_levels fuel l = rw ((build_levels-cons fuel l).1)

  Climbs-from_hashed_leaves :
      (l : List Bytes) (i : ℕ) {x : Bytes}
      → get_elem? l i ≡ some x
      → Climbs (from_hashed_leaves sha256 l).levels i x
  unfolding from_hashed_leaves
  Climbs-from_hashed_leaves [] i e = cc
  Climbs-from_hashed_leaves (a ∷ r) i e = climb (length (a ∷ r)) (a ∷ r) i (omega arith) e

  leaf_count-from_hashed_leaves :
      (l : List Bytes) {n : ℕ}
      → n < length l
      → length (first_level (from_hashed_leaves sha256 l).levels) ≡ length l
  unfolding from_hashed_leaves
  leaf_count-from_hashed_leaves [] h = elim h [ ]
  leaf_count-from_hashed_leaves (a ∷ r) h = rw first_level-build_levels

  -- For every leaf of a list, the tree built from the list has a root and an inclusion proof for
  -- the leaf's index: no index panics, the proof names the index and the number of leaves, and
  -- the check accepts it for the leaf against the root.
  pub verify_inclusion-inclusion_proof :
      (leaves : List Bytes) (i : ℕ) {leaf : Bytes}
      → get_elem? leaves i ≡ some leaf
      → (r : Bytes) × (proof : InclusionProof) × (root (from_leaves sha256 leaves) ≡ some r)
        × (inclusion_proof (from_leaves sha256 leaves) i ≡ some proof)
        × (proof.leaf_index ≡ i)
        × (proof.total_leaves ≡ length leaves)
        × (verify_inclusion sha256 r leaf proof ≡ true)
  unfolding from_leaves root inclusion_proof verify_inclusion
  verify_inclusion-inclusion_proof leaves i {leaf} e =
      let hashed = map (leaf_hash sha256) leaves in
      let (steps, found, reaches) =
        Climbs-from_hashed_leaves hashed i (get_elem?-map (leaf_hash sha256) leaves i e) in
      let in_range = lt_length-get_elem? leaves i e in
      let size : length hashed ≡ length leaves = length-map leaves (leaf_hash sha256) in
      let count : length (first_level (from_hashed_leaves sha256 hashed).levels) ≡ length leaves =
        leaf_count-from_hashed_leaves hashed {n = i} (rw size in_range) ∙ size in
      (
        fold_steps sha256 steps (leaf_hash sha256 leaf),
        record { leaf_index = i; total_leaves = length leaves; steps = steps },
        reaches,
        rw (count, lt→ltb _ _ in_range, found),
        refl,
        refl,
        bytes_eq_refl _,
      )
