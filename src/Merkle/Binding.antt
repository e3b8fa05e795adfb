-- ===== src/Merkle/Binding.antt =====
-- What an accepted proof binds.
use cloakpipe.Base.{
  ◌≡◌, ◌≢◌, refl, sym, ap, ◌∙◌, ◌⊎◌, inl, inr, true, List, [], ◌∷◌, ◌++◌, map, length, All, Bytes,
  bytes_eq, bytes_eq_sound, bytes_eq_refl, Bool-cases, arith,
}
use cloakpipe.Merkle.{
  ProofPosition, left, right, ProofStep, InclusionProof, leaf_hash, node_hash, parent, apply_step,
  fold_steps, verify_inclusion,
}

-- Two inputs with one digest.
pub record Collision (sha256 : Bytes → Bytes) : Type 0 where
  pub first : Bytes
  pub second : Bytes
  pub differ : first ≢ second
  pub same : sha256 first ≡ sha256 second

append_injective : (a b c d : Bytes) → length a ≡ length c → a ++ b ≡ c ++ d → (a ≡ c) × (b ≡ d)
append_injective [] b [] d n e = (refl, e)
append_injective [] b (y ∷ c) d n e = absurd (omega arith)
append_injective (x ∷ a) b [] d n e = absurd (omega arith)
append_injective (x ∷ a) b (y ∷ c) d n e =
    let (p, q) = append_injective a b c d (omega arith) (cc) in (cc, q)

-- The digests of a proof have 32 bytes, as their type `[u8; 32]` says.
abbrev pub HasDigests : InclusionProof → Type 0
HasDigests proof = All (λ (s : ProofStep). length s.hash ≡ 32) proof.steps

abbrev pub position : ProofStep → ProofPosition
position s = s.position

head_position :
    (s t : ProofStep) (ss ts : List ProofStep)
    → map position (s ∷ ss) ≡ map position (t ∷ ts)
    → s.position ≡ t.position
head_position s t ss ts p = cc

abbrev tail {ℓ} : {A : Type ℓ} → List A → List A
tail [] = []
tail (_ ∷ xs) = xs

module _ (sha256 : Bytes → Bytes) (sha256-length : (x : Bytes) → length (sha256 x) ≡ 32) where
  sha256-eq : (a b : Bytes) → sha256 a ≡ sha256 b → (a ≡ b) ⊎ Collision sha256
  sha256-eq a b e = elim (Bool-cases (bytes_eq a b)) [
    | inl same ↦ inl (bytes_eq_sound a b same)
    | inr differ ↦ inr (record {
      first = a;
      second = b;
      differ = λ p. cc (differ, bytes_eq_refl b, ap (λ c. bytes_eq c b) p);
      same = e;
    })
  ]

  node_hash-eq :
      (a b c d : Bytes)
      → length a ≡ length c
      → node_hash sha256 a b ≡ node_hash sha256 c d
      → ((a ≡ c) × (b ≡ d)) ⊎ Collision sha256
  unfolding node_hash
  node_hash-eq a b c d n e = elim (sha256-eq (1 ∷ a ++ b) (1 ∷ c ++ d) e) [
    | inl p ↦ inl (append_injective a b c d n (cc p))
    | inr k ↦ inr k
  ]

  parent-eq :
      (p : ProofPosition) (a b x y : Bytes)
      → length a ≡ length b
      → length x ≡ length y
      → parent sha256 p a x ≡ parent sha256 p b y
      → (x ≡ y) ⊎ Collision sha256
  parent-eq left a b x y m n e = elim (node_hash-eq a x b y m e) [ inl q ↦ inl q.1 | inr k ↦ inr k ]
  parent-eq right a b x y m n e = elim (node_hash-eq x a y b n e) [
    | inl q ↦ inl q.0
    | inr k ↦ inr k
  ]

  length-parent : (p : ProofPosition) (a x : Bytes) → length (parent sha256 p a x) ≡ 32
  unfolding node_hash
  length-parent left a x = sha256-length _
  length-parent right a x = sha256-length _

  fold_steps-eq :
      (ss ts : List ProofStep) (x y : Bytes)
      → map position ss ≡ map position ts
      → All (λ (s : ProofStep). length s.hash ≡ 32) ss
      → All (λ (s : ProofStep). length s.hash ≡ 32) ts
      → length x ≡ 32
      → length y ≡ 32
      → fold_steps sha256 ss x ≡ fold_steps sha256 ts y
      → (x ≡ y) ⊎ Collision sha256
  unfolding fold_steps
  fold_steps-eq [] [] x y p hs ht hx hy e = inl e
  fold_steps-eq [] (t ∷ ts) x y p hs ht hx hy e = cc
  fold_steps-eq (s ∷ ss) [] x y p hs ht hx hy e = cc
  fold_steps-eq (s ∷ ss) (t ∷ ts) x y p hs ht hx hy e =
      elim (fold_steps-eq ss ts (apply_step sha256 s x) (apply_step sha256 t y) (ap tail p) hs.1
        ht.1 (length-parent s.position s.hash x) (length-parent t.position t.hash y) e) [
          | inl q ↦
              parent-eq s.position s.hash t.hash x y (hs.0 ∙ sym ht.0) (hx ∙ sym hy)
                (rw (sym (head_position s t ss ts p)) at q)
          | inr k ↦ inr k
        ]

  -- Where SHA-256 gives 32 bytes: two proofs with the same positions, their digests of 32 bytes,
  -- that the check accepts against one root are for the same leaf, or show two inputs of SHA-256
  -- with one digest.
  pub verify_inclusion-binding :
      (root leaf leaf' : Bytes) (proof proof' : InclusionProof)
      → HasDigests proof
      → HasDigests proof'
      → map position proof.steps ≡ map position proof'.steps
      → verify_inclusion sha256 root leaf proof ≡ true
      → verify_inclusion sha256 root leaf' proof' ≡ true
      → (leaf ≡ leaf') ⊎ Collision sha256
  unfolding verify_inclusion leaf_hash
  verify_inclusion-binding root leaf leaf' proof proof' hp hq pos e e' =
      let same = bytes_eq_sound _ _ e ∙ sym (bytes_eq_sound _ _ e') in
      elim (fold_steps-eq proof.steps proof'.steps (sha256 (0 ∷ leaf)) (sha256 (0 ∷ leaf')) pos hp
        hq (sha256-length _) (sha256-length _) same) [
          | inl q ↦ elim (sha256-eq (0 ∷ leaf) (0 ∷ leaf') q) [
            | inl p ↦ inl (ap tail p)
            | inr k ↦ inr k
          ]
          | inr k ↦ inr k
        ]
