-- ===== src/Masking/Assoc.antt =====
-- A `HashMap` keyed by texts, as the list of its entries in the order that it iterates in.
use cloakpipe.Base.{
  ◌≡◌, refl, ap, ◌∙◌, inl, inr, false, Option, none, some, List, [], ◌∷◌, Bytes, bytes_eq,
  bytes_eq_refl, bytes_eq_sound, if◌then◌else◌, Bool-cases,
}

module _ {V : Type 0} where
  unfoldable pub lookup : Bytes → List (Bytes × V) → Option V
  lookup k [] = none
  lookup k ((j, v) ∷ m) = let rest = lookup k m in if bytes_eq j k then some v else rest

  unfoldable pub insert : Bytes → V → List (Bytes × V) → List (Bytes × V)
  insert k v [] = (k, v) ∷ []
  insert k v ((j, w) ∷ m) =
      let rest = insert k v m in if bytes_eq j k then (k, v) ∷ m else (j, w) ∷ rest

  pub lookup-insert : (k : Bytes) (v : V) (m : List (Bytes × V)) → lookup k (insert k v m) ≡ some v
  unfolding lookup insert
  lookup-insert k v [] = rw (bytes_eq_refl k) refl
  lookup-insert k v ((j, w) ∷ m) = elim (Bool-cases (bytes_eq j k)) [
    | inl same ↦ rw same (rw (bytes_eq_refl k) refl)
    | inr other ↦ rw other (rw other (lookup-insert k v m))
  ]

  pub lookup-insert_other :
      (k i : Bytes) (v : V) (m : List (Bytes × V))
      → bytes_eq k i ≡ false
      → lookup i (insert k v m) ≡ lookup i m
  unfolding lookup insert
  lookup-insert_other k i v [] apart = rw apart refl
  lookup-insert_other k i v ((j, w) ∷ m) apart = elim (Bool-cases (bytes_eq j k)) [
    | inl same ↦
        let p = bytes_eq_sound j k same in
        let q : bytes_eq j i ≡ false = ap (λ x. bytes_eq x i) p ∙ apart in
        rw same (rw (apart, q) refl)
    | inr other ↦ rw other (rw (lookup-insert_other k i v m apart) refl)
  ]
