-- ===== src/Masking/Tokens.antt =====
-- The spelling of a token: a prefix, an underscore and digits.
use cloakpipe.Base.{
  ℕ, ◌≡◌, refl, ap, sym, ◌∙◌, true, false, [], ◌∷◌, ◌++◌, any, Bytes, nat_eq, arith,
}
use cloakpipe.Masking.Resolver.{Texts}
use cloakpipe.Masking.Vault.{token_text}

-- Decimal digits tell numbers apart and hold no underscore.
pub record Digits (t : Texts) : Type 0 where
  pub injective : (m n : ℕ) → t.decimal m ≡ t.decimal n → m ≡ n
  pub plain : (n : ℕ) → any (nat_eq 95) (t.decimal n) ≡ false

has_underscore : (q d : Bytes) → any (nat_eq 95) (q ++ 95 ∷ d) ≡ true
has_underscore [] d = refl
has_underscore (c ∷ q) d = ground (arith, has_underscore q d)

split_unique :
    (p q d d' : Bytes)
    → any (nat_eq 95) d ≡ false
    → any (nat_eq 95) d' ≡ false
    → p ++ 95 ∷ d ≡ q ++ 95 ∷ d'
    → (p ≡ q) × (d ≡ d')
split_unique [] [] d d' plain plain' e = (refl, cc e)
split_unique [] (c ∷ q) d d' plain plain' e =
    let same : d ≡ q ++ 95 ∷ d' = cc e in
    let bad : false ≡ true = sym plain ∙ ap (any (nat_eq 95)) same ∙ has_underscore q d' in cc
split_unique (c ∷ p) [] d d' plain plain' e =
    let same : p ++ 95 ∷ d ≡ d' = cc e in
    let bad : false ≡ true = sym plain' ∙ ap (any (nat_eq 95)) (sym same) ∙ has_underscore p d in cc
split_unique (c ∷ p) (c' ∷ q) d d' plain plain' e =
    let letter : c ≡ c' = cc e in
    let rest : p ++ 95 ∷ d ≡ q ++ 95 ∷ d' = cc e in
    let (prefix, digits) = split_unique p q d d' plain plain' rest in
    (rw (letter, prefix) refl, digits)

-- Two tokens with one spelling have one prefix and one number.
pub token_text-injective :
    (t : Texts) (digits : Digits t) (p q : Bytes) (m n : ℕ)
    → token_text t p m ≡ token_text t q n
    → (p ≡ q) × (m ≡ n)
token_text-injective t digits p q m n e =
    let (prefix, number) =
      split_unique p q (t.decimal m) (t.decimal n) (digits.plain m) (digits.plain n) e in
    (prefix, digits.injective m n number)
