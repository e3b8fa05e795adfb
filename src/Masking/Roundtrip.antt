-- ===== src/Masking/Roundtrip.antt =====
-- A masked text against the text it was made from.
use mathlib.Core.List.{append-nil, append_assoc}
use cloakpipe.Base.{
  ℕ, zero, suc, ◌-◌, ◌≤◌, ◌≡◌, refl, ap, sym, ◌∙◌, inl, inr, Option, some, List, [], ◌∷◌, ◌++◌,
  length, take, drop, Bytes, ltb, arith, Bool-cases,
}
use cloakpipe.Base.Options.{◌>>=◌}
use cloakpipe.Masking.Entity.{DetectedEntity, PseudonymizedText}
use cloakpipe.Masking.Assoc.{insert}
use cloakpipe.Masking.Resolver.{Texts}
use cloakpipe.Masking.Vault.{Vault, category_prefix, get_or_create, original_of}
use cloakpipe.Masking.Tokens.{Digits}
use cloakpipe.Masking.Known.{IsIssued, IsVault, HasRoom, get_or_create-Made}
use cloakpipe.Masking.Replacer.{slice, gap, tail_text, replace_loop, replace_with, pseudonymize}

-- A part of a masked text: text left as it was, or a token.
pub data Piece : Type 0 where
  plain masked : Bytes → Piece

-- The masked text.
unfoldable pub shown : List Piece → Bytes
shown [] = []
shown (plain s ∷ ps) = s ++ shown ps
shown (masked s ∷ ps) = s ++ shown ps

-- The text with every token replaced by what it stands for.
unfoldable pub restored : Vault → List Piece → Option Bytes
restored v [] = some []
restored v (plain s ∷ ps) = do rest ← restored v ps; some (s ++ rest)
restored v (masked s ∷ ps) = do o ← original_of s v; rest ← restored v ps; some (o ++ rest)

-- The entities from a place on are in order, do not overlap, lie in the text, and hold what stands
-- there.
abbrev pub IsSpans : Bytes → ℕ → List DetectedEntity → Type 0
IsSpans text last_end [] = last_end ≤ length text
IsSpans text last_end (x ∷ xs) =
    (last_end ≤ x.start)
    × (x.start ≤ x.stop)
    × (x.stop ≤ length text)
    × (x.original ≡ take (x.stop - x.start) (drop x.start text))
    × IsSpans text x.stop xs

take-drop : {A : Type 0} (k : ℕ) (xs : List A) → take k xs ++ drop k xs ≡ xs
take-drop zero xs = refl
take-drop (suc k) [] = refl
take-drop (suc k) (x ∷ xs) = ap (λ ys. x ∷ ys) (take-drop k xs)

take-nil : {A : Type 0} (k : ℕ) → take {A = A} k [] ≡ []
take-nil zero = refl
take-nil (suc k) = refl

drop-length : {A : Type 0} (xs : List A) → drop (length xs) xs ≡ []
drop-length [] = refl
drop-length (x ∷ xs) = drop-length xs

-- A text from one place on, up to a later place and from there on.
drop-take :
    {A : Type 0} (a b : ℕ) (xs : List A) → a ≤ b → take (b - a) (drop a xs) ++ drop b xs ≡ drop a xs
drop-take zero b xs le =
    let whole : b - 0 ≡ b = omega arith in ap (λ k. take k xs ++ drop b xs) whole ∙ take-drop b xs
drop-take (suc a) zero xs le = absurd (omega arith)
drop-take (suc a) (suc b) [] le = ap (λ ys. ys ++ []) (take-nil (suc b - suc a))
drop-take (suc a) (suc b) (x ∷ xs) le =
    let same : suc b - suc a ≡ b - a = omega arith in
    ap (λ k. take k (drop a xs) ++ drop b xs) same ∙ drop-take a b xs (omega arith)

regroup : (a b c d : Bytes) → a ++ b ++ c ++ d ≡ a ++ (b ++ (c ++ d))
regroup a b c d = append_assoc (a ++ b) c d ∙ append_assoc a b (c ++ d)

slice-some :
    (a b : ℕ) (text : Bytes)
    → a ≤ b
    → b ≤ length text
    → slice a b text ≡ some (take (b - a) (drop a text))
unfolding slice
slice-some a b text le within = ground arith

gap-some :
    (a b : ℕ) (text : Bytes)
    → a ≤ b
    → b ≤ length text
    → gap a b text ≡ some (take (b - a) (drop a text))
unfolding gap
gap-some a b text le within = elim (Bool-cases (ltb a b)) [
  | inl more ↦ rw more (slice-some a b text le within)
  | inr none_left ↦
      let empty : 0 ≡ b - a = ground arith in
      rw none_left (ap (λ k. some (take k (drop a text))) empty)
]

tail_text-some : (a : ℕ) (text : Bytes) → a ≤ length text → tail_text a text ≡ some (drop a text)
unfolding tail_text
tail_text-some a text within = elim (Bool-cases (ltb a (length text))) [
  | inl more ↦
      let n = length text in
      rw more (
        slice-some a n text within (omega arith)
        ∙ ap some (
            sym (append-nil (take (n - a) (drop a text)))
            ∙ ap (λ ys. take (n - a) (drop a text) ++ ys) (sym (drop-length text))
            ∙ drop-take a n text within))
  | inr none_left ↦
      let end : length text ≡ a = ground arith in
      rw none_left (ap some (sym (drop-length text) ∙ ap (λ k. drop k text) end))
]

-- The pieces of a text whose entities, from a place on, are masked by these tokens: the text between
-- the entities is left as it was.
abbrev pub pieces_of : Bytes → ℕ → List DetectedEntity → List Bytes → List Piece
pieces_of text last_end (x ∷ xs) (k ∷ ks) =
    plain (take (x.start - last_end) (drop last_end text)) ∷ masked k ∷ pieces_of text x.stop xs ks
pieces_of text last_end _ _ = plain (drop last_end text) ∷ []

-- One token for each entity: spelled as a prefix and a number, and held by the vault for the text
-- of the entity.
abbrev pub AreTokens : Texts → Vault → List DetectedEntity → List Bytes → Type 0
AreTokens t v [] [] = Unit {0}
AreTokens t v (x ∷ xs) (k ∷ ks) =
    IsIssued t k v × (original_of k v ≡ some x.original) × AreTokens t v xs ks
AreTokens t v _ _ = ⊥

module _ (t : Texts) (digits : Digits t) (text : Bytes) where
  pub record Masked (written : Bytes) (mappings : List (Bytes × Bytes)) (last_end : ℕ)
      (xs : List DetectedEntity) (v : Vault) : Type 0 where
    pub tokens : List Bytes
    pub new_mappings : List (Bytes × Bytes)
    pub new_vault : Vault
    pub done :
        replace_loop (get_or_create t) text written mappings last_end xs v
        ≡ some ((written ++ shown (pieces_of text last_end xs tokens), new_mappings), new_vault)
    pub back : restored new_vault (pieces_of text last_end xs tokens) ≡ some (drop last_end text)
    pub held : AreTokens t new_vault xs tokens
    pub valid : IsVault t new_vault
    pub keeps : (x o : Bytes) → original_of x v ≡ some o → original_of x new_vault ≡ some o

  replace_loop-Masked :
      (written : Bytes) (mappings : List (Bytes × Bytes)) (last_end : ℕ) (xs : List DetectedEntity)
      (v : Vault)
      → IsVault t v
      → HasRoom t (length xs) v
      → IsSpans text last_end xs
      → Masked written mappings last_end xs v
  unfolding replace_loop shown restored
  replace_loop-Masked written mappings last_end [] v h room spans = record {
    tokens = [];
    new_mappings = mappings;
    new_vault = v;
    done =
        rw (tail_text-some last_end text spans)
          (ap (λ w. some ((written ++ w, mappings), v)) (sym (append-nil (drop last_end text))));
    back = ap some (append-nil (drop last_end text));
    held = tt;
    valid = h;
    keeps = λ x o known. known;
  }
  replace_loop-Masked written mappings last_end (x ∷ xs) v h room
        (le, ordered, within, original, spans) =
      let made = get_or_create t x.original x.category v in
      let m =
        get_or_create-Made t digits x.original x.category v h
          (omega (arith, room (category_prefix t x.category))) in
      let before = take (x.start - last_end) (drop last_end text) in
      let rest =
        replace_loop-Masked (written ++ before ++ made.0.token)
          (insert made.0.token x.original mappings) x.stop xs made.1 m.valid
          (λ p. omega (arith, room p, m.grows p)) spans in
      record {
        tokens = made.0.token ∷ rest.tokens;
        new_mappings = rest.new_mappings;
        new_vault = rest.new_vault;
        done = rw (gap-some last_end x.start text le (omega arith)) (
            rest.done
            ∙ ap (λ w. some ((w, rest.new_mappings), rest.new_vault))
                (regroup written before made.0.token
                  (shown (pieces_of text x.stop xs rest.tokens))));
        back =
            rw (rest.keeps made.0.token x.original m.stands, rest.back)
              (ap some (
                ap (λ w. before ++ w)
                  (ap (λ w. w ++ drop x.stop text) original ∙ drop-take x.start x.stop text ordered)
                ∙ drop-take last_end x.start text le));
        held = (
          rest.valid.issued made.0.token x.original (rest.keeps made.0.token x.original m.stands),
          rest.keeps made.0.token x.original m.stands,
          rest.held,
        );
        valid = rest.valid;
        keeps = λ y o known. rest.keeps y o (m.keeps y o known);
      }

  -- Where decimal digits tell numbers apart and hold no underscore, and the vault is one without a
  -- resolver that only `get_or_create` has filled and that has room for as many tokens as there are
  -- entities: for entities that are in order, do not overlap, lie in the text and hold what stands
  -- there, masking succeeds, and in its text each entity is replaced by a token and all else is as it
  -- was. The tokens are spelled as a prefix and a number, and the new vault, again such a one, holds
  -- for each the text of its entity, so that replacing them gives the text back.
  pub pseudonymize-restored :
      (xs : List DetectedEntity) (v : Vault)
      → IsVault t v
      → HasRoom t (length xs) v
      → IsSpans text 0 xs
      → (p : PseudonymizedText) × (v' : Vault) × (tokens : List Bytes) × (pseudonymize t text xs v
          ≡ some (p, v'))
        × (p.text ≡ shown (pieces_of text 0 xs tokens))
        × AreTokens t v' xs tokens
        × (restored v' (pieces_of text 0 xs tokens) ≡ some text)
        × IsVault t v'
  unfolding pseudonymize replace_with
  pseudonymize-restored xs v h room spans =
      let m = replace_loop-Masked [] [] 0 xs v h room spans in
      (
        record {
          text = shown (pieces_of text 0 xs m.tokens);
          mappings = m.new_mappings;
          entities = xs;
        },
        m.new_vault,
        m.tokens,
        rw m.done refl,
        refl,
        m.held,
        m.back,
        m.valid,
      )
