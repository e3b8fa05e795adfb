-- ===== src/Rules/Groups.antt =====
-- The groups of a duration: digits and a unit each.
use cloakpipe.Base.{
  ℕ, suc, ◌+◌, ◌*◌, ◌<◌, ◌≤◌, ◌^◌, ◌≡◌, refl, sym, ap, ◌∙◌, inl, inr, Bool-cases, true, false, some,
  List, [], ◌∷◌, ◌++◌, all, leb, leb→le, arith,
}
use cloakpipe.Base.Options.{>>=-eq-some}
use cloakpipe.Rules.Duration.{
  is_digit, unit_at, number_from, checked, is_empty_list, end_group, duration_loop, parse_duration,
}

-- Digits, the code of a unit, its place and its seconds.
pub record Group : Type 0 where
  pub digits : List ℕ
  pub code : ℕ
  pub place : ℕ
  pub seconds : ℕ

abbrev pub text_of : List Group → List ℕ
text_of [] = []
text_of (g ∷ gs) = g.digits ++ g.code ∷ text_of gs

abbrev pub seconds_of : List Group → ℕ
seconds_of [] = 0
seconds_of (g ∷ gs) = number_from 0 g.digits * g.seconds + seconds_of gs

-- Each group has digits, and a unit after those of the groups before it.
abbrev pub IsGroups : ℕ → List Group → Type 0
IsGroups next_unit [] = Unit {0}
IsGroups next_unit (g ∷ gs) =
    (is_empty_list g.digits ≡ false)
    × (all is_digit g.digits ≡ true)
    × (unit_at g.code ≡ some (g.place, g.seconds))
    × (next_unit ≤ g.place)
    × IsGroups (suc g.place) gs

checked-eq-some : (n m : ℕ) → checked n ≡ some m → (m ≡ n) × (n < 2 ^ 64)
unfolding checked
checked-eq-some n m h = ground arith

end_group-eq-some :
    (next_unit total place seconds sum : ℕ) (digits : List ℕ)
    → end_group next_unit total digits (place, seconds) ≡ some sum
    → (is_empty_list digits ≡ false)
      × (next_unit ≤ place)
      × (sum ≡ total + number_from 0 digits * seconds)
      × (sum < 2 ^ 64)
unfolding end_group
end_group-eq-some next_unit total place seconds sum [] h = cc
end_group-eq-some next_unit total place seconds sum (c ∷ cs) h =
    elim (Bool-cases (leb next_unit place)) [
      | inr less ↦ cc (rw less at h)
      | inl later ↦
          let number = number_from 0 (c ∷ cs) in
          let (n, is_n, h₁) = >>=-eq-some (checked number) _ (rw later at h) in
          let (product, is_product, h₂) = >>=-eq-some (checked (n * seconds)) _ h₁ in
          let same = (checked-eq-some number n is_n).0 in
          let (times, _) = checked-eq-some (n * seconds) product is_product in
          let (plus, small) = checked-eq-some (total + product) sum h₂ in
          (
            refl,
            leb→le next_unit place later,
            plus ∙ ap (λ x. total + x) (times ∙ ap (λ x. x * seconds) same),
            omega arith,
          )
    ]

all-snoc :
    (digits : List ℕ) (c : ℕ)
    → all is_digit digits ≡ true
    → is_digit c ≡ true
    → all is_digit (digits ++ c ∷ []) ≡ true
all-snoc [] c h d = rw d refl
all-snoc (x ∷ xs) c h d = elim (Bool-cases (is_digit x)) [
  | inl first ↦ rw first (all-snoc xs c (rw first at h) d)
  | inr other ↦ cc (rw other at h)
]

append_snoc : (xs ys : List ℕ) (c : ℕ) → (xs ++ c ∷ []) ++ ys ≡ xs ++ c ∷ ys
append_snoc [] ys c = refl
append_snoc (x ∷ xs) ys c = ap (λ l. x ∷ l) (append_snoc xs ys c)

duration_loop-eq-some :
    (next_unit total : ℕ) (digits src : List ℕ) (n : ℕ)
    → all is_digit digits ≡ true
    → total < 2 ^ 64
    → duration_loop next_unit total digits src ≡ some n
    → (gs : List Group) × (digits ++ src ≡ text_of gs)
      × IsGroups next_unit gs
      × (n ≡ total + seconds_of gs)
      × (0 < n)
      × (n < 2 ^ 64)
unfolding duration_loop
duration_loop-eq-some next_unit total [] [] n number fits h =
    ([], refl, tt, ground arith, ground arith, ground arith)
duration_loop-eq-some next_unit total (d ∷ ds) [] n number fits h = cc
duration_loop-eq-some next_unit total digits (c ∷ cs) n number fits h =
    elim (Bool-cases (is_digit c)) [
      | inl digit ↦
          let (gs, text, ordered, total_of, positive, bound) =
            duration_loop-eq-some next_unit total (digits ++ c ∷ []) cs n
              (all-snoc digits c number digit) fits (rw (duration_loop, digit) at h) in
          (gs, sym (append_snoc digits cs c) ∙ text, ordered, total_of, positive, bound)
      | inr other ↦
          let ((place, seconds), found, h₁) =
            >>=-eq-some (unit_at c) _ (rw (duration_loop, other) at h) in
          let (sum, ended, h₂) =
            >>=-eq-some (end_group next_unit total digits (place, seconds)) _ h₁ in
          let (some_digits, later, is_sum, small) =
            end_group-eq-some next_unit total place seconds sum digits ended in
          let (gs, text, ordered, total_of, positive, bound) =
            duration_loop-eq-some (suc place) sum [] cs n refl small h₂ in
          (
            record { digits = digits; code = c; place = place; seconds = seconds } ∷ gs,
            ap (λ l. digits ++ c ∷ l) text,
            (some_digits, number, found, later, ordered),
            omega arith,
            positive,
            bound,
          )
    ]

-- A duration that parses is a list of groups of digits and a unit, the units in the order `d`, `h`,
-- `m`, `s` and each at most once; its value is the sum of theirs, without overflow, and not zero.
pub parse_duration-IsGroups :
    (src : List ℕ) (n : ℕ)
    → parse_duration src ≡ some n
    → (gs : List Group) × (src ≡ text_of gs)
      × IsGroups 0 gs
      × (n ≡ seconds_of gs)
      × (0 < n)
      × (n < 2 ^ 64)
unfolding parse_duration
parse_duration-IsGroups src n h =
    let (gs, text, ordered, total, positive, bound) =
      duration_loop-eq-some 0 0 [] src n refl (omega arith) h in
    (gs, text, ordered, omega arith, positive, bound)
