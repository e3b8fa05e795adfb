-- ===== src/Rules/Duration.antt =====
-- crates/cloakpipe-release/src/rules.rs: `parse_duration`, on the code points of a text.
use cloakpipe.Base.{
  ℕ, suc, ◌+◌, ◌*◌, ◌^◌, ◌-◌, Bool, true, false, not, ◌||◌, Option, none, some, List, [], ◌∷◌, ◌++◌,
  leb, ltb, nat_eq, if◌then◌else◌,
}
use cloakpipe.Base.Options.{◌>>=◌}
use cloakpipe.Receipt.OperationId.{within}

abbrev pub is_digit : ℕ → Bool
is_digit c = within 48 57 c

-- The place of a unit among `d`, `h`, `m` and `s`, and its seconds.
unfoldable pub unit_at : ℕ → Option (ℕ × ℕ)
unit_at c =
    if nat_eq c 100
    then some (0, 86400)
    else if nat_eq c 104
    then some (1, 3600)
    else if nat_eq c 109
    then some (2, 60)
    else if nat_eq c 115
    then some (3, 1)
    else none

-- The number that digits are, after those that made `n`.
abbrev pub number_from : ℕ → List ℕ → ℕ
number_from n [] = n
number_from n (c ∷ cs) = number_from (10 * n + (c - 48)) cs

-- A `u64`, where the number is one.
unfoldable pub checked : ℕ → Option ℕ
checked n = if ltb n (2 ^ 64) then some n else none

abbrev pub is_empty_list : List ℕ → Bool
is_empty_list [] = true
is_empty_list (c ∷ cs) = false

-- What a unit does: the total with the group that it ends.
unfoldable pub end_group : ℕ → ℕ → List ℕ → ℕ × ℕ → Option ℕ
unfolding checked
end_group next_unit total digits (i, seconds) =
    if is_empty_list digits || not (leb next_unit i) then none else do
      n ← checked (number_from 0 digits)
      product ← checked (n * seconds)
      checked (total + product)

-- The loop of `parse_duration`.
unfoldable pub duration_loop : ℕ → ℕ → List ℕ → List ℕ → Option ℕ
unfolding unit_at end_group
duration_loop next_unit total digits [] =
    if not (is_empty_list digits) || nat_eq total 0 then none else some total
duration_loop next_unit total digits (c ∷ cs) = elim (is_digit c) [
  | true ↦ duration_loop next_unit total (digits ++ c ∷ []) cs
  | false ↦ do
    (i, seconds) ← unit_at c
    sum ← end_group next_unit total digits (i, seconds)
    duration_loop (suc i) sum [] cs
]

unfoldable pub parse_duration : List ℕ → Option ℕ
unfolding duration_loop
parse_duration src = duration_loop 0 0 [] src
