-- ===== src/Tests/RulesTests.antt =====
-- The rules of a refund tool.
use cloakpipe.Base.{
  ℕ, ◌<◌, ◌^◌, ◌≢◌, List, inl, inr, ◌≡◌, refl, true, false, ◌||◌, none, some, [], ◌∷◌, all, nat_eq,
}
use cloakpipe.Base.Results.{ok, err}
use cloakpipe.Json.{cmp_number, unsigned, number, object, Fields, no_fields, field, Floats, get}
use cloakpipe.Contract.Constraint.{
  integer_type, Keywords, Constraint, constraint, no_properties, any_items, none_declared, declared,
  declares, child, is_some,
}
use cloakpipe.Contract.Check.{check, check_keys, check_declared}
use cloakpipe.Rules.Condition.{
  Expr, or_expr, eq, string_literal, and_expr, cmp, gt, lt, number_literal, condition_holds,
  has_error, holds_by, is_true, compare_at, condition_holds-fails_closed,
}
use cloakpipe.Rules.Parser.{
  Token, path_token, literal_token, op_token, and_token, or_token, open_token, close_token,
  numbers_only, out_of_fuel, parse_condition,
}
use cloakpipe.Rules.Parsed.{IsTyped, parse_condition-out_of_fuel, parse_condition-IsTyped}
use cloakpipe.Rules.Printed.{print_or}
use cloakpipe.Rules.Reparsed.{parse_condition-print_or}
use cloakpipe.Rules.Duration.{parse_duration}
use cloakpipe.Rules.Groups.{Group, text_of, seconds_of, IsGroups, parse_duration-IsGroups}
use cloakpipe.Rules.Tool.{ToolRule, arguments_of, check_call}
use cloakpipe.Rules.Closed.{constraint_of, check_call-closed, check_call-required}

abbrev no_floats : Floats
no_floats = record {
  of_unsigned = λ n. n;
  of_negative = λ n. n;
  partial_cmp = λ a b. none;
  same = nat_eq;
  is_whole = λ b. false;
}

abbrev amount : Keywords
amount = record {
  ty = some integer_type;
  one_of = none;
  constant = none;
  min_length = none;
  max_length = none;
  pattern = none;
  minimum = none;
  maximum = some (unsigned 100);
  required = none;
  additional_properties = none;
  min_properties = none;
  max_properties = none;
  min_items = none;
  max_items = none;
  bind_to = none;
  one_of_context = none;
  regex = none;
  or_regex = none;
}

abbrev amount_constraint : Constraint
amount_constraint = constraint amount no_properties any_items

abbrev refund : ToolRule
refund = record {
  side_effect = true;
  requires_approval = false;
  arguments = declared "amount" amount_constraint none_declared;
  required = "amount" ∷ [];
  idempotency_key = none;
  approval = none;
}

abbrev fifty : Fields
fifty = field "amount" (number (unsigned 50)) no_fields

passes : check_call no_floats (λ re s. false) refund (some (object fifty)) none ≡ ok tt
unfolding check_call check_keys declares check_declared cmp_number
passes = refl

reads_amount : get "amount" fifty ≡ some (number (unsigned 50))
unfolding get
reads_amount = refl

check_call-required_example :
    (o : Fields) × (arguments_of (some (object fifty)) ≡ ok o)
    × (all (λ r. is_some (get r o)) ("amount" ∷ []) ≡ true)
check_call-required_example =
    check_call-required no_floats (λ re s. false) refund (some (object fifty)) none passes

check_call-closed_example :
    (c : Constraint) × (constraint_of "amount" refund.arguments ≡ some c)
    × (check no_floats (λ re s. false) none c (number (unsigned 50)) (child "" "amount") ≡ ok tt)
check_call-closed_example =
    check_call-closed no_floats (λ re s. false) refund fifty none "amount" (number (unsigned 50))
      passes reads_amount

-- `amount > 10 && limit < 5`, where the call has no `limit`.
abbrev large : Expr
large =
    and_expr (cmp ("amount" ∷ []) gt (number_literal (unsigned 10)))
      (cmp ("limit" ∷ []) lt (number_literal (unsigned 5)))

condition_holds-fails_closed_example : condition_holds no_floats large (object fifty) ≡ (
    has_error no_floats large (object fifty)
    || holds_by
        (λ path op literal. is_true (compare_at no_floats path op literal (object fifty)))
        large)
condition_holds-fails_closed_example = condition_holds-fails_closed no_floats large (object fifty)

-- `(a > 1 || b == 'x') && a < 9`
abbrev grouped : Expr
grouped =
    and_expr
      (or_expr (cmp ("a" ∷ []) gt (number_literal (unsigned 1)))
        (cmp ("b" ∷ []) eq (string_literal "x")))
      (cmp ("a" ∷ []) lt (number_literal (unsigned 9)))

abbrev grouped_tokens : List Token
grouped_tokens =
    open_token
    ∷ path_token ("a" ∷ [])
    ∷ op_token gt
    ∷ literal_token (number_literal (unsigned 1))
    ∷ or_token
    ∷ path_token ("b" ∷ [])
    ∷ op_token eq
    ∷ literal_token (string_literal "x")
    ∷ close_token
    ∷ and_token
    ∷ path_token ("a" ∷ [])
    ∷ op_token lt
    ∷ literal_token (number_literal (unsigned 9))
    ∷ []

parses : parse_condition grouped_tokens ≡ ok grouped
unfolding parse_condition cloakpipe.Rules.Parser.comparison cloakpipe.Rules.Parser.closed
parses = refl

refuses_text :
    parse_condition (path_token ("a" ∷ []) ∷ op_token gt ∷ literal_token (string_literal "x") ∷ [])
    ≡ err numbers_only
unfolding parse_condition cloakpipe.Rules.Parser.comparison
refuses_text = refl

abbrev grouped-IsTyped : IsTyped grouped
grouped-IsTyped = ((inl (unsigned 1, refl), inr (inl refl)), inl (unsigned 9, refl))

parse_condition-print_or_example : parse_condition (print_or grouped []) ≡ ok grouped
parse_condition-print_or_example = parse_condition-print_or grouped grouped-IsTyped

parse_condition-out_of_fuel_example : parse_condition grouped_tokens ≢ err out_of_fuel
parse_condition-out_of_fuel_example = parse_condition-out_of_fuel grouped_tokens

parse_condition-IsTyped_example : IsTyped grouped
parse_condition-IsTyped_example = parse_condition-IsTyped grouped_tokens grouped parses

-- `1h30m`
abbrev ninety_minutes : List ℕ
ninety_minutes = 49 ∷ 104 ∷ 51 ∷ 48 ∷ 109 ∷ []

parses_duration : parse_duration ninety_minutes ≡ some 5400
unfolding parse_duration
parses_duration = refl

-- `0s` and `30m1h`
refuses_zero : parse_duration (48 ∷ 115 ∷ []) ≡ none
unfolding parse_duration
refuses_zero = refl

refuses_order : parse_duration (51 ∷ 48 ∷ 109 ∷ 49 ∷ 104 ∷ []) ≡ none
unfolding parse_duration
refuses_order = refl

parse_duration-IsGroups_example :
    (gs : List Group) × (ninety_minutes ≡ text_of gs)
    × IsGroups 0 gs
    × (5400 ≡ seconds_of gs)
    × (0 < 5400)
    × (5400 < 2 ^ 64)
parse_duration-IsGroups_example = parse_duration-IsGroups ninety_minutes 5400 parses_duration
