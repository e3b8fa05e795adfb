-- ===== src/Rules/Parser.antt =====
-- crates/cloakpipe-release/src/rules.rs: `Parser`, `Condition::parse` on the tokens of a condition, and
-- `argument_roots`. The tokens from `at` on stand for the parser's state.
use cloakpipe.Base.{
  ℕ, zero, suc, ◌+◌, ◌*◌, String, Bool, true, false, Option, none, some, List, [], ◌∷◌, ◌++◌,
  length, if◌then◌else◌,
}
use cloakpipe.Base.Results.{Result, ok, err, ◌>>=◌, ok_or}
use cloakpipe.Rules.Condition.{Op, eq, ne, Literal, number_literal, Expr, or_expr, and_expr, cmp}

pub data Token : Type 0 where
  path_token : List String → Token
  literal_token : Literal → Token
  op_token : Op → Token
  and_token or_token open_token close_token : Token

-- The errors of the parser; the last one is the model's.
pub data ParseError : Type 0 where
  expected_close expected_operator expected_literal numbers_only expected_comparison trailing_input
        out_of_fuel :
      ParseError

-- `next`, where it is to be an operator, a literal, a closing parenthesis.
abbrev pub next_op : List Token → Option (Op × List Token)
next_op (op_token op ∷ rest) = some (op, rest)
next_op _ = none

abbrev pub next_literal : List Token → Option (Literal × List Token)
next_literal (literal_token l ∷ rest) = some (l, rest)
next_literal _ = none

abbrev pub next_close : List Token → Option (List Token)
next_close (close_token ∷ rest) = some rest
next_close _ = none

-- Whether an operator takes a literal: an ordering takes numbers only.
unfoldable pub takes : Op → Literal → Bool
takes eq l = true
takes ne l = true
takes _ (number_literal n) = true
takes _ _ = false

-- What `atom` does after a path.
unfoldable pub comparison : List String → List Token → Result (Expr × List Token) ParseError
unfolding takes
comparison path ts = do
  (op, after_op) ← ok_or (next_op ts) expected_operator
  (literal, rest) ← ok_or (next_literal after_op) expected_literal
  if takes op literal then ok (cmp path op literal, rest) else err numbers_only

-- What `atom` does after a condition in parentheses.
unfoldable pub closed : Expr × List Token → Result (Expr × List Token) ParseError
closed (e, ts) = do rest ← ok_or (next_close ts) expected_close; ok (e, rest)

-- `or`, `and` and `atom`, and the loops of the first two.
unfoldable mutual
  pub parse_or : ℕ → List Token → Result (Expr × List Token) ParseError
  parse_or zero ts = err out_of_fuel
  parse_or (suc n) ts = do (left, rest) ← parse_and n ts; or_loop n left rest

  pub or_loop : ℕ → Expr → List Token → Result (Expr × List Token) ParseError
  or_loop zero left ts = err out_of_fuel
  or_loop (suc n) left (or_token ∷ ts) = do
    (right, rest) ← parse_and n ts
    or_loop n (or_expr left right) rest
  or_loop (suc n) left ts = ok (left, ts)

  pub parse_and : ℕ → List Token → Result (Expr × List Token) ParseError
  parse_and zero ts = err out_of_fuel
  parse_and (suc n) ts = do (left, rest) ← atom n ts; and_loop n left rest

  pub and_loop : ℕ → Expr → List Token → Result (Expr × List Token) ParseError
  and_loop zero left ts = err out_of_fuel
  and_loop (suc n) left (and_token ∷ ts) = do
    (right, rest) ← atom n ts
    and_loop n (and_expr left right) rest
  and_loop (suc n) left ts = ok (left, ts)

  pub atom : ℕ → List Token → Result (Expr × List Token) ParseError
  atom zero ts = err out_of_fuel
  atom (suc n) (open_token ∷ ts) = do inner ← parse_or n ts; closed inner
  atom (suc n) (path_token path ∷ ts) = comparison path ts
  atom (suc n) ts = err expected_comparison

abbrev pub whole : Expr × List Token → Result Expr ParseError
whole (e, []) = ok e
whole (e, t ∷ ts) = err trailing_input

-- `Condition::parse`, after `tokenize`.
unfoldable pub parse_condition : List Token → Result Expr ParseError
unfolding parse_or
parse_condition ts = do found ← parse_or (3 * length ts + 3) ts; whole found

-- `Condition::argument_roots`
unfoldable pub argument_roots : Expr → List String
argument_roots (or_expr a b) = argument_roots a ++ argument_roots b
argument_roots (and_expr a b) = argument_roots a ++ argument_roots b
argument_roots (cmp [] op literal) = []
argument_roots (cmp (root ∷ path) op literal) = root ∷ []
