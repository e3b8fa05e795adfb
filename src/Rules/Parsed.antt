-- ===== src/Rules/Parsed.antt =====
-- What the parser of conditions returns, and the fuel that it needs.
use mathlib.Core.Path.{subst}
use cloakpipe.Base.{
  ◌⊎◌, inl, inr, ℕ, zero, suc, ◌+◌, ◌*◌, ◌<◌, ◌≤◌, ◌≡◌, ◌≢◌, refl, String, Bool, true, false, List,
  [], ◌∷◌, length, arith, if◌then◌else◌,
}
use cloakpipe.Base.Results.{Result, ok, err, ◌>>=◌}
use cloakpipe.Json.{Number}
use cloakpipe.Rules.Condition.{
  Op, gt, ge, lt, le, eq, ne, Literal, number_literal, string_literal, bool_literal, Expr, or_expr,
  and_expr, cmp,
}
use cloakpipe.Rules.Parser.{
  Token, path_token, literal_token, op_token, and_token, or_token, open_token, close_token,
  ParseError, expected_close, expected_operator, expected_literal, numbers_only,
  expected_comparison, trailing_input, out_of_fuel, takes, comparison, closed, parse_or, or_loop,
  parse_and, and_loop, atom, whole, parse_condition,
}

-- Every comparison with an ordering is with a number.
abbrev pub IsTyped : Expr → Type 0
IsTyped (or_expr a b) = IsTyped a × IsTyped b
IsTyped (and_expr a b) = IsTyped a × IsTyped b
IsTyped (cmp path op literal) =
    ((n : Number) × (literal ≡ number_literal n)) ⊎ (op ≡ eq) ⊎ (op ≡ ne)

-- A run ends with an error of the source's, or with a typed condition and fewer tokens than `limit`.
abbrev Ends : ℕ → Result (Expr × List Token) ParseError → Type 0
Ends limit (ok (e, rest)) = (length rest < limit) × IsTyped e
Ends limit (err out_of_fuel) = 1 ≤ 0
Ends limit (err _) = 0 ≤ 0

Ends-bind :
    (limit last : ℕ) (r : Result (Expr × List Token) ParseError)
    (f : Expr × List Token → Result (Expr × List Token) ParseError)
    → Ends limit r
    → ((e : Expr) (rest : List Token) → length rest < limit → IsTyped e → Ends last (f (e, rest)))
    → Ends last (r >>= f)
Ends-bind limit last (ok (e, rest)) f (shorter, typed) next = next e rest shorter typed
Ends-bind limit last (err expected_close) f h next = h
Ends-bind limit last (err expected_operator) f h next = h
Ends-bind limit last (err expected_literal) f h next = h
Ends-bind limit last (err numbers_only) f h next = h
Ends-bind limit last (err expected_comparison) f h next = h
Ends-bind limit last (err trailing_input) f h next = h
Ends-bind limit last (err out_of_fuel) f h next = h

Ends-mono :
    (limit last : ℕ) (r : Result (Expr × List Token) ParseError)
    → limit ≤ last
    → Ends limit r
    → Ends last r
Ends-mono limit last (ok (e, rest)) fits (shorter, typed) = (omega arith, typed)
Ends-mono limit last (err expected_close) fits h = h
Ends-mono limit last (err expected_operator) fits h = h
Ends-mono limit last (err expected_literal) fits h = h
Ends-mono limit last (err numbers_only) fits h = h
Ends-mono limit last (err expected_comparison) fits h = h
Ends-mono limit last (err trailing_input) fits h = h
Ends-mono limit last (err out_of_fuel) fits h = elim h [ ]

takes-IsTyped :
    (path : List String) (op : Op) (l : Literal) → takes op l ≡ true → IsTyped (cmp path op l)
unfolding takes
takes-IsTyped path eq l e = inr (inl refl)
takes-IsTyped path ne l e = inr (inr refl)
takes-IsTyped path op (number_literal n) e = inl (n, refl)
takes-IsTyped path gt (string_literal s) e = cc
takes-IsTyped path ge (string_literal s) e = cc
takes-IsTyped path lt (string_literal s) e = cc
takes-IsTyped path le (string_literal s) e = cc
takes-IsTyped path gt (bool_literal s) e = cc
takes-IsTyped path ge (bool_literal s) e = cc
takes-IsTyped path lt (bool_literal s) e = cc
takes-IsTyped path le (bool_literal s) e = cc

takes-Ends :
    (path : List String) (op : Op) (l : Literal) (rest : List Token) (b : Bool)
    → takes op l ≡ b
    → Ends (suc (suc (length rest))) (if b then ok (cmp path op l, rest) else err numbers_only)
takes-Ends path op l rest true e = (omega arith, takes-IsTyped path op l e)
takes-Ends path op l rest false e = omega arith

comparison-Ends : (path : List String) (ts : List Token) → Ends (length ts) (comparison path ts)
unfolding comparison
comparison-Ends path [] = omega arith
comparison-Ends path (op_token op ∷ []) = omega arith
comparison-Ends path (op_token op ∷ literal_token l ∷ rest) =
    takes-Ends path op l rest (takes op l) refl
comparison-Ends path (op_token o ∷ close_token ∷ rest) = omega arith
comparison-Ends path (op_token o ∷ and_token ∷ rest) = omega arith
comparison-Ends path (op_token o ∷ or_token ∷ rest) = omega arith
comparison-Ends path (op_token o ∷ open_token ∷ rest) = omega arith
comparison-Ends path (op_token o ∷ path_token p ∷ rest) = omega arith
comparison-Ends path (op_token o ∷ op_token op ∷ rest) = omega arith
comparison-Ends path (close_token ∷ rest) = omega arith
comparison-Ends path (and_token ∷ rest) = omega arith
comparison-Ends path (or_token ∷ rest) = omega arith
comparison-Ends path (open_token ∷ rest) = omega arith
comparison-Ends path (path_token p ∷ rest) = omega arith
comparison-Ends path (literal_token l ∷ rest) = omega arith

closed-Ends : (e : Expr) (ts : List Token) → IsTyped e → Ends (length ts) (closed (e, ts))
unfolding closed
closed-Ends e [] typed = omega arith
closed-Ends e (close_token ∷ ts) typed = (omega arith, typed)
closed-Ends e (and_token ∷ ts) typed = omega arith
closed-Ends e (or_token ∷ ts) typed = omega arith
closed-Ends e (open_token ∷ ts) typed = omega arith
closed-Ends e (path_token p ∷ ts) typed = omega arith
closed-Ends e (literal_token p ∷ ts) typed = omega arith
closed-Ends e (op_token p ∷ ts) typed = omega arith

mutual
  unfolding parse_or

  parse_or-Ends :
      (n : ℕ) (ts : List Token) → 3 * length ts + 3 ≤ n → Ends (length ts) (parse_or n ts)
  parse_or-Ends zero ts fuel = omega arith
  parse_or-Ends (suc n) ts fuel =
      Ends-bind (length ts) (length ts) (parse_and n ts) (λ x. or_loop n x.0 x.1)
        (parse_and-Ends n ts (omega arith))
        λ e rest shorter typed.
          Ends-mono (suc (length rest)) (length ts) (or_loop n e rest) (omega arith)
            (or_loop-Ends n e rest (omega arith) typed)

  or_loop-Ends :
      (n : ℕ) (e : Expr) (ts : List Token)
      → 3 * length ts + 1 ≤ n
      → IsTyped e
      → Ends (suc (length ts)) (or_loop n e ts)
  or_loop-Ends zero e ts fuel typed = omega arith
  or_loop-Ends (suc n) e [] fuel typed = (omega arith, typed)
  or_loop-Ends (suc n) e (or_token ∷ ts) fuel typed =
      Ends-bind (length ts) (suc (suc (length ts))) (parse_and n ts)
        (λ x. or_loop n (or_expr e x.0) x.1) (parse_and-Ends n ts (omega arith))
        λ right rest shorter right_typed.
          Ends-mono (suc (length rest)) (suc (suc (length ts))) (or_loop n (or_expr e right) rest)
            (omega arith) (or_loop-Ends n (or_expr e right) rest (omega arith) (typed, right_typed))
  or_loop-Ends (suc n) e (close_token ∷ ts) fuel typed = (omega arith, typed)
  or_loop-Ends (suc n) e (and_token ∷ ts) fuel typed = (omega arith, typed)
  or_loop-Ends (suc n) e (open_token ∷ ts) fuel typed = (omega arith, typed)
  or_loop-Ends (suc n) e (path_token p ∷ ts) fuel typed = (omega arith, typed)
  or_loop-Ends (suc n) e (literal_token p ∷ ts) fuel typed = (omega arith, typed)
  or_loop-Ends (suc n) e (op_token p ∷ ts) fuel typed = (omega arith, typed)

  parse_and-Ends :
      (n : ℕ) (ts : List Token) → 3 * length ts + 2 ≤ n → Ends (length ts) (parse_and n ts)
  parse_and-Ends zero ts fuel = omega arith
  parse_and-Ends (suc n) ts fuel =
      Ends-bind (length ts) (length ts) (atom n ts) (λ x. and_loop n x.0 x.1)
        (atom-Ends n ts (omega arith))
        λ e rest shorter typed.
          Ends-mono (suc (length rest)) (length ts) (and_loop n e rest) (omega arith)
            (and_loop-Ends n e rest (omega arith) typed)

  and_loop-Ends :
      (n : ℕ) (e : Expr) (ts : List Token)
      → 3 * length ts + 1 ≤ n
      → IsTyped e
      → Ends (suc (length ts)) (and_loop n e ts)
  and_loop-Ends zero e ts fuel typed = omega arith
  and_loop-Ends (suc n) e [] fuel typed = (omega arith, typed)
  and_loop-Ends (suc n) e (and_token ∷ ts) fuel typed =
      Ends-bind (length ts) (suc (suc (length ts))) (atom n ts)
        (λ x. and_loop n (and_expr e x.0) x.1) (atom-Ends n ts (omega arith))
        λ right rest shorter right_typed.
          Ends-mono (suc (length rest)) (suc (suc (length ts))) (and_loop n (and_expr e right) rest)
            (omega arith)
            (and_loop-Ends n (and_expr e right) rest (omega arith) (typed, right_typed))
  and_loop-Ends (suc n) e (close_token ∷ ts) fuel typed = (omega arith, typed)
  and_loop-Ends (suc n) e (or_token ∷ ts) fuel typed = (omega arith, typed)
  and_loop-Ends (suc n) e (open_token ∷ ts) fuel typed = (omega arith, typed)
  and_loop-Ends (suc n) e (path_token p ∷ ts) fuel typed = (omega arith, typed)
  and_loop-Ends (suc n) e (literal_token p ∷ ts) fuel typed = (omega arith, typed)
  and_loop-Ends (suc n) e (op_token p ∷ ts) fuel typed = (omega arith, typed)

  atom-Ends : (n : ℕ) (ts : List Token) → 3 * length ts + 1 ≤ n → Ends (length ts) (atom n ts)
  atom-Ends zero ts fuel = omega arith
  atom-Ends (suc n) [] fuel = omega arith
  atom-Ends (suc n) (open_token ∷ ts) fuel =
      Ends-bind (length ts) (suc (length ts)) (parse_or n ts) closed
        (parse_or-Ends n ts (omega arith))
        λ e rest shorter typed.
          Ends-mono (length rest) (suc (length ts)) (closed (e, rest)) (omega arith)
            (closed-Ends e rest typed)
  atom-Ends (suc n) (path_token p ∷ ts) fuel =
      Ends-mono (length ts) (suc (length ts)) (comparison p ts) (omega arith) (comparison-Ends p ts)
  atom-Ends (suc n) (close_token ∷ ts) fuel = omega arith
  atom-Ends (suc n) (or_token ∷ ts) fuel = omega arith
  atom-Ends (suc n) (and_token ∷ ts) fuel = omega arith
  atom-Ends (suc n) (literal_token p ∷ ts) fuel = omega arith
  atom-Ends (suc n) (op_token p ∷ ts) fuel = omega arith

-- The result of the parser on all of the tokens.
abbrev Parses : Result Expr ParseError → Type 0
Parses (ok e) = IsTyped e
Parses (err out_of_fuel) = 1 ≤ 0
Parses (err _) = 0 ≤ 0

whole-Parses :
    (limit : ℕ) (r : Result (Expr × List Token) ParseError) → Ends limit r → Parses (r >>= whole)
whole-Parses limit (ok (e, [])) (shorter, typed) = typed
whole-Parses limit (ok (e, t ∷ ts)) h = omega arith
whole-Parses limit (err expected_close) h = h
whole-Parses limit (err expected_operator) h = h
whole-Parses limit (err expected_literal) h = h
whole-Parses limit (err numbers_only) h = h
whole-Parses limit (err expected_comparison) h = h
whole-Parses limit (err trailing_input) h = h
whole-Parses limit (err out_of_fuel) h = h

parse_condition-Parses : (ts : List Token) → Parses (parse_condition ts)
unfolding parse_condition
parse_condition-Parses ts =
    whole-Parses (length ts) (parse_or (3 * length ts + 3) ts)
      (parse_or-Ends (3 * length ts + 3) ts (omega arith))

-- The parser of conditions ends on all tokens, with a condition or an error of its own: three times
-- the number of tokens, and three more, are fuel enough.
pub parse_condition-out_of_fuel : (ts : List Token) → parse_condition ts ≢ err out_of_fuel
parse_condition-out_of_fuel ts e = elim (subst Parses e (parse_condition-Parses ts)) [ ]

-- A condition that parses is typed: whatever its shape, each ordering in it has a number to compare
-- with.
pub parse_condition-IsTyped : (ts : List Token) (e : Expr) → parse_condition ts ≡ ok e → IsTyped e
parse_condition-IsTyped ts e parsed = subst Parses parsed (parse_condition-Parses ts)
