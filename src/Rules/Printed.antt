-- ===== src/Rules/Printed.antt =====
-- A condition written as tokens, with as few parentheses as the precedence of its operators allows.
use cloakpipe.Base.{
  ℕ, zero, suc, ◌+◌, ◌≤◌, ◌≡◌, refl, Bool, true, false, List, [], ◌∷◌, length, arith,
}
use cloakpipe.Base.Results.{ok}
use cloakpipe.Rules.Condition.{Expr, or_expr, and_expr, cmp}
use cloakpipe.Rules.Parser.{
  Token, path_token, literal_token, op_token, and_token, or_token, open_token, close_token, or_loop,
  and_loop,
}

-- The tokens of a condition before those of `rest`: where `or`, `and` and `atom` are to read it.
unfoldable mutual
  pub print_or : Expr → List Token → List Token
  print_or (or_expr a b) rest = print_or a (or_token ∷ print_and b rest)
  print_or (and_expr a b) rest = print_and a (and_token ∷ print_atom b rest)
  print_or (cmp path op literal) rest = path_token path ∷ op_token op ∷ literal_token literal ∷ rest

  pub print_and : Expr → List Token → List Token
  print_and (or_expr a b) rest =
      open_token ∷ print_or a (or_token ∷ print_and b (close_token ∷ rest))
  print_and (and_expr a b) rest = print_and a (and_token ∷ print_atom b rest)
  print_and (cmp path op literal) rest =
      path_token path ∷ op_token op ∷ literal_token literal ∷ rest

  pub print_atom : Expr → List Token → List Token
  print_atom (or_expr a b) rest =
      open_token ∷ print_or a (or_token ∷ print_and b (close_token ∷ rest))
  print_atom (and_expr a b) rest =
      open_token ∷ print_and a (and_token ∷ print_atom b (close_token ∷ rest))
  print_atom (cmp path op literal) rest =
      path_token path ∷ op_token op ∷ literal_token literal ∷ rest

-- The calls from the start of a condition to the loop that has read it.
abbrev pub spine_or : Expr → ℕ
spine_or (or_expr a b) = suc (spine_or a)
spine_or _ = 1

abbrev pub spine_and : Expr → ℕ
spine_and (and_expr a b) = suc (spine_and a)
spine_and _ = 1

mutual
  unfolding print_or

  pub length-print_or : (e : Expr) (k : List Token) → spine_or e + length k ≤ length (print_or e k)
  length-print_or (or_expr a b) k =
      omega (arith, length-print_or a (or_token ∷ print_and b k), length-print_and b k)
  length-print_or (and_expr a b) k =
      omega (arith, length-print_and a (and_token ∷ print_atom b k), length-print_atom b k)
  length-print_or (cmp path op literal) k = omega arith

  pub length-print_and :
      (e : Expr) (k : List Token) → spine_and e + length k ≤ length (print_and e k)
  length-print_and (or_expr a b) k = omega (
    arith,
    length-print_or a (or_token ∷ print_and b (close_token ∷ k)),
    length-print_and b (close_token ∷ k),
  )
  length-print_and (and_expr a b) k =
      omega (arith, length-print_and a (and_token ∷ print_atom b k), length-print_atom b k)
  length-print_and (cmp path op literal) k = omega arith

  pub length-print_atom : (e : Expr) (k : List Token) → suc (length k) ≤ length (print_atom e k)
  length-print_atom (or_expr a b) k = omega (
    arith,
    length-print_or a (or_token ∷ print_and b (close_token ∷ k)),
    length-print_and b (close_token ∷ k),
  )
  length-print_atom (and_expr a b) k = omega (
    arith,
    length-print_and a (and_token ∷ print_atom b (close_token ∷ k)),
    length-print_atom b (close_token ∷ k),
  )
  length-print_atom (cmp path op literal) k = omega arith

-- Whether the loop of `and`, or each loop, stops before these tokens.
abbrev pub ends_and : List Token → Bool
ends_and [] = true
ends_and (close_token ∷ ts) = true
ends_and (or_token ∷ ts) = true
ends_and _ = false

abbrev pub ends_or : List Token → Bool
ends_or [] = true
ends_or (close_token ∷ ts) = true
ends_or _ = false

pub ends_and-ends_or : (k : List Token) → ends_or k ≡ true → ends_and k ≡ true
ends_and-ends_or [] h = refl
ends_and-ends_or (close_token ∷ ts) h = refl
ends_and-ends_or (or_token ∷ ts) h = refl
ends_and-ends_or (and_token ∷ ts) h = h
ends_and-ends_or (open_token ∷ ts) h = h
ends_and-ends_or (path_token p ∷ ts) h = h
ends_and-ends_or (literal_token p ∷ ts) h = h
ends_and-ends_or (op_token p ∷ ts) h = h

pub and_loop-stops :
    (m : ℕ) (e : Expr) (k : List Token) → 1 ≤ m → ends_and k ≡ true → and_loop m e k ≡ ok (e, k)
unfolding and_loop
and_loop-stops zero e k h stop = elim h [ ]
and_loop-stops (suc m) e [] h stop = refl
and_loop-stops (suc m) e (close_token ∷ ts) h stop = refl
and_loop-stops (suc m) e (or_token ∷ ts) h stop = refl
and_loop-stops (suc m) e (and_token ∷ ts) h stop = cc
and_loop-stops (suc m) e (open_token ∷ ts) h stop = refl
and_loop-stops (suc m) e (path_token p ∷ ts) h stop = refl
and_loop-stops (suc m) e (literal_token p ∷ ts) h stop = refl
and_loop-stops (suc m) e (op_token p ∷ ts) h stop = refl

pub or_loop-stops :
    (m : ℕ) (e : Expr) (k : List Token) → 1 ≤ m → ends_or k ≡ true → or_loop m e k ≡ ok (e, k)
unfolding or_loop
or_loop-stops zero e k h stop = elim h [ ]
or_loop-stops (suc m) e [] h stop = refl
or_loop-stops (suc m) e (close_token ∷ ts) h stop = refl
or_loop-stops (suc m) e (or_token ∷ ts) h stop = cc
or_loop-stops (suc m) e (and_token ∷ ts) h stop = refl
or_loop-stops (suc m) e (open_token ∷ ts) h stop = refl
or_loop-stops (suc m) e (path_token p ∷ ts) h stop = refl
or_loop-stops (suc m) e (literal_token p ∷ ts) h stop = refl
or_loop-stops (suc m) e (op_token p ∷ ts) h stop = refl
