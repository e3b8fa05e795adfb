-- ===== src/Rules/Reparsed.antt =====
-- The tokens of a condition read back.
use cloakpipe.Base.{
  inl, inr, ℕ, zero, suc, ◌+◌, ◌*◌, ◌-◌, ◌≤◌, ◌≡◌, refl, ap, ◌∙◌, String, true, List, [], ◌∷◌,
  length, arith,
}
use cloakpipe.Base.Results.{ok, ◌>>=◌}
use cloakpipe.Json.{Number}
use cloakpipe.Rules.Condition.{
  Op, gt, ge, lt, le, eq, ne, Literal, number_literal, Expr, or_expr, and_expr, cmp,
}
use cloakpipe.Rules.Parsed.{IsTyped}
use cloakpipe.Rules.Parser.{
  Token, and_token, or_token, open_token, close_token, takes, comparison, closed, parse_or, or_loop,
  parse_and, and_loop, atom, whole, parse_condition,
}
use cloakpipe.Rules.Printed.{
  print_or, print_and, print_atom, spine_or, spine_and, length-print_or, length-print_and, ends_and,
  ends_or, ends_and-ends_or, and_loop-stops, or_loop-stops,
}

takes-number_literal : (op : Op) (n : Number) → takes op (number_literal n) ≡ true
unfolding takes
takes-number_literal eq n = refl
takes-number_literal ne n = refl
takes-number_literal gt n = refl
takes-number_literal ge n = refl
takes-number_literal lt n = refl
takes-number_literal le n = refl

takes-cmp :
    (path : List String) (op : Op) (l : Literal) → IsTyped (cmp path op l) → takes op l ≡ true
unfolding takes
takes-cmp path op l (inl (n, e)) = ap (takes op) e ∙ takes-number_literal op n
takes-cmp path op l (inr (inl e)) = ap (λ o. takes o l) e
takes-cmp path op l (inr (inr e)) = ap (λ o. takes o l) e

-- The parser on the tokens of a condition: it reaches the loop that has read the condition.
record Reads (e : Expr) : Type 0 where
  by_or :
      (n m : ℕ) (k : List Token)
      → ends_and k ≡ true
      → n ≡ spine_or e + m
      → 3 * length (print_or e k) + 3 ≤ n
      → parse_or n (print_or e k) ≡ or_loop m e k
  by_and :
      (n m : ℕ) (k : List Token)
      → n ≡ spine_and e + m
      → 3 * length (print_and e k) + 2 ≤ n
      → parse_and n (print_and e k) ≡ and_loop m e k
  by_atom :
      (n : ℕ) (k : List Token)
      → 3 * length (print_atom e k) + 1 ≤ n
      → atom n (print_atom e k) ≡ ok (e, k)

parse_and-Reads :
    (e : Expr)
    → Reads e
    → (n : ℕ) (k : List Token) → ends_and k ≡ true
    → 3 * length (print_and e k) + 2 ≤ n
    → parse_and n (print_and e k) ≡ ok (e, k)
parse_and-Reads e r n k stop fuel =
    r.by_and n (n - spine_and e) k (omega (arith, length-print_and e k)) fuel
    ∙ and_loop-stops (n - spine_and e) e k (omega (arith, length-print_and e k)) stop

parse_or-Reads :
    (e : Expr)
    → Reads e
    → (n : ℕ) (k : List Token) → ends_or k ≡ true
    → 3 * length (print_or e k) + 3 ≤ n
    → parse_or n (print_or e k) ≡ ok (e, k)
parse_or-Reads e r n k stop fuel =
    r.by_or n (n - spine_or e) k (ends_and-ends_or k stop) (omega (arith, length-print_or e k)) fuel
    ∙ or_loop-stops (n - spine_or e) e k (omega (arith, length-print_or e k)) stop

-- One step of each function, where the first call returns a value.
parse_or-step :
    (n m : ℕ) (e : Expr) (ts k : List Token)
    → n ≡ suc m
    → parse_and m ts ≡ ok (e, k)
    → parse_or n ts ≡ or_loop m e k
unfolding parse_or
parse_or-step n m e ts k at found =
    ap (λ i. parse_or i ts) at ∙ ap (λ r. r >>= λ x. or_loop m x.0 x.1) found

or_loop-step :
    (m : ℕ) (left e : Expr) (ts k : List Token)
    → parse_and m ts ≡ ok (e, k)
    → or_loop (suc m) left (or_token ∷ ts) ≡ or_loop m (or_expr left e) k
unfolding or_loop
or_loop-step m left e ts k found = ap (λ r. r >>= λ x. or_loop m (or_expr left x.0) x.1) found

parse_and-step :
    (n m : ℕ) (e : Expr) (ts k : List Token)
    → n ≡ suc m
    → atom m ts ≡ ok (e, k)
    → parse_and n ts ≡ and_loop m e k
unfolding parse_and
parse_and-step n m e ts k at found =
    ap (λ i. parse_and i ts) at ∙ ap (λ r. r >>= λ x. and_loop m x.0 x.1) found

and_loop-step :
    (m : ℕ) (left e : Expr) (ts k : List Token)
    → atom m ts ≡ ok (e, k)
    → and_loop (suc m) left (and_token ∷ ts) ≡ and_loop m (and_expr left e) k
unfolding and_loop
and_loop-step m left e ts k found = ap (λ r. r >>= λ x. and_loop m (and_expr left x.0) x.1) found

atom-step :
    (n : ℕ) (e : Expr) (ts k : List Token)
    → parse_or n ts ≡ ok (e, close_token ∷ k)
    → atom (suc n) (open_token ∷ ts) ≡ ok (e, k)
unfolding atom closed
atom-step n e ts k found = ap (λ r. r >>= closed) found

cmp-atom :
    (path : List String) (op : Op) (literal : Literal)
    → takes op literal ≡ true
    → (n : ℕ) (k : List Token) → 1 ≤ n
    → atom n (print_atom (cmp path op literal) k) ≡ ok (cmp path op literal, k)
unfolding atom print_or comparison
cmp-atom path op literal comparable zero k h = elim h [ ]
cmp-atom path op literal comparable (suc n) k h = rw comparable refl

-- One comparison.
cmp-Reads :
    (path : List String) (op : Op) (literal : Literal)
    → takes op literal ≡ true
    → Reads (cmp path op literal)
unfolding print_or
cmp-Reads path op literal comparable =
    let e = cmp path op literal in
    let read = cmp-atom path op literal comparable in
    record {
      by_or = λ n m k stop at fuel. parse_or-step n m e (print_atom e k) k (omega arith) (
          parse_and-step m (m - 1) e (print_atom e k) k (omega arith) (read (m - 1) k (omega arith))
          ∙ and_loop-stops (m - 1) e k (omega arith) stop);
      by_and = λ n m k at fuel.
          parse_and-step n m e (print_atom e k) k (omega arith) (read m k (omega arith));
      by_atom = λ n k fuel. read n k (omega arith);
    }

-- A disjunction, without parentheses and with them.
module _ (a b : Expr) (ra : Reads a) (rb : Reads b) where
  or-by_or :
      (n m : ℕ) (k : List Token)
      → ends_and k ≡ true
      → n ≡ suc (spine_or a) + m
      → 3 * length (print_or (or_expr a b) k) + 3 ≤ n
      → parse_or n (print_or (or_expr a b) k) ≡ or_loop m (or_expr a b) k
  unfolding print_or
  or-by_or n m k stop at fuel =
      ra.by_or n (suc m) (or_token ∷ print_and b k) refl (omega arith) fuel
      ∙ or_loop-step m a b (print_and b k) k (
          parse_and-Reads b rb m k stop
            (omega (arith, length-print_or a (or_token ∷ print_and b k))))

  or-by_atom :
      (n : ℕ) (k : List Token)
      → 3 * length (print_atom (or_expr a b) k) + 1 ≤ n
      → atom n (print_atom (or_expr a b) k) ≡ ok (or_expr a b, k)
  unfolding print_or
  or-by_atom zero k fuel = let none_left : 1 ≤ 0 = omega arith in elim none_left [ ]
  or-by_atom (suc n) k fuel =
      let e = or_expr a b in
      let m = n - spine_or e in
      let long = length-print_or e (close_token ∷ k) in
      atom-step n e (print_or e (close_token ∷ k)) k (
        or-by_or n m (close_token ∷ k) refl (omega (arith, long)) (omega arith)
        ∙ or_loop-stops m e (close_token ∷ k) (omega (arith, long)) refl)

  or-Reads : Reads (or_expr a b)
  unfolding print_or
  or-Reads = record {
    by_or = or-by_or;
    by_and = λ n m k at fuel.
        parse_and-step n m (or_expr a b) (print_atom (or_expr a b) k) k (omega arith)
          (or-by_atom m k (omega arith));
    by_atom = or-by_atom;
  }

-- A conjunction, without parentheses and with them.
module _ (a b : Expr) (ra : Reads a) (rb : Reads b) where
  and-by_and :
      (n m : ℕ) (k : List Token)
      → n ≡ suc (spine_and a) + m
      → 3 * length (print_and (and_expr a b) k) + 2 ≤ n
      → parse_and n (print_and (and_expr a b) k) ≡ and_loop m (and_expr a b) k
  unfolding print_or
  and-by_and n m k at fuel =
      ra.by_and n (suc m) (and_token ∷ print_atom b k) (omega arith) fuel
      ∙ and_loop-step m a b (print_atom b k) k
          (rb.by_atom m k (omega (arith, length-print_and a (and_token ∷ print_atom b k))))

  and-by_or :
      (n m : ℕ) (k : List Token)
      → ends_and k ≡ true
      → n ≡ 1 + m
      → 3 * length (print_or (and_expr a b) k) + 3 ≤ n
      → parse_or n (print_or (and_expr a b) k) ≡ or_loop m (and_expr a b) k
  unfolding print_or
  and-by_or n m k stop at fuel =
      let e = and_expr a b in
      let long = length-print_and e k in
      let i = m - spine_and e in
      parse_or-step n m e (print_and e k) k (omega arith) (
        and-by_and m i k (omega (arith, long)) (omega arith)
        ∙ and_loop-stops i e k (omega (arith, long)) stop)

  and-by_atom :
      (n : ℕ) (k : List Token)
      → 3 * length (print_atom (and_expr a b) k) + 1 ≤ n
      → atom n (print_atom (and_expr a b) k) ≡ ok (and_expr a b, k)
  unfolding print_or
  and-by_atom zero k fuel = let none_left : 1 ≤ 0 = omega arith in elim none_left [ ]
  and-by_atom (suc n) k fuel =
      let e = and_expr a b in
      let m = n - 1 in
      atom-step n e (print_or e (close_token ∷ k)) k (
        and-by_or n m (close_token ∷ k) refl (omega arith) (omega arith)
        ∙ or_loop-stops m e (close_token ∷ k) (omega arith) refl)

  and-Reads : Reads (and_expr a b)
  and-Reads = record { by_or = and-by_or; by_and = and-by_and; by_atom = and-by_atom }

expr-Reads : (e : Expr) → IsTyped e → Reads e
expr-Reads (or_expr a b) (left, right) = or-Reads a b (expr-Reads a left) (expr-Reads b right)
expr-Reads (and_expr a b) (left, right) = and-Reads a b (expr-Reads a left) (expr-Reads b right)
expr-Reads (cmp path op literal) typed = cmp-Reads path op literal (takes-cmp path op literal typed)

-- A condition whose orderings have numbers to compare with parses, from its tokens with the fewest
-- parentheses, to itself: `&&` binds tighter than `||`, and both group to the left.
pub parse_condition-print_or : (e : Expr) → IsTyped e → parse_condition (print_or e []) ≡ ok e
unfolding parse_condition
parse_condition-print_or e comparable =
    ap (λ r. r >>= whole)
      (parse_or-Reads e (expr-Reads e comparable) (3 * length (print_or e []) + 3) [] refl
        (omega arith))
