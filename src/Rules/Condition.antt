-- ===== src/Rules/Condition.antt =====
-- crates/cloakpipe-release/src/rules.rs: the `when` condition of an approval rule.
use Prim.Native.Nat.{Ordering}
use Prim.Native.String.{compare}
use cloakpipe.Base.{String, ◌≡◌, Bool, true, false, ◌&&◌, ◌||◌, Option, none, some, List, arith}
use cloakpipe.Base.Options.{◌>>=◌}
use cloakpipe.Json.{Number, Value, boolean, number, string, Floats, cmp_number, get_path}

pub data Op : Type 0 where
  gt ge lt le eq ne : Op

pub data Literal : Type 0 where
  number_literal : Number → Literal
  string_literal : String → Literal
  bool_literal : Bool → Literal

pub data Expr : Type 0 where
  or_expr : Expr → Expr → Expr
  and_expr : Expr → Expr → Expr
  cmp : List String → Op → Literal → Expr

-- `bool::cmp`
abbrev pub bool_cmp : Bool → Bool → Ordering
bool_cmp false true = Ordering.lt
bool_cmp true false = Ordering.gt
bool_cmp _ _ = Ordering.eq

-- How a value compares to a literal; a value of another type does not.
abbrev pub literal_cmp : Floats → Literal → Value → Option Ordering
literal_cmp fl (number_literal n) (number m) = cmp_number fl m n
literal_cmp fl (string_literal s) (string t) = some (compare t s)
literal_cmp fl (bool_literal x) (boolean y) = some (bool_cmp y x)
literal_cmp fl _ _ = none

abbrev pub is_ordering : Op → Ordering → Bool
is_ordering gt Ordering.gt = true
is_ordering gt _ = false
is_ordering ge Ordering.lt = false
is_ordering ge _ = true
is_ordering lt Ordering.lt = true
is_ordering lt _ = false
is_ordering le Ordering.gt = false
is_ordering le _ = true
is_ordering eq Ordering.eq = true
is_ordering eq _ = false
is_ordering ne Ordering.eq = false
is_ordering ne _ = true

-- One comparison; `none` is an error.
unfoldable pub compare_at : Floats → List String → Op → Literal → Value → Option Bool
compare_at fl path op literal args = do
  v ← get_path path args
  ord ← literal_cmp fl literal v
  some (is_ordering op ord)

-- Both sides always: an error anywhere fails closed.
unfoldable pub eval : Floats → Expr → Value → Option Bool
eval fl (or_expr a b) args = do x ← eval fl a args; y ← eval fl b args; some (x || y)
eval fl (and_expr a b) args = do x ← eval fl a args; y ← eval fl b args; some (x && y)
eval fl (cmp path op literal) args = compare_at fl path op literal args

abbrev or_true : Option Bool → Bool
or_true none = true
or_true (some b) = b

-- `Condition::matches`
unfoldable pub condition_holds : Floats → Expr → Value → Bool
condition_holds fl e args = or_true (eval fl e args)

-- Some comparison of the condition, wherever it stands, meets a missing value or one that its
-- literal does not compare with.
abbrev pub has_error : Floats → Expr → Value → Bool
has_error fl (or_expr a b) args = has_error fl a args || has_error fl b args
has_error fl (and_expr a b) args = has_error fl a args || has_error fl b args
has_error fl (cmp path op literal) args = elim (compare_at fl path op literal args) [
  | none ↦ true
  | some _ ↦ false
]

-- The truth value of the condition with `truth` for its comparisons.
abbrev pub holds_by : (List String → Op → Literal → Bool) → Expr → Bool
holds_by truth (or_expr a b) = holds_by truth a || holds_by truth b
holds_by truth (and_expr a b) = holds_by truth a && holds_by truth b
holds_by truth (cmp path op literal) = truth path op literal

abbrev pub is_true : Option Bool → Bool
is_true (some true) = true
is_true _ = false

eval_lem :
    (fl : Floats) (e : Expr) (args : Value)
    → eval fl e args ≡ (elim (has_error fl e args) [
      | true ↦ none
      | false ↦ some (holds_by (λ path op literal. is_true (compare_at fl path op literal args)) e)
    ])
unfolding eval
eval_lem fl (or_expr a b) args = ground (arith, eval_lem fl a args, eval_lem fl b args)
eval_lem fl (and_expr a b) args = ground (arith, eval_lem fl a args, eval_lem fl b args)
eval_lem fl (cmp path op literal) args = ground arith

-- The condition holds exactly when some comparison of it is in error, wherever that stands, or none
-- is and its comparisons, read as a Boolean formula, are true.
pub condition_holds-fails_closed :
    (fl : Floats) (e : Expr) (args : Value)
    → condition_holds fl e args ≡ (
        has_error fl e args
        || holds_by (λ path op literal. is_true (compare_at fl path op literal args)) e)
unfolding condition_holds
condition_holds-fails_closed fl e args = ground (arith, eval_lem fl e args)
