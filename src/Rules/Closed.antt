-- ===== src/Rules/Closed.antt =====
-- The arguments of a call that passes its contract.
use cloakpipe.Base.{
  ℕ, String, ◌≡◌, refl, sym, ap, ◌∙◌, Bool, true, false, not, ◌||◌, Option, none, some, List, [],
  ◌∷◌, any, all, filter, ◌==◌, eq_iff, if◌then◌else◌, arith, Bool-cases, Option-cases, inl, inr,
}
use cloakpipe.Base.Results.{ok, >>=-eq-ok}
use cloakpipe.Json.{Value, object, Fields, no_fields, field, Floats, get, keys, size}
use cloakpipe.Contract.Constraint.{
  Violation, undeclared_argument, at, Constraint, Properties, none_declared, declared, declares,
  child, is_some,
}
use cloakpipe.Contract.Check.{
  check, check_keys, check_declared, ensure, least, none_missing, if_present, out_of_bounds,
}
use cloakpipe.Rules.Tool.{ToolRule, arguments_of, check_call}

-- The constraint of an argument.
abbrev pub constraint_of : String → Properties → Option Constraint
constraint_of k none_declared = none
constraint_of k (declared j c ps) = if j == k then some c else constraint_of k ps

ensure-eq-ok : (b : Bool) (v : Violation) → ensure b v ≡ ok tt → b ≡ true
ensure-eq-ok true v e = refl
ensure-eq-ok false v e = cc

least-none : (ss : List String) → least ss ≡ none → ss ≡ []
unfolding least
least-none [] e = refl
least-none (s ∷ ss) e = elim (Option-cases (least ss)) [
  | inl p ↦ ground arith
  | inr (t, p) ↦ ground arith
]

filter-nil :
    (p : String → Bool) (ss : List String) → filter (λ s. not (p s)) ss ≡ [] → all p ss ≡ true
filter-nil p [] e = refl
filter-nil p (s ∷ ss) e = ground (arith, filter-nil p ss)

none_missing-eq-ok : (m : Option String) (path : String) → none_missing m path ≡ ok tt → m ≡ none
none_missing-eq-ok none path e = refl
none_missing-eq-ok (some r) path e = cc

not-true : (b : Bool) → not b ≡ true → b ≡ false
not-true true e = cc
not-true false e = refl

-- The keys, the required names and the counts of an object that passes.
check_keys-eq-ok :
    (is_declared : String → Bool) (required : List String) (additional : Bool) (low high : Option ℕ)
    (o : Fields) (path : String)
    → check_keys is_declared required additional low high o path ≡ ok tt
    → ((additional || not (any (λ k. not (is_declared k)) (keys o))) ≡ true)
      × (all (λ r. is_some (get r o)) required ≡ true)
      × (out_of_bounds low high (size o) ≡ false)
unfolding check_keys
check_keys-eq-ok is_declared required additional low high o path e =
    let (_, known, e₁) =
      >>=-eq-ok
        (ensure (additional || not (any (λ k. not (is_declared k)) (keys o)))
          (at undeclared_argument path))
        _ e in
    let (_, present, bounds) =
      >>=-eq-ok (none_missing (least (filter (λ r. not (is_some (get r o))) required)) path) _ e₁ in
    (
      ensure-eq-ok _ _ known,
      filter-nil (λ r. is_some (get r o)) required
          (least-none _ (none_missing-eq-ok _ path present)),
      not-true _ (ensure-eq-ok _ _ bounds),
    )

check_declared-cons :
    (fl : Floats) (is_match : String → String → Bool) (task : Option Value) (name : String)
    (c : Constraint) (ps : Properties) (o : Fields) (path : String)
    → check_declared fl is_match task (declared name c ps) o path ≡ ok tt
    → (if_present (get name o) (λ v. check fl is_match task c v (child path name)) ≡ ok tt)
      × (check_declared fl is_match task ps o path ≡ ok tt)
unfolding check_declared
check_declared-cons fl is_match task name c ps o path e =
    let (_, first, rest) =
      >>=-eq-ok (if_present (get name o) (λ v. check fl is_match task c v (child path name))) _ e in
    (first, rest)

-- Every value of the object at a declared key passes the constraint of that key.
check_declared-eq-ok :
    (fl : Floats) (is_match : String → String → Bool) (task : Option Value) (ps : Properties)
    (o : Fields) (path : String)
    → check_declared fl is_match task ps o path ≡ ok tt
    → (k : String) (v : Value) (c : Constraint) → get k o ≡ some v
    → constraint_of k ps ≡ some c
    → check fl is_match task c v (child path k) ≡ ok tt
check_declared-eq-ok fl is_match task none_declared o path e k v c here found = cc
check_declared-eq-ok fl is_match task (declared name c' ps) o path e k v c here found =
    let (first, rest) = check_declared-cons fl is_match task name c' ps o path e in
    elim (Bool-cases (name == k)) [
      | inl same ↦
          let p = (eq_iff name k).0 same in
          let q : c' ≡ c = ground arith in rw (← q) (rw (p, here) at first)
      | inr other ↦ check_declared-eq-ok fl is_match task ps o path rest k v c here (ground arith)
    ]

-- A value of a declared key is declared with a constraint.
constraint_of-declares :
    (k : String) (ps : Properties)
    → declares k ps ≡ true
    → (c : Constraint) × (constraint_of k ps ≡ some c)
unfolding declares
constraint_of-declares k none_declared e = cc
constraint_of-declares k (declared j c ps) e = elim (Bool-cases (j == k)) [
  | inl same ↦ (c, rw same)
  | inr other ↦ rw other (constraint_of-declares k ps (ground arith))
]

declares-key :
    (p : String → Bool) (k : String) (o : Fields) {v : Value}
    → any (λ j. not (p j)) (keys o) ≡ false
    → get k o ≡ some v
    → p k ≡ true
unfolding keys get
declares-key p k no_fields e here = cc
declares-key p k (field j w fs) {v} e here = elim (Bool-cases (j == k)) [
  | inl same ↦ ground (arith, ap p ((eq_iff j k).0 same))
  | inr other ↦ declares-key p k fs {v = v} (ground arith) (ground arith)
]

-- What `ToolRule::check` has found when it passes.
check_call-eq-ok :
    (fl : Floats) (is_match : String → String → Bool) (rule : ToolRule)
    (arguments task : Option Value)
    → check_call fl is_match rule arguments task ≡ ok tt
    → (o : Fields) × (arguments_of arguments ≡ ok o)
      × (any (λ k. not (declares k rule.arguments)) (keys o) ≡ false)
      × (all (λ r. is_some (get r o)) rule.required ≡ true)
      × (check_declared fl is_match task rule.arguments o "" ≡ ok tt)
unfolding check_call
check_call-eq-ok fl is_match rule arguments task e =
    let (o, read, e₁) = >>=-eq-ok (arguments_of arguments) _ e in
    let (_, head, body) =
      >>=-eq-ok (check_keys (λ k. declares k rule.arguments) rule.required false none none o "") _
        e₁ in
    let (known, present, _) = check_keys-eq-ok _ rule.required false none none o "" head in
    (o, read, not-true _ known, present, body)

-- A call that passes its tool's contract carries an object, or no arguments, with every required
-- argument in it.
pub check_call-required :
    (fl : Floats) (is_match : String → String → Bool) (rule : ToolRule)
    (arguments task : Option Value)
    → check_call fl is_match rule arguments task ≡ ok tt
    → (o : Fields) × (arguments_of arguments ≡ ok o)
      × (all (λ r. is_some (get r o)) rule.required ≡ true)
check_call-required fl is_match rule arguments task e =
    let (o, read, _, present, _) = check_call-eq-ok fl is_match rule arguments task e in
    (o, read, present)

-- Every argument of a call that passes its tool's contract is declared by the contract, and its
-- value passes the declared constraint.
pub check_call-closed :
    (fl : Floats) (is_match : String → String → Bool) (rule : ToolRule) (o : Fields)
    (task : Option Value) (k : String) (v : Value)
    → check_call fl is_match rule (some (object o)) task ≡ ok tt
    → get k o ≡ some v
    → (c : Constraint) × (constraint_of k rule.arguments ≡ some c)
      × (check fl is_match task c v (child "" k) ≡ ok tt)
check_call-closed fl is_match rule o task k v e here =
    let (o', read, known, _, body) = check_call-eq-ok fl is_match rule (some (object o)) task e in
    let same : o ≡ o' = cc read in
    let here' : get k o' ≡ some v = ap (get k) (sym same) ∙ here in
    let (c, found) =
      constraint_of-declares k rule.arguments
        (declares-key (λ j. declares j rule.arguments) k o' {v = v} known here') in
    (c, found, check_declared-eq-ok fl is_match task rule.arguments o' "" body k v c here' found)
