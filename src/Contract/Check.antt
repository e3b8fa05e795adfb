-- ===== src/Contract/Check.antt =====
-- crates/cloakpipe-release/src/contract.rs: the check of a value against a constraint.
use Prim.Native.Nat.{Ordering}
use Prim.Native.String.{count, compare}
use Prim.Native.String.{◌++◌ as push_str}
use cloakpipe.Base.{
  ℕ, String, Bool, true, false, not, ◌||◌, Option, none, some, List, [], ◌∷◌, any, filter, ltb,
  if◌then◌else◌,
}
use cloakpipe.Base.Results.{Result, ok, err, ◌>>=◌, ◌>>◌, ok_or}
use cloakpipe.Json.{
  Value, null, boolean, number, string, array, object, Items, no_items, item, Fields, Floats,
  cmp_number, value_eq, get, keys, size, item_count, items_contain,
}
use cloakpipe.Contract.Constraint.{
  Constraint, ItemsKeyword, JsonType, Keywords, Properties, PropertiesKeyword, Violation, any_items,
  argument_invalid, argument_missing, at, child, constraint, context_value, declared, declares,
  has_array_keywords, has_number_keywords, has_object_keywords, has_string_keywords, is_some,
  is_some_and, items, matches, no_properties, none_declared, object_type, properties,
  scope_mismatch, task_context_missing, task_value, undeclared_argument,
}

abbrev pub ensure : Bool → Violation → Result (Unit {0}) Violation
ensure true v = ok tt
ensure false v = err v

-- `bindTo`
abbrev pub check_bind :
    Floats → Keywords → Option Value → Value → String → Result (Unit {0}) Violation
check_bind fl k task v path = elim k.bind_to [
  | none ↦ ok tt
  | some key ↦ do
    expected ← ok_or (task_value task key) (at task_context_missing path)
    ensure (value_eq fl v expected) (at scope_mismatch path)
]

-- Whether one task context value lets a value through.
abbrev pub context_match : Floats → Option Value → Value → Bool
context_match fl none v = false
context_match fl (some (array a)) v = items_contain fl v a
context_match fl (some null) v = value_eq fl null v
context_match fl (some (boolean b)) v = value_eq fl (boolean b) v
context_match fl (some (number n)) v = value_eq fl (number n) v
context_match fl (some (string s)) v = value_eq fl (string s) v
context_match fl (some (object o)) v = value_eq fl (object o) v

abbrev pub is_text_match : (String → String → Bool) → String → Value → Bool
is_text_match is_match re (string s) = is_match re s
is_text_match is_match re _ = false

-- The plain keywords, with the patterns of `regex`.
module _ (fl : Floats) (is_match : String → String → Bool) where
  -- `one_of_context` with `or_pattern`
  abbrev pub check_context : Keywords → Option Value → Value → String → Result (Unit {0}) Violation
  check_context k task v path = elim k.one_of_context [
    | none ↦ ok tt
    | some paths ↦
        let missing = any (λ p. not (is_some (context_value task p))) paths in
        let matched = any (λ p. context_match fl (context_value task p) v) paths in
        let by_pattern = is_some_and k.or_regex (λ re. is_text_match is_match re v) in
        ensure (matched || by_pattern)
          (at (if missing then task_context_missing else scope_mismatch) path)
  ]

  abbrev pub string_ok : Keywords → Value → Bool
  string_ok k (string s) = not (
      is_some_and k.min_length (λ m. ltb (count s) m)
      || is_some_and k.max_length (λ m. ltb m (count s))
      || is_some_and k.regex (λ re. not (is_match re s)))
  string_ok k _ = false

  -- Incomparable counts as out of range.
  abbrev pub at_least : Option Ordering → Bool
  at_least (some Ordering.gt) = true
  at_least (some Ordering.eq) = true
  at_least _ = false

  abbrev pub at_most : Option Ordering → Bool
  at_most (some Ordering.lt) = true
  at_most (some Ordering.eq) = true
  at_most _ = false

  abbrev pub number_ok : Keywords → Value → Bool
  number_ok k (number n) = not (
      is_some_and k.minimum (λ m. not (at_least (cmp_number fl n m)))
      || is_some_and k.maximum (λ m. not (at_most (cmp_number fl n m))))
  number_ok k _ = false

  -- The keywords that need no other constraint, in the order of the source.
  unfoldable pub check_plain :
      Keywords → Option Value → Value → String → Result (Unit {0}) Violation
  unfolding matches
  check_plain k task v path = do
    check_bind fl k task v path
    check_context k task v path
    ensure (not (is_some_and k.ty (λ t. not (matches fl t v)))) (at argument_invalid path)
    ensure (not (is_some_and k.constant (λ c. not (value_eq fl c v)))) (at argument_invalid path)
    ensure (not (is_some_and k.one_of (λ e. not (items_contain fl v e)))) (at argument_invalid path)
    ensure (not (has_string_keywords k) || string_ok k v) (at argument_invalid path)
    ensure (not (has_number_keywords k) || number_ok k v) (at argument_invalid path)

-- Whether a count lies outside its bounds.
abbrev pub out_of_bounds : Option ℕ → Option ℕ → ℕ → Bool
out_of_bounds low high n = is_some_and low (λ m. ltb n m) || is_some_and high (λ m. ltb m n)

-- `missing.sort(); missing.first()`
unfoldable pub least : List String → Option String
least [] = none
least (s ∷ ss) = elim (least ss) [
  | none ↦ some s
  | some t ↦ some (elim (compare s t) [ Ordering.gt ↦ t | _ ↦ s ])
]

-- `if let Some(r) = missing.first()`
abbrev pub none_missing : Option String → String → Result (Unit {0}) Violation
none_missing none path = ok tt
none_missing (some r) path = err (at argument_missing (child path r))

-- `check_object` before its loop: unknown keys, then missing required ones, then counts.
unfoldable pub check_keys :
    (String → Bool)
    → List String
    → Bool
    → Option ℕ
    → Option ℕ
    → Fields
    → String
    → Result (Unit {0}) Violation
unfolding least get keys size
check_keys is_declared required additional low high o path = do
  ensure (additional || not (any (λ k. not (is_declared k)) (keys o))) (at undeclared_argument path)
  none_missing (least (filter (λ r. not (is_some (get r o))) required)) path
  ensure (not (out_of_bounds low high (size o))) (at argument_invalid path)

unfoldable pub check_each :
    (Value → Result (Unit {0}) Violation) → Items → Result (Unit {0}) Violation
check_each f no_items = ok tt
check_each f (item v vs) = do f v; check_each f vs

abbrev pub is_object_type : Option JsonType → Bool
is_object_type (some object_type) = true
is_object_type _ = false

abbrev pub unwrap_or {ℓ} : {A : Type ℓ} → Option A → A → A
unwrap_or none d = d
unwrap_or (some a) d = a

-- A check of an object; any other value is invalid.
abbrev pub with_object :
    Value → String → (Fields → Result (Unit {0}) Violation) → Result (Unit {0}) Violation
with_object (object o) path f = f o
with_object _ path f = err (at argument_invalid path)

abbrev pub with_array :
    Value → String → (Items → Result (Unit {0}) Violation) → Result (Unit {0}) Violation
with_array (array a) path f = f a
with_array _ path f = err (at argument_invalid path)

abbrev pub key_check : Keywords → (String → Bool) → Fields → String → Result (Unit {0}) Violation
key_check k is_declared o path =
    check_keys is_declared (unwrap_or k.required []) (unwrap_or k.additional_properties false)
      k.min_properties k.max_properties o path

abbrev pub items_path : String → String
items_path path = push_str path "/items"

-- `if let Some(v) = o.get(name)`
abbrev pub if_present :
    Option Value → (Value → Result (Unit {0}) Violation) → Result (Unit {0}) Violation
if_present none f = ok tt
if_present (some v) f = f v

-- `Constraint::check`, with the loop of `check_object` as `check_declared`.
unfoldable mutual
  unfolding check_plain check_keys check_each get child

  pub check :
      Floats
      → (String → String → Bool)
      → Option Value
      → Constraint
      → Value
      → String
      → Result (Unit {0}) Violation
  check fl is_match task (constraint k ps is) v path = do
    check_plain fl is_match k task v path
    check_properties fl is_match task ps k v path
    check_items fl is_match task is k v path

  pub check_properties :
      Floats
      → (String → String → Bool)
      → Option Value
      → PropertiesKeyword
      → Keywords
      → Value
      → String
      → Result (Unit {0}) Violation
  check_properties fl is_match task no_properties k v path =
      if has_object_keywords k no_properties || is_object_type k.ty
      then with_object v path (λ o. key_check k (λ _. false) o path)
      else ok tt
  check_properties fl is_match task (properties ps) k v path =
      with_object v path
        (λ o. do key_check k (λ j. declares j ps) o path; check_declared fl is_match task ps o path)

  pub check_declared :
      Floats
      → (String → String → Bool)
      → Option Value
      → Properties
      → Fields
      → String
      → Result (Unit {0}) Violation
  check_declared fl is_match task none_declared o path = ok tt
  check_declared fl is_match task (declared name c ps) o path = do
    if_present (get name o) (λ v. check fl is_match task c v (child path name))
    check_declared fl is_match task ps o path

  pub check_items :
      Floats
      → (String → String → Bool)
      → Option Value
      → ItemsKeyword
      → Keywords
      → Value
      → String
      → Result (Unit {0}) Violation
  check_items fl is_match task any_items k v path =
      if has_array_keywords k any_items
      then with_array v path (λ a.
        ensure (not (out_of_bounds k.min_items k.max_items (item_count a)))
          (at argument_invalid path))
      else ok tt
  check_items fl is_match task (items c) k v path = with_array v path (λ a. do
    ensure (not (out_of_bounds k.min_items k.max_items (item_count a))) (at argument_invalid path)
    check_each (λ x. check fl is_match task c x (items_path path)) a)
