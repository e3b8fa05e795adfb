-- ===== src/Contract/Constraint.antt =====
-- crates/cloakpipe-release/src/contract.rs: constraints, violations and the paths into an argument
-- and into the task context.
use Prim.Native.Char.{code}
use Prim.Native.String.{◌++◌ as push_str}
use cloakpipe.Base.{
  ℕ, String, Bool, true, false, ◌||◌, Option, none, some, List, ◌==◌, nat_eq, if◌then◌else◌,
}
use cloakpipe.Base.Options
use cloakpipe.Base.Text.{split, strip_prefix, is_empty}
use cloakpipe.Json.{
  Number, unsigned, negative, float, Value, null, boolean, number, string, array, object, Items,
  Floats, get_path,
}

pub data JsonType : Type 0 where
  string_type integer_type number_type boolean_type object_type array_type null_type : JsonType

-- `JsonType::matches`
unfoldable pub matches : Floats → JsonType → Value → Bool
matches fl string_type (string s) = true
matches fl number_type (number n) = true
matches fl boolean_type (boolean b) = true
matches fl object_type (object o) = true
matches fl array_type (array a) = true
matches fl null_type null = true
matches fl integer_type (number (unsigned n)) = true
matches fl integer_type (number (negative n)) = true
matches fl integer_type (number (float b)) = fl.is_whole b
matches fl _ _ = false

pub data ViolationCode : Type 0 where
  argument_missing undeclared_argument argument_invalid scope_mismatch task_context_missing :
      ViolationCode

pub record Violation : Type 0 where
  pub code : ViolationCode
  pub path : Option String

-- `Violation::at`
abbrev pub at : ViolationCode → String → Violation
at c path = record { code = c; path = if is_empty path then none else some path }

-- The keywords of a constraint that hold no constraint. `regex` and `or_regex` are the sources of
-- the patterns that `validate` compiled.
pub record Keywords : Type 0 where
  pub ty : Option JsonType
  pub one_of : Option Items
  pub constant : Option Value
  pub min_length : Option ℕ
  pub max_length : Option ℕ
  pub pattern : Option String
  pub minimum : Option Number
  pub maximum : Option Number
  pub required : Option (List String)
  pub additional_properties : Option Bool
  pub min_properties : Option ℕ
  pub max_properties : Option ℕ
  pub min_items : Option ℕ
  pub max_items : Option ℕ
  pub bind_to : Option String
  pub one_of_context : Option (List String)
  pub regex : Option String
  pub or_regex : Option String

mutual
  pub data Constraint : Type 0 where
    constraint : Keywords → PropertiesKeyword → ItemsKeyword → Constraint

  -- `Option<BTreeMap<String, Constraint>>`
  pub data PropertiesKeyword : Type 0 where
    no_properties : PropertiesKeyword
    properties : Properties → PropertiesKeyword

  -- `BTreeMap<String, Constraint>`, in key order.
  pub data Properties : Type 0 where
    none_declared : Properties
    declared : String → Constraint → Properties → Properties

  -- `Option<Box<Constraint>>`
  pub data ItemsKeyword : Type 0 where
    any_items : ItemsKeyword
    items : Constraint → ItemsKeyword

unfoldable pub declares : String → Properties → Bool
declares k none_declared = false
declares k (declared j c ps) = j == k || declares k ps

abbrev pub is_some {ℓ} : {A : Type ℓ} → Option A → Bool
is_some none = false
is_some (some _) = true

-- `.is_some_and(p)`
abbrev pub is_some_and {ℓ} : {A : Type ℓ} → Option A → (A → Bool) → Bool
is_some_and none p = false
is_some_and (some a) p = p a

abbrev pub has_properties : PropertiesKeyword → Bool
has_properties no_properties = false
has_properties (properties ps) = true

abbrev pub has_items : ItemsKeyword → Bool
has_items any_items = false
has_items (items c) = true

abbrev pub has_string_keywords : Keywords → Bool
has_string_keywords k = is_some k.min_length || is_some k.max_length || is_some k.pattern

abbrev pub has_number_keywords : Keywords → Bool
has_number_keywords k = is_some k.minimum || is_some k.maximum

abbrev pub has_object_keywords : Keywords → PropertiesKeyword → Bool
has_object_keywords k ps =
    has_properties ps
    || is_some k.required
    || is_some k.additional_properties
    || is_some k.min_properties
    || is_some k.max_properties

abbrev pub has_array_keywords : Keywords → ItemsKeyword → Bool
has_array_keywords k is = has_items is || is_some k.min_items || is_some k.max_items

-- `str::replace` of one character.
unfoldable pub replace_char : ℕ → String → String → String
replace_char c t String.[] = String.[]
replace_char c t (String.◌∷◌ d s) =
    let rest = replace_char c t s in
    if nat_eq (code d) c then push_str t rest else String.◌∷◌ d rest

-- `path` + `/name`, escaped as a JSON pointer.
unfoldable pub child : String → String → String
unfolding replace_char
child path name =
    push_str path (push_str "/" (replace_char b'/' "~1" (replace_char b'~' "~0" name)))

-- The task context value at a dotted path.
unfoldable pub context_value : Option Value → String → Option Value
context_value none key = none
context_value (some task) key = get_path (split b'.' key) task

-- The task context value at `task.<a>.<b>`.
unfoldable pub task_value : Option Value → String → Option Value
task_value none key = none
task_value (some task) key =
    Options.◌>>=◌ (strip_prefix "task." key) (λ k. get_path (split b'.' k) task)
