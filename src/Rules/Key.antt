-- ===== src/Rules/Key.antt =====
-- crates/cloakpipe-release/src/rules.rs: idempotency key templates.
use Prim.Native.String.{◌++◌ as push_str}
use cloakpipe.Base.{String, Bool, Option, none, some, List, [], ◌∷◌, if◌then◌else◌}
use cloakpipe.Base.Results.{Result, ok, ◌>>=◌, ok_or}
use cloakpipe.Json.{Value, null, boolean, number, string, array, object, get_path}
use cloakpipe.Contract.Constraint.{Violation, argument_missing, task_context_missing, child}

pub data Part : Type 0 where
  literal : String → Part
  placeholder : List String → Bool → Bool → Part

-- `lookup`
unfoldable pub lookup : Option Value → List String → Option Value
lookup none path = none
lookup (some v) path = get_path path v

unfoldable pub path_of : String → List String → String
path_of p [] = p
path_of p (s ∷ ss) = path_of (child p s) ss

-- `encode` is the crate `serde_json_canonicalizer`, `digest` the hex of `Sha256` of a text.
module _ (encode : Value → String) (digest : String → String) where
  abbrev pub text_of : Value → String
  text_of (string s) = s
  text_of null = encode null
  text_of (boolean b) = encode (boolean b)
  text_of (number n) = encode (number n)
  text_of (array a) = encode (array a)
  text_of (object o) = encode (object o)

  unfoldable pub part_text : Option Value → Option Value → Part → Result String Violation
  unfolding lookup path_of
  part_text arguments task (literal s) = ok s
  part_text arguments task (placeholder path from_task hashed) = do
    value ←
        if from_task
        then ok_or (lookup task path) (record { code = task_context_missing; path = none })
        else ok_or (lookup arguments path)
            (record { code = argument_missing; path = some (path_of "" path) })
    ok (if hashed then digest (text_of value) else text_of value)

  -- `IdempotencyKey::render`
  unfoldable pub render : List Part → Option Value → Option Value → Result String Violation
  unfolding part_text
  render [] arguments task = ok ""
  render (p ∷ ps) arguments task = do
    text ← part_text arguments task p
    rest ← render ps arguments task
    ok (push_str text rest)
