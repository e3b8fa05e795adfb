-- ===== src/Receipt/OperationId.antt =====
-- `is_valid_operation_id`, on the codes of the characters. An id whose bytes are more than its
-- characters has one that is not ASCII, which the test of its characters refuses.
use Prim.Native.Char.{code}
use cloakpipe.Base.{
  ℕ, ◌+◌, String, Bool, true, false, not, ◌&&◌, ◌||◌, List, [], ◌∷◌, any, all, map, length, leb,
  nat_eq, if◌then◌else◌,
}

unfoldable pub codes : String → List ℕ
codes String.[] = []
codes (String.◌∷◌ c s) = code c ∷ codes s

abbrev pub within : ℕ → ℕ → ℕ → Bool
within low high c = leb low c && leb c high

-- `to_ascii_lowercase`
abbrev pub lower_code : ℕ → ℕ
lower_code c = if within 65 90 c then c + 32 else c

abbrev pub is_operation_code : ℕ → Bool
is_operation_code c =
    (within 48 57 c || within 65 90 c || within 97 122 c)
    || any (nat_eq c) (b'-' ∷ b'_' ∷ b'.' ∷ b':' ∷ [])

abbrev pub starts_with : List ℕ → List ℕ → Bool
starts_with [] cs = true
starts_with (p ∷ ps) [] = false
starts_with (p ∷ ps) (c ∷ cs) = nat_eq p c && starts_with ps cs

-- `lowered.contains(m)`
unfoldable pub contains_codes : List ℕ → List ℕ → Bool
contains_codes p [] = starts_with p []
contains_codes p (c ∷ cs) = starts_with p (c ∷ cs) || contains_codes p cs

abbrev pub operation_id_forbidden : List String
operation_id_forbidden = "aadhaar" ∷ "pan" ∷ "ifsc" ∷ "gstin" ∷ "ssn" ∷ "phone" ∷ "email" ∷ []

unfoldable pub is_valid_operation_id : String → Bool
unfolding codes contains_codes
is_valid_operation_id id =
    within 1 128 (length (codes id))
    && all is_operation_code (codes id)
    && not (any (λ m. contains_codes (codes m) (map lower_code (codes id))) operation_id_forbidden)
