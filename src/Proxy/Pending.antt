-- ===== src/Proxy/Pending.antt =====
-- The calls that are forwarded and not yet answered.
use cloakpipe.Base.{
  ℕ, ◌-◌, String, Bool, true, false, Option, none, some, List, [], ◌∷◌, Bytes, nat_eq, ◌==◌,
  if◌then◌else◌,
}

pub record InFlight : Type 0 where
  pub operation_id : String
  pub tool : String
  pub fingerprint : Bytes

-- The maps as association lists.
pub record PendingOps : Type 0 where
  pub by_request : List (String × InFlight)
  pub outstanding : List (String × ℕ)
  pub closed : Bool

module _ {ℓ} {A : Type ℓ} where
  unfoldable pub get_entry : String → List (String × A) → Option A
  get_entry k [] = none
  get_entry k ((j, a) ∷ rest) = if j == k then some a else get_entry k rest

  unfoldable pub remove_entry : String → List (String × A) → List (String × A)
  remove_entry k [] = []
  remove_entry k ((j, a) ∷ rest) =
      let others = remove_entry k rest in if j == k then others else (j, a) ∷ others

abbrev pub has_entry {ℓ} : {A : Type ℓ} → String → List (String × A) → Bool
has_entry k entries = elim (get_entry k entries) [ none ↦ false | some a ↦ true ]

-- `insert` of a key that is not there.
abbrev pub register : String → InFlight → PendingOps → PendingOps
register request op p = record p { by_request = (request, op) ∷ p.by_request }

-- One reply less to a request: the entry goes with the last.
unfoldable pub answer_one : String → List (String × ℕ) → List (String × ℕ)
answer_one k [] = []
answer_one k ((j, n) ∷ rest) =
    let others = answer_one k rest in
    if j == k then (if nat_eq (n - 1) 0 then rest else (j, n - 1) ∷ rest) else (j, n) ∷ others
