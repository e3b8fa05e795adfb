-- ===== src/Masking/Entity.antt =====
-- crates/cloakpipe-core/src/lib.rs
use cloakpipe.Base.{ℕ, Bool, List, Bytes, bytes_eq, nat_eq}

pub data EntityCategory : Type 0 where
  person organization location amount percentage date email phone_number : EntityCategory
  ip_address secret url project business infra : EntityCategory
  custom : Bytes → EntityCategory

-- The places of the categories without a name of their own.
abbrev place : EntityCategory → ℕ
place person = 0
place organization = 1
place location = 2
place amount = 3
place percentage = 4
place date = 5
place email = 6
place phone_number = 7
place ip_address = 8
place secret = 9
place url = 10
place project = 11
place business = 12
place infra = 13
place (custom n) = 14

-- `==` on categories.
unfoldable pub category_eq : EntityCategory → EntityCategory → Bool
category_eq (custom m) (custom n) = bytes_eq m n
category_eq a b = nat_eq (place a) (place b)

-- `confidence` and `source` are not read here.
pub record DetectedEntity : Type 0 where
  pub original : Bytes
  pub start : ℕ
  pub stop : ℕ
  pub category : EntityCategory

pub record PseudoToken : Type 0 where
  pub token : Bytes
  pub category : EntityCategory
  pub id : ℕ

pub record PseudonymizedText : Type 0 where
  pub text : Bytes
  pub mappings : List (Bytes × Bytes)
  pub entities : List DetectedEntity
