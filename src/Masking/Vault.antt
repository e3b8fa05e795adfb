-- ===== src/Masking/Vault.antt =====
-- crates/cloakpipe-core/src/vault.rs, in memory. The key and the path are left out.
use cloakpipe.Base.{
  ℕ, ◌+◌, ◌%◌, ◌^◌, Bool, true, false, Option, none, some, List, [], ◌∷◌, ◌++◌, map, Bytes,
}
use cloakpipe.Receipt.OperationId.{codes}
use cloakpipe.Masking.Entity.{
  EntityCategory, person, organization, location, amount, percentage, date, email, phone_number,
  ip_address, secret, url, project, business, infra, custom, PseudoToken,
}
use cloakpipe.Masking.Assoc.{lookup, insert}
use cloakpipe.Masking.Resolver.{Texts, EntityResolver, resolve}

pub record Vault : Type 0 where
  pub forward : List (Bytes × PseudoToken)
  pub reverse : List (Bytes × Bytes)
  pub counters : List (Bytes × ℕ)
  pub resolver : Option EntityResolver

-- `Vault::ephemeral`
abbrev pub new_vault : Vault
new_vault = record { forward = []; reverse = []; counters = []; resolver = none }

abbrev pub set_resolver : EntityResolver → Vault → Vault
set_resolver r v = record v { resolver = some r }

abbrev pub or_zero : Option ℕ → ℕ
or_zero none = 0
or_zero (some n) = n

module _ (t : Texts) where
  unfoldable pub category_prefix : EntityCategory → Bytes
  unfolding codes
  category_prefix person = codes "PERSON"
  category_prefix organization = codes "ORG"
  category_prefix location = codes "LOC"
  category_prefix amount = codes "AMOUNT"
  category_prefix percentage = codes "PCT"
  category_prefix date = codes "DATE"
  category_prefix email = codes "EMAIL"
  category_prefix phone_number = codes "PHONE"
  category_prefix ip_address = codes "IP"
  category_prefix secret = codes "SECRET"
  category_prefix url = codes "URL"
  category_prefix project = codes "PROJECT"
  category_prefix business = codes "BIZ"
  category_prefix infra = codes "INFRA"
  category_prefix (custom name) = t.to_uppercase name

  -- `format!("{prefix}_{counter}")`
  abbrev pub token_text : Bytes → ℕ → Bytes
  token_text prefix n = prefix ++ 95 ∷ t.decimal n

  abbrev pub categories : List (Bytes × PseudoToken) → List (Bytes × EntityCategory)
  categories entries = map (λ (x : Bytes × PseudoToken). (x.0, x.1.category)) entries

  -- The token of the existing entry that the resolver names, if any.
  unfoldable pub resolved : Bytes → EntityCategory → Vault → Option PseudoToken
  unfolding resolve lookup
  resolved original category v = elim v.resolver [
    | none ↦ none
    | some r ↦ elim (resolve t r original category (categories v.forward)) [
      | none ↦ none
      | some canonical ↦ lookup canonical v.forward
    ]
  ]

  -- The number of a new token. A counter is 32 bits wide.
  unfoldable pub next_id : Bytes → Vault → ℕ
  unfolding lookup
  next_id prefix v = (or_zero (lookup prefix v.counters) + 1) % 2 ^ 32

  -- The steps for a text without an entry: the token made by `spell`, and the maps with it.
  unfoldable pub create : (Bytes → ℕ → Bytes) → Bytes → EntityCategory → Vault → PseudoToken × Vault
  unfolding category_prefix next_id insert
  create spell original category v =
      let prefix = category_prefix category in
      let id = next_id prefix v in
      let token : PseudoToken = record { token = spell prefix id; category = category; id = id } in
      (
        token,
        record v {
          forward = insert original token v.forward;
          reverse = insert token.token original v.reverse;
          counters = insert prefix id v.counters;
        },
      )

  unfoldable pub get_or_make :
      (Bytes → ℕ → Bytes) → Bytes → EntityCategory → Vault → PseudoToken × Vault
  unfolding lookup insert resolved create
  get_or_make spell original category v = elim (lookup original v.forward) [
    | some token ↦ (token, v)
    | none ↦ elim (resolved original category v) [
      | some token ↦ (token, record v { forward = insert original token v.forward })
      | none ↦ create spell original category v
    ]
  ]

  unfoldable pub get_or_create : Bytes → EntityCategory → Vault → PseudoToken × Vault
  unfolding get_or_make
  get_or_create original category v = get_or_make token_text original category v

  -- `format_preserving::generate` is `generate`.
  unfoldable pub get_or_create_fp :
      (Bytes → EntityCategory → ℕ → Bytes) → Bytes → EntityCategory → Vault → PseudoToken × Vault
  unfolding get_or_make
  get_or_create_fp generate original category v =
      get_or_make (λ prefix id. generate original category id) original category v

abbrev is_some {ℓ} : {A : Type ℓ} → Option A → Bool
is_some none = false
is_some (some a) = true

unfoldable pub contains_original : Bytes → Vault → Bool
unfolding lookup
contains_original value v = is_some (lookup value v.forward)

-- `Vault::lookup`
unfoldable pub original_of : Bytes → Vault → Option Bytes
unfolding lookup
original_of token v = lookup token v.reverse

-- What `load` makes of the saved entries, in the order that they were saved in.
unfoldable pub load_entries : List (Bytes × PseudoToken) → Vault → Vault
unfolding insert
load_entries [] v = v
load_entries ((original, token) ∷ rest) v = load_entries rest (record v {
  forward = insert original token v.forward;
  reverse = insert token.token original v.reverse;
})

-- `load` of what `to_vault_data` made of a vault.
unfoldable pub reload : Vault → Vault
unfolding load_entries
reload v = load_entries v.forward (record new_vault { counters = v.counters })
