-- ===== src/Masking/Known.antt =====
-- What a vault without a resolver knows: which text each token stands for.
use mathlib.Core.Path.{subst}
use cloakpipe.Base.{
  ℕ, suc, ◌+◌, ◌^◌, ◌≤◌, ◌<◌, ◌≡◌, refl, ap, sym, ◌∙◌, inl, inr, none, some, Bytes, bytes_eq,
  bytes_eq_sound, arith, Bool-cases, Option-cases,
}
use cloakpipe.Masking.Entity.{EntityCategory, PseudoToken}
use cloakpipe.Masking.Assoc.{lookup, insert, lookup-insert, lookup-insert_other}
use cloakpipe.Masking.Resolver.{Texts}
use cloakpipe.Masking.Vault.{
  Vault, new_vault, or_zero, category_prefix, token_text, resolved, next_id, create, get_or_make,
  get_or_create, original_of,
}
use cloakpipe.Masking.Tokens.{Digits, token_text-injective}

abbrev pub count : Bytes → Vault → ℕ
count prefix v = or_zero (lookup prefix v.counters)

module _ (t : Texts) where
  -- A token of the vault: its prefix, and a number that the counter has reached.
  pub record IsIssued (x : Bytes) (v : Vault) : Type 0 where
    pub prefix : Bytes
    pub number : ℕ
    pub spelled : x ≡ token_text t prefix number
    pub reached : number ≤ count prefix v

  pub record IsVault (v : Vault) : Type 0 where
    pub alone : v.resolver ≡ none
    pub reversed :
        (o : Bytes) (k : PseudoToken) → lookup o v.forward ≡ some k → original_of k.token v ≡ some o
    pub issued : (x o : Bytes) → original_of x v ≡ some o → IsIssued x v

  -- Room for so many new tokens.
  abbrev pub HasRoom : ℕ → Vault → Type 0
  HasRoom n v = (prefix : Bytes) → count prefix v + n < 2 ^ 32

  pub new_vault-IsVault : IsVault new_vault
  unfolding original_of lookup
  new_vault-IsVault = record {
    alone = refl;
    reversed = λ o k h. cc h;
    issued = λ x o h. absurd (let bad : none ≡ some o = h in cc);
  }

  module _ (digits : Digits t) (o : Bytes) (c : EntityCategory) (v : Vault) where
    abbrev prefix : Bytes
    prefix = category_prefix t c

    abbrev fresh : Bytes
    fresh = token_text t prefix (suc (count prefix v))

    -- The new token is not one that the vault has issued.
    fresh_unknown : IsVault v → original_of fresh v ≡ none
    fresh_unknown h = elim (Option-cases (original_of fresh v)) [
      | inl absent ↦ absent
      | inr (o', known) ↦
          let i = h.issued fresh o' known in
          let (p, n) = token_text-injective t digits prefix i.prefix _ i.number i.spelled in
          absurd (omega (arith, i.reached, n, ap (λ x. count x v) p))
    ]

    abbrev fresh_token : PseudoToken
    fresh_token = record { token = fresh; category = c; id = suc (count prefix v) }

    -- The vault with the new token.
    abbrev extended : Vault
    extended = record v {
      forward = insert o fresh_token v.forward;
      reverse = insert fresh o v.reverse;
      counters = insert prefix (suc (count prefix v)) v.counters;
    }

    next_id-suc : count prefix v + 1 < 2 ^ 32 → next_id t prefix v ≡ suc (count prefix v)
    unfolding next_id
    next_id-suc lt = omega arith

    get_or_create-known :
        (k : PseudoToken) → lookup o v.forward ≡ some k → get_or_create t o c v ≡ (k, v)
    unfolding get_or_create get_or_make
    get_or_create-known k known = rw (get_or_make, known) refl

    resolved-alone : IsVault v → resolved t o c v ≡ none
    unfolding resolved
    resolved-alone h = rw (resolved, h.alone) refl

    get_or_create-new :
        IsVault v
        → count prefix v + 1 < 2 ^ 32
        → lookup o v.forward ≡ none
        → get_or_create t o c v ≡ (fresh_token, extended)
    unfolding get_or_create get_or_make create resolved
    get_or_create-new h lt absent =
        rw (get_or_make, absent, resolved-alone h, create, next_id-suc lt) refl

    count-extended : (q : Bytes) → count q extended ≤ suc (count q v)
    count-extended q = elim (Bool-cases (bytes_eq prefix q)) [
      | inl same ↦
          let p = bytes_eq_sound prefix q same in
          subst (λ x. count x extended ≤ suc (count x v)) p
            (omega (arith, ap or_zero (lookup-insert prefix (suc (count prefix v)) v.counters)))
      | inr other ↦
          omega (
            arith,
            ap or_zero (lookup-insert_other prefix q (suc (count prefix v)) v.counters other),
          )
    ]

    count-extended_grows : (q : Bytes) → count q v ≤ count q extended
    count-extended_grows q = elim (Bool-cases (bytes_eq prefix q)) [
      | inl same ↦
          let p = bytes_eq_sound prefix q same in
          subst (λ x. count x v ≤ count x extended) p
            (omega (arith, ap or_zero (lookup-insert prefix (suc (count prefix v)) v.counters)))
      | inr other ↦
          omega (
            arith,
            ap or_zero (lookup-insert_other prefix q (suc (count prefix v)) v.counters other),
          )
    ]

    -- What the vault knew it still knows.
    keeps-extended :
        IsVault v → (x o' : Bytes) → original_of x v ≡ some o' → original_of x extended ≡ some o'
    unfolding original_of
    keeps-extended h x o' known = elim (Bool-cases (bytes_eq fresh x)) [
      | inl same ↦
          let p = bytes_eq_sound fresh x same in
          let bad : none ≡ some o' = sym (fresh_unknown h) ∙ ap (λ y. original_of y v) p ∙ known in
          absurd (let b = bad in cc)
      | inr other ↦ lookup-insert_other fresh x o v.reverse other ∙ known
    ]

    original_of-fresh : original_of fresh extended ≡ some o
    unfolding original_of
    original_of-fresh = lookup-insert fresh o v.reverse

    extended-IsVault : IsVault v → IsVault extended
    unfolding original_of
    extended-IsVault h = record {
      alone = h.alone;
      reversed = λ o' k found. elim (Bool-cases (bytes_eq o o')) [
        | inl same ↦
            let p = bytes_eq_sound o o' same in
            let some_k : some fresh_token ≡ some k =
              sym (lookup-insert o fresh_token v.forward)
              ∙ ap (λ y. lookup y extended.forward) p
              ∙ found in
            let token : fresh_token ≡ k = cc some_k in
            ap (λ (y : PseudoToken). lookup y.token extended.reverse) (sym token)
            ∙ lookup-insert fresh o v.reverse
            ∙ ap some p
        | inr other ↦
            keeps-extended h k.token o'
              (h.reversed o' k (sym (lookup-insert_other o o' fresh_token v.forward other) ∙ found))
      ];
      issued = λ x o' found. elim (Bool-cases (bytes_eq fresh x)) [
        | inl same ↦ record {
          prefix = prefix;
          number = suc (count prefix v);
          spelled = sym (bytes_eq_sound fresh x same);
          reached =
              omega (arith, ap or_zero (lookup-insert prefix (suc (count prefix v)) v.counters));
        }
        | inr other ↦
            let i = h.issued x o' (sym (lookup-insert_other fresh x o v.reverse other) ∙ found) in
            record {
              prefix = i.prefix;
              number = i.number;
              spelled = i.spelled;
              reached = omega (arith, i.reached, count-extended_grows i.prefix);
            }
      ];
    }

    -- A token and the vault after a call.
    pub record Made (made : PseudoToken × Vault) : Type 0 where
      pub valid : IsVault made.1
      pub stands : original_of made.0.token made.1 ≡ some o
      pub keeps : (x o' : Bytes) → original_of x v ≡ some o' → original_of x made.1 ≡ some o'
      pub grows : (q : Bytes) → count q made.1 ≤ suc (count q v)

    pub get_or_create-Made : IsVault v → count prefix v + 1 < 2 ^ 32 → Made (get_or_create t o c v)
    get_or_create-Made h lt = elim (Option-cases (lookup o v.forward)) [
      | inl absent ↦ subst Made (sym (get_or_create-new h lt absent)) (record {
        valid = extended-IsVault h;
        stands = original_of-fresh;
        keeps = keeps-extended h;
        grows = count-extended;
      })
      | inr (k, known) ↦ subst Made (sym (get_or_create-known k known)) (record {
        valid = h;
        stands = h.reversed o k known;
        keeps = λ x o' found. found;
        grows = λ q. omega arith;
      })
    ]
