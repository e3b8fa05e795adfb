-- ===== src/Ledger/Appends.antt =====
-- Runs of appends to the table of records, for any tenants.
use mathlib.Core.Path.{subst}
use mathlib.Core.List.{append-nil}
use cloakpipe.Base.{
  ℕ, String, ◌≡◌, refl, sym, ◌∙◌, false, List, [], ◌∷◌, ◌++◌, ◌==◌, eq_iff, length, Bytes, nat_eq,
  if◌then◌else◌, arith, Bool-cases, inl, inr,
}
use cloakpipe.Base.Results.{Result, ok, err, ◌>>=◌}
use cloakpipe.Ledger.Record.{LedgerRecord}
use cloakpipe.Ledger.Canonical.{Formats}
use cloakpipe.Ledger.Chain.{genesis_hash, link_and_hash, verify_chain}
use cloakpipe.Ledger.Table.{
  StoreError, seq_out_of_order, Json, RecordRow, records_for_tenant, new_row, append,
}
use cloakpipe.Ledger.Records.{
  Sound, rows_at, Chained, contents, records_for_tenant-Chained, append-Chained, Chained-append,
  filter-append, RowOf,
}
use cloakpipe.Decisions.Table.{Matches}

-- The table after an append: an error leaves it.
abbrev pub table_after :
    {T : Type 0}
    → List (RecordRow T)
    → Result ((ℕ × LedgerRecord) × List (RecordRow T)) StoreError
    → List (RecordRow T)
table_after rows (ok (answer, rows')) = rows'
table_after rows (err e) = rows

-- The answer of an append: the row's id, and the record as it was linked.
abbrev pub answer :
    {T : Type 0}
    → Result ((ℕ × LedgerRecord) × List (RecordRow T)) StoreError
    → Result (ℕ × LedgerRecord) StoreError
answer r = r >>= λ x. ok x.0

module _ {T : Type 0} (f : Formats) (json : Json T) (sha256 : Bytes → Bytes) where
  -- Appends one after the other, each with the id that the database gives and the tenant.
  unfoldable pub appended :
      List (ℕ × Bytes × LedgerRecord) → List (RecordRow T) → List (RecordRow T)
  unfolding append
  appended [] rows = rows
  appended ((id, tenant, r) ∷ rest) rows =
      appended rest (table_after rows (append f json sha256 id tenant r rows))

  module _ (sound : Sound json sha256) where
    -- The rows of every tenant hold a chain that verifies.
    abbrev Chains : List (RecordRow T) → Type 0
    Chains rows =
        (k : String)
        → (rs : List LedgerRecord) × (h : Bytes) × Chained f json sha256 sound k rows rs h

    Chained-other :
        (k : String) (rows : List (RecordRow T)) (new : RecordRow T) (rs : List LedgerRecord)
        (h : Bytes)
        → (new.tenant_id == k) ≡ false
        → Chained f json sha256 sound k rows rs h
        → Chained f json sha256 sound k (rows ++ new ∷ []) rs h
    Chained-other k rows new rs h other c =
        let same : rows_at f json sha256 sound k (rows ++ new ∷ [])
            ≡ rows_at f json sha256 sound k rows =
          filter-append (λ (x : RecordRow T). x.tenant_id == k) rows new
          ∙ rw other (append-nil (rows_at f json sha256 sound k rows)) in
        record {
          matches = subst (λ x. Matches (RowOf f json sha256 sound) 0 x rs) (sym same) c.matches;
          verifies = c.verifies;
        }

    append-Chains :
        (id : ℕ) (tenant : Bytes) (r : LedgerRecord) (rows : List (RecordRow T))
        → Chains rows
        → Chains (table_after rows (append f json sha256 id tenant r rows))
    append-Chains id tenant r rows chains =
        let (rs, h, c) = chains (f.hyphenated tenant) in
        let linked = link_and_hash f sha256 h r in
        let (text, written, reads) = sound.reads linked in
        let done = append-Chained f json sha256 sound id tenant r rows rs h c text written in
        elim (Bool-cases (nat_eq r.seq (length rs))) [
          | inr refused ↦ rw (done, refused) chains
          | inl next ↦
              rw (done, next)
                λ k. elim (Bool-cases (f.hyphenated tenant == k)) [
                  | inl mine ↦
                      subst
                        (λ k.
                          (rs : List LedgerRecord) × (h : Bytes) × Chained f json sha256 sound k
                            (rows ++ new_row f json sha256 id tenant linked text ∷ []) rs h)
                        ((eq_iff (f.hyphenated tenant) k).0 mine)
                        (
                          rs ++ linked ∷ [],
                          linked.record_hash,
                          Chained-append f json sha256 sound id tenant r rows rs h c text reads
                              (ground arith),
                        )
                  | inr other ↦
                      let (rs', h', c') = chains k in
                      (rs', h', Chained-other k rows _ rs' h' other c')
                ]
        ]

    appended-Chains :
        (calls : List (ℕ × Bytes × LedgerRecord)) (rows : List (RecordRow T))
        → Chains rows
        → Chains (appended calls rows)
    unfolding appended
    appended-Chains [] rows chains = chains
    appended-Chains ((id, tenant, r) ∷ rest) rows chains =
        appended-Chains rest (table_after rows (append f json sha256 id tenant r rows))
          (append-Chains id tenant r rows chains)

    nil-Chains : Chains []
    unfolding verify_chain
    nil-Chains k = ([], genesis_hash, record { matches = tt; verifies = refl })

    -- After any appends, for any tenants and in any order, to an empty table: the records of a tenant
    -- read back and verify as a chain. One more append for the tenant is accepted exactly when its
    -- record has the next sequence number, and then the records are those before and the new one,
    -- linked to the hash of the chain, and verify to its hash; when it is refused they are as before.
    pub verify_chain-append :
        (calls : List (ℕ × Bytes × LedgerRecord)) (id : ℕ) (tenant : Bytes) (r : LedgerRecord)
        → let rows = appended calls [] in
          let out = append f json sha256 id tenant r rows in
          (rs : List LedgerRecord) × (h : Bytes) × (let next = nat_eq r.seq (length rs) in
            let linked = link_and_hash f sha256 h r in
            let after = if next then rs ++ linked ∷ [] else rs in
            (contents (records_for_tenant f json tenant rows) ≡ ok rs)
            × (verify_chain f sha256 rs ≡ ok h)
            × (answer out ≡ (if next then ok (id, linked) else err (seq_out_of_order (length rs))))
            × (contents (records_for_tenant f json tenant (table_after rows out)) ≡ ok after)
            × (verify_chain f sha256 after ≡ ok (if next then linked.record_hash else h)))
    verify_chain-append calls id tenant r =
        let rows = appended calls [] in
        let (rs, h, c) = appended-Chains calls [] nil-Chains (f.hyphenated tenant) in
        let linked = link_and_hash f sha256 h r in
        let (text, written, reads) = sound.reads linked in
        let done = append-Chained f json sha256 sound id tenant r rows rs h c text written in
        let records = records_for_tenant-Chained f json sha256 sound tenant in
        elim (Bool-cases (nat_eq r.seq (length rs))) [
          | inr refused ↦ (
            rs,
            h,
            rw (done, refused)
                (records rows rs h c, c.verifies, refl, records rows rs h c, c.verifies),
          )
          | inl next ↦
              let c' =
                Chained-append f json sha256 sound id tenant r rows rs h c text reads
                  (ground arith) in
              (
                rs,
                h,
                rw (done, next)
                    (records rows rs h c, c.verifies, refl, records _ _ _ c', c'.verifies),
              )
        ]
