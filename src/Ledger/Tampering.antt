-- ===== src/Ledger/Tampering.antt =====
-- Two chains that differ in one record.
use cloakpipe.Base.{
  ℕ, suc, ◌≡◌, sym, ◌∙◌, ◌⊎◌, inl, inr, List, [], ◌∷◌, ◌++◌, Bytes, bytes_eq, bytes_eq_iff,
  Bool-cases,
}
use cloakpipe.Base.Results.{ok, ok_injective}
use cloakpipe.Merkle.Binding.{Collision}
use cloakpipe.Ledger.Record.{LedgerRecord}
use cloakpipe.Ledger.Canonical.{Formats, canonicalize}
use cloakpipe.Ledger.Chain.{compute_hash, verify_from, verify_chain, genesis_hash}
use cloakpipe.Ledger.Records.{verify_from-cons}

module _ (f : Formats) (sha256 : Bytes → Bytes) where
  -- Two chains that go on with the same records, from hashes that they check.
  same_prev :
      (n : ℕ) (p q : Bytes) (rest : List LedgerRecord) {h : Bytes}
      → verify_from f sha256 n p rest ≡ ok h
      → verify_from f sha256 n q rest ≡ ok h
      → p ≡ q
  unfolding verify_from
  same_prev n p q [] e e' = ok_injective (e ∙ sym e')
  same_prev n p q (r ∷ rs) {h} e e' =
      let (_, here, _, _) = verify_from-cons f sha256 n p r rs {h = h} e in
      let (_, here', _, _) = verify_from-cons f sha256 n q r rs {h = h} e' in sym here ∙ here'

  same_hash :
      (before : List LedgerRecord) (n : ℕ) (prev : Bytes) (r r' : LedgerRecord)
      (after : List LedgerRecord) {h : Bytes}
      → verify_from f sha256 n prev (before ++ r ∷ after) ≡ ok h
      → verify_from f sha256 n prev (before ++ r' ∷ after) ≡ ok h
      → (compute_hash f sha256 r ≡ compute_hash f sha256 r')
        × (r.seq ≡ r'.seq)
        × (r.prev_hash ≡ r'.prev_hash)
        × (r.record_hash ≡ r'.record_hash)
  same_hash [] n prev r r' after {h} e e' =
      let (s, p, q, rest) = verify_from-cons f sha256 n prev r after {h = h} e in
      let (s', p', q', rest') = verify_from-cons f sha256 n prev r' after {h = h} e' in
      let same = same_prev (suc n) _ _ after {h = h} rest rest' in
      (same, s ∙ sym s', p ∙ sym p', sym q ∙ same ∙ q')
  same_hash (x ∷ xs) n prev r r' after {h} e e' =
      let (_, _, _, rest) = verify_from-cons f sha256 n prev x (xs ++ r ∷ after) {h = h} e in
      let (_, _, _, rest') = verify_from-cons f sha256 n prev x (xs ++ r' ∷ after) {h = h} e' in
      same_hash xs (suc n) _ r r' after {h = h} rest rest'

  -- Where a chain verifies, and verifies to the same hash with one record replaced, the two records
  -- have the same sequence number and hashes, and the same canonical bytes, or those bytes are two
  -- inputs of SHA-256 with one digest.
  pub verify_chain-replace :
      (before after : List LedgerRecord) (r r' : LedgerRecord) (h : Bytes)
      → verify_chain f sha256 (before ++ r ∷ after) ≡ ok h
      → verify_chain f sha256 (before ++ r' ∷ after) ≡ ok h
      → (r.seq ≡ r'.seq)
        × (r.prev_hash ≡ r'.prev_hash)
        × (r.record_hash ≡ r'.record_hash)
        × ((canonicalize f r ≡ canonicalize f r') ⊎ Collision sha256)
  unfolding verify_chain compute_hash
  verify_chain-replace before after r r' h e e' =
      let (same, seq, prev, hash) = same_hash before 0 genesis_hash r r' after {h = h} e e' in
      (
        seq,
        prev,
        hash,
        (elim (Bool-cases (bytes_eq (canonicalize f r) (canonicalize f r'))) [
          | inl equal ↦ inl ((bytes_eq_iff _ _).0 equal)
          | inr apart ↦ inr (record {
            first = canonicalize f r;
            second = canonicalize f r';
            differ = λ p. cc ((bytes_eq_iff _ _).1 p, apart);
            same = same;
          })
        ]),
      )
