-- ===== src/Decisions/Table.antt =====
-- SQL's `ORDER BY`, `ORDER BY … DESC LIMIT 1` and `MAX` on the rows of a table.
use mathlib.Core.Path.{subst}
use cloakpipe.Base.{
  ℕ, suc, ◌+◌, ◌≡◌, refl, ap, ◌∙◌, ◌⊎◌, inl, inr, Option, none, some, List, [], ◌∷◌, ◌++◌, length,
  ltb, if◌then◌else◌, arith,
}

module _ {A : Type 0} (key : A → ℕ) where
  unfoldable pub insert_by : A → List A → List A
  insert_by r [] = r ∷ []
  insert_by r (x ∷ xs) =
      let rest = insert_by r xs in if ltb (key x) (key r) then x ∷ rest else r ∷ x ∷ xs

  unfoldable pub order_by : List A → List A
  unfolding insert_by
  order_by [] = []
  order_by (r ∷ rs) = insert_by r (order_by rs)

  -- The rows are numbered one after the other, from a number on.
  abbrev pub IsNumbered : ℕ → List A → Type 0
  IsNumbered n [] = Unit
  IsNumbered n (r ∷ rs) = (key r ≡ n) × IsNumbered (suc n) rs

  pub order_by-IsNumbered : (n : ℕ) (rs : List A) → IsNumbered n rs → order_by rs ≡ rs
  unfolding order_by insert_by
  order_by-IsNumbered n [] h = refl
  order_by-IsNumbered n (r ∷ []) h = refl
  order_by-IsNumbered n (r ∷ x ∷ xs) (here, (next, rest)) =
      ap (insert_by r) (order_by-IsNumbered (suc n) (x ∷ xs) (next, rest)) ∙ ground arith

  pub IsNumbered-append :
      (n : ℕ) (rs : List A) (r : A)
      → IsNumbered n rs
      → key r ≡ n + length rs
      → IsNumbered n (rs ++ r ∷ [])
  IsNumbered-append n [] r h e = (omega (arith, e), tt)
  IsNumbered-append n (x ∷ xs) r (here, rest) e =
      (here, IsNumbered-append (suc n) xs r rest (omega (arith, e)))

abbrev pub last {ℓ} : {A : Type ℓ} → List A → Option A
last [] = none
last (x ∷ xs) = elim (last xs) [ none ↦ some x | some y ↦ some y ]

pub last-append {ℓ} : {A : Type ℓ} (xs : List A) (y : A) → last (xs ++ y ∷ []) ≡ some y
last-append [] y = refl
last-append (x ∷ xs) y = rw (last-append xs y) refl

abbrev pub max_with : ℕ → Option ℕ → Option ℕ
max_with n none = some n
max_with n (some m) = some (if ltb n m then m else n)

-- `SELECT MAX(key)`
unfoldable pub max_by {ℓ} : {A : Type ℓ} → (A → ℕ) → List A → Option ℕ
max_by key [] = none
max_by key (x ∷ xs) = max_with (key x) (max_by key xs)

-- Two lists of one length, whose entries at each place are related; the places are numbered on from
-- a number.
module _ {A B : Type 0} (R : ℕ → A → B → Type 0) where
  abbrev pub Matches : ℕ → List A → List B → Type 0
  Matches n [] [] = Unit
  Matches n [] (x ∷ xs) = ⊥
  Matches n (r ∷ rs) [] = ⊥
  Matches n (r ∷ rs) (x ∷ xs) = R n r x × Matches (suc n) rs xs

  pub Matches-length : (n : ℕ) (rs : List A) (xs : List B) → Matches n rs xs → length rs ≡ length xs
  Matches-length n [] [] h = refl
  Matches-length n [] (x ∷ xs) h = absurd h
  Matches-length n (r ∷ rs) [] h = absurd h
  Matches-length n (r ∷ rs) (x ∷ xs) (here, there) = ap suc (Matches-length (suc n) rs xs there)

  pub Matches-append :
      (n : ℕ) (rs : List A) (xs : List B) (r : A) (x : B) (m : ℕ)
      → Matches n rs xs
      → m ≡ n + length xs
      → R m r x
      → Matches n (rs ++ r ∷ []) (xs ++ x ∷ [])
  Matches-append n [] [] r x m h e fits =
      let start : m ≡ n = omega (arith, e) in (subst (λ k. R k r x) start fits, tt)
  Matches-append n [] (y ∷ xs) r x m h e fits = absurd h
  Matches-append n (s ∷ rs) [] r x m h e fits = absurd h
  Matches-append n (s ∷ rs) (y ∷ xs) r x m (here, there) e fits =
      (here, Matches-append (suc n) rs xs r x m there (omega (arith, e)) fits)

  pub record LastOf (n : ℕ) (rs : List A) (xs : List B) : Type 0 where
    pub row : A
    pub value : B
    pub place : ℕ
    pub placed : n + length xs ≡ suc place
    pub last_row : last rs ≡ some row
    pub last_value : last xs ≡ some value
    pub related : R place row value

  -- Both lists are empty, or their last entries are related.
  pub Matches-last :
      (n : ℕ) (rs : List A) (xs : List B)
      → Matches n rs xs
      → ((rs ≡ []) × (xs ≡ [])) ⊎ LastOf n rs xs
  Matches-last n [] [] h = inl (refl, refl)
  Matches-last n [] (x ∷ xs) h = absurd h
  Matches-last n (r ∷ rs) [] h = absurd h
  Matches-last n (r ∷ rs) (x ∷ xs) (here, there) = elim (Matches-last (suc n) rs xs there) [
    | inl (no_row, no_value) ↦ inr (record {
      row = r;
      value = x;
      place = n;
      placed = omega (arith, ap length no_value);
      last_row = rw no_row refl;
      last_value = rw no_value refl;
      related = here;
    })
    | inr l ↦ inr (record {
      row = l.row;
      value = l.value;
      place = l.place;
      placed = omega (arith, l.placed);
      last_row = rw l.last_row refl;
      last_value = rw l.last_value refl;
      related = l.related;
    })
  ]
