-- ===== src/Tenants/Distinct.antt =====
-- Rows of which no two clash, under the statements of api/src/services/tenants.ts.
use citynode_app.Prelude.{
  ◌≡◌, refl, Bool, true, false, List, [], ◌∷◌, ◌++◌, arith, any, filter, ◌||◌,
}
use citynode_app.Tenants.Rows.{distinct, set_where}

module _ {ℓ} {Row : Type ℓ} where
  pub any-append : (p : Row → Bool) (xs ys : List Row) → any p (xs ++ ys) ≡ (any p xs || any p ys)
  any-append p [] ys = refl
  any-append p (x ∷ xs) ys = ground (arith, any-append p xs ys)

  pub any-filter :
      (p q : Row → Bool) (xs : List Row) → any p xs ≡ false → any p (filter q xs) ≡ false
  any-filter p q [] h = refl
  any-filter p q (x ∷ xs) h = ground (arith, any-filter p q xs)

  pub distinct-append :
      (clash : Row → Row → Bool) (rows : List Row) (row : Row)
      → ((a b : Row) → clash a b ≡ clash b a)
      → distinct clash rows ≡ true
      → any (clash row) rows ≡ false
      → distinct clash (rows ++ row ∷ []) ≡ true
  unfolding distinct
  distinct-append clash [] row s d free = refl
  distinct-append clash (x ∷ rows) row s d free =
      ground
        (arith, s row x, any-append (clash x) rows (row ∷ []), distinct-append clash rows row s)

  pub distinct-filter :
      (clash : Row → Row → Bool) (q : Row → Bool) (rows : List Row)
      → distinct clash rows ≡ true
      → distinct clash (filter q rows) ≡ true
  unfolding distinct
  distinct-filter clash q [] d = refl
  distinct-filter clash q (x ∷ rows) d =
      ground (arith, any-filter (clash x) q rows, distinct-filter clash q rows)

  -- What holds of every row that the update leaves or makes is found as before.
  pub any-set_where :
      (p chosen : Row → Bool) (set : Row → Row) (rows : List Row)
      → ((row : Row) → p (set row) ≡ p row)
      → any p (set_where chosen set rows) ≡ any p rows
  unfolding set_where
  any-set_where p chosen set [] k = refl
  any-set_where p chosen set (row ∷ rows) k =
      ground (arith, k row, any-set_where p chosen set rows k)
