-- ===== src/Geography/Sorting.antt =====
-- The orders in which api/src/services/validators.ts answers the validators for staking.
use citynode_app.Prelude.{
  ℕ, length, String, ◌≡◌, ◌≢◌, ◌⊎◌, leb, inl, inr, refl, Bool, true, false, List, [], ◌∷◌, arith,
  ◌==◌, eq_iff, filter, Bool-cases, All, All-mono,
}
use citynode_app.Geography.Types.{Validator}
use citynode_app.Geography.Staking.{index_of, default_then_depth, by_depth, insert_sorted, sort}

-- Every element is in order with all that come later.
abbrev pub IsSorted : (Validator → Validator → Bool) → List Validator → Type 0
IsSorted le [] = Unit
IsSorted le (v ∷ vs) = All (λ w. le v w ≡ true) vs × IsSorted le vs

-- An order that compares any two, and is transitive.
pub record IsTotalOrder (le : Validator → Validator → Bool) : Type 0 where
  pub total : (a b : Validator) → le a b ≡ false → le b a ≡ true
  pub trans : (a b c : Validator) → le a b ≡ true → le b c ≡ true → le a c ≡ true

pub default_then_depth-IsTotalOrder : (ids : List String) → IsTotalOrder (default_then_depth ids)
unfolding default_then_depth
default_then_depth-IsTotalOrder ids = record {
  total = λ a b h. ground (arith, h);
  trans = λ a b c h k. ground (arith, h, k);
}

pub by_depth-IsTotalOrder : (ids : List String) → IsTotalOrder (by_depth ids)
unfolding by_depth
by_depth-IsTotalOrder ids = record {
  total = λ a b h. ground (arith, h);
  trans = λ a b c h k. ground (arith, h, k);
}

All-insert :
    (P : Validator → Type 0) (le : Validator → Validator → Bool) (v : Validator)
    (vs : List Validator)
    → P v
    → All P vs
    → All P (insert_sorted le v vs)
unfolding insert_sorted
All-insert P le v [] p h = (p, tt)
All-insert P le v (w ∷ ws) p h = elim (Bool-cases (le v w)) [
  | inl first ↦ rw first (p, h)
  | inr later ↦ rw later (h.0, All-insert P le v ws p h.1)
]

insert-IsSorted :
    (le : Validator → Validator → Bool) (v : Validator) (vs : List Validator)
    → IsTotalOrder le
    → IsSorted le vs
    → IsSorted le (insert_sorted le v vs)
unfolding insert_sorted
insert-IsSorted le v [] o s = (tt, tt)
insert-IsSorted le v (w ∷ ws) o s = elim (Bool-cases (le v w)) [
  | inl first ↦ rw first ((first, All-mono (λ x h. o.trans v w x first h) ws s.0), s)
  | inr later ↦ rw later (
    All-insert (λ x. le w x ≡ true) le v ws (o.total v w later) s.0,
    insert-IsSorted le v ws o s.1,
  )
]

sort-IsSorted :
    (le : Validator → Validator → Bool) (vs : List Validator)
    → IsTotalOrder le
    → IsSorted le (sort le vs)
unfolding sort
sort-IsSorted le [] o = tt
sort-IsSorted le (v ∷ vs) o = insert-IsSorted le v (sort le vs) o (sort-IsSorted le vs o)

abbrev pub count : (Validator → Bool) → List Validator → ℕ
count p vs = length (filter p vs)

count-insert :
    (p : Validator → Bool) (le : Validator → Validator → Bool) (v : Validator) (vs : List Validator)
    → count p (insert_sorted le v vs) ≡ count p (v ∷ vs)
unfolding insert_sorted
count-insert p le v [] = refl
count-insert p le v (w ∷ ws) = elim (Bool-cases (le v w)) [
  | inl first ↦ rw first
  | inr later ↦ rw later (ground (arith, count-insert p le v ws))
]

count-sort :
    (p : Validator → Bool) (le : Validator → Validator → Bool) (vs : List Validator)
    → count p (sort le vs) ≡ count p vs
unfolding sort
count-sort p le [] = refl
count-sort p le (v ∷ vs) = ground (arith, count-insert p le v (sort le vs), count-sort p le vs)

-- The first of the identifiers that is one of the two is `x`, or neither is among them.
abbrev pub IsBefore : List String → String → String → Type 0
IsBefore [] x y = Unit
IsBefore (i ∷ ids) x y = (i ≡ x) ⊎ ((i ≢ y) × IsBefore ids x y)

-- A default comes before the others, and of two alike the one of the earlier node.
pub record IsDefaultsFirst (ids : List String) (a b : Validator) : Type 0 where
  pub defaults : b.is_default ≡ true → a.is_default ≡ true
  pub alike : a.is_default ≡ b.is_default → IsBefore ids a.node_id b.node_id

abbrev pub IsNearestFirst : List String → Validator → Validator → Type 0
IsNearestFirst ids a b = IsBefore ids a.node_id b.node_id

-- Every element stands in the relation to all that come later.
abbrev pub IsOrdered : (Validator → Validator → Type 0) → List Validator → Type 0
IsOrdered R [] = Unit
IsOrdered R (v ∷ vs) = All (R v) vs × IsOrdered R vs

-- The same validators, as often by any test of them, in order.
pub record IsOrdering (R : Validator → Validator → Type 0) (vs ordered : List Validator)
    : Type 0 where
  pub sorted : IsOrdered R ordered
  pub same : (p : Validator → Bool) → count p ordered ≡ count p vs

IsBefore_lem :
    (ids : List String) (x y : String)
    → leb (index_of x ids) (index_of y ids) ≡ true
    → IsBefore ids x y
unfolding index_of
IsBefore_lem [] x y h = tt
IsBefore_lem (i ∷ ids) x y h = elim (Bool-cases (i == x)) [
  | inl here ↦ inl ((eq_iff i x).0 here)
  | inr later ↦ elim (Bool-cases (i == y)) [
    | inl first ↦ absurd (ground (arith, h))
    | inr neither ↦
        inr
          (λ e. ground (arith, neither, (eq_iff i y).1 e), IsBefore_lem ids x y (ground (arith, h)))
  ]
]

pub default_then_depth-IsDefaultsFirst :
    (ids : List String) (a b : Validator)
    → default_then_depth ids a b ≡ true
    → IsDefaultsFirst ids a b
unfolding default_then_depth
default_then_depth-IsDefaultsFirst ids a b h = record {
  defaults = λ d. ground (arith, h);
  alike = λ e. IsBefore_lem ids a.node_id b.node_id (ground (arith, h));
}

pub by_depth-IsNearestFirst :
    (ids : List String) (a b : Validator) → by_depth ids a b ≡ true → IsNearestFirst ids a b
unfolding by_depth
by_depth-IsNearestFirst ids a b h = IsBefore_lem ids a.node_id b.node_id h

IsSorted-IsOrdered :
    (le : Validator → Validator → Bool) (R : Validator → Validator → Type 0) (vs : List Validator)
    → ((a b : Validator) → le a b ≡ true → R a b)
    → IsSorted le vs
    → IsOrdered R vs
IsSorted-IsOrdered le R [] k s = tt
IsSorted-IsOrdered le R (v ∷ vs) k s =
    (All-mono (λ w h. k v w h) vs s.0, IsSorted-IsOrdered le R vs k s.1)

pub sort-IsOrdering :
    (le : Validator → Validator → Bool) (R : Validator → Validator → Type 0) (vs : List Validator)
    → IsTotalOrder le
    → ((a b : Validator) → le a b ≡ true → R a b)
    → IsOrdering R vs (sort le vs)
sort-IsOrdering le R vs o k = record {
  sorted = IsSorted-IsOrdered le R (sort le vs) k (sort-IsSorted le vs o);
  same = λ p. count-sort p le vs;
}
