-- ===== src/Attendance/Sorted.antt =====
-- What the sort of api/src/services/attendance.ts keeps.
use citynode_app.Prelude.{◌⊎◌, IsSome, IsPairwise, inl, inr, Bool, List, [], ◌∷◌, Bool-cases, All}
use citynode_app.Attendance.History.{placed, sorted_by}

module _ {A : Type 0} (before : A → A → Bool) where
  All-placed : (P : A → Type 0) (x : A) (xs : List A) → P x → All P xs → All P (placed before x xs)
  unfolding placed
  All-placed P x [] p h = (p, tt)
  All-placed P x (y ∷ ys) p h = elim (Bool-cases (before y x)) [
    | inl later ↦ rw later (h.0, All-placed P x ys p h.1)
    | inr here ↦ rw here (p, h)
  ]

  pub All-sorted_by : (P : A → Type 0) (xs : List A) → All P xs → All P (sorted_by before xs)
  unfolding sorted_by
  All-sorted_by P [] h = tt
  All-sorted_by P (x ∷ xs) h = All-placed P x (sorted_by before xs) h.0 (All-sorted_by P xs h.1)

  IsSome-placed :
      (P : A → Type 0) (x : A) (xs : List A) → P x ⊎ IsSome P xs → IsSome P (placed before x xs)
  unfolding placed
  IsSome-placed P x [] h = h
  IsSome-placed P x (y ∷ ys) h = elim (Bool-cases (before y x)) [
    | inr here ↦ rw here h
    | inl later ↦ rw later (elim h [
      | inl new ↦ inr (IsSome-placed P x ys (inl new))
      | inr (inl first) ↦ inl first
      | inr (inr old) ↦ inr (IsSome-placed P x ys (inr old))
    ])
  ]

  pub IsSome-sorted_by :
      (P : A → Type 0) (xs : List A) → IsSome P xs → IsSome P (sorted_by before xs)
  unfolding sorted_by
  IsSome-sorted_by P [] h = absurd h
  IsSome-sorted_by P (x ∷ xs) (inl first) = IsSome-placed P x (sorted_by before xs) (inl first)
  IsSome-sorted_by P (x ∷ xs) (inr later) =
      IsSome-placed P x (sorted_by before xs) (inr (IsSome-sorted_by P xs later))

  module _ (R : A → A → Type 0) (swap : (a b : A) → R a b → R b a) where
    IsPairwise-placed :
        (x : A) (xs : List A) → All (R x) xs → IsPairwise R xs → IsPairwise R (placed before x xs)
    unfolding placed
    IsPairwise-placed x [] h k = (tt, tt)
    IsPairwise-placed x (y ∷ ys) h k = elim (Bool-cases (before y x)) [
      | inr here ↦ rw here (h, k)
      | inl later ↦
          rw later (All-placed (R y) x ys (swap x y h.0) k.0, IsPairwise-placed x ys h.1 k.1)
    ]

    pub IsPairwise-sorted_by : (xs : List A) → IsPairwise R xs → IsPairwise R (sorted_by before xs)
    unfolding sorted_by
    IsPairwise-sorted_by [] k = tt
    IsPairwise-sorted_by (x ∷ xs) k =
        IsPairwise-placed x (sorted_by before xs) (All-sorted_by (R x) xs k.0)
          (IsPairwise-sorted_by xs k.1)
