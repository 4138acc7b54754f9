-- ===== src/Dao/Order.antt =====
-- The order of proposals that ui/src/lib/sputnik-proposals.ts sorts by, newest first.
use citynode_app.Prelude.{
  ℕ, ◌≡◌, refl, ap, ◌≤◌, ◌<◌, inl, inr, Bool, true, List, [], ◌∷◌, ◌++◌, arith, ltb, leb, ◌&&◌,
  filter, All, Bool-cases,
}
use citynode_app.Dao.Types.{SputnikProposal}
use citynode_app.Dao.Reading.{insert_newest, newest_first}

-- the identifiers from `low` up to `high`, which is not among them
abbrev pub between : ℕ → ℕ → SputnikProposal → Bool
between low high p = leb low p.id && ltb p.id high

abbrev pub sorted_between : ℕ → ℕ → List SputnikProposal → List SputnikProposal
sorted_between low high stored = newest_first (filter (between low high) stored)

insert-All :
    (low high : ℕ) (p : SputnikProposal) (ps : List SputnikProposal)
    → between low high p ≡ true
    → All (λ q. between low high q ≡ true) ps
    → All (λ q. between low high q ≡ true) (insert_newest p ps)
unfolding insert_newest
insert-All low high p [] h k = (h, tt)
insert-All low high p (q ∷ ps) h k = elim (Bool-cases (ltb p.id q.id)) [
  | inl above ↦ rw above (k.0, insert-All low high p ps h k.1)
  | inr below ↦ rw below (h, k)
]

pub sorted_between-All :
    (low high : ℕ) (stored : List SputnikProposal)
    → All (λ q. between low high q ≡ true) (sorted_between low high stored)
unfolding newest_first
sorted_between-All low high [] = tt
sorted_between-All low high (p ∷ stored) =
    let rest = sorted_between-All low high stored in
    elim (Bool-cases (between low high p)) [
      | inl hit ↦ rw hit (insert-All low high p (sorted_between low high stored) hit rest)
      | inr miss ↦ rw miss rest
    ]

-- A proposal above all of the second list is put into the first.
pub insert_high :
    (p : SputnikProposal) (low mid : ℕ) (xs ys : List SputnikProposal)
    → All (λ q. between low mid q ≡ true) ys
    → mid ≤ p.id
    → insert_newest p (xs ++ ys) ≡ insert_newest p xs ++ ys
unfolding insert_newest
insert_high p low mid [] [] k h = refl
insert_high p low mid [] (y ∷ ys) k h = ground (arith, k.0)
insert_high p low mid (x ∷ xs) ys k h = ground (arith, insert_high p low mid xs ys k h)

-- A proposal below all of the first list is put into the second.
insert_low :
    (p : SputnikProposal) (mid high : ℕ) (xs ys : List SputnikProposal)
    → All (λ q. between mid high q ≡ true) xs
    → p.id < mid
    → insert_newest p (xs ++ ys) ≡ xs ++ insert_newest p ys
unfolding insert_newest
insert_low p mid high [] ys k h = refl
insert_low p mid high (x ∷ xs) ys k h = ground (arith, k.0, insert_low p mid high xs ys k.1 h)

-- The proposals of a range are those of its upper part, then those of its lower part.
pub sorted_between-split :
    (low mid high : ℕ) (stored : List SputnikProposal)
    → low ≤ mid
    → mid ≤ high
    → sorted_between low high stored
      ≡ sorted_between mid high stored ++ sorted_between low mid stored
unfolding newest_first
sorted_between-split low mid high [] h k = refl
sorted_between-split low mid high (p ∷ stored) h k =
    let rest = sorted_between-split low mid high stored h k in
    let upper = sorted_between mid high stored in
    let lower = sorted_between low mid stored in
    ground (
      arith,
      ap (insert_newest p) rest,
      insert_high p low mid upper lower (sorted_between-All low mid stored),
      insert_low p mid high upper lower (sorted_between-All mid high stored),
    )
