-- ===== src/Dao/Open.antt =====
-- readOpenDaoProposals of ui/src/lib/sputnik-proposals.ts: what the reading back to the proposal period
-- leaves out.
use mathlib.Core.List.{append-nil}
use citynode_app.Prelude.{
  filter-append, ℕ, ◌≡◌, refl, sym, ap, ◌∙◌, ◌≤◌, ◌<◌, ◌-◌, inl, inr, Bool, true, false, Option,
  none, some, List, [], ◌∷◌, ◌++◌, arith, ltb, any, filter, Bool-cases, All,
}
use citynode_app.Dao.Types.{SputnikProposal, SputnikPolicy}
use citynode_app.Dao.Reading.{Fetched, fetched, range_not_read, insert_newest, newest_first}
use citynode_app.Dao.Order.{between, sorted_between, sorted_between-split}
use citynode_app.Dao.Walk.{IsView}
use citynode_app.Dao.Since.{
  older_than, IsSince, reaches_older, reads_all, is_cut, read_since-IsSince,
}
use citynode_app.Dao.Status.{
  period_of, is_open_proposal, open_since, within, map_fetched, read_open,
}

-- A proposal that is not below another was not submitted before it.
abbrev pub IsChronological : List SputnikProposal → Type 0
IsChronological stored =
    All
      (λ (a : SputnikProposal).
        All (λ (b : SputnikProposal). a.id ≤ b.id → a.submission_time ≤ b.submission_time) stored)
      stored

below_older :
    (since low high : ℕ) (a : SputnikProposal) (xs : List SputnikProposal)
    → a.id < low
    → All (λ (b : SputnikProposal). a.id ≤ b.id → a.submission_time ≤ b.submission_time) xs
    → any (older_than since) (filter (between low high) xs) ≡ true
    → a.submission_time < since
below_older since low high a [] below h found = absurd (ground (arith, found))
below_older since low high a (x ∷ xs) below h found =
    ground (arith, h.0, below_older since low high a xs below h.1)

within_closed :
    (period : Option ℕ) (submitted now : ℕ)
    → submitted < open_since period now
    → within period submitted now ≡ false
within_closed none submitted now h = absurd (omega (arith, h))
within_closed (some period) submitted now h = ground (arith, h)

older_closed :
    (p : SputnikProposal) (policy : Option SputnikPolicy) (now : ℕ)
    → p.submission_time < open_since (period_of policy) now
    → is_open_proposal p policy now ≡ false
unfolding is_open_proposal
older_closed p policy now h =
    ground (arith, within_closed (period_of policy) p.submission_time now h)

filter-none {ℓ} :
    {A : Type ℓ} (p : A → Bool) (xs : List A) → All (λ x. p x ≡ false) xs → filter p xs ≡ []
filter-none p [] h = refl
filter-none p (x ∷ xs) h = rw h.0 (filter-none p xs h.1)

All-insert_newest :
    (P : SputnikProposal → Type 0) (p : SputnikProposal) (ps : List SputnikProposal)
    → P p
    → All P ps
    → All P (insert_newest p ps)
unfolding insert_newest
All-insert_newest P p [] h k = (h, tt)
All-insert_newest P p (q ∷ ps) h k = elim (Bool-cases (ltb p.id q.id)) [
  | inl above ↦ rw above (k.0, All-insert_newest P p ps h k.1)
  | inr below ↦ rw below (h, k)
]

All-newest_first :
    (P : SputnikProposal → Type 0) (ps : List SputnikProposal) → All P ps → All P (newest_first ps)
unfolding newest_first
All-newest_first P [] h = tt
All-newest_first P (p ∷ ps) h =
    All-insert_newest P p (newest_first ps) h.0 (All-newest_first P ps h.1)

module _ (policy : Option SputnikPolicy) (now : ℕ) (stored : List SputnikProposal) where
  abbrev is_open : SputnikProposal → Bool
  is_open p = is_open_proposal p policy now

  abbrev since : ℕ
  since = open_since (period_of policy) now

  closed_below :
      (low high : ℕ) (xs : List SputnikProposal)
      → All
          (λ (a : SputnikProposal).
            All
              (λ (b : SputnikProposal). a.id ≤ b.id → a.submission_time ≤ b.submission_time)
              stored)
          xs
      → any (older_than since) (filter (between low high) stored) ≡ true
      → All (λ p. is_open p ≡ false) (filter (between 0 low) xs)
  closed_below low high [] h found = tt
  closed_below low high (a ∷ xs) h found = elim (Bool-cases (between 0 low a)) [
    | inr above ↦ rw above (closed_below low high xs h.1 found)
    | inl below ↦ rw below (
      older_closed a policy now
          (below_older since low high a stored (ground (arith, below)) h.0 found),
      closed_below low high xs h.1 found,
    )
  ]

  -- What the reading leaves out is not open.
  open_kept :
      (low high last : ℕ)
      → low ≤ last
      → IsChronological stored
      → any (older_than since) (filter (between low high) stored) ≡ true
      → filter is_open (sorted_between low last stored)
        ≡ filter is_open (sorted_between 0 last stored)
  open_kept low high last h chronological found =
      let kept = sorted_between low last stored in
      let left = sorted_between 0 low stored in
      sym (
        ap (filter is_open) (sorted_between-split 0 low last stored (omega arith) h)
        ∙ filter-append is_open kept left
        ∙ ap (λ rest. filter is_open kept ++ rest)
            (filter-none is_open left (
              All-newest_first (λ p. is_open p ≡ false) (filter (between 0 low) stored)
                (closed_below low high stored chronological found)))
        ∙ append-nil (filter is_open kept))

-- The open proposals below `last`, newest first; or the error of a range not read, in a DAO with more
-- identifiers than the bound, of whose newest as many as the bound no proposal is older than the period.
pub data IsOpenRead (policy : Option SputnikPolicy) (now last : ℕ) (stored : List SputnikProposal)
    (answer : Fetched) : Type 0 where
  reads_open :
      answer ≡ fetched (filter (λ p. is_open_proposal p policy now) (sorted_between 0 last stored))
      → IsOpenRead policy now last stored answer
  too_many :
      2000 < last
      → any
          (older_than (open_since (period_of policy) now))
          (filter (between (last - 2000) last) stored)
        ≡ false
      → answer ≡ range_not_read
      → IsOpenRead policy now last stored answer

since-IsOpenRead :
    (policy : Option SputnikPolicy) (now last : ℕ) (stored : List SputnikProposal) (read : Fetched)
    → IsChronological stored
    → IsSince stored (open_since (period_of policy) now) 100 (last - 2000) last read
    → IsOpenRead policy now last stored
        (map_fetched (filter (λ p. is_open_proposal p policy now)) read)
since-IsOpenRead policy now last stored read chronological
      (reaches_older low high e h k old young r) =
    rw r (
      reads_open
        (ap fetched (open_kept policy now stored low high last (omega arith) chronological old)))
since-IsOpenRead policy now last stored read chronological (reads_all whole young r) =
    rw r (reads_open refl)
since-IsOpenRead policy now last stored read chronological (is_cut more young r) =
    rw r (too_many (omega arith) young refl)

-- Where a view call answers the stored proposals of a range of identifiers, and a proposal that is not
-- below another was not submitted before it, readOpenDaoProposals answers every open proposal below
-- the last identifier, newest first, though it stops reading at the first range with a proposal
-- older than the period; or it throws the error of a range not read, and then there are more than
-- 2000 identifiers and none of the newest 2000 has a proposal older than the period.
pub read_open-IsOpenRead :
    (view : ℕ → ℕ → Option (List SputnikProposal)) (stored : List SputnikProposal) (last : ℕ)
    (policy : Option SputnikPolicy) (now : ℕ)
    → IsView view stored
    → IsChronological stored
    → IsOpenRead policy now last stored (read_open view last policy now)
unfolding read_open
read_open-IsOpenRead view stored last policy now v chronological =
    since-IsOpenRead policy now last stored _ chronological (
      read_since-IsSince view stored 100 last (open_since (period_of policy) now) 2000 v
        (omega arith))
