-- ===== src/Dao/Reading.antt =====
-- readDaoProposalPage, readRecentDaoProposals, readDaoProposalsSince and readOpenDaoProposals of
-- ui/src/lib/sputnik-proposals.ts. The view calls of the contract are parameters: `view from limit` is
-- get_proposals, and a call that fails is `none`, which the reads pass on.
use citynode_app.Prelude.{
  ℕ, zero, suc, ◌-◌, Option, none, some, List, [], ◌∷◌, ◌++◌, if◌then◌else◌, ltb, eqb, any, max,
}
use citynode_app.Dao.Types.{SputnikProposal}

-- `proposals.sort((a, b) => b.id - a.id)`: equal identifiers keep their order
unfoldable pub insert_newest : SputnikProposal → List SputnikProposal → List SputnikProposal
insert_newest p [] = p ∷ []
insert_newest p (q ∷ rest) =
    let later = insert_newest p rest in if ltb p.id q.id then q ∷ later else p ∷ q ∷ rest

unfoldable pub newest_first : List SputnikProposal → List SputnikProposal
unfolding insert_newest
newest_first [] = []
newest_first (p ∷ rest) = insert_newest p (newest_first rest)

-- await, which stops at a call that fails
abbrev pub awaited {ℓ κ} : {A : Type ℓ} {B : Type κ} → Option A → (A → Option B) → Option B
awaited none f = none
awaited (some a) f = f a

pub record ProposalPage : Type 0 where
  pub proposals : List SputnikProposal
  pub next_before : Option ℕ

-- `end > 0 ? end : null`
abbrev pub next_of : ℕ → Option ℕ
next_of end = if ltb 0 end then some end else none

abbrev pub max_empty_ranges : ℕ
max_empty_ranges = 5

-- What readDaoProposalsSince comes to: the proposals, the failure of a view call, or the error that
-- it throws for identifiers that it may not read. Only the loop's fuel gives the last.
pub data Fetched : Type 0 where
  fetched : List SputnikProposal → Fetched
  call_failed range_not_read out_of_fuel : Fetched

module _ (view : ℕ → ℕ → Option (List SputnikProposal)) where
  -- the page of a range that was read, or of a range below it
  abbrev pub page_or : List SputnikProposal → ℕ → Option ProposalPage → Option ProposalPage
  page_or [] from below = below
  page_or (p ∷ batch) from below =
      some (record { proposals = newest_first (p ∷ batch); next_before = next_of from })

  -- the loop, with the number of ranges that may still be read
  unfoldable pub read_ranges : ℕ → ℕ → ℕ → Option ProposalPage
  unfolding newest_first
  read_ranges zero page_size end = some (record { proposals = []; next_before = next_of end })
  read_ranges (suc ranges) page_size end =
      let from = end - page_size in
      let below = read_ranges ranges page_size from in
      if ltb 0 end
      then awaited (view from (end - from)) (λ batch. page_or batch from below)
      else some (record { proposals = []; next_before = none })

  unfoldable pub read_page : Option ℕ → ℕ → ℕ → Option ProposalPage
  unfolding read_ranges
  read_page none last page_size = read_ranges max_empty_ranges page_size last
  read_page (some before) last page_size = read_ranges max_empty_ranges page_size before

  unfoldable pub read_recent : ℕ → ℕ → Option (List SputnikProposal)
  unfolding newest_first
  read_recent last window =
      if eqb last 0
      then some []
      else awaited (view (last - window) window) (λ proposals. some (newest_first proposals))

  abbrev pub read_on : Option (List SputnikProposal) → (List SputnikProposal → Fetched) → Fetched
  read_on none f = call_failed
  read_on (some batch) f = f batch

  -- the loop of readDaoProposalsSince: what is read so far, and the end of what is not; on fuel
  unfoldable pub read_since_loop : ℕ → ℕ → ℕ → ℕ → ℕ → List SputnikProposal → Fetched
  unfolding newest_first
  read_since_loop zero since page_size floor end proposals = out_of_fuel
  read_since_loop (suc fuel) since page_size floor end proposals =
      let from = max floor (end - page_size) in
      if ltb floor end
      then read_on (view from (end - from)) (λ batch.
        if any (λ (p : SputnikProposal). ltb p.submission_time since) batch
        then fetched (newest_first (proposals ++ batch))
        else read_since_loop fuel since page_size floor from (proposals ++ batch))
      else if ltb 0 floor
      then range_not_read
      else fetched (newest_first proposals)

  unfoldable pub read_since : ℕ → ℕ → ℕ → ℕ → Fetched
  unfolding read_since_loop
  read_since last since page_size max_ids =
      read_since_loop (suc last) since page_size (last - max_ids) last []

  -- the pages one after the other, from `end` down to the one that has no next; on fuel
  unfoldable pub follow : ℕ → ℕ → ℕ → Option (List SputnikProposal)
  unfolding read_ranges
  follow zero page_size end = none
  follow (suc fuel) page_size end = awaited (read_page (some end) end page_size) (λ page.
      elim page.next_before [
        | none ↦ some page.proposals
        | some before ↦
            awaited (follow fuel page_size before) (λ rest. some (page.proposals ++ rest))
      ])
