-- ===== src/Dao/Walk.antt =====
-- Following the pages of ui/src/lib/sputnik-proposals.ts down to the last one.
use citynode_app.Prelude.{
  ℕ, zero, suc, ◌≡◌, refl, sym, ap, ◌∙◌, ◌≤◌, ◌<◌, ◌+◌, ◌-◌, inl, inr, true, Option, none, some,
  List, [], ◌∷◌, ◌++◌, arith, ltb, filter, Bool-cases,
}
use citynode_app.Dao.Types.{SputnikProposal}
use citynode_app.Dao.Reading.{
  newest_first, next_of, ProposalPage, page_or, read_ranges, read_page, follow,
}
use citynode_app.Dao.Order.{between, sorted_between, sorted_between-split}

-- `view` answers the stored proposals of a range of identifiers, as the contract documents it
abbrev pub IsView : (ℕ → ℕ → Option (List SputnikProposal)) → List SputnikProposal → Type 0
IsView view stored =
    (from limit : ℕ) → view from limit ≡ some (filter (between from (from + limit)) stored)

module _ (view : ℕ → ℕ → Option (List SputnikProposal)) (stored : List SputnikProposal)
    (v : IsView view stored) (page_size : ℕ) (sized : 1 ≤ page_size) where
  -- the page of the proposals from some `low` up to `end`
  abbrev IsPage : ℕ → ℕ → Option ProposalPage → Type 0
  IsPage bound end answer =
      (low : ℕ) × (answer
        ≡ some (record { proposals = sorted_between low end stored; next_before = next_of low }))
      × (low ≤ bound)

  pub range_view :
      (from end : ℕ) → from ≤ end → view from (end - from) ≡ some (filter (between from end) stored)
  range_view from end h =
      let same : from + (end - from) ≡ end = omega arith in
      v from (end - from) ∙ ap (λ high. some (filter (between from high) stored)) same

  page_or-IsPage :
      (from end : ℕ) (batch : List SputnikProposal) (below : Option ProposalPage)
      → batch ≡ filter (between from end) stored
      → from ≤ end
      → IsPage from from below
      → IsPage from end (page_or view batch from below)
  unfolding newest_first
  page_or-IsPage from end [] below e h (low, same, k) = (
    low,
    same
        ∙ ap (λ rows. some (record { proposals = rows; next_before = next_of low }))
            (sym (
              sorted_between-split low from end stored k h
              ∙ ap (λ rows. newest_first rows ++ sorted_between low from stored) (sym e))),
    k,
  )
  page_or-IsPage from end (p ∷ batch) below e h k = (
    from,
    ap (λ rows. some (record { proposals = newest_first rows; next_before = next_of from })) e,
    omega arith,
  )

  empty_between : (low : ℕ) (ps : List SputnikProposal) → filter (between low low) ps ≡ []
  empty_between low [] = refl
  empty_between low (p ∷ ps) = ground (arith, empty_between low ps)

  pub empty_page : (end : ℕ) → sorted_between end end stored ≡ []
  unfolding newest_first
  empty_page end = ap newest_first (empty_between end stored)

  -- a range that is read ends the page below `end`, whatever the pages below are
  read_range-IsPage :
      (ranges end : ℕ)
      → ((low : ℕ) → IsPage low low (read_ranges view ranges page_size low))
      → 0 < end
      → IsPage (end - page_size) end (read_ranges view (suc ranges) page_size end)
  unfolding read_ranges
  read_range-IsPage ranges end k h =
      let from : ℕ = end - page_size in
      let fits : from ≤ end = omega arith in
      let positive : ltb 0 end ≡ true = ground arith in
      rw (positive, range_view from end fits)
        (page_or-IsPage from end (filter (between from end) stored)
          (read_ranges view ranges page_size from) refl fits (k from))

  read_ranges-IsPage : (ranges end : ℕ) → IsPage end end (read_ranges view ranges page_size end)
  unfolding read_ranges
  read_ranges-IsPage zero end = (
    end,
    ap (λ rows. some (record { proposals = rows; next_before = next_of end }))
        (sym (empty_page end)),
    omega arith,
  )
  read_ranges-IsPage (suc ranges) zero = (
    0,
    ap (λ rows. some (record { proposals = rows; next_before = none })) (sym (empty_page 0)),
    omega arith,
  )
  read_ranges-IsPage (suc ranges) (suc end) =
      let (low, same, h) =
        read_range-IsPage ranges (suc end) (λ m. read_ranges-IsPage ranges m) (omega arith) in
      (low, same, omega (arith, h))

  -- Where a view call answers the stored proposals of a range of identifiers and a page is of at
  -- least one identifier, following the pages of readDaoProposalPage from any identifier down ends,
  -- after no more pages than there are identifiers, with every stored proposal below it, newest first.
  pub follow_pages :
      (fuel end : ℕ)
      → end < fuel
      → follow view fuel page_size end ≡ some (sorted_between 0 end stored)
  unfolding follow read_page
  follow_pages zero end h = ground arith
  follow_pages (suc fuel) zero h = ap (λ rows. some rows) (sym (empty_page 0))
  follow_pages (suc fuel) (suc end) h =
      let (low, same, k) =
        read_range-IsPage 4 (suc end) (λ m. read_ranges-IsPage 4 m) (omega arith) in
      elim (Bool-cases (ltb 0 low)) [
        | inl more ↦
            let rest = follow_pages fuel low (omega arith) in
            rw (same, more, rest)
              (ap (λ rows. some rows)
                (sym (sorted_between-split 0 low (suc end) stored (omega arith) (omega arith))))
        | inr last ↦
            let bottom : low ≡ 0 = ground arith in
            rw (same, last) (ap (λ m. some (sorted_between m (suc end) stored)) bottom)
      ]
