-- ===== src/Proposals/Pages.antt =====
-- The pages of `getProposals`, `getAuditLog`, `getSubmissions` and `getReviewHistory` in
-- services/proposals.ts. The order of the rows is the database's, a parameter; a cursor is the
-- number that `String(nextOffset)` writes and `Number.parseInt` reads.
use Prim.Native.Nat.add
use citynode_app.Prelude.{
  ◌-◌, sym, String, ℕ, zero, suc, ◌+◌, ◌≤◌, ◌<◌, min, ◌≡◌, refl, ap, ◌∙◌, Bool, Option, none, some,
  List, [], ◌∷◌, ◌++◌, arith, if◌then◌else◌, ltb, ◌==◌, ◌&&◌, filter, length, Bool-cases, inl, inr,
  map,
}
use citynode_app.Proposals.Types.{Row, Submission, AuditEntry, Db}
use citynode_app.Proposals.Service.{Proposal, load_proposal}
use citynode_app.Proposals.Queries.{ProposalFilter, where_clause}

pub record Page {ℓ} (A : Type ℓ) : Type ℓ where
  pub items : List A
  pub total : ℕ
  pub has_more : Bool
  pub next_cursor : Option ℕ

abbrev pub take {ℓ} : {A : Type ℓ} → ℕ → List A → List A
take zero xs = []
take (suc n) [] = []
take (suc n) (x ∷ xs) = x ∷ take n xs

abbrev pub drop {ℓ} : {A : Type ℓ} → ℕ → List A → List A
drop zero xs = xs
drop (suc n) [] = []
drop (suc n) (x ∷ xs) = drop n xs

-- `Math.min(limit ?? 50, 100)`
unfoldable pub page_limit : Option ℕ → ℕ
page_limit none = 50
page_limit (some n) = min n 100

abbrev pub offset_of : Option ℕ → ℕ
offset_of none = 0
offset_of (some cursor) = cursor

-- limit … offset …, and the `meta` beside it
unfoldable pub page {ℓ} : {A : Type ℓ} → Option ℕ → Option ℕ → List A → Page A
unfolding page_limit
page limit cursor rows =
    let next : ℕ = offset_of cursor + page_limit limit in
    let more : Bool = ltb next (length rows) in
    record {
      items = take (page_limit limit) (drop (offset_of cursor) rows);
      total = length rows;
      has_more = more;
      next_cursor = if more then some next else none;
    }

abbrev pub present {ℓ} : {A : Type ℓ} → List (Option A) → List A
present [] = []
present (none ∷ xs) = present xs
present (some x ∷ xs) = x ∷ present xs

module _ (ilike : String → Row → Bool) (order : List Row → List Row) (now : ℕ) (db : Db) where
  unfoldable pub get_proposals : ProposalFilter → Option ℕ → Option ℕ → Page Proposal
  unfolding page load_proposal where_clause
  get_proposals input limit cursor =
      let rows : List Row = order (filter (where_clause ilike input now) db.proposals) in
      let found : Page Row = page limit cursor rows in
      record {
        items =
            present (map (λ (r : Row). load_proposal now db r.plugin_id r.entity_id) found.items);
        total = length (filter (where_clause ilike input now) db.proposals);
        has_more = found.has_more;
        next_cursor = found.next_cursor;
      }

abbrev of_entity : String → String → AuditEntry → Bool
of_entity plugin entity e = e.plugin_id == plugin && e.entity_id == entity

unfoldable pub get_audit_log :
    (List AuditEntry → List AuditEntry)
    → Db
    → String
    → String
    → Option ℕ
    → Option ℕ
    → Page AuditEntry
unfolding page
get_audit_log order db plugin entity limit cursor =
    page limit cursor (order (filter (of_entity plugin entity) db.audit))

abbrev submitted_to : String → String → Submission → Bool
submitted_to plugin entity s = s.plugin_id == plugin && s.entity_id == entity

unfoldable pub get_submissions :
    (List Submission → List Submission)
    → Db
    → String
    → String
    → Option ℕ
    → Option ℕ
    → Page Submission
unfolding page
get_submissions order db plugin entity limit cursor =
    page limit cursor (order (filter (submitted_to plugin entity) db.submissions))

unfoldable pub get_proposal_count : Db → String → String → ℕ
get_proposal_count db plugin entity = length (filter (submitted_to plugin entity) db.submissions)

-- A client that follows `next_cursor` over rows that do not change: the pages that it gets, or `none`
-- when it has not come to the last one after `fuel` pages.
unfoldable pub follow {ℓ} : {A : Type ℓ} → ℕ → Option ℕ → Option ℕ → List A → Option (List (List A))
follow zero limit cursor rows = none
follow (suc fuel) limit cursor rows =
    let found = page limit cursor rows in
    elim found.next_cursor [
      | none ↦ some (found.items ∷ [])
      | some next ↦ elim (follow fuel limit (some next) rows) [
        | none ↦ none
        | some later ↦ some (found.items ∷ later)
      ]
    ]

abbrev pub concat {ℓ} : {A : Type ℓ} → List (List A) → List A
concat [] = []
concat (xs ∷ rest) = xs ++ concat rest

-- Every page but the last is full, and none but the first is empty.
abbrev pub IsPaged {ℓ} : {A : Type ℓ} → ℕ → List (List A) → Type 0
IsPaged size [] = ⊥
IsPaged size (xs ∷ []) = length xs ≤ size
IsPaged size (xs ∷ ys ∷ rest) = (length xs ≡ size) × (1 ≤ length ys) × IsPaged size (ys ∷ rest)

take-append-drop {ℓ} : {A : Type ℓ} (n : ℕ) (xs : List A) → take n xs ++ drop n xs ≡ xs
take-append-drop zero xs = refl
take-append-drop (suc n) [] = refl
take-append-drop (suc n) (x ∷ xs) = ap (λ r. x ∷ r) (take-append-drop n xs)

take_nil {ℓ} : {A : Type ℓ} (n : ℕ) → ◌≡◌ {A = List A} (take n []) []
take_nil zero = refl
take_nil (suc n) = refl

take-drop {ℓ} :
    {A : Type ℓ} (n m : ℕ) (xs : List A) → take n (drop m xs) ++ drop (m + n) xs ≡ drop m xs
take-drop n zero xs = rw add.zero (take-append-drop n xs)
take-drop n (suc m) [] = rw (add.suc, take_nil n)
take-drop n (suc m) (x ∷ xs) = rw add.suc (take-drop n m xs)

drop_all {ℓ} : {A : Type ℓ} (n : ℕ) (xs : List A) → length xs ≤ n → drop n xs ≡ []
drop_all zero [] h = refl
drop_all zero (x ∷ xs) h = absurd (omega arith)
drop_all (suc n) [] h = refl
drop_all (suc n) (x ∷ xs) h = drop_all n xs (omega arith)

length-take {ℓ} : {A : Type ℓ} (n : ℕ) (xs : List A) → length (take n xs) ≡ min n (length xs)
length-take zero xs = omega arith
length-take (suc n) [] = omega arith
length-take (suc n) (x ∷ xs) = omega (arith, length-take n xs)

length-drop {ℓ} : {A : Type ℓ} (n : ℕ) (xs : List A) → length (drop n xs) ≡ length xs - n
length-drop zero xs = omega arith
length-drop (suc n) [] = omega arith
length-drop (suc n) (x ∷ xs) = omega (arith, length-drop n xs)

-- The pages of the rows from a cursor on, the first of which is empty only at the end.
pub record IsFollowed {ℓ} {A : Type ℓ} (limit cursor : Option ℕ) (rows : List A)
    (pages : List (List A)) : Type ℓ where
  pub whole : concat pages ≡ drop (offset_of cursor) rows
  pub paged : IsPaged (page_limit limit) pages

follow_from {ℓ} :
    {A : Type ℓ} (fuel : ℕ) (limit cursor : Option ℕ) (rows : List A)
    → 1 ≤ page_limit limit
    → offset_of cursor ≤ length rows
    → length rows < offset_of cursor + fuel
    → (pages : List (List A)) × (first : List A) × (follow fuel limit cursor rows
        ≡ some (first ∷ pages))
      × (min (page_limit limit) (length rows - offset_of cursor) ≡ length first)
      × IsFollowed limit cursor rows (first ∷ pages)
unfolding follow page
follow_from zero limit cursor rows h inside f = absurd (omega arith)
follow_from (suc fuel) limit cursor rows h inside f =
    let size : ℕ = page_limit limit in
    let start : ℕ = offset_of cursor in
    let next : ℕ = start + size in
    let first = take size (drop start rows) in
    let sized : min size (length rows - start) ≡ length first =
      omega (arith, length-take size (drop start rows), length-drop start rows) in
    elim (Bool-cases (ltb next (length rows))) [
      | inl more ↦
          let (pages, second, ends, long, followed) =
            follow_from fuel limit (some next) rows h (ground arith) (omega arith) in
          (
            second ∷ pages,
            first,
            rw (follow, page, more, ends) refl,
            sized,
            record {
              whole = ap (λ r. first ++ r) followed.whole ∙ take-drop size start rows;
              paged = (ground arith, ground arith, followed.paged);
            },
          )
      | inr last ↦ (
        [],
        first,
        rw (follow, page, last) refl,
        sized,
        record {
          whole =
              ap (λ r. first ++ r) (sym (drop_all next rows (ground arith)))
              ∙ take-drop size start rows;
          paged = omega arith;
        },
      )
    ]

-- A client that follows the cursors from the first page, with any limit of at least 1, comes to the
-- last page, after at most as many pages as there are rows and one more: the pages hold every row
-- once and in order, all but the last are full, and none is empty but a first one that is the only
-- page.
pub follow_all {ℓ} :
    {A : Type ℓ} (limit : Option ℕ) (rows : List A)
    → 1 ≤ page_limit limit
    → (pages : List (List A)) × (follow (suc (length rows)) limit none rows ≡ some pages)
      × (concat pages ≡ rows)
      × IsPaged (page_limit limit) pages
follow_all limit rows h =
    let (later, first, ends, sized, followed) =
      follow_from (suc (length rows)) limit none rows h (omega arith) (omega arith) in
    (first ∷ later, ends, followed.whole, followed.paged)
