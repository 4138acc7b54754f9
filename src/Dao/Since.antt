-- ===== src/Dao/Since.antt =====
-- Reading back to an instant: readDaoProposalsSince of ui/src/lib/sputnik-proposals.ts.
use citynode_app.Prelude.{
  ℕ, zero, suc, max, ◌≡◌, refl, sym, ap, ◌∙◌, ◌≤◌, ◌<◌, ◌-◌, inl, inr, Bool, true, false, Option,
  List, [], ◌∷◌, ◌++◌, arith, ltb, any, filter, Bool-cases, All, All-append, All-mono,
}
use citynode_app.Dao.Types.{SputnikProposal}
use citynode_app.Dao.Reading.{
  newest_first, insert_newest, Fetched, fetched, range_not_read, read_since_loop, read_since,
}
use citynode_app.Dao.Order.{
  between, sorted_between, sorted_between-All, sorted_between-split, insert_high,
}
use citynode_app.Dao.Walk.{IsView, range_view, empty_page}

abbrev pub older_than : ℕ → SputnikProposal → Bool
older_than since p = ltb p.submission_time since

-- Sorting what is read and a batch below it.
newest_first-append :
    (low mid high : ℕ) (xs ys : List SputnikProposal)
    → All (λ q. between low mid q ≡ true) (newest_first ys)
    → All (λ q. between mid high q ≡ true) xs
    → newest_first (xs ++ ys) ≡ newest_first xs ++ newest_first ys
unfolding newest_first
newest_first-append low mid high [] ys h k = refl
newest_first-append low mid high (x ∷ xs) ys h k =
    let above : mid ≤ x.id = ground (arith, k.0) in
    ap (insert_newest x) (newest_first-append low mid high xs ys h k.1)
    ∙ insert_high x low mid (newest_first xs) (newest_first ys) h above

All-filter {ℓ} : {A : Type ℓ} (p : A → Bool) (xs : List A) → All (λ x. p x ≡ true) (filter p xs)
All-filter p [] = tt
All-filter p (x ∷ xs) = elim (Bool-cases (p x)) [
  | inl hit ↦ rw hit (hit, All-filter p xs)
  | inr miss ↦ rw miss (All-filter p xs)
]

All-wider :
    (low mid high top : ℕ) (xs : List SputnikProposal)
    → low ≤ mid
    → high ≤ top
    → All (λ q. between mid high q ≡ true) xs
    → All (λ q. between low top q ≡ true) xs
All-wider low mid high top xs h k all =
    All-mono {P = λ q. between mid high q ≡ true} (λ (q : SputnikProposal) inside. ground arith) xs
      all

-- No proposal is older in two ranges that follow each other.
none_older-joined :
    (since low mid high : ℕ) (ps : List SputnikProposal)
    → low ≤ mid
    → mid ≤ high
    → any (older_than since) (filter (between low mid) ps) ≡ false
    → any (older_than since) (filter (between mid high) ps) ≡ false
    → any (older_than since) (filter (between low high) ps) ≡ false
none_older-joined since low mid high [] h k a b = refl
none_older-joined since low mid high (p ∷ ps) h k a b =
    ground (arith, none_older-joined since low mid high ps h k)

none_older-empty :
    (since end : ℕ) (ps : List SputnikProposal)
    → any (older_than since) (filter (between end end) ps) ≡ false
none_older-empty since end [] = refl
none_older-empty since end (p ∷ ps) = ground (arith, none_older-empty since end ps)

-- The first range, counted down from the last identifier, in which a proposal is older than the
-- instant ends the reading; without one all are read, or those that may be read are not all.
pub data IsSince (stored : List SputnikProposal) (since page_size floor last : ℕ) (answer : Fetched)
    : Type 0 where
  reaches_older :
      (low high : ℕ)
      → low ≡ max floor (high - page_size)
      → low < high
      → high ≤ last
      → any (older_than since) (filter (between low high) stored) ≡ true
      → any (older_than since) (filter (between high last) stored) ≡ false
      → answer ≡ fetched (sorted_between low last stored)
      → IsSince stored since page_size floor last answer
  reads_all :
      floor ≡ 0
      → any (older_than since) (filter (between 0 last) stored) ≡ false
      → answer ≡ fetched (sorted_between 0 last stored)
      → IsSince stored since page_size floor last answer
  is_cut :
      0 < floor
      → any (older_than since) (filter (between floor last) stored) ≡ false
      → answer ≡ range_not_read
      → IsSince stored since page_size floor last answer

module _ (view : ℕ → ℕ → Option (List SputnikProposal)) (stored : List SputnikProposal)
    (v : IsView view stored) (page_size : ℕ) (sized : 1 ≤ page_size) (since floor last : ℕ) where
  -- what is read so far
  abbrev IsRead : ℕ → List SputnikProposal → Type 0
  IsRead end proposals =
      (All (λ q. between end last q ≡ true) proposals)
      × (newest_first proposals ≡ sorted_between end last stored)

  IsRead-batch :
      (from end : ℕ) (proposals : List SputnikProposal)
      → from ≤ end
      → end ≤ last
      → IsRead end proposals
      → IsRead from (proposals ++ filter (between from end) stored)
  IsRead-batch from end proposals h k (inside, same) =
      let batch = filter (between from end) stored in
      (
        All-append _ proposals batch (All-wider from end last last proposals h (omega arith) inside)
            (All-wider from from end last batch (omega arith) k
              (All-filter (between from end) stored)),
        newest_first-append from end last proposals batch (sorted_between-All from end stored)
              inside
            ∙ ap (λ rows. rows ++ sorted_between from end stored) same
            ∙ sym (sorted_between-split from end last stored h k),
      )

  loop-IsSince :
      (fuel end : ℕ) (proposals : List SputnikProposal)
      → end < fuel
      → floor ≤ end
      → end ≤ last
      → IsRead end proposals
      → any (older_than since) (filter (between end last) stored) ≡ false
      → IsSince stored since page_size floor last
          (read_since_loop view fuel since page_size floor end proposals)
  unfolding read_since_loop
  loop-IsSince zero end proposals h k l r young = ground arith
  loop-IsSince (suc fuel) end proposals h k l r young = elim (Bool-cases (ltb floor end)) [
    | inl more ↦
        let from : ℕ = max floor (end - page_size) in
        let below : from < end = ground arith in
        let fits : from ≤ end = omega arith in
        let read = IsRead-batch from end proposals fits l r in
        let batch = filter (between from end) stored in
        let answered = range_view view stored v page_size sized from end fits in
        elim (Bool-cases (any (older_than since) batch)) [
          | inl old ↦
              rw (more, answered, old)
                (reaches_older from end refl below l old young (ap fetched read.1))
          | inr none_old ↦
              rw (more, answered, none_old)
                (loop-IsSince fuel from (proposals ++ batch) (omega arith) (omega arith)
                  (omega arith) read
                  (none_older-joined since from end last stored fits l none_old young))
        ]
    | inr done ↦
        let bottom : end ≡ floor = ground arith in
        elim (Bool-cases (ltb 0 floor)) [
          | inl cut ↦ rw (done, cut) (is_cut (ground arith) (rw (← bottom) young) refl)
          | inr whole ↦
              let start : floor ≡ 0 = ground arith in
              let lowest : end ≡ 0 = bottom ∙ start in
              rw (done, whole)
                (reads_all start (rw (← lowest) young) (ap fetched (rw (← lowest) r.1)))
        ]
  ]

pub read_since-IsSince :
    (view : ℕ → ℕ → Option (List SputnikProposal)) (stored : List SputnikProposal)
    (page_size last since max_ids : ℕ)
    → IsView view stored
    → 1 ≤ page_size
    → IsSince stored since page_size
        (last - max_ids)
        last
        (read_since view last since page_size max_ids)
unfolding read_since
read_since-IsSince view stored page_size last since max_ids v sized =
    loop-IsSince view stored v page_size sized since (last - max_ids) last (suc last) last []
      (omega arith) (omega arith) (omega arith)
      (tt, sym (empty_page view stored v page_size sized last)) (none_older-empty since last stored)
