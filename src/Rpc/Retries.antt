-- ===== src/Rpc/Retries.antt =====
-- The attempts of viewFunction of api/src/services/near-rpc.ts.
use citynode_app.Prelude.{
  ℕ, zero, suc, ◌+◌, ◌≤◌, ◌<◌, ◌≡◌, refl, ap, subst, ◌∙◌, sym, ◌⊎◌, inl, inr, String, Bool, true,
  false, Option, List, [], ◌∷◌, arith, length, All,
}
use citynode_app.Json.{Json, Items}
use citynode_app.Geography.Validators.{default_to}
use citynode_app.Rpc.Endpoints.{backoff_delay_ms}
use citynode_app.Rpc.Answers.{Fetched, Posted, value, call_error, retryable, posted}
use citynode_app.Rpc.Calls.{
  Attempt, ViewResult, returned, refused, unavailable, ViewOptions, outcome, attempts, settled_or,
  tried, delay_before, url_at, view_function, urls_for, attempts_allowed,
}

-- the answer of a call that ends with an outcome, after as many attempts as it may make or before
abbrev pub concluded : ℕ → Posted → ViewResult
concluded most (value v) = returned v
concluded most (call_error kind) = refused kind
concluded most retryable = unavailable most

abbrev pub is_settled : Posted → Bool
is_settled (value v) = true
is_settled (call_error kind) = true
is_settled retryable = false

-- `count` numbers from `start` on
abbrev pub from_on : ℕ → ℕ → List ℕ
from_on start zero = []
from_on start (suc count) = start ∷ from_on (suc start) count

abbrev pub WaitsAtMost : ℕ → Attempt → Type 0
WaitsAtMost ms attempt = attempt.delay ≤ ms

-- The attempts from a first one on: the one with the number `last` is the last, each before it failed
-- in a way that is tried again, and the answer is what the last one makes; it settles the call unless
-- no attempt is left.
abbrev pub IsRun : (ℕ → Posted) → ℕ → ℕ → List Attempt × ViewResult → Type 0
IsRun outcome_of most first (tries, result) =
    (more : ℕ) × (length tries ≡ suc more)
    × (first + more < most)
    × All (λ j. outcome_of j ≡ retryable) (from_on first more)
    × (result ≡ concluded most (outcome_of (first + more)))
    × ((is_settled (outcome_of (first + more)) ≡ true) ⊎ (suc (first + more) ≡ most))
    × All (WaitsAtMost 2000) tries

delay_le : (base attempt : ℕ) → delay_before base attempt ≤ 2000
unfolding backoff_delay_ms
delay_le base zero = omega arith
delay_le base (suc attempt) = omega arith

Posted-cases : (p : Posted) → (is_settled p ≡ true) ⊎ (p ≡ retryable)
Posted-cases (value v) = inl refl
Posted-cases (call_error kind) = inl refl
Posted-cases retryable = inr refl

settled_lem :
    (most : ℕ) (p : Posted) (later : List Attempt × ViewResult)
    → is_settled p ≡ true
    → settled_or p later ≡ ([], concluded most p)
settled_lem most (value v) later h = refl
settled_lem most (call_error kind) later h = refl
settled_lem most retryable later h = cc

module _ (decode : Items → Option Json) (fetched : ℕ → String → Fetched) (urls : List String)
    (base : ℕ) (most : ℕ) where
  abbrev outcomes : ℕ → Posted
  outcomes j = outcome decode fetched urls base most j

  abbrev run_from : ℕ → ℕ → List Attempt × ViewResult
  run_from left first = attempts decode fetched urls base most left first

  IsRun-settled :
      (first : ℕ) (rest : List Attempt × ViewResult)
      → first < most
      → rest ≡ ([], concluded most (outcomes first))
      → (is_settled (outcomes first) ≡ true) ⊎ (suc first ≡ most)
      → IsRun outcomes most first (tried decode fetched urls base most first rest)
  IsRun-settled first rest h e s =
      let same : first + 0 ≡ first = omega arith in
      rw e (
        0,
        refl,
        omega arith,
        tt,
        ap (λ j. concluded most (outcomes j)) (sym same),
        subst (λ j. (is_settled (outcomes j) ≡ true) ⊎ (suc j ≡ most)) (sym same) s,
        (delay_le base first, tt),
      )

  IsRun-later :
      (first : ℕ) (rest : List Attempt × ViewResult)
      → outcomes first ≡ retryable
      → IsRun outcomes most (suc first) rest
      → IsRun outcomes most first (tried decode fetched urls base most first rest)
  IsRun-later first (tries, result) e (more, long, h, failed, same, s, waits) =
      let shifted : suc first + more ≡ first + suc more = omega arith in
      (
        suc more,
        ap suc long,
        omega arith,
        (e, failed),
        same ∙ ap (λ j. concluded most (outcomes j)) shifted,
        subst (λ j. (is_settled (outcomes j) ≡ true) ⊎ (suc j ≡ most)) shifted s,
        (delay_le base first, waits),
      )

  last_failed :
      (first : ℕ)
      → first + 1 ≡ most
      → outcomes first ≡ retryable
      → IsRun outcomes most first (
          tried decode fetched urls base most first
            (settled_or (outcomes first) (run_from 0 (suc first))))
  unfolding attempts
  last_failed first h failed =
      IsRun-settled first _ (omega arith) (rw failed refl) (inr (omega arith))

  attempts-IsRun :
      (left first : ℕ)
      → first + suc left ≡ most
      → IsRun outcomes most first (run_from (suc left) first)
  unfolding attempts
  attempts-IsRun zero first h = elim (Posted-cases (outcomes first)) [
    | inl settled ↦
        IsRun-settled first _ (omega arith)
          (settled_lem most (outcomes first) (run_from 0 (suc first)) settled) (inl settled)
    | inr failed ↦ last_failed first h failed
  ]
  attempts-IsRun (suc left) first h =
      let rest = attempts-IsRun left (suc first) (omega arith) in
      elim (Posted-cases (outcomes first)) [
        | inl settled ↦
            IsRun-settled first _ (omega arith)
              (settled_lem most (outcomes first) (run_from (suc left) (suc first)) settled)
              (inl settled)
        | inr failed ↦ IsRun-later first _ failed (rw failed rest)
      ]

all_attempts-IsRun :
    (decode : Items → Option Json) (fetched : ℕ → String → Fetched) (urls : List String)
    (base most : ℕ)
    → 1 ≤ most
    → IsRun
        (outcomes decode fetched urls base most)
        most
        0
        (attempts decode fetched urls base most most 0)
all_attempts-IsRun decode fetched urls base zero h = ground arith
all_attempts-IsRun decode fetched urls base (suc m) h =
    attempts-IsRun decode fetched urls base (suc m) m 0 (omega arith)

-- A view call makes at least one attempt and at most as many as it may, three by default and never
-- none: each before the last failed in a way that is tried again, the answer is what the last one
-- makes, the last one settles the call unless no attempt is left, and no wait is over two seconds.
pub view_function-IsRun :
    (decode : Items → Option Json) (fetched : ℕ → String → Fetched) (env : String → Option String)
    (options : ViewOptions)
    → IsRun
        (λ j. posted decode (fetched j (url_at (urls_for env options) j)))
        (attempts_allowed options)
        0
        (view_function decode fetched env options)
unfolding view_function
view_function-IsRun decode fetched env options =
    all_attempts-IsRun decode fetched (urls_for env options) (default_to 250 options.base_delay_ms)
      (attempts_allowed options) (omega arith)
