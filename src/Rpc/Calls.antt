-- ===== src/Rpc/Calls.antt =====
-- viewFunction of api/src/services/near-rpc.ts: a view call, tried again after a delay at the next
-- endpoint. What a request to an endpoint makes at each attempt is a parameter, read by `posted`.
use Prim.Native.Nat.{◌%◌}
use citynode_app.Prelude.{ℕ, zero, suc, max, String, Option, List, [], ◌∷◌, length}
use citynode_app.Json.{Json, Items}
use citynode_app.Geography.Validators.{default_to}
use citynode_app.Rpc.Endpoints.{NetworkId, rpc_urls_for, urls_or, backoff_delay_ms}
use citynode_app.Rpc.Answers.{
  ViewFailureKind, Fetched, Posted, value, call_error, retryable, posted,
}

pub record Attempt : Type 0 where
  pub url : String
  pub delay : ℕ

pub data ViewResult : Type 0 where
  returned : Json → ViewResult
  refused : ViewFailureKind → ViewResult
  unavailable : ℕ → ViewResult

pub record ViewOptions : Type 0 where
  pub network : NetworkId
  pub urls : Option (List String)
  pub max_attempts : Option ℕ
  pub base_delay_ms : Option ℕ

abbrev pub url_or_blank : List String → ℕ → String
url_or_blank [] i = ""
url_or_blank (url ∷ urls) zero = url
url_or_blank (url ∷ urls) (suc i) = url_or_blank urls i

-- `urls[attempt % urls.length]`
unfoldable pub url_at : List String → ℕ → String
url_at urls attempt = url_or_blank urls (attempt % length urls)

-- no wait before the first attempt
abbrev pub delay_before : ℕ → ℕ → ℕ
delay_before base zero = 0
delay_before base (suc attempt) = backoff_delay_ms attempt base

-- a value or an error of the contract ends the call
abbrev pub settled_or : Posted → List Attempt × ViewResult → List Attempt × ViewResult
settled_or (value v) later = ([], returned v)
settled_or (call_error kind) later = ([], refused kind)
settled_or retryable later = later

module _ (decode : Items → Option Json) (fetched : ℕ → String → Fetched) (urls : List String)
    (base : ℕ) (max_attempts : ℕ) where
  abbrev pub outcome : ℕ → Posted
  outcome attempt = posted decode (fetched attempt (url_at urls attempt))

  abbrev pub tried : ℕ → List Attempt × ViewResult → List Attempt × ViewResult
  tried attempt (later, result) =
      (record { url = url_at urls attempt; delay = delay_before base attempt } ∷ later, result)

  -- the loop, from an attempt on, with the number of attempts left
  unfoldable pub attempts : ℕ → ℕ → List Attempt × ViewResult
  unfolding posted url_at backoff_delay_ms
  attempts zero attempt = ([], unavailable max_attempts)
  attempts (suc left) attempt =
      tried attempt (settled_or (outcome attempt) (attempts left (suc attempt)))

abbrev pub urls_for : (String → Option String) → ViewOptions → List String
urls_for env options = urls_or (default_to [] options.urls) (rpc_urls_for options.network env)

abbrev pub attempts_allowed : ViewOptions → ℕ
attempts_allowed options = max 1 (default_to 3 options.max_attempts)

unfoldable pub view_function :
    (Items → Option Json)
    → (ℕ → String → Fetched)
    → (String → Option String)
    → ViewOptions
    → List Attempt × ViewResult
unfolding attempts rpc_urls_for
view_function decode fetched env options =
    attempts decode fetched (urls_for env options) (default_to 250 options.base_delay_ms)
      (attempts_allowed options) (attempts_allowed options) 0
