-- ===== src/Rpc/Tests.antt =====
-- View calls against endpoints that fail at first: the theorem at a concrete input.
use citynode_app.Prelude.{ℕ, zero, suc, ◌≡◌, refl, String, true, Option, none, some, [], ◌∷◌}
use citynode_app.Json.{Json, num, arr, obj, Items, nil, end, field}
use citynode_app.Rpc.Endpoints.{mainnet}
use citynode_app.Rpc.Answers.{Fetched, response, failed, posted}
use citynode_app.Rpc.Calls.{
  ViewOptions, returned, view_function, urls_for, attempts_allowed, url_at,
}
use citynode_app.Rpc.Retries.{IsRun, view_function-IsRun}

abbrev no_bytes : Items → Option Json
no_bytes items = some (num "7")

-- two failures, then an empty result
abbrev flaky : ℕ → String → Fetched
flaky zero url = failed
flaky (suc zero) url = response true none
flaky attempt url =
    response true (some (obj (field "result" (obj (field "result" (arr nil) end)) end)))

abbrev no_env : String → Option String
no_env name = none

abbrev by_default : ViewOptions
by_default = record { network = mainnet; urls = none; max_attempts = none; base_delay_ms = none }

view_function-IsRun_example :
    IsRun
      (λ j. posted no_bytes (flaky j (url_at (urls_for no_env by_default) j)))
      (attempts_allowed by_default)
      0
      (view_function no_bytes flaky no_env by_default)
view_function-IsRun_example = view_function-IsRun no_bytes flaky no_env by_default

third_time : view_function no_bytes flaky no_env by_default ≡ (
  record { url = "https://rpc.mainnet.fastnear.com"; delay = 0 }
      ∷ record { url = "https://near.drpc.org"; delay = 250 }
      ∷ record { url = "https://rpc.mainnet.fastnear.com"; delay = 500 }
      ∷ [],
  returned (num "7"),
)
unfolding view_function
third_time = refl
