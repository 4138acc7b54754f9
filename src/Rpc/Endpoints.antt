-- ===== src/Rpc/Endpoints.antt =====
-- The network of an account, the endpoints of a network and the delay of a retry, in
-- api/src/services/near-rpc.ts. `lower` is toLowerCase; an environment is a function from names.
use Prim.Native.Nat.{◌^◌}
use citynode_app.Prelude.{
  ℕ, ◌*◌, min, String, Option, none, some, List, [], ◌∷◌, map, if◌then◌else◌, ◌==◌, not, filter,
  trim,
}
use citynode_app.Tenants.Hostnames.{ends_with}
use citynode_app.Rpc.Texts.{split_commas}

pub data NetworkId : Type 0 where
  mainnet testnet : NetworkId

abbrev pub default_urls : NetworkId → List String
default_urls mainnet = "https://rpc.mainnet.fastnear.com" ∷ "https://near.drpc.org" ∷ []
default_urls testnet = "https://rpc.testnet.fastnear.com" ∷ "https://near-testnet.drpc.org" ∷ []

abbrev pub url_variable : NetworkId → String
url_variable mainnet = "NEAR_RPC_URLS_MAINNET"
url_variable testnet = "NEAR_RPC_URLS_TESTNET"

abbrev pub network_named : String → NetworkId
network_named name = if name == "testnet" then testnet else mainnet

abbrev pub from_variable : (String → String) → Option String → NetworkId
from_variable lower none = mainnet
from_variable lower (some value) = network_named (lower (trim value))

abbrev pub hint_or : Option NetworkId → NetworkId → NetworkId
hint_or none network = network
hint_or (some hint) network = hint

unfoldable pub resolve_network :
    (String → String) → String → Option NetworkId → (String → Option String) → NetworkId
unfolding ends_with trim
resolve_network lower account hint env =
    if ends_with ".testnet" (lower (trim account))
    then testnet
    else if ends_with ".near" (lower (trim account))
    then mainnet
    else hint_or hint (from_variable lower (env "NEAR_NETWORK"))

abbrev pub or_blank : Option String → String
or_blank none = ""
or_blank (some s) = s

abbrev pub urls_or : List String → List String → List String
urls_or [] urls = urls
urls_or (url ∷ more) urls = url ∷ more

unfoldable pub rpc_urls_for : NetworkId → (String → Option String) → List String
unfolding split_commas trim
rpc_urls_for network env =
    urls_or
      (filter (λ url. not (url == ""))
        (map (λ url. trim url) (split_commas (or_blank (env (url_variable network))))))
      (default_urls network)

abbrev pub max_delay_ms : ℕ
max_delay_ms = 2000

unfoldable pub backoff_delay_ms : ℕ → ℕ → ℕ
backoff_delay_ms attempt base_delay_ms = min (base_delay_ms * 2 ^ attempt) max_delay_ms
