-- ===== src/Tenants/Hostnames.antt =====
-- The tests of host names in api/src/services/tenants.ts.
use Prim.Native.Char.{code}
use Prim.Native.String
use Prim.Native.String.{String, [], ◌∷◌}
use citynode_app.Prelude.{Bool, false, List, ◌==◌, ◌||◌, any, eqb}

-- `hostname.includes(".")`
unfoldable pub has_dot : String → Bool
has_dot [] = false
has_dot (c ∷ s) = eqb (code c) 46 || has_dot s

-- `s.endsWith(suffix)`
unfoldable pub ends_with : String → String → Bool
ends_with suffix [] = suffix == ""
ends_with suffix (c ∷ s) = suffix == (c ∷ s) || ends_with suffix s

unfoldable pub is_gateway_zone : List String → String → Bool
unfolding ends_with
is_gateway_zone domains hostname =
    any (λ domain. ends_with (String.◌++◌ "." domain) hostname) domains

-- the TXT record that proves a domain
unfoldable pub expected_record : String → String
expected_record token = String.◌++◌ "everything-verify=" token
