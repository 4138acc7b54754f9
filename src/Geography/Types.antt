-- ===== src/Geography/Types.antt =====
-- The tables nodes and validators of api/src/db/schema.ts, and the results of the two services.
-- Of the table tenants only the identifiers are read.
use citynode_app.Prelude.{ℕ, String, Bool, Option, none, some, List, if◌then◌else◌}
use citynode_app.Json.{Json}

-- a jsonb object: its keys are distinct
abbrev pub Metadata : Type 0
Metadata = List (String × Json)

pub record Node : Type 0 where
  pub id : String
  pub slug : String
  pub name : String
  pub parent_id : Option String
  pub tenant_id : Option String
  pub metadata : Metadata
  pub created_at : ℕ
  pub updated_at : ℕ

pub data ValidatorRole : Type 0 where
  official community : ValidatorRole

pub record Validator : Type 0 where
  pub id : String
  pub node_id : String
  pub account_id : String
  pub network : String
  pub protocol : String
  pub role : ValidatorRole
  pub is_default : Bool
  pub metadata : Metadata
  pub created_at : ℕ
  pub updated_at : ℕ

pub record GeoDb : Type 0 where
  pub tenants : List String
  pub nodes : List Node
  pub validators : List Validator

-- The ORPCErrors of the services; `database` is what `toOrpcError` makes of a violated index.
pub data GeoError : Type 0 where
  invalid_slug tenant_not_found parent_not_found own_parent below_descendant : GeoError
  node_not_found validator_not_found validator_not_found_for_node database : GeoError

-- What a call takes from the clock and from `defaultRandom`.
pub record GeoEnv : Type 0 where
  pub now : ℕ
  pub fresh_id : String

pub data GeoResult {ℓ} (A : Type ℓ) : Type ℓ where
  ok : A → GeoResult A
  err : GeoError → GeoResult A

infixl 5 ◌>>=◌ ◌>>◌
abbrev pub ◌>>=◌ {ℓ κ} : {A : Type ℓ} {B : Type κ} → GeoResult A → (A → GeoResult B) → GeoResult B
ok a >>= f = f a
err e >>= f = err e

abbrev pub ◌>>◌ {ℓ} : {B : Type ℓ} → GeoResult (Unit {0}) → GeoResult B → GeoResult B
m >> k = m >>= λ _. k

abbrev pub require : Bool → GeoError → GeoResult (Unit {0})
require b e = if b then ok tt else err e

abbrev pub found_or {ℓ} : {A : Type ℓ} → Option A → GeoError → GeoResult A
found_or none e = err e
found_or (some a) e = ok a
