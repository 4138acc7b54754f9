-- ===== src/Geography/Nodes.antt =====
-- The writes of api/src/services/nodes.ts. An identifier is the text of a uuid. A violated key, index
-- or foreign key gives the error `database`.
use citynode_app.Prelude.{
  ℕ, String, Bool, true, false, Option, none, some, List, [], ◌∷◌, ◌++◌, if◌then◌else◌, ◌==◌, ◌&&◌,
  ◌||◌, not, any, filter, trim, opt_eq,
}
use citynode_app.Json.{Json, str}
use citynode_app.Geography.Types.{
  Metadata, Node, Validator, GeoDb, GeoEnv, GeoResult, ok, err, ◌>>=◌, ◌>>◌, require, found_or,
  invalid_slug, tenant_not_found, parent_not_found, own_parent, below_descendant, node_not_found,
  database,
}
use citynode_app.Geography.Tree.{member, node_by_id, child_of, descendant_ids}
use citynode_app.Geography.Slugs.{valid_slug}
use citynode_app.Geography.Validators.{default_to}

unfoldable pub get_key : String → Metadata → Option Json
get_key key [] = none
get_key key ((k, v) ∷ m) = if k == key then some v else get_key key m

-- `… || jsonb_build_object(key, value)`, `{ ...metadata, key: value }`
unfoldable pub put_key : String → Json → Metadata → Metadata
put_key key value [] = (key, value) ∷ []
put_key key value ((k, v) ∷ m) = if k == key then (k, value) ∷ m else (k, v) ∷ put_key key value m

-- `metadata - key`
unfoldable pub without_key : String → Metadata → Metadata
without_key key [] = []
without_key key ((k, v) ∷ m) =
    let rest = without_key key m in if k == key then rest else (k, v) ∷ rest

abbrev pub as_text : Option Json → Option String
as_text (some (str s)) = some s
as_text _ = none

-- `nodeKindOf`
unfoldable pub kind_of : Metadata → Option String
unfolding get_key
kind_of metadata = as_text (get_key "kind" metadata)

-- `mergeKindMetadata`
unfoldable pub merge_kind : Option String → Option Metadata → Metadata
unfolding put_key
merge_kind none metadata = default_to [] metadata
merge_kind (some kind) metadata = put_key "kind" (str kind) (default_to [] metadata)

-- `replaceMetadataKeepingKind`
unfoldable pub keeping_kind : Metadata → Metadata → Metadata
unfolding get_key put_key
keeping_kind replacement old = elim (get_key "kind" old) [
  | none ↦ replacement
  | some kind ↦ put_key "kind" kind replacement
]

pub record NodeSpawnInput : Type 0 where
  pub kind : Option String
  pub slug : String
  pub name : String
  pub parent_id : Option String
  pub tenant_id : Option String
  pub metadata : Option Metadata

-- a field that is left out is `none`; a parent of `some none` is null
pub record NodeUpdateInput : Type 0 where
  pub kind : Option String
  pub slug : Option String
  pub name : Option String
  pub parent_id : Option (Option String)
  pub metadata : Option Metadata

-- nodes_parent_slug_idx and nodes_root_slug_idx
abbrev pub slug_clash : Node → Node → Bool
slug_clash a b = a.slug == b.slug && opt_eq a.parent_id b.parent_id

unfoldable pub slugs_unique : List Node → Bool
slugs_unique [] = true
slugs_unique (n ∷ nodes) = not (any (slug_clash n) nodes) && slugs_unique nodes

unfoldable pub checked_nodes : List Node → GeoResult (List Node)
unfolding slugs_unique
checked_nodes nodes = if slugs_unique nodes then ok nodes else err database

abbrev pub known_tenant : List String → Option String → Bool
known_tenant tenants none = true
known_tenant tenants (some t) = member t tenants

-- the select that `if (input.tenantId)` guards: the empty text is looked up by the insert alone
abbrev pub tenant_found : List String → Option String → Bool
tenant_found tenants none = true
tenant_found tenants (some t) = t == "" || member t tenants

abbrev pub is_stored : List Node → String → Bool
is_stored nodes p = any (λ (n : Node). n.id == p) nodes

abbrev pub parent_found : List Node → Option String → Bool
parent_found nodes none = true
parent_found nodes (some p) = is_stored nodes p

unfoldable pub new_node : NodeSpawnInput → GeoEnv → Node
unfolding merge_kind
new_node input env = record {
  id = env.fresh_id;
  slug = input.slug;
  name = input.name;
  parent_id = input.parent_id;
  tenant_id = input.tenant_id;
  metadata = merge_kind input.kind input.metadata;
  created_at = env.now;
  updated_at = env.now;
}

unfoldable pub insert_node : Node → GeoDb → GeoResult (List Node)
unfolding checked_nodes
insert_node n db =
    require (not (is_stored db.nodes n.id) && known_tenant db.tenants n.tenant_id) database
    >> checked_nodes (db.nodes ++ n ∷ [])

unfoldable pub spawn : NodeSpawnInput → GeoEnv → GeoDb → GeoResult (Node × GeoDb)
unfolding valid_slug insert_node
spawn input env db =
    require (valid_slug input.slug) invalid_slug
    >> require (tenant_found db.tenants input.tenant_id) tenant_not_found
    >> require (parent_found db.nodes input.parent_id) parent_not_found
    >> insert_node (new_node input env) db
    >>= λ nodes. ok (new_node input env, record db { nodes = nodes })

-- `input.kind ?? nodeKindOf(input.metadata)`
unfoldable pub given_kind : Option String → Metadata → Option String
unfolding kind_of
given_kind (some kind) m = some kind
given_kind none m = kind_of m

-- metadata that the update gives, for the kind it has
unfoldable pub replaced_metadata : Option String → Metadata → Metadata → Metadata
unfolding keeping_kind merge_kind
replaced_metadata none m old = keeping_kind m old
replaced_metadata (some kind) m old = merge_kind (some kind) (some m)

unfoldable pub patched_metadata : Option String → Option Metadata → Metadata → Metadata
unfolding given_kind replaced_metadata put_key
patched_metadata none none old = old
patched_metadata (some kind) none old = put_key "kind" (str kind) old
patched_metadata kind (some m) old = replaced_metadata (given_kind kind m) m old

unfoldable pub patch_node : NodeUpdateInput → ℕ → Node → Node
unfolding patched_metadata
patch_node input now n = record n {
  slug = default_to n.slug input.slug;
  name = default_to n.name input.name;
  parent_id = default_to n.parent_id input.parent_id;
  metadata = patched_metadata input.kind input.metadata n.metadata;
  updated_at = now;
}

-- the guards of a move, in the transaction that locks the table
unfoldable pub move_allowed : String → Option (Option String) → List Node → GeoResult (Unit {0})
unfolding descendant_ids
move_allowed i none nodes = ok tt
move_allowed i (some none) nodes = ok tt
move_allowed i (some (some p)) nodes =
    require (not (p == i)) own_parent
    >> require (is_stored nodes p) parent_not_found
    >> require (not (member p (descendant_ids nodes i))) below_descendant

abbrev pub slug_given : Option String → Bool
slug_given none = true
slug_given (some slug) = valid_slug slug

-- update … where id = …
unfoldable pub set_node : String → (Node → Node) → List Node → List Node
set_node i set [] = []
set_node i set (n ∷ nodes) = if n.id == i then set n ∷ nodes else n ∷ set_node i set nodes

-- an update of one row and the row it returns
unfoldable pub write_node : String → (Node → Node) → GeoDb → GeoResult (Node × GeoDb)
unfolding checked_nodes set_node node_by_id
write_node i set db = do
  row ← found_or (node_by_id i db.nodes) node_not_found
  nodes ← checked_nodes (set_node i set db.nodes)
  ok (set row, record db { nodes = nodes })

unfoldable pub update_node : String → NodeUpdateInput → GeoEnv → GeoDb → GeoResult (Node × GeoDb)
unfolding move_allowed write_node patch_node valid_slug
update_node i input env db =
    require (slug_given input.slug) invalid_slug
    >> move_allowed i input.parent_id db.nodes
    >> write_node i (patch_node input env.now) db

abbrev pub bulletin_of : Option String → Metadata → Metadata
bulletin_of none m = without_key "bulletin" m
bulletin_of (some text) m =
    if trim text == "" then without_key "bulletin" m else put_key "bulletin" (str text) m

unfoldable pub set_bulletin : String → Option String → GeoEnv → GeoDb → GeoResult (Node × GeoDb)
unfolding write_node without_key put_key trim
set_bulletin i bulletin env db =
    write_node i
      (λ (n : Node). record n { metadata = bulletin_of bulletin n.metadata; updated_at = env.now })
      db

-- the foreign key of a child, on delete set null
abbrev pub orphan : String → Node → Node
orphan i n = if child_of i n then record n { parent_id = none } else n

-- the rows that stay when a node is deleted: its children lose their parent, its validators go
unfoldable pub without_node : String → List Node → List Node
without_node i [] = []
without_node i (n ∷ nodes) =
    let rest = without_node i nodes in if n.id == i then rest else orphan i n ∷ rest

abbrev pub cascaded : String → List Node → GeoDb → GeoDb
cascaded i nodes db = record db {
  nodes = nodes;
  validators = filter (λ (v : Validator). not (v.node_id == i)) db.validators;
}

-- true iff a row was deleted
unfoldable pub delete_node : String → GeoDb → GeoResult (Bool × GeoDb)
unfolding without_node checked_nodes
delete_node i db =
    if is_stored db.nodes i
    then (checked_nodes (without_node i db.nodes) >>= λ nodes. ok (true, cascaded i nodes db))
    else ok (false, db)
