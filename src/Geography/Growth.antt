-- ===== src/Geography/Growth.antt =====
-- The tree of api/src/services/nodes.ts over time: writes in any order.
use citynode_app.Prelude.{String, ◌≡◌, refl, Option, List, [], ◌∷◌}
use citynode_app.Geography.Types.{GeoDb, GeoEnv, GeoResult, ok, err}
use citynode_app.Geography.Nodes.{
  NodeSpawnInput, NodeUpdateInput, spawn, update_node, set_bulletin, delete_node,
}
use citynode_app.Geography.Forest.{IsForest, update_node-IsForest, set_bulletin-IsForest}
use citynode_app.Geography.Spawned.{spawn-IsForest}
use citynode_app.Geography.Deleted.{delete_node-IsForest}

-- The calls that write nodes.
pub data NodeCall : Type 0 where
  spawn_call : NodeSpawnInput → NodeCall
  update_call : String → NodeUpdateInput → NodeCall
  bulletin_call : String → Option String → NodeCall
  delete_call : String → NodeCall

-- A call that fails leaves the tables.
abbrev pub tables_after {ℓ} : {A : Type ℓ} → GeoDb → GeoResult (A × GeoDb) → GeoDb
tables_after db (ok r) = r.1
tables_after db (err e) = db

unfoldable pub run_call : NodeCall → GeoEnv → GeoDb → GeoDb
unfolding spawn update_node set_bulletin delete_node
run_call (spawn_call input) env db = tables_after db (spawn input env db)
run_call (update_call i input) env db = tables_after db (update_node i input env db)
run_call (bulletin_call i text) env db = tables_after db (set_bulletin i text env db)
run_call (delete_call i) env db = tables_after db (delete_node i db)

unfoldable pub run_calls : List (NodeCall × GeoEnv) → GeoDb → GeoDb
run_calls [] db = db
run_calls ((c, env) ∷ calls) db = run_calls calls (run_call c env db)

tables_after-IsForest {ℓ} :
    {A : Type ℓ} (db : GeoDb) (r : GeoResult (A × GeoDb))
    → IsForest db.nodes
    → ((row : A) (after : GeoDb) → r ≡ ok (row, after) → IsForest after.nodes)
    → IsForest (tables_after db r).nodes
tables_after-IsForest db (ok (row, after)) f h = h row after refl
tables_after-IsForest db (err e) f h = f

run_call-IsForest :
    (c : NodeCall) (env : GeoEnv) (db : GeoDb)
    → IsForest db.nodes
    → IsForest (run_call c env db).nodes
unfolding run_call
run_call-IsForest (spawn_call input) env db f =
    tables_after-IsForest db (spawn input env db) f
      (λ row after h. spawn-IsForest input env db after row f h)
run_call-IsForest (update_call i input) env db f =
    tables_after-IsForest db (update_node i input env db) f
      (λ row after h. update_node-IsForest i input env db after row f h)
run_call-IsForest (bulletin_call i text) env db f =
    tables_after-IsForest db (set_bulletin i text env db) f
      (λ row after h. set_bulletin-IsForest i text env db after row f h)
run_call-IsForest (delete_call i) env db f =
    tables_after-IsForest db (delete_node i db) f
      (λ gone after h. delete_node-IsForest i db after gone f h)

-- Whatever spawns, updates, bulletins and deletions are made one after the other, failing or not, a
-- table of nodes with distinct identifiers, stored parents and no cycle of parents stays one.
pub run_calls-IsForest :
    (calls : List (NodeCall × GeoEnv)) (db : GeoDb)
    → IsForest db.nodes
    → IsForest (run_calls calls db).nodes
unfolding run_calls
run_calls-IsForest [] db f = f
run_calls-IsForest ((c, env) ∷ calls) db f =
    run_calls-IsForest calls (run_call c env db) (run_call-IsForest c env db f)
