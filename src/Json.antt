-- ===== src/Json.antt =====
-- JSON values as both services store them.
use citynode_app.Prelude.{String, Bool}

-- A JSON value; a number is its shortest decimal text. `JSON.parse` undoes `JSON.stringify` on
-- these, so a stored text is the value that it denotes.
mutual
  pub data Json : Type 0 where
    null : Json
    bool : Bool → Json
    num str : String → Json
    arr : Items → Json
    obj : Fields → Json

  pub data Items : Type 0 where
    nil : Items
    cons : Json → Items → Items

  pub data Fields : Type 0 where
    end : Fields
    field : String → Json → Fields → Fields
