-- ===== src/Geography/Slugs.antt =====
-- `SLUG_REGEX` and the metadata of api/src/services/nodes.ts: jsonb objects, whose keys are distinct
-- and have no order.
use Prim.Native.Char.{code}
use Prim.Native.String.{String, [], ◌∷◌}
use citynode_app.Prelude.{ℕ, Bool, true, false, if◌then◌else◌, ◌&&◌, ◌||◌, not, leb, eqb}

-- `[a-z0-9]`
abbrev is_slug_char : ℕ → Bool
is_slug_char c = (leb 97 c && leb c 122) || (leb 48 c && leb c 57)

-- `[-_]`
abbrev is_separator : ℕ → Bool
is_separator c = eqb c 45 || eqb c 95

-- the rest of a match, at a place where a character must follow or where the slug may end
slug_from : Bool → String → Bool
slug_from must [] = not must
slug_from must (c ∷ s) =
    let part = slug_from false s in
    let next = slug_from true s in
    if is_slug_char (code c)
    then part
    else if is_separator (code c) && not must
    then next
    else false

unfoldable pub valid_slug : String → Bool
unfolding slug_from
valid_slug slug = slug_from true slug
