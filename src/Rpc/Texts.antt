-- ===== src/Rpc/Texts.antt =====
-- `split(",")` and `includes` on texts, as api/src/services/near-rpc.ts uses them.
use Prim.Native.Char.{code}
use Prim.Native.String.{String, [], ◌∷◌}
use citynode_app.Prelude.{Bool, true, false, List, if◌then◌else◌, ◌&&◌, ◌||◌, eqb}

-- the first part and the parts after it
abbrev pub joined_to : String → String × List String → String × List String
joined_to s (first, parts) = (s, List.◌∷◌ first parts)

abbrev pub comma_parts : String → String × List String
comma_parts [] = ("", List.[])
comma_parts (c ∷ s) =
    let rest = comma_parts s in if eqb (code c) 44 then joined_to "" rest else (c ∷ rest.0, rest.1)

unfoldable pub split_commas : String → List String
split_commas s = List.◌∷◌ (comma_parts s).0 (comma_parts s).1

unfoldable pub starts_with : String → String → Bool
starts_with [] s = true
starts_with (c ∷ prefix) [] = false
starts_with (c ∷ prefix) (d ∷ s) = eqb (code c) (code d) && starts_with prefix s

-- `s.includes(part)`
unfoldable pub includes : String → String → Bool
unfolding starts_with
includes part [] = starts_with part ""
includes part (c ∷ s) = starts_with part (c ∷ s) || includes part s
