-- ===== src/Geography/Defaults.antt =====
-- One default validator per node: what the operations of api/src/services/validators.ts keep.
use citynode_app.Prelude.{
  ℕ, ◌+◌, ◌≤◌, String, ◌≡◌, ◌≢◌, refl, true, none, some, List, [], ◌∷◌, ◌++◌, arith, if◌then◌else◌,
  ◌==◌, eq_iff,
}
use citynode_app.Geography.Types.{Validator, ok}
use citynode_app.Geography.Validators.{
  validator_by_id, is_default_of, default_count, index_holds, checked, clear_defaults,
  update_validator, of_node, other_of_node,
}

abbrev pub DistinctIds : List Validator → Type 0
DistinctIds [] = Unit
DistinctIds (v ∷ vs) = (validator_by_id v.id vs ≡ none) × DistinctIds vs

-- The primary key and the index of the table.
pub record IsTable (vs : List Validator) : Type 0 where
  pub distinct : DistinctIds vs
  pub one_default : (node : String) → default_count node vs ≤ 1

-- What one row adds to the count of its node.
abbrev pub weight : String → Validator → ℕ
weight node v = if is_default_of node v then 1 else 0

pub default_count-append :
    (node : String) (vs : List Validator) (v : Validator)
    → default_count node (vs ++ v ∷ []) ≡ default_count node vs + weight node v
unfolding default_count
default_count-append node [] v = ground arith
default_count-append node (w ∷ vs) v = ground (arith, default_count-append node vs v)

-- An update of one row moves the count by what that row adds.
pub default_count-update :
    (node i : String) (set : Validator → Validator) (vs : List Validator) (v : Validator)
    → validator_by_id i vs ≡ some v
    → default_count node (update_validator i set vs) + weight node v
      ≡ default_count node vs + weight node (set v)
unfolding default_count validator_by_id update_validator
default_count-update node i set [] v e = cc
default_count-update node i set (w ∷ vs) v e = ground (arith, default_count-update node i set vs v)

pub clear_node :
    (node n : String) (now : ℕ) (vs : List Validator)
    → default_count n (clear_defaults (of_node node) now vs)
      ≡ (if n == node then 0 else default_count n vs)
unfolding default_count clear_defaults
clear_node node n now [] = ground arith
clear_node node n now (v ∷ vs) =
    ground
      (arith, clear_node node n now vs, eq_iff v.node_id node, eq_iff v.node_id n, eq_iff n node)

pub clear_others_ne :
    (node i n : String) (now : ℕ) (vs : List Validator)
    → n ≢ node
    → default_count n (clear_defaults (other_of_node node i) now vs) ≡ default_count n vs
unfolding default_count clear_defaults
clear_others_ne node i n now [] ne = refl
clear_others_ne node i n now (v ∷ vs) ne =
    ground (arith, clear_others_ne node i n now vs ne, eq_iff v.node_id node, eq_iff v.node_id n)

clear_others_none :
    (node i : String) (now : ℕ) (vs : List Validator)
    → validator_by_id i vs ≡ none
    → default_count node (clear_defaults (other_of_node node i) now vs) ≡ 0
unfolding default_count clear_defaults validator_by_id
clear_others_none node i now [] e = refl
clear_others_none node i now (v ∷ vs) e = ground (arith, clear_others_none node i now vs)

-- Clearing all but one row of a node leaves at most that one.
pub clear_others_self :
    (node i : String) (now : ℕ) (vs : List Validator) (v : Validator)
    → DistinctIds vs
    → validator_by_id i vs ≡ some v
    → default_count node (clear_defaults (other_of_node node i) now vs) ≡ weight node v
unfolding default_count clear_defaults validator_by_id
clear_others_self node i now [] v d e = cc
clear_others_self node i now (w ∷ vs) v d e =
    ground
      (arith, eq_iff w.id i, clear_others_self node i now vs v d.1, clear_others_none node i now vs)

pub by_id-clear_others :
    (node i : String) (now : ℕ) (vs : List Validator)
    → validator_by_id i (clear_defaults (other_of_node node i) now vs) ≡ validator_by_id i vs
unfolding clear_defaults validator_by_id
by_id-clear_others node i now [] = refl
by_id-clear_others node i now (v ∷ vs) = ground (arith, by_id-clear_others node i now vs)

-- The index accepts every table with at most one default for each node.
index_holds_lem :
    (all vs : List Validator)
    → ((node : String) → default_count node all ≤ 1)
    → index_holds all vs ≡ true
unfolding index_holds
index_holds_lem all [] h = refl
index_holds_lem all (v ∷ vs) h = ground (arith, h v.node_id, index_holds_lem all vs h)

pub checked_lem :
    (vs : List Validator) → ((node : String) → default_count node vs ≤ 1) → checked vs ≡ ok vs
unfolding checked
checked_lem vs h = rw (index_holds_lem vs vs h)
