-- ===== src/Dao/Majority.antt =====
-- How many approvals a ratio asks for: approvalThreshold of ui/src/lib/sputnik-proposals.ts.
use Prim.Native.Nat.{◌/◌}
use citynode_app.Prelude.{
  ℕ, zero, suc, ◌*◌, ◌≤◌, ◌<◌, ◌≡◌, ap, subst, sym, Option, some, List, ◌∷◌, arith, length, ltb,
  Bool-cases, ◌⊎◌, inl, inr,
}
use native.Mathlib.Nat.{mul-lt-mul_of_pos_left, lt_of_mul-lt-mul_left}
use native.Mathlib.Omega.{div_any, mod_fact}
use citynode_app.Dao.Types.{SputnikProposal, SputnikRole, SputnikPolicy, Threshold, ratio}
use citynode_app.Dao.Policy.{
  role_members, approver_roles, ratio_votes, required_votes, Required, votes, threshold_of,
  approval_threshold, first_threshold,
}

-- the least number of votes above the ratio
abbrev pub IsMajority : ℕ → ℕ → ℕ → Required → Type 0
IsMajority members n d required =
    (k : ℕ) × (required ≡ votes (suc k))
    × (members * n < suc k * d)
    × (k * d ≤ members * n)
    × ((suc k ≤ members) ⊎ (d ≤ n))

-- A ratio below one asks for no more votes than there are members.
votes_le : (m n d k : ℕ) → suc d * k ≤ suc m * n → (suc k ≤ suc m) ⊎ (suc d ≤ n)
votes_le m n d k h = elim (Bool-cases (ltb n (suc d))) [
  | inl below ↦
      let strict : suc m * n < suc m * suc d =
        mul-lt-mul_of_pos_left (ground arith) (omega arith) in
      inl (lt_of_mul-lt-mul_left (suc d) (omega arith))
  | inr above ↦ inr (ground arith)
]

ratio_votes-IsMajority : (m n d : ℕ) → IsMajority (suc m) n (suc d) (ratio_votes (suc m) n (suc d))
unfolding ratio_votes
ratio_votes-IsMajority m n d =
    let k : ℕ = (suc m * n) / suc d in
    let whole = div_any (suc m * n) (suc d) in
    let rest = mod_fact (suc m * n) d in
    (
      k,
      ap votes (omega arith),
      omega (arith, whole, rest),
      omega (arith, whole),
      votes_le m n d k (omega (arith, whole)),
    )

required-IsMajority :
    (members n d : ℕ) (threshold : Option Threshold)
    → threshold ≡ some (ratio n d)
    → 0 < members
    → 0 < d
    → IsMajority members n d (required_votes members threshold)
unfolding required_votes
required-IsMajority (suc m) n (suc d) threshold e h k = rw e (ratio_votes-IsMajority m n d)
required-IsMajority zero n d threshold e h k = ground arith
required-IsMajority (suc m) n zero threshold e h k = ground arith

-- Where the first role that may approve has members and its threshold is the ratio of `n` to a
-- positive `d`, the votes that approvalThreshold asks for are the least number that is more than that
-- share of the members; they are at most as many as the members unless the ratio is one or more.
pub approval_threshold-IsMajority :
    (policy : Option SputnikPolicy) (proposal : Option SputnikProposal) (role : SputnikRole)
    (roles : List SputnikRole) (n d : ℕ)
    → approver_roles policy ≡ role ∷ roles
    → threshold_of policy role ≡ some (ratio n d)
    → 0 < length (role_members role.kind)
    → 0 < d
    → IsMajority (length (role_members role.kind)) n d (approval_threshold policy proposal).required
unfolding approval_threshold
approval_threshold-IsMajority policy proposal role roles n d first e h k =
    subst
      (λ found.
        IsMajority (length (role_members role.kind)) n d
          (first_threshold policy proposal found).required)
      (sym first)
      (required-IsMajority (length (role_members role.kind)) n d (threshold_of policy role) e h k)
