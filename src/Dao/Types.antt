-- ===== src/Dao/Types.antt =====
-- The data of a Sputnik DAO in ui/src/lib/sputnik-proposals.ts, as its contract answers them.
use citynode_app.Prelude.{ℕ, String, Option, List}

pub record FunctionCallAction : Type 0 where
  pub method_name : String
  pub args : String
  pub deposit : String
  pub gas : String

-- a proposal of another kind holds what the pages do not read
pub data ProposalKind : Type 0 where
  function_call : String → List FunctionCallAction → ProposalKind
  transfer : String → String → String → ProposalKind
  other : ProposalKind

pub record SputnikProposal : Type 0 where
  pub id : ℕ
  pub proposer : String
  pub description : String
  pub kind : ProposalKind
  pub status : String
  pub vote_counts : List (String × ℕ)
  pub submission_time : ℕ

pub data RoleKind : Type 0 where
  everyone : RoleKind
  group : List String → RoleKind
  member : Option ℕ → RoleKind
  unreadable : RoleKind

pub data Threshold : Type 0 where
  count : ℕ → Threshold
  ratio : ℕ → ℕ → Threshold

pub record SputnikRole : Type 0 where
  pub name : String
  pub kind : RoleKind
  pub permissions : Option (List String)
  pub call_threshold : Option Threshold

pub record SputnikPolicy : Type 0 where
  pub roles : List SputnikRole
  pub default_threshold : Option Threshold
  pub proposal_period : Option ℕ
  pub proposal_bond : Option ℕ
