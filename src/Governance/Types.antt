-- ===== src/Governance/Types.antt =====
-- governance/entities and governance/dto: the rows of the tables and the requests. Times are
-- numbers, texts that the service does not read are numbers too.
pub use swap_trade_backend.Common.{ok, err, ◌>>=◌, ◌>>◌, raise_if, or_raise}
use swap_trade_backend.Common.{Throws}
use swap_trade_backend.Common.{ℕ, Bool, true, false, Option, List, Map}

pub data ProposalStatus : Type 0 where
  draft active succeeded defeated executed cancelled expired : ProposalStatus

pub data VoteChoice : Type 0 where
  yes_choice no_choice abstain : VoteChoice

-- What `executeProposal` writes, or the text of an update.
pub data ExecutionResult : Type 0 where
  enacted : ℕ → ExecutionResult
  described : ℕ → ExecutionResult

pub record GovernanceProposal (F : Type 0) : Type 0 where
  pub id : ℕ
  pub title : ℕ
  pub description : ℕ
  pub proposer_user_id : ℕ
  pub status : ProposalStatus
  pub start_at : ℕ
  pub end_at : ℕ
  pub snapshot_at : ℕ
  pub quorum_threshold : F
  pub yes_power : F
  pub no_power : F
  pub abstain_power : F
  pub executable : Bool
  pub execution_result : Option ExecutionResult
  pub executed_at : Option ℕ

pub record GovernanceStake (F : Type 0) : Type 0 where
  pub id : ℕ
  pub user_id : ℕ
  pub staked_amount : F

pub record GovernanceVote (F : Type 0) : Type 0 where
  pub id : ℕ
  pub proposal_id : ℕ
  pub voter_user_id : ℕ
  pub choice : VoteChoice
  pub voting_power : F
  pub idempotency_key : Option ℕ

pub record CreateGovernanceProposalDto (F : Type 0) : Type 0 where
  pub title : ℕ
  pub description : ℕ
  pub proposer_user_id : ℕ
  pub start_at : ℕ
  pub end_at : ℕ
  pub quorum_threshold : F
  pub executable : Bool

pub record CastVoteDto : Type 0 where
  pub voter_user_id : ℕ
  pub choice : VoteChoice
  pub idempotency_key : Option ℕ

pub record UpdateGovernanceProposalDto : Type 0 where
  pub title : Option ℕ
  pub description : Option ℕ
  pub status : Option ProposalStatus
  pub execution_result : Option ℕ

pub data Action : Type 0 where
  stake_updated proposal_created vote_cast proposal_tallied proposal_executed : Action
  proposal_updated proposal_cancelled : Action

pub record AuditEntry : Type 0 where
  pub action : Action
  pub actor_user_id : Option ℕ
  pub entity_id : ℕ

pub data Error : Type 0 where
  bad_window proposal_not_found not_active outside_window already_voted no_power : Error
  not_succeeded not_updatable not_cancellable : Error

pub record Governance (F : Type 0) : Type 0 where
  pub stakes : Map ℕ (GovernanceStake F)
  pub proposals : Map ℕ (GovernanceProposal F)
  pub votes : List (GovernanceVote F)
  pub audit : List AuditEntry
  pub next_id : ℕ

abbrev pub Result {ℓ} : Type ℓ → Type ℓ
Result A = Throws Error A

abbrev pub is_active : ProposalStatus → Bool
is_active ProposalStatus.active = true
is_active _ = false

abbrev pub is_open : ProposalStatus → Bool
is_open ProposalStatus.draft = true
is_open ProposalStatus.active = true
is_open _ = false

abbrev pub is_succeeded : ProposalStatus → Bool
is_succeeded ProposalStatus.succeeded = true
is_succeeded _ = false

abbrev pub same_choice : VoteChoice → VoteChoice → Bool
same_choice VoteChoice.yes_choice VoteChoice.yes_choice = true
same_choice VoteChoice.no_choice VoteChoice.no_choice = true
same_choice VoteChoice.abstain VoteChoice.abstain = true
same_choice _ _ = false
