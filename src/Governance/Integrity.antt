-- ===== src/Governance/Integrity.antt =====
-- governance/governance.service.ts: getProposal, getVoteStatus, getVotingSnapshot,
-- validateVoteIntegrity.
use swap_trade_backend.Common.{
  Number, ℕ, ◌==◌, ltb, Bool, true, false, Option, none, some, List, [], ◌∷◌, ◌++◌, map, length,
  Map, lookup, insert, nat_key, if◌then◌else◌,
}
use swap_trade_backend.Governance.{
  GovernanceProposal, GovernanceVote, GovernanceStake, VoteChoice, Governance, Result, ok, ◌>>=◌,
  get_proposal_or_throw, sum_votes, votes_of, total_participation, reduce_power,
}

pub record ProposalView (F : Type 0) : Type 0 where
  pub proposal : GovernanceProposal F
  pub votes : List (GovernanceVote F)
  pub total_participation : F

pub record VotingSnapshot (F : Type 0) : Type 0 where
  pub snapshot_at : ℕ
  pub total_voting_power : F
  pub voted_power : F
  pub participation_rate : F
  pub unique_voters : ℕ
  pub yes_votes : F
  pub no_votes : F
  pub abstain_votes : F
  pub quorum_met : Bool

pub data Issue : Type 0 where
  double_voting : ℕ → List ℕ → Issue
  replay_attack : ℕ → List ℕ → Issue

pub record IntegrityReport : Type 0 where
  pub total_votes : ℕ
  pub unique_voters : ℕ
  pub issues : List Issue
  pub is_valid : Bool

abbrev pub no_issues : List Issue → Bool
no_issues [] = true
no_issues (i ∷ is) = false

module _ {F : Type 0} ⦃num : Number F⦄ where
  -- Votes are listed in the order in which they were saved.
  unfoldable pub get_proposal : ℕ → Governance F → Result (ProposalView F)
  get_proposal id g = do
    p ← get_proposal_or_throw id g
    ok (record {
      proposal = p;
      votes = votes_of id g.votes;
      total_participation = total_participation p;
    })

  abbrev pub stake_total : F → Map ℕ (GovernanceStake F) → F
  stake_total sum [] = sum
  stake_total sum ((_, s) ∷ rest) = stake_total (num.add sum s.staked_amount) rest

  unfoldable pub get_voting_snapshot : ℕ → Governance F → Result (VotingSnapshot F)
  unfolding sum_votes
  get_voting_snapshot id g = do
    p ← get_proposal_or_throw id g
    let vs = votes_of id g.votes
    let zero = num.decimal 0 0
    let total = stake_total zero g.stakes
    let voted = reduce_power zero vs
    ok (record {
      snapshot_at = p.snapshot_at;
      total_voting_power = total;
      voted_power = voted;
      participation_rate =
          if num.lt zero total then num.mul (num.div voted total) (num.decimal 100 0) else zero;
      unique_voters = length vs;
      yes_votes = sum_votes vs VoteChoice.yes_choice;
      no_votes = sum_votes vs VoteChoice.no_choice;
      abstain_votes = sum_votes vs VoteChoice.abstain;
      quorum_met = num.le p.quorum_threshold voted;
    })

  -- `votes.forEach(...)` into a map from keys to the votes with that key; without a key a vote is
  -- left out.
  unfoldable pub group :
      (GovernanceVote F → Option ℕ)
      → Map ℕ (List (GovernanceVote F))
      → List (GovernanceVote F)
      → Map ℕ (List (GovernanceVote F))
  group key m [] = m
  group key m (v ∷ vs) = elim (key v) [
    | none ↦ group key m vs
    | some k ↦ elim (lookup k m) [
      | none ↦ group key (insert k (v ∷ []) m) vs
      | some old ↦ group key (insert k (old ++ v ∷ []) m) vs
    ]
  ]

  unfoldable pub repeated : (ℕ → List ℕ → Issue) → Map ℕ (List (GovernanceVote F)) → List Issue
  repeated issue [] = []
  repeated issue ((k, vs) ∷ m) =
      let rest = repeated issue m in
      if ltb 1 (length vs) then issue k (map (λ v. v.id) vs) ∷ rest else rest

  abbrev pub voter_key : GovernanceVote F → Option ℕ
  voter_key v = some v.voter_user_id

  -- The key 0 is the empty text, which counts as none.
  abbrev pub replay_key : GovernanceVote F → Option ℕ
  replay_key v = elim v.idempotency_key [ none ↦ none | some k ↦ if k == 0 then none else some k ]

  unfoldable pub validate_vote_integrity : ℕ → Governance F → IntegrityReport
  unfolding group repeated
  validate_vote_integrity id g =
      let vs = votes_of id g.votes in
      let voters = group voter_key [] vs in
      let issues =
        repeated double_voting voters ++ repeated replay_attack (group replay_key [] vs) in
      record {
        total_votes = length vs;
        unique_voters = length voters;
        issues = issues;
        is_valid = no_issues issues;
      }
