-- ===== src/Governance.antt =====
-- governance/governance.service.ts and its entities: stakes, proposals, votes, tallies.
-- The state is the three tables, the audit log and the next fresh id. Every error is raised before
-- the first write, so an error leaves the state as it was. Cache invalidation is left out.
pub mod Types
pub mod Integrity
pub mod Reports
pub mod Invariant
pub mod Calls
pub mod Lifecycle
mod Examples
pub use Types.*
use swap_trade_backend.Common.{
  ℕ, ◌+◌, ◌==◌, ltb, leb, Bool, true, false, not, ◌&&◌, ◌||◌, Option, none, some, List, [], ◌∷◌,
  ◌++◌, map, length, keep_if, Number, Map, lookup, insert, nat_key, if◌then◌else◌,
}

abbrev override {ℓ} : {A : Type ℓ} → Option A → A → A
override none old = old
override (some new) old = new

abbrev described_or : Option ℕ → Option ExecutionResult → Option ExecutionResult
described_or none old = old
described_or (some t) old = some (described t)

module _ {F : Type 0} ⦃num : Number F⦄ where
  abbrev pub log : Action → Option ℕ → ℕ → Governance F → Governance F
  log a who what g = record g {
    audit = g.audit ++ record { action = a; actor_user_id = who; entity_id = what } ∷ [];
  }

  unfoldable pub upsert_stake : ℕ → F → Governance F → GovernanceStake F × Governance F
  upsert_stake user amount g = elim (lookup user g.stakes) [
    | some old ↦
        let stake = record old { staked_amount = amount } in
        (
          stake,
          log stake_updated (some user) old.id (record g { stakes = insert user stake g.stakes }),
        )
    | none ↦
        let stake : GovernanceStake F = record {
          id = g.next_id;
          user_id = user;
          staked_amount = amount;
        } in
        (
          stake,
          log stake_updated (some user) g.next_id
              (record g { stakes = insert user stake g.stakes; next_id = g.next_id + 1 }),
        )
  ]

  abbrev pub save : GovernanceProposal F → Governance F → Governance F
  save p g = record g { proposals = insert p.id p g.proposals }

  unfoldable pub create_proposal :
      CreateGovernanceProposalDto F → Governance F → Result (GovernanceProposal F × Governance F)
  create_proposal dto g = do
    raise_if (leb dto.end_at dto.start_at) bad_window
    let p : GovernanceProposal F = record {
      id = g.next_id;
      title = dto.title;
      description = dto.description;
      proposer_user_id = dto.proposer_user_id;
      status = ProposalStatus.active;
      start_at = dto.start_at;
      end_at = dto.end_at;
      snapshot_at = dto.start_at;
      quorum_threshold = dto.quorum_threshold;
      yes_power = num.decimal 0 0;
      no_power = num.decimal 0 0;
      abstain_power = num.decimal 0 0;
      executable = dto.executable;
      execution_result = none;
      executed_at = none;
    }
    ok (
      p,
      log proposal_created (some dto.proposer_user_id) p.id
          (save p (record g { next_id = g.next_id + 1 })),
    )

  abbrev pub get_proposal_or_throw : ℕ → Governance F → Result (GovernanceProposal F)
  get_proposal_or_throw id g = or_raise (lookup id g.proposals) proposal_not_found

  abbrev pub assert_proposal_open : ℕ → GovernanceProposal F → Result (Unit {0})
  assert_proposal_open now p =
      raise_if (not (is_active p.status)) not_active
      >> raise_if (ltb now p.start_at || ltb p.end_at now) outside_window

  -- `find({ where: { proposalId } })`
  abbrev pub votes_of : ℕ → List (GovernanceVote F) → List (GovernanceVote F)
  votes_of id = keep_if λ v. v.proposal_id == id

  abbrev pub vote_of : ℕ → ℕ → List (GovernanceVote F) → List (GovernanceVote F)
  vote_of id user = keep_if λ v. v.proposal_id == id && (v.voter_user_id == user)

  abbrev pub has_vote : List (GovernanceVote F) → Bool
  has_vote [] = false
  has_vote (v ∷ vs) = true

  -- `reduce((sum, vote) => sum + Number(vote.votingPower), 0)`, from a sum on
  abbrev pub reduce_power : F → List (GovernanceVote F) → F
  reduce_power sum [] = sum
  reduce_power sum (v ∷ vs) = reduce_power (num.add sum v.voting_power) vs

  unfoldable pub sum_votes : List (GovernanceVote F) → VoteChoice → F
  sum_votes vs c = reduce_power (num.decimal 0 0) (keep_if (λ v. same_choice v.choice c) vs)

  unfoldable pub recompute_proposal_tallies :
      GovernanceProposal F → Governance F → GovernanceProposal F
  unfolding sum_votes
  recompute_proposal_tallies p g =
      let vs = votes_of p.id g.votes in
      record p {
        yes_power = sum_votes vs VoteChoice.yes_choice;
        no_power = sum_votes vs VoteChoice.no_choice;
        abstain_power = sum_votes vs VoteChoice.abstain;
      }

  abbrev pub power_of : Option (GovernanceStake F) → F
  power_of none = num.decimal 0 0
  power_of (some s) = s.staked_amount

  unfoldable pub cast_vote :
      ℕ → ℕ → CastVoteDto → Governance F → Result (GovernanceVote F × Governance F)
  unfolding recompute_proposal_tallies
  cast_vote now id dto g = do
    p ← get_proposal_or_throw id g
    assert_proposal_open now p
    raise_if (has_vote (vote_of id dto.voter_user_id g.votes)) already_voted
    let power = power_of (lookup dto.voter_user_id g.stakes)
    raise_if (num.le power (num.decimal 0 0)) no_power
    let vote : GovernanceVote F = record {
      id = g.next_id;
      proposal_id = id;
      voter_user_id = dto.voter_user_id;
      choice = dto.choice;
      voting_power = power;
      idempotency_key = dto.idempotency_key;
    }
    let voted = record g { votes = g.votes ++ vote ∷ []; next_id = g.next_id + 1 }
    ok (
      vote,
      log vote_cast (some dto.voter_user_id) id (save (recompute_proposal_tallies p voted) voted),
    )

  abbrev pub total_participation : GovernanceProposal F → F
  total_participation p = num.add (num.add p.yes_power p.no_power) p.abstain_power

  abbrev pub passes : GovernanceProposal F → Bool
  passes p = num.le p.quorum_threshold (total_participation p) && num.lt p.no_power p.yes_power

  unfoldable pub tally_proposal : ℕ → Governance F → Result (GovernanceProposal F × Governance F)
  unfolding recompute_proposal_tallies
  tally_proposal id g = do
    p ← get_proposal_or_throw id g
    let q = recompute_proposal_tallies p g
    let r = record q {
      status = if passes q then ProposalStatus.succeeded else ProposalStatus.defeated;
    }
    ok (r, log proposal_tallied none id (save r g))

  unfoldable pub execute_proposal :
      ℕ → ℕ → Governance F → Result (GovernanceProposal F × Governance F)
  execute_proposal now id g = do
    p ← get_proposal_or_throw id g
    raise_if (not (is_succeeded p.status)) not_succeeded
    let q = record p {
      status = ProposalStatus.executed;
      executed_at = some now;
      execution_result = some (enacted now);
    }
    ok (q, log proposal_executed none id (save q g))

  -- `Object.assign(proposal, dto)`
  unfoldable pub assign : UpdateGovernanceProposalDto → GovernanceProposal F → GovernanceProposal F
  assign dto p = record p {
    title = override dto.title p.title;
    description = override dto.description p.description;
    status = override dto.status p.status;
    execution_result = described_or dto.execution_result p.execution_result;
  }

  unfoldable pub update_proposal :
      ℕ → UpdateGovernanceProposalDto → Governance F → Result (GovernanceProposal F × Governance F)
  unfolding assign
  update_proposal id dto g = do
    p ← get_proposal_or_throw id g
    raise_if (not (is_open p.status)) not_updatable
    ok (assign dto p, log proposal_updated none id (save (assign dto p) g))

  unfoldable pub cancel_proposal : ℕ → Governance F → Result (GovernanceProposal F × Governance F)
  cancel_proposal id g = do
    p ← get_proposal_or_throw id g
    raise_if (not (is_open p.status)) not_cancellable
    let q = record p { status = ProposalStatus.cancelled }
    ok (q, log proposal_cancelled none id (save q g))
