-- ===== src/Governance/Examples.antt =====
-- The theorems on governance at a proposal with one vote, with whole numbers for powers.
use swap_trade_backend.Common.{
  ℕ, ◌+◌, ◌-◌, ◌*◌, ◌/◌, ◌≡◌, refl, false, none, some, List, [], ◌∷◌, lookup, leb, ltb, ◌==◌, max,
  if◌then◌else◌, nat_key, Number,
}
use swap_trade_backend.Governance.{
  GovernanceProposal, VoteChoice, ProposalStatus, Governance, CreateGovernanceProposalDto,
  CastVoteDto, ok, err, upsert_stake, create_proposal, cast_vote, tally_proposal, execute_proposal,
  recompute_proposal_tallies, sum_votes, votes_of, passes, log, save, proposal_executed,
  not_succeeded,
}
use swap_trade_backend.Governance.Invariant.{IsValid}
use swap_trade_backend.Governance.Calls.{Call, run, empty_tables, stakes, creates, votes_on}
use swap_trade_backend.Governance.Calls
use swap_trade_backend.Governance.Lifecycle.{decided, enacted_at}
use swap_trade_backend.Governance.Lifecycle
use swap_trade_backend.Governance.Integrity.{
  validate_vote_integrity, repeated, group, replay_attack, replay_key,
}
use swap_trade_backend.Governance.Reports

instance abbrev whole : Number ℕ
whole = record {
  add = ◌+◌;
  sub = ◌-◌;
  mul = ◌*◌;
  div = ◌/◌;
  abs = λ a. a;
  lt = ltb;
  le = leb;
  decimal = λ a k. if k == 0 then a else 0;
  infinity = 1000000000;
  equal = ◌==◌;
  greatest = max;
  to_fixed = λ k a. a;
}

abbrev dto : CreateGovernanceProposalDto ℕ
dto = record {
  title = 7;
  description = 8;
  proposer_user_id = 5;
  start_at = 2;
  end_at = 9;
  quorum_threshold = 50;
  executable = false;
}

abbrev ballot : CastVoteDto
ballot = record { voter_user_id = 5; choice = VoteChoice.yes_choice; idempotency_key = none }

abbrev calls : List (ℕ × Call ℕ)
calls = (1, stakes 5 100) ∷ (1, creates dto) ∷ (4, votes_on 1 ballot) ∷ []

abbrev voted : Governance ℕ
voted = run empty_tables calls

abbrev proposal : GovernanceProposal ℕ
proposal = record {
  id = 1;
  title = 7;
  description = 8;
  proposer_user_id = 5;
  status = ProposalStatus.active;
  start_at = 2;
  end_at = 9;
  snapshot_at = 2;
  quorum_threshold = 50;
  yes_power = 100;
  no_power = 0;
  abstain_power = 0;
  executable = false;
  execution_result = none;
  executed_at = none;
}

run_empty-IsValid_example : IsValid voted
run_empty-IsValid_example = Calls.run_empty-IsValid calls

voted-IsValid : IsValid voted
voted-IsValid = Calls.run_empty-IsValid calls

stored : lookup 1 voted.proposals ≡ some proposal
unfolding run upsert_stake create_proposal cast_vote recompute_proposal_tallies sum_votes
stored = refl

execute_proposal-tally_proposal_example :
    (g' : Governance ℕ) × (tally_proposal 1 voted ≡ ok (decided proposal, g'))
    × (lookup 1 g'.proposals ≡ some (decided proposal))
    × (execute_proposal 5 1 g' ≡ (
        if passes proposal
        then ok
            (enacted_at 5 proposal, log proposal_executed none 1 (save (enacted_at 5 proposal) g'))
        else err not_succeeded))
execute_proposal-tally_proposal_example =
    Lifecycle.execute_proposal-tally_proposal calls 5 1 proposal stored

validate_vote_integrity-IsValid_example :
    let report = validate_vote_integrity 1 voted in
    (report.unique_voters ≡ report.total_votes)
    × (report.issues ≡ repeated replay_attack (group replay_key [] (votes_of 1 voted.votes)))
validate_vote_integrity-IsValid_example =
    Reports.validate_vote_integrity-IsValid 1 voted voted-IsValid
