-- ===== src/Governance/Lifecycle.antt =====
-- What tallying decides and executing enacts, and that a second vote is refused.
use swap_trade_backend.Common.{
  ℕ, ◌≡◌, refl, ltb, true, ◌||◌, inl, inr, none, some, List, lookup, insert, lookup-insert_self,
  nat_key, if◌then◌else◌, Option-cases, Bool-cases, sym, ap, subst, Number,
}
use swap_trade_backend.Governance.{
  GovernanceProposal, ProposalStatus, Governance, CastVoteDto, ok, err, cast_vote, tally_proposal,
  execute_proposal, recompute_proposal_tallies, vote_of, has_vote, passes, is_active, Error,
  enacted, proposal_tallied, proposal_executed, log, save, not_succeeded,
}
use swap_trade_backend.Governance.Invariant.{IsValid, IsTallied}
use swap_trade_backend.Governance.Calls.{Call, run, empty_tables, run_empty-IsValid}

module _ {F : Type 0} ⦃num : Number F⦄ where
  -- A vote, whenever it is cast and whatever it says, is never taken in a state that already has a
  -- vote of the same user on the same proposal.
  pub cast_vote_twice :
      (now id : ℕ) (dto : CastVoteDto) (g : Governance F)
      → has_vote (vote_of id dto.voter_user_id g.votes) ≡ true
      → (e : Error) × (cast_vote now id dto g ≡ err e)
  unfolding cast_vote
  cast_vote_twice now id dto g h = elim (Option-cases (lookup id g.proposals)) [
    | inl e ↦ rw (e, cast_vote) (_, refl)
    | inr (p, e) ↦
        rw (e, cast_vote)
          (elim (Bool-cases (is_active p.status)) [
            | inr n ↦ rw (n, cast_vote) (_, refl)
            | inl n ↦
                rw (n, cast_vote)
                  (elim (Bool-cases (ltb now p.start_at || ltb p.end_at now)) [
                    | inl t ↦ rw (t, cast_vote) (_, refl)
                    | inr t ↦ rw (t, h, cast_vote) (_, refl)
                  ])
          ])
  ]

  -- What the stored tallies decide.
  abbrev pub decided : GovernanceProposal F → GovernanceProposal F
  decided p = record p {
    status = if passes p then ProposalStatus.succeeded else ProposalStatus.defeated;
  }

  abbrev pub enacted_at : ℕ → GovernanceProposal F → GovernanceProposal F
  enacted_at now p = record p {
    status = ProposalStatus.executed;
    executed_at = some now;
    execution_result = some (enacted now);
  }

  -- The stored tallies are those that are computed again.
  recompute-IsTallied :
      (p : GovernanceProposal F) (g : Governance F)
      → IsTallied g.votes p
      → recompute_proposal_tallies p g ≡ p
  unfolding recompute_proposal_tallies
  recompute-IsTallied p g t = rw (← t.yes_sum, ← t.no_sum, ← t.abstain_sum) refl

  tally_proposal-decided :
      (id : ℕ) (p : GovernanceProposal F) (g : Governance F)
      → IsValid g
      → lookup id g.proposals ≡ some p
      → tally_proposal id g ≡ ok (decided p, log proposal_tallied none id (save (decided p) g))
  unfolding tally_proposal
  tally_proposal-decided id p g v e =
      let (_, _, t) = v.keyed id p e in
      rw (e, tally_proposal)
        (ap (λ q. ok (decided q, log proposal_tallied none id (save (decided q) g)))
          (recompute-IsTallied p g t))

  execute_proposal-decided :
      (now id : ℕ) (p : GovernanceProposal F) (g : Governance F)
      → lookup id g.proposals ≡ some (decided p)
      → execute_proposal now id g ≡ (
          if passes p
          then ok (enacted_at now p, log proposal_executed none id (save (enacted_at now p) g))
          else err not_succeeded)
  unfolding execute_proposal
  execute_proposal-decided now id p g e = elim (Bool-cases (passes p)) [
    | inl h ↦ rw (e, execute_proposal, h) refl
    | inr h ↦ rw (e, execute_proposal, h) refl
  ]

  -- After any history of calls on empty tables, a proposal that is tallied and then executed, at any
  -- time: both whatever its status, executed already and cancelled included, and whether or not it
  -- is executable. The tally leaves all of the stored proposal but its status, which the stored
  -- tallies decide; the execution enacts it exactly when they pass, and throws otherwise.
  pub execute_proposal-tally_proposal :
      (cs : List (ℕ × Call F)) (now id : ℕ) (p : GovernanceProposal F)
      → let g = run empty_tables cs in
        lookup id g.proposals ≡ some p
        → (g' : Governance F) × (tally_proposal id g ≡ ok (decided p, g'))
          × (lookup id g'.proposals ≡ some (decided p))
          × (execute_proposal now id g' ≡ (
              if passes p
              then ok (enacted_at now p, log proposal_executed none id (save (enacted_at now p) g'))
              else err not_succeeded))
  execute_proposal-tally_proposal cs now id p e =
      let g = run empty_tables cs in
      let v : IsValid g = run_empty-IsValid cs in
      let (a, _, _) = v.keyed id p e in
      let found : lookup id (insert p.id (decided p) g.proposals) ≡ some (decided p) =
        subst (λ x. lookup id (insert x (decided p) g.proposals) ≡ some (decided p)) (sym a)
          (lookup-insert_self id (decided p) g.proposals) in
      let g' = log proposal_tallied none id (save (decided p) g) in
      (g', tally_proposal-decided id p g v e, found, execute_proposal-decided now id p g' found)
