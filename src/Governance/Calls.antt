-- ===== src/Governance/Calls.antt =====
-- Every call of the service keeps the invariant, and so does every history of calls.
use swap_trade_backend.Common.{
  Number, ℕ, ◌+◌, ◌<◌, ◌≡◌, refl, false, inl, inr, some, List, [], ◌∷◌, ◌++◌, ltb, leb, ◌||◌,
  All-append, All-map, lookup, insert, nat_key, arith, Option-cases, Bool-cases,
}
use swap_trade_backend.Governance.{
  GovernanceProposal, GovernanceVote, Governance, CreateGovernanceProposalDto, CastVoteDto,
  UpdateGovernanceProposalDto, Result, ok, err, upsert_stake, create_proposal, cast_vote,
  tally_proposal, execute_proposal, update_proposal, cancel_proposal, recompute_proposal_tallies,
  sum_votes, vote_of, has_vote, assign, is_active, is_open, is_succeeded, power_of,
}
use swap_trade_backend.Governance.Invariant.{
  IsValid, no_votes, not_voted, IsOnce-append, IsTallied-other, saved_IsKept, saved_same,
}

pub data Call (F : Type 0) : Type 0 where
  stakes : ℕ → F → Call F
  creates : CreateGovernanceProposalDto F → Call F
  votes_on : ℕ → CastVoteDto → Call F
  tallies : ℕ → Call F
  executes : ℕ → Call F
  updates : ℕ → UpdateGovernanceProposalDto → Call F
  cancels : ℕ → Call F

module _ {F : Type 0} ⦃num : Number F⦄ where
  -- What a call leaves: a valid state, or the old one behind an error.
  abbrev pub Keeps : {A : Type 0} → Result (A × Governance F) → Type 0
  Keeps (ok (_, g)) = IsValid g
  Keeps (err e) = Unit

  pub execute_proposal-Keeps :
      (now id : ℕ) (g : Governance F) → IsValid g → Keeps (execute_proposal now id g)
  unfolding execute_proposal
  execute_proposal-Keeps now id g v = elim (Option-cases (lookup id g.proposals)) [
    | inl e ↦ rw (e, execute_proposal) tt
    | inr (p, e) ↦
        rw (e, execute_proposal)
          (elim (Bool-cases (is_succeeded p.status)) [
            | inr n ↦ rw (n, execute_proposal) tt
            | inl n ↦
                rw (n, execute_proposal)
                  (record {
                    once = v.once;
                    old_votes = v.old_votes;
                    keyed = saved_same id p _ g v e (refl, refl, refl, refl);
                  })
          ])
  ]

  update_proposal-Keeps :
      (id : ℕ) (dto : UpdateGovernanceProposalDto) (g : Governance F)
      → IsValid g
      → Keeps (update_proposal id dto g)
  unfolding update_proposal
  update_proposal-Keeps id dto g v = elim (Option-cases (lookup id g.proposals)) [
    | inl e ↦ rw (e, update_proposal) tt
    | inr (p, e) ↦
        rw (e, update_proposal)
          (elim (Bool-cases (is_open p.status)) [
            | inr n ↦ rw (n, update_proposal) tt
            | inl n ↦
                rw (n, update_proposal)
                  (record {
                    once = v.once;
                    old_votes = v.old_votes;
                    keyed = saved_same id p (assign dto p) g v e (refl, refl, refl, refl);
                  })
          ])
  ]

  cancel_proposal-Keeps : (id : ℕ) (g : Governance F) → IsValid g → Keeps (cancel_proposal id g)
  unfolding cancel_proposal
  cancel_proposal-Keeps id g v = elim (Option-cases (lookup id g.proposals)) [
    | inl e ↦ rw (e, cancel_proposal) tt
    | inr (p, e) ↦
        rw (e, cancel_proposal)
          (elim (Bool-cases (is_open p.status)) [
            | inr n ↦ rw (n, cancel_proposal) tt
            | inl n ↦
                rw (n, cancel_proposal)
                  (record {
                    once = v.once;
                    old_votes = v.old_votes;
                    keyed = saved_same id p _ g v e (refl, refl, refl, refl);
                  })
          ])
  ]

  tally_proposal-Keeps : (id : ℕ) (g : Governance F) → IsValid g → Keeps (tally_proposal id g)
  unfolding tally_proposal recompute_proposal_tallies
  tally_proposal-Keeps id g v = elim (Option-cases (lookup id g.proposals)) [
    | inl e ↦ rw (e, tally_proposal) tt
    | inr (p, e) ↦
        let (a, b, c) = v.keyed id p e in
        rw (e, tally_proposal)
          (record {
            once = v.once;
            old_votes = v.old_votes;
            keyed =
                saved_IsKept g _ g.votes g.next_id
                  (refl, omega arith, record { yes_sum = refl; no_sum = refl; abstain_sum = refl })
                  (λ i r h _. v.keyed i r h);
          })
  ]

  upsert_stake-IsValid :
      (user : ℕ) (amount : F) (g : Governance F)
      → IsValid g
      → IsValid (upsert_stake user amount g).1
  unfolding upsert_stake
  upsert_stake-IsValid user amount g v = elim (Option-cases (lookup user g.stakes)) [
    | inr (s, e) ↦
        rw (e, upsert_stake) (record { once = v.once; old_votes = v.old_votes; keyed = v.keyed })
    | inl e ↦
        rw (e, upsert_stake)
          (record {
            once = v.once;
            old_votes =
                All-map (λ w. w.proposal_id < g.next_id) (λ w. w.proposal_id < g.next_id + 1)
                  (λ w h. omega arith) g.votes v.old_votes;
            keyed = λ id p h. let (a, b, c) = v.keyed id p h in (a, omega arith, c);
          })
  ]

  create_proposal-Keeps :
      (dto : CreateGovernanceProposalDto F) (g : Governance F)
      → IsValid g
      → Keeps (create_proposal dto g)
  unfolding create_proposal sum_votes
  create_proposal-Keeps dto g v = elim (Bool-cases (leb dto.end_at dto.start_at)) [
    | inl e ↦ rw (e, create_proposal) tt
    | inr e ↦
        let none_yet = no_votes g.next_id g.next_id g.votes v.old_votes (omega arith) in
        rw (e, create_proposal)
          (record {
            once = v.once;
            old_votes =
                All-map (λ w. w.proposal_id < g.next_id) (λ w. w.proposal_id < g.next_id + 1)
                  (λ w h. omega arith) g.votes v.old_votes;
            keyed =
                saved_IsKept g _ g.votes (g.next_id + 1)
                  (
                    refl,
                    omega arith,
                    record {
                      yes_sum = rw none_yet;
                      no_sum = rw none_yet;
                      abstain_sum = rw none_yet;
                    },
                  )
                  (λ i r h _. let (a, b, c) = v.keyed i r h in (a, omega arith, c));
          })
  ]

  -- A vote that is taken: the state and what `cast_vote` checked.
  cast-IsValid :
      (id : ℕ) (p : GovernanceProposal F) (vote : GovernanceVote F) (g g' : Governance F)
      → IsValid g
      → lookup id g.proposals ≡ some p
      → vote.proposal_id ≡ id
      → has_vote (vote_of id vote.voter_user_id g.votes) ≡ false
      → g'.votes ≡ g.votes ++ vote ∷ []
      → g'.next_id ≡ g.next_id + 1
      → (let voted = record g { votes = g.votes ++ vote ∷ []; next_id = g.next_id + 1 } in
          g'.proposals ≡ insert p.id (recompute_proposal_tallies p voted) g.proposals)
      → IsValid g'
  unfolding recompute_proposal_tallies
  cast-IsValid id p vote g g' v h on new same_votes same_next saved =
      let (a, b, c) = v.keyed id p h in
      let fresh = not_voted id vote.voter_user_id g.votes new in
      record {
        once = rw same_votes (IsOnce-append g.votes vote (rw on fresh) v.once);
        old_votes =
            rw (same_votes, same_next)
              (All-append (λ w. w.proposal_id < g.next_id + 1) g.votes (vote ∷ [])
                (All-map (λ w. w.proposal_id < g.next_id) (λ w. w.proposal_id < g.next_id + 1)
                  (λ w k. omega arith) g.votes v.old_votes)
                (omega arith, tt));
        keyed =
            rw (same_votes, same_next, saved)
              (saved_IsKept g _ (g.votes ++ vote ∷ []) (g.next_id + 1)
                (refl, omega arith, record { yes_sum = refl; no_sum = refl; abstain_sum = refl })
                (λ i r k e.
                  let (x, y, z) = v.keyed i r k in
                  (x, omega arith, IsTallied-other g.votes vote r (ground arith) z)));
      }

  cast_vote-Keeps :
      (now id : ℕ) (dto : CastVoteDto) (g : Governance F)
      → IsValid g
      → Keeps (cast_vote now id dto g)
  unfolding cast_vote
  cast_vote-Keeps now id dto g v = elim (Option-cases (lookup id g.proposals)) [
    | inl e ↦ rw (e, cast_vote) tt
    | inr (p, e) ↦
        rw (e, cast_vote)
          (elim (Bool-cases (is_active p.status)) [
            | inr n ↦ rw (n, cast_vote) tt
            | inl n ↦
                rw (n, cast_vote)
                  (elim (Bool-cases (ltb now p.start_at || ltb p.end_at now)) [
                    | inl t ↦ rw (t, cast_vote) tt
                    | inr t ↦
                        rw (t, cast_vote)
                          (elim (Bool-cases (has_vote (vote_of id dto.voter_user_id g.votes))) [
                            | inl d ↦ rw (d, cast_vote) tt
                            | inr d ↦
                                rw (d, cast_vote)
                                  (elim (Bool-cases (
                                    num.le (power_of (lookup dto.voter_user_id g.stakes))
                                      (num.decimal 0 0))) [
                                        | inl z ↦ rw (z, cast_vote) tt
                                        | inr z ↦
                                            rw (z, cast_vote)
                                              (cast-IsValid id p _ g _ v e refl d refl refl refl)
                                      ])
                          ])
                  ])
          ])
  ]

  abbrev after : {A : Type 0} → Governance F → Result (A × Governance F) → Governance F
  after g (ok (_, h)) = h
  after g (err e) = g

  pub step : Governance F → ℕ × Call F → Governance F
  step g (now, stakes user amount) = (upsert_stake user amount g).1
  step g (now, creates dto) = after g (create_proposal dto g)
  step g (now, votes_on id dto) = after g (cast_vote now id dto g)
  step g (now, tallies id) = after g (tally_proposal id g)
  step g (now, executes id) = after g (execute_proposal now id g)
  step g (now, updates id dto) = after g (update_proposal id dto g)
  step g (now, cancels id) = after g (cancel_proposal id g)

  unfoldable pub run : Governance F → List (ℕ × Call F) → Governance F
  unfolding step
  run g [] = g
  run g (c ∷ cs) = run (step g c) cs

  after-IsValid :
      {A : Type 0} (g : Governance F) (r : Result (A × Governance F))
      → IsValid g
      → Keeps r
      → IsValid (after g r)
  after-IsValid g (ok (_, h)) v k = k
  after-IsValid g (err e) v k = v

  step-IsValid : (g : Governance F) (c : ℕ × Call F) → IsValid g → IsValid (step g c)
  unfolding step
  step-IsValid g (now, stakes user amount) v = upsert_stake-IsValid user amount g v
  step-IsValid g (now, creates dto) v = after-IsValid g _ v (create_proposal-Keeps dto g v)
  step-IsValid g (now, votes_on id dto) v = after-IsValid g _ v (cast_vote-Keeps now id dto g v)
  step-IsValid g (now, tallies id) v = after-IsValid g _ v (tally_proposal-Keeps id g v)
  step-IsValid g (now, executes id) v = after-IsValid g _ v (execute_proposal-Keeps now id g v)
  step-IsValid g (now, updates id dto) v = after-IsValid g _ v (update_proposal-Keeps id dto g v)
  step-IsValid g (now, cancels id) v = after-IsValid g _ v (cancel_proposal-Keeps id g v)

  run-IsValid : (g : Governance F) (cs : List (ℕ × Call F)) → IsValid g → IsValid (run g cs)
  unfolding run
  run-IsValid g [] v = v
  run-IsValid g (c ∷ cs) v = run-IsValid (step g c) cs (step-IsValid g c v)

  abbrev pub empty_tables : Governance F
  empty_tables = record { stakes = []; proposals = []; votes = []; audit = []; next_id = 0 }

  -- After any history of calls on empty tables, failed ones included, no user has two votes on one
  -- proposal, every vote is on a proposal of the past, and every proposal stands under its id with
  -- tallies that are the sums of its votes.
  pub run_empty-IsValid : (cs : List (ℕ × Call F)) → IsValid (run empty_tables cs)
  run_empty-IsValid cs =
      run-IsValid empty_tables cs (record { once = tt; old_votes = tt; keyed = λ id p h. cc })
