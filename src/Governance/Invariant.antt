-- ===== src/Governance/Invariant.antt =====
-- One vote for each user and proposal, and stored tallies that are the sums of the votes, over any
-- history of calls.
use swap_trade_backend.Common.{
  Number, ℕ, ◌≤◌, ◌<◌, ◌≡◌, refl, ◌==◌, false, ◌&&◌, inl, inr, some, List, [], ◌∷◌, ◌++◌, All,
  All-append, lookup, insert, lookup-insert, nat_key, arith, if◌then◌else◌, Bool-cases, subst, ◌∙◌,
  append-nil,
}
use swap_trade_backend.Governance.{
  GovernanceProposal, GovernanceVote, VoteChoice, Governance, recompute_proposal_tallies, sum_votes,
  votes_of, vote_of, has_vote,
}

module _ {F : Type 0} ⦃num : Number F⦄ where
  -- No later vote is by the same user on the same proposal.
  abbrev pub IsOnce : List (GovernanceVote F) → Type 0
  IsOnce [] = Unit
  IsOnce (v ∷ vs) =
      All (λ w. w.proposal_id == v.proposal_id && (w.voter_user_id == v.voter_user_id) ≡ false) vs
      × IsOnce vs

  -- The stored tallies of a proposal are the sums over its votes.
  pub record IsTallied (vs : List (GovernanceVote F)) (p : GovernanceProposal F) : Type 0 where
    pub yes_sum : p.yes_power ≡ sum_votes (votes_of p.id vs) VoteChoice.yes_choice
    pub no_sum : p.no_power ≡ sum_votes (votes_of p.id vs) VoteChoice.no_choice
    pub abstain_sum : p.abstain_power ≡ sum_votes (votes_of p.id vs) VoteChoice.abstain

  abbrev pub IsKept : List (GovernanceVote F) → ℕ → ℕ → GovernanceProposal F → Type 0
  IsKept vs next id p = (p.id ≡ id) × (id < next) × IsTallied vs p

  -- One vote for each user and proposal, on proposals that exist; each proposal stands under its id,
  -- with the sums of its votes.
  pub record IsValid (g : Governance F) : Type 0 where
    pub once : IsOnce g.votes
    pub old_votes : All (λ v. v.proposal_id < g.next_id) g.votes
    pub keyed :
        (id : ℕ) (p : GovernanceProposal F)
        → lookup id g.proposals ≡ some p
        → IsKept g.votes g.next_id id p

  pub no_votes :
      (n id : ℕ) (vs : List (GovernanceVote F))
      → All (λ v. v.proposal_id < n) vs
      → n ≤ id
      → votes_of id vs ≡ []
  no_votes n id [] a h = refl
  no_votes n id (v ∷ vs) a h = ground (arith, no_votes n id vs a.1)

  pub not_voted :
      (id user : ℕ) (vs : List (GovernanceVote F))
      → has_vote (vote_of id user vs) ≡ false
      → All (λ w. w.proposal_id == id && (w.voter_user_id == user) ≡ false) vs
  not_voted id user [] h = tt
  not_voted id user (v ∷ vs) h = ground (arith, not_voted id user vs)

  pub IsOnce-append :
      (vs : List (GovernanceVote F)) (v : GovernanceVote F)
      → All (λ w. w.proposal_id == v.proposal_id && (w.voter_user_id == v.voter_user_id) ≡ false) vs
      → IsOnce vs
      → IsOnce (vs ++ v ∷ [])
  IsOnce-append [] v a o = (tt, tt)
  IsOnce-append (w ∷ vs) v a o = (
    All-append (λ x. x.proposal_id == w.proposal_id && (x.voter_user_id == w.voter_user_id) ≡ false)
        vs (v ∷ []) o.0 (ground arith, tt),
    IsOnce-append vs v a.1 o.1,
  )

  votes_of-append :
      (id : ℕ) (vs : List (GovernanceVote F)) (v : GovernanceVote F)
      → votes_of id (vs ++ v ∷ []) ≡ votes_of id vs ++ (if v.proposal_id == id then v ∷ [] else [])
  votes_of-append id [] v = ground arith
  votes_of-append id (w ∷ vs) v = ground (arith, votes_of-append id vs v)

  -- A vote on another proposal leaves the tallies right.
  pub IsTallied-other :
      (vs : List (GovernanceVote F)) (v : GovernanceVote F) (p : GovernanceProposal F)
      → v.proposal_id == p.id ≡ false
      → IsTallied vs p
      → IsTallied (vs ++ v ∷ []) p
  IsTallied-other vs v p h t =
      let same : votes_of p.id (vs ++ v ∷ []) ≡ votes_of p.id vs =
        votes_of-append p.id vs v ∙ (rw h (append-nil _)) in
      record {
        yes_sum = rw same t.yes_sum;
        no_sum = rw same t.no_sum;
        abstain_sum = rw same t.abstain_sum;
      }

  -- Changes of a proposal that leave its id and its tallies.
  abbrev pub SameTally : GovernanceProposal F → GovernanceProposal F → Type 0
  SameTally p q =
      (q.id ≡ p.id)
      × (q.yes_power ≡ p.yes_power)
      × (q.no_power ≡ p.no_power)
      × (q.abstain_power ≡ p.abstain_power)

  IsTallied-same :
      (vs : List (GovernanceVote F)) (p q : GovernanceProposal F)
      → SameTally p q
      → IsTallied vs p
      → IsTallied vs q
  IsTallied-same vs p q (a, b, c, d) t = record {
    yes_sum = rw (a, b) t.yes_sum;
    no_sum = rw (a, c) t.no_sum;
    abstain_sum = rw (a, d) t.abstain_sum;
  }

  IsTallied-recompute :
      (p : GovernanceProposal F) (g : Governance F)
      → IsTallied g.votes (recompute_proposal_tallies p g)
  unfolding recompute_proposal_tallies
  IsTallied-recompute p g = record { yes_sum = refl; no_sum = refl; abstain_sum = refl }

  -- Writing one proposal.
  pub saved_IsKept :
      (g : Governance F) (q : GovernanceProposal F) (vs : List (GovernanceVote F)) (next : ℕ)
      → IsKept vs next q.id q
      → ((id : ℕ) (p : GovernanceProposal F)
          → lookup id g.proposals ≡ some p
          → id == q.id ≡ false
          → IsKept vs next id p)
      → (id : ℕ) (p : GovernanceProposal F) → lookup id (insert q.id q g.proposals) ≡ some p
      → IsKept vs next id p
  saved_IsKept g q vs next new old id p h = elim (Bool-cases (id == q.id)) [
    | inl e ↦
        let a : q ≡ p = ground (arith, lookup-insert id q.id q g.proposals) in
        let b : q.id ≡ id = ground arith in
        subst (λ x. IsKept vs next id x) a (subst (λ x. IsKept vs next x q) b new)
    | inr e ↦ old id p (ground (arith, lookup-insert id q.id q g.proposals)) e
  ]

  -- The calls that write one known proposal and do not touch its tallies.
  pub saved_same :
      (id : ℕ) (p q : GovernanceProposal F) (g : Governance F)
      → IsValid g
      → lookup id g.proposals ≡ some p
      → SameTally p q
      → (i : ℕ) (r : GovernanceProposal F) → lookup i (insert q.id q g.proposals) ≡ some r
      → IsKept g.votes g.next_id i r
  saved_same id p q g v h same =
      let (a, b, c) = v.keyed id p h in
      saved_IsKept g q g.votes g.next_id (refl, omega arith, IsTallied-same g.votes p q same c)
        (λ i r e _. v.keyed i r e)
