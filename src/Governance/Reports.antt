-- ===== src/Governance/Reports.antt =====
-- What the reports on votes say in a valid state.
use swap_trade_backend.Common.{
  Number, ℕ, suc, ◌+◌, ◌&&◌, ◌≡◌, refl, ◌==◌, ltb, false, inl, inr, none, List, [], ◌∷◌, length,
  All, Map, lookup, insert, lookup-insert, nat_key, arith, Bool-cases, subst,
}
use swap_trade_backend.Governance.{GovernanceVote, Governance, votes_of}
use swap_trade_backend.Governance.Invariant.{IsValid, IsOnce}
use swap_trade_backend.Governance.Integrity.{
  replay_attack, double_voting, Issue, group, repeated, voter_key, replay_key,
  validate_vote_integrity,
}

module _ {F : Type 0} ⦃num : Number F⦄ where
  -- The votes are by different users.
  abbrev IsSingle : List (GovernanceVote F) → Type 0
  IsSingle [] = Unit
  IsSingle (v ∷ vs) = All (λ w. w.voter_user_id == v.voter_user_id ≡ false) vs × IsSingle vs

  others :
      (id user : ℕ) (vs : List (GovernanceVote F))
      → All (λ w. w.proposal_id == id && (w.voter_user_id == user) ≡ false) vs
      → All (λ w. w.voter_user_id == user ≡ false) (votes_of id vs)
  others id user [] a = tt
  others id user (v ∷ vs) a = ground (arith, others id user vs a.1)

  IsOnce-IsSingle : (id : ℕ) (vs : List (GovernanceVote F)) → IsOnce vs → IsSingle (votes_of id vs)
  IsOnce-IsSingle id [] o = tt
  IsOnce-IsSingle id (v ∷ vs) o = elim (Bool-cases (v.proposal_id == id)) [
    | inl e ↦
        let same : v.proposal_id ≡ id = ground arith in
        rw e (
          others id v.voter_user_id vs (
              subst
                (λ x.
                  All (λ w. w.proposal_id == x && (w.voter_user_id == v.voter_user_id) ≡ false) vs)
                same o.0),
          IsOnce-IsSingle id vs o.1,
        )
    | inr e ↦ rw e (IsOnce-IsSingle id vs o.1)
  ]

  -- What a map of groups without a repetition looks like.
  abbrev AllOne : Map ℕ (List (GovernanceVote F)) → Type 0
  AllOne = All λ e. ltb 1 (length e.1) ≡ false

  insert_new :
      (k : ℕ) (v : GovernanceVote F) (m : Map ℕ (List (GovernanceVote F)))
      → lookup k m ≡ none
      → AllOne m
      → AllOne (insert k (v ∷ []) m) × (length (insert k (v ∷ []) m) ≡ suc (length m))
  insert_new k v [] e a = ((refl, tt), refl)
  insert_new k v ((j, w) ∷ m) e a = ground (arith, insert_new k v m)

  still_new :
      (vs : List (GovernanceVote F)) (m : Map ℕ (List (GovernanceVote F))) (v : GovernanceVote F)
      → All (λ w. w.voter_user_id == v.voter_user_id ≡ false) vs
      → All (λ w. lookup w.voter_user_id m ≡ none) vs
      → All (λ w. lookup w.voter_user_id (insert v.voter_user_id (v ∷ []) m) ≡ none) vs
  still_new [] m v a f = tt
  still_new (w ∷ vs) m v a f = (
    rw (lookup-insert w.voter_user_id v.voter_user_id (v ∷ []) m, a.0) f.0,
    still_new vs m v a.1 f.1,
  )

  group_single :
      (vs : List (GovernanceVote F)) (m : Map ℕ (List (GovernanceVote F)))
      → IsSingle vs
      → All (λ v. lookup v.voter_user_id m ≡ none) vs
      → AllOne m
      → AllOne (group voter_key m vs) × (length (group voter_key m vs) ≡ length m + length vs)
  unfolding group
  group_single [] m s f a = (a, omega arith)
  group_single (v ∷ vs) m s f a =
      let (b, c) = insert_new v.voter_user_id v m f.0 a in
      let (d, e) =
        group_single vs (insert v.voter_user_id (v ∷ []) m) s.1 (still_new vs m v s.0 f.1) b in
      rw (f.0, group) (d, omega arith)

  no_repeats :
      (issue : ℕ → List ℕ → Issue) (m : Map ℕ (List (GovernanceVote F)))
      → AllOne m
      → repeated issue m ≡ []
  unfolding repeated
  no_repeats issue [] a = refl
  no_repeats issue ((k, vs) ∷ m) a = rw (a.0, no_repeats issue m a.1) refl

  abbrev no_groups : Map ℕ (List (GovernanceVote F))
  no_groups = []

  ungrouped : (vs : List (GovernanceVote F)) → All (λ v. lookup v.voter_user_id no_groups ≡ none) vs
  ungrouped [] = tt
  ungrouped (v ∷ vs) = (refl, ungrouped vs)

  -- In a valid state the integrity report counts as many voters as votes, and its issues are those
  -- of repeated idempotency keys alone: it never reports a double vote.
  pub validate_vote_integrity-IsValid :
      (id : ℕ) (g : Governance F)
      → IsValid g
      → let report = validate_vote_integrity id g in
        (report.unique_voters ≡ report.total_votes)
        × (report.issues ≡ repeated replay_attack (group replay_key [] (votes_of id g.votes)))
  unfolding validate_vote_integrity
  validate_vote_integrity-IsValid id g v =
      let vs = votes_of id g.votes in
      let (one, count) = group_single vs [] (IsOnce-IsSingle id g.votes v.once) (ungrouped vs) tt in
      (omega arith, rw (no_repeats double_voting (group voter_key [] vs) one) refl)
