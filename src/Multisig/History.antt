-- ===== src/Multisig/History.antt =====
-- Any history of calls: nothing is released without its approvals.
use swap_trade_backend.Common.{
  ℕ, ◌≡◌, ◌==◌, true, false, ◌&&◌, List, [], ◌∷◌, Map, nat_key, codes_same, All, arith, Bool-cases,
  inl, inr, Throws, ok, err,
}
use swap_trade_backend.Multisig.{
  MultiSigWallet, MultiSigApproval, Custody, Outside, MultisigError, CreateMultiSigWalletDto,
  RegisterHardwareWalletDto, CreateEscrowDto, SubmitApprovalDto, includes, create_wallet,
  register_hardware_wallet, create_escrow,
}
use swap_trade_backend.Multisig.Approval.{approvals_of, submit_approval, execute_escrow}
use swap_trade_backend.Multisig.Invariant.{IsValid, IsOncePerSigner}
use swap_trade_backend.Multisig.Wallets.{
  Keeps, create_wallet-Keeps, register_hardware_wallet-Keeps, create_escrow-Keeps,
}
use swap_trade_backend.Multisig.Escrows.{submit_approval-IsValid, execute_escrow-Keeps}

pub data CustodyCall : Type 0 where
  creates_wallet : CreateMultiSigWalletDto → CustodyCall
  registers : ℕ → RegisterHardwareWalletDto → CustodyCall
  creates_escrow : CreateEscrowDto → CustodyCall
  submits : ℕ → SubmitApprovalDto → CustodyCall
  executes_escrow : ℕ → CustodyCall

abbrev left_by : {A : Type 0} → Custody → Throws MultisigError (A × Custody) → Custody
left_by c (ok (_, d)) = d
left_by c (err e) = c

abbrev pub step_custody : Outside → Custody → ℕ × CustodyCall → Custody
step_custody out c (now, creates_wallet dto) = left_by c (create_wallet out now dto c)
step_custody out c (now, registers id dto) = left_by c (register_hardware_wallet out now id dto c)
step_custody out c (now, creates_escrow dto) = left_by c (create_escrow out now dto c)
step_custody out c (now, submits id dto) = (submit_approval out now id dto c).1
step_custody out c (now, executes_escrow id) = left_by c (execute_escrow out now id c)

abbrev pub run_custody : Outside → Custody → List (ℕ × CustodyCall) → Custody
run_custody out c [] = c
run_custody out c (x ∷ xs) = run_custody out (step_custody out c x) xs

left_by-IsValid :
    {A : Type 0} (c : Custody) (r : Throws MultisigError (A × Custody))
    → IsValid c
    → Keeps r
    → IsValid (left_by c r)
left_by-IsValid c (ok (a, d)) v k = k
left_by-IsValid c (err e) v k = v

step_custody-IsValid :
    (out : Outside) (c : Custody) (x : ℕ × CustodyCall) → IsValid c → IsValid (step_custody out c x)
step_custody-IsValid out c (now, creates_wallet dto) v =
    left_by-IsValid c _ v (create_wallet-Keeps out now dto c v)
step_custody-IsValid out c (now, registers id dto) v =
    left_by-IsValid c _ v (register_hardware_wallet-Keeps out now id dto c v)
step_custody-IsValid out c (now, creates_escrow dto) v =
    left_by-IsValid c _ v (create_escrow-Keeps out now dto c v)
step_custody-IsValid out c (now, submits id dto) v = submit_approval-IsValid out now id dto c v
step_custody-IsValid out c (now, executes_escrow id) v =
    left_by-IsValid c _ v (execute_escrow-Keeps out now id c v)

pub run_custody-IsValid :
    (out : Outside) (c : Custody) (xs : List (ℕ × CustodyCall))
    → IsValid c
    → IsValid (run_custody out c xs)
run_custody-IsValid out c [] v = v
run_custody-IsValid out c (x ∷ xs) v =
    run_custody-IsValid out (step_custody out c x) xs (step_custody-IsValid out c x v)

-- The trades are those of another service.
abbrev pub no_custody : Map ℕ ℕ → Custody
no_custody trades = record {
  wallets = [];
  escrows = [];
  approvals = [];
  trades = trades;
  audit = [];
  next_id = 0;
}

pub no_custody-IsValid : (trades : Map ℕ ℕ) → IsValid (no_custody trades)
no_custody-IsValid trades = record {
  once = tt;
  authorized = tt;
  wallets_numbered = λ id w h. cc;
  escrows_backed = λ id e h. cc;
}

-- The approvals of one escrow are by different signers.
abbrev pub IsBySigners : List MultiSigApproval → Type 0
IsBySigners [] = Unit
IsBySigners (a ∷ rest) =
    All (λ b. codes_same b.signer_address a.signer_address ≡ false) rest × IsBySigners rest

other_signers :
    (id : ℕ) (a : MultiSigApproval) (rest : List MultiSigApproval)
    → a.escrow_id == id ≡ true
    → All
        (λ b. b.escrow_id == a.escrow_id && codes_same b.signer_address a.signer_address ≡ false)
        rest
    → All (λ b. codes_same b.signer_address a.signer_address ≡ false) (approvals_of id rest)
other_signers id a [] e h = tt
other_signers id a (b ∷ rest) e h = ground (arith, other_signers id a rest e h.1, h.0)

pub IsOncePerSigner-IsBySigners :
    (id : ℕ) (approvals : List MultiSigApproval)
    → IsOncePerSigner approvals
    → IsBySigners (approvals_of id approvals)
IsOncePerSigner-IsBySigners id [] o = tt
IsOncePerSigner-IsBySigners id (a ∷ rest) o = elim (Bool-cases (a.escrow_id == id)) [
  | inl e ↦ rw e (other_signers id a rest e o.0, IsOncePerSigner-IsBySigners id rest o.1)
  | inr e ↦ rw e (IsOncePerSigner-IsBySigners id rest o.1)
]

-- The signer is one of the wallet.
abbrev pub IsSignedFor : MultiSigWallet → MultiSigApproval → Type 0
IsSignedFor w a = includes a.signer_address w.signers ≡ true
