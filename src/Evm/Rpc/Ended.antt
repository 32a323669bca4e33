-- ===== src/Evm/Rpc/Ended.antt =====
-- The calls when the context has ended, and the ticks that they take.
use go_fula.Prelude.{
  ℕ, zero, suc, ◌+◌, ◌≤◌, String, ◌≡◌, refl, Bool, true, false, Option, none, some, ◌==◌, arith,
  Bool-cases, inl, inr,
}
use go_fula.Evm.Hex.{Text}
use go_fula.Evm.Rpc.{
  ChainConfig, chain_config, Network, Post, Outcome, responded, failure, read_post, after_primary,
  call_configured, call_evm_chain, after_attempt, call_with_retry,
}
use go_fula.Evm.Rpc.Attempts.{call_ticks, call_with_retry_ticks}

-- From this tick on the HTTP client returns an error.
abbrev pub Ended : Network → ℕ → Type 0
Ended net end =
    (t : ℕ) (url contract : String) (call_data : Text)
    → end ≤ t
    → net.post t url contract call_data ≡ Post.failed

module _ (net : Network) (chain : String) (call_data : Text) where
  asks :
      (c : ChainConfig) (t : ℕ)
      → chain_config chain ≡ some c
      → suc t ≤ (call_evm_chain net t chain call_data).1
  unfolding call_evm_chain call_configured after_primary
  asks c t known = rw known (ground arith)

  attempt_asks :
      (t : ℕ) (o : Outcome) (t' : ℕ) (stop : Bool) (rest : Outcome × ℕ)
      → suc t ≤ t'
      → t' ≤ rest.1
      → suc t ≤ (after_attempt net o t' stop rest).1
  unfolding after_attempt
  attempt_asks t (responded b c) t' stop rest h k = h
  attempt_asks t failure t' true rest h k = h
  attempt_asks t failure t' false rest h k = omega arith

  -- A call to a chain that is supported takes a tick.
  pub retry_asks :
      (n : ℕ) (c : ChainConfig) (t : ℕ)
      → chain_config chain ≡ some c
      → suc t ≤ (call_with_retry net (suc n) t chain call_data).1
  unfolding call_with_retry
  retry_asks n c t known =
      let (o, t') = call_evm_chain net t chain call_data in
      attempt_asks t o t' _ _ (asks c t known) (call_with_retry_ticks net chain call_data n t').0

  module _ (end : ℕ) (ended : Ended net end) where
    ended_configured :
        (t : ℕ) (o : Option ChainConfig) → end ≤ t → (call_configured net t call_data o).0 ≡ failure
    unfolding call_configured after_primary read_post
    ended_configured t none late = refl
    ended_configured t (some c) late =
        rw (ended t c.rpc c.contract call_data late) (elim (Bool-cases (c.backup_rpc == "")) [
          | inl e ↦ rw e refl
          | inr e ↦ rw e (rw (ended (t + 1) c.backup_rpc c.contract call_data (omega arith)) refl)
        ])

    attempt_ended :
        (o : Outcome) (t : ℕ) (stop : Bool) (rest : Outcome × ℕ)
        → o ≡ failure
        → rest.0 ≡ failure
        → (after_attempt net o t stop rest).0 ≡ failure
    unfolding after_attempt
    attempt_ended (responded b c) t stop rest h k = absurd (cc)
    attempt_ended failure t true rest h k = refl
    attempt_ended failure t false rest h k = k

    -- After the end of the context a call fails.
    pub retry_ended : (n t : ℕ) → end ≤ t → (call_with_retry net n t chain call_data).0 ≡ failure
    unfolding call_with_retry call_evm_chain
    retry_ended zero t late = refl
    retry_ended (suc n) t late =
        let (o, t') = call_evm_chain net t chain call_data in
        attempt_ended o t' _ _ (ended_configured t (chain_config chain) late)
          (retry_ended n t' (omega (arith, call_ticks net chain call_data t)))
