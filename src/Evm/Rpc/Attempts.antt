-- ===== src/Evm/Rpc/Attempts.antt =====
-- How often the network is asked, and where an answer comes from.
use go_fula.Prelude.{
  ℕ, zero, suc, ◌+◌, ◌*◌, ◌≤◌, ◌<◌, ◌≡◌, refl, ◌∙◌, ◌⊎◌, inl, inr, String, Bool, true, false, some,
  ◌==◌, arith, Bool-cases, Option-cases,
}
use go_fula.Evm.Hex.{Text}
use go_fula.Evm.Rpc.{
  ChainConfig, chain_config, Post, failed, unreadable, answered, Network, Outcome, responded,
  failure, read_post, after_primary, call_configured, call_evm_chain, after_attempt,
  call_with_retry,
}

-- An answer of one of the chain's endpoints, at a tick from `t` up to `t'`.
pub record Genuine (net : Network) (chain : String) (call_data : Text) (t t' : ℕ) (body : String)
    (code : ℕ) : Type 0 where
  pub config : ChainConfig
  pub tick : ℕ
  pub url : String
  pub supported : chain_config chain ≡ some config
  pub endpoint : (url ≡ config.rpc) ⊎ (url ≡ config.backup_rpc)
  pub late_enough : t ≤ tick
  pub early_enough : tick < t'
  pub answer : net.post tick url config.contract call_data ≡ answered body code

module _ (net : Network) (chain : String) (call_data : Text) where
  read_post_answered :
      (p : Post) {body : String} {code : ℕ}
      → read_post p ≡ responded body code
      → p ≡ answered body code
  unfolding read_post
  read_post_answered p h = ground arith

  primary-Genuine :
      (t : ℕ) (c : ChainConfig) (p : Post) {body : String} {code : ℕ}
      → chain_config chain ≡ some c
      → net.post t c.rpc c.contract call_data ≡ p
      → (after_primary net t c call_data p).0 ≡ responded body code
      → Genuine net chain call_data t (after_primary net t c call_data p).1 body code
  unfolding after_primary
  primary-Genuine t c failed e q h = elim (Bool-cases (c.backup_rpc == "")) [
    | inl none_set ↦ absurd (cc (rw none_set at h))
    | inr set ↦ rw set (record {
      config = c;
      tick = t + 1;
      url = c.backup_rpc;
      supported = e;
      endpoint = inr refl;
      late_enough = omega arith;
      early_enough = omega arith;
      answer = read_post_answered _ (rw set at h);
    })
  ]
  primary-Genuine t c (unreadable x) e q h = cc
  primary-Genuine t c (answered b x) {body} {code} e q h = record {
    config = c;
    tick = t;
    url = c.rpc;
    supported = e;
    endpoint = inl refl;
    late_enough = omega arith;
    early_enough = omega arith;
    answer = q ∙ read_post_answered (answered b x) h;
  }

  call-Genuine :
      (t : ℕ) {body : String} {code : ℕ}
      → (call_evm_chain net t chain call_data).0 ≡ responded body code
      → Genuine net chain call_data t (call_evm_chain net t chain call_data).1 body code
  unfolding call_evm_chain
  call-Genuine t h = elim (Option-cases (chain_config chain)) [
    | inl missing ↦ absurd (cc (rw (missing, call_configured) at h))
    | inr (c, e) ↦
        rw (e, call_configured) (primary-Genuine t c _ e refl (rw (e, call_configured) at h))
  ]

  pub call_ticks :
      (t : ℕ)
      → (t ≤ (call_evm_chain net t chain call_data).1)
        × ((call_evm_chain net t chain call_data).1 ≤ t + 2)
  unfolding call_evm_chain
  call_ticks t = ground arith

  -- With n attempts the loop ends after at most 2 n requests to the endpoints.
  pub call_with_retry_ticks :
      (n t : ℕ)
      → (t ≤ (call_with_retry net n t chain call_data).1)
        × ((call_with_retry net n t chain call_data).1 ≤ t + 2 * n)
  unfolding call_with_retry
  call_with_retry_ticks zero t = (omega arith, omega arith)
  call_with_retry_ticks (suc n) t =
      let (outcome, t') = call_evm_chain net t chain call_data in
      ground (arith, call_ticks t, call_with_retry_ticks n t')

  later-Genuine :
      {t t' t'' : ℕ} {body : String} {code : ℕ}
      → t ≤ t'
      → Genuine net chain call_data t' t'' body code
      → Genuine net chain call_data t t'' body code
  later-Genuine h g = record {
    config = g.config;
    tick = g.tick;
    url = g.url;
    supported = g.supported;
    endpoint = g.endpoint;
    late_enough = omega arith;
    early_enough = g.early_enough;
    answer = g.answer;
  }

  attempt-Genuine :
      (t t' : ℕ) (o : Outcome) (stop : Bool) (rest : Outcome × ℕ) {body : String} {code : ℕ}
      → (o ≡ responded body code → Genuine net chain call_data t t' body code)
      → (rest.0 ≡ responded body code → Genuine net chain call_data t rest.1 body code)
      → (after_attempt net o t' stop rest).0 ≡ responded body code
      → Genuine net chain call_data t (after_attempt net o t' stop rest).1 body code
  unfolding after_attempt
  attempt-Genuine t t' (responded b c) stop rest now later h = now h
  attempt-Genuine t t' failure true rest now later h = cc
  attempt-Genuine t t' failure false rest now later h = later h

  -- A result of the retry loop is the body and the status that one of the chain's own endpoints
  -- answered to these call data, during the loop.
  pub call_with_retry-Genuine :
      (n t : ℕ) {body : String} {code : ℕ}
      → (call_with_retry net n t chain call_data).0 ≡ responded body code
      → Genuine net chain call_data t (call_with_retry net n t chain call_data).1 body code
  unfolding call_with_retry
  call_with_retry-Genuine zero t h = cc
  call_with_retry-Genuine (suc n) t h =
      let (outcome, t') = call_evm_chain net t chain call_data in
      attempt-Genuine t t' outcome _ _ (call-Genuine t)
        (λ later. later-Genuine (call_ticks t).0 (call_with_retry-Genuine n t' later)) h
