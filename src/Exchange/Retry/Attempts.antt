-- ===== src/Exchange/Retry/Attempts.antt =====
-- How often and how long a push is retried.
use go_fula.Prelude.{
  ℕ, zero, suc, ◌+◌, ◌≤◌, ◌<◌, Bool, true, false, Option, none, some, ◌≡◌, refl, arith, Bool-cases,
  inl, inr, subst,
}
use go_fula.Exchange.Retry.{
  succeeded, gave_up, Run, max_retries, delay, after_wait, retry_from, retry_with_backoff, Executed,
  done_ok, open_state, request_failed, after_first, push_one_node, requests, is_done,
}

module _ (fn : ℕ → Bool) (jitter : ℕ → ℕ) (done : ℕ → Option ℕ) where
  -- The wait of an attempt, if nothing ends it early.
  unfoldable total : ℕ → ℕ → ℕ
  unfolding delay
  total zero attempt = 0
  total (suc left) attempt = delay attempt + jitter attempt + total left (suc attempt)

  gave_up_wait :
      (wait : ℕ) (o : Option ℕ) (rest : Run)
      → (after_wait wait o rest).outcome ≡ gave_up
      → (rest.outcome ≡ gave_up)
        × ((after_wait wait o rest).calls ≡ 1 + rest.calls)
        × ((after_wait wait o rest).waited ≡ wait + rest.waited)
  unfolding after_wait
  gave_up_wait wait none rest h = (h, refl, refl)
  gave_up_wait wait (some at) rest h = absurd (cc)

  -- A run that gave up made every attempt, and waited for each.
  given_up :
      (left attempt : ℕ)
      → (retry_from fn jitter done left attempt).outcome ≡ gave_up
      → ((retry_from fn jitter done left attempt).calls ≡ left)
        × ((retry_from fn jitter done left attempt).waited ≡ total left attempt)
  unfolding retry_from total
  given_up zero attempt h = (refl, refl)
  given_up (suc left) attempt h = elim (Bool-cases (fn attempt)) [
    | inl e ↦ absurd (cc (rw e at h))
    | inr e ↦
        let rest = retry_from fn jitter done left (suc attempt) in
        let (up, counted, waited) =
          gave_up_wait (delay attempt + jitter attempt) (done attempt) rest (rw e at h) in
        let (all, time) = given_up left (suc attempt) up in
        rw e (omega (arith, counted, all), omega (arith, waited, time))
  ]

  wait_calls :
      (wait : ℕ) (o : Option ℕ) (rest : Run) → (after_wait wait o rest).calls ≤ 1 + rest.calls
  unfolding after_wait
  wait_calls wait none rest = omega arith
  wait_calls wait (some at) rest = omega arith

  pub calls_bound : (left attempt : ℕ) → (retry_from fn jitter done left attempt).calls ≤ left
  unfolding retry_from
  calls_bound zero attempt = omega arith
  calls_bound (suc left) attempt = elim (Bool-cases (fn attempt)) [
    | inl e ↦ rw e (omega arith)
    | inr e ↦
        let rest = retry_from fn jitter done left (suc attempt) in
        rw e (
          omega (
            arith,
            wait_calls (delay attempt + jitter attempt) (done attempt) rest,
            calls_bound left (suc attempt),
          ))
  ]

  succeeds :
      (left attempt i : ℕ)
      → i < left
      → fn (attempt + i) ≡ true
      → ((j : ℕ) → done j ≡ none)
      → (retry_from fn jitter done left attempt).outcome ≡ succeeded
  unfolding retry_from after_wait
  succeeds zero attempt i below ok going = absurd (omega arith)
  succeeds (suc left) attempt zero below ok going =
      let first : fn attempt ≡ true = subst (λ n. fn n ≡ true) (omega arith) ok in rw first refl
  succeeds (suc left) attempt (suc i) below ok going =
      let later : fn (suc attempt + i) ≡ true = subst (λ n. fn n ≡ true) (omega arith) ok in
      elim (Bool-cases (fn attempt)) [
        | inl e ↦ rw e refl
        | inr e ↦
            rw e (rw (going attempt) (succeeds left (suc attempt) i (omega arith) later going))
      ]

  -- A run that gives up made the five calls, and waited between 31 and 62 seconds; the random part
  -- of a wait is at most the wait itself.
  pub gave_up_times :
      (retry_with_backoff fn jitter done).outcome ≡ gave_up
      → ((i : ℕ) → jitter i ≤ delay i)
      → ((retry_with_backoff fn jitter done).calls ≡ 5)
        × (31000000000 ≤ (retry_with_backoff fn jitter done).waited)
        × ((retry_with_backoff fn jitter done).waited ≤ 62000000000)
  unfolding retry_with_backoff max_retries total delay
  gave_up_times h small =
      let (counted, waited) = given_up 5 0 h in
      (
        counted,
        omega (arith, waited),
        omega (arith, waited, small 0, small 1, small 2, small 3, small 4),
      )

  -- If the context is not done, a push that would succeed at one of five attempts does.
  pub retry_succeeds :
      (i : ℕ)
      → i < 5
      → fn i ≡ true
      → ((j : ℕ) → done j ≡ none)
      → (retry_with_backoff fn jitter done).outcome ≡ succeeded
  unfolding retry_with_backoff max_retries
  retry_succeeds i below ok going =
      succeeds 5 0 i below (subst (λ n. fn n ≡ true) (omega arith) ok) going

first_requests : (e : Executed) (r : Run) → r.calls ≤ 5 → requests (after_first e r) ≤ 6
unfolding requests after_first
first_requests done_ok r h = omega arith
first_requests open_state r h = omega arith
first_requests request_failed r h = omega arith

-- A node is sent at most six times.
pub push_one_node_requests :
    (prepared : Bool) (execute : ℕ → Executed) (jitter : ℕ → ℕ) (done : ℕ → Option ℕ)
    → requests (push_one_node prepared execute jitter done) ≤ 6
unfolding push_one_node requests retry_with_backoff max_retries
push_one_node_requests false execute jitter done = omega arith
push_one_node_requests true execute jitter done =
    first_requests (execute 0) _ (calls_bound (λ i. is_done (execute (suc i))) jitter done 5 0)
