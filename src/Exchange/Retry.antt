-- ===== src/Exchange/Retry.antt =====
-- `retryWithBackoff` and `pushOneNode` of exchange/fx_exchange.go. Times are in nanoseconds.
pub mod Attempts
use go_fula.Prelude.{
  ℕ, zero, suc, ◌+◌, ◌*◌, ◌^◌, Bool, true, false, Option, none, some, if◌then◌else◌,
}

pub data Outcome : Type 0 where
  succeeded cancelled gave_up : Outcome

-- The calls of fn that were made, and the time that was waited.
pub record Run : Type 0 where
  pub outcome : Outcome
  pub calls : ℕ
  pub waited : ℕ

unfoldable pub max_retries : ℕ
max_retries = 5

unfoldable pub delay : ℕ → ℕ
delay attempt = 1000000000 * (2 ^ attempt)

unfoldable pub after_wait : ℕ → Option ℕ → Run → Run
after_wait wait none rest = record {
  outcome = rest.outcome;
  calls = 1 + rest.calls;
  waited = wait + rest.waited;
}
after_wait wait (some at) rest = record { outcome = cancelled; calls = 1; waited = at }

-- Whether fn succeeds at an attempt, the random part of the wait, and the time after which the
-- context is done, if that ends the wait.
module _ (fn : ℕ → Bool) (jitter : ℕ → ℕ) (done : ℕ → Option ℕ) where
  -- The loop from an attempt on, with the number of attempts that are left.
  unfoldable pub retry_from : ℕ → ℕ → Run
  unfolding delay after_wait
  retry_from zero attempt = record { outcome = gave_up; calls = 0; waited = 0 }
  retry_from (suc left) attempt =
      let rest = retry_from left (suc attempt) in
      if fn attempt
      then record { outcome = succeeded; calls = 1; waited = 0 }
      else after_wait (delay attempt + jitter attempt) (done attempt) rest

  unfoldable pub retry_with_backoff : Run
  unfolding retry_from max_retries
  retry_with_backoff = retry_from max_retries 0

-- What the circuit breaker says of a request.
pub data Executed : Type 0 where
  done_ok open_state request_failed : Executed

unfoldable pub is_done : Executed → Bool
is_done done_ok = true
is_done _ = false

pub data Pushed : Type 0 where
  pushed not_prepared circuit_open : Pushed
  retried : Run → Pushed

unfoldable pub after_first : Executed → Run → Pushed
after_first done_ok retries = pushed
after_first open_state retries = circuit_open
after_first request_failed retries = retried retries

-- `prepared` is whether the node is encoded and the request made; `execute` is the circuit breaker
-- at the requests in their order.
unfoldable pub push_one_node : Bool → (ℕ → Executed) → (ℕ → ℕ) → (ℕ → Option ℕ) → Pushed
unfolding after_first retry_with_backoff is_done
push_one_node false execute jitter done = not_prepared
push_one_node true execute jitter done =
    after_first (execute 0) (retry_with_backoff (λ i. is_done (execute (suc i))) jitter done)

-- The requests that were made.
unfoldable pub requests : Pushed → ℕ
requests pushed = 1
requests not_prepared = 0
requests circuit_open = 1
requests (retried r) = 1 + r.calls
