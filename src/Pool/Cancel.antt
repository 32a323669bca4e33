-- ===== src/Pool/Cancel.antt =====
-- blockchain/bl_pool.go: HandlePoolCancelJoin; blockchain/blockchain.go: callBlockchain and
-- checkIfUserHasOpenPoolRequests. A reply is its status, or a panic of the handler: WriteHeader
-- panics on a status that is not valid, and so does the text of an error that is nil.
pub mod Ended
mod Examples
use go_fula.Prelude.{
  ℕ, String, Bool, true, false, ◌||◌, ◌&&◌, not, Option, none, some, List, [], ◌∷◌, ◌==◌, eqb, ltb,
  if◌then◌else◌,
}
use go_fula.Evm.Hex.{Text, codes}
use go_fula.Evm.Abi.{text_eq}
use go_fula.Pool.{World, Env, ℤ, pos, negsuc, itoa}
use go_fula.Pool.Settings.{update_pool_name, update_chain_name, clean_leave_join_pool, later}

pub record User : Type 0 where
  pub pool_id : Option ℤ
  pub request_pool_id : Option ℤ
  pub peer_id : String

-- What the HTTP client makes of a request: no response, a response whose body breaks off, or a body
-- with a status.
pub data Sent : Type 0 where
  unsent : Sent
  broken_off : ℕ → Sent
  came : String → ℕ → Sent

-- The requests to the node's own chain at each tick, json, the device's own id, whether the ping
-- server reports an error when it is shut down, and the status codes that net/http takes.
pub record Chain : Type 0 where
  pub send : ℕ → String → ℤ → Sent
  pub is_object : String → Bool
  pub parse_users : String → Option (List User)
  pub self : String
  pub shutdown_fails : ℕ → Bool
  pub valid_status : ℕ → Bool

-- What callBlockchain returns: an error or a body, with the status.
pub data CallResult : Type 0 where
  failed : ℕ → CallResult
  returned : String → ℕ → CallResult

pub data CancelReply : Type 0 where
  bad_request : CancelReply
  replied : ℕ → CancelReply
  panicked : CancelReply

-- callBlockchain, behind the health check that never fails.
unfoldable pub call_result : Sent → CallResult
call_result unsent = failed 0
call_result (broken_off s) = failed s
call_result (came body s) = returned body s

unfoldable pub requests : ℤ → Option ℤ → Bool
unfolding text_eq
requests pool_id none = false
requests pool_id (some p) = text_eq (itoa p) (itoa pool_id)

-- The first user with the device's id decides.
unfoldable pub has_request : String → ℤ → List User → Bool
unfolding requests
has_request self pool_id [] = false
has_request self pool_id (u ∷ us) =
    let rest = has_request self pool_id us in
    if u.peer_id == self then requests pool_id u.request_pool_id else rest

unfoldable pub positive : ℤ → Bool
positive (pos n) = ltb 0 n
positive (negsuc n) = false

unfoldable pub accepted_status : ℕ → ℕ
accepted_status s = if eqb s 200 then 202 else s

module _ (c : Chain) where
  -- http.ResponseWriter.WriteHeader
  unfoldable pub write_header : ℕ → CancelReply
  write_header s = if c.valid_status s then replied s else panicked

  -- The error of an answer that is not an object is shown with err.Error().
  unfoldable pub without_error : Bool → ℕ → CancelReply
  unfolding write_header
  without_error true s = write_header s
  without_error false s = panicked

  unfoldable pub users_answer : ℤ → Option (List User) → Option Bool
  unfolding has_request
  users_answer pool_id none = none
  users_answer pool_id (some us) = some (has_request c.self pool_id us)

  unfoldable pub open_answer : ℤ → CallResult → Option Bool
  unfolding users_answer
  open_answer pool_id (failed s) = none
  open_answer pool_id (returned body s) =
      if eqb s 200 then users_answer pool_id (c.parse_users body) else none

  -- checkIfUserHasOpenPoolRequests; `none` is an error. The topic is the decimal of the pool.
  unfoldable pub has_open_request : ℕ → ℤ → Option Bool
  unfolding open_answer call_result positive
  has_open_request t pool_id =
      if positive pool_id
      then open_answer pool_id (call_result (c.send t "fula-pool-users" pool_id))
      else none

  module _ (env : Env) where
    -- The clean-up where the chain could not be called; the error of the call is still set, so that
    -- the handler returns before cleanLeaveJoinPool.
    unfoldable pub clean_up : World → CancelReply × World
    unfolding update_pool_name update_chain_name
    clean_up w =
        let (pool_ok, w₁) = update_pool_name env (codes "0") w in
        let (chain_ok, w₂) = update_chain_name env "" w₁ in
        let stopped = record w₂ { ping_on = false } in
        if pool_ok && (chain_ok && not (c.shutdown_fails w₂.tick))
        then (replied 202, stopped)
        else (replied 417, stopped)

    unfoldable pub not_cancelled : ℕ → Option Bool → World → CancelReply × World
    unfolding clean_up write_header accepted_status
    not_cancelled s (some false) w = clean_up w
    not_cancelled s _ w = (write_header (accepted_status s), w)

    unfoldable pub after_call : ℤ → CallResult → World → CancelReply × World
    unfolding not_cancelled has_open_request later accepted_status without_error
        clean_leave_join_pool
    after_call pool_id (failed s) w = not_cancelled s (has_open_request w.tick pool_id) (later w)
    after_call pool_id (returned body s) w =
        if eqb (accepted_status s) 202
        then (replied 202, clean_leave_join_pool env w)
        else (without_error (c.is_object body) s, w)

    -- `none` is a body that cannot be parsed.
    unfoldable pub handle_pool_cancel_join : Option ℤ → World → CancelReply × World
    unfolding after_call call_result later
    handle_pool_cancel_join none w = (bad_request, w)
    handle_pool_cancel_join (some pool_id) w =
        after_call pool_id (call_result (c.send w.tick "fula-pool-cancel_join" pool_id)) (later w)
