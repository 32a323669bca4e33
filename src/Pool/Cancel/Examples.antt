-- ===== src/Pool/Cancel/Examples.antt =====
-- Concrete cancellations of a join.
use go_fula.Prelude.{true, false, some, [], leb, ◌≡◌, refl, ◌==◌, if◌then◌else◌}
use go_fula.Pool.{pos}
use go_fula.Pool.Cancel.{
  Chain, unsent, came, replied, panicked, handle_pool_cancel_join, has_open_request,
}
use go_fula.Pool.Cancel.Ended.{Ended, handle_pool_cancel_join-Ended}
use go_fula.Pool.Examples.{env, in_pool, world}

-- A chain that cannot be called to cancel, and knows no users.
abbrev no_users : Chain
no_users = record {
  send = λ t action pool_id. if action == "fula-pool-users" then came "users" 200 else unsent;
  is_object = λ body. true;
  parse_users = λ body. some [];
  self = "device";
  shutdown_fails = λ t. false;
  valid_status = λ s. leb 100 s;
}

-- A chain that cannot be called.
abbrev silent : Chain
silent = record no_users { send = λ t action pool_id. unsent }

cancels : (handle_pool_cancel_join no_users env (some (pos 1)) world).0 ≡ replied 202
unfolding handle_pool_cancel_join has_open_request
cancels = refl

-- The handler panics on the status 0.
silent_panics : (handle_pool_cancel_join silent env (some (pos 1)) world).0 ≡ panicked
unfolding handle_pool_cancel_join has_open_request
silent_panics = refl

-- The members of the pool stay after a cancellation that is accepted.
members_stay : (handle_pool_cancel_join no_users env (some (pos 1)) world).1.members ≡ 3
unfolding handle_pool_cancel_join has_open_request
members_stay = refl

handle_pool_cancel_join-Ended_example :
    Ended no_users env (pos 1) world (handle_pool_cancel_join no_users env (some (pos 1)) world).1
handle_pool_cancel_join-Ended_example =
    handle_pool_cancel_join-Ended no_users env (pos 1) in_pool world refl cancels
