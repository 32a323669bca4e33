-- ===== src/Pool/Join/Examples.antt =====
-- A concrete join.
use go_fula.Prelude.{◌≡◌, refl, some, arith}
use go_fula.Evm.Rpc.{call_with_retry, call_evm_chain, chain_config, result_of}
use go_fula.Pool.{Env, holds, pos, itoa}
use go_fula.Pool.Status.{validate_pool_on_chain}
use go_fula.Pool.Status.Discovered.{Exists}
use go_fula.Pool.Join.{JoinRequest, accepted_on, handle_pool_join}
use go_fula.Pool.Join.Joined.{member_of, handle_pool_join-joined}
use go_fula.Pool.Examples.{env, in_pool, world, pool_network, ones_valid}

abbrev pool_env : Env
pool_env = record env { net = pool_network }

abbrev join : JoinRequest
join = record { pool_id = pos 7; chain_name = "skale" }

joins : (handle_pool_join pool_env (some join) world).0 ≡ accepted_on "skale"
unfolding handle_pool_join validate_pool_on_chain call_with_retry call_evm_chain chain_config
    result_of itoa
joins = rw ones_valid refl

handle_pool_join-joined_example :
    Exists pool_network pool_env.big_int 7 "skale"
    × ((handle_pool_join pool_env (some join) world).1.file ≡ holds (member_of (pos 7) "skale"))
handle_pool_join-joined_example =
    handle_pool_join-joined pool_env join 7 "skale" in_pool world refl (omega arith) refl joins
