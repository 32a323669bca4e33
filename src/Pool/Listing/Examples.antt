-- ===== src/Pool/Listing/Examples.antt =====
-- A concrete list.
use go_fula.Prelude.{◌≡◌, refl, true, false, some, if◌then◌else◌, ltb, arith}
use go_fula.Evm.Rpc.{chain_config, Network, Post, rpc_result}
use go_fula.Pool.Listing.{handle_evm_pool_list}
use go_fula.Pool.Listing.Ends.{returned, handle_evm_pool_list-returned}
use go_fula.Pool.Listing.Bound.{Bounded, handle_evm_pool_list-Bounded}
use go_fula.Pool.Examples.{pool_network, zeros}

handle_evm_pool_list-Bounded_test :
    Bounded "skale" (handle_evm_pool_list pool_network (λ w. 0) "skale" 3 0)
handle_evm_pool_list-Bounded_test =
    handle_evm_pool_list-Bounded pool_network (λ w. 0) "skale" 3 0 (omega arith)

-- A network that gives the pool 0 at every index, until the context ends at tick 5.
abbrev short_network : Network
short_network = record {
  post = λ t url contract call_data. if ltb t 5 then Post.answered "zeros" 200 else Post.failed;
  done = λ t. false;
  parse_rpc = λ body. some (rpc_result zeros);
}

handle_evm_pool_list-returned_example :
    returned (handle_evm_pool_list short_network (λ w. 0) "skale" 6 0) ≡ true
unfolding chain_config
handle_evm_pool_list-returned_example =
    handle_evm_pool_list-returned short_network (λ w. 0) "skale" _ refl 5
      (λ t url contract call_data late. ground arith) 6 0 (omega arith) (omega arith)
