-- ===== src/Client/Operations/Pool.antt =====
-- The requests of the methods in blockchain/bl_pool.go.
use go_fula.Prelude.{true, some}
use go_fula.Access.Actions.{Action}
use go_fula.Access.Proxy.{get}
use go_fula.Client.{Operation, operation}

abbrev pub pool_create : Operation
pool_create = operation get Action.pool_create (some 202) true

abbrev pub pool_join : Operation
pool_join = operation get Action.pool_join (some 202) true

abbrev pub pool_cancel_join : Operation
pool_cancel_join = operation get Action.pool_cancel_join (some 202) true

abbrev pub pool_requests : Operation
pool_requests = operation get Action.pool_requests (some 202) true

abbrev pub pool_list : Operation
pool_list = operation get Action.pool_list (some 202) true

abbrev pub replicate_in_pool : Operation
replicate_in_pool = operation get Action.replicate_in_pool (some 202) true

abbrev pub pool_user_list : Operation
pool_user_list = operation get Action.pool_user_list (some 202) true

abbrev pub pool_vote : Operation
pool_vote = operation get Action.pool_vote (some 202) true

abbrev pub pool_leave : Operation
pool_leave = operation get Action.pool_leave (some 202) true
