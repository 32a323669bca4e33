-- ===== src/Pool/Examples.antt =====
-- Concrete runs for the theorems on leaving a pool.
use go_fula.Prelude.{
  ℕ, ◌+◌, String, true, false, none, some, List, [], ◌∷◌, ◌++◌, ◌≡◌, refl, ◌⊎◌, arith, eqb, length,
}
use go_fula.Evm.Hex.{
  Text, codes, hex_fixed, hex_digit, hex_value, decode_hex, encode_hex, trim_0x, nonzero,
  parse_from, parse_uint,
}
use go_fula.Evm.Hex.Words.{length-hex_fixed}
use go_fula.Evm.Abi.{
  parse_contract_error, Membership, text_eq, decode_is_member, decode_join_status,
}
use go_fula.Evm.Rpc.{
  Network, answered, rpc_result, strict_eth_call, call_with_retry, call_evm_chain, chain_config,
  result_of,
}
use go_fula.Evm.PeerIds.{
  Multibase, peer_id_to_bytes32, bytes32_to_peer_id, digest_of, trim_z, with_z,
}
use go_fula.Pool.{Config, holds, World, Env, pos, itoa, to_uint32, parse_uint32}
use go_fula.Pool.Settings.{no_pool, later, get_pool_name, get_chain_name, clear_pool_config, is_key}
use go_fula.Pool.Settings.Cleared.{cleared, file_of, clear_pool_config-file}
use go_fula.Pool.Status.Discovered.{Exists, discover_pool_chain-Exists}
use go_fula.Evm.Abi.Decoded.{value}
use go_fula.Evm.Abi.Strings.{decode_pools, slots_of, decode_string}
use go_fula.Pool.Status.{
  valid_result, discover_pool_chain, first_valid, found_on, validate_pool_on_chain,
  cluster_peer_pool_status,
}
use go_fula.Pool.Leave.{LeaveRequest, handle_pool_leave}
use go_fula.Pool.Leave.Kept.{
  Untouched, Absent, accepted, handle_pool_leave-Untouched, handle_pool_leave-accepted,
}
use go_fula.Pool.Reconcile.{reconcile_pool_config}
use go_fula.Pool.Reconcile.Limited.{is_cleared}
use go_fula.Pool.Reconcile.Confirmed.{PoolKept, Grounds, reconcile_pool_config-Grounds}
use go_fula.Pool.Reconcile.Spaced.{Turn, clear_times, Ordered, Spaced, clear_times-Spaced}

-- Eight zero words behind "0x".
pub zeros : Text
unfolding hex_fixed
zeros = codes "0x" ++ hex_fixed 512 0

-- The chain answers every call with eight zero words: neither a member nor pending.
abbrev pub absent_network : Network
absent_network = record {
  post = λ t url contract call_data. answered "zeros" 200;
  done = λ t. false;
  parse_rpc = λ body. some (rpc_result zeros);
}

abbrev pub zero_key : Text
zero_key =
    0 ∷ 0 ∷ 0 ∷ 0 ∷ 0 ∷ 0 ∷ 0 ∷ 0 ∷ 0 ∷ 0 ∷ 0 ∷ 0 ∷ 0 ∷ 0 ∷ 0 ∷ 0 ∷ 0 ∷ 0 ∷ 0 ∷ 0 ∷ 0 ∷ 0 ∷ 0 ∷ 0
    ∷ 0 ∷ 0 ∷ 0 ∷ 0 ∷ 0 ∷ 0 ∷ 0 ∷ 0 ∷ []

-- One id, "zK", of the key with 32 zero bytes.
abbrev pub one_key : Multibase
one_key = record {
  decode = λ s. some (0x00 ∷ 0x24 ∷ 0x08 ∷ 0x01 ∷ 0x12 ∷ 0x20 ∷ zero_key);
  encode = λ bytes. some (codes "zK");
}

abbrev pub env : Env
env = record {
  net = absent_network;
  mb = one_key;
  cluster = some (codes "zK");
  pool_host = false;
  can_read = λ t. true;
  can_read_mark = λ t. true;
  can_remove = λ t. true;
  write_fails = λ t. none;
  confirm_fails = λ t. none;
  mark_fails = λ t. none;
  disabled = λ t. false;
  meanwhile = λ t config. config;
  big_int = λ word. 0;
  trim_space = λ s. s;
}

abbrev pub in_pool : Config
in_pool = record { pool_name = codes "1"; chain_name = "skale" }

abbrev pub world : World
world = record {
  tick = 0;
  app = in_pool;
  file = holds in_pool;
  confirmed = some (codes "skale:1");
  cleared_at = none;
  ping_on = true;
  fetching = true;
  members = 3;
  restarts = 0;
}

abbrev leave : LeaveRequest
leave = record { pool_id = pos 1; chain_name = "" }

clear_pool_config-file_test : file_of (clear_pool_config env world) ≡ holds cleared
unfolding clear_pool_config text_eq
clear_pool_config-file_test = clear_pool_config-file env in_pool world refl refl

handle_pool_leave-Untouched_example :
    Untouched world (handle_pool_leave env (some leave) world).1
    ⊎ ((chain : String) × Absent env (to_uint32 leave.pool_id) chain)
handle_pool_leave-Untouched_example = handle_pool_leave-Untouched env leave world

length-zeros : eqb (length (hex_fixed 512 0)) 512 ≡ true
length-zeros = rw (length-hex_fixed 512 0) refl

zeros_member : (m : Membership) × (decode_is_member zeros ≡ some m) × (m.is_member ≡ false)
unfolding zeros decode_is_member trim_0x nonzero hex_fixed hex_digit
zeros_member = (_, refl, refl)

zeros_status : decode_join_status zeros ≡ some 0
unfolding zeros decode_join_status parse_uint parse_from hex_value trim_0x hex_digit hex_fixed
zeros_status = refl

pub cluster_bytes :
    peer_id_to_bytes32 one_key (codes "zK") ≡ some (codes "0x" ++ encode_hex zero_key)
unfolding peer_id_to_bytes32 with_z digest_of encode_hex hex_digit text_eq bytes32_to_peer_id
    decode_hex trim_0x hex_value trim_z
cluster_bytes = refl

asked : (t : ℕ) (c : Text) → strict_eth_call absent_network t "skale" c ≡ (some zeros, t + 1)
unfolding strict_eth_call call_with_retry call_evm_chain chain_config result_of
asked t c = refl

absent_standing :
    (t pool_id : ℕ)
    → (cluster_peer_pool_status absent_network one_key (some (codes "zK")) t pool_id "skale")
      ≡ (some (record { member = false; pending = false }), t + 1 + 1)
unfolding cluster_peer_pool_status
absent_standing t pool_id =
    let (m, is, outside) = zeros_member in
    rw cluster_bytes (rw asked (rw asked (rw (is, zeros_status) (rw outside refl))))

leave-accepted : accepted (handle_pool_leave env (some leave) world).0 ≡ true
unfolding handle_pool_leave accepted no_pool text_eq get_pool_name itoa get_chain_name
    clear_pool_config
leave-accepted = rw absent_standing refl

handle_pool_leave-accepted_example :
    ((no_pool (get_pool_name env world).0 ≡ true)
      × Untouched world (handle_pool_leave env (some leave) world).1)
    ⊎ ((handle_pool_leave env (some leave) world).1.file ≡ holds cleared)
handle_pool_leave-accepted_example =
    handle_pool_leave-accepted env leave in_pool world refl leave-accepted

reconcile_clears : is_cleared (reconcile_pool_config env 5 6 world).0 ≡ true
unfolding reconcile_pool_config is_cleared get_pool_name get_chain_name parse_uint32 text_eq
    clear_pool_config is_key
reconcile_clears = rw (absent_standing) (rw absent_standing refl)

reconcile_pool_config-Grounds_example :
    ((is_cleared (reconcile_pool_config env 5 6 world).0 ≡ false)
      × PoolKept world (reconcile_pool_config env 5 6 world).1)
    ⊎ ((chain : String) × Grounds env world (get_pool_name env (later world)).0 chain)
reconcile_pool_config-Grounds_example = reconcile_pool_config-Grounds env world 5 6

-- Two passes, before each of which the device is in the pool, the second after the interval.
abbrev rejoin : World → World
rejoin w = record w { file = holds in_pool; confirmed = some (codes "skale:1") }

abbrev turns : List Turn
turns =
    (record { others = rejoin; started = 5; marked = 6 })
    ∷ (record { others = rejoin; started = 90000000000000; marked = 90000000000001 })
    ∷ []

clear_times-Spaced_example : Spaced (clear_times env turns world)
unfolding Ordered
clear_times-Spaced_example =
    clear_times-Spaced env (λ t. refl) turns 0 world
      (omega arith, omega arith, λ w. refl, (omega arith, omega arith, λ w. refl, tt))

-- A pool of nine words with the value one, and the chain that answers with it.
unfoldable pub one_word : Text
unfolding hex_fixed
one_word = hex_fixed 64 1

unfoldable pub ones : Text
unfolding one_word
ones =
    codes "0x"
    ++ (one_word ++ one_word ++ one_word ++ one_word ++ one_word ++ one_word ++ one_word ++ one_word
        ++ one_word)

abbrev pub pool_network : Network
pool_network = record {
  post = λ t url contract call_data. answered "ones" 200;
  done = λ t. false;
  parse_rpc = λ body. some (rpc_result ones);
}

pub ones_valid : valid_result pool_network (λ word. 0) (some ones) ≡ value true
unfolding valid_result ones parse_contract_error text_eq decode_pools slots_of decode_string trim_0x
    parse_uint parse_from hex_value decode_hex nonzero hex_digit
ones_valid = refl

found : (discover_pool_chain pool_network (λ word. 0) 0 7).0 ≡ value (some "skale")
unfolding discover_pool_chain first_valid found_on validate_pool_on_chain call_with_retry
    call_evm_chain chain_config result_of
found = rw ones_valid refl

discover_pool_chain-Exists_test : Exists pool_network (λ word. 0) 7 "skale"
discover_pool_chain-Exists_test =
    discover_pool_chain-Exists pool_network (λ word. 0) 7 0 "skale" found
