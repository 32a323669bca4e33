-- ===== src/Pool/Creator/Found.antt =====
-- Where the id of a pool's creator comes from.
use go_fula.Prelude.{
  ℕ, String, ◌≡◌, ◌≢◌, refl, ap, Bool, true, false, Option, none, some, List, [], ◌∷◌, eqb,
  if◌then◌else◌, arith, Bool-cases, inl, inr,
}
use go_fula.Evm.Hex.{Text}
use go_fula.Evm.Abi.{parse_contract_error, encode_pools_call}
use go_fula.Evm.Abi.Strings.{Pool, decode_pools, decode_member_peer_ids}
use go_fula.Evm.Abi.Decoded.{Decoded, value, error, panic, ◌>>=◌}
use go_fula.Evm.Rpc.{ChainConfig, chain_config, Network, rpc_result, call_with_retry}
use go_fula.Evm.Rpc.Attempts.{Genuine, call_with_retry-Genuine}
use go_fula.Pool.Membership.{
  RpcAnswer, no_reply, bad_status, unparsed, reported, result, read_answer,
}
use go_fula.Pool.Membership.Shown.{read_result}
use go_fula.Pool.Creator.{
  CreatorEnv, checked_result, contract_result, first_id, to_peer_id, creator_id, creator_on,
  get_pool_creator_peer_id, encode_get_member_peer_ids_call,
}

-- An endpoint of the chain answered a call with this result.
pub record Returned (net : Network) (chain : String) (call_data : Text) (r : Text) : Type 0 where
  pub from : ℕ
  pub until : ℕ
  pub body : String
  pub genuine : Genuine net chain call_data from until body 200
  pub parsed : net.parse_rpc body ≡ some (rpc_result r)

-- The chain returned the pool, and a list of ids of its creator, the first of which is converted.
pub record Creator (env : CreatorEnv) (chain : String) (pool_id : ℕ) (id : Text) : Type 0 where
  pub pool_result : Text
  pub pool : Pool
  pub ids_result : Text
  pub first : Text
  pub others : List Text
  pub pool_there : Returned env.net chain (encode_pools_call pool_id) pool_result
  pub pool_decoded : decode_pools env.big_int pool_result ≡ value pool
  pub ids_there :
      Returned env.net chain (encode_get_member_peer_ids_call env pool_id pool.creator) ids_result
  pub ids_decoded : decode_member_peer_ids env.max_cap ids_result ≡ value (first ∷ others)
  pub converted : to_peer_id env first ≡ value id

bind_value {ℓ κ} :
    {A : Type ℓ} {B : Type κ} (d : Decoded A) (f : A → Decoded B) (b : B)
    → d >>= f ≡ value b
    → (a : A) × (d ≡ value a) × (f a ≡ value b)
bind_value (value a) f b h = (a, refl, h)
bind_value error f b h = absurd (cc)
bind_value panic f b h = absurd (cc)

checked_value : (r : Text) (o : Option String) (x : Text) → checked_result r o ≡ value x → r ≡ x
unfolding checked_result
checked_value r none x h = ground arith
checked_value r (some e) x h = absurd (cc)

contract_value : (a : RpcAnswer) (r : Text) → contract_result a ≡ value r → a ≡ result r
unfolding contract_result
contract_value no_reply r h = absurd (cc)
contract_value bad_status r h = absurd (cc)
contract_value unparsed r h = absurd (cc)
contract_value reported r h = absurd (cc)
contract_value (result x) r h =
    let same = checked_value x (parse_contract_error x) r h in rw same refl

checked_first : (b : Bool) (x w : Text) → (if b then error else value x) ≡ value w → x ≡ w
checked_first true x w h = absurd (cc)
checked_first false x w h = cc

first_value :
    (ids : List Text) (w : Text)
    → first_id ids ≡ value w
    → (others : List Text) × (ids ≡ w ∷ others)
unfolding first_id
first_value [] w h = absurd (cc)
first_value (x ∷ ws) w h = (ws, ap (λ y. y ∷ ws) (checked_first _ x w h))

module _ (env : CreatorEnv) (chain : String) where
  contract_result-Returned :
      (t : ℕ) (call_data r : Text)
      → contract_result (read_answer env.net (call_with_retry env.net 3 t chain call_data).0)
        ≡ value r
      → Returned env.net chain call_data r
  contract_result-Returned t call_data r h =
      let (o, t') = call_with_retry env.net 3 t chain call_data in
      let read = contract_value (read_answer env.net o) r h in
      let (body, responded_with, parsed) = read_result env.net [] o r read in
      record {
        from = t;
        until = t';
        body = body;
        genuine = call_with_retry-Genuine env.net chain call_data 3 t responded_with;
        parsed = parsed;
      }

  creator_id-Creator :
      (t t' pool_id : ℕ) (pool_result : Text) (pool : Pool) (id : Text)
      → Returned env.net chain (encode_pools_call pool_id) pool_result
      → decode_pools env.big_int pool_result ≡ value pool
      → creator_id env chain t' pool_id pool ≡ value id
      → Creator env chain pool_id id
  unfolding creator_id
  creator_id-Creator t t' pool_id pool_result pool id there decoded h =
      let (first, listed, converted) = bind_value _ (to_peer_id env) id h in
      let (ids, all, is_first) = bind_value _ first_id first listed in
      let (r, returned, ids_decoded) = bind_value _ (decode_member_peer_ids env.max_cap) ids all in
      let (others, same) = first_value ids first is_first in
      record {
        pool_result = pool_result;
        pool = pool;
        ids_result = r;
        first = first;
        others = others;
        pool_there = there;
        pool_decoded = decoded;
        ids_there = contract_result-Returned t' _ r returned;
        ids_decoded = rw same at ids_decoded;
        converted = converted;
      }

  creator_on-Creator :
      (t pool_id : ℕ) (c : Option ChainConfig) (id : Text)
      → creator_on env chain t pool_id c ≡ value id
      → Creator env chain pool_id id
  unfolding creator_on
  creator_on-Creator t pool_id none id h = absurd (cc)
  creator_on-Creator t pool_id (some c) id h =
      let t' = (call_with_retry env.net 3 t chain (encode_pools_call pool_id)).1 in
      let (pool, got, rest) = bind_value _ (creator_id env chain t' pool_id) id h in
      let (r, returned, decoded) = bind_value _ (decode_pools env.big_int) pool got in
      creator_id-Creator t t' pool_id r pool id (contract_result-Returned t _ r returned) decoded
        rest

  -- An id that is returned for the creator of a pool: the pool is not 0, the chain returned the
  -- pool and then a list of ids for the pool's creator, and the id is converted from the first.
  pub get_pool_creator_peer_id-Creator :
      (t pool_id : ℕ) (id : Text)
      → get_pool_creator_peer_id env chain t pool_id ≡ value id
      → (pool_id ≢ 0) × Creator env chain pool_id id
  unfolding get_pool_creator_peer_id
  get_pool_creator_peer_id-Creator t pool_id id h = elim (Bool-cases (eqb pool_id 0)) [
    | inl e ↦ absurd (cc (rw e at h))
    | inr e ↦
        ((λ z. ground arith), creator_on-Creator t pool_id (chain_config chain) id (rw e at h))
  ]
