-- ===== src/Kubo.antt =====
-- blox/kubo_proxy.go: the calls of the API of kubo, which forwards libp2p streams to the device.
pub mod Target
pub mod Watch
pub mod Server
mod Examples
use go_fula.Prelude.{
  ℕ, ◌+◌, String, Bool, true, false, not, ◌&&◌, ◌||◌, Option, none, some, List, [], ◌∷◌, ◌++◌, ◌==◌,
  eqb, if◌then◌else◌, elem,
}
use go_fula.Evm.Hex.{Text, codes, has_prefix, has_infix}

-- The requests to the API.
pub data KuboCall : Type 0 where
  id p2p_ls close_all swarm_peers : KuboCall
  listen : String → Text → KuboCall
  forward : String → KuboCall

pub record Listener : Type 0 where
  pub protocol : String
  pub listen_address : Text
  pub target_address : Text

-- What kubo answers to the call of a tick, `none` without an answer; encoding/json; whether the first
-- read of a body has some words; and the targets of the protocols at a tick.
pub record Kubo : Type 0 where
  pub answer : ℕ → KuboCall → Option (ℕ × String)
  pub parse_listeners : String → Option (List Listener)
  pub parse_addresses : String → Option (List Text)
  pub parse_peers : String → Option (List String)
  pub mentions : String → String → Bool
  pub target_ip : ℕ → Text

-- The calls that were made, and how many.
pub record Session : Type 0 where
  pub tick : ℕ
  pub calls : List KuboCall

-- getProtocols, for an address of the device
unfoldable pub get_protocols : Text → List (String × Text)
get_protocols ip =
    ("/x/fula-blockchain", codes "/ip4/" ++ (ip ++ codes "/tcp/4020"))
    ∷ ("/x/fula-ping", codes "/ip4/" ++ (ip ++ codes "/tcp/4021"))
    ∷ ("/x/fula-cluster", codes "/ip4/" ++ (ip ++ codes "/tcp/9096"))
    ∷ []

unfoldable pub ok_body : Option (ℕ × String) → Option String
ok_body none = none
ok_body (some (s, body)) = if eqb s 200 then some body else none

-- The protocols of the listeners, which listen on an address of the peer.
unfoldable pub registered_protocols : List Listener → List String
unfolding has_prefix
registered_protocols [] = []
registered_protocols (l ∷ ls) =
    let rest = registered_protocols ls in
    if has_prefix l.listen_address (codes "/p2p/") then l.protocol ∷ rest else rest

unfoldable pub all_among : List (String × Text) → List String → Bool
unfolding elem
all_among [] names = true
all_among ((name, target) ∷ ps) names =
    let rest = all_among ps names in if elem name names then rest else false

unfoldable pub forwards_cluster : List Listener → Bool
unfolding has_prefix
forwards_cluster [] = false
forwards_cluster (l ∷ ls) =
    let rest = forwards_cluster ls in
    if l.protocol == "/x/fula-cluster" && has_prefix l.target_address (codes "/p2p/")
    then true
    else rest

unfoldable pub has_circuit : List Text → Bool
unfolding has_infix
has_circuit [] = false
has_circuit (a ∷ addresses) =
    let rest = has_circuit addresses in if has_infix a (codes "/p2p-circuit/") then true else rest

unfoldable pub parsed {ℓ} : {A : Type ℓ} → (String → Option A) → Option String → Option A
parsed parse none = none
parsed parse (some body) = parse body

unfoldable pub holds_of {ℓ} : {A : Type ℓ} → (A → Bool) → Option A → Bool
holds_of test none = false
holds_of test (some x) = test x

module _ (kubo : Kubo) where
  unfoldable pub post : KuboCall → Session → Option (ℕ × String) × Session
  post c s = (kubo.answer s.tick c, record { tick = s.tick + 1; calls = s.calls ++ (c ∷ []) })

  -- checkKuboAlive
  unfoldable pub check_kubo_alive : Session → Bool × Session
  unfolding post ok_body holds_of
  check_kubo_alive s = let (r, s') = post id s in (holds_of (λ body. true) (ok_body r), s')

  -- checkKuboP2PListeners
  unfoldable pub check_kubo_p2p_listeners : Session → Bool × Session
  unfolding post ok_body parsed holds_of registered_protocols all_among get_protocols
  check_kubo_p2p_listeners s =
      let (r, s') = post p2p_ls s in
      let protocols = get_protocols (kubo.target_ip s'.tick) in
      (
        holds_of (λ ls. all_among protocols (registered_protocols ls))
            (parsed kubo.parse_listeners (ok_body r)),
        s',
      )

  -- checkClusterForward
  unfoldable pub check_cluster_forward : Session → Bool × Session
  unfolding post ok_body parsed holds_of forwards_cluster
  check_cluster_forward s =
      let (r, s') = post p2p_ls s in
      (holds_of forwards_cluster (parsed kubo.parse_listeners (ok_body r)), s')

  -- checkKuboHasCircuitAddress
  unfoldable pub check_kubo_has_circuit_address : Session → Bool × Session
  unfolding post ok_body parsed holds_of has_circuit
  check_kubo_has_circuit_address s =
      let (r, s') = post id s in
      (holds_of has_circuit (parsed kubo.parse_addresses (ok_body r)), s')

  -- checkRelayPeerConnected
  unfoldable pub check_relay_peer_connected : String → Session → Bool × Session
  unfolding post ok_body parsed holds_of elem
  check_relay_peer_connected relay s =
      let (r, s') = post swarm_peers s in
      (holds_of (elem relay) (parsed kubo.parse_peers (ok_body r)), s')

  -- registerSingleProtocol; `false` is an error.
  unfoldable pub listen_accepted : Option (ℕ × String) → Bool
  listen_accepted none = false
  listen_accepted (some (status, body)) =
      if eqb status 200 then true else kubo.mentions body "listener already registered"

  unfoldable pub register_single_protocol : String × Text → Session → Bool × Session
  unfolding post listen_accepted
  register_single_protocol (name, target) s =
      let (r, s') = post (listen name target) s in (listen_accepted r, s')

  -- The protocols up to the first that fails.
  unfoldable pub register_each : List (String × Text) → Session → Bool × Session
  unfolding register_single_protocol
  register_each [] s = (true, s)
  register_each (p ∷ ps) s =
      let (ok, s') = register_single_protocol p s in
      let rest = register_each ps s' in if ok then rest else (false, s')

  -- registerKuboProtocols
  unfoldable pub register_kubo_protocols : Session → Bool × Session
  unfolding post register_each get_protocols
  register_kubo_protocols s =
      let (r, s') = post close_all s in register_each (get_protocols (kubo.target_ip s'.tick)) s'

  unfoldable pub forward_accepted : Option (ℕ × String) → Bool
  forward_accepted none = false
  forward_accepted (some (status, body)) =
      if eqb status 200
      then true
      else kubo.mentions body "already forwarding"
        || kubo.mentions body "listener already registered"

  -- registerClusterForward
  unfoldable pub register_cluster_forward : String → Session → Bool × Session
  unfolding post forward_accepted
  register_cluster_forward server s =
      let (r, s') = post (forward server) s in (forward_accepted r, s')
