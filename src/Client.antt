-- ===== src/Client.antt =====
-- The requests of the mobile client: the methods of FxBlockchain in blockchain/bl_account.go,
-- bl_manifest.go, bl_pool.go, blox.go, bl_plugins.go, bl_autopin.go and bl_nas.go that send a request
-- to a device. They differ in what is in an Operation. The texts of errors are left out.
pub mod Operations
pub mod Device
pub mod Node
pub mod Answered
pub mod Examples
use go_fula.Prelude.{ℕ, String, Bool, true, false, Option, none, some, ◌==◌, eqb, if◌then◌else◌}
use go_fula.Access.Actions
use go_fula.Access.Actions.{Action}
use go_fula.Access.Proxy.{Method, get, post}
use go_fula.Pool.Cancel.{Sent, unsent, broken_off, came}

-- The HTTP method, the action in the path, the status that is not an error, `none` for any, and
-- whether the request is sent as JSON.
pub record Operation : Type 0 where
  pub method : Method
  pub action : Action
  pub expects : Option ℕ
  pub sends_body : Bool

-- The client: whether SetP2PClient was called, what encoding/json makes of the request, and what the
-- P2P client makes of an HTTP request to the device.
pub record Client : Type 0 where
  pub configured : Bool
  pub encode : String → Option String
  pub send : Method → Action → String → Sent

abbrev pub operation : Method → Action → Option ℕ → Bool → Operation
operation m a e sends_body = record { method = m; action = a; expects = e; sends_body = sends_body }

unfoldable pub expected : Option ℕ → ℕ → Bool
expected none status = true
expected (some s) status = eqb status s

-- The body of the response, `none` with an error.
unfoldable pub response_body : Option ℕ → Sent → Option String
unfolding expected
response_body e unsent = none
response_body e (broken_off s) = none
response_body e (came body s) = if expected e s then some body else none

module _ (c : Client) where
  -- doP2PRequest
  unfoldable pub do_p2p_request : Operation → Option String → Option String
  unfolding response_body
  do_p2p_request op none = none
  do_p2p_request op (some body) =
      if c.configured then response_body op.expects (c.send op.method op.action body) else none

  unfoldable pub request_body : Bool → String → Option String
  request_body true r = c.encode r
  request_body false r = some ""

  -- A method of the client, on its request.
  unfoldable pub perform : Operation → String → Option String
  unfolding do_p2p_request request_body
  perform op r = do_p2p_request op (request_body op.sends_body r)

-- TransferToFula, for the chain of the request.
unfoldable pub transfer_action : String → Option Action
transfer_action chain =
    if chain == "mumbai"
    then some Action.transfer_to_mumbai
    else if chain == "goerli"
    then some Action.transfer_to_goerli
    else none

abbrev pub transfer : Action → Operation
transfer a = operation get a (some 202) true

unfoldable pub transfer_on : Client → String → Option Action → Option String
unfolding perform
transfer_on c r none = none
transfer_on c r (some a) = perform c (transfer a) r

unfoldable pub transfer_to_fula : Client → String → String → Option String
unfolding transfer_on transfer_action
transfer_to_fula c chain r = transfer_on c r (transfer_action chain)
