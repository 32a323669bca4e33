-- ===== src/Nas/Examples.antt =====
-- Concrete requests for the credentials.
use go_fula.Prelude.{String, ◌≡◌, refl, true, none, some, [], ◌∷◌}
use go_fula.Access.Actions.{action_of}
use go_fula.Access.Signing.{Platform, Request, readable, verify_signed_request}
use go_fula.Access.Proxy.{Server, serve_proxy, authorized, dispatch, rule, handler}
use go_fula.Nas.{Env, Credentials, opened, released, handle_nas_credentials}
use go_fula.Nas.Released.{Genuine, OwnerAsked, nas_reply, nas_reply-released}

abbrev platform : Platform String
platform = record {
  decode_peer = λ s. some s;
  extract_public_key = λ s. some s;
  verify = λ key m s. some true;
  parse_int = λ s. some 3;
  format_int = λ n. "3";
  sha256 = λ s. s;
  encode_base64 = λ s. s;
  decode_base64 = λ s. some s;
  path_base = λ s. s;
}

abbrev credentials : Credentials
credentials = record { username = "fula"; password = "secret"; share = "s"; created_at = "t" }

abbrev env : Env
env = record {
  decode_request = λ b. some "kubo";
  kubo_peer_id = some "kubo";
  file = opened (some (b'x' ∷ []));
  parse = λ b. some credentials;
  hostname = "blox";
}

abbrev device : Server
device = record { authorizer = "owner"; self_peer_id = "device"; authorized_peers = [] }

abbrev request : Request
request = record {
  path = "nas-credentials";
  peer_id_header = "owner";
  timestamp_header = "3";
  signature_header = "signature";
  body = readable "kubo";
}

credentials_given :
    nas_reply env (λ s. []) (serve_proxy (λ s. none) platform 3 device request).1
    ≡ some (released credentials "blox")
unfolding nas_reply serve_proxy verify_signed_request authorized action_of rule dispatch handler
    handle_nas_credentials
credentials_given = refl

nas_reply-released_example :
    (body : String) × OwnerAsked platform 3 device request body × Genuine env [] credentials
nas_reply-released_example =
    nas_reply-released env (λ s. []) (λ s. none) platform 3 device request credentials "blox"
      credentials_given
