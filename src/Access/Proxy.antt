-- ===== src/Access/Proxy.antt =====
-- The proxy's access rules: `authorized`, `SetAuth`, `handleAuthorization` and `dispatch` of
-- blockchain/blockchain.go, and `serveProxy` of blockchain/proxy.go.
pub mod Rules
pub mod History
pub mod Named
use go_fula.Prelude.{
  ℕ, String, Bool, true, false, not, ◌&&◌, ◌||◌, Option, none, some, List, [], ◌∷◌, ◌==◌,
  if◌then◌else◌, Assoc, put, delete, has,
}
use go_fula.Access.Actions
use go_fula.Access.Actions.{Action, action_of}
use go_fula.Access.Signing.{Platform, Request, Verified, accepted, refused, verify_signed_request}

-- The fields of `FxBlockchain` that decide on access. The authorizer is the owner; "" is none.
pub record Server : Type 0 where
  pub authorizer : String
  pub self_peer_id : String
  pub authorized_peers : Assoc (Unit {0})

pub data Method : Type 0 where
  get post : Method

-- The handlers that `dispatch` calls with an authenticated request. `no_reply` is the empty handler
-- of get-account.
pub data Handler : Type 0 where
  handle_action : Method → Action → Handler
  handle_plugin_action : Action → Handler
  handle_authorization : Handler
  handle_action_manifest_batch_upload handle_auto_pin_pair handle_auto_pin_refresh : Handler
  handle_auto_pin_unpair handle_blox_free_space handle_chat_with_ai handle_delete_fula_config :
      Handler
  handle_delete_wifi handle_disconnect_wifi handle_erase_bl_data handle_fetch_container_logs :
      Handler
  handle_find_best_and_target_in_logs handle_get_cluster_info handle_get_datastore_size : Handler
  handle_get_docker_image_build_dates handle_get_folder_size handle_nas_credentials : Handler
  handle_partition handle_pool_cancel_join handle_pool_join handle_pool_leave handle_reboot :
      Handler
  handle_replicate_in_pool handle_wifi_removeall no_reply : Handler

-- The reply of the proxy itself, or the handler that takes the request over with the sender and
-- the body.
pub data Reply : Type 0 where
  status : ℕ → Reply
  handed_to : Handler → String → String → Reply

-- The cases of the `switch` in `authorized`.
pub data Rule : Type 0 where
  pool_host_only delegated owner_only never : Rule

unfoldable pub rule : Action → Rule
rule Action.replicate_in_pool = pool_host_only
rule Action.auth = owner_only
rule Action.nas_credentials = owner_only
rule Action.seeded = delegated
rule Action.account_exists = delegated
rule Action.account_fund = delegated
rule Action.assets_balance = delegated
rule Action.transfer_to_mumbai = delegated
rule Action.pool_create = delegated
rule Action.pool_join = delegated
rule Action.pool_cancel_join = delegated
rule Action.pool_requests = delegated
rule Action.pool_list = delegated
rule Action.pool_vote = delegated
rule Action.pool_leave = delegated
rule Action.manifest_upload = delegated
rule Action.manifest_store = delegated
rule Action.manifest_batch_upload = delegated
rule Action.manifest_available = delegated
rule Action.manifest_remove = delegated
rule Action.manifest_remove_storer = delegated
rule Action.manifest_remove_stored = delegated
rule Action.blox_free_space = delegated
rule Action.erase_bl_data = delegated
rule Action.wifi_removeall = delegated
rule Action.reboot = delegated
rule Action.partition = delegated
rule Action.delete_fula_config = delegated
rule Action.delete_wifi = delegated
rule Action.disconnect_wifi = delegated
rule Action.get_account = delegated
rule Action.fetch_container_logs = delegated
rule Action.find_best_and_target_in_logs = delegated
rule Action.get_folder_size = delegated
rule Action.get_datastore_size = delegated
rule Action.get_docker_image_build_dates = delegated
rule Action.get_cluster_info = delegated
rule Action.list_plugins = delegated
rule Action.install_plugin = delegated
rule Action.uninstall_plugin = delegated
rule Action.list_active_plugins = delegated
rule Action.get_install_output = delegated
rule Action.get_install_status = delegated
rule Action.update_plugin = delegated
rule Action.chat_with_ai = delegated
rule Action.auto_pin_pair = delegated
rule Action.auto_pin_refresh = delegated
rule Action.auto_pin_unpair = delegated
rule _ = never

permits : Server → String → Rule → Bool
permits s pid pool_host_only = s.authorizer == s.self_peer_id || s.authorizer == ""
permits s pid delegated = has pid s.authorized_peers
permits s pid owner_only = pid == s.authorizer && not (s.authorizer == "")
permits s pid never = false

permits_named : Server → String → Option Action → Bool
unfolding permits
permits_named s pid none = false
permits_named s pid (some a) = permits s pid (rule a)

unfoldable pub authorized : Server → String → String → Bool
unfolding permits_named
authorized s pid action = permits_named s pid (action_of action)

unfoldable pub set_peer : Server → String → Bool → Server
set_peer s subject true = record s { authorized_peers = put subject tt s.authorized_peers }
set_peer s subject false = record s { authorized_peers = delete subject s.authorized_peers }

-- `false` is the error of a target that is not this device.
unfoldable pub set_auth : Server → String → String → Bool → Server × Bool
unfolding set_peer
set_auth s on subject allow =
    if on == s.self_peer_id then (set_peer s subject allow, true) else (s, false)

-- NewFxBlockchain: a device with an owner lets the owner in.
unfoldable pub new_server : String → String → Server
unfolding set_auth
new_server authorizer self =
    let s : Server = record {
      authorizer = authorizer;
      self_peer_id = self;
      authorized_peers = [];
    } in
    if not (authorizer == "") && not (self == "") then (set_auth s self authorizer true).0 else s

-- The map of `dispatch`.
unfoldable pub handler : Action → Option Handler
handler Action.seeded = some (handle_action post Action.seeded)
handler Action.account_exists = some (handle_action post Action.account_exists)
handler Action.assets_balance = some (handle_action post Action.assets_balance)
handler Action.transfer_to_mumbai = some (handle_action post Action.transfer_to_mumbai)
handler Action.transfer_to_goerli = some (handle_action post Action.transfer_to_goerli)
handler Action.pool_create = some (handle_action post Action.pool_create)
handler Action.pool_join = some handle_pool_join
handler Action.pool_cancel_join = some handle_pool_cancel_join
handler Action.pool_requests = some (handle_action get Action.pool_requests)
handler Action.pool_list = some (handle_action get Action.pool_list)
handler Action.pool_vote = some (handle_action post Action.pool_vote)
handler Action.pool_leave = some handle_pool_leave
handler Action.manifest_upload = some (handle_action post Action.manifest_upload)
handler Action.manifest_store = some (handle_action post Action.manifest_store)
handler Action.manifest_batch_store = some (handle_action post Action.manifest_batch_store)
handler Action.manifest_batch_upload = some handle_action_manifest_batch_upload
handler Action.manifest_available = some (handle_action post Action.manifest_available)
handler Action.manifest_remove = some (handle_action post Action.manifest_remove)
handler Action.manifest_remove_storer = some (handle_action post Action.manifest_remove_storer)
handler Action.manifest_remove_stored = some (handle_action post Action.manifest_remove_stored)
handler Action.blox_free_space = some handle_blox_free_space
handler Action.erase_bl_data = some handle_erase_bl_data
handler Action.wifi_removeall = some handle_wifi_removeall
handler Action.reboot = some handle_reboot
handler Action.partition = some handle_partition
handler Action.delete_fula_config = some handle_delete_fula_config
handler Action.delete_wifi = some handle_delete_wifi
handler Action.disconnect_wifi = some handle_disconnect_wifi
handler Action.get_account = some no_reply
handler Action.fetch_container_logs = some handle_fetch_container_logs
handler Action.find_best_and_target_in_logs = some handle_find_best_and_target_in_logs
handler Action.get_folder_size = some handle_get_folder_size
handler Action.get_datastore_size = some handle_get_datastore_size
handler Action.get_docker_image_build_dates = some handle_get_docker_image_build_dates
handler Action.get_cluster_info = some handle_get_cluster_info
handler Action.replicate_in_pool = some handle_replicate_in_pool
handler Action.list_plugins = some (handle_plugin_action Action.list_plugins)
handler Action.install_plugin = some (handle_plugin_action Action.install_plugin)
handler Action.uninstall_plugin = some (handle_plugin_action Action.uninstall_plugin)
handler Action.show_plugin_status = some (handle_plugin_action Action.show_plugin_status)
handler Action.list_active_plugins = some (handle_plugin_action Action.list_active_plugins)
handler Action.get_install_output = some (handle_plugin_action Action.get_install_output)
handler Action.get_install_status = some (handle_plugin_action Action.get_install_status)
handler Action.update_plugin = some (handle_plugin_action Action.update_plugin)
handler Action.chat_with_ai = some handle_chat_with_ai
handler Action.auto_pin_pair = some handle_auto_pin_pair
handler Action.auto_pin_refresh = some handle_auto_pin_refresh
handler Action.auto_pin_unpair = some handle_auto_pin_unpair
handler Action.nas_credentials = some handle_nas_credentials
handler Action.auth = some handle_authorization
handler _ = none

-- `decode` is json.Unmarshal into `authorizationRequest`: the subject and `allow`.
module _ (decode : String → Option (String × Bool)) where
  answer_authorization : Server → Option (String × Bool) → Server × Reply
  unfolding set_peer
  answer_authorization s none = (s, status 400)
  answer_authorization s (some (subject, allow)) = (set_peer s subject allow, status 200)

  run : Server → String → String → Handler → Server × Reply
  unfolding answer_authorization
  run s from body handle_authorization = answer_authorization s (decode body)
  run s from body h = (s, handed_to h from body)

  dispatch_handler : Server → String → String → Option Handler → Server × Reply
  unfolding run
  dispatch_handler s from body none = (s, status 404)
  dispatch_handler s from body (some h) = run s from body h

  dispatch_named : Server → String → String → Option Action → Server × Reply
  unfolding dispatch_handler
  dispatch_named s from body none = (s, status 404)
  dispatch_named s from body (some a) = dispatch_handler s from body (handler a)

  unfoldable pub dispatch : Server → String → String → String → Server × Reply
  unfolding dispatch_named
  dispatch s from action body = dispatch_named s from body (action_of action)

  module _ {Key : Type 0} (p : Platform Key) where
    serve_verified : Server → Request → Verified → Server × Reply
    serve_verified s r (refused e) = (s, status 401)
    serve_verified s r (accepted from bytes) =
        let action = p.path_base r.path in
        if authorized s from action then dispatch s from action bytes else (s, status 401)

    unfoldable pub serve_proxy : ℕ → Server → Request → Server × Reply
    unfolding serve_verified
    serve_proxy now s r = serve_verified s r (verify_signed_request p now r)

    -- The requests of a run of the server, each with the clock at its arrival.
    unfoldable pub serve_all : Server → List (ℕ × Request) → Server
    serve_all s [] = s
    serve_all s ((now, r) ∷ rest) = serve_all (serve_proxy now s r).0 rest
