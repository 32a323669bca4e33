-- ===== src/Client/Node.antt =====
-- A device that answers a client: serveProxy and dispatch of blockchain/blockchain.go with the
-- handlers behind them, as the P2P client of another device sees them.
use go_fula.Prelude.{String, Bool, true, Option, if◌then◌else◌}
use go_fula.Access.Actions.{Action, name}
use go_fula.Access.Proxy
use go_fula.Access.Proxy.{Method, Server, Handler, Reply, status, handed_to, authorized, dispatch}
use go_fula.Pool.Cancel.{Sent, came, CallResult}
use go_fula.Client.{Client}
use go_fula.Client.Device
use go_fula.Client.Device.{Wifi, Json, ok}

-- The device, with the sender that its clients' requests are signed by. `other` is the handlers of
-- other modules, `decode` is encoding/json on a request of the owner to change the rights.
pub record Node : Type 0 where
  pub server : Server
  pub from : String
  pub decode : String → Option (String × Bool)
  pub wifi : Wifi
  pub json : Json
  pub call : Method → Action → String → CallResult
  pub other : Handler → String → Sent

module _ (n : Node) where
  unfoldable pub answer : Handler → String → Sent
  unfolding ok
  answer (Proxy.handle_action m a) body = Device.handle_action n.json n.call m a body
  answer Proxy.handle_blox_free_space body = Device.handle_blox_free_space n.wifi n.json
  answer Proxy.handle_erase_bl_data body = Device.handle_erase_bl_data n.wifi n.json
  answer Proxy.handle_wifi_removeall body = Device.handle_wifi_removeall n.wifi n.json
  answer Proxy.handle_reboot body = Device.handle_reboot n.wifi n.json
  answer Proxy.handle_partition body = Device.handle_partition n.wifi n.json
  answer Proxy.handle_delete_fula_config body = Device.handle_delete_fula_config n.wifi n.json
  answer Proxy.handle_delete_wifi body = Device.handle_delete_wifi n.wifi n.json body
  answer Proxy.handle_disconnect_wifi body = Device.handle_disconnect_wifi n.wifi n.json body
  answer Proxy.handle_fetch_container_logs body =
      Device.handle_fetch_container_logs n.wifi n.json body
  answer Proxy.handle_find_best_and_target_in_logs body =
      Device.handle_find_best_and_target_in_logs n.wifi n.json body
  answer Proxy.handle_get_folder_size body = Device.handle_get_folder_size n.wifi n.json body
  answer Proxy.handle_get_datastore_size body = Device.handle_get_datastore_size n.wifi n.json body
  answer Proxy.handle_get_docker_image_build_dates body =
      Device.handle_get_docker_image_build_dates n.wifi n.json
  answer Proxy.handle_get_cluster_info body = Device.handle_get_cluster_info n.wifi n.json
  answer Proxy.no_reply body = ok ""
  answer h body = n.other h body

  -- The texts of the proxy's own replies are left out.
  unfoldable pub sent : Reply → Sent
  unfolding answer
  sent (status s) = came "" s
  sent (handed_to h from body) = answer h body

  unfoldable pub reply : Method → Action → String → Sent
  unfolding sent
  reply m a body =
      if authorized n.server n.from (name a)
      then sent (dispatch n.decode n.server n.from (name a) body).1
      else came "" 401

unfoldable pub paired : (String → Option String) → Node → Client
unfolding reply
paired encode n = record { configured = true; encode = encode; send = reply n }
