-- ===== src/Client/Device.antt =====
-- The device's side of the mobile requests: handleAction and the handlers of blockchain/blockchain.go
-- and blockchain/blox.go that pass a request on to the functions of wap/pkg/wifi, behind the access
-- rules and the dispatch of the proxy.
use go_fula.Prelude.{
  ℕ, String, Bool, true, false, not, Option, none, some, ◌&&◌, ◌⊎◌, ◌≡◌, refl, inl, inr, leb, eqb,
  if◌then◌else◌,
}
use go_fula.Access.Actions.{Action}
use go_fula.Access.Proxy.{Method}
use go_fula.Client.{response_body, expected}
use go_fula.Pool.Cancel.{Sent, unsent, came, CallResult, failed, returned}

-- The functions of wap/pkg/wifi, which run commands of the system, with their responses as
-- encoding/json writes them; `none` or `inl` with a text is an error. A function that has a request
-- takes its fields.
pub record Wifi : Type 0 where
  pub blox_free_space : Option String
  pub erase_bl_data : String
  pub wifi_removeall : String
  pub reboot : String
  pub partition : String
  pub delete_fula_config : String
  pub delete_wifi : String → String
  pub disconnect_named_wifi : String → String
  pub fetch_container_logs : String → String → String ⊎ String
  pub find_best_and_target_in_logs : String → String → String ⊎ (String × String)
  pub get_folder_size : String → Option String
  pub get_datastore_size : Option String
  pub get_docker_image_build_dates : Option String
  pub get_cluster_info : Option String

-- What encoding/json reads from a body, and the responses that the handlers put together.
pub record Json : Type 0 where
  pub wifi_request : String → Option String
  pub logs_request : String → Option (String × String)
  pub best_request : String → Option (String × String)
  pub folder_request : String → Option String
  pub datastore_request : String → Bool
  pub action_request : Action → String → Bool
  pub is_object : String → Bool
  pub free_space_zero : String
  pub logs_response : Bool → String → String
  pub best_response : String → String → String → String
  pub folder_empty : String
  pub datastore_empty : String
  pub images_empty : String
  pub cluster_info_empty : String
  pub error_response : String → String → String
  pub call_error : ℕ → String
  pub reencoded : Action → String → String

unfoldable pub or_else : String → Option String → String
or_else d none = d
or_else d (some s) = s

-- A reply with status 200, 202, and that of http.Error for a body that cannot be read.
unfoldable pub ok : String → Sent
ok body = came body 200

unfoldable pub taken : String → Sent
taken body = came body 202

unfoldable pub undecoded : Sent
undecoded = came "failed to decode request\n" 400

-- WriteHeader panics on a status code that has not three digits, and no reply goes out.
unfoldable pub written : ℕ → String → Sent
written status body = if leb 100 status && leb status 999 then came body status else unsent

module _ (w : Wifi) (j : Json) where
  unfoldable pub handle_blox_free_space : Sent
  unfolding or_else ok
  handle_blox_free_space = ok (or_else j.free_space_zero w.blox_free_space)

  unfoldable pub handle_get_docker_image_build_dates : Sent
  unfolding or_else ok
  handle_get_docker_image_build_dates = ok (or_else j.images_empty w.get_docker_image_build_dates)

  unfoldable pub handle_get_cluster_info : Sent
  unfolding or_else ok
  handle_get_cluster_info = ok (or_else j.cluster_info_empty w.get_cluster_info)

  unfoldable pub handle_erase_bl_data : Sent
  unfolding ok
  handle_erase_bl_data = ok w.erase_bl_data

  unfoldable pub handle_wifi_removeall : Sent
  unfolding ok
  handle_wifi_removeall = ok w.wifi_removeall

  unfoldable pub handle_reboot : Sent
  unfolding ok
  handle_reboot = ok w.reboot

  unfoldable pub handle_partition : Sent
  unfolding ok
  handle_partition = ok w.partition

  unfoldable pub handle_delete_fula_config : Sent
  unfolding ok
  handle_delete_fula_config = ok w.delete_fula_config

  wifi_answer : (String → String) → Option String → Sent
  unfolding ok undecoded
  wifi_answer run none = undecoded
  wifi_answer run (some connection) = ok (run connection)

  unfoldable pub handle_delete_wifi : String → Sent
  unfolding wifi_answer
  handle_delete_wifi body = wifi_answer w.delete_wifi (j.wifi_request body)

  unfoldable pub handle_disconnect_wifi : String → Sent
  unfolding wifi_answer
  handle_disconnect_wifi body = wifi_answer w.disconnect_named_wifi (j.wifi_request body)

  wifi_answer-Lost :
      (run : String → String) (o : Option String)
      → response_body (some 202) (wifi_answer run o) ≡ none
  unfolding wifi_answer ok undecoded response_body expected
  wifi_answer-Lost run none = refl
  wifi_answer-Lost run (some connection) = refl

  -- A method that expects status 202 takes no reply of these handlers for a result.
  pub handle_delete_wifi-Lost :
      (body : String) → response_body (some 202) (handle_delete_wifi body) ≡ none
  unfolding handle_delete_wifi
  handle_delete_wifi-Lost body = wifi_answer-Lost w.delete_wifi (j.wifi_request body)

  pub handle_disconnect_wifi-Lost :
      (body : String) → response_body (some 202) (handle_disconnect_wifi body) ≡ none
  unfolding handle_disconnect_wifi
  handle_disconnect_wifi-Lost body = wifi_answer-Lost w.disconnect_named_wifi (j.wifi_request body)

  logs_body : String ⊎ String → String
  logs_body (inl e) = j.logs_response false e
  logs_body (inr res) = j.logs_response true res

  fetched_logs : Option (String × String) → Sent
  unfolding taken undecoded logs_body
  fetched_logs none = undecoded
  fetched_logs (some (container, tail)) = taken (logs_body (w.fetch_container_logs container tail))

  unfoldable pub handle_fetch_container_logs : String → Sent
  unfolding fetched_logs
  handle_fetch_container_logs body = fetched_logs (j.logs_request body)

  best_body : String ⊎ (String × String) → String
  best_body (inl e) = j.best_response "0" "0" e
  best_body (inr (best, target)) = j.best_response best target ""

  found_best : Option (String × String) → Sent
  unfolding taken undecoded best_body
  found_best none = undecoded
  found_best (some (container, tail)) =
      taken (best_body (w.find_best_and_target_in_logs container tail))

  unfoldable pub handle_find_best_and_target_in_logs : String → Sent
  unfolding found_best
  handle_find_best_and_target_in_logs body = found_best (j.best_request body)

  folder_answer : Option String → Sent
  unfolding taken undecoded or_else
  folder_answer none = undecoded
  folder_answer (some path) = taken (or_else j.folder_empty (w.get_folder_size path))

  unfoldable pub handle_get_folder_size : String → Sent
  unfolding folder_answer
  handle_get_folder_size body = folder_answer (j.folder_request body)

  unfoldable pub handle_get_datastore_size : String → Sent
  unfolding taken undecoded or_else
  handle_get_datastore_size body =
      if j.datastore_request body
      then taken (or_else j.datastore_empty w.get_datastore_size)
      else undecoded

-- handleAction, for a node's own chain that `call` stands for.
module _ (j : Json) (call : Method → Action → String → CallResult) where
  action_answer : Action → CallResult → Sent
  unfolding written taken
  action_answer a (failed status) = written status (j.call_error status)
  action_answer a (returned response status) =
      if not (eqb status 200)
      then written status
          (if j.is_object response then response else j.error_response "Error" response)
      else taken (j.reencoded a response)

  unfoldable pub handle_action : Method → Action → String → Sent
  unfolding action_answer
  handle_action m a body =
      if j.action_request a body then action_answer a (call m a body) else came "\n" 400
