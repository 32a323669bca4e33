-- ===== src/Mobile/Requests/Calls.antt =====
-- The calls of the app: the methods of mobile/blockchain.go.
use go_fula.Prelude.{ℕ, String, Option, none, some, [], ◌∷◌, split_char}
use go_fula.Pool.{ℤ}
use go_fula.Client
use go_fula.Client.{perform}
use go_fula.Client.Operations.Account
use go_fula.Client.Operations.Blox
use go_fula.Client.Operations.Manifest
use go_fula.Client.Operations.Plugins
use go_fula.Client.Operations.Pool
use go_fula.Mobile.{Client}
use go_fula.Mobile.Requests.{
  no_request, pool_list_request, get_datastore_size_request, account_exists_request,
  account_balance_request, delete_wifi_request, get_folder_size_request, auto_pin_refresh_request,
  fetch_container_logs_request, find_best_and_target_in_logs_request, auto_pin_pair_request,
  assets_balance_request, account_fund_request, transfer_to_fula_request, pool_join_request,
  pool_leave_request, pool_cancel_join_request, pool_requests_request, pool_user_list_request,
  manifest_available_request, manifest_batch_upload_request, replicate_request, plugin_request,
  Outcome, client_closed, failed, answered, Phone, to_uint64, outcome, within_op, call,
}

module _ (p : Phone) where
  abbrev pub account_exists : String → Outcome × Client
  account_exists account = call p Account.account_exists (account_exists_request account)

  abbrev pub account_create : Outcome × Client
  account_create = call p Account.account_create no_request

  abbrev pub account_balance : String → Outcome × Client
  account_balance account = call p Account.account_balance (account_balance_request account)

  abbrev pub account_fund : String → Outcome × Client
  account_fund account =
      call p Account.account_fund (account_fund_request 1_000_000_000_000_000_000 account)

  abbrev pub pool_join : ℤ → Outcome × Client
  pool_join id = call p Pool.pool_join (pool_join_request id p.blox_pid "")

  abbrev pub pool_join_with_chain : ℤ → String → Outcome × Client
  pool_join_with_chain id chain = call p Pool.pool_join (pool_join_request id p.blox_pid chain)

  abbrev pub pool_cancel_join : ℤ → Outcome × Client
  pool_cancel_join id = call p Pool.pool_cancel_join (pool_cancel_join_request id)

  abbrev pub pool_requests : ℤ → Outcome × Client
  pool_requests id = call p Pool.pool_requests (pool_requests_request id)

  abbrev pub pool_list : Outcome × Client
  pool_list = call p Pool.pool_list pool_list_request

  abbrev pub pool_user_list : ℤ → Outcome × Client
  pool_user_list id = call p Pool.pool_user_list (pool_user_list_request id)

  abbrev pub pool_leave : ℤ → Outcome × Client
  pool_leave id = call p Pool.pool_leave (pool_leave_request id "")

  abbrev pub pool_leave_with_chain : ℤ → String → Outcome × Client
  pool_leave_with_chain id chain = call p Pool.pool_leave (pool_leave_request id chain)

  abbrev pub manifest_available : ℤ → Outcome × Client
  manifest_available id = call p Manifest.manifest_available (manifest_available_request id)

  abbrev pub batch_upload_manifest : String → ℤ → ℤ → Outcome × Client
  batch_upload_manifest cids id factor =
      call p Manifest.manifest_batch_upload
        (manifest_batch_upload_request (split_char b'|' cids) id factor)

  abbrev pub blox_free_space : Outcome × Client
  blox_free_space = call p Blox.blox_free_space no_request

  abbrev pub erase_bl_data : Outcome × Client
  erase_bl_data = call p Blox.erase_bl_data no_request

  abbrev pub wifi_removeall : Outcome × Client
  wifi_removeall = call p Blox.wifi_removeall no_request

  abbrev pub reboot : Outcome × Client
  reboot = call p Blox.reboot no_request

  abbrev pub delete_wifi : String → Outcome × Client
  delete_wifi name = call p Blox.delete_wifi (delete_wifi_request name)

  abbrev pub disconnect_wifi : String → Outcome × Client
  disconnect_wifi name = call p Blox.disconnect_wifi (delete_wifi_request name)

  abbrev pub partition : Outcome × Client
  partition = call p Blox.partition no_request

  abbrev pub delete_fula_config : Outcome × Client
  delete_fula_config = call p Blox.delete_fula_config no_request

  abbrev pub get_account : Outcome × Client
  get_account = call p Blox.get_account no_request

  abbrev pub fetch_container_logs : String → String → Outcome × Client
  fetch_container_logs container tail =
      call p Blox.fetch_container_logs (fetch_container_logs_request container tail)

  abbrev pub find_best_and_target_in_logs : String → String → Outcome × Client
  find_best_and_target_in_logs container tail =
      call p Blox.find_best_and_target_in_logs (find_best_and_target_in_logs_request container tail)

  abbrev pub get_folder_size : String → Outcome × Client
  get_folder_size path = call p Blox.get_folder_size (get_folder_size_request path)

  abbrev pub get_datastore_size : Outcome × Client
  get_datastore_size = call p Blox.get_datastore_size get_datastore_size_request

  abbrev pub get_docker_image_build_dates : Outcome × Client
  get_docker_image_build_dates = call p Blox.get_docker_image_build_dates no_request

  abbrev pub get_cluster_info : Outcome × Client
  get_cluster_info = call p Blox.get_cluster_info no_request

  abbrev pub list_plugins : Outcome × Client
  list_plugins = call p Plugins.list_plugins no_request

  abbrev pub list_active_plugins : Outcome × Client
  list_active_plugins = call p Plugins.list_active_plugins no_request

  abbrev pub install_plugin : String → String → Outcome × Client
  install_plugin plugin params =
      call p Plugins.install_plugin
        (plugin_request (("plugin_name", plugin) ∷ ("params", params) ∷ []))

  abbrev pub uninstall_plugin : String → Outcome × Client
  uninstall_plugin plugin =
      call p Plugins.uninstall_plugin (plugin_request (("plugin_name", plugin) ∷ []))

  abbrev pub get_install_output : String → String → Outcome × Client
  get_install_output plugin params =
      call p Plugins.get_install_output
        (plugin_request (("plugin_name", plugin) ∷ ("params", params) ∷ []))

  abbrev pub get_install_status : String → Outcome × Client
  get_install_status plugin =
      call p Plugins.get_install_status (plugin_request (("plugin_name", plugin) ∷ []))

  abbrev pub update_plugin : String → Outcome × Client
  update_plugin plugin =
      call p Plugins.update_plugin (plugin_request (("plugin_name", plugin) ∷ []))

  abbrev pub auto_pin_pair : String → String → Outcome × Client
  auto_pin_pair token endpoint = call p Plugins.auto_pin_pair (auto_pin_pair_request token endpoint)

  abbrev pub auto_pin_refresh : String → Outcome × Client
  auto_pin_refresh token = call p Plugins.auto_pin_refresh (auto_pin_refresh_request token)

  abbrev pub auto_pin_unpair : Outcome × Client
  auto_pin_unpair = call p Plugins.auto_pin_unpair no_request

  amount_answer : Option ℕ → Option String
  amount_answer none = none
  amount_answer (some amount) = p.amount_json amount

  balance : Option String → Option String
  unfolding amount_answer
  balance none = none
  balance (some body) = amount_answer (p.amount_of body)

  unfoldable pub assets_balance : String → ℤ → ℤ → Outcome × Client
  unfolding within_op outcome balance
  assets_balance account asset class =
      let r = p.shown (assets_balance_request account (to_uint64 class) (to_uint64 asset)) in
      within_op p (outcome (balance (perform p.bl Account.assets_balance r)))

  unfoldable pub transfer : String → String → Option ℕ → Option String
  transfer wallet chain none = none
  transfer wallet chain (some amount) =
      Client.transfer_to_fula p.bl chain (p.shown (transfer_to_fula_request wallet amount chain))

  unfoldable pub transfer_to_fula : String → String → String → Outcome × Client
  unfolding within_op outcome transfer
  transfer_to_fula amount wallet chain =
      within_op p (outcome (transfer wallet chain (p.parse_uint amount)))

  unfoldable pub body_or_error : Outcome → String
  body_or_error client_closed = p.error_json client_closed
  body_or_error failed = p.error_json failed
  body_or_error (answered body) = body

  -- The errors are in the result.
  unfoldable pub replicate_in_pool : String → String → ℤ → String
  unfolding call body_or_error
  replicate_in_pool cids account id =
      body_or_error
        (call p Pool.replicate_in_pool (replicate_request (split_char b'|' cids) account id)).0
