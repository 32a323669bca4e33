-- ===== src/Access/Actions.antt =====
-- The actions of the proxy (the constants of blockchain/interface.go, and `auth` of
-- blockchain/blockchain.go), with the strings by which a request's path names them.
use go_fula.Prelude.{String, ◌≡◌, refl, Option, none, some, List, [], ◌∷◌, ◌==◌, if◌then◌else◌}

pub data Action : Type 0 where
  seeded account_exists account_create account_fund account_balance assets_balance : Action
  transfer_to_mumbai transfer_to_goerli pool_create pool_join pool_cancel_join pool_requests :
      Action
  pool_list pool_user_list pool_vote pool_leave manifest_upload manifest_store : Action
  manifest_batch_store manifest_batch_upload manifest_available manifest_remove : Action
  manifest_remove_storer manifest_remove_stored manifest_available_batch : Action
  manifest_available_allaccounts_batch blox_free_space erase_bl_data wifi_removeall reboot : Action
  partition delete_fula_config delete_wifi disconnect_wifi get_account fetch_container_logs : Action
  find_best_and_target_in_logs get_folder_size get_datastore_size get_docker_image_build_dates :
      Action
  get_cluster_info replicate_in_pool list_plugins install_plugin uninstall_plugin : Action
  show_plugin_status list_active_plugins get_install_output get_install_status update_plugin :
      Action
  chat_with_ai auto_pin_pair auto_pin_refresh auto_pin_unpair nas_credentials auth : Action

unfoldable pub name : Action → String
name seeded = "account-seeded"
name account_exists = "account-exists"
name account_create = "account-create"
name account_fund = "account-fund"
name account_balance = "account-balance"
name assets_balance = "asset-balance"
name transfer_to_mumbai = "fula-mumbai-convert_tokens"
name transfer_to_goerli = "fula-goerli-convert_tokens"
name pool_create = "fula-pool-create"
name pool_join = "fula-pool-join"
name pool_cancel_join = "fula-pool-cancel_join"
name pool_requests = "fula-pool-poolrequests"
name pool_list = "fula-pool"
name pool_user_list = "fula-pool-users"
name pool_vote = "fula-pool-vote"
name pool_leave = "fula-pool-leave"
name manifest_upload = "fula-manifest-upload"
name manifest_store = "fula-manifest-storage"
name manifest_batch_store = "fula-manifest-batch_storage"
name manifest_batch_upload = "fula-manifest-batch_upload"
name manifest_available = "fula-manifest-available"
name manifest_remove = "fula-manifest-remove"
name manifest_remove_storer = "fula-manifest-remove_storer"
name manifest_remove_stored = "fula-manifest-remove_storing_manifest"
name manifest_available_batch = "fula-manifest-available_batch"
name manifest_available_allaccounts_batch = "fula-manifest-available_allaccounts_batch"
name blox_free_space = "blox-free-space"
name erase_bl_data = "erase-blockchain-data"
name wifi_removeall = "wifi-removeall"
name reboot = "reboot"
name partition = "partition"
name delete_fula_config = "delete-fula-config"
name delete_wifi = "delete-wifi"
name disconnect_wifi = "disconnect-wifi"
name get_account = "get-account"
name fetch_container_logs = "fetch-container-logs"
name find_best_and_target_in_logs = "find-bestandtarget-inlogs"
name get_folder_size = "get-folder-size"
name get_datastore_size = "get-datastore-size"
name get_docker_image_build_dates = "get-docker-image-build-dates"
name get_cluster_info = "get-cluster-info"
name replicate_in_pool = "replicate"
name list_plugins = "list-plugins"
name install_plugin = "install-plugin"
name uninstall_plugin = "uninstall-plugin"
name show_plugin_status = "show-plugin-status"
name list_active_plugins = "list-active-plugins"
name get_install_output = "get-install-output"
name get_install_status = "get-install-status"
name update_plugin = "update-plugin"
name chat_with_ai = "chat-ai"
name auto_pin_pair = "auto-pin-pair"
name auto_pin_refresh = "auto-pin-refresh"
name auto_pin_unpair = "auto-pin-unpair"
name nas_credentials = "nas-credentials"
name auth = "auth"

abbrev pub all_actions : List Action
all_actions =
    seeded ∷ account_exists ∷ account_create ∷ account_fund ∷ account_balance ∷ assets_balance
    ∷ transfer_to_mumbai ∷ transfer_to_goerli ∷ pool_create ∷ pool_join ∷ pool_cancel_join
    ∷ pool_requests ∷ pool_list ∷ pool_user_list ∷ pool_vote ∷ pool_leave ∷ manifest_upload
    ∷ manifest_store ∷ manifest_batch_store ∷ manifest_batch_upload ∷ manifest_available
    ∷ manifest_remove ∷ manifest_remove_storer ∷ manifest_remove_stored ∷ manifest_available_batch
    ∷ manifest_available_allaccounts_batch ∷ blox_free_space ∷ erase_bl_data ∷ wifi_removeall
    ∷ reboot ∷ partition ∷ delete_fula_config ∷ delete_wifi ∷ disconnect_wifi ∷ get_account
    ∷ fetch_container_logs ∷ find_best_and_target_in_logs ∷ get_folder_size ∷ get_datastore_size
    ∷ get_docker_image_build_dates ∷ get_cluster_info ∷ replicate_in_pool ∷ list_plugins
    ∷ install_plugin ∷ uninstall_plugin ∷ show_plugin_status ∷ list_active_plugins
    ∷ get_install_output ∷ get_install_status ∷ update_plugin ∷ chat_with_ai ∷ auto_pin_pair
    ∷ auto_pin_refresh ∷ auto_pin_unpair ∷ nas_credentials ∷ auth ∷ []

unfoldable pub named_in : List Action → String → Option Action
unfolding name
named_in [] s = none
named_in (a ∷ rest) s = if name a == s then some a else named_in rest s

-- The action that a string names, as the `switch` and the map of the source find it.
unfoldable pub action_of : String → Option Action
unfolding named_in
action_of s = named_in all_actions s

-- No two actions have the same string: every action is found under its own.
pub action_of-name : (a : Action) → action_of (name a) ≡ some a
unfolding action_of
action_of-name seeded = refl
action_of-name _ = refl
