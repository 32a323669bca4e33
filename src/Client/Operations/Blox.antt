-- ===== src/Client/Operations/Blox.antt =====
-- The requests of the methods in blockchain/blox.go.
use go_fula.Prelude.{true, false, some}
use go_fula.Access.Actions.{Action}
use go_fula.Access.Proxy.{get}
use go_fula.Client.{Operation, operation}

abbrev pub blox_free_space : Operation
blox_free_space = operation get Action.blox_free_space (some 200) false

abbrev pub erase_bl_data : Operation
erase_bl_data = operation get Action.erase_bl_data (some 200) false

abbrev pub wifi_removeall : Operation
wifi_removeall = operation get Action.wifi_removeall (some 200) false

abbrev pub reboot : Operation
reboot = operation get Action.reboot (some 200) false

abbrev pub partition : Operation
partition = operation get Action.partition (some 200) false

abbrev pub delete_fula_config : Operation
delete_fula_config = operation get Action.delete_fula_config (some 200) false

abbrev pub get_account : Operation
get_account = operation get Action.get_account (some 200) false

abbrev pub fetch_container_logs : Operation
fetch_container_logs = operation get Action.fetch_container_logs (some 202) true

abbrev pub find_best_and_target_in_logs : Operation
find_best_and_target_in_logs = operation get Action.find_best_and_target_in_logs (some 202) true

abbrev pub get_folder_size : Operation
get_folder_size = operation get Action.get_folder_size (some 202) true

abbrev pub get_datastore_size : Operation
get_datastore_size = operation get Action.get_datastore_size (some 202) true

abbrev pub get_docker_image_build_dates : Operation
get_docker_image_build_dates = operation get Action.get_docker_image_build_dates (some 200) false

abbrev pub get_cluster_info : Operation
get_cluster_info = operation get Action.get_cluster_info (some 200) false

abbrev pub delete_wifi : Operation
delete_wifi = operation get Action.delete_wifi (some 202) true

abbrev pub disconnect_wifi : Operation
disconnect_wifi = operation get Action.disconnect_wifi (some 202) true
