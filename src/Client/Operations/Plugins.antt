-- ===== src/Client/Operations/Plugins.antt =====
-- The requests of the methods in blockchain/bl_plugins.go, blockchain/bl_autopin.go, blockchain/bl_nas.go.
use go_fula.Prelude.{true, false, none, some}
use go_fula.Access.Actions.{Action}
use go_fula.Access.Proxy.{get, post}
use go_fula.Client.{Operation, operation}

abbrev pub list_plugins : Operation
list_plugins = operation get Action.list_plugins none false

abbrev pub install_plugin : Operation
install_plugin = operation post Action.install_plugin none true

abbrev pub uninstall_plugin : Operation
uninstall_plugin = operation post Action.uninstall_plugin none true

abbrev pub list_active_plugins : Operation
list_active_plugins = operation get Action.list_active_plugins none false

abbrev pub get_install_output : Operation
get_install_output = operation post Action.get_install_output none true

abbrev pub get_install_status : Operation
get_install_status = operation post Action.get_install_status none true

abbrev pub update_plugin : Operation
update_plugin = operation post Action.update_plugin none true

abbrev pub auto_pin_pair : Operation
auto_pin_pair = operation post Action.auto_pin_pair (some 200) true

abbrev pub auto_pin_refresh : Operation
auto_pin_refresh = operation post Action.auto_pin_refresh (some 200) true

abbrev pub auto_pin_unpair : Operation
auto_pin_unpair = operation post Action.auto_pin_unpair (some 200) false

abbrev pub nas_credentials : Operation
nas_credentials = operation post Action.nas_credentials (some 200) true
