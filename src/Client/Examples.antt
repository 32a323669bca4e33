-- ===== src/Client/Examples.antt =====
-- A paired phone, and its device.
use go_fula.Prelude.{
  ℕ, String, Bool, true, false, Option, none, some, ◌≡◌, ◌≢◌, refl, inl, inr, [], ◌∷◌, ◌++◌, arith,
  is_some,
}
use go_fula.Access.Actions
use go_fula.Access.Actions.{Action, name}
use go_fula.Access.Proxy
use go_fula.Access.Proxy.{Server, Handler, new_server, authorized, dispatch, handler}
use go_fula.Pool.Cancel.{unsent, returned}
use go_fula.Client.{perform, response_body, request_body, transfer_to_fula}
use go_fula.Client.Device.{Wifi, Json}
use go_fula.Client.Node.{Node, answer, paired}
use go_fula.Client.Answered.{
  perform-answer, perform-Reached, transfer_to_fula-Unreachable, delete_wifi-Lost,
}
use go_fula.Client.Operations.Account
use go_fula.Client.Operations.Blox
use go_fula.Client.Operations.Manifest
use go_fula.Client.Operations.Pool

abbrev wifi : Wifi
wifi = record {
  blox_free_space = none;
  erase_bl_data = "erased";
  wifi_removeall = "removed";
  reboot = "rebooting";
  partition = "partitioning";
  delete_fula_config = "deleted";
  delete_wifi = λ c. c;
  disconnect_named_wifi = λ c. c;
  fetch_container_logs = λ c t. inr "three lines";
  find_best_and_target_in_logs = λ c t. inr ("12", "13");
  get_folder_size = λ p. some "4096";
  get_datastore_size = none;
  get_docker_image_build_dates = none;
  get_cluster_info = some "cluster";
}

abbrev json : Json
json = record {
  wifi_request = λ b. some b;
  logs_request = λ b. some (b, "3");
  best_request = λ b. some (b, "3");
  folder_request = λ b. some b;
  datastore_request = λ b. true;
  action_request = λ a b. true;
  is_object = λ b. false;
  free_space_zero = "no disk";
  logs_response = λ ok msg. msg;
  best_response = λ best target e. best;
  folder_empty = "";
  datastore_empty = "";
  images_empty = "";
  cluster_info_empty = "";
  error_response = λ m d. d;
  call_error = λ s. "An error occurred";
  reencoded = λ a b. b;
}

abbrev pub device : Node
device = record {
  server = new_server "phone" "blox";
  from = "phone";
  decode = λ b. none;
  wifi = wifi;
  json = json;
  call = λ m a b. returned "seeded" 200;
  other = λ h b. unsent;
}

abbrev pub encode : String → Option String
encode r = some r

logs_are_fetched :
    perform (paired encode device) Blox.fetch_container_logs "kubo" ≡ some "three lines"
unfolding perform paired authorized Actions.action_of Proxy.rule go_fula.Prelude.has
    go_fula.Prelude.lookup new_server go_fula.Prelude.put Proxy.dispatch handler
    go_fula.Client.Device.handle_fetch_container_logs
logs_are_fetched = refl

perform-answer_test :
    perform (paired encode device) Account.seeded "seed"
    ≡ response_body
        (some 202)
        (answer device (Proxy.handle_action Proxy.post Actions.seeded) "seed")
unfolding request_body paired authorized Actions.action_of Proxy.rule go_fula.Prelude.has
    go_fula.Prelude.lookup new_server go_fula.Prelude.put handler
perform-answer_test =
    perform-answer encode device Account.seeded "seed" "seed"
      (Proxy.handle_action Proxy.post Actions.seeded) refl refl refl (λ same. cc same)

perform-Reached_example :
    (authorized device.server device.from (name Actions.fetch_container_logs) ≡ true)
    × (is_some (handler Actions.fetch_container_logs) ≡ true)
unfolding perform paired authorized Actions.action_of Proxy.rule go_fula.Prelude.has
    go_fula.Prelude.lookup new_server go_fula.Prelude.put Proxy.dispatch handler
    go_fula.Client.Device.handle_fetch_container_logs
perform-Reached_example =
    perform-Reached encode device Blox.fetch_container_logs "kubo" 202 "three lines" refl
      (omega arith) refl

delete_wifi-Lost_example :
    (perform (paired encode device) Blox.delete_wifi "home" ≡ none)
    × (perform (paired encode device) Blox.disconnect_wifi "home" ≡ none)
delete_wifi-Lost_example = delete_wifi-Lost encode device "home"

transfer_to_fula-Unreachable_example :
    (perform (paired encode device) Account.account_create "" ≡ none)
    × (perform (paired encode device) Account.account_balance "" ≡ none)
    × (perform (paired encode device) Account.account_fund "" ≡ none)
    × (perform (paired encode device) Pool.pool_user_list "" ≡ none)
    × (perform (paired encode device) Manifest.manifest_batch_store "" ≡ none)
    × (transfer_to_fula (paired encode device) "goerli" "" ≡ none)
transfer_to_fula-Unreachable_example = transfer_to_fula-Unreachable encode device ""
