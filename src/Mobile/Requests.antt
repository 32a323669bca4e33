-- ===== src/Mobile/Requests.antt =====
-- What a call of the app is: the requests of mobile/blockchain.go, on the client of the phone and the
-- life of it.
pub mod Calls
pub mod Sent
use go_fula.Prelude.{
  ℕ, ◌-◌, ◌%◌, ◌^◌, ◌≡◌, String, Bool, true, false, Option, none, some, List, [], ◌∷◌, split_char,
}
use go_fula.Pool.{ℤ, pos, negsuc}
use go_fula.Client
use go_fula.Client.{Operation, perform}
use go_fula.Client.Operations.Account
use go_fula.Client.Operations.Blox
use go_fula.Client.Operations.Manifest
use go_fula.Client.Operations.Plugins
use go_fula.Client.Operations.Pool
use go_fula.Mobile.{Client, begin_op, done}

-- The requests of package blockchain, with their fields in the order of the types; a map of strings
-- is the list of its entries.
pub data Request : Type 0 where
  no_request pool_list_request get_datastore_size_request : Request
  account_exists_request account_balance_request delete_wifi_request : String → Request
  get_folder_size_request auto_pin_refresh_request : String → Request
  fetch_container_logs_request find_best_and_target_in_logs_request : String → String → Request
  auto_pin_pair_request : String → String → Request
  assets_balance_request : String → ℕ → ℕ → Request
  account_fund_request : ℕ → String → Request
  transfer_to_fula_request : String → ℕ → String → Request
  pool_join_request : ℤ → String → String → Request
  pool_leave_request : ℤ → String → Request
  pool_cancel_join_request pool_requests_request pool_user_list_request : ℤ → Request
  manifest_available_request : ℤ → Request
  manifest_batch_upload_request : List String → ℤ → ℤ → Request
  replicate_request : List String → String → ℤ → Request
  plugin_request : List (String × String) → Request

pub data Outcome : Type 0 where
  client_closed : Outcome
  failed : Outcome
  answered : String → Outcome

-- The client's life, the device, the methods of FxBlockchain, which take a request as `shown` writes
-- it, strconv.ParseUint for 64 bits, what encoding/json reads and writes for an amount, and the JSON
-- for an outcome that is an error.
pub record Phone : Type 0 where
  pub life : Client
  pub blox_pid : String
  pub bl : Client.Client
  pub shown : Request → String
  pub parse_uint : String → Option ℕ
  pub amount_of : String → Option ℕ
  pub amount_json : ℕ → Option String
  pub error_json : Outcome → String

-- uint64 of an int.
unfoldable pub to_uint64 : ℤ → ℕ
to_uint64 (pos n) = n % 2 ^ 64
to_uint64 (negsuc n) = 2 ^ 64 - 1 - n % 2 ^ 64

unfoldable pub outcome : Option String → Outcome
outcome none = failed
outcome (some body) = answered body

-- beginOp, the work, and the deferred done.
unfoldable pub gated : Option Client → Client → Outcome → Outcome × Client
gated none c o = (client_closed, c)
gated (some d) c o = (o, done d)

module _ (p : Phone) where
  unfoldable pub within_op : Outcome → Outcome × Client
  unfolding gated
  within_op o = gated (begin_op p.life) p.life o

  unfoldable pub call : Operation → Request → Outcome × Client
  unfolding within_op outcome
  call op r = within_op (outcome (perform p.bl op (p.shown r)))
