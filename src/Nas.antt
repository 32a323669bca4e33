-- ===== src/Nas.antt =====
-- blockchain/bl_nas.go: the credentials of the device's network share, for its owner.
pub mod Released
mod Examples
use go_fula.Prelude.{
  ℕ, suc, String, Bool, true, false, not, ◌&&◌, ◌||◌, Option, none, some, List, ◌==◌, if◌then◌else◌,
  ltb, take, length,
}
use go_fula.Evm.Hex.{Text}

-- nasCredentialsFile
pub record Credentials : Type 0 where
  pub username : String
  pub password : String
  pub share : String
  pub created_at : String

-- os.Open and io.ReadAll of the credentials file; `opened none` is a read that fails.
pub data Opened : Type 0 where
  not_exist open_error : Opened
  opened : Option Text → Opened

-- The decoded field of a request body, this device's kubo peer id, `none` for an error, the file,
-- json.Unmarshal of it, and the host's name.
pub record Env : Type 0 where
  pub decode_request : Text → Option String
  pub kubo_peer_id : Option String
  pub file : Opened
  pub parse : Text → Option Credentials
  pub hostname : String

pub data Reply : Type 0 where
  only : (code : ℕ) (state : String) → Reply
  released : Credentials → (hostname : String) → Reply

unfoldable pub nas_credentials_max_bytes : ℕ
nas_credentials_max_bytes = 4096

module _ (env : Env) where
  unfoldable pub check_credentials : Option Credentials → Reply
  check_credentials none = only 500 "malformed"
  check_credentials (some c) =
      if c.username == "" || c.password == "" then only 500 "malformed" else released c env.hostname

  unfoldable pub check_size : Option Text → Reply
  unfolding check_credentials nas_credentials_max_bytes
  check_size none = only 500 "error"
  check_size (some content) =
      let data' = take (suc nas_credentials_max_bytes) content in
      if ltb nas_credentials_max_bytes (length data')
      then only 500 "error"
      else check_credentials (env.parse data')

  unfoldable pub read_opened : Opened → Reply
  unfolding check_size
  read_opened not_exist = only 404 "not_provisioned"
  read_opened open_error = only 500 "error"
  read_opened (opened o) = check_size o

  unfoldable pub check_target : String → Option String → Reply
  unfolding read_opened
  check_target blox_peer_id none = only 503 "unavailable"
  check_target blox_peer_id (some self) =
      if self == ""
      then only 503 "unavailable"
      else if not (blox_peer_id == self)
      then only 400 "blox_peer_mismatch"
      else read_opened env.file

  unfoldable pub check_request : Option String → Reply
  unfolding check_target
  check_request none = only 400 "bad_request"
  check_request (some blox_peer_id) =
      if blox_peer_id == ""
      then only 400 "bad_request"
      else check_target blox_peer_id env.kubo_peer_id

  unfoldable pub handle_nas_credentials : Text → Reply
  unfolding check_request nas_credentials_max_bytes
  handle_nas_credentials body =
      check_request (env.decode_request (take nas_credentials_max_bytes body))
