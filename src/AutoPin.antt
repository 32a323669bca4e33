-- ===== src/AutoPin.antt =====
-- blockchain/bl_autopin.go: pairing the device with a pinning service, kept in box_props.json
-- (wap/pkg/config/properties.go). The file is taken as the map that is read back from it.
pub mod Kept
pub mod Secret
mod Examples
use go_fula.Prelude.{
  ℕ, String, Bool, true, false, not, ◌&&◌, ◌||◌, Option, none, some, List, [], ◌∷◌, ◌==◌,
  if◌then◌else◌, is_some, Assoc, lookup, put, delete,
}

-- A value of the file: a text, null, or anything else, by its JSON.
pub data Value : Type 0 where
  text : String → Value
  null : Value
  other : String → Value

-- `unreadable` is a file that is missing or that json.Unmarshal refuses; `nil_map` is the JSON null.
pub data Properties : Type 0 where
  unreadable nil_map : Properties
  properties : Assoc Value → Properties

-- What a failed write leaves of the file, what uuid.New gives, and the id of the hardware.
pub record Env : Type 0 where
  pub write_fails : Option Properties
  pub new_uuid : String
  pub hardware_id : Option String

pub data Reply : Type 0 where
  failed : ℕ → Reply
  paired : (state secret hardware_id : String) → Reply
  refreshed unpaired panics : Reply

unfoldable pub or_empty : Option String → String
or_empty none = ""
or_empty (some s) = s

unfoldable pub write_properties : Option Properties → Properties → Bool × Properties
write_properties none new = (true, new)
write_properties (some left) new = (false, left)

unfoldable pub after_write : Reply → Bool × Properties → Reply × Properties
after_write r (true, file) = (r, file)
after_write r (false, file) = (failed 500, file)

unfoldable pub put_token : String → String → Assoc Value → Assoc Value
put_token token endpoint m =
    put "auto_pin_endpoint" (text endpoint) (put "auto_pin_token" (text token) m)

-- `existingSecret != nil && existingSecret != ""`, of the value if there is one.
unfoldable pub is_secret : Option Value → Bool
is_secret none = false
is_secret (some null) = false
is_secret (some (text s)) = not (s == "")
is_secret (some (other json)) = true

module _ (env : Env) where
  -- The conversion of the secret to a string panics on another type, after the write.
  unfoldable pub already : Option Value → Reply
  unfolding or_empty
  already (some (text s)) = paired "already_paired" s (or_empty env.hardware_id)
  already _ = panics

  unfoldable pub pair_again : Option Value → String → String → Assoc Value → Reply × Properties
  unfolding already after_write write_properties put_token
  pair_again secret token endpoint m =
      after_write (already secret)
        (write_properties env.write_fails (properties (put_token token endpoint m)))

  unfoldable pub pair_new : String → String → Assoc Value → Reply × Properties
  unfolding after_write write_properties put_token or_empty
  pair_new token endpoint m =
      after_write (paired "paired" env.new_uuid (or_empty env.hardware_id)) (
        write_properties env.write_fails (
          properties
            (put "auto_pin_pairing_secret" (text env.new_uuid) (put_token token endpoint m))))

  -- With the nil map the first assignment panics.
  unfoldable pub pair_with : String → String → Properties → Reply × Properties
  unfolding pair_again pair_new is_secret
  pair_with token endpoint unreadable = pair_new token endpoint []
  pair_with token endpoint nil_map = (panics, nil_map)
  pair_with token endpoint (properties m) =
      let secret = lookup "auto_pin_pairing_secret" m in
      if is_secret secret then pair_again secret token endpoint m else pair_new token endpoint m

  -- The body is the token and the endpoint, `none` if it is not parsed.
  unfoldable pub handle_auto_pin_pair : Option (String × String) → Properties → Reply × Properties
  unfolding pair_with
  handle_auto_pin_pair none file = (failed 400, file)
  handle_auto_pin_pair (some (token, endpoint)) file =
      if token == "" || endpoint == "" then (failed 400, file) else pair_with token endpoint file

  unfoldable pub refresh_with : String → Properties → Reply × Properties
  unfolding after_write write_properties
  refresh_with token unreadable = (failed 404, unreadable)
  refresh_with token nil_map = (failed 404, nil_map)
  refresh_with token (properties m) =
      if is_some (lookup "auto_pin_token" m)
      then after_write refreshed
          (write_properties env.write_fails (properties (put "auto_pin_token" (text token) m)))
      else (failed 404, properties m)

  unfoldable pub handle_auto_pin_refresh : Option String → Properties → Reply × Properties
  unfolding refresh_with
  handle_auto_pin_refresh none file = (failed 400, file)
  handle_auto_pin_refresh (some token) file =
      if token == "" then (failed 400, file) else refresh_with token file

  unfoldable pub handle_auto_pin_unpair : Properties → Reply × Properties
  unfolding after_write write_properties
  handle_auto_pin_unpair unreadable = (failed 404, unreadable)
  handle_auto_pin_unpair nil_map = after_write unpaired (write_properties env.write_fails nil_map)
  handle_auto_pin_unpair (properties m) = after_write unpaired (
      write_properties env.write_fails (
        properties (
          delete "auto_pin_pairing_secret"
            (delete "auto_pin_endpoint" (delete "auto_pin_token" m)))))

pub data Call : Type 0 where
  pair : Option (String × String) → Call
  refresh : Option String → Call
  unpair : Call

unfoldable pub handle : Env → Call → Properties → Reply × Properties
unfolding handle_auto_pin_pair handle_auto_pin_refresh handle_auto_pin_unpair
handle env (pair body) file = handle_auto_pin_pair env body file
handle env (refresh body) file = handle_auto_pin_refresh env body file
handle env unpair file = handle_auto_pin_unpair env file

-- The file after a sequence of requests, each in its own environment.
unfoldable pub handle_all : List (Env × Call) → Properties → Properties
unfolding handle
handle_all [] file = file
handle_all ((env, c) ∷ cs) file = handle_all cs (handle env c file).1
