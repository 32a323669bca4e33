-- ===== src/Wap/Cors.antt =====
-- wap/pkg/server/cors.go: which requests of browsers reach the setup server, and `lanSetupGuard` of
-- lanbind.go before it.
pub mod Passes
use Prim.Native.Char.{code}
use Prim.Native.String
use go_fula.Prelude.{
  ℕ, String, Bool, true, false, not, ◌&&◌, ◌||◌, Option, none, some, List, [], ◌∷◌, ◌==◌,
  if◌then◌else◌, eqb, leb, split_char, map,
}

-- strings.ToLower, strings.TrimSpace and strings.EqualFold, WAP_CORS_ORIGINS, and the authorizer in
-- the config file, `none` if it cannot be read.
pub record Env : Type 0 where
  pub to_lower : String → String
  pub trim_space : String → String
  pub equal_fold : String → String → Bool
  pub cors_origins : String
  pub authorizer : Option String

pub data Method : Type 0 where
  get head options other : Method

-- A header that is missing is "".
pub record Request : Type 0 where
  pub origin : String
  pub sec_fetch_site : String
  pub private_network : String
  pub method : Method
  pub path : String

-- The header fields for browsers: whether the origin is allowed, and the private network.
pub record Headers : Type 0 where
  pub vary : Bool
  pub allow_origin : Bool
  pub allow_private : Bool

-- A reply of the wrapper itself, or the request goes on to the routes.
pub data Outcome : Type 0 where
  status : ℕ → Headers → Outcome
  forwarded : Headers → Outcome

abbrev default_cors_origins : List String
default_cors_origins =
    "https://blox.fx.land" ∷ "https://docs.fx.land" ∷ "https://functionland.github.io" ∷ []

unfoldable pub mutating_get_path : String → Bool
mutating_get_path path =
    path == "/ap/enable"
    || path == "/ap/disable"
    || path == "/pools/join"
    || path == "/pools/leave"
    || path == "/pools/cancel"

unfoldable pub not_empty : List String → List String
not_empty [] = []
not_empty (o ∷ os) = let rest = not_empty os in if o == "" then rest else o ∷ rest

-- The digits of `\d+`, up to the end of the text.
unfoldable pub all_digits : String → Bool
all_digits String.[] = true
all_digits (String.◌∷◌ c s) =
    let rest = all_digits s in leb b'0' (code c) && leb (code c) b'9' && rest

-- `(:\d+)?$`
unfoldable pub port_or_end : Option String → Bool
unfolding all_digits
port_or_end none = false
port_or_end (some String.[]) = true
port_or_end (some (String.◌∷◌ c s)) = eqb (code c) b':' && not (s == "") && all_digits s

-- The rest of the text behind a prefix.
unfoldable pub strip_prefix : String → String → Option String
strip_prefix String.[] s = some s
strip_prefix (String.◌∷◌ c p) String.[] = none
strip_prefix (String.◌∷◌ c p) (String.◌∷◌ d s) =
    let rest = strip_prefix p s in if eqb (code c) (code d) then rest else none

-- localDevOrigin.MatchString
unfoldable pub local_dev_origin : String → Bool
unfolding port_or_end strip_prefix
local_dev_origin o =
    port_or_end (strip_prefix "http://localhost" o)
    || port_or_end (strip_prefix "http://127.0.0.1" o)

module _ (env : Env) where
  unfoldable pub allowed_cors_origins : List String
  unfolding not_empty split_char
  allowed_cors_origins =
      let raw = env.trim_space env.cors_origins in
      if raw == ""
      then default_cors_origins
      else not_empty (map env.trim_space (split_char b',' raw))

  unfoldable pub any_equal : String → List String → Bool
  any_equal origin [] = false
  any_equal origin (o ∷ os) =
      let rest = any_equal origin os in if env.equal_fold o origin then true else rest

  unfoldable pub origin_allowed : String → Bool
  unfolding allowed_cors_origins any_equal local_dev_origin
  origin_allowed origin =
      if origin == ""
      then false
      else any_equal origin allowed_cors_origins || local_dev_origin origin

  unfoldable pub cross_site_fetch : Request → Bool
  cross_site_fetch r =
      let sfs = env.to_lower r.sec_fetch_site in
      not (sfs == "") && not (sfs == "same-origin") && not (sfs == "none")

  unfoldable pub is_options : Method → Bool
  is_options options = true
  is_options _ = false

  unfoldable pub reads : Method → Bool
  reads get = true
  reads head = true
  reads _ = false

  unfoldable pub mutating : Request → Bool
  unfolding reads mutating_get_path
  mutating r = not (reads r.method) || mutating_get_path r.path

  unfoldable pub headers : Bool → Request → Headers
  headers allowed r =
      let known = not (r.origin == "") in
      record {
        vary = known;
        allow_origin = known && allowed;
        allow_private = known && allowed && env.equal_fold r.private_network "true";
      }

  unfoldable pub with_cors : Request → Outcome
  unfolding origin_allowed cross_site_fetch is_options mutating headers
  with_cors r =
      let allowed = origin_allowed r.origin in
      let h = headers allowed r in
      if r.origin == "" && not (cross_site_fetch r)
      then forwarded (record { vary = false; allow_origin = false; allow_private = false })
      else if not (r.origin == "") && is_options r.method
      then status (if allowed then 204 else 403) h
      else if mutating r && not allowed
      then status 403 h
      else forwarded h

  unfoldable pub blox_has_owner : Option String → Bool
  blox_has_owner none = false
  blox_has_owner (some authorizer) = not (env.trim_space authorizer == "")

  -- A request on a listener of the local network: lanSetupGuard(withCORS(mux))
  unfoldable pub lan_setup_guard : Request → Outcome
  unfolding blox_has_owner with_cors
  lan_setup_guard r =
      if blox_has_owner env.authorizer
      then status 403 (record { vary = false; allow_origin = false; allow_private = false })
      else with_cors r

unfoldable pub is_forwarded : Outcome → Bool
is_forwarded (status code h) = false
is_forwarded (forwarded h) = true
