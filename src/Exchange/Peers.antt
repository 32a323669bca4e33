-- ===== src/Exchange/Peers.antt =====
-- Who may push blocks to a device: `authorized`, `SetAuth`, `updateAuthorizePeers`, the temporary
-- authorizations of `Pull` and `PullBlock`, and `cleanupTempAuths` of exchange/fx_exchange.go.
pub mod Abstract
pub mod Refines
pub mod Held
pub mod History
pub mod Checks
use go_fula.Prelude.{
  ℕ, ◌+◌, ◌*◌, String, Bool, true, false, not, ◌&&◌, ◌||◌, Option, none, some, List, [], ◌∷◌, map,
  ◌==◌, if◌then◌else◌, eqb, leb, Assoc, lookup, put, delete, has,
}

-- Times in nanoseconds, on the monotonic clock.
pub record TempAuth : Type 0 where
  pub peer : String
  pub timestamp : ℕ

-- The fields of `FxExchange` that decide on access; `config_peers` is `options.authorizedPeers`.
pub record Peers : Type 0 where
  pub authorizer : String
  pub self_id : String
  pub authorized_peers : Assoc (Unit {0})
  pub temp_auths : Assoc TempAuth
  pub config_peers : List String

-- `iterate` is the order in which `range` visits the keys of a map; `update_config` is the hook of
-- the options, `none` for nil, and `false` its error.
pub record Hooks : Type 0 where
  pub iterate : List String → List String
  pub update_config : Option (List String → Bool)

unfoldable pub allow_peer : String → Bool → Peers → Peers
allow_peer subject true s = record s { authorized_peers = put subject tt s.authorized_peers }
allow_peer subject false s = record s { authorized_peers = delete subject s.authorized_peers }

unfoldable pub keys : Assoc (Unit {0}) → List String
keys m = map (λ x. x.0) m

unfoldable pub saved : Option (List String → Bool) → List String → Bool
saved none peers = true
saved (some save) peers = save peers

module _ (h : Hooks) where
  unfoldable pub get_authorized_peers : Peers → Peers
  unfolding keys
  get_authorized_peers s = record s { config_peers = h.iterate (keys s.authorized_peers) }

  -- The error is `false`.
  unfoldable pub update_authorize_peers : Peers → Bool × Peers
  unfolding get_authorized_peers saved
  update_authorize_peers s =
      let s' = get_authorized_peers s in (saved h.update_config s'.config_peers, s')

  unfoldable pub change_auth : String → Bool → Peers → Bool × Peers
  unfolding allow_peer update_authorize_peers
  change_auth subject allow s = update_authorize_peers (allow_peer subject allow s)

  unfoldable pub is_ok : Option ℕ → Bool
  is_ok none = false
  is_ok (some status) = eqb status 200

  -- `answer` is the status of another device's answer, `none` if there is none that can be read.
  unfoldable pub set_auth : Option ℕ → String → String → Bool → Peers → Bool × Peers
  unfolding change_auth is_ok
  set_auth answer on subject allow s =
      if on == s.self_id then change_auth subject allow s else (is_ok answer, s)

  unfoldable pub new_exchange : String → String → Bool × Peers
  unfolding set_auth
  new_exchange authorizer self =
      let s : Peers = record {
        authorizer = authorizer;
        self_id = self;
        authorized_peers = [];
        temp_auths = [];
        config_peers = [];
      } in
      if not (authorizer == "") then set_auth none self authorizer true s else (true, s)

unfoldable pub push_permitted : String → String → Option TempAuth → Peers → Bool × Peers
push_permitted pid cid none s = (has pid s.authorized_peers, s)
push_permitted pid cid (some entry) s =
    if entry.peer == pid
    then (true, record s { temp_auths = delete cid s.temp_auths })
    else (has pid s.authorized_peers, s)

unfoldable pub authorized : String → String → String → Peers → Bool × Peers
unfolding push_permitted
authorized pid action cid s =
    if (s.authorizer == s.self_id || s.authorizer == "") && not (action == "auth")
    then (true, s)
    else if s.authorizer == "" && action == "auth"
    then (false, s)
    else if action == "push"
    then push_permitted pid cid (lookup cid s.temp_auths) s
    else if action == "auth"
    then (pid == s.authorizer, s)
    else (action == "pull", s)

-- The entry that Pull and PullBlock make before they ask `from` for the block.
unfoldable pub grant_push : String → String → ℕ → Peers → Peers
grant_push from cid now s = record s {
  temp_auths = put cid (record { peer = from; timestamp = now }) s.temp_auths;
}

unfoldable pub five_minutes : ℕ
five_minutes = 5 * 60 * 1000000000

unfoldable pub expired : ℕ → TempAuth → Bool
unfolding five_minutes
expired now entry = leb (entry.timestamp + five_minutes) now

unfoldable pub remove_expired : ℕ → Assoc TempAuth → Assoc TempAuth
unfolding expired
remove_expired now [] = []
remove_expired now ((cid, entry) ∷ m) =
    let rest = remove_expired now m in
    if expired now entry then delete cid rest else (cid, entry) ∷ rest

unfoldable pub cleanup_temp_auths : ℕ → Peers → Peers
unfolding remove_expired
cleanup_temp_auths now s = record s { temp_auths = remove_expired now s.temp_auths }
