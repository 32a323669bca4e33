-- ===== src/Pool/Settings.antt =====
-- cmd/blox/main.go: getPoolNameFromConfig, getChainNameFromConfig, updatePoolName, updateChainName;
-- blockchain/bl_pool.go: cleanLeaveJoinPool, clearPoolConfig and the marker files.
pub mod Cleared
pub mod Marks
pub mod Members
use go_fula.Prelude.{
  ℕ, ◌+◌, ◌-◌, ◌%◌, String, Bool, true, false, ◌||◌, ◌&&◌, not, Option, none, some, List, [], ◌∷◌,
  ◌++◌, ◌==◌, if◌then◌else◌,
}
use go_fula.Evm.Hex.{Text, codes}
use go_fula.Evm.Abi.{text_eq}
use go_fula.Pool.{Config, File, missing, empty, garbled, holds, World, Env}

-- The name of no pool.
unfoldable pub no_pool : Text → Bool
no_pool name = text_eq name [] || text_eq name (b'0' ∷ [])

-- A tick later.
unfoldable pub later : World → World
later w = record w { tick = w.tick + 1 }

-- yaml.Unmarshal into the shared app.config
unfoldable pub load : File → World → Bool × World
load missing w = (false, w)
load empty w = (true, w)
load garbled w = (false, w)
load (holds c) w = (true, record w { app = c })

unfoldable pub written : Config → Option File → World → Bool × World
written c none w = (true, record w { file = holds c })
written c (some left) w = (false, record w { file = left })

-- The pool that the config has after the clean-up.
unfoldable pub confirm_cleared : Text × World → Bool × World
unfolding no_pool
confirm_cleared (name, w) = (no_pool name, w)

-- poolKey
unfoldable pub pool_key : String → Text → Text
pool_key chain pool = codes chain ++ codes ":" ++ pool

unfoldable pub is_key : Option Text → String → Text → Bool
unfolding pool_key text_eq
is_key none chain pool = false
is_key (some content) chain pool = text_eq content (pool_key chain pool)

unfoldable pub confirm : Text → Option (Option Text) → World → World
confirm key none w = record w { confirmed = some key }
confirm key (some left) w = record w { confirmed = left }

module _ (env : Env) where
  unfoldable pub read_config : World → Bool × World
  unfolding load later
  read_config w = if env.can_read w.tick then load w.file (later w) else (false, later w)

  unfoldable pub get_pool_name : World → Text × World
  unfolding read_config
  get_pool_name w = let (ok, w') = read_config w in (if ok then w'.app.pool_name else codes "0", w')

  unfoldable pub get_chain_name : World → String × World
  unfolding read_config
  get_chain_name w = let (ok, w') = read_config w in (if ok then w'.app.chain_name else "", w')

  -- The new config is in memory before it is written.
  unfoldable pub write_config : Config → World → Bool × World
  unfolding written later
  write_config c w = written c (env.write_fails w.tick) (later (record w { app = c }))

  unfoldable pub set_pool_name : Text → Bool × World → Bool × World
  unfolding write_config text_eq
  set_pool_name name (false, w) = (false, w)
  set_pool_name name (true, w) =
      if text_eq w.app.pool_name name
      then (true, w)
      else write_config (record { pool_name = name; chain_name = w.app.chain_name }) w

  unfoldable pub update_pool_name : Text → World → Bool × World
  unfolding set_pool_name read_config
  update_pool_name name w = set_pool_name name (read_config w)

  unfoldable pub set_chain_name : String → Bool × World → Bool × World
  unfolding write_config
  set_chain_name name (false, w) = (false, w)
  set_chain_name name (true, w) =
      if w.app.chain_name == name
      then (true, w)
      else write_config (record { pool_name = w.app.pool_name; chain_name = name }) w

  unfoldable pub update_chain_name : String → World → Bool × World
  unfolding set_chain_name read_config
  update_chain_name name w = set_chain_name name (read_config w)

  -- clearPoolMemberConfirmed; the file stays if it cannot be removed.
  unfoldable pub clear_pool_member_confirmed : World → World
  unfolding later
  clear_pool_member_confirmed w =
      if env.can_remove w.tick then later (record w { confirmed = none }) else later w

  -- StopPingServer, the end of the fetch of users, and clearPoolPeersFromPeerAddr
  unfoldable pub stop_services : World → World
  stop_services w = record w { ping_on = false; fetching = false; members = 0 }

  unfoldable pub clean_leave_join_pool : World → World
  unfolding update_pool_name update_chain_name clear_pool_member_confirmed stop_services
  clean_leave_join_pool w =
      let (ok, w₁) = update_pool_name (codes "0") w in
      let (ok', w₂) = update_chain_name "" w₁ in stop_services (clear_pool_member_confirmed w₂)

  unfoldable pub clear_chain : Bool × World → Bool × World
  unfolding clean_leave_join_pool confirm_cleared get_pool_name
  clear_chain (false, w) = (false, w)
  clear_chain (true, w) = confirm_cleared (get_pool_name (clean_leave_join_pool w))

  unfoldable pub clear_pool : Bool × World → Bool × World
  unfolding clear_chain update_chain_name
  clear_pool (false, w) = (false, w)
  clear_pool (true, w) = clear_chain (update_chain_name "" w)

  -- clearPoolConfig; `false` is an error.
  unfoldable pub clear_pool_config : World → Bool × World
  unfolding clear_pool update_pool_name
  clear_pool_config w = clear_pool (update_pool_name (codes "0") w)

  unfoldable pub trimmed : Bool → Option Text → Option Text
  trimmed true (some content) = some (env.trim_space content)
  trimmed _ _ = none

  unfoldable pub read_pool_member_confirmed : World → Option Text × World
  unfolding trimmed later
  read_pool_member_confirmed w = (trimmed (env.can_read w.tick) w.confirmed, later w)

  unfoldable pub record_pool_member_confirmed : String → Text → World → World
  unfolding read_pool_member_confirmed is_key confirm pool_key later
  record_pool_member_confirmed chain pool w =
      let (content, w') = read_pool_member_confirmed w in
      if is_key content chain pool
      then w'
      else confirm (pool_key chain pool) (env.confirm_fails w'.tick) (later w')
