-- ===== src/Pool.antt =====
-- A device's membership of a pool, in package blockchain (bl_pool.go) and in cmd/blox/main.go: the
-- configured pool and chain, the marker files, the answers of the chain, and the two ways to leave.
-- This file: the environment and the state that the operations pass on.
pub mod Settings
pub mod Status
pub mod Leave
pub mod Join
pub mod Membership
pub mod Listing
pub mod Creator
pub mod Cancel
pub mod Digits
pub mod Reconcile
pub mod Examples
use go_fula.Prelude.{
  ℕ, zero, suc, ◌+◌, ◌-◌, ◌*◌, ◌/◌, ◌%◌, ◌^◌, String, Bool, ◌&&◌, Option, none, some, List, [], ◌∷◌,
  ltb, leb, if◌then◌else◌,
}
use go_fula.Evm.Hex.{Text}
use go_fula.Evm.Rpc.{Network}
use go_fula.Evm.PeerIds.{Multibase}

-- The two fields of config.yaml that this code reads and writes.
pub record Config : Type 0 where
  pub pool_name : Text
  pub chain_name : String

-- config.yaml: missing, empty (a parse succeeds and changes nothing), not YAML, or a config.
pub data File : Type 0 where
  missing : File
  empty : File
  garbled : File
  holds : Config → File

-- `tick` counts what the environment has answered. `confirmed` and `cleared_at` are the contents of
-- the marker files, the second in nanoseconds, `none` if it has no time; `ping_on` and `fetching`
-- hold while the ping server and the fetch of users run; `restarts` counts the calls of the hook
-- that restarts the services.
pub record World : Type 0 where
  pub tick : ℕ
  pub app : Config
  pub file : File
  pub confirmed : Option Text
  pub cleared_at : Option ℕ
  pub ping_on : Bool
  pub fetching : Bool
  pub members : ℕ
  pub restarts : ℕ

-- The environment: the network, and at each tick whether a file can be read or removed, what a
-- failed write leaves in the file (`none` if the write succeeds), whether the disabling flag is
-- there, and what other goroutines make of the config meanwhile.
pub record Env : Type 0 where
  pub net : Network
  pub mb : Multibase
  pub cluster : Option Text  -- the id of the ipfs-cluster peer
  pub pool_host : Bool
  pub can_read : ℕ → Bool
  pub can_read_mark : ℕ → Bool
  pub can_remove : ℕ → Bool
  pub write_fails : ℕ → Option File
  pub confirm_fails : ℕ → Option (Option Text)
  pub mark_fails : ℕ → Option (Option ℕ)
  pub disabled : ℕ → Bool
  pub meanwhile : ℕ → Config × File → Config × File
  pub big_int : Text → ℕ  -- the value of a word, by math/big
  pub trim_space : Text → Text  -- strings.TrimSpace

-- Go's `int`
pub data ℤ : Type 0 where
  pos : ℕ → ℤ
  negsuc : ℕ → ℤ

-- The digits of a number below 10 ^ (suc fuel), in front of a text.
digits : ℕ → ℕ → Text → Text
digits zero n rest = (n % 10 + b'0') ∷ rest
digits (suc fuel) n rest =
    let more = digits fuel (n / 10) ((n % 10 + b'0') ∷ rest) in
    if ltb n 10 then (n + b'0') ∷ rest else more

-- strconv.Itoa, for the 19 digits of an int64
unfoldable pub itoa : ℤ → Text
unfolding digits
itoa (pos n) = digits 18 n []
itoa (negsuc n) = b'-' ∷ digits 18 (n + 1) []

-- The conversion uint32(n)
unfoldable pub to_uint32 : ℤ → ℕ
to_uint32 (pos n) = n % 2 ^ 32
to_uint32 (negsuc n) = 2 ^ 32 - 1 - n % 2 ^ 32

-- The value of decimal digits.
decimal : ℕ → Text → Option ℕ
decimal n [] = some n
decimal n (c ∷ s) =
    let rest = decimal (n * 10 + (c - b'0')) s in if leb b'0' c && leb c b'9' then rest else none

within_uint32 : Option ℕ → Option ℕ
within_uint32 none = none
within_uint32 (some n) = if ltb n (2 ^ 32) then some n else none

-- strconv.ParseUint(s, 10, 32)
unfoldable pub parse_uint32 : Text → Option ℕ
unfolding decimal within_uint32
parse_uint32 [] = none
parse_uint32 (c ∷ s) = within_uint32 (decimal 0 (c ∷ s))
