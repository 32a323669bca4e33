-- ===== src/Exchange/Requests.antt =====
-- The requests of exchange/fx_exchange.go: `serve`, `handlePush`, `handlePull`,
-- `handleAuthorization` and `decodeAndStoreBlock`, and the device's own `Pull` and `PullBlock`.
pub mod Paths
pub mod Kept
pub mod Owners
pub mod Config
pub mod Answered
pub mod Temporary
use Prim.Native.Char.{Char, code}
use Prim.Native.String
use go_fula.Prelude.{
  split_char, ℕ, ◌+◌, zero, suc, String, Bool, true, false, not, ◌&&◌, Option, none, some, List, [],
  ◌∷◌, ◌++◌, ◌==◌, if◌then◌else◌, eqb, get_elem?, lookup, has,
}
use go_fula.Exchange.Peers.{Peers, TempAuth, Hooks, authorized, change_auth, grant_push}

pub data Method : Type 0 where
  get post other : Method

-- `body` is `none` if it cannot be read.
pub record Request : Type 0 where
  pub remote_addr : String
  pub method : Method
  pub path : String
  pub body : Option String

pub data Reply : Type 0 where
  status : ℕ → Reply
  raw : String → Reply

pub data Loaded : Type 0 where
  found : String → Loaded
  not_found load_error : Loaded

-- libp2p, go-cid, go-ipld-prime and encoding/json: peer.Decode, cid.Decode, Cid.String,
-- LookupDecoder of the codec of a cid, the link that LinkSystem.Store gives a node under the
-- prototype of a cid, LinkSystem.LoadRaw, and json.Unmarshal into the two kinds of requests.
pub record Platform (Cid Node : Type 0) : Type 0 where
  pub decode_peer : String → Option String
  pub decode_cid : String → Option Cid
  pub print_cid : Cid → String
  pub decoder : Cid → Option (Option String → Option Node)
  pub store : Cid → Node → Option Cid
  pub load_raw : List (Cid × Node) → Cid → Loaded
  pub parse_pull : String → Option Cid
  pub parse_authorization : String → Option (String × Bool)
  pub hooks : Hooks

-- The access state, the stored blocks, the links that the IPNI publisher was notified of, and the
-- pushes that were started in answer to a pull.
pub record FxExchange (Cid Node : Type 0) : Type 0 where
  pub peers : Peers
  pub blocks : List (Cid × Node)
  pub notified : List Cid
  pub pushes : List (String × Cid)

-- strings.TrimPrefix(path, "/")
unfoldable pub trim_slash : String → String
trim_slash String.[] = ""
trim_slash (String.◌∷◌ c s) = if eqb (code c) b'/' then s else String.◌∷◌ c s

unfoldable pub or_empty : Option String → String
or_empty none = ""
or_empty (some s) = s

-- The action and the cid of a path.
unfoldable pub parts : String → String × String
unfolding trim_slash or_empty split_char
parts path =
    let segments = split_char b'/' (trim_slash path) in
    (or_empty (get_elem? segments 0), or_empty (get_elem? segments 1))

module _ {Cid Node : Type 0} (p : Platform Cid Node) where
  unfoldable pub stored : Node → Option Cid → FxExchange Cid Node → Bool × FxExchange Cid Node
  stored node none s = (false, s)
  stored node (some link) s = (
    true,
    record s { blocks = s.blocks ++ ((link, node) ∷ []); notified = s.notified ++ (link ∷ []) },
  )

  unfoldable pub store_decoded :
      Cid → Option Node → FxExchange Cid Node → Bool × FxExchange Cid Node
  unfolding stored
  store_decoded link none s = (false, s)
  store_decoded link (some node) s = stored node (p.store link node) s

  unfoldable pub decode_with :
      Cid
      → Option String
      → Option (Option String → Option Node)
      → FxExchange Cid Node
      → Bool × FxExchange Cid Node
  unfolding store_decoded
  decode_with link body none s = (false, s)
  decode_with link body (some decode) s = store_decoded link (decode body) s

  unfoldable pub decode_and_store_block :
      Option String → Cid → FxExchange Cid Node → Bool × FxExchange Cid Node
  unfolding decode_with
  decode_and_store_block body link s = decode_with link body (p.decoder link) s

  unfoldable pub push_at :
      Option Cid → Option String → FxExchange Cid Node → Reply × FxExchange Cid Node
  unfolding decode_and_store_block
  push_at none body s = (status 400, s)
  push_at (some cid) body s =
      let (ok, s') = decode_and_store_block body cid s in
      (if ok then status 200 else status 400, s')

  unfoldable pub handle_push : Request → String → FxExchange Cid Node → Reply × FxExchange Cid Node
  unfolding push_at
  handle_push r c s = elim r.method [
    | post ↦ push_at (p.decode_cid c) r.body s
    | _ ↦ (status 405, s)
  ]

  unfoldable pub raw_reply : Loaded → Reply
  raw_reply (found bytes) = raw bytes
  raw_reply not_found = status 404
  raw_reply load_error = status 500

  unfoldable pub pull_at : Option Cid → FxExchange Cid Node → Reply
  unfolding raw_reply
  pull_at none s = status 400
  pull_at (some cid) s = raw_reply (p.load_raw s.blocks cid)

  unfoldable pub start_push :
      String → Option Cid → FxExchange Cid Node → Reply × FxExchange Cid Node
  start_push from none s = (status 400, s)
  start_push from (some link) s =
      (status 202, record s { pushes = s.pushes ++ ((from, link) ∷ []) })

  unfoldable pub parse_body : Option String → Option Cid
  parse_body none = none
  parse_body (some b) = p.parse_pull b

  unfoldable pub handle_pull :
      String → Request → String → FxExchange Cid Node → Reply × FxExchange Cid Node
  unfolding pull_at start_push parse_body
  handle_pull from r c s = elim r.method [
    | get ↦ (pull_at (p.decode_cid c) s, s)
    | post ↦ start_push from (parse_body r.body) s
    | other ↦ (status 405, s)
  ]

  unfoldable pub change_parsed :
      Option (String × Bool) → FxExchange Cid Node → Reply × FxExchange Cid Node
  unfolding change_auth
  change_parsed none s = (status 400, s)
  change_parsed (some (subject, allow)) s =
      let (ok, peers) = change_auth p.hooks subject allow s.peers in
      (if ok then status 200 else status 500, record s { peers = peers })

  unfoldable pub handle_authorization :
      Option String → FxExchange Cid Node → Reply × FxExchange Cid Node
  unfolding change_parsed
  handle_authorization none s = (status 500, s)
  handle_authorization (some b) s = change_parsed (p.parse_authorization b) s

  unfoldable pub serve_action :
      String → String → String → Request → FxExchange Cid Node → Reply × FxExchange Cid Node
  unfolding handle_pull handle_push handle_authorization
  serve_action from action c r s =
      if action == "pull"
      then handle_pull from r c s
      else if action == "push"
      then handle_push r c s
      else if action == "auth"
      then handle_authorization r.body s
      else (status 404, s)

  unfoldable pub serve_checked :
      String
      → String
      → String
      → Request
      → Bool × Peers
      → FxExchange Cid Node
      → Reply × FxExchange Cid Node
  unfolding serve_action
  serve_checked from action c r (ok, peers) s =
      let s' = record s { peers = peers } in
      if ok then serve_action from action c r s' else (status 401, s')

  unfoldable pub serve_from :
      Option String → Request → FxExchange Cid Node → Reply × FxExchange Cid Node
  unfolding serve_checked parts authorized
  serve_from none r s = (status 400, s)
  serve_from (some from) r s =
      let (action, c) = parts r.path in
      serve_checked from action c r (authorized from action c s.peers) s

  unfoldable pub serve : Request → FxExchange Cid Node → Reply × FxExchange Cid Node
  unfolding serve_from
  serve r s = serve_from (p.decode_peer r.remote_addr) r s

  unfoldable pub granted_to : String → Cid → ℕ → FxExchange Cid Node → FxExchange Cid Node
  unfolding grant_push
  granted_to from link now s = record s { peers = grant_push from (p.print_cid link) now s.peers }

  unfoldable pub is_status : ℕ → Option (ℕ × Option String) → Bool
  is_status n none = false
  is_status n (some (answered, none)) = false
  is_status n (some (answered, some b)) = eqb answered n

  -- `answer` is the status and the body of the other device's answer, `none` if none came.
  unfoldable pub pull :
      String
      → Cid
      → ℕ
      → Option (ℕ × Option String)
      → FxExchange Cid Node
      → Bool × FxExchange Cid Node
  unfolding granted_to is_status
  pull from link now answer s = (is_status 202 answer, granted_to from link now s)

  unfoldable pub store_answer :
      Cid → Option (ℕ × Option String) → FxExchange Cid Node → Bool × FxExchange Cid Node
  unfolding decode_and_store_block
  store_answer link none s = (false, s)
  store_answer link (some (answered, body)) s =
      if eqb answered 200 then decode_and_store_block body link s else (false, s)

  unfoldable pub pull_block :
      String
      → Cid
      → ℕ
      → Option (ℕ × Option String)
      → FxExchange Cid Node
      → Bool × FxExchange Cid Node
  unfolding granted_to store_answer
  pull_block from link now answer s = store_answer link answer (granted_to from link now s)
